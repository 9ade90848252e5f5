-- ===== src/Fat/Datetime/Examples.antt =====
-- An afternoon on a BCD clock of twelve hours, and its time stamp.
use iaos.Prelude.{◌+◌, ◌/◌, ◌%◌, ◌≡◌, refl, true, false, some, [], ◌∷◌, arith}
use iaos.Fat.Datetime.{
  RtcTime, to_fat_datetime, decode_time, read_time, settle, bcd_to_binary, normalize_hours_12h,
}
use iaos.Fat.Datetime.Packed.{InRange, to_fat_datetime-unpack}
use iaos.Fat.Datetime.Clock.{Shows, registers, decode_time-registers}

abbrev afternoon : RtcTime
afternoon = record { year = 2026; month = 7; day = 23; hours = 15; minutes = 42; seconds = 59 }

afternoon-InRange : InRange afternoon
afternoon-InRange = record {
  from_1980 = omega arith;
  to_2107 = omega arith;
  month = omega arith;
  day = omega arith;
  hours = omega arith;
  minutes = omega arith;
  seconds = omega arith;
}

to_fat_datetime-unpack_example :
    ((to_fat_datetime afternoon).0 / 2048 ≡ 15)
    × ((to_fat_datetime afternoon).0 / 32 % 64 ≡ 42)
    × ((to_fat_datetime afternoon).0 % 32 ≡ 59 / 2)
    × ((to_fat_datetime afternoon).1 / 512 + 1980 ≡ 2026)
    × ((to_fat_datetime afternoon).1 / 32 % 16 ≡ 7)
    × ((to_fat_datetime afternoon).1 % 32 ≡ 23)
to_fat_datetime-unpack_example = to_fat_datetime-unpack afternoon afternoon-InRange

afternoon-Shows : Shows afternoon
afternoon-Shows = record {
  from_2000 = omega arith;
  to_2099 = omega arith;
  month = omega arith;
  day = omega arith;
  hours = omega arith;
  minutes = omega arith;
  seconds = omega arith;
}

decode_time-registers_example : decode_time (registers false false afternoon) ≡ afternoon
decode_time-registers_example = decode_time-registers false false afternoon afternoon-Shows

read_run :
    read_time (
      registers true true (record afternoon { seconds = 58 })
      ∷ registers false false afternoon
      ∷ registers false false afternoon
      ∷ [])
    ≡ some afternoon
unfolding read_time settle decode_time bcd_to_binary normalize_hours_12h
read_run = refl
