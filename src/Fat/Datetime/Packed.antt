-- ===== src/Fat/Datetime/Packed.antt =====
-- The fields of a time stamp unpack to the time, with seconds to the lower even one.
use iaos.Prelude.{◌+◌, ◌-◌, ◌*◌, ◌/◌, ◌%◌, ◌≤◌, ◌<◌, ◌≡◌, ◌∙◌, arith, min, u16, bit_or}
use iaos.Prelude.Bits.{bit_or_high_low}
use iaos.Fat.Datetime.{RtcTime, to_fat_datetime}

-- A time that a clock shows, in the years that the format holds.
pub record InRange (t : RtcTime) : Type 0 where
  pub from_1980 : 1980 ≤ t.year
  pub to_2107 : t.year ≤ 2107
  pub month : t.month ≤ 12
  pub day : t.day ≤ 31
  pub hours : t.hours < 24
  pub minutes : t.minutes < 60
  pub seconds : t.seconds < 60

-- The time stamp of a time of the years 1980 to 2107 unpacks to the hours, the minutes, half the seconds,
-- the year, the month and the day.
pub to_fat_datetime-unpack :
    (t : RtcTime)
    → InRange t
    → ((to_fat_datetime t).0 / 2048 ≡ t.hours)
      × ((to_fat_datetime t).0 / 32 % 64 ≡ t.minutes)
      × ((to_fat_datetime t).0 % 32 ≡ t.seconds / 2)
      × ((to_fat_datetime t).1 / 512 + 1980 ≡ t.year)
      × ((to_fat_datetime t).1 / 32 % 16 ≡ t.month)
      × ((to_fat_datetime t).1 % 32 ≡ t.day)
unfolding to_fat_datetime
to_fat_datetime-unpack t h =
    let hours : u16 (t.hours * 2048) ≡ t.hours * 2048 = omega (arith, h.hours) in
    let minutes : u16 (t.minutes * 32) ≡ t.minutes * 32 = omega (arith, h.minutes) in
    let year : u16 (min (t.year - 1980) 127 * 512) ≡ (t.year - 1980) * 512 =
      omega (arith, h.to_2107) in
    let month : u16 (t.month * 32) ≡ t.month * 32 = omega (arith, h.month) in
    let high_time : bit_or (t.hours * 2048) (t.minutes * 32) ≡ (t.hours * 64 + t.minutes) * 32 =
      bit_or_high_low 11 t.hours (t.minutes * 32) (omega (arith, h.minutes)) ∙ omega arith in
    let time : bit_or ((t.hours * 64 + t.minutes) * 32) (t.seconds / 2)
        ≡ (t.hours * 64 + t.minutes) * 32 + t.seconds / 2 =
      bit_or_high_low 5 (t.hours * 64 + t.minutes) (t.seconds / 2) (omega (arith, h.seconds)) in
    let high_date : bit_or ((t.year - 1980) * 512) (t.month * 32)
        ≡ ((t.year - 1980) * 16 + t.month) * 32 =
      bit_or_high_low 9 (t.year - 1980) (t.month * 32) (omega (arith, h.month)) ∙ omega arith in
    let date : bit_or (((t.year - 1980) * 16 + t.month) * 32) t.day
        ≡ ((t.year - 1980) * 16 + t.month) * 32 + t.day =
      bit_or_high_low 5 ((t.year - 1980) * 16 + t.month) t.day (omega (arith, h.day)) in
    rw (hours, minutes, year, month, high_time, time, high_date, date)
      (
        omega (arith, h.hours, h.minutes, h.seconds),
        omega (arith, h.hours, h.minutes, h.seconds),
        omega (arith, h.hours, h.minutes, h.seconds),
        omega (arith, h.from_1980, h.month, h.day),
        omega (arith, h.from_1980, h.month, h.day),
        omega (arith, h.from_1980, h.month, h.day),
      )
