-- ===== src/Fat/Datetime/Clock.antt =====
-- In each of the clock's four formats a time reads back.
use iaos.Prelude.{
  ℕ, ◌+◌, ◌-◌, ◌*◌, ◌/◌, ◌%◌, ◌≤◌, ◌<◌, ◌≡◌, refl, ap, ◌∙◌, arith, Bool, true, false, not, bit_and,
  ◌==◌, ltb, if◌then◌else◌, all_below, all_below_sound,
}
use iaos.Fat.Datetime.{
  RtcTime, RawRegisters, field, bcd_to_binary, normalize_hours_12h, decode_time,
}

-- How the hardware writes a number below 100.
abbrev pub shown : Bool → ℕ → ℕ
shown true n = n
shown false n = n / 10 * 16 + n % 10

-- The hour on a 12-hour clock, where 12 stands for 0.
abbrev pub hour_12 : ℕ → ℕ
hour_12 h = if h % 12 == 0 then 12 else h % 12

-- The hours register: on a 12-hour clock its top bit is set after noon.
abbrev pub shown_hours : Bool → Bool → ℕ → ℕ
shown_hours binary true h = shown binary h
shown_hours binary false h = shown binary (hour_12 h) + (if ltb h 12 then 0 else 128)

abbrev pub status : Bool → Bool → ℕ
status binary day_24 = (if binary then 4 else 0) + (if day_24 then 2 else 0)

-- The registers of a clock that shows a time.
abbrev pub registers : Bool → Bool → RtcTime → RawRegisters
registers binary day_24 t = record {
  seconds = shown binary t.seconds;
  minutes = shown binary t.minutes;
  hours = shown_hours binary day_24 t.hours;
  day = shown binary t.day;
  month = shown binary t.month;
  year = shown binary (t.year - 2000);
  status_b = status binary day_24;
}

bcd_lem : (n : ℕ) → n < 100 → bcd_to_binary (shown false n) ≡ n
unfolding all_below bcd_to_binary
bcd_lem n h = ground (arith, all_below_sound 100 (λ x. bcd_to_binary (shown false x) == x) n refl h)

-- The registers show a time of this century.
pub record Shows (t : RtcTime) : Type 0 where
  pub from_2000 : 2000 ≤ t.year
  pub to_2099 : t.year ≤ 2099
  pub month : t.month ≤ 12
  pub day : t.day ≤ 31
  pub hours : t.hours < 24
  pub minutes : t.minutes < 60
  pub seconds : t.seconds < 60

abbrev hours_of : Bool → Bool → ℕ → ℕ
hours_of binary day_24 h =
    (decode_time (
      registers binary day_24
        (record { year = 2000; month = 1; day = 1; hours = h; minutes = 0; seconds = 0 }))).hours

hours_lem : (binary day_24 : Bool) (h : ℕ) → h < 24 → hours_of binary day_24 h ≡ h
unfolding all_below bcd_to_binary decode_time normalize_hours_12h
hours_lem true true h lt =
    ground (arith, all_below_sound 24 (λ x. hours_of true true x == x) h refl lt)
hours_lem true false h lt =
    ground (arith, all_below_sound 24 (λ x. hours_of true false x == x) h refl lt)
hours_lem false true h lt =
    ground (arith, all_below_sound 24 (λ x. hours_of false true x == x) h refl lt)
hours_lem false false h lt =
    ground (arith, all_below_sound 24 (λ x. hours_of false false x == x) h refl lt)

field_back :
    (binary day_24 : Bool) (n : ℕ)
    → n < 100
    → field (not (bit_and (status binary day_24) 4 == 0)) (shown binary n) ≡ n
field_back true true n h = refl
field_back true false n h = refl
field_back false true n h = bcd_lem n h
field_back false false n h = bcd_lem n h

-- Registers that show a time of the years 2000 to 2099, in binary or BCD and on a 24-hour or a 12-hour
-- clock, decode to it.
pub decode_time-registers :
    (binary day_24 : Bool) (t : RtcTime) → Shows t → decode_time (registers binary day_24 t) ≡ t
unfolding decode_time
decode_time-registers binary day_24 t h = λ i. record {
  year = year i;
  month = field_back binary day_24 t.month (omega (arith, h.month)) i;
  day = field_back binary day_24 t.day (omega (arith, h.day)) i;
  hours = hours_lem binary day_24 t.hours h.hours i;
  minutes = field_back binary day_24 t.minutes (omega (arith, h.minutes)) i;
  seconds = field_back binary day_24 t.seconds (omega (arith, h.seconds)) i;
}
  where
    year :
        2000 + field (not (bit_and (status binary day_24) 4 == 0)) (shown binary (t.year - 2000))
        ≡ t.year
    year =
        ap (λ n. 2000 + n) (field_back binary day_24 (t.year - 2000) (omega (arith, h.to_2099)))
        ∙ omega (arith, h.from_2000)
