-- ===== src/Fat/Datetime.antt =====
-- agentos-kernel/src/rtc.rs and `to_fat_datetime` of fat12.rs: the clock and the time stamps.
-- What the hardware's registers hold at each reading is an input.
pub mod Packed
pub mod Clock
mod Examples
use iaos.Prelude.{
  ℕ, zero, suc, ◌+◌, ◌-◌, ◌*◌, ◌/◌, ◌%◌, ◌^◌, Bool, true, false, not, ◌&&◌, Option, none, some,
  List, [], ◌∷◌, min, u16, bit_and, bit_or, ◌<<<◌, ◌>>>◌, ◌==◌, if◌then◌else◌,
}

pub record RtcTime : Type 0 where
  pub year : ℕ
  pub month : ℕ
  pub day : ℕ
  pub hours : ℕ
  pub minutes : ℕ
  pub seconds : ℕ

-- The tuple of `read_raw_registers`.
pub record RawRegisters : Type 0 where
  pub seconds : ℕ
  pub minutes : ℕ
  pub hours : ℕ
  pub day : ℕ
  pub month : ℕ
  pub year : ℕ
  pub status_b : ℕ

abbrev pub same_registers : RawRegisters → RawRegisters → Bool
same_registers a b =
    a.seconds == b.seconds
    && a.minutes == b.minutes
    && a.hours == b.hours
    && a.day == b.day
    && a.month == b.month
    && a.year == b.year
    && a.status_b == b.status_b

unfoldable pub bcd_to_binary : ℕ → ℕ
bcd_to_binary value = bit_and value 15 + (value >>> 4) * 10

-- `HOURS_PM_FLAG` is 0x80.
unfoldable pub normalize_hours_12h : ℕ → ℕ → ℕ
normalize_hours_12h hours_raw hours_12 =
    if not (bit_and hours_raw 128 == 0)
    then hours_12 % 12 + 12
    else if hours_12 == 12
    then 0
    else hours_12

-- A field as status register B says that it is written: binary, or BCD.
abbrev pub field : Bool → ℕ → ℕ
field is_binary value = if is_binary then value else bcd_to_binary value

-- What `read_time` makes of the registers it settles on; `& !HOURS_PM_FLAG` keeps the low seven bits.
unfoldable pub decode_time : RawRegisters → RtcTime
decode_time raw =
    let is_binary = not (bit_and raw.status_b 4 == 0) in
    let is_24h = not (bit_and raw.status_b 2 == 0) in
    let hours = field is_binary (bit_and raw.hours 127) in
    record {
      year = 2000 + field is_binary raw.year;
      month = field is_binary raw.month;
      day = field is_binary raw.day;
      hours = if is_24h then hours else normalize_hours_12h raw.hours hours;
      minutes = field is_binary raw.minutes;
      seconds = field is_binary raw.seconds;
    }

-- The loop, over the readings to come; `none` when they end without two equal ones in a row.
unfoldable pub settle : RawRegisters → List RawRegisters → Option RawRegisters
settle raw [] = none
settle raw (raw_again ∷ readings) =
    let rest = settle raw_again readings in if same_registers raw raw_again then some raw else rest

abbrev pub decode_some : Option RawRegisters → Option RtcTime
decode_some none = none
decode_some (some raw) = some (decode_time raw)

unfoldable pub read_time : List RawRegisters → Option RtcTime
read_time [] = none
read_time (raw ∷ readings) = decode_some (settle raw readings)

-- `saturating_sub(1980)` is the subtraction on ℕ.
unfoldable pub to_fat_datetime : RtcTime → ℕ × ℕ
to_fat_datetime t = (
  bit_or (bit_or (u16 (t.hours <<< 11)) (u16 (t.minutes <<< 5))) (t.seconds / 2),
  bit_or (bit_or (u16 (min (t.year - 1980) 127 <<< 9)) (u16 (t.month <<< 5))) t.day,
)
