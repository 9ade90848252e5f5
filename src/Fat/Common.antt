-- ===== src/Fat/Common.antt =====
-- agentos-kernel/src/fat_common.rs: directory entries and long names, as FAT12 and FAT32 read them.
-- A raw entry is its 32 bytes; a sector is its 16 raw entries, `as_chunks::<32>()`. A name is the
-- list of its character codes.
use iaos.Prelude.{
  ℕ, zero, suc, ◌+◌, ◌*◌, ◌/◌, ◌%◌, Bool, true, false, not, ◌&&◌, ◌||◌, Option, none, some, List,
  [], ◌∷◌, ◌++◌, length, byte, take, drop, u8, le16, le32, ◌==◌, if◌then◌else◌, bit_and, bit_or,
  ◌<<<◌,
}
use iaos.Fat.Text.{eq_ignore_ascii_case}

pub record DirEntry : Type 0 where
  pub name : List ℕ
  pub is_dir : Bool
  pub size : ℕ
  pub start_cluster : ℕ
  pub fat_time : ℕ
  pub fat_date : ℕ

-- `rotate_right(1)` on a byte.
abbrev pub rotate_right : ℕ → ℕ
rotate_right s = s / 2 + s % 2 * 128

abbrev pub sum_from : ℕ → List ℕ → ℕ
sum_from sum [] = sum
sum_from sum (b ∷ bs) = sum_from (u8 (rotate_right sum + b)) bs

unfoldable pub lfn_checksum : List ℕ → ℕ
lfn_checksum short_name = sum_from 0 short_name

pub record LfnState : Type 0 where
  pub chunks : List (List ℕ)
  pub checksum : ℕ

abbrev pub default : LfnState
default = record { chunks = []; checksum = 0 }

-- `n` little-endian words from byte `at` on.
abbrev pub words_at : List ℕ → ℕ → ℕ → List ℕ
words_at raw at zero = []
words_at raw at (suc n) = le16 (byte raw at) (byte raw (at + 1)) ∷ words_at raw (at + 2) n

abbrev pub long_chars : List ℕ → List ℕ
long_chars raw = words_at raw 1 5 ++ words_at raw 14 6 ++ words_at raw 28 2

unfoldable pub push_long_entry : LfnState → List ℕ → LfnState
push_long_entry lfn raw =
    if not (bit_and (byte raw 0) 64 == 0)
    then record { chunks = long_chars raw ∷ []; checksum = byte raw 13 }
    else record lfn { chunks = lfn.chunks ++ (long_chars raw ∷ []) }

abbrev pub reset : LfnState → LfnState
reset lfn = record lfn { chunks = [] }

unfoldable pub decode_lfn_chunk : List ℕ → List ℕ
decode_lfn_chunk [] = []
decode_lfn_chunk (c ∷ cs) = let rest = decode_lfn_chunk cs in if c == 0 then [] else u8 c ∷ rest

-- `chunks.iter().rev()`, decoded one after the other.
unfoldable pub decode_chunks : List (List ℕ) → List ℕ
decode_chunks [] = []
decode_chunks (c ∷ cs) = decode_chunks cs ++ decode_lfn_chunk c

unfoldable pub take_verified : LfnState → List ℕ → Option (List ℕ) × LfnState
take_verified lfn short_name_bytes = (
  if not (length lfn.chunks == 0) && lfn.checksum == lfn_checksum short_name_bytes
      then some (decode_chunks lfn.chunks)
      else none,
  reset lfn,
)

-- The characters before the first space.
abbrev pub before_space : List ℕ → List ℕ
before_space [] = []
before_space (b ∷ bs) = let rest = before_space bs in if b == 32 then [] else b ∷ rest

abbrev pub dot_ext : List ℕ → List ℕ
dot_ext [] = []
dot_ext (c ∷ cs) = 46 ∷ c ∷ cs

unfoldable pub format_short_name : List ℕ → List ℕ → List ℕ
format_short_name name ext = before_space name ++ dot_ext (before_space ext)

abbrev pub short_of : List ℕ → List ℕ
short_of raw = format_short_name (take 8 raw) (take 3 (drop 8 raw))

abbrev pub or_short : Option (List ℕ) → List ℕ → List ℕ
or_short none short = short
or_short (some name) short = name

-- The fields of a raw short entry.
unfoldable pub to_entry : List ℕ → List ℕ → DirEntry
to_entry name raw = record {
  name = name;
  is_dir = not (bit_and (byte raw 11) 16 == 0);
  size = le32 (byte raw 28) (byte raw 29) (byte raw 30) (byte raw 31);
  start_cluster =
      bit_or (le16 (byte raw 20) (byte raw 21) <<< 16) (le16 (byte raw 26) (byte raw 27));
  fat_time = le16 (byte raw 22) (byte raw 23);
  fat_date = le16 (byte raw 24) (byte raw 25);
}

abbrev pub is_name : List ℕ → Option (List ℕ) → Bool
is_name target_name none = false
is_name target_name (some name) = eq_ignore_ascii_case name target_name

unfoldable pub short_entry_if_matches : List ℕ → LfnState → List ℕ → Option DirEntry × LfnState
short_entry_if_matches raw lfn target_name =
    let (long_name, lfn') = take_verified lfn (take 11 raw) in
    (
      if is_name target_name long_name || eq_ignore_ascii_case (short_of raw) target_name
          then some (to_entry (or_short long_name (short_of raw)) raw)
          else none,
      lfn',
    )

-- The tests of `parse_dir_sector`, in their order.
pub data SlotKind : Type 0 where
  end_marker deleted long_entry volume_label short_entry : SlotKind

unfoldable pub kind_of : List ℕ → SlotKind
kind_of raw =
    if byte raw 0 == 0
    then end_marker
    else if byte raw 0 == 229
    then deleted
    else if byte raw 11 == 15
    then long_entry
    else if not (bit_and (byte raw 11) 8 == 0)
    then volume_label
    else short_entry

-- The entries of a sector behind `entries`, and whether the end marker was seen.
unfoldable pub parse_dir_sector :
    List (List ℕ) → List DirEntry → LfnState → List DirEntry × LfnState × Bool
parse_dir_sector [] entries lfn = (entries, lfn, false)
parse_dir_sector (raw ∷ sector) entries lfn = elim (kind_of raw) [
  | end_marker ↦ (entries, lfn, true)
  | deleted ↦ parse_dir_sector sector entries (reset lfn)
  | long_entry ↦ parse_dir_sector sector entries (push_long_entry lfn raw)
  | volume_label ↦ parse_dir_sector sector entries (reset lfn)
  | short_entry ↦
      let (long_name, lfn') = take_verified lfn (take 11 raw) in
      parse_dir_sector sector (entries ++ (to_entry (or_short long_name (short_of raw)) raw ∷ []))
        lfn'
]
