-- ===== src/Fat/Entries.antt =====
-- agentos-kernel/src/fat12.rs: the entries that are written for a name, which is the list of its bytes.
-- The names already in a directory are a parameter of the alias search: they come from the disk.
pub mod LongName
pub mod ShortName
pub mod Written
mod Examples
use iaos.Prelude.{
  ℕ, zero, suc, ◌+◌, ◌-◌, ◌*◌, ◌/◌, ◌%◌, ◌^◌, Bool, true, false, not, ◌&&◌, ◌||◌, Option, none,
  some, List, [], ◌∷◌, ◌++◌, length, byte, take, drop, replicate, map, filter, any, all, max, min,
  u8, u16, le16_bytes, le32_bytes, ltb, leb, ◌==◌, if◌then◌else◌, bit_or, ◌>>>◌, Result, ok, err,
}
use iaos.Fat.Text.{upper, same, is_alphanumeric, split_once, tabulate}
use iaos.Fat.Common.{lfn_checksum}

pub data NameError : Type 0 where
  not_8_3 short_name_in_use invalid_name too_many_aliases : NameError

-- The bytes of a name, in a field of `n` spaces.
abbrev pub padded : ℕ → List ℕ → List ℕ
padded zero bs = []
padded (suc n) [] = 32 ∷ padded n []
padded (suc n) (b ∷ bs) = b ∷ padded n bs

unfoldable pub to_short_name : List ℕ → Result NameError (List ℕ)
to_short_name name =
    let (base, ext) = split_once name in
    if length base == 0 || ltb 8 (length base) || ltb 3 (length ext)
    then err not_8_3
    else ok (padded 8 (map upper base) ++ padded 3 (map upper ext))

unfoldable pub is_valid_lfn_char : ℕ → Bool
is_valid_lfn_char b =
    leb 32 b
    && leb b 126
    && not (
        b == 34
        || b == 42
        || b == 47
        || b == 58
        || b == 60
        || b == 62
        || b == 63
        || b == 92
        || b == 124)

-- `div_ceil(13).max(1)`
abbrev pub num_chunks : List ℕ → ℕ
num_chunks name = max ((length name + 12) / 13) 1

-- The bytes of a chunk as words: a 0 after the last, then 0xFFFF.
abbrev pub chunk_chars : ℕ → List ℕ → List ℕ
chunk_chars zero bs = []
chunk_chars (suc n) [] = 0 ∷ replicate n 65535
chunk_chars (suc n) (b ∷ bs) = b ∷ chunk_chars n bs

-- `n` words from `chars[start]` on, in little-endian order.
abbrev pub char_bytes : List ℕ → ℕ → ℕ → List ℕ
char_bytes chars start zero = []
char_bytes chars start (suc n) = le16_bytes (byte chars start) ++ char_bytes chars (start + 1) n

abbrev pub long_raw : ℕ → ℕ → List ℕ → List ℕ
long_raw sequence checksum chars =
    sequence ∷ char_bytes chars 0 5
    ++ 15 ∷ 0 ∷ checksum ∷ char_bytes chars 5 6
    ++ 0 ∷ 0 ∷ char_bytes chars 11 2

abbrev pub sequence_of : ℕ → ℕ → ℕ
sequence_of count index = if index == count - 1 then bit_or (u8 (index + 1)) 64 else u8 (index + 1)

-- The entry of one chunk.
unfoldable pub long_entry_of : List ℕ → ℕ → ℕ → ℕ → List ℕ
long_entry_of name checksum count index =
    long_raw (sequence_of count index) checksum (chunk_chars 13 (take 13 (drop (index * 13) name)))

-- `(0..num_chunks).rev()`, with the chunks below `left` to come.
unfoldable pub entries_down : List ℕ → ℕ → ℕ → ℕ → List (List ℕ)
entries_down name checksum count zero = []
entries_down name checksum count (suc left) =
    long_entry_of name checksum count left ∷ entries_down name checksum count left

unfoldable pub build_lfn_entries : List ℕ → List ℕ → List (List ℕ)
build_lfn_entries name short_name =
    entries_down name (lfn_checksum short_name) (num_chunks name) (num_chunks name)

unfoldable pub build_dir_entry : List ℕ → ℕ → ℕ → ℕ → ℕ → ℕ → List ℕ
build_dir_entry short_name attr cluster size fat_time fat_date =
    tabulate 11 (byte short_name)
    ++ attr ∷ 0 ∷ 0 ∷ le16_bytes fat_time
    ++ le16_bytes fat_date
    ++ le16_bytes fat_date
    ++ le16_bytes (u16 (cluster >>> 16))
    ++ le16_bytes fat_time
    ++ le16_bytes fat_date
    ++ le16_bytes (u16 cluster)
    ++ le32_bytes size

-- The characters that an alias keeps, and the first `n` of them.
abbrev pub clean : ℕ → List ℕ → List ℕ
clean n bs = take n (filter (λ b. is_alphanumeric b || b == 95 || b == 45) (map upper bs))

abbrev pub or_underscore : List ℕ → List ℕ
or_underscore [] = 95 ∷ []
or_underscore (b ∷ bs) = b ∷ bs

-- `format!("~{}", n)` below 100.
abbrev pub suffix : ℕ → List ℕ
suffix n = if ltb n 10 then 126 ∷ (48 + n) ∷ [] else 126 ∷ (48 + n / 10) ∷ (48 + n % 10) ∷ []

unfoldable pub alias : List ℕ → ℕ → List ℕ
alias name n =
    let (base, ext) = split_once name in
    padded 8 (or_underscore (clean 5 base) ++ suffix n) ++ padded 3 (clean 3 ext)

-- `for n in 1..=99`, of which `left` rounds are to come.
unfoldable pub alias_from : List (List ℕ) → List ℕ → ℕ → ℕ → Result NameError (List ℕ)
alias_from existing name zero n = err too_many_aliases
alias_from existing name (suc left) n =
    let rest = alias_from existing name left (n + 1) in
    if any (same (alias name n)) existing then rest else ok (alias name n)

unfoldable pub generate_short_alias : List (List ℕ) → List ℕ → Result NameError (List ℕ)
generate_short_alias existing name = alias_from existing name 99 1

abbrev pub with_long_entries :
    List ℕ → Result NameError (List ℕ) → Result NameError (List ℕ × List (List ℕ))
with_long_entries name (err e) = err e
with_long_entries name (ok short_name) = ok (short_name, build_lfn_entries name short_name)

abbrev pub max_lfn_chars : ℕ
max_lfn_chars = 195

unfoldable pub build_name_entries :
    List (List ℕ) → List ℕ → Result NameError (List ℕ × List (List ℕ))
build_name_entries existing name = elim (to_short_name name) [
  | ok short_name ↦
      if any (same short_name) existing then err short_name_in_use else ok (short_name, [])
  | err e ↦
      if length name == 0 || ltb max_lfn_chars (length name) || not (all is_valid_lfn_char name)
      then err invalid_name
      else with_long_entries name (generate_short_alias existing name)
]
