-- ===== src/Fat/Entries/Written.antt =====
-- A directory that holds the entries written for a name lists the name, with the fields given.
use iaos.Prelude.{
  ℕ, zero, suc, ◌+◌, ◌-◌, ◌*◌, ◌/◌, ◌%◌, ◌≤◌, ◌<◌, ◌≡◌, ◌≢◌, refl, sym, ap, ◌∙◌, inl, inr, true,
  false, not, ◌&&◌, some, List, [], ◌∷◌, ◌++◌, arith, length, byte, take, u8, ◌==◌, Bool-cases,
  all_below, all_below_sound, bit_and, bit_or,
}
use iaos.Prelude.Bits.{bit_or_high_low}
use iaos.Fat.Text.{eq_ignore_ascii_case, tabulate}
use iaos.Fat.Common.{
  DirEntry, LfnState, push_long_entry, take_verified, kind_of, long_entry, short_entry,
  parse_dir_sector, to_entry, short_of, or_short, short_entry_if_matches, lfn_checksum,
}
use iaos.Fat.Entries.{
  num_chunks, sequence_of, long_entry_of, entries_down, build_lfn_entries, build_dir_entry,
}
use iaos.Fat.Entries.LongName.{AreChars, push_all, take_verified-build, tabulate-byte}

sequence-bounds :
    (count index : ℕ)
    → index < count
    → count < 64
    → (sequence_of count index ≢ 0) × (sequence_of count index ≢ 229)
unfolding all_below
sequence-bounds count index h k =
    let plain = all_below_sound 64 (λ x. not (x == 229)) (index + 1) refl (omega arith) in
    let marked =
      all_below_sound 65 (λ x. not (bit_or x 64 == 0) && not (bit_or x 64 == 229)) (index + 1) refl
        (omega arith) in
    let number : u8 (index + 1) ≡ index + 1 = omega arith in
    elim (Bool-cases (index == count - 1)) [
      | inl e ↦ rw (e, number) (ground arith, ground arith)
      | inr e ↦ rw (e, number) (ground arith, ground arith)
    ]

kind_of-long :
    (name : List ℕ) (checksum count index : ℕ)
    → index < count
    → count < 64
    → kind_of (long_entry_of name checksum count index) ≡ long_entry
unfolding kind_of long_entry_of
kind_of-long name checksum count index h k =
    let bounds = sequence-bounds count index h k in
    let nonzero : (sequence_of count index == 0) ≡ false = ground arith in
    let not_deleted : (sequence_of count index == 229) ≡ false = ground arith in
    rw (nonzero, not_deleted) refl

parse-long :
    (raw : List ℕ) (sector : List (List ℕ)) (entries : List DirEntry) (lfn : LfnState)
    → kind_of raw ≡ long_entry
    → parse_dir_sector (raw ∷ sector) entries lfn
      ≡ parse_dir_sector sector entries (push_long_entry lfn raw)
unfolding parse_dir_sector
parse-long raw sector entries lfn h = rw (h, parse_dir_sector) refl

parse-short :
    (raw : List ℕ) (entries : List DirEntry) (lfn : LfnState)
    → kind_of raw ≡ short_entry
    → (parse_dir_sector (raw ∷ []) entries lfn).0
      ≡ entries ++ (to_entry (or_short (take_verified lfn (take 11 raw)).0 (short_of raw)) raw ∷ [])
unfolding parse_dir_sector
parse-short raw entries lfn h = rw (h, parse_dir_sector) refl

parse-entries_down :
    (name : List ℕ) (checksum count index : ℕ) (rest : List (List ℕ)) (entries : List DirEntry)
    (lfn : LfnState)
    → index ≤ count
    → count < 64
    → parse_dir_sector (entries_down name checksum count index ++ rest) entries lfn
      ≡ parse_dir_sector rest entries (push_all lfn (entries_down name checksum count index))
unfolding entries_down push_all
parse-entries_down name checksum count zero rest entries lfn h k = refl
parse-entries_down name checksum count (suc index) rest entries lfn h k =
    parse-long (long_entry_of name checksum count index)
      (entries_down name checksum count index ++ rest) entries lfn
      (kind_of-long name checksum count index (omega arith) k)
    ∙ parse-entries_down name checksum count index rest entries
        (push_long_entry lfn (long_entry_of name checksum count index)) (omega arith) k

-- A short name and an attribute byte of a file or a directory.
pub record IsShort (short_name : List ℕ) (attr : ℕ) : Type 0 where
  pub eleven : length short_name ≡ 11
  pub used : byte short_name 0 ≢ 0
  pub not_deleted : byte short_name 0 ≢ 229
  pub not_long : attr ≢ 15
  pub not_label : bit_and attr 8 ≡ 0

-- The entry that a lookup or a listing yields.
abbrev pub listed : List ℕ → ℕ → ℕ → ℕ → ℕ → ℕ → DirEntry
listed name attr cluster size fat_time fat_date = record {
  name = name;
  is_dir = not (bit_and attr 16 == 0);
  size = size;
  start_cluster = cluster;
  fat_time = fat_time;
  fat_date = fat_date;
}

module _ (name short_name : List ℕ) (attr cluster size fat_time fat_date : ℕ)
    (short : IsShort short_name attr) (cluster_fits : cluster < 4294967296) where
  abbrev raw : List ℕ
  raw = build_dir_entry short_name attr cluster size fat_time fat_date

  kind_of-short : kind_of raw ≡ short_entry
  unfolding kind_of build_dir_entry
  kind_of-short = ground (arith, short.used, short.not_deleted, short.not_long, short.not_label)

  take-raw : take 11 raw ≡ short_name
  unfolding build_dir_entry
  take-raw =
      ap (λ n. tabulate n (λ i. byte short_name i)) (sym short.eleven) ∙ tabulate-byte short_name

  to_entry-raw : to_entry name raw ≡ listed name attr cluster size fat_time fat_date
  unfolding to_entry build_dir_entry
  to_entry-raw =
      let size_back : size % 256
            + size / 256 % 256 * 256
            + size / 65536 % 256 * 65536
            + size / 16777216 * 16777216
          ≡ size =
        omega arith in
      let time_back : fat_time % 256 + fat_time / 256 * 256 ≡ fat_time = omega arith in
      let date_back : fat_date % 256 + fat_date / 256 * 256 ≡ fat_date = omega arith in
      let high : cluster / 65536 % 65536 % 256 + cluster / 65536 % 65536 / 256 * 256
          ≡ cluster / 65536 =
        omega arith in
      let low : cluster % 65536 % 256 + cluster % 65536 / 256 * 256 ≡ cluster % 65536 =
        omega arith in
      let joined : bit_or (cluster / 65536 * 65536) (cluster % 65536) ≡ cluster =
        bit_or_high_low 16 (cluster / 65536) (cluster % 65536) (omega arith) ∙ omega arith in
      rw (size_back, time_back, date_back, high, low, joined) refl

  -- From any state of the reader, the long entries of a name of at most 819 ASCII characters
  -- other than 0, and the short entry behind them list one entry with the name, the
  -- kind, the size, the cluster and the time given. The short name has 11 bytes and does not
  -- begin like a free or a deleted entry, the attribute is neither that of a long entry nor
  -- that of a label, and the cluster has 32 bits.
  pub parse_dir_sector-build :
      (entries : List DirEntry) (lfn : LfnState)
      → AreChars name
      → length name ≤ 819
      → (parse_dir_sector (build_lfn_entries name short_name ++ (raw ∷ [])) entries lfn).0
        ≡ entries ++ (listed name attr cluster size fat_time fat_date ∷ [])
  unfolding build_lfn_entries
  parse_dir_sector-build entries lfn chars fits =
      let found = take_verified-build name short_name lfn chars fits in
      let pushed = push_all lfn (build_lfn_entries name short_name) in
      ap (λ t. t.0)
        (parse-entries_down name (lfn_checksum short_name) (num_chunks name) (num_chunks name)
          (raw ∷ []) entries lfn (omega arith) (omega arith))
      ∙ parse-short raw entries pushed kind_of-short
      ∙ rw (take-raw, found.0) (ap (λ t. entries ++ (t ∷ [])) to_entry-raw)

  -- After the long entries of a name, a lookup finds the short entry under every name that is
  -- the long name up to the case of letters, with the fields given. The name has at most 819
  -- ASCII characters other than 0, the short name 11 bytes that do not begin like a
  -- free or a deleted entry, the attribute is neither that of a long entry nor that of a
  -- label, and the cluster has 32 bits.
  pub short_entry_if_matches-build :
      (target_name : List ℕ) (lfn : LfnState)
      → AreChars name
      → length name ≤ 819
      → eq_ignore_ascii_case name target_name ≡ true
      → (short_entry_if_matches raw
          (push_all lfn (build_lfn_entries name short_name))
          target_name).0
        ≡ some (listed name attr cluster size fat_time fat_date)
  unfolding short_entry_if_matches
  short_entry_if_matches-build target_name lfn chars fits same_name =
      let found = take_verified-build name short_name lfn chars fits in
      rw (take-raw, found.0, same_name) (ap (λ t. some t) to_entry-raw)
