-- ===== src/Fat/Directory/Listing.antt =====
-- agentos-kernel/src/fat12.rs: the listing of a directory, its count of slots in use, and the entries that
-- a new name needs in it.
use iaos.Prelude.{
  ℕ, zero, suc, ◌+◌, Bool, true, false, not, ◌||◌, Option, none, some, List, [], length, all, ltb,
  ◌==◌, if◌then◌else◌, u32, Result, ok, err, ◌>>=◌,
}
use iaos.Fat.Common.{DirEntry, LfnState, default, parse_dir_sector}
use iaos.Fat.Entries.{to_short_name, is_valid_lfn_char, max_lfn_chars, build_name_entries}
use iaos.Fat.Table.{
  Fat12Info, Ata, FatError, still_running, name_rejected, first_root_dir_sector, root_dir_sectors,
  cluster_to_lba, next_cluster,
}
use iaos.Fat.Chain.{driver}
use iaos.Fat.Directory.{
  DirLocation, root, in_cluster, raw_entries, used_slots, existing_short_names_in,
}

-- The name has no entries, whatever names are in use.
unfoldable pub is_rejected : List ℕ → Bool
is_rejected name = elim (to_short_name name) [
  | ok short_name ↦ false
  | err e ↦ length name == 0 || ltb max_lfn_chars (length name) || not (all is_valid_lfn_char name)
]

module _ (ata : Ata) where
  open ata use {Disk, read_sector}

  -- `left` sectors, with what a body makes of each; it says whether the loop has ended.
  unfoldable pub each_sector {ℓ} :
      {A : Type ℓ} → (List (List ℕ) → A → Bool × A) → Disk → ℕ → ℕ → A → Result FatError (Bool × A)
  each_sector body disk lba zero a = ok (false, a)
  each_sector body disk lba (suc left) a = driver (read_sector disk (u32 lba)) >>= λ buf.
      let (stop, a') = body (raw_entries buf) a in
      elim stop [ true ↦ ok (true, a') | false ↦ each_sector body disk (lba + 1) left a' ]

  -- The clusters of a chain, one after the other, until the body ends the loop.
  unfoldable pub each_cluster {ℓ} :
      {A : Type ℓ}
      → ℕ
      → (List (List ℕ) → A → Bool × A)
      → Disk
      → Fat12Info
      → Option ℕ
      → A
      → Result FatError A
  each_cluster fuel body disk info none a = ok a
  each_cluster zero body disk info (some c) a = err still_running
  each_cluster (suc fuel) body disk info (some c) a =
      each_sector body disk (cluster_to_lba info c) info.sectors_per_cluster a >>= λ scanned.
      elim scanned.0 [
        | true ↦ ok scanned.1
        | false ↦ next_cluster info c >>= λ next. each_cluster fuel body disk info next scanned.1
      ]

  -- `parse_dir_sector` as a body.
  abbrev pub listed : List (List ℕ) → List DirEntry × LfnState → Bool × (List DirEntry × LfnState)
  listed raws (entries, lfn) =
      let (entries', lfn', stop) = parse_dir_sector raws entries lfn in (stop, (entries', lfn'))

  unfoldable pub list_root_directory : Disk → Fat12Info → Result FatError (List DirEntry)
  list_root_directory disk info =
      each_sector listed disk (first_root_dir_sector info) (root_dir_sectors info) ([], default)
      >>= λ scanned. ok scanned.1.0

  unfoldable pub list_directory : ℕ → Disk → Fat12Info → ℕ → Result FatError (List DirEntry)
  list_directory fuel disk info start_cluster =
      each_cluster fuel listed disk info (some start_cluster) ([], default) >>= λ scanned.
      ok scanned.0

  unfoldable pub list_entries_in :
      ℕ → Disk → Fat12Info → DirLocation → Result FatError (List DirEntry)
  list_entries_in fuel disk info root = list_root_directory disk info
  list_entries_in fuel disk info (in_cluster c) = list_directory fuel disk info c

  unfoldable pub count_used_slots_in : ℕ → Disk → Fat12Info → ℕ → Result FatError ℕ
  count_used_slots_in fuel disk info dir_cluster =
      each_cluster fuel used_slots disk info (some dir_cluster) 0

  -- The names in use are read from the disk, where the name needs them.
  unfoldable pub build_name_entries_in :
      ℕ → Disk → Fat12Info → DirLocation → List ℕ → Result FatError (List ℕ × List (List ℕ))
  build_name_entries_in fuel disk info dir name =
      let found = existing_short_names_in ata fuel disk info dir >>= λ existing.
      elim (build_name_entries existing name) [ ok built ↦ ok built | err e ↦ err name_rejected ] in
      if is_rejected name then err name_rejected else found
