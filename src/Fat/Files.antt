-- ===== src/Fat/Files.antt =====
-- agentos-kernel/src/fat12.rs: the operations on the files and directories of a volume. The clock's time
-- and the fuel that bounds the clusters of a chain are inputs; the mounted volume and the disk are the state.
pub mod Patched
pub mod Found
pub mod Distinct
pub mod Resized
pub mod RoundTrip
mod Examples
use iaos.Prelude.{
  ℕ, zero, suc, ◌+◌, ◌-◌, ◌*◌, ◌/◌, ◌%◌, max, Bool, true, false, not, ◌&&◌, ◌||◌, Option, none,
  some, List, [], ◌∷◌, ◌++◌, length, byte, set, take, drop, replicate, any, ltb, leb, ◌==◌,
  if◌then◌else◌, u16, u32, le32_bytes, Result, ok, err, ◌>>=◌,
}
use iaos.Fat.Text.{eq_ignore_ascii_case}
use iaos.Fat.Common.{DirEntry}
use iaos.Fat.Entries.{build_dir_entry}
use iaos.Fat.Datetime.{RtcTime, to_fat_datetime}
use iaos.Fat.Table.{
  Fat12Info, Ata, FatError, not_found, is_a_directory, not_a_directory, name_taken, not_empty,
  cluster_to_lba, find_free_clusters, write_fat_entry_to_disk,
}
use iaos.Fat.Chain.{driver, follow, lay, read_chain, free_chain}
use iaos.Fat.Directory.{
  DirLocation, root, in_cluster, Slot, zeroed, find_free_entry_run_in, find_entry_location_in,
  find_preceding_lfn_slots,
}
use iaos.Fat.Directory.Listing.{list_directory, list_entries_in, build_name_entries_in}

-- `div_ceil(cluster_bytes).max(1)`, for clusters that have sectors: the source panics where they have none.
abbrev pub clusters_needed : Fat12Info → List ℕ → ℕ
clusters_needed info contents =
    let cluster_bytes = info.sectors_per_cluster * 512 in
    max ((length contents + (cluster_bytes - 1)) / cluster_bytes) 1

-- `buf[at..at + bytes.len()].copy_from_slice(&bytes)`
abbrev pub splice : List ℕ → ℕ → List ℕ → List ℕ
splice buf at bytes = take at buf ++ bytes ++ drop (at + length bytes) buf

abbrev pub name_is_taken : List ℕ → List DirEntry → Bool
name_is_taken name entries = any (λ e. eq_ignore_ascii_case (DirEntry.name e) name) entries

abbrev pub dot_name : List ℕ
dot_name = 46 ∷ replicate 10 32

abbrev pub dotdot_name : List ℕ
dotdot_name = 46 ∷ 46 ∷ replicate 9 32

abbrev pub parent_cluster : DirLocation → ℕ
parent_cluster root = 0
parent_cluster (in_cluster c) = c

-- The slots with the entries that are written to them.
abbrev pub paired : List Slot → List (List ℕ) → List ℕ → List (Slot × List ℕ)
paired [] long_entries entry = []
paired (s ∷ []) long_entries entry = (s, entry) ∷ []
paired (s ∷ t ∷ slots) [] entry = paired (t ∷ slots) [] entry
paired (s ∷ t ∷ slots) (l ∷ long_entries) entry = (s, l) ∷ paired (t ∷ slots) long_entries entry

module _ (ata : Ata) where
  open ata use {Disk, read_sector, write_sector}

  -- A sector is read, changed and written back.
  unfoldable pub update_sector : Disk → ℕ → (List ℕ → List ℕ) → Result FatError Disk
  update_sector disk lba f =
      driver (read_sector disk lba) >>= λ buf. driver (write_sector disk lba (f buf))

  unfoldable pub put_all : Disk → List (Slot × List ℕ) → Result FatError Disk
  put_all disk [] = ok disk
  put_all disk ((slot, bytes) ∷ writes) =
      update_sector disk slot.0 (λ buf. splice buf slot.1 bytes) >>= λ disk'. put_all disk' writes

  unfoldable pub write_name_entries :
      Disk → List Slot → List (List ℕ) → List ℕ → Result FatError Disk
  write_name_entries disk slots long_entries entry = put_all disk (paired slots long_entries entry)

  -- Marks slots deleted.
  unfoldable pub mark_deleted : Disk → List Slot → Result FatError Disk
  mark_deleted disk [] = ok disk
  mark_deleted disk (slot ∷ slots) =
      update_sector disk slot.0 (λ buf. set buf slot.1 229) >>= λ disk'. mark_deleted disk' slots

  -- Frees the clusters behind the new end of a file's chain.
  unfoldable pub free_clusters : Disk → Fat12Info → List ℕ → Result FatError (Disk × Fat12Info)
  free_clusters disk info [] = ok (disk, info)
  free_clusters disk info (c ∷ cs) =
      write_fat_entry_to_disk ata disk info c 0 >>= λ freed. free_clusters freed.0 freed.1 cs

  -- A file's clusters for `needed` of them: more are chosen, or those too many are freed.
  unfoldable pub resized :
      Disk → Fat12Info → ℕ → List ℕ → Result FatError (Disk × Fat12Info × List ℕ)
  resized disk info needed clusters =
      let grown = find_free_clusters info (needed - length clusters) >>= λ extra.
      ok (disk, info, clusters ++ extra) in
      let shrunk = free_clusters disk info (drop needed clusters) >>= λ freed.
      ok (freed.0, freed.1, take needed clusters) in
      if ltb (length clusters) needed
      then grown
      else if ltb needed (length clusters)
      then shrunk
      else ok (disk, info, clusters)

  unfoldable pub create_file_impl :
      ℕ
      → RtcTime
      → Disk
      → Fat12Info
      → DirLocation
      → List ℕ
      → List ℕ
      → Result FatError (Disk × Fat12Info)
  create_file_impl fuel time disk info dir name contents =
      list_entries_in ata fuel disk info dir >>= λ entries.
      if name_is_taken name entries
      then err name_taken
      else (build_name_entries_in ata fuel disk info dir name >>= λ built.
          find_free_entry_run_in ata fuel disk info dir (length built.1 + 1) >>= λ run.
          find_free_clusters run.1 (clusters_needed run.1 contents) >>= λ clusters.
          lay ata run.0 run.1 clusters contents >>= λ laid.
          let (fat_time, fat_date) = to_fat_datetime time in
          write_name_entries laid.0 run.2 built.1
            (build_dir_entry built.0 32 (byte clusters 0) (u32 (length contents)) fat_time fat_date)
          >>= λ disk'. ok (disk', laid.1))

  unfoldable pub write_file_impl :
      ℕ → Disk → Fat12Info → DirLocation → List ℕ → List ℕ → Result FatError (Disk × Fat12Info)
  write_file_impl fuel disk info dir name contents =
      find_entry_location_in ata fuel disk info dir name >>= λ found.
      if DirEntry.is_dir found.1
      then err is_a_directory
      else (follow fuel info (some (DirEntry.start_cluster found.1)) >>= λ clusters.
          resized disk info (clusters_needed info contents) clusters >>= λ sized.
          lay ata sized.0 sized.1 sized.2 contents >>= λ laid.
          update_sector laid.0 found.0.0
            (λ buf. splice buf (found.0.1 + 28) (le32_bytes (u32 (length contents))))
          >>= λ disk'. ok (disk', laid.1))

  unfoldable pub read_file_impl :
      ℕ → Disk → Fat12Info → DirLocation → List ℕ → Result FatError (List ℕ)
  read_file_impl fuel disk info dir name =
      find_entry_location_in ata fuel disk info dir name >>= λ found.
      if DirEntry.is_dir found.1
      then err not_found
      else if DirEntry.size found.1 == 0
      then ok []
      else read_chain ata fuel disk info (DirEntry.start_cluster found.1) (DirEntry.size found.1) []

  -- The first sector of a new directory, and the other ones.
  unfoldable pub write_dots : Disk → Fat12Info → ℕ → List ℕ → List ℕ → Result FatError Disk
  write_dots disk info cluster dot_entry dotdot_entry =
      let lba = cluster_to_lba info cluster in
      driver (write_sector disk lba (dot_entry ++ dotdot_entry ++ replicate 448 0)) >>= λ disk'.
      zeroed ata disk' (lba + 1) (info.sectors_per_cluster - 1)

  unfoldable pub create_directory_impl :
      ℕ → RtcTime → Disk → Fat12Info → DirLocation → List ℕ → Result FatError (Disk × Fat12Info)
  create_directory_impl fuel time disk info parent name =
      list_entries_in ata fuel disk info parent >>= λ entries.
      if name_is_taken name entries
      then err name_taken
      else (build_name_entries_in ata fuel disk info parent name >>= λ built.
          find_free_entry_run_in ata fuel disk info parent (length built.1 + 1) >>= λ run.
          find_free_clusters run.1 1 >>= λ clusters.
          let cluster = byte clusters 0 in
          let (fat_time, fat_date) = to_fat_datetime time in
          write_dots run.0 run.1 cluster (build_dir_entry dot_name 16 cluster 0 fat_time fat_date)
            (build_dir_entry dotdot_name 16 (parent_cluster parent) 0 fat_time fat_date)
          >>= λ dotted. write_fat_entry_to_disk ata dotted run.1 cluster 4095 >>= λ ended.
              write_name_entries ended.0 run.2 built.1
                (build_dir_entry built.0 16 cluster 0 fat_time fat_date)
              >>= λ disk'. ok (disk', ended.1))

  -- Frees a chain and marks its entry's slots.
  abbrev pub removed :
      ℕ → Disk → Fat12Info → List Slot → Slot → DirEntry → Result FatError (Disk × Fat12Info)
  removed fuel disk info lfn_slots slot entry =
      free_chain ata fuel disk info (some (DirEntry.start_cluster entry)) >>= λ freed.
      mark_deleted freed.0 (lfn_slots ++ (slot ∷ [])) >>= λ disk'. ok (disk', freed.1)

  unfoldable pub delete_file_impl :
      ℕ → Disk → Fat12Info → DirLocation → List ℕ → Result FatError (Disk × Fat12Info)
  delete_file_impl fuel disk info dir name =
      find_entry_location_in ata fuel disk info dir name >>= λ found.
      if DirEntry.is_dir found.1
      then err is_a_directory
      else (find_preceding_lfn_slots ata fuel disk info dir found.0 >>= λ lfn_slots.
          removed fuel disk info lfn_slots found.0 found.1)

  unfoldable pub delete_directory_impl :
      ℕ → Disk → Fat12Info → DirLocation → List ℕ → Result FatError (Disk × Fat12Info)
  delete_directory_impl fuel disk info parent name =
      find_entry_location_in ata fuel disk info parent name >>= λ found.
      if not (DirEntry.is_dir found.1)
      then err not_a_directory
      else (list_directory ata fuel disk info (DirEntry.start_cluster found.1) >>= λ entries.
          if ltb 2 (length entries)
          then err not_empty
          else (find_preceding_lfn_slots ata fuel disk info parent found.0 >>= λ lfn_slots.
              removed fuel disk info lfn_slots found.0 found.1))
