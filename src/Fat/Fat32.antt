-- ===== src/Fat/Fat32.antt =====
-- agentos-kernel/src/fat32.rs: the chains of a FAT32 volume, whose table is read from the disk at each
-- step, and the listing and reading of its root directory. Clusters are numbered from 2, and the fuel bounds
-- those of a chain.
use iaos.Prelude.{
  ℕ, zero, suc, ◌+◌, ◌*◌, ◌/◌, ◌%◌, true, false, Option, none, some, List, [], length, byte, le32,
  leb, ◌==◌, if◌then◌else◌, bit_and, u32, Result, ok, err, ◌>>=◌,
}
use iaos.Fat.Common.{DirEntry, LfnState, default}
use iaos.Fat.Table.{Ata, FatError, unexpected_free, still_running, not_found}
use iaos.Fat.Chain.{driver, read_cluster}
use iaos.Fat.Directory.{raw_entries, Search, match_at, no_more, go_on, search_sector}
use iaos.Fat.Directory.Listing.{each_sector, listed}
use iaos.Fat.Volume.{Fat32Info}

unfoldable pub first_fat_sector : Fat32Info → ℕ
first_fat_sector info = u32 (info.partition_start_lba + info.reserved_sector_count)

unfoldable pub first_data_sector : Fat32Info → ℕ
first_data_sector info = u32 (first_fat_sector info + info.num_fats * info.fat_size_32)

-- `cluster - 2` wraps around for clusters 0 and 1, without overflow checks.
unfoldable pub cluster_to_lba : Fat32Info → ℕ → ℕ
cluster_to_lba info cluster =
    u32 (first_data_sector info + u32 (cluster + 4294967294) * info.sectors_per_cluster)

-- The 28 bits of an entry as a link.
unfoldable pub link : ℕ → Result FatError (Option ℕ)
link raw =
    if raw == 0 then err unexpected_free else if leb 268435448 raw then ok none else ok (some raw)

module _ (ata : Ata) where
  open ata use {Disk, read_sector}

  unfoldable pub next_cluster : Disk → Fat32Info → ℕ → Result FatError (Option ℕ)
  next_cluster disk info cluster =
      let fat_byte_offset = u32 (cluster * 4) in
      let at = fat_byte_offset % 512 in
      driver (read_sector disk (u32 (first_fat_sector info + fat_byte_offset / 512))) >>= λ sector.
      link (
        bit_and
          (le32 (byte sector at) (byte sector (at + 1)) (byte sector (at + 2))
            (byte sector (at + 3)))
          268435455)

  -- The loop of `list_directory`.
  unfoldable pub list_from :
      ℕ → Disk → Fat32Info → ℕ → List DirEntry × LfnState → Result FatError (List DirEntry)
  list_from zero disk info cluster found = err still_running
  list_from (suc fuel) disk info cluster found =
      each_sector ata (listed ata) disk (cluster_to_lba info cluster) info.sectors_per_cluster found
      >>= λ scanned. elim scanned.0 [
        | true ↦ ok scanned.1.0
        | false ↦ next_cluster disk info cluster >>= λ next. elim next [
          | none ↦ ok scanned.1.0
          | some c ↦ list_from fuel disk info c scanned.1
        ]
      ]

  unfoldable pub list_directory : ℕ → Disk → Fat32Info → ℕ → Result FatError (List DirEntry)
  list_directory fuel disk info start_cluster = list_from fuel disk info start_cluster ([], default)

  -- `left` sectors of the search for a name.
  unfoldable pub search_cluster : List ℕ → Disk → ℕ → ℕ → LfnState → Result FatError Search
  search_cluster name disk lba zero lfn = ok (go_on lfn)
  search_cluster name disk lba (suc left) lfn = driver (read_sector disk (u32 lba)) >>= λ buf.
      elim (search_sector name lba 0 (raw_entries buf) lfn) [
        | match_at slot entry ↦ ok (match_at slot entry)
        | no_more ↦ ok no_more
        | go_on lfn' ↦ search_cluster name disk (lba + 1) left lfn'
      ]

  -- The loop of `find_entry`.
  unfoldable pub find_from : ℕ → Disk → Fat32Info → List ℕ → ℕ → LfnState → Result FatError DirEntry
  find_from zero disk info name cluster lfn = err still_running
  find_from (suc fuel) disk info name cluster lfn =
      search_cluster name disk (cluster_to_lba info cluster) info.sectors_per_cluster lfn
      >>= λ searched. elim searched [
        | match_at slot entry ↦ ok entry
        | no_more ↦ err not_found
        | go_on lfn' ↦ next_cluster disk info cluster >>= λ next. elim next [
          | none ↦ err not_found
          | some c ↦ find_from fuel disk info name c lfn'
        ]
      ]

  unfoldable pub find_entry : ℕ → Disk → Fat32Info → ℕ → List ℕ → Result FatError DirEntry
  find_entry fuel disk info start_cluster name = find_from fuel disk info name start_cluster default

  -- The loop of `read_file`.
  unfoldable pub read_from : ℕ → Disk → Fat32Info → ℕ → ℕ → List ℕ → Result FatError (List ℕ)
  read_from zero disk info cluster size data_read = err still_running
  read_from (suc fuel) disk info cluster size data_read =
      read_cluster ata disk (cluster_to_lba info cluster) info.sectors_per_cluster size data_read
      >>= λ longer.
          if leb size (length longer)
          then ok longer
          else (next_cluster disk info cluster >>= λ next. elim next [
            | none ↦ ok longer
            | some c ↦ read_from fuel disk info c size longer
          ])

  unfoldable pub read_file : ℕ → Disk → Fat32Info → List ℕ → Result FatError (List ℕ)
  read_file fuel disk info name = find_entry fuel disk info info.root_cluster name >>= λ entry.
      if DirEntry.is_dir entry
      then err not_found
      else if DirEntry.size entry == 0
      then ok []
      else read_from fuel disk info (DirEntry.start_cluster entry) (DirEntry.size entry) []
