-- ===== src/Fat/Table.antt =====
-- agentos-kernel/src/fat12.rs: the file allocation table of 12-bit entries, in memory and on disk.
-- The disk driver is a parameter; what a disk holds after a driver error is left open.
pub mod Pack
pub mod Write
pub mod Free
pub mod Reliable
pub mod Mounted
mod Examples
use iaos.Prelude.{
  ℕ, zero, suc, ◌+◌, ◌-◌, ◌*◌, ◌/◌, ◌%◌, ◌^◌, ◌≤◌, ◌<◌, ◌≡◌, Bool, true, false, Option, none, some,
  List, [], ◌∷◌, ◌++◌, length, byte, set, ltb, leb, ◌==◌, if◌then◌else◌, bit_and, bit_or, u16, u32,
  le16, ◌<<<◌, ◌>>>◌, Result, ok, err,
}

pub record Fat12Info : Type 0 where
  pub sectors_per_cluster : ℕ
  pub num_fats : ℕ
  pub fat_size_16 : ℕ
  pub root_entry_count : ℕ
  pub reserved_sector_count : ℕ
  pub partition_start_lba : ℕ
  pub fat_bytes : List ℕ

pub data FatError : Type 0 where
  out_of_range unexpected_free not_enough_free driver_error still_running : FatError
  not_found is_a_directory not_a_directory name_taken name_rejected directory_full : FatError
  too_many_slots not_empty : FatError

-- `ata::read_sector` and `ata::write_sector`; `none` is their error.
pub record Ata : Type 1 where
  pub Disk : Type 0
  pub read_sector : Disk → ℕ → Option (List ℕ)
  pub write_sector : Disk → ℕ → List ℕ → Option Disk

unfoldable pub first_fat_sector : Fat12Info → ℕ
first_fat_sector info = u32 (info.partition_start_lba + info.reserved_sector_count)

unfoldable pub root_dir_sectors : Fat12Info → ℕ
root_dir_sectors info = (info.root_entry_count * 32 + 511) / 512

unfoldable pub first_root_dir_sector : Fat12Info → ℕ
first_root_dir_sector info = u32 (first_fat_sector info + info.num_fats * info.fat_size_16)

unfoldable pub first_data_sector : Fat12Info → ℕ
first_data_sector info = u32 (first_root_dir_sector info + root_dir_sectors info)

-- `cluster - 2` wraps around for clusters 0 and 1, without overflow checks.
unfoldable pub cluster_to_lba : Fat12Info → ℕ → ℕ
cluster_to_lba info cluster =
    u32 (first_data_sector info + u32 (cluster + 4294967294) * info.sectors_per_cluster)

-- `cluster * 3 / 2` on 32 bits.
abbrev pub byte_offset : ℕ → ℕ
byte_offset cluster = u32 (cluster * 3) / 2

abbrev pub is_even : ℕ → Bool
is_even n = n % 2 == 0

-- The 12 bits of a cluster in the two bytes that hold it.
abbrev pub unpack : ℕ → ℕ → ℕ
unpack cluster raw16 = if is_even cluster then bit_and raw16 4095 else raw16 >>> 4

abbrev pub raw_at : List ℕ → ℕ → ℕ
raw_at fat at = le16 (byte fat at) (byte fat (at + 1))

unfoldable pub entry_at : List ℕ → ℕ → ℕ
entry_at fat cluster = unpack cluster (raw_at fat (byte_offset cluster))

unfoldable pub next_cluster : Fat12Info → ℕ → Result FatError (Option ℕ)
next_cluster info cluster =
    if leb (length info.fat_bytes) (byte_offset cluster + 1)
    then err out_of_range
    else if entry_at info.fat_bytes cluster == 0
    then err unexpected_free
    else if leb 4088 (entry_at info.fat_bytes cluster)
    then ok none
    else ok (some (entry_at info.fat_bytes cluster))

abbrev pub is_err : Result FatError (Option ℕ) → Bool
is_err (err e) = true
is_err (ok a) = false

unfoldable pub cluster_is_free : Fat12Info → ℕ → Bool
cluster_is_free info cluster = is_err (next_cluster info cluster)

-- The loop of `find_free_clusters`, with `left` clusters from `cluster` on to come.
unfoldable pub free_from : List ℕ → ℕ → ℕ → ℕ → List ℕ → List ℕ
free_from fat count zero cluster found = found
free_from fat count (suc left) cluster found =
    let here = if entry_at fat cluster == 0 then found ++ (cluster ∷ []) else found in
    let rest = free_from fat count left (cluster + 1) here in
    if length found == count
    then found
    else if leb (length fat) (byte_offset cluster + 1)
    then found
    else rest

unfoldable pub find_free_clusters : Fat12Info → ℕ → Result FatError (List ℕ)
find_free_clusters info count =
    let total_entries = u32 (length info.fat_bytes * 2 / 3) in
    let found = free_from info.fat_bytes count (total_entries - 2) 2 [] in
    if ltb (length found) count then err not_enough_free else ok found

-- The two bytes with a cluster's 12 bits replaced.
unfoldable pub pack : ℕ → ℕ → ℕ → ℕ
pack cluster raw16 value =
    let masked = bit_and value 4095 in
    if is_even cluster
    then bit_or (bit_and raw16 61440) masked
    else bit_or (bit_and raw16 15) (u16 (masked <<< 4))

module _ (ata : Ata) where
  open ata use {Disk, read_sector, write_sector}

  infixl 5 ◌>>=◌
  abbrev ◌>>=◌ {ℓ} :
      {A : Type ℓ} {B : Type 0} → Option A → (A → Result FatError B) → Result FatError B
  none >>= k = err driver_error
  some a >>= k = k a

  abbrev pub cached : Fat12Info → ℕ → ℕ → Fat12Info
  cached info at out = record info {
    fat_bytes = set (set info.fat_bytes at (out % 256)) (at + 1) (out / 256);
  }

  -- The end of a write, of the pair of bytes that was read.
  abbrev pub stored : Fat12Info → ℕ → ℕ → ℕ → ℕ → Option Disk → Result FatError (Disk × Fat12Info)
  stored info cluster value byte0 byte1 written = written >>= λ disk'.
      ok (disk', cached info (byte_offset cluster) (pack cluster (le16 byte0 byte1) value))

  -- The pair of bytes lies in one sector.
  unfoldable pub write_inside : Disk → Fat12Info → ℕ → ℕ → Result FatError (Disk × Fat12Info)
  write_inside disk info cluster value =
      let at = byte_offset cluster in
      let sector0 = u32 (first_fat_sector info + at / 512) in
      read_sector disk sector0 >>= λ buf0.
      let out = pack cluster (le16 (byte buf0 (at % 512)) (byte buf0 (at % 512 + 1))) value in
      stored info cluster value (byte buf0 (at % 512)) (byte buf0 (at % 512 + 1)) (
        write_sector disk sector0
          (set (set buf0 (at % 512) (out % 256)) (at % 512 + 1) (out / 256)))

  -- The second of two sectors, once the first is written.
  abbrev pub write_second :
      Fat12Info → ℕ → ℕ → List ℕ → List ℕ → Option Disk → Result FatError (Disk × Fat12Info)
  write_second info cluster value buf0 buf1 none = err driver_error
  write_second info cluster value buf0 buf1 (some disk) =
      let at = byte_offset cluster in
      let sector0 = u32 (first_fat_sector info + at / 512) in
      let out = pack cluster (le16 (byte buf0 (at % 512)) (byte buf1 0)) value in
      stored info cluster value (byte buf0 (at % 512)) (byte buf1 0)
        (write_sector disk (u32 (sector0 + 1)) (set buf1 0 (out / 256)))

  -- The second byte is the first of the next sector.
  unfoldable pub write_straddling : Disk → Fat12Info → ℕ → ℕ → Result FatError (Disk × Fat12Info)
  write_straddling disk info cluster value =
      let at = byte_offset cluster in
      let sector0 = u32 (first_fat_sector info + at / 512) in
      read_sector disk sector0 >>= λ buf0. read_sector disk (u32 (sector0 + 1)) >>= λ buf1.
      let out = pack cluster (le16 (byte buf0 (at % 512)) (byte buf1 0)) value in
      write_second info cluster value buf0 buf1
        (write_sector disk sector0 (set buf0 (at % 512) (out % 256)))

  unfoldable pub write_fat_entry_to_disk :
      Disk → Fat12Info → ℕ → ℕ → Result FatError (Disk × Fat12Info)
  write_fat_entry_to_disk disk info cluster value =
      if leb (length info.fat_bytes) (byte_offset cluster + 1)
      then err out_of_range
      else if byte_offset cluster % 512 == 511
      then write_straddling disk info cluster value
      else write_inside disk info cluster value
