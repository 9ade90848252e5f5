-- ===== src/Fat/Volume.antt =====
-- agentos-kernel/src/partition.rs, and `read_bpb` of fat12.rs and fat32.rs: from a boot sector to a
-- volume. The disk driver is a parameter.
pub mod Coherent
mod Examples
use iaos.Prelude.{
  ℕ, zero, suc, ◌+◌, ◌*◌, ◌/◌, ◌%◌, ◌^◌, Bool, true, false, not, ◌&&◌, ◌||◌, Option, none, some,
  List, [], ◌∷◌, ◌++◌, length, byte, ltb, leb, ◌==◌, if◌then◌else◌, u32, le16, le32, bit_and,
  Result, ok, err,
}
use iaos.Fat.Table.{Ata, Fat12Info, first_fat_sector}

pub record PartitionEntry : Type 0 where
  pub bootable : Bool
  pub partition_type : ℕ
  pub start_lba : ℕ
  pub sector_count : ℕ

-- The 16 bytes from `at` on.
abbrev pub mbr_entry : List ℕ → ℕ → PartitionEntry
mbr_entry sector at = record {
  bootable = byte sector at == 128;
  partition_type = byte sector (at + 4);
  start_lba =
      le32 (byte sector (at + 8)) (byte sector (at + 9)) (byte sector (at + 10))
        (byte sector (at + 11));
  sector_count =
      le32 (byte sector (at + 12)) (byte sector (at + 13)) (byte sector (at + 14))
        (byte sector (at + 15));
}

unfoldable pub parse_mbr : List ℕ → List PartitionEntry
parse_mbr sector =
    mbr_entry sector 446 ∷ mbr_entry sector 462 ∷ mbr_entry sector 478 ∷ mbr_entry sector 494 ∷ []

pub data BpbError : Type 0 where
  driver_error missing_signature bad_sector_size wrong_kind zero_fat_size : BpbError

pub record Fat32Info : Type 0 where
  pub sectors_per_cluster : ℕ
  pub reserved_sector_count : ℕ
  pub num_fats : ℕ
  pub fat_size_32 : ℕ
  pub root_cluster : ℕ
  pub partition_start_lba : ℕ

-- The fields of a boot sector that both readers look at.
abbrev pub is_signed : List ℕ → Bool
is_signed sector = byte sector 510 == 85 && byte sector 511 == 170

abbrev pub bytes_per_sector : List ℕ → ℕ
bytes_per_sector sector = le16 (byte sector 11) (byte sector 12)

abbrev pub root_entries : List ℕ → ℕ
root_entries sector = le16 (byte sector 17) (byte sector 18)

abbrev pub fat_size_16_of : List ℕ → ℕ
fat_size_16_of sector = le16 (byte sector 22) (byte sector 23)

abbrev pub fat_size_32_of : List ℕ → ℕ
fat_size_32_of sector = le32 (byte sector 36) (byte sector 37) (byte sector 38) (byte sector 39)

module _ (ata : Ata) where
  open ata use {Disk, read_sector}

  -- What is made of a boot sector that could be read.
  abbrev pub started :
      {B : Type 0} → Option (List ℕ) → (List ℕ → Result BpbError B) → Result BpbError B
  started none k = err driver_error
  started (some sector) k = k sector

  abbrev pub append_read : Option (List ℕ) → Option (List ℕ) → Option (List ℕ)
  append_read none rest = none
  append_read (some buf) none = none
  append_read (some buf) (some rest) = some (buf ++ rest)

  -- `left` sectors from number `s` of the table on, one behind the other.
  unfoldable pub read_table : Disk → ℕ → ℕ → ℕ → Option (List ℕ)
  read_table disk first zero s = some []
  read_table disk first (suc left) s =
      append_read (read_sector disk (u32 (first + s))) (read_table disk first left (s + 1))

  -- The volume before its table is read.
  abbrev pub geometry : ℕ → List ℕ → Fat12Info
  geometry start_lba sector = record {
    sectors_per_cluster = byte sector 13;
    num_fats = byte sector 16;
    fat_size_16 = fat_size_16_of sector;
    root_entry_count = root_entries sector;
    reserved_sector_count = le16 (byte sector 14) (byte sector 15);
    partition_start_lba = start_lba;
    fat_bytes = [];
  }

  abbrev pub tabled : Fat12Info → Option (List ℕ) → Result BpbError Fat12Info
  tabled info none = err driver_error
  tabled info (some bytes) = ok (record info { fat_bytes = bytes })

  abbrev pub with_table : Disk → Fat12Info → Result BpbError Fat12Info
  with_table disk info = tabled info (read_table disk (first_fat_sector info) info.fat_size_16 0)

  abbrev pub check12 : Disk → ℕ → List ℕ → Result BpbError Fat12Info
  check12 disk start_lba sector =
      if not (is_signed sector)
      then err missing_signature
      else if not (bytes_per_sector sector == 512)
      then err bad_sector_size
      else if root_entries sector == 0
      then err wrong_kind
      else if fat_size_16_of sector == 0
      then err zero_fat_size
      else with_table disk (geometry start_lba sector)

  unfoldable pub read_bpb12 : Disk → PartitionEntry → Result BpbError Fat12Info
  read_bpb12 disk partition =
      started (read_sector disk partition.start_lba)
        (λ sector. check12 disk partition.start_lba sector)

  abbrev pub check32 : ℕ → List ℕ → Result BpbError Fat32Info
  check32 start_lba sector =
      if not (is_signed sector)
      then err missing_signature
      else if not (bytes_per_sector sector == 512)
      then err bad_sector_size
      else if not (root_entries sector == 0)
      then err wrong_kind
      else if fat_size_32_of sector == 0
      then err zero_fat_size
      else ok (record {
        sectors_per_cluster = byte sector 13;
        reserved_sector_count = le16 (byte sector 14) (byte sector 15);
        num_fats = byte sector 16;
        fat_size_32 = fat_size_32_of sector;
        root_cluster = le32 (byte sector 44) (byte sector 45) (byte sector 46) (byte sector 47);
        partition_start_lba = start_lba;
      })

  unfoldable pub read_bpb32 : Disk → PartitionEntry → Result BpbError Fat32Info
  read_bpb32 disk partition =
      started (read_sector disk partition.start_lba) (λ sector. check32 partition.start_lba sector)
