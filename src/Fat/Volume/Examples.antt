-- ===== src/Fat/Volume/Examples.antt =====
-- A disk with a FAT12 boot sector at 100, and zeros elsewhere.
use iaos.Prelude.{
  ℕ, ◌≡◌, ◌≢◌, refl, inl, inr, true, some, List, length, set, replicate, ◌==◌, if◌then◌else◌, arith,
  Bool-cases, ok,
}
use iaos.Fat.Table.{Ata, Fat12Info, first_fat_sector}
use iaos.Fat.Table.Write.{IsCoherent}
use iaos.Fat.Volume.{PartitionEntry, Fat32Info, read_bpb12, read_bpb32, read_table}
use iaos.Fat.Volume.Coherent.{HasSectors, read_bpb12-IsCoherent, read_bpb-exclusive}

abbrev zeros : List ℕ
zeros = replicate 512 0

abbrev boot_sector : List ℕ
boot_sector = set (set (set (set (set (set (set zeros 12 2) 13 4) 14 1) 16 2) 17 16) 22 1) 510 85

abbrev signed_sector : List ℕ
signed_sector = set boot_sector 511 170

abbrev drive : Ata
drive = record {
  Disk = ℕ;
  read_sector = λ d n. if n == 100 then some signed_sector else some zeros;
  write_sector = λ d n buf. some d;
}

zeros-size : length zeros ≡ 512
zeros-size = refl

signed_sector-size : length signed_sector ≡ 512
signed_sector-size = refl

drive-HasSectors : HasSectors drive 0
drive-HasSectors n buf h = elim (Bool-cases (n == 100)) [
  | inl e ↦
      let it : some signed_sector ≡ some buf = rw e at h in
      let same : signed_sector ≡ buf = ground arith in rw (← same) signed_sector-size
  | inr e ↦
      let it : some zeros ≡ some buf = rw e at h in
      let same : zeros ≡ buf = ground arith in rw (← same) zeros-size
]

abbrev partition : PartitionEntry
partition = record { bootable = true; partition_type = 12; start_lba = 100; sector_count = 64 }

abbrev volume : Fat12Info
volume = record {
  sectors_per_cluster = 4;
  num_fats = 2;
  fat_size_16 = 1;
  root_entry_count = 16;
  reserved_sector_count = 1;
  partition_start_lba = 100;
  fat_bytes = zeros;
}

mount_run : read_bpb12 drive 0 partition ≡ ok volume
unfolding read_bpb12 read_table first_fat_sector
mount_run = refl

read_bpb12-IsCoherent_example : IsCoherent drive 0 volume
read_bpb12-IsCoherent_example =
    read_bpb12-IsCoherent drive 0 drive-HasSectors partition volume mount_run

abbrev other_volume : Fat32Info
other_volume = record {
  sectors_per_cluster = 4;
  reserved_sector_count = 1;
  num_fats = 2;
  fat_size_32 = 1;
  root_cluster = 2;
  partition_start_lba = 100;
}

read_bpb-exclusive_run : read_bpb32 drive 0 partition ≢ ok other_volume
read_bpb-exclusive_run = read_bpb-exclusive drive 0 partition volume other_volume mount_run
