-- ===== src/Fat/Table/Examples.antt =====
-- A table of six entries on a disk of one sector, or of two.
use iaos.Prelude.{
  ℕ, ◌+◌, ◌-◌, ◌*◌, ◌/◌, ◌%◌, ◌≡◌, refl, some, none, List, [], ◌∷◌, length, u32, arith, IsBytes, ok,
  ◌==◌, if◌then◌else◌,
}
use iaos.Fat.Table.{
  Fat12Info, Ata, entry_at, find_free_clusters, free_from, write_fat_entry_to_disk, write_inside,
  pack, first_fat_sector, cluster_to_lba, first_data_sector, first_root_dir_sector,
  root_dir_sectors,
}
use iaos.Fat.Table.Free.{AreFree, find_free_clusters-AreFree}
use iaos.Fat.Table.Write.{IsCoherent, Updated, write_fat_entry_to_disk-Updated}

abbrev table : List ℕ
table = 240 ∷ 255 ∷ 255 ∷ 3 ∷ 240 ∷ 255 ∷ 0 ∷ 0 ∷ 0 ∷ []

abbrev info : Fat12Info
info = record {
  sectors_per_cluster = 4;
  num_fats = 2;
  fat_size_16 = 1;
  root_entry_count = 16;
  reserved_sector_count = 1;
  partition_start_lba = 100;
  fat_bytes = table;
}

geometry_run : cluster_to_lba info 3 ≡ 108
unfolding cluster_to_lba first_data_sector first_root_dir_sector root_dir_sectors first_fat_sector
geometry_run = refl

abbrev two_clusters : List ℕ
two_clusters = 4 ∷ 5 ∷ []

free_run : find_free_clusters info 2 ≡ ok (4 ∷ 5 ∷ [])
unfolding find_free_clusters free_from entry_at
free_run = refl

find_free_clusters-AreFree_example :
    (length two_clusters ≡ 2) × AreFree table 2 (2 + (u32 (length table * 2 / 3) - 2)) two_clusters
find_free_clusters-AreFree_example = find_free_clusters-AreFree info 2 two_clusters free_run

-- A disk of which only the table's sector can be used.
abbrev one_sector : Ata
one_sector = record {
  Disk = List ℕ;
  read_sector = λ d n. if n == 101 then some d else none;
  write_sector = λ d n buf. if n == 101 then some buf else none;
}

table-IsBytes : IsBytes table
table-IsBytes = (
  omega arith,
  (
    omega arith,
    (
      omega arith,
      (omega arith, (omega arith, (omega arith, (omega arith, (omega arith, (omega arith, tt)))))),
    ),
  ),
)

table-IsCoherent : IsCoherent one_sector table info
unfolding first_fat_sector
table-IsCoherent j buf h e =
    let first : u32 (101 + j / 512) ≡ 101 = omega arith in
    let same : j % 512 ≡ j = omega arith in
    let read : some table ≡ some buf = rw first at e in rw same (ground arith)

abbrev table' : List ℕ
table' = 240 ∷ 255 ∷ 255 ∷ 3 ∷ 240 ∷ 255 ∷ 255 ∷ 15 ∷ 0 ∷ []

write_run :
    write_fat_entry_to_disk one_sector table info 4 4095
    ≡ ok (table', record info { fat_bytes = table' })
unfolding write_fat_entry_to_disk write_inside pack first_fat_sector
write_run = refl

write_fat_entry_to_disk-Updated_run :
    Updated one_sector info 4 4095 (record info { fat_bytes = table' })
write_fat_entry_to_disk-Updated_run =
    write_fat_entry_to_disk-Updated one_sector table info 4 4095 table'
      (record info { fat_bytes = table' }) table-IsCoherent table-IsBytes (omega arith) write_run
