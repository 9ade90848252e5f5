-- ===== src/Fat/Files/Examples.antt =====
-- A file of the root directory of the sample volume is written and read.
use iaos.Prelude.{ℕ, ◌≡◌, refl, All, false, arith, List, [], ◌∷◌, replicate, ok, err, ◌>>=◌}
use iaos.Fat.Common.{
  DirEntry, take_verified, format_short_name, to_entry, short_entry_if_matches, kind_of,
}
use iaos.Fat.Entries.{build_dir_entry}
use iaos.Fat.Table.{
  not_enough_free, first_fat_sector, first_root_dir_sector, root_dir_sectors, entry_at,
}
use iaos.Fat.Table.Free.{free_in, free_count}
use iaos.Fat.Chain.Laid.{InVolume}
use iaos.Fat.Directory.{
  root, find_entry_location_in, directory_sectors, search, raw_entries, search_sector,
}
use iaos.Fat.Samples.{
  memory_disk, working_disk, table, volume, sectors, volume-IsReady, cluster-InVolume,
}
use iaos.Fat.Files.{write_file_impl, read_file_impl}
use iaos.Fat.Files.RoundTrip.{IsLaidOut, write_file_impl-read_file_impl, write_file_impl-full}
use iaos.Fat.Files.Resized.{IsWhole}

volume-IsLaidOut : IsLaidOut memory_disk 16 working_disk volume 12
unfolding first_root_dir_sector root_dir_sectors first_fat_sector
volume-IsLaidOut = record {
  behind = omega arith;
  root_fits = omega arith;
  addressable = omega arith;
  wide = λ e. omega arith;
}

volume-IsWhole : IsWhole memory_disk 16 working_disk volume 12
volume-IsWhole = record {
  small = omega arith;
  clusters = λ c a b h. cluster-InVolume c a (omega arith);
}

abbrev file_name : List ℕ
file_name = 97 ∷ 46 ∷ 116 ∷ 120 ∷ 116 ∷ []

abbrev file_entry : DirEntry
file_entry = record {
  name = 65 ∷ 46 ∷ 84 ∷ 88 ∷ 84 ∷ [];
  is_dir = false;
  size = 700;
  start_cluster = 2;
  fat_time = 0;
  fat_date = 0;
}

file_found :
    find_entry_location_in memory_disk 8 sectors volume root file_name ≡ ok ((2, 0), file_entry)
unfolding find_entry_location_in directory_sectors search raw_entries search_sector
    first_root_dir_sector root_dir_sectors first_fat_sector build_dir_entry take_verified
    format_short_name to_entry short_entry_if_matches kind_of
file_found = refl

abbrev contents : List ℕ
contents = replicate 1100 5

free_run : free_in volume ≡ 4
unfolding free_count entry_at
free_run = refl

chain_InVolume :
    All
      (InVolume memory_disk 16 working_disk volume 12)
      (DirEntry.start_cluster file_entry ∷ 3 ∷ [])
chain_InVolume = (
  cluster-InVolume 2 (omega arith) (omega arith),
  (cluster-InVolume 3 (omega arith) (omega arith), tt),
)

write_file_impl-read_file_impl_example :
    (write_file_impl memory_disk 8 sectors volume root file_name contents >>= λ w.
    read_file_impl memory_disk 8 w.0 w.1 root file_name)
    ≡ ok contents
unfolding entry_at
write_file_impl-read_file_impl_example =
    write_file_impl-read_file_impl memory_disk 16 working_disk volume 12 volume-IsLaidOut
      volume-IsWhole 8 file_name contents sectors table (2, 0) file_entry (3 ∷ []) volume-IsReady
      file_found refl chain_InVolume ((λ e. omega arith, tt), (tt, tt)) (refl, (refl, tt))
      (omega arith) (omega arith) (omega arith) (omega (arith, free_run))

-- More than the six clusters that the volume has.
abbrev long_contents : List ℕ
long_contents = replicate 3100 5

write_file_impl-full_example :
    write_file_impl memory_disk 8 sectors volume root file_name long_contents ≡ err not_enough_free
unfolding entry_at
write_file_impl-full_example =
    write_file_impl-full memory_disk 16 working_disk volume 12 volume-IsWhole 8 file_name
      long_contents sectors table (2, 0) file_entry (3 ∷ []) volume-IsReady file_found refl
      chain_InVolume ((λ e. omega arith, tt), (tt, tt)) (refl, (refl, tt)) (omega arith)
      (omega (arith, free_run))
