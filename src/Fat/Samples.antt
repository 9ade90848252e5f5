-- ===== src/Fat/Samples.antt =====
-- A small volume of one-sector clusters with one file in its root directory, on a disk that keeps its
-- sectors in a function, for the tests.
use iaos.Prelude.{
  ℕ, zero, suc, ◌+◌, ◌/◌, ◌%◌, ◌≤◌, ◌<◌, ◌≡◌, ◌≢◌, refl, inl, inr, arith, some, List, [], ◌∷◌,
  length-replicate, replicate, byte, ◌==◌, if◌then◌else◌, Bool-cases,
}
use iaos.Fat.Table.{
  Fat12Info, Ata, first_fat_sector, first_root_dir_sector, root_dir_sectors, first_data_sector,
}
use iaos.Fat.Table.Reliable.{IsReliable}
use iaos.Fat.Table.Mounted.{IsMounted}
use iaos.Fat.Entries.{build_dir_entry}
use iaos.Fat.Chain.{filled}
use iaos.Fat.Chain.Laid.{IsReady, InVolume, length-filled}

abbrev pub write_at : (ℕ → List ℕ) → ℕ → List ℕ → ℕ → List ℕ
write_at d n buf m = if m == n then buf else d m

pub write_at_same : (d : ℕ → List ℕ) (n : ℕ) (buf : List ℕ) → write_at d n buf n ≡ buf
write_at_same d n buf = ground arith

pub write_at_other :
    (d : ℕ → List ℕ) (n : ℕ) (buf : List ℕ) (m : ℕ) → m ≢ n → write_at d n buf m ≡ d m
write_at_other d n buf m h = ground arith

abbrev pub memory_disk : Ata
memory_disk = record {
  Disk = ℕ → List ℕ;
  read_sector = λ d n. some (d n);
  write_sector = λ d n buf. some (write_at d n buf);
}

abbrev pub working_disk : IsReliable memory_disk 16
working_disk = record {
  content = λ d n. d n;
  after = write_at;
  reads = λ d n h. refl;
  writes = λ d n buf h k. refl;
  same = write_at_same;
  other = write_at_other;
}

-- A chain of clusters 2 and 3, and four free clusters behind it.
abbrev pub table : List ℕ
table = 240 ∷ 255 ∷ 255 ∷ 3 ∷ 240 ∷ 255 ∷ 0 ∷ 0 ∷ 0 ∷ 0 ∷ 0 ∷ 0 ∷ []

abbrev pub volume : Fat12Info
volume = record {
  sectors_per_cluster = 1;
  num_fats = 1;
  fat_size_16 = 1;
  root_entry_count = 16;
  reserved_sector_count = 1;
  partition_start_lba = 0;
  fat_bytes = table;
}

-- A.TXT, of 700 bytes from cluster 2 on.
abbrev pub short_name : List ℕ
short_name = 65 ∷ 32 ∷ 32 ∷ 32 ∷ 32 ∷ 32 ∷ 32 ∷ 32 ∷ 84 ∷ 88 ∷ 84 ∷ []

abbrev pub sectors : ℕ → List ℕ
sectors n =
    if n == 1
    then filled 512 table
    else if n == 2
    then filled 512 (build_dir_entry short_name 32 2 700 0 0)
    else replicate 512 0

byte-filled : (n : ℕ) (bs : List ℕ) (k : ℕ) → k < n → byte (filled n bs) k ≡ byte bs k
byte-filled zero bs k h = absurd (omega arith)
byte-filled (suc n) [] zero h = refl
byte-filled (suc n) [] (suc k) h = byte-filled n [] k (omega arith)
byte-filled (suc n) (b ∷ bs) zero h = refl
byte-filled (suc n) (b ∷ bs) (suc k) h = byte-filled n bs k (omega arith)

pub volume-IsMounted : IsMounted memory_disk 16 working_disk sectors volume
volume-IsMounted = record {
  sized = λ n h. elim (Bool-cases (n == 1)) [
    | inl e ↦ rw e (length-filled 512 table)
    | inr e ↦ elim (Bool-cases (n == 2)) [
      | inl f ↦ rw (e, f) (length-filled 512 (build_dir_entry short_name 32 2 700 0 0))
      | inr f ↦ rw (e, f) (length-replicate {A = ℕ} 512 0)
    ]
  ];
  bytes = omega arith;
  fits = omega arith;
  addressable = omega arith;
  agrees = λ j h.
      let low : 0 + 1 + j / 512 ≡ 1 = omega arith in
      let same : j % 512 ≡ j = omega arith in
      rw (low, same) (byte-filled 512 table j (omega arith));
}

pub volume-IsReady : IsReady memory_disk 16 working_disk volume 12 sectors table
volume-IsReady = record { mounted = volume-IsMounted; size = refl }

pub cluster-InVolume : (c : ℕ) → 2 ≤ c → c < 8 → InVolume memory_disk 16 working_disk volume 12 c
unfolding first_data_sector first_root_dir_sector root_dir_sectors first_fat_sector
cluster-InVolume c a b = record {
  from_2 = a;
  below = omega arith;
  wide = omega arith;
  entry = omega arith;
  behind = omega arith;
  sectors = omega arith;
  addressable = omega arith;
}
