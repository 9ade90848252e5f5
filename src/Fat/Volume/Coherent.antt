-- ===== src/Fat/Volume/Coherent.antt =====
-- A mounted FAT12 volume holds the table of the disk, and no partition is both FAT12 and FAT32.
use iaos.Prelude.{
  ℕ, zero, suc, ◌+◌, ◌-◌, ◌/◌, ◌%◌, ◌<◌, ◌≡◌, ◌≢◌, refl, sym, ap, ◌∙◌, inl, inr, arith, Option,
  none, some, List, [], ◌∷◌, ◌++◌, length, length-append, byte, ltb, ◌==◌, u32, Bool-cases, ok,
  ok_inj,
}
use iaos.Fat.Table.{Ata, Fat12Info, first_fat_sector}
use iaos.Fat.Table.Write.{IsCoherent}
use iaos.Fat.Volume.{
  PartitionEntry, Fat32Info, started, tabled, append_read, read_table, geometry, check12,
  read_bpb12, check32, read_bpb32, is_signed, bytes_per_sector, root_entries, fat_size_16_of,
}

byte-left : (xs ys : List ℕ) (i : ℕ) → i < length xs → byte (xs ++ ys) i ≡ byte xs i
byte-left [] ys i h = absurd (omega arith)
byte-left (x ∷ xs) ys zero h = refl
byte-left (x ∷ xs) ys (suc i) h = byte-left xs ys i (omega arith)

byte-right : (xs ys : List ℕ) (i : ℕ) → byte (xs ++ ys) (i + length xs) ≡ byte ys i
byte-right [] ys i = ap (λ t. byte ys t) (omega arith)
byte-right (x ∷ xs) ys i =
    let next : i + suc (length xs) ≡ suc (i + length xs) = omega arith in
    ap (λ t. byte (x ∷ (xs ++ ys)) t) next ∙ byte-right xs ys i

module _ (ata : Ata) (disk : Ata.Disk ata) where
  open ata use {Disk, read_sector}

  -- A sector that is read has 512 bytes.
  abbrev pub HasSectors : Type 0
  HasSectors = (n : ℕ) (buf : List ℕ) → read_sector disk n ≡ some buf → length buf ≡ 512

  read_table-byte :
      HasSectors
      → (first left s : ℕ) (bytes buf : List ℕ) (j : ℕ)
      → read_table ata disk first left s ≡ some bytes
      → j < length bytes
      → read_sector disk (u32 (first + (s + j / 512))) ≡ some buf
      → byte buf (j % 512) ≡ byte bytes j
  unfolding read_table
  read_table-byte sized first zero s bytes buf j h lt e = absurd (ground arith)
  read_table-byte sized first (suc left) s bytes buf j h lt e =
      by_case (λ rest k x y z. read_table-byte sized first left (s + 1) rest buf k x y z)
        (read_sector disk (u32 (first + s))) (read_table ata disk first left (s + 1)) refl refl h
    where
      by_case :
          ((rest : List ℕ) (k : ℕ)
            → read_table ata disk first left (s + 1) ≡ some rest
            → k < length rest
            → read_sector disk (u32 (first + (s + 1 + k / 512))) ≡ some buf
            → byte buf (k % 512) ≡ byte rest k)
          → (o p : Option (List ℕ)) → read_sector disk (u32 (first + s)) ≡ o
          → read_table ata disk first left (s + 1) ≡ p
          → append_read ata o p ≡ some bytes
          → byte buf (j % 512) ≡ byte bytes j
      by_case later none p x y k = cc
      by_case later (some b) none x y k = cc
      by_case later (some b) (some rest) x y k =
          let whole : b ++ rest ≡ bytes = ground arith in
          let size = sized (u32 (first + s)) b x in
          elim (Bool-cases (ltb j 512)) [
            | inl c ↦
                let here : s + j / 512 ≡ s = ground arith in
                let low : j % 512 ≡ j = ground arith in
                let same : b ≡ buf = (let g = rw here at e in ground arith) in
                rw (low, ← whole, ← same) (sym (byte-left b rest j (ground arith)))
            | inr c ↦
                let above : j ≡ j - 512 + length b = ground arith in
                let total : length bytes ≡ length b + length rest =
                  rw (← whole) (length-append b rest) in
                let further : s + j / 512 ≡ s + 1 + (j - 512) / 512 = ground arith in
                let low : j % 512 ≡ (j - 512) % 512 = ground arith in
                let tail : byte bytes j ≡ byte rest (j - 512) =
                  rw (← whole) (ap (λ t. byte (b ++ rest) t) above ∙ byte-right b rest (j - 512)) in
                rw low (later rest (j - 512) y (ground arith) (rw further at e) ∙ sym tail)
          ]

  tabled-IsCoherent :
      HasSectors
      → (info : Fat12Info) (count : ℕ) (bytes : List ℕ)
      → read_table ata disk (first_fat_sector info) count 0 ≡ some bytes
      → IsCoherent ata disk (record info { fat_bytes = bytes })
  unfolding first_fat_sector
  tabled-IsCoherent sized info count bytes x j buf lt e =
      let start : j / 512 ≡ 0 + j / 512 = omega arith in
      read_table-byte sized (first_fat_sector info) count 0 bytes buf j x lt (rw start at e)

  mounted :
      HasSectors
      → (start_lba : ℕ) (sector : List ℕ) (info : Fat12Info)
      → check12 ata disk start_lba sector ≡ ok info
      → IsCoherent ata disk info × (root_entries sector ≢ 0)
  mounted sized start_lba sector info h = elim (Bool-cases (is_signed sector)) [
    | inr a ↦ cc (rw a at h)
    | inl a ↦ elim (Bool-cases (bytes_per_sector sector == 512)) [
      | inr b ↦ cc (rw (a, b) at h)
      | inl b ↦ elim (Bool-cases (root_entries sector == 0)) [
        | inl c ↦ cc (rw (a, b, c) at h)
        | inr c ↦ elim (Bool-cases (fat_size_16_of sector == 0)) [
          | inl d ↦ cc (rw (a, b, c, d) at h)
          | inr d ↦ (
            by_case
                (read_table ata disk (first_fat_sector (geometry ata start_lba sector))
                  (fat_size_16_of sector) 0)
                refl (rw (a, b, c, d) at h),
            λ e. ground arith,
          )
        ]
      ]
    ]
  ]
    where
      by_case :
          (o : Option (List ℕ))
          → read_table ata disk
              (first_fat_sector (geometry ata start_lba sector))
              (fat_size_16_of sector)
              0
            ≡ o
          → tabled ata (geometry ata start_lba sector) o ≡ ok info
          → IsCoherent ata disk info
      by_case none x k = cc
      by_case (some bytes) x k =
          rw (← ok_inj k) (
            tabled-IsCoherent sized (geometry ata start_lba sector) (fat_size_16_of sector) bytes x)

  -- On a disk whose sectors have 512 bytes, a partition that is accepted as FAT12 yields a
  -- volume whose cached table agrees with each of its sectors on the disk.
  pub read_bpb12-IsCoherent :
      HasSectors
      → (partition : PartitionEntry) (info : Fat12Info) → read_bpb12 ata disk partition ≡ ok info
      → IsCoherent ata disk info
  unfolding read_bpb12
  read_bpb12-IsCoherent sized partition info h = by_case (read_sector disk partition.start_lba) h
    where
      by_case :
          (o : Option (List ℕ))
          → started ata o (λ sector. check12 ata disk partition.start_lba sector) ≡ ok info
          → IsCoherent ata disk info
      by_case none k = cc
      by_case (some sector) k = (mounted sized partition.start_lba sector info k).0

  -- No partition is accepted both as FAT12 and as FAT32.
  pub read_bpb-exclusive :
      (partition : PartitionEntry) (info : Fat12Info) (info32 : Fat32Info)
      → read_bpb12 ata disk partition ≡ ok info
      → read_bpb32 ata disk partition ≢ ok info32
  unfolding read_bpb12 read_bpb32
  read_bpb-exclusive partition info info32 h k = by_case (read_sector disk partition.start_lba) h k
    where
      by_case :
          (o : Option (List ℕ))
          → started ata o (λ sector. check12 ata disk partition.start_lba sector) ≡ ok info
          → started ata o (λ sector. check32 ata partition.start_lba sector) ≢ ok info32
      by_case none x y = cc
      by_case (some sector) x y = elim (Bool-cases (root_entries sector == 0)) [
        | inl e ↦ ground (arith, e)
        | inr e ↦ ground (arith, e)
      ]
