-- ===== src/Fat/Table/Write.antt =====
-- A write to the table, through the disk, changes one entry of the cached table.
use iaos.Prelude.{
  ℕ, ◌+◌, ◌/◌, ◌%◌, ◌<◌, ◌≡◌, ◌≢◌, refl, sym, ap, inl, inr, arith, Option, none, some, List, length,
  byte, set, leb, ◌==◌, u32, le16, Bool-cases, IsBytes, ok, ok_inj,
}
use iaos.Fat.Table.{
  Fat12Info, Ata, first_fat_sector, byte_offset, entry_at, pack, write_inside, write_straddling,
  stored, write_second, write_fat_entry_to_disk,
}
use iaos.Fat.Table.Pack.{with_entry, entry_at-written, entry_at-other}

module _ (ata : Ata) where
  open ata use {Disk, read_sector, write_sector}

  -- The sector of the disk that holds a byte of the table.
  abbrev pub sector_of : Fat12Info → ℕ → ℕ
  sector_of info j = u32 (first_fat_sector info + j / 512)

  -- The cached table is the one on disk, in the sectors that can be read.
  abbrev pub IsCoherent : Disk → Fat12Info → Type 0
  IsCoherent disk info =
      (j : ℕ) (buf : List ℕ)
      → j < length info.fat_bytes
      → read_sector disk (sector_of info j) ≡ some buf
      → byte buf (j % 512) ≡ byte info.fat_bytes j

  -- A write that succeeded: the cache holds the value, and every other entry as before.
  pub record Updated (info : Fat12Info) (cluster value : ℕ) (info' : Fat12Info) : Type 0 where
    pub written : entry_at info'.fat_bytes cluster ≡ value % 4096
    pub others :
        (other : ℕ)
        → other ≢ cluster
        → other < 1431655765
        → entry_at info'.fat_bytes other ≡ entry_at info.fat_bytes other

  module _ (disk : Disk) (info : Fat12Info) (cluster value : ℕ) (disk' : Disk) (info' : Fat12Info)
      (coherent : IsCoherent disk info)
      (inside : byte_offset cluster + 1 < length info.fat_bytes) where
    abbrev at : ℕ
    at = byte_offset cluster

    -- The last step of a write.
    finish :
        (b0 b1 : ℕ) (o : Option Disk)
        → b0 ≡ byte info.fat_bytes at
        → b1 ≡ byte info.fat_bytes (at + 1)
        → stored ata info cluster value b0 b1 o ≡ ok (disk', info')
        → info'.fat_bytes ≡ with_entry info.fat_bytes cluster value
    finish b0 b1 none x y h = cc
    finish b0 b1 (some d) x y h =
        rw (x, y) at (sym (ap (λ (t : Disk × Fat12Info). t.1.fat_bytes) (ok_inj h)))

    -- The new pair of bytes, of what was read.
    abbrev out_of : List ℕ → List ℕ → ℕ → ℕ
    out_of buf buf1 j = pack cluster (le16 (byte buf (at % 512)) (byte buf1 j)) value

    inside-cache :
        (o : Option (List ℕ))
        → read_sector disk (sector_of info at) ≡ o
        → at % 512 ≢ 511
        → write_inside ata disk info cluster value ≡ ok (disk', info')
        → info'.fat_bytes ≡ with_entry info.fat_bytes cluster value
    unfolding write_inside
    inside-cache none e n h = cc (rw e at h)
    inside-cache (some buf) e n h =
        let same_sector : sector_of info (at + 1) ≡ sector_of info at =
          ap (λ t. u32 (first_fat_sector info + t))
            (let q : (at + 1) / 512 ≡ at / 512 = omega arith in q) in
        let next : (at + 1) % 512 ≡ at % 512 + 1 = omega arith in
        let first = coherent at buf (omega arith) e in
        let second = rw next at (coherent (at + 1) buf inside (rw same_sector e)) in
        finish (byte buf (at % 512)) (byte buf (at % 512 + 1))
          (write_sector disk (sector_of info at) (
            set (set buf (at % 512) (out_of buf buf (at % 512 + 1) % 256)) (at % 512 + 1)
              (out_of buf buf (at % 512 + 1) / 256)))
          first second (rw e at h)

    straddling-cache :
        (o p : Option (List ℕ))
        → read_sector disk (sector_of info at) ≡ o
        → read_sector disk (u32 (sector_of info at + 1)) ≡ p
        → at % 512 ≡ 511
        → write_straddling ata disk info cluster value ≡ ok (disk', info')
        → info'.fat_bytes ≡ with_entry info.fat_bytes cluster value
    unfolding write_straddling
    straddling-cache none p e f n h = cc (rw e at h)
    straddling-cache (some buf) none e f n h = cc (rw (e, f) at h)
    straddling-cache (some buf) (some buf1) e f n h =
        let next_sector : sector_of info (at + 1) ≡ u32 (sector_of info at + 1) =
          (let q : (at + 1) / 512 ≡ at / 512 + 1 = omega arith in rw q (omega arith)) in
        let next : (at + 1) % 512 ≡ 0 = omega arith in
        let first = coherent at buf (omega arith) e in
        let second = rw next at (coherent (at + 1) buf1 inside (rw next_sector f)) in
        both (write_sector disk (sector_of info at) (set buf (at % 512) (out_of buf buf1 0 % 256)))
          refl (rw (e, f) at h) first second
      where
        both :
            (w : Option Disk)
            → write_sector disk (sector_of info at) (set buf (at % 512) (out_of buf buf1 0 % 256))
              ≡ w
            → write_second ata info cluster value buf buf1 w ≡ ok (disk', info')
            → byte buf (at % 512) ≡ byte info.fat_bytes at
            → byte buf1 0 ≡ byte info.fat_bytes (at + 1)
            → info'.fat_bytes ≡ with_entry info.fat_bytes cluster value
        both none x k first second = cc
        both (some d) x k first second =
            finish (byte buf (at % 512)) (byte buf1 0)
              (write_sector d (u32 (sector_of info at + 1)) (set buf1 0 (out_of buf buf1 0 / 256)))
              first second k

  -- While the cached table, of bytes, agrees with each of its sectors on the disk that can be
  -- read, a successful write of the entry of a cluster below 2 ^ 32 / 3 changes that entry to
  -- the low 12 bits of the value and no other, whether the pair of bytes lies in one sector
  -- or in two.
  pub write_fat_entry_to_disk-Updated :
      (disk : Disk) (info : Fat12Info) (cluster value : ℕ) (disk' : Disk) (info' : Fat12Info)
      → IsCoherent disk info
      → IsBytes info.fat_bytes
      → cluster < 1431655765
      → write_fat_entry_to_disk ata disk info cluster value ≡ ok (disk', info')
      → Updated info cluster value info'
  unfolding write_fat_entry_to_disk
  write_fat_entry_to_disk-Updated disk info cluster value disk' info' coherent bytes small h =
      elim (Bool-cases (leb (length info.fat_bytes) (byte_offset cluster + 1))) [
        | inl a ↦ cc (rw (a, write_fat_entry_to_disk) at h)
        | inr a ↦ elim (Bool-cases (byte_offset cluster % 512 == 511)) [
          | inl b ↦ updated (ground arith) (
              straddling-cache disk info cluster value disk' info' coherent (ground arith)
                (read_sector disk (sector_of info (byte_offset cluster)))
                (read_sector disk (u32 (sector_of info (byte_offset cluster) + 1))) refl refl
                (ground arith) (rw (a, b, write_fat_entry_to_disk) at h))
          | inr b ↦ updated (ground arith) (
              inside-cache disk info cluster value disk' info' coherent (ground arith)
                (read_sector disk (sector_of info (byte_offset cluster))) refl (λ e. ground arith)
                (rw (a, b, write_fat_entry_to_disk) at h))
        ]
      ]
    where
      updated :
          byte_offset cluster + 1 < length info.fat_bytes
          → info'.fat_bytes ≡ with_entry info.fat_bytes cluster value
          → Updated info cluster value info'
      updated inside e = record {
        written = rw e (entry_at-written info.fat_bytes cluster value bytes inside small);
        others = λ other n k.
            rw e (entry_at-other info.fat_bytes cluster value bytes inside small other n k);
      }
