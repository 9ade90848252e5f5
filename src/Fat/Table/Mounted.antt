-- ===== src/Fat/Table/Mounted.antt =====
-- On a working disk a write to the table succeeds, keeps the cache and the disk alike, and touches no
-- sector outside the table.
use iaos.Prelude.{
  ℕ, zero, suc, ◌+◌, ◌/◌, ◌%◌, ◌≤◌, ◌<◌, ◌≡◌, ◌≢◌, refl, sym, ap, ◌∙◌, ◌⊎◌, inl, inr, false, arith,
  some, List, [], ◌∷◌, length, length-set, byte, set, get_or-set_self, get_or-set_ne, leb, ◌==◌,
  if◌then◌else◌, u32, le16, Bool-cases, IsBytes, Result, ok,
}
use iaos.Fat.Table.{
  Fat12Info, Ata, FatError, first_fat_sector, byte_offset, raw_at, pack, write_inside,
  write_straddling, write_second, write_fat_entry_to_disk,
}
use iaos.Fat.Table.Pack.{with_entry, pack-lt}
use iaos.Fat.Table.Reliable.{IsReliable}

IsBytes-set : (xs : List ℕ) (i v : ℕ) → IsBytes xs → v < 256 → IsBytes (set xs i v)
IsBytes-set [] i v h k = tt
IsBytes-set (x ∷ xs) zero v h k = (k, h.1)
IsBytes-set (x ∷ xs) (suc i) v h k = (h.0, IsBytes-set xs i v h.1 k)

-- A byte of a list of which two neighbouring bytes are written.
byte-set_pair :
    (xs : List ℕ) (i v w j : ℕ)
    → i + 1 < length xs
    → byte (set (set xs i v) (i + 1) w) j
      ≡ (if j == i + 1 then w else if j == i then v else byte xs j)
byte-set_pair xs i v w j h = elim (Bool-cases (j == i + 1)) [
  | inl e ↦
      let k : j ≡ i + 1 = ground arith in
      rw (e, k) (get_or-set_self (set xs i v) (i + 1) w 0 (omega (arith, length-set xs i v)))
  | inr e ↦
      get_or-set_ne (set xs i v) (i + 1) j w 0 (λ x. ground arith) ∙ elim (Bool-cases (j == i)) [
        | inl g ↦
            let k : j ≡ i = ground arith in rw (e, g, k) (get_or-set_self xs i v 0 (omega arith))
        | inr g ↦ rw (e, g) (get_or-set_ne xs i j v 0 (λ x. ground arith))
      ]
]

-- The sectors that a table of some bytes takes.
abbrev pub sectors_for : ℕ → ℕ
sectors_for len = (len + 511) / 512

-- The first sector of the table, where 32 bits do not overflow.
abbrev pub base : Fat12Info → ℕ
base info = info.partition_start_lba + info.reserved_sector_count

module _ (ata : Ata) (capacity : ℕ) (working : IsReliable ata capacity) where
  open ata use {Disk, read_sector, write_sector}
  open working use {content, after, reads, writes, same, other}

  -- The cached table is the one on the disk, which has room for it.
  pub record IsMounted (disk : Disk) (info : Fat12Info) : Type 0 where
    pub sized : (n : ℕ) → n < capacity → length (content disk n) ≡ 512
    pub bytes : IsBytes info.fat_bytes
    pub fits : base info + sectors_for (length info.fat_bytes) ≤ capacity
    pub addressable : capacity ≤ 4294967296
    pub agrees :
        (j : ℕ)
        → j < length info.fat_bytes
        → byte (content disk (base info + j / 512)) (j % 512) ≡ byte info.fat_bytes j

  -- A table write that succeeded.
  pub record Wrote (disk : Disk) (info : Fat12Info) (cluster value : ℕ)
      (r : Result FatError (Disk × Fat12Info)) : Type 0 where
    pub disk' : Disk
    pub returned :
        r ≡ ok (disk', record info { fat_bytes = with_entry info.fat_bytes cluster value })
    pub mounted :
        IsMounted disk' (record info { fat_bytes = with_entry info.fat_bytes cluster value })
    pub elsewhere :
        (n : ℕ)
        → (n < base info) ⊎ (base info + sectors_for (length info.fat_bytes) ≤ n)
        → content disk' n ≡ content disk n

  module _ (disk : Disk) (info : Fat12Info) (cluster value : ℕ) (m : IsMounted disk info)
      (inside : byte_offset cluster + 1 < length info.fat_bytes) where
    abbrev fat : List ℕ
    fat = info.fat_bytes

    abbrev at : ℕ
    at = byte_offset cluster

    abbrev out : ℕ
    out = pack cluster (raw_at fat at) value

    abbrev info' : Fat12Info
    info' = record info { fat_bytes = with_entry fat cluster value }

    abbrev sector0 : ℕ
    sector0 = base info + at / 512

    out-lt : out < 65536
    out-lt = pack-lt fat cluster value m.bytes

    length-fat' : length (with_entry fat cluster value) ≡ length fat
    length-fat' =
        length-set (set fat at (out % 256)) (at + 1) (out / 256) ∙ length-set fat at (out % 256)

    fat'-IsBytes : IsBytes (with_entry fat cluster value)
    fat'-IsBytes =
        IsBytes-set (set fat at (out % 256)) (at + 1) (out / 256)
          (IsBytes-set fat at (out % 256) m.bytes (omega arith)) (omega (arith, out-lt))

    first : first_fat_sector info ≡ base info
    unfolding first_fat_sector
    first = omega (arith, m.fits, m.addressable)

    sector-lt : sector0 < capacity
    sector-lt = omega (arith, m.fits)

    byte' :
        (j : ℕ)
        → byte (with_entry fat cluster value) j
          ≡ (if j == at + 1 then out / 256 else if j == at then out % 256 else byte fat j)
    byte' j = byte-set_pair fat at (out % 256) (out / 256) j inside

    -- The bytes on the disk are those of the cache.
    old0 : byte (content disk sector0) (at % 512) ≡ byte fat at
    old0 = m.agrees at (omega arith)

    same_test : (a b c d : ℕ) → (a ≡ b → c ≡ d) → (c ≡ d → a ≡ b) → (a == b) ≡ (c == d)
    same_test a b c d f g = elim (Bool-cases (c == d)) [
      | inl e ↦ let k : a ≡ b = g (ground arith) in ground arith
      | inr e ↦ elim (Bool-cases (a == b)) [
        | inl x ↦ let k : c ≡ d = f (ground arith) in absurd (ground arith)
        | inr x ↦ rw (e, x) refl
      ]
    ]

    -- The sector with the new pair.
    abbrev new : List ℕ
    new = set (set (content disk sector0) (at % 512) (out % 256)) (at % 512 + 1) (out / 256)

    agrees-inside :
        (j : ℕ)
        → j < length fat
        → at % 512 ≢ 511
        → byte (content (after disk sector0 new) (base info + j / 512)) (j % 512)
          ≡ byte (with_entry fat cluster value) j
    agrees-inside j lt n =
        let next : (at + 1) / 512 ≡ at / 512 = ground arith in
        elim (Bool-cases (j / 512 == at / 512)) [
          | inl e ↦
              let q : j / 512 ≡ at / 512 = ground arith in
              let here : base info + j / 512 ≡ sector0 = omega arith in
              let t1 : (j % 512 == at % 512 + 1) ≡ (j == at + 1) =
                same_test (j % 512) (at % 512 + 1) j (at + 1) (λ x. omega arith)
                  (λ x. omega arith) in
              let t0 : (j % 512 == at % 512) ≡ (j == at) =
                same_test (j % 512) (at % 512) j at (λ x. omega arith) (λ x. omega arith) in
              let old : byte (content disk sector0) (j % 512) ≡ byte fat j =
                rw here at (m.agrees j lt) in
              rw (here, same disk sector0 new)
                (byte-set_pair (content disk sector0) (at % 512) (out % 256) (out / 256) (j % 512)
                    (ground (arith, m.sized sector0 sector-lt))
                  ∙ rw (t1, t0, old) refl
                  ∙ sym (byte' j))
          | inr e ↦
              let t1 : (j == at + 1) ≡ false = ground arith in
              let t0 : (j == at) ≡ false = ground arith in
              rw (other disk sector0 new (base info + j / 512) (λ x. ground arith))
                (m.agrees j lt ∙ sym (byte' j ∙ rw (t1, t0) refl))
        ]

    -- One sector is written.
    inside-Wrote :
        at % 512 ≢ 511 → Wrote disk info cluster value (write_inside ata disk info cluster value)
    unfolding write_inside
    inside-Wrote n =
        let here : u32 (first_fat_sector info + at / 512) ≡ sector0 =
          rw first (omega (arith, m.fits, m.addressable)) in
        let next : (at + 1) % 512 ≡ at % 512 + 1 = ground arith in
        let quot : (at + 1) / 512 ≡ at / 512 = ground arith in
        let old1 : byte (content disk sector0) (at % 512 + 1) ≡ byte fat (at + 1) =
          rw (← next, ← quot) (m.agrees (at + 1) inside) in
        let size : length new ≡ 512 =
          length-set (set (content disk sector0) (at % 512) (out % 256)) (at % 512 + 1) (out / 256)
          ∙ length-set (content disk sector0) (at % 512) (out % 256)
          ∙ m.sized sector0 sector-lt in
        record {
          disk' = after disk sector0 new;
          returned =
              rw
                (
                  here,
                  reads disk sector0 sector-lt,
                  old0,
                  old1,
                  writes disk sector0 new sector-lt size,
                )
                refl;
          mounted = record {
            sized = λ k lt. elim (Bool-cases (k == sector0)) [
              | inl e ↦ let g : k ≡ sector0 = ground arith in rw (g, same disk sector0 new) size
              | inr e ↦ rw (other disk sector0 new k (λ x. ground arith)) (m.sized k lt)
            ];
            bytes = fat'-IsBytes;
            fits = rw length-fat' m.fits;
            addressable = m.addressable;
            agrees = λ j lt. agrees-inside j (rw length-fat' at lt) n;
          };
          elsewhere = λ k out_of. other disk sector0 new k (λ x. ground arith);
        }

    -- The two sectors with the new pair.
    abbrev new0 : List ℕ
    new0 = set (content disk sector0) (at % 512) (out % 256)

    abbrev new1 : List ℕ
    new1 = set (content disk (sector0 + 1)) 0 (out / 256)

    abbrev disk2 : Disk
    disk2 = after (after disk sector0 new0) (sector0 + 1) new1

    content-other : (k : ℕ) → k ≢ sector0 → k ≢ sector0 + 1 → content disk2 k ≡ content disk k
    content-other k h g =
        other (after disk sector0 new0) (sector0 + 1) new1 k g ∙ other disk sector0 new0 k h

    content-first : content disk2 sector0 ≡ new0
    content-first =
        other (after disk sector0 new0) (sector0 + 1) new1 sector0 (λ x. omega arith)
        ∙ same disk sector0 new0

    agrees-straddling :
        (j : ℕ)
        → j < length fat
        → at % 512 ≡ 511
        → byte (content disk2 (base info + j / 512)) (j % 512)
          ≡ byte (with_entry fat cluster value) j
    agrees-straddling j lt n = elim (Bool-cases (j / 512 == at / 512)) [
      | inl e ↦
          let here : base info + j / 512 ≡ sector0 = ground arith in
          let t1 : (j == at + 1) ≡ false = ground arith in
          let old : byte (content disk sector0) (j % 512) ≡ byte fat j =
            rw here at (m.agrees j lt) in
          rw (here, content-first)
            (elim (Bool-cases (j == at)) [
              | inl g ↦
                  let k : j % 512 ≡ at % 512 = ground arith in
                  let w : byte new0 (j % 512) ≡ out % 256 = rw k (
                    get_or-set_self (content disk sector0) (at % 512) (out % 256) 0
                      (omega (arith, m.sized sector0 sector-lt))) in
                  w ∙ sym (byte' j ∙ rw (t1, g) refl)
              | inr g ↦
                  get_or-set_ne (content disk sector0) (at % 512) (j % 512) (out % 256) 0
                    (λ x. ground arith)
                  ∙ old
                  ∙ sym (byte' j ∙ rw (t1, g) refl)
            ])
      | inr e ↦
          let t0 : (j == at) ≡ false = ground arith in
          elim (Bool-cases (j / 512 == at / 512 + 1)) [
            | inl f ↦
                let here : base info + j / 512 ≡ sector0 + 1 = ground arith in
                let old : byte (content disk (sector0 + 1)) (j % 512) ≡ byte fat j =
                  rw here at (m.agrees j lt) in
                rw (here, same (after disk sector0 new0) (sector0 + 1) new1)
                  (elim (Bool-cases (j == at + 1)) [
                    | inl g ↦
                        let k : j % 512 ≡ 0 = ground arith in
                        let w : byte new1 (j % 512) ≡ out / 256 = rw k (
                          get_or-set_self (content disk (sector0 + 1)) 0 (out / 256) 0
                            (omega (arith, m.sized (sector0 + 1) (ground (arith, m.fits))))) in
                        w ∙ sym (byte' j ∙ rw g refl)
                    | inr g ↦
                        get_or-set_ne (content disk (sector0 + 1)) 0 (j % 512) (out / 256) 0
                          (λ x. ground arith)
                        ∙ old
                        ∙ sym (byte' j ∙ rw (g, t0) refl)
                  ])
            | inr f ↦
                let t1 : (j == at + 1) ≡ false = ground arith in
                rw (content-other (base info + j / 512) (λ x. ground arith) (λ x. ground arith))
                  (m.agrees j lt ∙ sym (byte' j ∙ rw (t1, t0) refl))
          ]
    ]

    -- Two sectors are written.
    straddling-Wrote :
        at % 512 ≡ 511
        → Wrote disk info cluster value (write_straddling ata disk info cluster value)
    unfolding write_straddling
    straddling-Wrote n =
        let here : u32 (first_fat_sector info + at / 512) ≡ sector0 =
          rw first (omega (arith, m.fits, m.addressable)) in
        let next-lt : sector0 + 1 < capacity = omega (arith, m.fits) in
        let there : u32 (sector0 + 1) ≡ sector0 + 1 = omega (arith, m.addressable) in
        let rest : (at + 1) % 512 ≡ 0 = omega arith in
        let quot : base info + (at + 1) / 512 ≡ sector0 + 1 = omega arith in
        let old1 : byte (content disk (sector0 + 1)) 0 ≡ byte fat (at + 1) =
          rw (rest, quot) at (m.agrees (at + 1) inside) in
        let size0 : length new0 ≡ 512 =
          length-set (content disk sector0) (at % 512) (out % 256) ∙ m.sized sector0 sector-lt in
        let size1 : length new1 ≡ 512 =
          length-set (content disk (sector0 + 1)) 0 (out / 256) ∙ m.sized (sector0 + 1) next-lt in
        let first_write : write_sector disk sector0 (
              set (content disk sector0) (at % 512) (
                pack cluster
                  (le16 (byte (content disk sector0) (at % 512))
                    (byte (content disk (sector0 + 1)) 0))
                  value
                % 256))
            ≡ some (after disk sector0 new0) =
          rw (old0, old1) (writes disk sector0 new0 sector-lt size0) in
        let second_write : write_second ata info cluster value (content disk sector0)
              (content disk (sector0 + 1)) (some (after disk sector0 new0))
            ≡ ok (disk2, info') =
          rw
            (
              here,
              there,
              old0,
              old1,
              writes (after disk sector0 new0) (sector0 + 1) new1 next-lt size1,
            )
            refl in
        record {
          disk' = disk2;
          returned =
              rw (here, there, reads disk sector0 sector-lt, reads disk (sector0 + 1) next-lt)
                (ap
                    (write_second ata info cluster value (content disk sector0)
                      (content disk (sector0 + 1)))
                    first_write
                  ∙ second_write);
          mounted = record {
            sized = λ k lt. elim (Bool-cases (k == sector0 + 1)) [
              | inl e ↦
                  let g : k ≡ sector0 + 1 = ground arith in
                  rw (g, same (after disk sector0 new0) (sector0 + 1) new1) size1
              | inr e ↦ elim (Bool-cases (k == sector0)) [
                | inl f ↦ let g : k ≡ sector0 = ground arith in rw (g, content-first) size0
                | inr f ↦
                    rw (content-other k (λ x. ground arith) (λ x. ground arith)) (m.sized k lt)
              ]
            ];
            bytes = fat'-IsBytes;
            fits = rw length-fat' m.fits;
            addressable = m.addressable;
            agrees = λ j lt. agrees-straddling j (rw length-fat' at lt) n;
          };
          elsewhere = λ k out_of. content-other k (λ x. ground arith) (λ x. ground arith);
        }

  -- On a disk that does not fail, whose table is the cached one, the write of an entry inside
  -- the table succeeds, replaces the two bytes of the entry in the cache, leaves the cache
  -- and the disk alike, and changes no sector outside the table.
  pub write_fat_entry_to_disk-Wrote :
      (disk : Disk) (info : Fat12Info) (cluster value : ℕ)
      → IsMounted disk info
      → byte_offset cluster + 1 < length info.fat_bytes
      → Wrote disk info cluster value (write_fat_entry_to_disk ata disk info cluster value)
  unfolding write_fat_entry_to_disk
  write_fat_entry_to_disk-Wrote disk info cluster value m inside =
      let in_range : leb (length info.fat_bytes) (byte_offset cluster + 1) ≡ false = ground arith in
      elim (Bool-cases (byte_offset cluster % 512 == 511)) [
        | inl e ↦
            rw (in_range, e) (straddling-Wrote disk info cluster value m inside (ground arith))
        | inr e ↦
            rw (in_range, e) (inside-Wrote disk info cluster value m inside (λ x. ground arith))
      ]
