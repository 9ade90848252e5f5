-- ===== src/Fat/Chain/Laid.antt =====
-- What laying data across clusters leaves on a working disk.
use iaos.Prelude.{
  ℕ, zero, suc, ◌+◌, ◌-◌, ◌*◌, ◌%◌, ◌≤◌, ◌<◌, ◌≡◌, ◌≢◌, refl, ap, ◌∙◌, ◌⊎◌, inl, inr, arith, List,
  [], ◌∷◌, length, ◌==◌, u32, Bool-cases, All, Result, ok,
}
use iaos.Fat.Table.{Fat12Info, Ata, FatError, first_data_sector, byte_offset, entry_at}
use iaos.Fat.Table.Reliable.{IsReliable}
use iaos.Fat.Table.Mounted.{base, sectors_for, IsMounted}
use iaos.Fat.Chain.{filled, sector_of, behind_sector, link_of, write_cluster}

pub length-filled : (n : ℕ) (bs : List ℕ) → length (filled n bs) ≡ n
length-filled zero bs = refl
length-filled (suc n) [] = ap suc (length-filled n [])
length-filled (suc n) (b ∷ bs) = ap suc (length-filled n bs)

length-sector_of : (rest : List ℕ) → length (sector_of rest) ≡ 512
unfolding sector_of
length-sector_of rest = length-filled 512 rest

-- What is left of the data after some sectors.
abbrev pub rest_after : ℕ → List ℕ → List ℕ
rest_after zero rest = rest
rest_after (suc n) rest = rest_after n (behind_sector rest)

-- Two products with one factor in common.
pub rows_apart : (a b k : ℕ) → a < b → a * k + k ≤ b * k
rows_apart a b k h = grind arith

abbrev pub NotIn : ℕ → List ℕ → Type 0
NotIn c cs = All (λ x. c ≢ x) cs

abbrev pub AreDistinct : List ℕ → Type 0
AreDistinct [] = Unit
AreDistinct (c ∷ cs) = NotIn c cs × AreDistinct cs

module _ (geo : Fat12Info) where
  -- The volume with a table.
  abbrev pub with_fat : List ℕ → Fat12Info
  with_fat fat = record geo { fat_bytes = fat }

  -- Where the sectors of a cluster start.
  abbrev pub start : ℕ → ℕ
  start c = first_data_sector geo + (c - 2) * geo.sectors_per_cluster

  -- The first sector behind the table.
  abbrev pub table_end : ℕ → ℕ
  table_end len = base geo + sectors_for len

  -- A sector that belongs to none of the clusters.
  abbrev pub Apart : ℕ → List ℕ → Type 0
  Apart n cs = All (λ c. (n < start c) ⊎ (start c + geo.sectors_per_cluster ≤ n)) cs

module _ (ata : Ata) (capacity : ℕ) (working : IsReliable ata capacity) (geo : Fat12Info)
    (len : ℕ) where
  open ata use {Disk, write_sector}
  open working use {content, after, writes, same, other}

  -- The mounted volume, whose table has a fixed length.
  pub record IsReady (disk : Disk) (fat : List ℕ) : Type 0 where
    pub mounted : IsMounted ata capacity working disk (with_fat geo fat)
    pub size : length fat ≡ len

  -- A cluster of the volume: its entry is in the table and its sectors are on the disk.
  pub record InVolume (c : ℕ) : Type 0 where
    pub from_2 : 2 ≤ c
    pub below : c < 4088
    pub wide : geo.sectors_per_cluster ≢ 0
    pub entry : byte_offset c + 1 < len
    pub behind : table_end geo len ≤ first_data_sector geo
    pub sectors : start geo c + geo.sectors_per_cluster ≤ capacity
    pub addressable : capacity ≤ 4294967296

  -- `n` sectors from `lba` on hold the data.
  abbrev pub Stored : Disk → ℕ → ℕ → List ℕ → Type 0
  Stored disk lba zero rest = Unit
  Stored disk lba (suc n) rest =
      (content disk lba ≡ sector_of rest) × Stored disk (lba + 1) n (behind_sector rest)

  -- The clusters hold the data one after the other, and each is linked to the next.
  abbrev pub Chained : Disk → List ℕ → List ℕ → List ℕ → Type 0
  Chained disk fat [] rest = Unit
  Chained disk fat (c ∷ cs) rest =
      Stored disk (start geo c) geo.sectors_per_cluster rest
      × (entry_at fat c ≡ link_of cs % 4096)
      × Chained disk fat cs (rest_after geo.sectors_per_cluster rest)

  pub Stored-kept :
      (disk disk' : Disk) (lba n : ℕ) (rest : List ℕ)
      → ((k : ℕ) → lba ≤ k → k < lba + n → content disk' k ≡ content disk k)
      → Stored disk lba n rest
      → Stored disk' lba n rest
  Stored-kept disk disk' lba zero rest f h = tt
  Stored-kept disk disk' lba (suc n) rest f h = (
    f lba (omega arith) (omega arith) ∙ h.0,
    Stored-kept disk disk' (lba + 1) n (behind_sector rest)
        (λ k a b. f k (omega arith) (omega arith)) h.1,
  )

  -- The write of a cluster's sectors.
  pub record Filled (disk : Disk) (lba n : ℕ) (rest : List ℕ) (r : Result FatError (Disk × List ℕ))
      : Type 0 where
    pub disk' : Disk
    pub returned : r ≡ ok (disk', rest_after n rest)
    pub stored : Stored disk' lba n rest
    pub elsewhere : (k : ℕ) → (k < lba) ⊎ (lba + n ≤ k) → content disk' k ≡ content disk k
    pub sized :
        ((k : ℕ) → k < capacity → length (content disk k) ≡ 512)
        → (k : ℕ) → k < capacity
        → length (content disk' k) ≡ 512

  -- One more sector in front.
  Filled-suc :
      (disk : Disk) (lba n : ℕ) (rest : List ℕ)
      → lba < capacity
      → capacity ≤ 4294967296
      → Filled
          (after disk lba (sector_of rest))
          (lba + 1)
          n
          (behind_sector rest)
          (write_cluster ata (after disk lba (sector_of rest)) (lba + 1) n (behind_sector rest))
      → Filled disk lba (suc n) rest (write_cluster ata disk lba (suc n) rest)
  unfolding write_cluster
  Filled-suc disk lba n rest h k next =
      let here : u32 lba ≡ lba = omega arith in
      let size = length-sector_of rest in
      record {
        disk' = next.disk';
        returned = rw (here, writes disk lba (sector_of rest) h size) next.returned;
        stored =
            (next.elsewhere lba (inl (omega arith)) ∙ same disk lba (sector_of rest), next.stored);
        elsewhere = λ j x.
            next.elsewhere j (ground arith) ∙ other disk lba (sector_of rest) j (λ e. ground arith);
        sized = λ f. next.sized λ j lt. elim (Bool-cases (j == lba)) [
          | inl e ↦ let q : j ≡ lba = ground arith in rw (q, same disk lba (sector_of rest)) size
          | inr e ↦ rw (other disk lba (sector_of rest) j (λ x. ground arith)) (f j lt)
        ];
      }

  pub write_cluster-Filled :
      (disk : Disk) (lba n : ℕ) (rest : List ℕ)
      → lba + n ≤ capacity
      → capacity ≤ 4294967296
      → Filled disk lba n rest (write_cluster ata disk lba n rest)
  unfolding write_cluster
  write_cluster-Filled disk lba zero rest h k = record {
    disk' = disk;
    returned = refl;
    stored = tt;
    elsewhere = λ k x. refl;
    sized = λ f. f;
  }
  write_cluster-Filled disk lba (suc n) rest h k = Filled-suc disk lba n rest (omega arith) k (
      write_cluster-Filled (after disk lba (sector_of rest)) (lba + 1) n (behind_sector rest)
        (omega arith) k)
