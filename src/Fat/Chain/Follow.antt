-- ===== src/Fat/Chain/Follow.antt =====
-- A chain of the table is followed from its first cluster, and freed.
use iaos.Prelude.{
  ℕ, zero, suc, ◌+◌, ◌%◌, ◌≤◌, ◌<◌, ◌≡◌, refl, sym, ◌∙◌, ◌⊎◌, false, arith, Option, none, some,
  List, [], ◌∷◌, length, leb, ◌==◌, All, IsBytes, Result, ok,
}
use iaos.Fat.Table.{
  Fat12Info, Ata, FatError, byte_offset, entry_at, next_cluster, write_fat_entry_to_disk,
}
use iaos.Fat.Table.Pack.{with_entry, entry_at-written, entry_at-other}
use iaos.Fat.Table.Reliable.{IsReliable}
use iaos.Fat.Table.Mounted.{base, sectors_for, IsMounted, Wrote, write_fat_entry_to_disk-Wrote}
use iaos.Fat.Chain.{link_of, follow, free_chain}
use iaos.Fat.Chain.Laid.{with_fat, NotIn, AreDistinct}
use iaos.Fat.Chain.Written.{length-with_entry}

-- The table links the clusters, and the last one ends the chain.
abbrev pub Linked : List ℕ → List ℕ → Type 0
Linked fat [] = Unit
Linked fat (c ∷ cs) = (entry_at fat c ≡ link_of cs % 4096) × Linked fat cs

-- Clusters whose entries are inside the table, and below those that a table uses as marks.
abbrev pub AreData : List ℕ → List ℕ → Type 0
AreData fat cs = All (λ c. (2 ≤ c) × (c < 4088) × (byte_offset c + 1 < length fat)) cs

abbrev pub head : List ℕ → Option ℕ
head [] = none
head (c ∷ cs) = some c

-- The link of a chain's first cluster.
next_cluster-Linked :
    (info : Fat12Info) (c : ℕ) (cs : List ℕ)
    → AreData info.fat_bytes (c ∷ cs)
    → Linked info.fat_bytes (c ∷ cs)
    → next_cluster info c ≡ ok (head cs)
unfolding next_cluster
next_cluster-Linked info c [] d linked =
    let inside = d.0.2 in
    let t : leb (length info.fat_bytes) (byte_offset c + 1) ≡ false = ground arith in
    rw (t, linked.0) refl
next_cluster-Linked info c (x ∷ xs) d linked =
    let inside = d.0.2 in
    let from_2 = d.1.0.0 in
    let below = d.1.0.1 in
    let t : leb (length info.fat_bytes) (byte_offset c + 1) ≡ false = ground arith in
    let e : entry_at info.fat_bytes c ≡ x = linked.0 ∙ omega (arith, below) in
    let n : (x == 0) ≡ false = ground arith in
    let l : leb 4088 x ≡ false = ground arith in rw (t, e, n, l) refl

-- The walk of a chain that the table links, of clusters from 2 to 4087 inside the table, ends
-- at its last cluster and returns the clusters in order, with as much fuel as there are
-- clusters.
pub follow-Linked :
    (fuel : ℕ) (info : Fat12Info) (cs : List ℕ)
    → AreData info.fat_bytes cs
    → Linked info.fat_bytes cs
    → length cs ≤ fuel
    → follow fuel info (head cs) ≡ ok cs
unfolding follow
follow-Linked zero info [] d linked enough = refl
follow-Linked (suc fuel) info [] d linked enough = refl
follow-Linked zero info (c ∷ cs) d linked enough = absurd (omega arith)
follow-Linked (suc fuel) info (c ∷ cs) d linked enough =
    rw
      (
        next_cluster-Linked info c cs d linked,
        follow-Linked fuel info cs d.1 linked.1 (omega (arith, enough)),
      )
      refl

-- An entry that is written outside a chain leaves the chain.
Linked-kept :
    (fat fat' cs : List ℕ)
    → All (λ x. entry_at fat' x ≡ entry_at fat x) cs
    → Linked fat cs
    → Linked fat' cs
Linked-kept fat fat' [] same linked = tt
Linked-kept fat fat' (c ∷ cs) same linked =
    (same.0 ∙ linked.0, Linked-kept fat fat' cs same.1 linked.1)

module _ (ata : Ata) (capacity : ℕ) (working : IsReliable ata capacity) where
  open ata use {Disk}
  open working use {content}

  -- What freeing a chain leaves.
  pub record Freed (disk : Disk) (info : Fat12Info) (cs : List ℕ)
      (r : Result FatError (Disk × Fat12Info)) : Type 0 where
    pub disk' : Disk
    pub fat' : List ℕ
    pub returned : r ≡ ok (disk', with_fat info fat')
    pub mounted : IsMounted ata capacity working disk' (with_fat info fat')
    pub free : All (λ c. entry_at fat' c ≡ 0) cs
    pub entries :
        (x : ℕ) → NotIn x cs → x < 1431655765 → entry_at fat' x ≡ entry_at info.fat_bytes x
    pub elsewhere :
        (n : ℕ)
        → (n < base info) ⊎ (base info + sectors_for (length info.fat_bytes) ≤ n)
        → content disk' n ≡ content disk n

  other_entries :
      (fat : List ℕ) (c : ℕ) (xs : List ℕ)
      → IsBytes fat
      → byte_offset c + 1 < length fat
      → c < 4088
      → NotIn c xs
      → AreData fat xs
      → All (λ x. entry_at (with_entry fat c 0) x ≡ entry_at fat x) xs
  other_entries fat c [] bytes inside low n d = tt
  other_entries fat c (x ∷ xs) bytes inside low n d =
      let small = d.0.1 in
      (
        entry_at-other fat c 0 bytes inside (omega (arith, low)) x (λ e. n.0 (sym e))
            (omega (arith, small)),
        other_entries fat c xs bytes inside low n.1 d.1,
      )

  AreData-kept :
      (fat fat' cs : List ℕ) → length fat' ≡ length fat → AreData fat cs → AreData fat' cs
  AreData-kept fat fat' [] size d = tt
  AreData-kept fat fat' (c ∷ cs) size d =
      ((d.0.0, d.0.1, rw size d.0.2), AreData-kept fat fat' cs size d.1)

  -- One more cluster in front.
  Freed-cons :
      (fuel : ℕ) (disk : Disk) (info : Fat12Info) (c : ℕ) (cs : List ℕ)
      → IsMounted ata capacity working disk info
      → AreData info.fat_bytes (c ∷ cs)
      → Linked info.fat_bytes (c ∷ cs)
      → NotIn c cs
      → (freed : Wrote ata capacity working disk info c 0
          (write_fat_entry_to_disk ata disk info c 0))
      → Freed freed.disk' (with_fat info (with_entry info.fat_bytes c 0)) cs (
          free_chain ata fuel freed.disk' (with_fat info (with_entry info.fat_bytes c 0)) (head cs))
      → Freed disk info (c ∷ cs) (free_chain ata (suc fuel) disk info (some c))
  unfolding free_chain
  Freed-cons fuel disk info c cs m d linked n freed next =
      let low = d.0.1 in
      let size = length-with_entry info.fat_bytes c 0 in
      record {
        disk' = next.disk';
        fat' = next.fat';
        returned = rw (next_cluster-Linked info c cs d linked, freed.returned) next.returned;
        mounted = next.mounted;
        free = (
          next.entries c n (omega (arith, low))
              ∙ entry_at-written info.fat_bytes c 0 m.bytes d.0.2 (omega (arith, low)),
          next.free,
        );
        entries = λ x ne lt.
            next.entries x ne.1 lt
            ∙ entry_at-other info.fat_bytes c 0 m.bytes d.0.2 (omega (arith, low)) x ne.0 lt;
        elsewhere = λ k out_of. next.elsewhere k (rw size out_of) ∙ freed.elsewhere k out_of;
      }

  -- On a disk that does not fail, with the cached table the one on it, a chain of distinct
  -- clusters is freed with as much fuel as it has clusters: each of its entries is 0, the
  -- entries of other clusters below 2 ^ 32 / 3 and the sectors outside the table are as
  -- before, and the cache and the disk stay alike.
  pub free_chain-Freed :
      (fuel : ℕ) (disk : Disk) (info : Fat12Info) (cs : List ℕ)
      → IsMounted ata capacity working disk info
      → AreData info.fat_bytes cs
      → Linked info.fat_bytes cs
      → AreDistinct cs
      → length cs ≤ fuel
      → Freed disk info cs (free_chain ata fuel disk info (head cs))
  unfolding free_chain
  free_chain-Freed fuel disk info [] m d linked distinct enough = record {
    disk' = disk;
    fat' = info.fat_bytes;
    returned = refl;
    mounted = m;
    free = tt;
    entries = λ x n k. refl;
    elsewhere = λ k a. refl;
  }
  free_chain-Freed zero disk info (c ∷ cs) m d linked distinct enough = absurd (omega arith)
  free_chain-Freed (suc fuel) disk info (c ∷ cs) m d linked distinct enough =
      let freed = write_fat_entry_to_disk-Wrote ata capacity working disk info c 0 m d.0.2 in
      let fat = info.fat_bytes in
      let fat' = with_entry fat c 0 in
      Freed-cons fuel disk info c cs m d linked distinct.0 freed (
        free_chain-Freed fuel freed.disk' (with_fat info fat') cs freed.mounted
          (AreData-kept fat fat' cs (length-with_entry fat c 0) d.1)
          (Linked-kept fat fat' cs (other_entries fat c cs m.bytes d.0.2 d.0.1 distinct.0 d.1)
            linked.1)
          distinct.1 (omega (arith, enough)))
