-- ===== src/Fat/Files/Resized.antt =====
-- The clusters of a file that is given new contents: as many as these need, distinct and in the volume.
use iaos.Prelude.{
  ℕ, suc, ◌+◌, ◌-◌, ◌*◌, ◌/◌, ◌≤◌, ◌<◌, ◌≡◌, ◌≢◌, refl, ◌∙◌, inl, inr, true, false, ltb, ltb→lt,
  lt→ltb, le→ltb_false, Bool-cases, arith, List, [], ◌∷◌, ◌++◌, length, length-append, length-take,
  take, drop, All, u32, Result, ok, err,
}
use iaos.Fat.Table.{
  Fat12Info, Ata, FatError, not_enough_free, byte_offset, entry_at, free_from, find_free_clusters,
}
use iaos.Fat.Table.Reliable.{IsReliable}
use iaos.Fat.Table.Mounted.{write_fat_entry_to_disk-Wrote}
use iaos.Fat.Table.Pack.{with_entry}
use iaos.Fat.Table.Free.{
  AreFree, find_free_clusters-AreFree, free_in, find_free_clusters-enough, find_free_clusters-full,
}
use iaos.Fat.Chain.Laid.{with_fat, IsReady, table_end, InVolume, NotIn, AreDistinct}
use iaos.Fat.Chain.Written.{length-with_entry}
use iaos.Fat.Chain.Follow.{Linked}
use iaos.Fat.Files.{free_clusters, resized}
use iaos.Fat.Files.Distinct.{
  All-append, All-take, All-drop, take-AreDistinct, append-AreDistinct, AreFree-AreDistinct,
  AreFree-le, used-NotIn,
}

module _ (ata : Ata) (capacity : ℕ) (working : IsReliable ata capacity) (geo : Fat12Info)
    (len : ℕ) where
  open ata use {Disk}
  open working use {content}

  abbrev Inside : ℕ → Type 0
  Inside = InVolume ata capacity working geo len

  abbrev Ready : Disk → List ℕ → Type 0
  Ready = IsReady ata capacity working geo len

  -- Every entry of the table is that of a cluster of the volume.
  pub record IsWhole : Type 0 where
    pub small : len < 2147483647
    pub clusters : (c : ℕ) → 2 ≤ c → c < 1431655765 → byte_offset c + 1 < len → Inside c

  record Freed (disk : Disk) (fat cs : List ℕ) : Type 0 where
    disk' : Disk
    fat' : List ℕ
    returned : free_clusters ata disk (with_fat geo fat) cs ≡ ok (disk', with_fat geo fat')
    ready : Ready disk' fat'
    elsewhere : (n : ℕ) → table_end geo len ≤ n → content disk' n ≡ content disk n

  free_clusters-Freed :
      (disk : Disk) (fat cs : List ℕ) → Ready disk fat → All Inside cs → Freed disk fat cs
  unfolding free_clusters
  free_clusters-Freed disk fat [] ready v = record {
    disk' = disk;
    fat' = fat;
    returned = refl;
    ready = ready;
    elsewhere = λ n h. refl;
  }
  free_clusters-Freed disk fat (c ∷ cs) ready v =
      let entry = v.0.entry in
      let freed =
        write_fat_entry_to_disk-Wrote ata capacity working disk (with_fat geo fat) c 0 ready.mounted
          (rw ready.size entry) in
      let next =
        free_clusters-Freed freed.disk' (with_entry fat c 0) cs
          (record { mounted = freed.mounted; size = length-with_entry fat c 0 ∙ ready.size }) v.1 in
      record {
        disk' = next.disk';
        fat' = next.fat';
        returned = rw freed.returned next.returned;
        ready = next.ready;
        elsewhere = λ n h. next.elsewhere n h ∙ freed.elsewhere n (inr (omega (arith, ready.size)));
      }

  -- The clusters that a file ends up with.
  pub record HasClusters (disk : Disk) (fat : List ℕ) (c count : ℕ)
      (r : Result FatError (Disk × Fat12Info × List ℕ)) : Type 0 where
    pub disk' : Disk
    pub fat' : List ℕ
    pub rest : List ℕ
    pub returned : r ≡ ok (disk', with_fat geo fat', c ∷ rest)
    pub ready : Ready disk' fat'
    pub inside : All Inside (c ∷ rest)
    pub distinct : AreDistinct (c ∷ rest)
    pub counted : length (c ∷ rest) ≡ count
    pub elsewhere : (n : ℕ) → table_end geo len ≤ n → content disk' n ≡ content disk n

  AreFree-Inside :
      (fat : List ℕ) (low high : ℕ) (ys : List ℕ)
      → IsWhole
      → high ≤ 1431655765
      → length fat ≡ len
      → 2 ≤ low
      → AreFree fat low high ys
      → All Inside ys
  AreFree-Inside fat low high [] whole bound size k h = tt
  AreFree-Inside fat low high (y ∷ ys) whole bound size k h =
      let le = h.0 in
      let lt = AreFree-le fat (y + 1) high ys h.3 in
      (
        whole.clusters y (omega arith) (omega arith) (rw (← size) h.2),
        AreFree-Inside fat (y + 1) high ys whole bound size (omega arith) h.3,
      )

  -- No entry of a chain is 0.
  Linked-used : (fat cs : List ℕ) → All Inside cs → Linked fat cs → All (λ x. entry_at fat x ≢ 0) cs
  Linked-used fat [] v linked = tt
  Linked-used fat (c ∷ []) v linked = let e = linked.0 in (λ z. omega arith, tt)
  Linked-used fat (c ∷ x ∷ xs) v linked =
      let e = linked.0 in
      let from_2 = v.1.0.from_2 in
      let below = v.1.0.below in (λ z. omega arith, Linked-used fat (x ∷ xs) v.1 linked.1)

  All-NotIn :
      (fat : List ℕ) (low high : ℕ) (xs ys : List ℕ)
      → All (λ x. entry_at fat x ≢ 0) xs
      → AreFree fat low high ys
      → All (λ x. NotIn x ys) xs
  All-NotIn fat low high [] ys u h = tt
  All-NotIn fat low high (x ∷ xs) ys u h =
      (used-NotIn fat low high x ys u.0 h, All-NotIn fat low high xs ys u.1 h)

  module _ (disk : Disk) (fat : List ℕ) (c : ℕ) (cs : List ℕ) (m : ℕ) (ready : Ready disk fat)
      (v : All Inside (c ∷ cs)) (distinct : AreDistinct (c ∷ cs)) where
    abbrev result : Result FatError (Disk × Fat12Info × List ℕ)
    result = resized ata disk (with_fat geo fat) (suc m) (c ∷ cs)

    grown :
        (extra : List ℕ)
        → IsWhole
        → Linked fat (c ∷ cs)
        → length (c ∷ cs) < suc m
        → find_free_clusters (with_fat geo fat) (suc m - length (c ∷ cs)) ≡ ok extra
        → HasClusters disk fat c (suc m) result
    unfolding resized
    grown extra whole linked lt found =
        let spec =
          find_free_clusters-AreFree (with_fat geo fat) (suc m - length (c ∷ cs)) extra found in
        let high = 2 + (u32 (length fat * 2 / 3) - 2) in
        let test : ltb (length (c ∷ cs)) (suc m) ≡ true = lt→ltb (length (c ∷ cs)) (suc m) lt in
        record {
          disk' = disk;
          fat' = fat;
          rest = cs ++ extra;
          returned = rw (test, found) refl;
          ready = ready;
          inside = All-append Inside (c ∷ cs) extra v (
              AreFree-Inside fat 2 high extra whole (omega (arith, whole.small, ready.size))
                ready.size (omega arith) spec.1);
          distinct =
              append-AreDistinct (c ∷ cs) extra distinct
                (AreFree-AreDistinct fat 2 high extra spec.1)
                (All-NotIn fat 2 high (c ∷ cs) extra (Linked-used fat (c ∷ cs) v linked) spec.1);
          counted = omega (arith, length-append (c ∷ cs) extra, spec.0, lt);
          elsewhere = λ n h. refl;
        }

    shrunk : suc m < length (c ∷ cs) → HasClusters disk fat c (suc m) result
    unfolding resized
    shrunk lt =
        let test : ltb (length (c ∷ cs)) (suc m) ≡ false =
          le→ltb_false (length (c ∷ cs)) (suc m) (omega arith) in
        let more : ltb (suc m) (length (c ∷ cs)) ≡ true = lt→ltb (suc m) (length (c ∷ cs)) lt in
        let freed =
          free_clusters-Freed disk fat (drop (suc m) (c ∷ cs)) ready
            (All-drop Inside (suc m) (c ∷ cs) v) in
        record {
          disk' = freed.disk';
          fat' = freed.fat';
          rest = take m cs;
          returned = rw (test, more, freed.returned) refl;
          ready = freed.ready;
          inside = All-take Inside (suc m) (c ∷ cs) v;
          distinct = take-AreDistinct (suc m) (c ∷ cs) distinct;
          counted = omega (arith, length-take m cs, lt);
          elsewhere = freed.elsewhere;
        }

    kept : length (c ∷ cs) ≡ suc m → HasClusters disk fat c (suc m) result
    unfolding resized
    kept eq =
        let test : ltb (length (c ∷ cs)) (suc m) ≡ false =
          le→ltb_false (length (c ∷ cs)) (suc m) (omega arith) in
        let more : ltb (suc m) (length (c ∷ cs)) ≡ false =
          le→ltb_false (suc m) (length (c ∷ cs)) (omega arith) in
        record {
          disk' = disk;
          fat' = fat;
          rest = cs;
          returned = rw (test, more) refl;
          ready = ready;
          inside = v;
          distinct = distinct;
          counted = eq;
          elsewhere = λ n h. refl;
        }

    -- A resize for which there are free clusters gives distinct clusters of the volume, as many as asked for,
    -- the first of which is that of the file.
    pub resized-HasClusters :
        IsWhole
        → Linked fat (c ∷ cs)
        → suc m ≤ length (c ∷ cs) + free_in (with_fat geo fat)
        → HasClusters disk fat c (suc m) result
    resized-HasClusters whole linked enough =
        let small : length fat < 2147483647 = omega (arith, whole.small, ready.size) in
        elim (Bool-cases (ltb (length (c ∷ cs)) (suc m))) [
          | inl e ↦
              grown (free_from fat (suc m - length (c ∷ cs)) (length fat * 2 / 3 - 2) 2 []) whole
                linked (ltb→lt (length (c ∷ cs)) (suc m) e)
                (find_free_clusters-enough (with_fat geo fat) (suc m - length (c ∷ cs)) small
                  (omega (arith, enough)))
          | inr e ↦ elim (Bool-cases (ltb (suc m) (length (c ∷ cs)))) [
            | inl f ↦ shrunk (ltb→lt (suc m) (length (c ∷ cs)) f)
            | inr f ↦ kept (ground arith)
          ]
        ]

    -- A resize that asks for more clusters than are free fails.
    pub resized-full :
        IsWhole
        → length (c ∷ cs) + free_in (with_fat geo fat) < suc m
        → result ≡ err not_enough_free
    unfolding resized
    resized-full whole lack =
        let small : length fat < 2147483647 = omega (arith, whole.small, ready.size) in
        let test : ltb (length (c ∷ cs)) (suc m) ≡ true =
          lt→ltb (length (c ∷ cs)) (suc m) (omega arith) in
        let full =
          find_free_clusters-full (with_fat geo fat) (suc m - length (c ∷ cs)) small
            (omega (arith, lack)) in
        rw (test, full) refl
