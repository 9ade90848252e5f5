-- ===== src/Fat/Files/RoundTrip.antt =====
-- What is written to a file of the root directory is read back from it.
use native.Mathlib.Nat.{mod-lt, div-add-mod}
use iaos.Prelude.{
  ℕ, zero, suc, ◌+◌, ◌-◌, ◌*◌, ◌/◌, ◌≤◌, ◌<◌, ◌≡◌, ◌≢◌, refl, sym, ap, ◌∙◌, inl, inr, false, ◌==◌,
  Bool-cases, arith, max, List, [], ◌∷◌, ◌++◌, length, length-append, length-take, length-drop,
  take, drop, le32_bytes, u32, All, ok, err, ◌>>=◌,
}
use iaos.Fat.Common.{DirEntry, default}
use iaos.Fat.Table.{
  Fat12Info, Ata, not_enough_free, first_fat_sector, first_root_dir_sector, root_dir_sectors,
  first_data_sector,
}
use iaos.Fat.Table.Free.{free_in}
use iaos.Fat.Table.Reliable.{IsReliable}
use iaos.Fat.Chain.{read_chain}
use iaos.Fat.Chain.Laid.{
  with_fat, IsReady, start, table_end, InVolume, Apart, AreDistinct, Stored-kept, Chained,
  rest_after,
}
use iaos.Fat.Chain.Written.{lay-Laid}
use iaos.Fat.Chain.Read.{read_chain-Chained}
use iaos.Fat.Chain.Follow.{Linked, AreData, follow-Linked}
use iaos.Fat.Directory.{root, Slot, directory_sectors, sectors_from, search, find_entry_location_in}
use iaos.Fat.Files.{
  splice, clusters_needed, update_sector, resized, write_file_impl, read_file_impl,
}
use iaos.Fat.Files.Patched.{with_size}
use iaos.Fat.Files.Found.{search-Again}
use iaos.Fat.Files.Resized.{IsWhole, HasClusters, resized-HasClusters, resized-full}

-- The clusters that are needed have room for the data.
clusters_needed-fits :
    (info : Fat12Info) (contents : List ℕ)
    → info.sectors_per_cluster ≢ 0
    → length contents ≤ clusters_needed info contents * (info.sectors_per_cluster * 512)
clusters_needed-fits info contents h =
    let d = info.sectors_per_cluster * 512 in
    let up = length contents + (d - 1) in
    let rest = mod-lt up {m = d} (omega arith) in
    let whole = div-add-mod up d in
    let least : up / d * d ≤ max (up / d) 1 * d = grind arith in omega arith

nil : (xs : List ℕ) → length xs ≡ 0 → [] ≡ xs
nil [] h = refl
nil (x ∷ xs) h = absurd (omega arith)

length-splice :
    (buf bytes : List ℕ) (at : ℕ)
    → at + length bytes ≤ length buf
    → length (splice buf at bytes) ≡ length buf
length-splice buf bytes at h =
    length-append (take at buf ++ bytes) (drop (at + length bytes) buf)
    ∙ omega (
      arith,
      length-append (take at buf) bytes,
      length-take at buf,
      length-drop (at + length bytes) buf,
    )

module _ (ata : Ata) (capacity : ℕ) (working : IsReliable ata capacity) (geo : Fat12Info)
    (len : ℕ) where
  open ata use {Disk}
  open working use {content, after, reads, writes, same, other}

  abbrev Inside : ℕ → Type 0
  Inside = InVolume ata capacity working geo len

  abbrev Ready : Disk → List ℕ → Type 0
  Ready = IsReady ata capacity working geo len

  -- The root directory lies behind the table, on the disk.
  pub record IsLaidOut : Type 0 where
    pub behind : table_end geo len ≤ first_root_dir_sector geo
    pub root_fits : first_root_dir_sector geo + root_dir_sectors geo < capacity
    pub addressable : capacity ≤ 4294967296
    pub wide : geo.sectors_per_cluster ≢ 0

  Inside-AreData : (fat cs : List ℕ) → length fat ≡ len → All Inside cs → AreData fat cs
  Inside-AreData fat [] size v = tt
  Inside-AreData fat (c ∷ cs) size v =
      ((v.0.from_2, v.0.below, rw size v.0.entry), Inside-AreData fat cs size v.1)

  root_search :
      (fuel : ℕ) (disk : Disk) (fat name : List ℕ)
      → find_entry_location_in ata fuel disk (with_fat geo fat) root name
        ≡ search ata name disk
            (sectors_from (first_root_dir_sector geo) (root_dir_sectors geo))
            default
  unfolding find_entry_location_in directory_sectors first_root_dir_sector root_dir_sectors
      first_fat_sector
  root_search fuel disk fat name = refl

  data_area : IsLaidOut → first_data_sector geo ≡ first_root_dir_sector geo + root_dir_sectors geo
  unfolding first_data_sector
  data_area l = omega (arith, l.root_fits, l.addressable)

  -- A sector before the data area belongs to no cluster.
  root-Apart : (n : ℕ) (cs : List ℕ) → n < first_data_sector geo → Apart geo n cs
  root-Apart n [] h = tt
  root-Apart n (c ∷ cs) h = (inl (omega arith), root-Apart n cs h)

  -- The data stay where they are when a sector before them changes.
  Chained-kept :
      (disk disk' : Disk) (fat cs rest : List ℕ)
      → ((n : ℕ) → first_data_sector geo ≤ n → content disk' n ≡ content disk n)
      → Chained ata capacity working geo len disk fat cs rest
      → Chained ata capacity working geo len disk' fat cs rest
  Chained-kept disk disk' fat [] rest f h = tt
  Chained-kept disk disk' fat (c ∷ cs) rest f h = (
    Stored-kept ata capacity working geo len disk disk' (start geo c) geo.sectors_per_cluster rest
        (λ k a b. f k (omega arith)) h.0,
    h.1,
    Chained-kept disk disk' fat cs (rest_after geo.sectors_per_cluster rest) f h.2,
  )

  module _ (l : IsLaidOut) (fuel : ℕ) (name contents : List ℕ) (disk : Disk) (fat : List ℕ)
      (slot : Slot) (e : DirEntry) (c : ℕ) (cs : List ℕ) (ready : Ready disk fat) where
    -- The directory's sector with the new size.
    abbrev entry_sector : Disk → List ℕ
    entry_sector d = splice (content d slot.0) (slot.1 + 28) (le32_bytes (u32 (length contents)))

    -- The disk once the size is written.
    abbrev final : Disk → Disk
    final d = after d slot.0 (entry_sector d)

    -- The sector of the entry is updated.
    updated :
        (d : Disk) (fat' : List ℕ)
        → Ready d fat'
        → slot.0 < capacity
        → slot.1 + 32 ≤ 512
        → update_sector ata d slot.0
            (λ buf. splice buf (slot.1 + 28) (le32_bytes (u32 (length contents))))
          ≡ ok (final d)
    unfolding update_sector
    updated d fat' r h k =
        let sized = r.mounted.sized slot.0 h in
        let size : length (entry_sector d) ≡ 512 =
          length-splice (content d slot.0) (le32_bytes (u32 (length contents))) (slot.1 + 28)
            (omega (arith, sized))
          ∙ sized in
        rw (reads d slot.0 h, writes d slot.0 (entry_sector d) h size) refl

    -- The read, once the entry is found with the new size.
    read_back :
        (d : Disk) (fat' rest : List ℕ)
        → find_entry_location_in ata fuel d (with_fat geo fat') root name
          ≡ ok (slot, with_size (length contents) e)
        → e.is_dir ≡ false
        → e.start_cluster ≡ c
        → length fat' ≡ len
        → All Inside (c ∷ rest)
        → Chained ata capacity working geo len d fat' (c ∷ rest) contents
        → length contents ≤ length (c ∷ rest) * (geo.sectors_per_cluster * 512)
        → length (c ∷ rest) ≤ fuel
        → read_file_impl ata fuel d (with_fat geo fat') root name ≡ ok contents
    unfolding read_file_impl
    read_back d fat' rest found file first size v chained fits enough =
        let z : zero + length contents ≡ length contents = omega arith in
        let whole : read_chain ata fuel d (with_fat geo fat') c (length contents) [] ≡ ok contents =
          rw z at (
            read_chain-Chained ata capacity working geo len fuel d fat' c rest contents [] size v
              chained fits enough) in
        elim (Bool-cases (length contents == 0)) [
          | inl q ↦ rw (found, file, q) (ap ok (nil contents (ground arith)))
          | inr q ↦ rw (found, file, q, first) whole
        ]

    -- The write and the read, once the clusters are chosen.
    written :
        e.is_dir ≡ false
        → e.start_cluster ≡ c
        → All Inside (c ∷ cs)
        → Linked fat (c ∷ cs)
        → length (c ∷ cs) ≤ fuel
        → length contents < 4294967296
        → clusters_needed geo contents ≤ fuel
        → find_entry_location_in ata fuel disk (with_fat geo fat) root name ≡ ok (slot, e)
        → (r : HasClusters ata capacity working geo len disk fat c
            (clusters_needed geo contents)
            (resized ata disk (with_fat geo fat) (clusters_needed geo contents) (c ∷ cs)))
        → (write_file_impl ata fuel disk (with_fat geo fat) root name contents >>= λ w.
            read_file_impl ata fuel w.0 w.1 root name)
          ≡ ok contents
    unfolding write_file_impl
    written file first v linked long small enough found r =
        let laid =
          lay-Laid ata capacity working geo len r.disk' r.fat' (c ∷ r.rest) contents r.ready
            r.inside r.distinct in
        let d = final laid.disk' in
        let n = root_dir_sectors geo in
        let lba = first_root_dir_sector geo in
        let a =
          search-Again ata capacity working name disk d (length contents) slot e lba n default
            (omega (arith, l.root_fits)) l.addressable ready.mounted.sized
            (sym (root_search fuel disk fat name) ∙ found) in
        let in_root = data_area l in
        let slot-lt : slot.0 < capacity = omega (arith, a.range.to, l.root_fits) in
        let root_kept : (k : ℕ) → lba ≤ k → k < lba + n → content laid.disk' k ≡ content disk k =
          λ k low high.
            laid.elsewhere k (omega (arith, l.behind))
              (root-Apart k (c ∷ r.rest) (omega (arith, in_root)))
            ∙ r.elsewhere k (omega (arith, l.behind)) in
        let size : u32 (length contents) ≡ length contents = omega arith in
        let again =
          a.again
            (λ k low high ne.
              other laid.disk' slot.0 (entry_sector laid.disk') k ne ∙ root_kept k low high)
            (same laid.disk' slot.0 (entry_sector laid.disk')
              ∙ rw (size, root_kept slot.0 a.range.from a.range.to) refl) in
        rw
          (
            found,
            file,
            first,
            follow-Linked fuel (with_fat geo fat) (c ∷ cs)
                (Inside-AreData fat (c ∷ cs) ready.size v) linked long,
            r.returned,
            laid.returned,
            updated laid.disk' laid.fat' laid.ready slot-lt a.range.inside,
          )
          (read_back d laid.fat' r.rest (root_search fuel d laid.fat' name ∙ again) file first
            laid.ready.size r.inside
            (Chained-kept laid.disk' d laid.fat' (c ∷ r.rest) contents
              (λ k h.
                other laid.disk' slot.0 (entry_sector laid.disk') k
                  (λ x. omega (arith, in_root, a.range.to)))
              laid.chained)
            (rw r.counted (clusters_needed-fits geo contents l.wide)) (rw r.counted enough))

  -- Too few clusters are free.
  refused :
      (fuel : ℕ) (name contents : List ℕ) (disk : Disk) (fat : List ℕ) (slot : Slot) (e : DirEntry)
      → (cs : List ℕ) → Ready disk fat
      → find_entry_location_in ata fuel disk (with_fat geo fat) root name ≡ ok (slot, e)
      → e.is_dir ≡ false
      → All Inside (e.start_cluster ∷ cs)
      → Linked fat (e.start_cluster ∷ cs)
      → length (e.start_cluster ∷ cs) ≤ fuel
      → resized ata disk (with_fat geo fat) (clusters_needed geo contents) (e.start_cluster ∷ cs)
        ≡ err not_enough_free
      → write_file_impl ata fuel disk (with_fat geo fat) root name contents ≡ err not_enough_free
  unfolding write_file_impl
  refused fuel name contents disk fat slot e cs ready found file v linked long full =
      let walked =
        follow-Linked fuel (with_fat geo fat) (e.start_cluster ∷ cs)
          (Inside-AreData fat (e.start_cluster ∷ cs) ready.size v) linked long in
      rw (found, file, walked, full) refl

  -- Contents written to a file of the root directory, shorter or longer than the old ones, are
  -- read back from it, where they need no more clusters than the file has and the table has
  -- entries of 0 for. The disk does not fail, the cached table is the one on it, the root
  -- directory lies behind the table and on the disk, every entry of the table is that of a
  -- cluster of the volume, and the name is found, with a chain of distinct clusters. The
  -- contents have less than 2 ^ 32 bytes, and the fuel is at least the number of the file's
  -- clusters, before and after.
  pub write_file_impl-read_file_impl :
      IsLaidOut
      → IsWhole ata capacity working geo len
      → (fuel : ℕ) (name contents : List ℕ) (disk : Disk) (fat : List ℕ) (slot : Slot)
        (e : DirEntry)
      → (cs : List ℕ) → Ready disk fat
      → find_entry_location_in ata fuel disk (with_fat geo fat) root name ≡ ok (slot, e)
      → e.is_dir ≡ false
      → All Inside (e.start_cluster ∷ cs)
      → AreDistinct (e.start_cluster ∷ cs)
      → Linked fat (e.start_cluster ∷ cs)
      → length (e.start_cluster ∷ cs) ≤ fuel
      → length contents < 4294967296
      → clusters_needed geo contents ≤ fuel
      → clusters_needed geo contents ≤ length (e.start_cluster ∷ cs) + free_in (with_fat geo fat)
      → (write_file_impl ata fuel disk (with_fat geo fat) root name contents >>= λ w.
          read_file_impl ata fuel w.0 w.1 root name)
        ≡ ok contents
  write_file_impl-read_file_impl l whole fuel name contents disk fat slot e cs ready found file v
        distinct linked long small enough room =
      let c = e.start_cluster in
      let m = clusters_needed geo contents - 1 in
      let count : suc m ≡ clusters_needed geo contents = omega arith in
      let r =
        resized-HasClusters ata capacity working geo len disk fat c cs m ready v distinct whole
          linked (omega (arith, room)) in
      written l fuel name contents disk fat slot e c cs ready file refl v linked long small enough
        found (rw count at r)

  -- A write to a file of the root directory fails for want of free clusters where the contents
  -- need more clusters than the file has and the table has entries of 0 for. The disk does not
  -- fail, the cached table is the one on it, every entry of the table is that of a cluster of
  -- the volume, the name is found, with a chain of distinct clusters of the volume, and the fuel
  -- is at least the number of the file's clusters.
  pub write_file_impl-full :
      IsWhole ata capacity working geo len
      → (fuel : ℕ) (name contents : List ℕ) (disk : Disk) (fat : List ℕ) (slot : Slot)
        (e : DirEntry)
      → (cs : List ℕ) → Ready disk fat
      → find_entry_location_in ata fuel disk (with_fat geo fat) root name ≡ ok (slot, e)
      → e.is_dir ≡ false
      → All Inside (e.start_cluster ∷ cs)
      → AreDistinct (e.start_cluster ∷ cs)
      → Linked fat (e.start_cluster ∷ cs)
      → length (e.start_cluster ∷ cs) ≤ fuel
      → length (e.start_cluster ∷ cs) + free_in (with_fat geo fat) < clusters_needed geo contents
      → write_file_impl ata fuel disk (with_fat geo fat) root name contents ≡ err not_enough_free
  write_file_impl-full whole fuel name contents disk fat slot e cs ready found file v distinct
        linked long lack =
      let c = e.start_cluster in
      let m = clusters_needed geo contents - 1 in
      let count : suc m ≡ clusters_needed geo contents = omega arith in
      let full =
        resized-full ata capacity working geo len disk fat c cs m ready v distinct whole
          (omega (arith, lack)) in
      refused fuel name contents disk fat slot e cs ready found file v linked long
        (rw count at full)
