-- ===== src/Fat/Chain/Written.antt =====
-- Laying data across distinct clusters of a volume on a working disk: it succeeds, and the clusters
-- hold the data one after the other.
use iaos.Prelude.{
  ℕ, ◌+◌, ◌-◌, ◌*◌, ◌/◌, ◌%◌, ◌≤◌, ◌<◌, ◌≡◌, ◌≢◌, refl, ◌∙◌, inl, inr, arith, List, [], ◌∷◌, length,
  length-set, set, u32, ltb, Bool-cases, All, Result, ok,
}
use iaos.Fat.Table.{
  Fat12Info, Ata, FatError, first_fat_sector, first_root_dir_sector, root_dir_sectors,
  first_data_sector, cluster_to_lba, byte_offset, entry_at, raw_at, pack, write_fat_entry_to_disk,
}
use iaos.Fat.Table.Pack.{with_entry, entry_at-written, entry_at-other}
use iaos.Fat.Table.Reliable.{IsReliable}
use iaos.Fat.Table.Mounted.{base, Wrote, write_fat_entry_to_disk-Wrote}
use iaos.Fat.Chain.{link_of, write_cluster, lay}
use iaos.Fat.Chain.Laid.{
  rest_after, rows_apart, with_fat, IsReady, start, table_end, InVolume, Apart, NotIn, AreDistinct,
  Chained, Stored-kept, Filled, write_cluster-Filled,
}

pub length-with_entry : (fat : List ℕ) (c v : ℕ) → length (with_entry fat c v) ≡ length fat
length-with_entry fat c v =
    let out = pack c (raw_at fat (byte_offset c)) v in
    length-set (set fat (byte_offset c) (out % 256)) (byte_offset c + 1) (out / 256)
    ∙ length-set fat (byte_offset c) (out % 256)

-- The volume's data area does not move with its table.
data_start :
    (geo : Fat12Info) (fat : List ℕ) → first_data_sector (with_fat geo fat) ≡ first_data_sector geo
unfolding first_data_sector first_root_dir_sector root_dir_sectors first_fat_sector
data_start geo fat = refl

module _ (ata : Ata) (capacity : ℕ) (working : IsReliable ata capacity) (geo : Fat12Info)
    (len : ℕ) where
  open ata use {Disk, write_sector}
  open working use {content, after, reads, writes, same, other}

  abbrev spc : ℕ
  spc = geo.sectors_per_cluster

  abbrev Ready : Disk → List ℕ → Type 0
  Ready = IsReady ata capacity working geo len

  abbrev Inside : ℕ → Type 0
  Inside = InVolume ata capacity working geo len

  -- What the write of data across clusters leaves.
  pub record Laid (disk : Disk) (fat cs rest : List ℕ) (r : Result FatError (Disk × Fat12Info))
      : Type 0 where
    pub disk' : Disk
    pub fat' : List ℕ
    pub returned : r ≡ ok (disk', with_fat geo fat')
    pub ready : Ready disk' fat'
    pub chained : Chained ata capacity working geo len disk' fat' cs rest
    pub entries : (x : ℕ) → NotIn x cs → x < 1431655765 → entry_at fat' x ≡ entry_at fat x
    pub elsewhere :
        (n : ℕ) → table_end geo len ≤ n → Apart geo n cs → content disk' n ≡ content disk n

  -- A sector of a cluster belongs to none of the others.
  sector-Apart :
      (c k : ℕ) (cs : List ℕ)
      → 2 ≤ c
      → start geo c ≤ k
      → k < start geo c + spc
      → NotIn c cs
      → All Inside cs
      → Apart geo k cs
  sector-Apart c k [] h a b n v = tt
  sector-Apart c k (x ∷ xs) h a b n v =
      let from_2 : 2 ≤ x = v.0.from_2 in
      (
        elim (Bool-cases (ltb c x)) [
          | inl e ↦
              let g : (c - 2) * spc + spc ≤ (x - 2) * spc =
                rows_apart (c - 2) (x - 2) spc (ground arith) in
              inl (omega arith)
          | inr e ↦
              let ne : c ≢ x = n.0 in
              let g : (x - 2) * spc + spc ≤ (c - 2) * spc =
                rows_apart (x - 2) (c - 2) spc (ground arith) in
              inr (omega arith)
        ],
        sector-Apart c k xs h a b n.1 v.1,
      )

  pub lba_of : (fat : List ℕ) (c : ℕ) → Inside c → cluster_to_lba (with_fat geo fat) c ≡ start geo c
  unfolding cluster_to_lba
  lba_of fat c v =
      let fits : start geo c + spc ≤ capacity = v.sectors in
      let small : capacity ≤ 4294967296 = v.addressable in
      let positive : spc ≢ 0 = v.wide in
      let low : u32 (c + 4294967294) ≡ c - 2 = omega (arith, v.from_2, v.below) in
      rw (data_start geo fat, low) (omega arith)

  -- The table is as it was once a cluster is filled.
  Filled-IsReady :
      (disk : Disk) (fat : List ℕ) (c : ℕ) (rest : List ℕ)
      → Ready disk fat
      → Inside c
      → (filled : Filled ata capacity working geo len disk
          (start geo c)
          spc
          rest
          (write_cluster ata disk (start geo c) spc rest))
      → Ready filled.disk' fat
  Filled-IsReady disk fat c rest ready v filled =
      let behind : table_end geo len ≤ first_data_sector geo = v.behind in
      record {
        mounted = record {
          sized = filled.sized ready.mounted.sized;
          bytes = ready.mounted.bytes;
          fits = ready.mounted.fits;
          addressable = ready.mounted.addressable;
          agrees = λ j lt.
              rw (filled.elsewhere (base geo + j / 512) (inl (omega (arith, ready.size))))
                (ready.mounted.agrees j lt);
        };
        size = ready.size;
      }

  -- One more cluster in front.
  Laid-cons :
      (disk : Disk) (fat : List ℕ) (c : ℕ) (cs rest : List ℕ)
      → (ready : Ready disk fat) → Inside c
      → All Inside cs
      → NotIn c cs
      → (filled : Filled ata capacity working geo len disk
          (start geo c)
          spc
          rest
          (write_cluster ata disk (start geo c) spc rest))
      → (linked : Wrote ata capacity working filled.disk'
          (with_fat geo fat)
          c
          (link_of cs)
          (write_fat_entry_to_disk ata filled.disk' (with_fat geo fat) c (link_of cs)))
      → Laid linked.disk' (with_entry fat c (link_of cs)) cs (rest_after spc rest) (
          lay ata linked.disk'
            (with_fat geo (with_entry fat c (link_of cs)))
            cs
            (rest_after spc rest))
      → Laid disk fat (c ∷ cs) rest (lay ata disk (with_fat geo fat) (c ∷ cs) rest)
  unfolding lay
  Laid-cons disk fat c cs rest ready v vs n filled linked next =
      let value = link_of cs in
      let low : c < 4088 = v.below in
      let from_2 : 2 ≤ c = v.from_2 in
      let inside : byte_offset c + 1 < length fat = rw ready.size v.entry in
      let behind : table_end geo len ≤ first_data_sector geo = v.behind in
      record {
        disk' = next.disk';
        fat' = next.fat';
        returned = rw (lba_of fat c v, filled.returned, linked.returned) next.returned;
        ready = next.ready;
        chained = (
          Stored-kept ata capacity working geo len filled.disk' next.disk' (start geo c) spc rest
              (λ k a b.
                next.elsewhere k (omega arith) (sector-Apart c k cs from_2 a b n vs)
                ∙ linked.elsewhere k (inr (omega (arith, ready.size))))
              filled.stored,
          next.entries c n (omega arith)
              ∙ entry_at-written fat c value ready.mounted.bytes inside (omega arith),
          next.chained,
        );
        entries = λ x ne lt.
            next.entries x ne.1 lt
            ∙ entry_at-other fat c value ready.mounted.bytes inside (omega arith) x ne.0 lt;
        elsewhere = λ k a b.
            next.elsewhere k a b.1
            ∙ linked.elsewhere k (inr (omega (arith, ready.size)))
            ∙ filled.elsewhere k (ground arith);
      }

  -- On a disk that does not fail, with the cached table the one on it, data are laid across
  -- any distinct clusters of the volume: the clusters hold the data in order and are linked,
  -- the cache and the disk stay alike, and neither the entries of other clusters below 2 ^ 32
  -- / 3 nor the sectors behind the table that belong to none of the clusters change.
  pub lay-Laid :
      (disk : Disk) (fat cs rest : List ℕ)
      → Ready disk fat
      → All Inside cs
      → AreDistinct cs
      → Laid disk fat cs rest (lay ata disk (with_fat geo fat) cs rest)
  unfolding lay
  lay-Laid disk fat [] rest ready v d = record {
    disk' = disk;
    fat' = fat;
    returned = refl;
    ready = ready;
    chained = tt;
    entries = λ x n k. refl;
    elsewhere = λ k a b. refl;
  }
  lay-Laid disk fat (c ∷ cs) rest ready v d =
      let inside : InVolume ata capacity working geo len c = v.0 in
      let filled =
        write_cluster-Filled ata capacity working geo len disk (start geo c) spc rest inside.sectors
          inside.addressable in
      let filled_ready = Filled-IsReady disk fat c rest ready inside filled in
      let linked =
        write_fat_entry_to_disk-Wrote ata capacity working filled.disk' (with_fat geo fat) c
          (link_of cs) filled_ready.mounted (rw ready.size inside.entry) in
      Laid-cons disk fat c cs rest ready inside v.1 d.0 filled linked (
        lay-Laid linked.disk' (with_entry fat c (link_of cs)) cs (rest_after spc rest)
          (record {
            mounted = linked.mounted;
            size = length-with_entry fat c (link_of cs) ∙ ready.size;
          })
          v.1 d.1)
