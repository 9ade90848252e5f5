-- ===== src/Fat/Chain/Read.antt =====
-- Reading a chain of clusters gives back the data that were laid across it.
use iaos.Prelude.{
  take_all, ℕ, zero, suc, ◌+◌, ◌*◌, ◌≤◌, ◌<◌, ◌≡◌, refl, sym, ap, ◌∙◌, inl, inr, true, false, arith,
  min, some, List, [], ◌∷◌, ◌++◌, length, length-append, length-take, length-drop, append_assoc,
  take-append-drop, take, drop, leb, leb→le, leb_false→lt, le→leb, ◌==◌, Bool-cases, All, ok, ◌>>=◌,
}
use iaos.Fat.Table.{Fat12Info, Ata, byte_offset, entry_at, next_cluster}
use iaos.Fat.Table.Reliable.{IsReliable}
use iaos.Fat.Chain.{read_chain, lay}
use iaos.Fat.Chain.Laid.{with_fat, IsReady, start, InVolume, AreDistinct, Stored, Chained}
use iaos.Fat.Chain.Written.{lba_of, lay-Laid}
use iaos.Fat.Chain.ReadCluster.{rest_after_lem, read_cluster_lem}

module _ (ata : Ata) (capacity : ℕ) (working : IsReliable ata capacity) (geo : Fat12Info)
    (len : ℕ) where
  open ata use {Disk, read_sector}
  open working use {content, reads}

  -- A link, as the table has it.
  next_cluster-link :
      (fat : List ℕ) (c next : ℕ)
      → byte_offset c + 1 < length fat
      → entry_at fat c ≡ next
      → 2 ≤ next
      → next < 4088
      → next_cluster (with_fat geo fat) c ≡ ok (some next)
  unfolding next_cluster
  next_cluster-link fat c next h e a b =
      let t : leb (length fat) (byte_offset c + 1) ≡ false = ground arith in
      let n : (next == 0) ≡ false = ground arith in
      let l : leb 4088 next ≡ false = ground arith in rw (t, e, n, l) refl

  module _ (fuel : ℕ) (disk : Disk) (fat : List ℕ) (c : ℕ) (rest data_read : List ℕ)
      (v : InVolume ata capacity working geo len c)
      (stored : Stored ata capacity working geo len disk
        (start geo c)
        geo.sectors_per_cluster
        rest) where
    abbrev size : ℕ
    size = length data_read + length rest

    abbrev longer : List ℕ
    longer = data_read ++ take (geo.sectors_per_cluster * 512) rest

    -- The size is reached.
    read_chain-last :
        leb size (length longer) ≡ true
        → read_chain ata (suc fuel) disk (with_fat geo fat) c size data_read ≡ ok longer
    unfolding read_chain
    read_chain-last e =
        rw
          (
            lba_of ata capacity working geo len fat c v,
            read_cluster_lem ata capacity working geo len disk (start geo c) geo.sectors_per_cluster
                rest data_read v.sectors v.addressable stored,
            e,
          )
          refl

    -- The next cluster is read.
    read_chain-more :
        (next : ℕ)
        → leb size (length longer) ≡ false
        → next_cluster (with_fat geo fat) c ≡ ok (some next)
        → read_chain ata (suc fuel) disk (with_fat geo fat) c size data_read
          ≡ read_chain ata fuel disk (with_fat geo fat) next size longer
    unfolding read_chain
    read_chain-more next e f =
        rw
          (
            lba_of ata capacity working geo len fat c v,
            read_cluster_lem ata capacity working geo len disk (start geo c) geo.sectors_per_cluster
                rest data_read v.sectors v.addressable stored,
            e,
            f,
          )
          refl

  take_sizes :
      (n : ℕ) (rest data_read : List ℕ)
      → length (data_read ++ take n rest) ≡ length data_read + min n (length rest)
  take_sizes n rest data_read =
      length-append data_read (take n rest) ∙ ap (λ t. length data_read + t) (length-take n rest)

  -- Across a chain that holds the data, behind what was read before.
  pub read_chain-Chained :
      (fuel : ℕ) (disk : Disk) (fat : List ℕ) (c : ℕ) (cs rest data_read : List ℕ)
      → length fat ≡ len
      → All (InVolume ata capacity working geo len) (c ∷ cs)
      → Chained ata capacity working geo len disk fat (c ∷ cs) rest
      → length rest ≤ length (c ∷ cs) * (geo.sectors_per_cluster * 512)
      → length (c ∷ cs) ≤ fuel
      → read_chain ata fuel disk (with_fat geo fat) c (length data_read + length rest) data_read
        ≡ ok (data_read ++ rest)
  read_chain-Chained zero disk fat c cs rest data_read sized v chained fits enough =
      absurd (omega arith)
  read_chain-Chained (suc fuel) disk fat c [] rest data_read sized v chained fits enough =
      let one : suc zero * (geo.sectors_per_cluster * 512) ≡ geo.sectors_per_cluster * 512 =
        omega arith in
      let whole = take_all {n = (geo.sectors_per_cluster * 512)} rest (omega (arith, fits, one)) in
      let reached : leb (length data_read + length rest)
            (length (data_read ++ take (geo.sectors_per_cluster * 512) rest))
          ≡ true =
        rw (whole, length-append data_read rest)
          (le→leb (length data_read + length rest) (length data_read + length rest)
            (omega arith)) in
      read_chain-last fuel disk fat c rest data_read v.0 chained.0 reached
      ∙ ap (λ t. ok (data_read ++ t)) whole
  read_chain-Chained (suc fuel) disk fat c (x ∷ xs) rest data_read sized v chained fits enough =
      let m = geo.sectors_per_cluster * 512 in
      let longer = data_read ++ take m rest in
      let sum = take_sizes m rest data_read in
      elim (Bool-cases (leb (length data_read + length rest) (length longer))) [
        | inl e ↦
            let whole =
              take_all {n = m} rest
                (omega (arith, leb→le (length data_read + length rest) (length longer) e, sum)) in
            read_chain-last fuel disk fat c rest data_read v.0 chained.0 e
            ∙ ap (λ t. ok (data_read ++ t)) whole
        | inr e ↦
            let further = leb_false→lt (length data_read + length rest) (length longer) e in
            let from_2 = v.1.0.from_2 in
            let low = v.1.0.below in
            let left = length-drop m rest in
            let total : length longer + length (drop m rest) ≡ length data_read + length rest =
              omega (arith, sum, left, further) in
            let linked : next_cluster (with_fat geo fat) c ≡ ok (some x) =
              next_cluster-link fat c x (rw sized v.0.entry) (chained.1 ∙ omega (arith, low)) from_2
                low in
            let rows : length (c ∷ x ∷ xs) * m ≡ m + length (x ∷ xs) * m = grind arith in
            read_chain-more fuel disk fat c rest data_read v.0 chained.0 x e linked
            ∙ ap (λ t. read_chain ata fuel disk (with_fat geo fat) x t longer) (sym total)
            ∙ read_chain-Chained fuel disk fat x xs (drop m rest) longer sized v.1
                (rw (rest_after_lem geo.sectors_per_cluster rest) at chained.2)
                (omega (arith, left, fits, rows)) (omega (arith, enough))
            ∙ ap ok (
                append_assoc data_read (take m rest) (drop m rest)
                ∙ ap (λ t. data_read ++ t) (take-append-drop m rest))
      ]

  -- On a disk that does not fail, with the cached table the one on it, data that fit in some
  -- distinct clusters of the volume are laid across them and read back from the first, with
  -- as much fuel as there are clusters.
  pub lay-read_chain :
      (disk : Disk) (fat : List ℕ) (c : ℕ) (cs contents : List ℕ)
      → IsReady ata capacity working geo len disk fat
      → All (InVolume ata capacity working geo len) (c ∷ cs)
      → AreDistinct (c ∷ cs)
      → length contents ≤ length (c ∷ cs) * (geo.sectors_per_cluster * 512)
      → (lay ata disk (with_fat geo fat) (c ∷ cs) contents >>= λ laid.
          read_chain ata (length (c ∷ cs)) laid.0 laid.1 c (length contents) [])
        ≡ ok contents
  lay-read_chain disk fat c cs contents ready v distinct fits =
      let laid =
        lay-Laid ata capacity working geo len disk fat (c ∷ cs) contents ready v distinct in
      let z : zero + length contents ≡ length contents = omega arith in
      rw (laid.returned, ← z)
        (read_chain-Chained (length (c ∷ cs)) laid.disk' laid.fat' c cs contents [] laid.ready.size
          v laid.chained fits (omega arith))
