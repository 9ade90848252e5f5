-- ===== src/Fat/Chain/ReadCluster.antt =====
-- Reading the sectors of one cluster.
use iaos.Prelude.{
  take-append, take_all, ℕ, zero, suc, ◌+◌, ◌-◌, ◌*◌, ◌≤◌, ◌<◌, ◌≡◌, refl, sym, ap, ◌∙◌, inl, inr,
  arith, min, List, [], ◌∷◌, ◌++◌, length, length-append, length-take, length-drop, append_assoc,
  append_nil, drop-drop, take, drop, leb, leb→le, leb_false→lt, if◌then◌else◌, u32, Bool-cases, ok,
}
use iaos.Fat.Table.{Fat12Info, Ata}
use iaos.Fat.Table.Reliable.{IsReliable}
use iaos.Fat.Chain.{filled, sector_of, behind_sector, read_cluster}
use iaos.Fat.Chain.Laid.{rest_after, Stored}

take-filled : (n : ℕ) (bs : List ℕ) → take (min (length bs) n) (filled n bs) ≡ take n bs
take-filled zero bs = let z : min (length bs) 0 ≡ 0 = omega arith in rw z refl
take-filled (suc n) [] = let z : min 0 (suc n) ≡ 0 = omega arith in rw z refl
take-filled (suc n) (b ∷ bs) =
    let z : min (suc (length bs)) (suc n) ≡ suc (min (length bs) n) = omega arith in
    rw z (ap (λ t. b ∷ t) (take-filled n bs))

behind_sector_lem : (rest : List ℕ) → behind_sector rest ≡ drop 512 rest
unfolding behind_sector
behind_sector_lem rest = refl

take-sector_of : (rest : List ℕ) → take (min (length rest) 512) (sector_of rest) ≡ take 512 rest
unfolding sector_of
take-sector_of rest = take-filled 512 rest

pub rest_after_lem : (n : ℕ) (rest : List ℕ) → rest_after n rest ≡ drop (n * 512) rest
rest_after_lem zero rest = refl
rest_after_lem (suc n) rest =
    let z : suc n * 512 ≡ 512 + n * 512 = omega arith in
    rest_after_lem n (behind_sector rest)
    ∙ ap (drop (n * 512)) (behind_sector_lem rest)
    ∙ drop-drop (n * 512) 512 rest
    ∙ ap (λ t. drop t rest) (sym z)

module _ (ata : Ata) (capacity : ℕ) (working : IsReliable ata capacity) (geo : Fat12Info)
    (len : ℕ) where
  open ata use {Disk, read_sector}
  open working use {content, reads}

  -- One sector of it.
  first_sector :
      (disk : Disk) (lba n : ℕ) (rest data_read : List ℕ)
      → lba < capacity
      → capacity ≤ 4294967296
      → content disk lba ≡ sector_of rest
      → read_cluster ata disk lba (suc n) (length data_read + length rest) data_read ≡ (
          if leb (length data_read + length rest) (length (data_read ++ take 512 rest))
          then ok (data_read ++ take 512 rest)
          else read_cluster ata disk
              (lba + 1)
              n
              (length data_read + length rest)
              (data_read ++ take 512 rest))
  unfolding read_cluster
  first_sector disk lba n rest data_read h k stored =
      let here : u32 lba ≡ lba = omega arith in
      let left : length data_read + length rest - length data_read ≡ length rest = omega arith in
      rw (here, reads disk lba h, stored, left, take-sector_of rest) refl

  -- The sectors of a cluster that holds data of a file read as many of them as it holds.
  pub read_cluster_lem :
      (disk : Disk) (lba n : ℕ) (rest data_read : List ℕ)
      → lba + n ≤ capacity
      → capacity ≤ 4294967296
      → Stored ata capacity working geo len disk lba n rest
      → read_cluster ata disk lba n (length data_read + length rest) data_read
        ≡ ok (data_read ++ take (n * 512) rest)
  unfolding read_cluster
  read_cluster_lem disk lba zero rest data_read h k stored = ap ok (sym (append_nil data_read))
  read_cluster_lem disk lba (suc n) rest data_read h k stored =
      let here : u32 lba ≡ lba = omega arith in
      let size = length data_read + length rest in
      let left : size - length data_read ≡ length rest = omega arith in
      let longer = data_read ++ take 512 rest in
      let sum : length longer ≡ length data_read + min 512 (length rest) =
        length-append data_read (take 512 rest)
        ∙ ap (λ t. length data_read + t) (length-take 512 rest) in
      let rows : suc n * 512 ≡ 512 + n * 512 = omega arith in
      let next =
        read_cluster_lem disk (lba + 1) n (behind_sector rest) longer (omega arith) k stored.1 in
      let step : read_cluster ata disk lba (suc n) size data_read ≡ (
          if leb size (length longer)
          then ok longer
          else read_cluster ata disk (lba + 1) n size longer) =
        first_sector disk lba n rest data_read (omega arith) k stored.0 in
      step ∙ elim (Bool-cases (leb size (length longer))) [
        | inl e ↦
            let short : length rest ≤ 512 = omega (arith, leb→le size (length longer) e, sum) in
            rw (e, take_all {n = 512} rest short, take_all {n = (suc n * 512)} rest (omega arith))
              refl
        | inr e ↦
            let long : 512 < length rest =
              omega (arith, leb_false→lt size (length longer) e, sum) in
            let total : length longer + length (behind_sector rest) ≡ size =
              omega (arith, sum, ap length (behind_sector_lem rest) ∙ length-drop 512 rest) in
            rw (e, ← total)
              (next
                ∙ ap ok (
                    append_assoc data_read (take 512 rest) (take (n * 512) (behind_sector rest))
                    ∙ ap (λ t. data_read ++ t)
                        (ap (λ t. take 512 rest ++ take (n * 512) t) (behind_sector_lem rest)
                          ∙ take-append 512 (n * 512) rest
                          ∙ ap (λ t. take t rest) (sym rows))))
      ]
