-- ===== src/Fat/Table/Free.antt =====
-- The clusters found for a file are free, different, and as many as asked for.
use iaos.Prelude.{
  ℕ, zero, suc, ◌+◌, ◌-◌, ◌*◌, ◌/◌, ◌≤◌, ◌<◌, ◌≡◌, refl, ap, ◌∙◌, true, false, min, if◌then◌else◌,
  inl, inr, arith, List, [], ◌∷◌, ◌++◌, length, length-append, ltb, leb, ◌==◌, u32, Bool-cases, ok,
  err, ok_inj,
}
use iaos.Fat.Table.{
  Fat12Info, not_enough_free, byte_offset, entry_at, free_from, find_free_clusters,
}

-- Ascending numbers from `low` below `high`, of free clusters inside the table.
abbrev pub AreFree : List ℕ → ℕ → ℕ → List ℕ → Type 0
AreFree fat low high [] = low ≤ high
AreFree fat low high (c ∷ cs) =
    (low ≤ c)
    × (entry_at fat c ≡ 0)
    × (byte_offset c + 1 < length fat)
    × AreFree fat (c + 1) high cs

AreFree-snoc :
    (fat : List ℕ) (low high : ℕ) (cs : List ℕ)
    → AreFree fat low high cs
    → entry_at fat high ≡ 0
    → byte_offset high + 1 < length fat
    → AreFree fat low (high + 1) (cs ++ (high ∷ []))
AreFree-snoc fat low high [] h z i = (h, z, i, omega arith)
AreFree-snoc fat low high (c ∷ cs) h z i = (h.0, h.1, h.2, AreFree-snoc fat (c + 1) high cs h.3 z i)

AreFree-mono :
    (fat : List ℕ) (low high higher : ℕ) (cs : List ℕ)
    → AreFree fat low high cs
    → high ≤ higher
    → AreFree fat low higher cs
AreFree-mono fat low high higher [] h le = omega arith
AreFree-mono fat low high higher (c ∷ cs) h le =
    (h.0, h.1, h.2, AreFree-mono fat (c + 1) high higher cs h.3 le)

free_from-AreFree :
    (fat : List ℕ) (count left cluster : ℕ) (found : List ℕ)
    → AreFree fat 2 cluster found
    → length found ≤ count
    → AreFree fat 2 (cluster + left) (free_from fat count left cluster found)
      × (length (free_from fat count left cluster found) ≤ count)
unfolding free_from
free_from-AreFree fat count zero cluster found h le =
    (AreFree-mono fat 2 cluster (cluster + 0) found h (omega arith), le)
free_from-AreFree fat count (suc left) cluster found h le =
    elim (Bool-cases (length found == count)) [
      | inl a ↦ rw a (AreFree-mono fat 2 cluster (cluster + suc left) found h (omega arith), le)
      | inr a ↦ elim (Bool-cases (leb (length fat) (byte_offset cluster + 1))) [
        | inl b ↦
            rw (a, b) (AreFree-mono fat 2 cluster (cluster + suc left) found h (omega arith), le)
        | inr b ↦ elim (Bool-cases (entry_at fat cluster == 0)) [
          | inl c ↦
              let rest =
                free_from-AreFree fat count left (cluster + 1) (found ++ (cluster ∷ []))
                  (AreFree-snoc fat 2 cluster found h (ground arith) (ground arith))
                  (let size = length-append found (cluster ∷ []) in ground arith) in
              rw (a, b, c)
                (
                  AreFree-mono fat 2 (cluster + 1 + left) (cluster + suc left)
                      (free_from fat count left (cluster + 1) (found ++ (cluster ∷ []))) rest.0
                      (omega arith),
                  rest.1,
                )
          | inr c ↦
              let rest =
                free_from-AreFree fat count left (cluster + 1) found
                  (AreFree-mono fat 2 cluster (cluster + 1) found h (omega arith)) le in
              rw (a, b, c)
                (
                  AreFree-mono fat 2 (cluster + 1 + left) (cluster + suc left)
                      (free_from fat count left (cluster + 1) found) rest.0 (omega arith),
                  rest.1,
                )
        ]
      ]
    ]

-- A successful search for `count` clusters returns exactly that many, in ascending order from 2
-- on, each inside the table and with an entry of 0.
pub find_free_clusters-AreFree :
    (info : Fat12Info) (count : ℕ) (found : List ℕ)
    → find_free_clusters info count ≡ ok found
    → (length found ≡ count)
      × AreFree info.fat_bytes 2 (2 + (u32 (length info.fat_bytes * 2 / 3) - 2)) found
unfolding find_free_clusters
find_free_clusters-AreFree info count found h =
    let all =
      free_from-AreFree info.fat_bytes count (u32 (length info.fat_bytes * 2 / 3) - 2) 2 []
        (omega arith) (omega arith) in
    elim (Bool-cases (
      ltb (length (free_from info.fat_bytes count (u32 (length info.fat_bytes * 2 / 3) - 2) 2 []))
        count)) [
          | inl e ↦ cc (rw (e, find_free_clusters) at h)
          | inr e ↦
              let it = ok_inj (rw (e, find_free_clusters) at h) in
              rw (← it) (ground (arith, all.1), all.0)
        ]

-- The entries of 0 among `left` clusters from `cluster` on.
unfoldable pub free_count : List ℕ → ℕ → ℕ → ℕ
free_count fat zero cluster = 0
free_count fat (suc left) cluster =
    let rest = free_count fat left (cluster + 1) in
    if entry_at fat cluster == 0 then suc rest else rest

-- The clusters that the table has entries for, besides the first two.
abbrev clusters_of : Fat12Info → ℕ
clusters_of info = length info.fat_bytes * 2 / 3 - 2

-- The free clusters of a volume.
abbrev pub free_in : Fat12Info → ℕ
free_in info = free_count info.fat_bytes (clusters_of info) 2

free_from-length :
    (fat : List ℕ) (count left cluster : ℕ) (found : List ℕ)
    → ((c : ℕ) → cluster ≤ c → c < cluster + left → byte_offset c + 1 < length fat)
    → length found ≤ count
    → length (free_from fat count left cluster found)
      ≡ min count (length found + free_count fat left cluster)
unfolding free_from free_count
free_from-length fat count zero cluster found inside le = ground arith
free_from-length fat count (suc left) cluster found inside le =
    let here = inside cluster (omega arith) (omega arith) in
    let later : (c : ℕ)
        → cluster + 1 ≤ c
        → c < cluster + 1 + left
        → byte_offset c + 1 < length fat =
      λ c low high. inside c (omega arith) (omega arith) in
    elim (Bool-cases (length found == count)) [
      | inl a ↦ rw a (ground arith)
      | inr a ↦
          let b : leb (length fat) (byte_offset cluster + 1) ≡ false = ground arith in
          let size = length-append found (cluster ∷ []) in
          elim (Bool-cases (entry_at fat cluster == 0)) [
            | inl c ↦
                rw (a, b, c)
                  (free_from-length fat count left (cluster + 1) (found ++ (cluster ∷ [])) later
                      (ground arith)
                    ∙ ap (min count) (omega (arith, size)))
            | inr c ↦ rw (a, b, c) (free_from-length fat count left (cluster + 1) found later le)
          ]
    ]

module _ (info : Fat12Info) (count : ℕ) (small : length info.fat_bytes < 2147483647) where
  found_count :
      length (free_from info.fat_bytes count (clusters_of info) 2 []) ≡ min count (free_in info)
  found_count =
      free_from-length info.fat_bytes count (clusters_of info) 2 [] (λ c low high. omega arith)
        (omega arith)
      ∙ ap (min count) (omega arith)

  total : u32 (length info.fat_bytes * 2 / 3) ≡ length info.fat_bytes * 2 / 3
  total = omega arith

  -- A search for at most as many clusters as are free succeeds.
  pub find_free_clusters-enough :
      count ≤ free_in info
      → find_free_clusters info count ≡ ok (free_from info.fat_bytes count (clusters_of info) 2 [])
  unfolding find_free_clusters
  find_free_clusters-enough h =
      let t : ltb (length (free_from info.fat_bytes count (clusters_of info) 2 [])) count ≡ false =
        ground (arith, found_count) in
      rw (total, t) refl

  -- A search for more clusters than are free fails.
  pub find_free_clusters-full :
      free_in info < count → find_free_clusters info count ≡ err not_enough_free
  unfolding find_free_clusters
  find_free_clusters-full h =
      let t : ltb (length (free_from info.fat_bytes count (clusters_of info) 2 [])) count ≡ true =
        ground (arith, found_count) in
      rw (total, t) refl
