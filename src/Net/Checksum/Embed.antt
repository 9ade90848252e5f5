-- ===== src/Net/Checksum/Embed.antt =====
-- A packet that holds its own checksum, in a word of it, verifies.
use iaos.Prelude.{
  ℕ, suc, ◌+◌, ◌-◌, ◌*◌, ◌/◌, ◌%◌, ◌≤◌, ◌<◌, ◌≡◌, refl, ◌∙◌, ◌⊎◌, inl, inr, List, [], ◌∷◌, ◌++◌,
  arith, length, length-append, IsBytes, be16, be16_bytes, u32, ◌==◌, Bool-cases,
}
use iaos.Net.Checksum.{add_words, fold_carries, internet_checksum}

-- The sum of the words, unbounded.
abbrev pub total : List ℕ → ℕ
total (a ∷ b ∷ rest) = be16 a b + total rest
total (last ∷ []) = last * 256
total [] = 0

-- The words of a packet of at most 2 ^ 17 bytes do not overflow 32 bits.
abbrev pub max_length : ℕ
max_length = 131072

total-le : (xs : List ℕ) → IsBytes xs → total xs * 2 ≤ 65535 * (length xs + 1)
total-le [] h = omega arith
total-le (a ∷ []) h = omega (arith, h.0)
total-le (a ∷ b ∷ rest) h = omega (arith, h.0, h.1.0, total-le rest h.1.1)

add_words-total :
    (sum : ℕ) (xs : List ℕ) → sum + total xs < 4294967296 → add_words sum xs ≡ sum + total xs
unfolding add_words
add_words-total sum [] h = omega arith
add_words-total sum (a ∷ []) h = omega arith
add_words-total sum (a ∷ b ∷ rest) h =
    let step : u32 (sum + be16 a b) ≡ sum + be16 a b = omega arith in
    rw (step, add_words-total (sum + be16 a b) rest (omega arith)) (omega arith)

-- `r` is the end-around-carry sum of the words that add up to `s`.
pub record IsReduced (s r : ℕ) : Type 0 where
  pub fits : r ≤ 65535
  pub carries : ℕ
  pub splits : s ≡ r + 65535 * carries
  pub nonzero : r ≡ 0 → s ≡ 0

fold_step : (s r : ℕ) → IsReduced (s % 65536 + s / 65536) r → IsReduced s r
fold_step s r h = record {
  fits = h.fits;
  carries = h.carries + s / 65536;
  splits = omega (arith, h.splits);
  nonzero = λ e. omega (arith, h.nonzero e);
}

fold_done : (s : ℕ) → s < 65536 → IsReduced s s
fold_done s h = record { fits = omega arith; carries = 0; splits = omega arith; nonzero = λ e. e }

fold_round :
    (fuel s : ℕ)
    → s < 4294967296
    → IsReduced (s % 65536 + s / 65536) (fold_carries fuel (s % 65536 + s / 65536))
    → IsReduced s (fold_carries (suc fuel) s)
unfolding fold_carries
fold_round fuel s h rest = elim (Bool-cases (s / 65536 == 0)) [
  | inl e ↦ rw e (fold_done s (ground arith))
  | inr e ↦
      let same : u32 (s % 65536 + s / 65536) ≡ s % 65536 + s / 65536 = omega arith in
      rw (e, same) (fold_step s (fold_carries fuel (s % 65536 + s / 65536)) rest)
]

fold_carries-IsReduced : (s : ℕ) → s < 4294967296 → IsReduced s (fold_carries 2 s)
unfolding fold_carries
fold_carries-IsReduced s h = fold_round 1 s h (one_round (s % 65536 + s / 65536) (omega arith))
  where
    one_round : (t : ℕ) → t ≤ 131070 → IsReduced t (fold_carries 1 t)
    one_round t le = elim (Bool-cases (t / 65536 == 0)) [
      | inl e ↦ rw e (fold_done t (ground arith))
      | inr e ↦
          let same : u32 (t % 65536 + t / 65536) ≡ t % 65536 + t / 65536 = omega arith in
          let once : t / 65536 ≡ 1 = ground arith in
          rw (e, same)
            (fold_step t (t % 65536 + t / 65536) (fold_done (t % 65536 + t / 65536) (omega arith)))
    ]

-- Of at most 2 ^ 17 bytes the checksum is the complement of the end-around-carry sum of the words:
-- the carry loop ends, and no addition overflows.
pub internet_checksum-IsReduced :
    (xs : List ℕ)
    → IsBytes xs
    → length xs ≤ max_length
    → (internet_checksum xs ≤ 65535) × IsReduced (total xs) (65535 - internet_checksum xs)
unfolding internet_checksum
internet_checksum-IsReduced xs h le =
    let bound : total xs < 4294967296 = omega (arith, total-le xs h) in
    let sum : add_words 0 xs ≡ total xs = add_words-total 0 xs (omega arith) ∙ omega arith in
    let r = fold_carries-IsReduced (total xs) bound in
    let folded : 65535 - (65535 - fold_carries 2 (total xs) % 65536) ≡ fold_carries 2 (total xs) =
      omega (arith, r.fits) in
    (omega arith, rw (sum, folded) r)

-- An even number of bytes.
abbrev pub IsEven : List ℕ → Type 0
IsEven xs = length xs % 2 ≡ 0

pub total-append : (xs ys : List ℕ) → IsEven xs → total (xs ++ ys) ≡ total xs + total ys
total-append [] ys h = omega arith
total-append (a ∷ []) ys h = absurd (omega arith)
total-append (a ∷ b ∷ rest) ys h = omega (arith, total-append rest ys (omega arith))

pub IsBytes-append : (xs ys : List ℕ) → IsBytes xs → IsBytes ys → IsBytes (xs ++ ys)
IsBytes-append [] ys h k = k
IsBytes-append (x ∷ xs) ys h k = (h.0, IsBytes-append xs ys h.1 k)

-- A word that makes the sum a multiple of 65535.
complement_lem :
    (s r c r' : ℕ)
    → IsReduced s r
    → (c ≡ 65535 - r) ⊎ ((r ≡ 65535) × (c ≡ 65535))
    → IsReduced (s + c) r'
    → r' ≡ 65535
complement_lem s r c r' h e h' = elim (Bool-cases (r' == 0)) [
  | inl z ↦
      let zero_sum : s + c ≡ 0 = h'.nonzero (ground arith) in
      elim e [
        | inl a ↦ absurd (omega (arith, h.fits, h.splits))
        | inr a ↦ absurd (omega (arith, a.1))
      ]
  | inr z ↦
      let positive : 0 < r' = ground arith in
      elim e [
        | inl a ↦ omega (arith, h.fits, h.splits, h'.fits, h'.splits)
        | inr a ↦ omega (arith, a.0, a.1, h.splits, h'.fits, h'.splits)
      ]
]

-- A packet with its checksum in place of a zero word.
module _ (pre post : List ℕ) (even : IsEven pre) (pre-IsBytes : IsBytes pre)
    (post_bytes : IsBytes post) (short : length pre + 2 + length post ≤ max_length) where
  abbrev pub blank : List ℕ
  blank = pre ++ (0 ∷ 0 ∷ post)

  abbrev pub sealed : ℕ → List ℕ
  sealed c = pre ++ (be16_bytes c ++ post)

  blank-total : total blank ≡ total pre + total post
  blank-total = total-append pre (0 ∷ 0 ∷ post) even ∙ omega arith

  total-sealed : (c : ℕ) → total (sealed c) ≡ total blank + c
  total-sealed c = total-append pre (be16_bytes c ++ post) even ∙ omega (arith, blank-total)

  blank_lem :
      (internet_checksum blank ≤ 65535) × IsReduced (total blank) (65535 - internet_checksum blank)
  blank_lem =
      internet_checksum-IsReduced blank
        (IsBytes-append pre (0 ∷ 0 ∷ post) pre-IsBytes (omega arith, (omega arith, post_bytes)))
        (omega (arith, length-append pre (0 ∷ 0 ∷ post)))

  sealed_lem :
      (c : ℕ)
      → c ≤ 65535
      → (internet_checksum (sealed c) ≤ 65535)
        × IsReduced (total (sealed c)) (65535 - internet_checksum (sealed c))
  sealed_lem c le =
      internet_checksum-IsReduced (sealed c)
        (IsBytes-append pre (be16_bytes c ++ post) pre-IsBytes
          (omega arith, (omega arith, post_bytes)))
        (omega (arith, length-append pre (be16_bytes c ++ post)))

  pub checksum-sealed : internet_checksum (sealed (internet_checksum blank)) ≡ 0
  checksum-sealed =
      let s = sealed_lem (internet_checksum blank) blank_lem.0 in
      let r =
        complement_lem (total blank) (65535 - internet_checksum blank) (internet_checksum blank)
          (65535 - internet_checksum (sealed (internet_checksum blank))) blank_lem.1
          (inl (omega (arith, blank_lem.0))) (rw (total-sealed (internet_checksum blank)) at s.1) in
      omega (arith, s.0, r)

  pub checksum-sealed_ones : internet_checksum blank ≡ 0 → internet_checksum (sealed 65535) ≡ 0
  checksum-sealed_ones none_left =
      let s = sealed_lem 65535 (omega arith) in
      let r =
        complement_lem (total blank) (65535 - internet_checksum blank) 65535
          (65535 - internet_checksum (sealed 65535)) blank_lem.1
          (inr (omega (arith, none_left), refl)) (rw (total-sealed 65535) at s.1) in
      omega (arith, s.0, r)
