-- ===== src/Prelude/Slots.antt =====
-- Arrays of optional values: how many are full, and the first index that passes a test.
use Prim.Native.Nat.{ℕ, zero, suc, ◌+◌, ◌≤◌, ◌<◌}
use mathlib.Core.Path.{◌≡◌, refl, ap}
use mathlib.Core.Bool.{Bool, true, false}
use mathlib.Core.Option
use mathlib.Core.Option.{Option, none, some}
use mathlib.Core.List.{List, [], ◌∷◌}
use mathlib.Core.Logic.{inl, inr}
use native.Mathlib.Omega.{arith}
use iaos.Prelude.Tests.{if◌then◌else◌, Bool-cases, Option-cases}
use iaos.Prelude.Lists.{length, get_elem?, set}

module _ {ℓ} {A : Type ℓ} where
  -- `iter().filter(|s| s.is_some()).count()`
  unfoldable pub count_some : List (Option A) → ℕ
  count_some [] = 0
  count_some (none ∷ rest) = count_some rest
  count_some (some a ∷ rest) = suc (count_some rest)

  -- `Option::is_none`
  abbrev pub is_none : Option A → Bool
  is_none none = true
  is_none (some a) = false

  -- `Iterator::position`
  unfoldable pub position : (A → Bool) → List A → Option ℕ
  position test [] = none
  position test (x ∷ xs) = if test x then some 0 else Option.map suc (position test xs)

module _ {ℓ} {A : Type ℓ} where
  pub count_some-le-length : (xs : List (Option A)) → count_some xs ≤ length xs
  unfolding count_some
  count_some-le-length [] = omega arith
  count_some-le-length (none ∷ xs) = omega (arith, count_some-le-length xs)
  count_some-le-length (some a ∷ xs) = omega (arith, count_some-le-length xs)

  pub count_some-replace :
      (xs : List (Option A)) (i : ℕ) (a b : A)
      → get_elem? xs i ≡ some (some a)
      → count_some (set xs i (some b)) ≡ count_some xs
  unfolding count_some
  count_some-replace [] i a b h = refl
  count_some-replace (none ∷ xs) zero a b h = ground arith
  count_some-replace (some c ∷ xs) zero a b h = refl
  count_some-replace (none ∷ xs) (suc i) a b h = count_some-replace xs i a b h
  count_some-replace (some c ∷ xs) (suc i) a b h = ap suc (count_some-replace xs i a b h)

  pub count_some-fill :
      (xs : List (Option A)) (i : ℕ) (b : A)
      → get_elem? xs i ≡ some none
      → count_some (set xs i (some b)) ≡ count_some xs + 1
  unfolding count_some
  count_some-fill [] i b h = ground arith
  count_some-fill (none ∷ xs) zero b h = omega arith
  count_some-fill (some c ∷ xs) zero b h = ground arith
  count_some-fill (none ∷ xs) (suc i) b h = count_some-fill xs i b h
  count_some-fill (some c ∷ xs) (suc i) b h = omega (arith, count_some-fill xs i b h)

  pub count_some-empty :
      (xs : List (Option A)) (i : ℕ) (a : A)
      → get_elem? xs i ≡ some (some a)
      → count_some (set xs i none) + 1 ≡ count_some xs
  unfolding count_some
  count_some-empty [] i a h = ground arith
  count_some-empty (none ∷ xs) zero a h = ground arith
  count_some-empty (some c ∷ xs) zero a h = omega arith
  count_some-empty (none ∷ xs) (suc i) a h = count_some-empty xs i a h
  count_some-empty (some c ∷ xs) (suc i) a h = omega (arith, count_some-empty xs i a h)

  -- What `position` returns: the first index that passes, or none when no element does.
  pub record FirstAt (test : A → Bool) (xs : List A) (i : ℕ) : Type ℓ where
    pub element : A
    pub at : get_elem? xs i ≡ some element
    pub passes : test element ≡ true
    pub before : (j : ℕ) (b : A) → j < i → get_elem? xs j ≡ some b → test b ≡ false

  FirstAt-cons :
      (test : A → Bool) (x : A) (xs : List A) (i : ℕ)
      → test x ≡ false
      → FirstAt test xs i
      → FirstAt test (x ∷ xs) (suc i)
  FirstAt-cons test x xs i f r = record {
    element = r.element;
    at = r.at;
    passes = r.passes;
    before = earlier;
  }
    where
      earlier : (j : ℕ) (b : A) → j < suc i → get_elem? (x ∷ xs) j ≡ some b → test b ≡ false
      earlier zero b lt e = ground arith
      earlier (suc j) b lt e = r.before j b (omega arith) e

  pub position-FirstAt :
      (test : A → Bool) (xs : List A) (i : ℕ) → position test xs ≡ some i → FirstAt test xs i
  unfolding position
  position-FirstAt test [] i h = absurd (ground arith)
  position-FirstAt test (x ∷ xs) i h = elim (Bool-cases (test x)) [
    | inl e ↦
        let e' : i ≡ 0 = ground arith in
        rw e'
          (record { element = x; at = refl; passes = e; before = λ j b lt. absurd (omega arith) })
    | inr e ↦ elim (Option-cases (position test xs)) [
      | inl n ↦ absurd (ground arith)
      | inr (k, s) ↦
          let e' : i ≡ suc k = ground arith in
          rw e' (FirstAt-cons test x xs k e (position-FirstAt test xs k s))
    ]
  ]

  pub position-eq-none :
      (test : A → Bool) (xs : List A) (i : ℕ) (a : A)
      → position test xs ≡ none
      → get_elem? xs i ≡ some a
      → test a ≡ false
  unfolding position
  position-eq-none test [] i a h e = absurd (ground arith)
  position-eq-none test (x ∷ xs) zero a h e = ground arith
  position-eq-none test (x ∷ xs) (suc i) a h e = position-eq-none test xs i a (ground arith) e
