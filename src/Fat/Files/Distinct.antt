-- ===== src/Fat/Files/Distinct.antt =====
-- Distinct clusters: those of a chain, and free ones behind them.
use iaos.Prelude.{
  ℕ, zero, suc, ◌+◌, ◌≤◌, ◌<◌, ◌≢◌, ap, ◌∙◌, arith, List, [], ◌∷◌, ◌++◌, take, drop, All,
}
use iaos.Fat.Table.{entry_at}
use iaos.Fat.Table.Free.{AreFree}
use iaos.Fat.Chain.Laid.{NotIn, AreDistinct}

pub All-append : (P : ℕ → Type 0) (xs ys : List ℕ) → All P xs → All P ys → All P (xs ++ ys)
All-append P [] ys h k = k
All-append P (x ∷ xs) ys h k = (h.0, All-append P xs ys h.1 k)

pub All-take : (P : ℕ → Type 0) (n : ℕ) (xs : List ℕ) → All P xs → All P (take n xs)
All-take P zero xs h = tt
All-take P (suc n) [] h = tt
All-take P (suc n) (x ∷ xs) h = (h.0, All-take P n xs h.1)

pub All-drop : (P : ℕ → Type 0) (n : ℕ) (xs : List ℕ) → All P xs → All P (drop n xs)
All-drop P zero xs h = h
All-drop P (suc n) [] h = tt
All-drop P (suc n) (x ∷ xs) h = All-drop P n xs h.1

pub take-AreDistinct : (n : ℕ) (xs : List ℕ) → AreDistinct xs → AreDistinct (take n xs)
take-AreDistinct zero xs h = tt
take-AreDistinct (suc n) [] h = tt
take-AreDistinct (suc n) (x ∷ xs) h = (All-take (λ y. x ≢ y) n xs h.0, take-AreDistinct n xs h.1)

pub append-AreDistinct :
    (xs ys : List ℕ)
    → AreDistinct xs
    → AreDistinct ys
    → All (λ x. NotIn x ys) xs
    → AreDistinct (xs ++ ys)
append-AreDistinct [] ys h k a = k
append-AreDistinct (x ∷ xs) ys h k a =
    (All-append (λ y. x ≢ y) xs ys h.0 a.0, append-AreDistinct xs ys h.1 k a.1)

-- Ascending clusters are distinct.
pub AreFree-NotIn :
    (fat : List ℕ) (low high c : ℕ) (ys : List ℕ) → AreFree fat low high ys → c < low → NotIn c ys
AreFree-NotIn fat low high c [] h k = tt
AreFree-NotIn fat low high c (y ∷ ys) h k =
    let le = h.0 in (λ e. omega arith, AreFree-NotIn fat (y + 1) high c ys h.3 (omega arith))

pub AreFree-AreDistinct :
    (fat : List ℕ) (low high : ℕ) (ys : List ℕ) → AreFree fat low high ys → AreDistinct ys
AreFree-AreDistinct fat low high [] h = tt
AreFree-AreDistinct fat low high (y ∷ ys) h = (
  AreFree-NotIn fat (y + 1) high y ys h.3 (omega arith),
  AreFree-AreDistinct fat (y + 1) high ys h.3,
)

pub AreFree-le : (fat : List ℕ) (low high : ℕ) (ys : List ℕ) → AreFree fat low high ys → low ≤ high
AreFree-le fat low high [] h = h
AreFree-le fat low high (y ∷ ys) h =
    let le = h.0 in omega (arith, AreFree-le fat (y + 1) high ys h.3)

-- A cluster whose entry is not 0 is none of the free ones.
pub used-NotIn :
    (fat : List ℕ) (low high c : ℕ) (ys : List ℕ)
    → entry_at fat c ≢ 0
    → AreFree fat low high ys
    → NotIn c ys
used-NotIn fat low high c [] u h = tt
used-NotIn fat low high c (y ∷ ys) u h =
    (λ e. u (ap (entry_at fat) e ∙ h.1), used-NotIn fat (y + 1) high c ys u h.3)
