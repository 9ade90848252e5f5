-- ===== src/Fat/Text.antt =====
-- ASCII text as a list of character codes, as `str` and `u8` treat it.
use iaos.Prelude.{
  ℕ, zero, suc, ◌-◌, Bool, true, false, ◌&&◌, ◌||◌, List, [], ◌∷◌, leb, ◌==◌, if◌then◌else◌, map,
}

-- `to_ascii_uppercase`
abbrev pub upper : ℕ → ℕ
upper b = if leb 97 b && leb b 122 then b - 32 else b

-- Equality of two texts, byte for byte.
abbrev pub same : List ℕ → List ℕ → Bool
same [] [] = true
same [] (y ∷ ys) = false
same (x ∷ xs) [] = false
same (x ∷ xs) (y ∷ ys) = x == y && same xs ys

-- `eq_ignore_ascii_case`
abbrev pub eq_ignore_ascii_case : List ℕ → List ℕ → Bool
eq_ignore_ascii_case xs ys = same (map upper xs) (map upper ys)

-- `is_ascii_alphanumeric`
abbrev pub is_alphanumeric : ℕ → Bool
is_alphanumeric b = (leb 48 b && leb b 57) || (leb 65 b && leb b 90) || (leb 97 b && leb b 122)

-- `split_once('.')`, with an empty second part where there is no dot.
abbrev pub split_once : List ℕ → List ℕ × List ℕ
split_once [] = ([], [])
split_once (c ∷ cs) = let (b, e) = split_once cs in if c == 46 then ([], cs) else (c ∷ b, e)

-- The first `n` values of a function.
abbrev pub tabulate : ℕ → (ℕ → ℕ) → List ℕ
tabulate zero f = []
tabulate (suc n) f = f 0 ∷ tabulate n (λ i. f (suc i))
