-- ===== src/Fat/Entries/ShortName.antt =====
-- Names in the 8.3 format read back, and an alias is new to its directory.
use iaos.Prelude.{
  ℕ, zero, suc, ◌+◌, ◌≤◌, ◌≡◌, ◌≢◌, refl, ap, ap₂, ◌∙◌, ◌⊎◌, inl, inr, false, not, ◌||◌, List, [],
  ◌∷◌, ◌++◌, arith, length, length-append, map, any, all, ◌==◌, ltb, if◌then◌else◌, Bool-cases, All,
  Result, ok, err, ok_inj,
}
use iaos.Fat.Text.{upper, same, split_once}
use iaos.Fat.Entries.{
  padded, or_underscore, clean, suffix, to_short_name, alias, alias_from, generate_short_alias,
  build_name_entries, build_lfn_entries, NameError, short_name_in_use, invalid_name,
  with_long_entries, is_valid_lfn_char, max_lfn_chars,
}

length-padded : (n : ℕ) (bs : List ℕ) → length (padded n bs) ≡ n
length-padded zero bs = refl
length-padded (suc n) [] = ap suc (length-padded n [])
length-padded (suc n) (b ∷ bs) = ap suc (length-padded n bs)

-- No space in a text.
abbrev pub NoSpaces : List ℕ → Type 0
NoSpaces bs = All (λ b. b ≢ 32) bs

short_length : (name short : List ℕ) → to_short_name name ≡ ok short → length short ≡ 11
unfolding to_short_name
short_length name short h =
    let base = (split_once name).0 in
    let ext = (split_once name).1 in
    elim (Bool-cases (length base == 0 || ltb 8 (length base) || ltb 3 (length ext))) [
      | inl bad ↦ cc (rw (bad, to_short_name) at h)
      | inr good ↦
          let stored : padded 8 (map upper base) ++ padded 3 (map upper ext) ≡ short =
            ok_inj (rw (good, to_short_name) at h) in
          rw (← stored) (
            length-append (padded 8 (map upper base)) (padded 3 (map upper ext))
            ∙ ap₂ (λ a b. a + b) (length-padded 8 (map upper base))
                (length-padded 3 (map upper ext)))
    ]

abbrev front : List ℕ → ℕ → List ℕ
front name n = or_underscore (clean 5 (split_once name).0) ++ suffix n

abbrev back : List ℕ → List ℕ
back name = clean 3 (split_once name).1

alias_from-fresh :
    (existing : List (List ℕ)) (name : List ℕ) (left n : ℕ) (short : List ℕ)
    → alias_from existing name left n ≡ ok short
    → (any (same short) existing ≡ false) × (length short ≡ 11)
unfolding alias_from alias
alias_from-fresh existing name zero n short h = cc
alias_from-fresh existing name (suc left) n short h =
    elim (Bool-cases (any (same (alias name n)) existing)) [
      | inl e ↦ alias_from-fresh existing name left (n + 1) short (rw (e, alias_from) at h)
      | inr e ↦
          let it : alias name n ≡ short = ok_inj (rw (e, alias_from) at h) in
          rw (← it) (
            e,
            length-append (padded 8 (front name n)) (padded 3 (back name))
                ∙ ap₂ (λ a b. a + b) (length-padded 8 (front name n)) (length-padded 3 (back name)),
          )
    ]

-- What is chosen for a name: 11 bytes that no entry of the directory has, and the long entries.
abbrev pub Chosen : List (List ℕ) → List ℕ → List ℕ × List (List ℕ) → Type 0
Chosen existing name r =
    (any (same r.0) existing ≡ false)
    × (length r.0 ≡ 11)
    × ((r.1 ≡ []) ⊎ ((r.1 ≡ build_lfn_entries name r.0) × (length name ≤ 195)))

-- The name of the 8.3 format.
as_short :
    (existing : List (List ℕ)) (name short : List ℕ) (r : List ℕ × List (List ℕ))
    → length short ≡ 11
    → (if any (same short) existing then err short_name_in_use else ok (short, [])) ≡ ok r
    → Chosen existing name r
as_short existing name short r eleven h = elim (Bool-cases (any (same short) existing)) [
  | inl e ↦ cc (rw e at h)
  | inr e ↦ let it : (short, []) ≡ r = ok_inj (rw e at h) in rw (← it) (e, eleven, inl refl)
]

-- The name that needs long entries.
as_long :
    (existing : List (List ℕ)) (name : List ℕ) (r : List ℕ × List (List ℕ))
    → (if length name == 0 || ltb max_lfn_chars (length name) || not (all is_valid_lfn_char name)
        then err invalid_name
        else with_long_entries name (generate_short_alias existing name))
      ≡ ok r
    → Chosen existing name r
unfolding generate_short_alias
as_long existing name r h =
    elim (Bool-cases
      (length name == 0 || ltb max_lfn_chars (length name) || not (all is_valid_lfn_char name))) [
        | inl bad ↦ cc (rw bad at h)
        | inr good ↦ by_case (generate_short_alias existing name) refl (rw good at h) (ground arith)
      ]
  where
    by_case :
        (o : Result NameError (List ℕ))
        → alias_from existing name 99 1 ≡ o
        → with_long_entries name o ≡ ok r
        → length name ≤ 195
        → Chosen existing name r
    by_case (err e) x k fits = cc
    by_case (ok short) x k fits =
        let fresh = alias_from-fresh existing name 99 1 short x in
        let it : (short, build_lfn_entries name short) ≡ r = ok_inj k in
        rw (← it) (fresh.0, fresh.1, inr (refl, fits))

-- The short name that is chosen for a name is 11 bytes that no entry of the directory has; the
-- long entries with it are none, or those built for the name, which then has at most 195
-- characters.
pub build_name_entries-Chosen :
    (existing : List (List ℕ)) (name : List ℕ) (r : List ℕ × List (List ℕ))
    → build_name_entries existing name ≡ ok r
    → Chosen existing name r
unfolding build_name_entries
build_name_entries-Chosen existing name r h = by_case (to_short_name name) refl h
  where
    by_case :
        (o : Result NameError (List ℕ))
        → to_short_name name ≡ o
        → (elim o [
          | ok short_name ↦
              if any (same short_name) existing then err short_name_in_use else ok (short_name, [])
          | err e ↦
              if length name == 0
                || ltb max_lfn_chars (length name)
                || not (all is_valid_lfn_char name)
              then err invalid_name
              else with_long_entries name (generate_short_alias existing name)
        ])
          ≡ ok r
        → Chosen existing name r
    by_case (ok short) x k = as_short existing name short r (short_length name short x) k
    by_case (err e) x k = as_long existing name r k
