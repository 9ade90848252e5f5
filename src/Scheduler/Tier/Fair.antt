-- ===== src/Scheduler/Tier/Fair.antt =====
-- No task of the top tier starves: the choice comes round to it.
use native.Mathlib.Nat.{mod-eq_of_lt, mod-add-mod, add-mod_right}
use iaos.Prelude.{
  ℕ, zero, suc, ◌+◌, ◌-◌, ◌%◌, ◌≤◌, ◌<◌, ◌≡◌, refl, sym, ap, ◌∙◌, Bool, true, inl, inr, List, [],
  ◌∷◌, any, ◌==◌, leb, ltb, arith, Bool-cases, none, some,
}
use iaos.Scheduler.Tier.{is_done, prio, u8_max, select_next}
use iaos.Scheduler.Tier.Top.{Live}
use iaos.Scheduler.Tier.Next.{Selected, select_next-Selected}

module _ (prios : List ℕ) (done : List Bool) (n : ℕ) where
  -- The tasks chosen one after the other.
  unfoldable pub choices : ℕ → ℕ → List ℕ
  choices zero current = []
  choices (suc count) current = elim (select_next prios done n current) [
    | none ↦ []
    | some next ↦ next ∷ choices count next
  ]

  module _ (positive : 0 < n) (j : ℕ) (live : Live prios done n j)
      (byte : prio prios done j ≤ u8_max)
      (top : (i : ℕ) → Live prios done n i → prio prios done j ≤ prio prios done i) where
    choices-step :
        (count current next : ℕ)
        → select_next prios done n current ≡ some next
        → choices (suc count) current ≡ next ∷ choices count next
    unfolding choices
    choices-step count current next h = rw (h, choices) refl

    -- The task chosen is not behind `j` in the round.
    not_past :
        (current next gap : ℕ)
        → (s : Selected prios done n positive current next) → j ≡ (current + 1 + gap) % n
        → s.distance ≤ gap
    not_past current next gap s here = elim (Bool-cases (leb s.distance gap)) [
      | inl e ↦ ground arith
      | inr e ↦
          let lt : gap < s.distance = ground arith in
          let least = top next s.live in
          let undone = live.undone in
          elim (s.skipped gap lt) [
            | inl d ↦ absurd (cc (sym undone ∙ ap (is_done prios done) here ∙ d))
            | inr d ↦
                let q : prio prios done next < prio prios done j = rw (← here) at d in
                absurd (omega arith)
          ]
    ]

    any-here : (x : ℕ) (xs : List ℕ) → x ≡ j → any (λ i. i == j) (x ∷ xs) ≡ true
    any-here x xs e = let t : (x == j) ≡ true = ground arith in rw (t, any) refl

    any-later :
        (x : ℕ) (xs : List ℕ) → any (λ i. i == j) xs ≡ true → any (λ i. i == j) (x ∷ xs) ≡ true
    any-later x xs h = elim (Bool-cases (x == j)) [
      | inl e ↦ rw (e, any) refl
      | inr e ↦ rw (e, any) h
    ]

    within_gap :
        (fuel gap count current : ℕ)
        → gap < fuel
        → fuel ≤ count
        → j ≡ (current + 1 + gap) % n
        → any (λ i. i == j) (choices count current) ≡ true
    within_gap zero gap count current h k here = absurd (omega arith)
    within_gap (suc fuel) gap zero current h k here = absurd (omega arith)
    within_gap (suc fuel) gap (suc count) current h k here =
        let (next, chosen, s) = select_next-Selected prios done n positive current j live byte in
        let near = not_past current next gap s here in
        rw (choices-step count current next chosen) (elim (Bool-cases (s.distance == gap)) [
          | inl e ↦
              let q : s.distance ≡ gap = ground arith in
              any-here next (choices count next)
                (s.next_at ∙ ap (λ d. (current + 1 + d) % n) q ∙ sym here)
          | inr e ↦
              let less : s.distance < gap = ground arith in
              let rest = gap - s.distance - 1 in
              let sum : current + 1 + s.distance + (1 + rest) ≡ current + 1 + gap = omega arith in
              let order : next + 1 + rest ≡ next + (1 + rest) = omega arith in
              let there : j ≡ (next + 1 + rest) % n =
                here
                ∙ ap (λ t. t % n) (sym sum)
                ∙ sym (mod-add-mod (current + 1 + s.distance) n (1 + rest))
                ∙ ap (λ t. (t + (1 + rest)) % n) (sym s.next_at)
                ∙ ap (λ t. t % n) (sym order) in
              any-later next (choices count next)
                (within_gap fuel rest count next (omega arith) (omega arith) there)
        ])

    -- A live task whose priority, at most 255, is the best among the live ones is chosen
    -- within one round of choices, from any current task, while neither priorities nor the
    -- tasks that are done change.
    pub choices-any : (current : ℕ) → current < n → any (λ i. i == j) (choices n current) ≡ true
    choices-any current lt =
        let below = live.below in
        elim (Bool-cases (ltb current j)) [
          | inl e ↦
              let gap = j - current - 1 in
              let sum : current + 1 + gap ≡ j = ground arith in
              within_gap n gap n current (ground arith) (omega arith)
                (sym (ap (λ t. t % n) sum ∙ mod-eq_of_lt below))
          | inr e ↦
              let gap = j + n - current - 1 in
              let sum : current + 1 + gap ≡ j + n = ground arith in
              within_gap n gap n current (ground arith) (omega arith)
                (sym (ap (λ t. t % n) sum ∙ add-mod_right j n ∙ mod-eq_of_lt below))
        ]
