-- ===== src/Scheduler/Tier/Next.antt =====
-- `select_next` ends, and picks the next task of the top tier in round-robin order.
use native.Mathlib.Nat.{mod-eq_of_lt, mod-add-mod}
use iaos.Prelude.{
  ℕ, zero, suc, ◌+◌, ◌-◌, ◌%◌, ◌≤◌, ◌<◌, ◌≡◌, ap, ◌∙◌, Bool, false, true, ◌⊎◌, inl, inr, List,
  arith, Bool-cases, some, ◌≢◌, ltb,
}
use iaos.Scheduler.Tier.{is_done, prio, top_from, u8_max, passed_over, seek, select_next}
use iaos.Scheduler.Tier.Top.{Live, IsTop, top_from-IsTop}

-- The first number that passes a test, from one that does.
record FirstFalse (test : ℕ → Bool) (bound : ℕ) : Type 0 where
  at : ℕ
  within : at ≤ bound
  false_at : test at ≡ false
  before : (d : ℕ) → d < at → test d ≡ true

first_false : (test : ℕ → Bool) (k : ℕ) → test k ≡ false → FirstFalse test k
first_false test zero h = record {
  at = 0;
  within = omega arith;
  false_at = h;
  before = λ d lt. absurd (omega arith);
}
first_false test (suc k) h = elim (Bool-cases (test 0)) [
  | inr f ↦ record {
    at = 0;
    within = omega arith;
    false_at = f;
    before = λ d lt. absurd (omega arith);
  }
  | inl t ↦ shifted t (first_false (λ d. test (suc d)) k h)
]
  where
    shifted : test 0 ≡ true → FirstFalse (λ d. test (suc d)) k → FirstFalse test (suc k)
    shifted t r = record {
      at = suc r.at;
      within = omega (arith, r.within);
      false_at = r.false_at;
      before = below;
    }
      where
        below : (d : ℕ) → d < suc r.at → test d ≡ true
        below zero lt = t
        below (suc d) lt = r.before d (omega arith)

module _ (prios : List ℕ) (done : List Bool) (n : ℕ) (pos : 0 < n) where
  -- The loop meets the slots in turn, and stops at the first that it does not pass over.
  seek-first :
      (top k fuel start : ℕ)
      → start < n
      → k < fuel
      → passed_over prios done top ((start + k) % n) ≡ false
      → ((d : ℕ) → d < k → passed_over prios done top ((start + d) % n) ≡ true)
      → seek prios done fuel n top start ≡ some ((start + k) % n)
  unfolding seek
  seek-first top k zero start lt le stop before = absurd (omega arith)
  seek-first top zero (suc fuel) start lt le stop before =
      let here : (start + 0) % n ≡ start = ap (λ t. t % n) (omega arith) ∙ mod-eq_of_lt lt in
      let stop' : passed_over prios done top start ≡ false = rw here at stop in rw (stop', here)
  seek-first top (suc k) (suc fuel) start lt le stop before =
      let here : (start + 0) % n ≡ start = ap (λ t. t % n) (omega arith) ∙ mod-eq_of_lt lt in
      let go : passed_over prios done top start ≡ true = rw here at (before 0 (omega arith)) in
      rw (go, ← next k)
        (seek-first top k fuel ((start + 1) % n) (omega arith) (omega arith) (rw (next k) stop)
          (λ d h. rw (next d) (before (suc d) (omega arith))))
    where
      next : (d : ℕ) → ((start + 1) % n + d) % n ≡ (start + suc d) % n
      next d = mod-add-mod (start + 1) n d ∙ ap (λ t. t % n) (omega arith)

  -- What the choice of `next` after `current` is.
  pub record Selected (current next : ℕ) : Type 0 where
    pub live : Live prios done n next
    pub top_tier : (j : ℕ) → Live prios done n j → prio prios done next ≤ prio prios done j
    pub distance : ℕ
    pub next_at : next ≡ (current + 1 + distance) % n
    pub within_round : distance < n
    pub skipped :
        (d : ℕ)
        → d < distance
        → (is_done prios done ((current + 1 + d) % n) ≡ true)
          ⊎ (prio prios done next < prio prios done ((current + 1 + d) % n))

  not_passed :
      (top j : ℕ)
      → passed_over prios done top j ≡ false
      → (is_done prios done j ≡ false) × (prio prios done j ≡ top)
  not_passed top j h = ground arith

  passed :
      (top j : ℕ)
      → passed_over prios done top j ≡ true
      → (is_done prios done j ≡ true) ⊎ ((is_done prios done j ≡ false) × (prio prios done j ≢ top))
  passed top j h = elim (Bool-cases (is_done prios done j)) [
    | inl e ↦ inl e
    | inr e ↦ inr (e, ground arith)
  ]

  -- How far `h` is from `start`, going round.
  round_to : (start h : ℕ) → start < n → h < n → (k : ℕ) × (k < n) × ((start + k) % n ≡ h)
  round_to start h a b = elim (Bool-cases (ltb h start)) [
    | inl e ↦ (
      h + n - start,
      ground arith,
      ap (λ t. t % n) (let e' : start + (h + n - start) ≡ h + n = ground arith in e') ∙ wrapped h b,
    )
    | inr e ↦ (
      h - start,
      ground arith,
      ap (λ t. t % n) (let e' : start + (h - start) ≡ h = ground arith in e') ∙ mod-eq_of_lt b,
    )
  ]
    where
      wrapped : (h : ℕ) → h < n → (h + n) % n ≡ h
      wrapped h b = grind arith

  module _ (current top : ℕ) (it : IsTop prios done n top) where
    Selected-at :
        (k : ℕ)
        → k < n
        → passed_over prios done top (((current + 1) % n + k) % n) ≡ false
        → ((d : ℕ) → d < k → passed_over prios done top (((current + 1) % n + d) % n) ≡ true)
        → Selected current (((current + 1) % n + k) % n)
    Selected-at k lt stop before = record {
      live = record { below = omega arith; undone = (not_passed top _ stop).0 };
      top_tier = λ j l. omega (arith, it.least j l, (not_passed top _ stop).1);
      distance = k;
      next_at = mod-add-mod (current + 1) n k;
      within_round = lt;
      skipped = λ d h.
          rw (← mod-add-mod (current + 1) n d)
            (beaten (((current + 1) % n + d) % n) (omega arith) (before d h));
    }
      where
        beaten :
            (j : ℕ)
            → j < n
            → passed_over prios done top j ≡ true
            → (is_done prios done j ≡ true)
              ⊎ (prio prios done (((current + 1) % n + k) % n) < prio prios done j)
        beaten j b h = elim (passed top j h) [
          | inl e ↦ inl e
          | inr (e, ne) ↦ inr (
              omega (
                arith,
                ne,
                it.least j (record { below = b; undone = e }),
                (not_passed top _ stop).1,
              ))
        ]

    next_exists :
        (next : ℕ) × (seek prios done n n top ((current + 1) % n) ≡ some next)
        × Selected current next
    next_exists =
        let start = (current + 1) % n in
        let (k, lt, e) = round_to start it.holder (omega arith) it.holder_live.below in
        let r =
          first_false (λ d. passed_over prios done top ((start + d) % n)) k
            (rw e (accepted it.holder it.holder_live.undone it.holder_prio)) in
        (
          (start + r.at) % n,
          seek-first top r.at n start (omega arith) (omega (arith, r.within)) r.false_at r.before,
          Selected-at r.at (omega (arith, r.within)) r.false_at r.before,
        )
      where
        accepted :
            (j : ℕ)
            → is_done prios done j ≡ false
            → prio prios done j ≡ top
            → passed_over prios done top j ≡ false
        accepted j a b = ground arith

  -- With a task that is not done among the first `active_tasks`, whose priorities are bytes,
  -- `select_next` returns within one round: a task that is not done, of the best priority among
  -- those, and the first such one after `current` in the circular order.
  pub select_next-Selected :
      (current j : ℕ)
      → Live prios done n j
      → prio prios done j ≤ u8_max
      → (next : ℕ) × (select_next prios done n current ≡ some next) × Selected current next
  unfolding select_next
  select_next-Selected current j live byte =
      next_exists current (top_from prios done n 0 u8_max) (top_from-IsTop prios done n j live byte)
