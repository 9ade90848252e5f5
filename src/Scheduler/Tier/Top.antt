-- ===== src/Scheduler/Tier/Top.antt =====
-- `top_from` finds the best priority of the tasks that are not done.
use iaos.Prelude.{
  ℕ, zero, suc, ◌+◌, ◌≤◌, ◌<◌, ◌≡◌, refl, Bool, false, true, ◌⊎◌, inl, inr, List, arith, Bool-cases,
  not, ◌&&◌, ltb,
}
use iaos.Scheduler.Tier.{is_done, prio, top_from, u8_max}

module _ (prios : List ℕ) (done : List Bool) where
  -- Slot `j` is the slot of a task that is not done.
  pub record Live (n j : ℕ) : Type 0 where
    pub below : j < n
    pub undone : is_done prios done j ≡ false

  -- `top` is the priority of a live task, and no live task has a better one.
  pub record IsTop (n top : ℕ) : Type 0 where
    pub holder : ℕ
    pub holder_live : Live n holder
    pub holder_prio : prio prios done holder ≡ top
    pub least : (j : ℕ) → Live n j → top ≤ prio prios done j

  record Result (left i start r : ℕ) : Type 0 where
    le_start : r ≤ start
    le_live : (j : ℕ) → i ≤ j → j < i + left → is_done prios done j ≡ false → r ≤ prio prios done j
    held :
        (r ≡ start)
        ⊎ ((j : ℕ) × (j < i + left) × (is_done prios done j ≡ false) × (prio prios done j ≡ r))

  top_from-Result : (left i start : ℕ) → Result left i start (top_from prios done left i start)
  unfolding top_from
  top_from-Result zero i start = record {
    le_start = omega arith;
    le_live = λ j a b c. absurd (omega arith);
    held = inl refl;
  }
  top_from-Result (suc left) i start =
      elim (Bool-cases (not (is_done prios done i) && ltb (prio prios done i) start)) [
        | inl t ↦ rw t (better t (top_from-Result left (suc i) (prio prios done i)))
        | inr f ↦ rw f (worse f (top_from-Result left (suc i) start))
      ]
    where
      better :
          {r : ℕ}
          → (not (is_done prios done i) && ltb (prio prios done i) start) ≡ true
          → Result left (suc i) (prio prios done i) r
          → Result (suc left) i start r
      better {r} t x = record {
        le_start = ground (arith, x.le_start);
        le_live = λ j a b c. elim (Bool-cases (ltb i j)) [
          | inl e ↦ x.le_live j (ground arith) (omega arith) c
          | inr e ↦ let same : j ≡ i = ground arith in ground (arith, x.le_start)
        ];
        held = elim x.held [
          | inl e ↦ inr (i, omega arith, ground arith, ground arith)
          | inr (j, a, b, c) ↦ inr (j, omega arith, b, c)
        ];
      }

      worse :
          {r : ℕ}
          → (not (is_done prios done i) && ltb (prio prios done i) start) ≡ false
          → Result left (suc i) start r
          → Result (suc left) i start r
      worse {r} t x = record {
        le_start = x.le_start;
        le_live = λ j a b c. elim (Bool-cases (ltb i j)) [
          | inl e ↦ x.le_live j (ground arith) (omega arith) c
          | inr e ↦ let same : j ≡ i = ground arith in ground (arith, x.le_start)
        ];
        held = elim x.held [ inl e ↦ inl e | inr (j, a, b, c) ↦ inr (j, omega arith, b, c) ];
      }

  -- With a live task and priorities of a byte, the first loop of `select_next` finds the top.
  pub top_from-IsTop :
      (n j : ℕ) → Live n j → prio prios done j ≤ u8_max → IsTop n (top_from prios done n 0 u8_max)
  top_from-IsTop n j live byte = by_result (top_from-Result n 0 u8_max)
    where
      by_result : {r : ℕ} → Result n 0 u8_max r → IsTop n r
      by_result {r} x = elim x.held [
        | inl e ↦ record {
          holder = j;
          holder_live = live;
          holder_prio =
              omega (arith, e, x.le_live j (omega arith) (omega (arith, live.below)) live.undone);
          least = λ k l. x.le_live k (omega arith) (omega (arith, l.below)) l.undone;
        }
        | inr (k, a, b, c) ↦ record {
          holder = k;
          holder_live = record { below = omega arith; undone = b };
          holder_prio = c;
          least = λ m l. x.le_live m (omega arith) (omega (arith, l.below)) l.undone;
        }
      ]
