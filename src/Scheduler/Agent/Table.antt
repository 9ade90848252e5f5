-- ===== src/Scheduler/Agent/Table.antt =====
-- The slots of the table: what a slot holds, and how the three ways to change the table act on it.
use iaos.Prelude.{
  ℕ, zero, suc, ◌+◌, ◌<◌, ◌≡◌, refl, ap, ◌≢◌, inl, inr, Option, none, some, [], ◌∷◌, arith, Bool,
  true, false, get_elem?, set, length, Bool-cases, ◌==◌, get_elem?-set_self, get_elem?-set_ne,
  if◌then◌else◌, count_some, Option-cases,
}
use iaos.Scheduler.Process.{ProcessControlBlock}
use iaos.Scheduler.Agent.{Slots, place, update_first}

-- Slot `i` holds the process `p`.
pub record Holds (ps : Slots) (i : ℕ) (p : ProcessControlBlock) : Type 0 where
  pub at : get_elem? ps i ≡ some (some p)

-- What a slot holds after one slot is overwritten.
pub data AfterSet (ps : Slots) (k : ℕ) (p : ProcessControlBlock) (i : ℕ) (q : ProcessControlBlock)
    : Type 0 where
  written : i ≡ k → q ≡ p → AfterSet ps k p i q
  kept : i ≢ k → Holds ps i q → AfterSet ps k p i q

pub AfterSet_lem :
    (ps : Slots) (k : ℕ) (p : ProcessControlBlock) (i : ℕ) (q : ProcessControlBlock)
    → k < length ps
    → Holds (set ps k (some p)) i q
    → AfterSet ps k p i q
AfterSet_lem ps k p i q lt h = elim (Bool-cases (i == k)) [
  | inl e ↦
      let same : i ≡ k = ground arith in
      written same (ground (arith, h.at, get_elem?-set_self ps k (some p) lt))
  | inr e ↦
      let differ : k ≢ i = ground arith in
      kept (ground arith)
        (record { at = ground (arith, h.at, get_elem?-set_ne ps k i (some p) differ) })
]

-- Where `spawn` puts a process: the first empty slot.
pub record Placed (p : ProcessControlBlock) (ps qs : Slots) : Type 0 where
  pub slot : ℕ
  pub was_empty : get_elem? ps slot ≡ some none
  pub result : qs ≡ set ps slot (some p)
  pub earlier_full : (j : ℕ) → j < slot → get_elem? ps j ≢ some none
  pub counted : count_some qs ≡ count_some ps + 1
  pub same_length : length qs ≡ length ps

Placed-cons :
    (p q : ProcessControlBlock) {ps qs : Slots}
    → Placed p ps qs
    → Placed p (some q ∷ ps) (some q ∷ qs)
unfolding count_some
Placed-cons p q {ps} r = record {
  slot = suc r.slot;
  was_empty = r.was_empty;
  result = ap (λ t. some q ∷ t) r.result;
  earlier_full = full;
  counted = omega (arith, r.counted);
  same_length = ap suc r.same_length;
}
  where
    full : (j : ℕ) → j < suc r.slot → get_elem? (some q ∷ ps) j ≢ some none
    full zero lt e = cc
    full (suc j) lt e = r.earlier_full j (omega arith) e

pub place-Placed : (p : ProcessControlBlock) (ps qs : Slots) → place p ps ≡ some qs → Placed p ps qs
unfolding place count_some
place-Placed p [] qs h = cc
place-Placed p (none ∷ ps) qs h = record {
  slot = 0;
  was_empty = refl;
  result = ground arith;
  earlier_full = λ j lt. absurd (omega arith);
  counted = ground arith;
  same_length = ground arith;
}
place-Placed p (some q ∷ ps) qs h = elim (Option-cases (place p ps)) [
  | inl e ↦ cc
  | inr (rs, e) ↦
      let e' : qs ≡ some q ∷ rs = ground arith in rw e' (Placed-cons p q (place-Placed p ps rs e))
]

-- `spawn` finds no slot exactly when every slot is full.
pub place-none :
    (p : ProcessControlBlock) (ps : Slots) → place p ps ≡ none → count_some ps ≡ length ps
unfolding place count_some
place-none p [] h = refl
place-none p (none ∷ ps) h = cc
place-none p (some q ∷ ps) h = ap suc (place-none p ps (ground arith))

-- `update_first` keeps the slots that are full, and what the change keeps.
module _ (test : ProcessControlBlock → Bool)
    (change : ProcessControlBlock → ProcessControlBlock) where
  pub length-update_first : (ps : Slots) → length (update_first test change ps) ≡ length ps
  unfolding update_first
  length-update_first [] = refl
  length-update_first (none ∷ ps) = ap suc (length-update_first ps)
  length-update_first (some p ∷ ps) = ground (arith, length-update_first ps)

  pub count_some-update_first :
      (ps : Slots) → count_some (update_first test change ps) ≡ count_some ps
  unfolding update_first count_some
  count_some-update_first [] = refl
  count_some-update_first (none ∷ ps) = count_some-update_first ps
  count_some-update_first (some p ∷ ps) = ground (arith, count_some-update_first ps)

  -- A process after the update was in its slot before, changed or not.
  pub data Before (ps : Slots) (i : ℕ) (q : ProcessControlBlock) : Type 0 where
    same : Holds ps i q → Before ps i q
    changed :
        (p : ProcessControlBlock) → Holds ps i p → test p ≡ true → q ≡ change p → Before ps i q

  Before-cons :
      (o : Option ProcessControlBlock) (ps : Slots) (i : ℕ) (q : ProcessControlBlock)
      → Before ps i q
      → Before (o ∷ ps) (suc i) q
  Before-cons o ps i q (same h) = same (record { at = h.at })
  Before-cons o ps i q (changed p h t e) = changed p (record { at = h.at }) t e

  -- The head, changed if the test holds, before the rest.
  Before-head :
      (b : Bool) (p : ProcessControlBlock) (ps : Slots) (i : ℕ) (q : ProcessControlBlock)
      → test p ≡ b
      → ((j : ℕ) → Holds (update_first test change ps) j q → Before ps j q)
      → Holds (if b then some (change p) ∷ ps else some p ∷ update_first test change ps) i q
      → Before (some p ∷ ps) i q
  Before-head true p ps zero q e rest h = changed p (record { at = refl }) e (ground (arith, h.at))
  Before-head true p ps (suc i) q e rest h = same (record { at = h.at })
  Before-head false p ps zero q e rest h = same (record { at = h.at })
  Before-head false p ps (suc i) q e rest h =
      Before-cons (some p) ps i q (rest i (record { at = h.at }))

  pub Before_lem :
      (ps : Slots) (i : ℕ) (q : ProcessControlBlock)
      → Holds (update_first test change ps) i q
      → Before ps i q
  unfolding update_first
  Before_lem [] i q h = same (record { at = h.at })
  Before_lem (none ∷ ps) zero q h = same (record { at = h.at })
  Before_lem (none ∷ ps) (suc i) q h =
      Before-cons none ps i q (Before_lem ps i q (record { at = h.at }))
  Before_lem (some p ∷ ps) i q h = Before-head (test p) p ps i q refl (λ j. Before_lem ps j q) h

  -- Where only slot `i` passes the test, slot `i` is the one that changes.
  pub update_first_unique :
      (ps : Slots) (i : ℕ) (p : ProcessControlBlock)
      → Holds ps i p
      → test p ≡ true
      → ((j : ℕ) (q : ProcessControlBlock) → Holds ps j q → test q ≡ true → j ≡ i)
      → Holds (update_first test change ps) i (change p)
  unfolding update_first
  update_first_unique [] i p h t u = absurd (ground (arith, h.at))
  update_first_unique (none ∷ ps) zero p h t u = absurd (ground (arith, h.at))
  update_first_unique (none ∷ ps) (suc i) p h t u = record {
    at =
        (update_first_unique ps i p (record { at = h.at }) t
          (λ j q k e. omega (arith, u (suc j) q (record { at = k.at }) e))).at;
  }
  update_first_unique (some r ∷ ps) zero p h t u =
      let same : r ≡ p = ground (arith, h.at) in record { at = rw same (rw t) }
  update_first_unique (some r ∷ ps) (suc i) p h t u = elim (Bool-cases (test r)) [
    | inl e ↦ absurd (omega (arith, u 0 r (record { at = refl }) e))
    | inr e ↦ record {
      at =
          rw e
            (update_first_unique ps i p (record { at = h.at }) t
              (λ j q k x. omega (arith, u (suc j) q (record { at = k.at }) x))).at;
    }
  ]
