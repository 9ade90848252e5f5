-- ===== src/Scheduler/Agent/Select.antt =====
-- `schedule_next` runs the first process of the best priority among those that are ready.
use iaos.Prelude.{
  ℕ, zero, suc, ◌+◌, ◌≤◌, ◌<◌, ◌≡◌, refl, true, inl, inr, Option, none, some, [], ◌∷◌, arith,
  get_elem?, set, Bool-cases, ltb, ◌&&◌,
}
use iaos.Scheduler.Process.{ProcessControlBlock, ready, running, as_u8, is_ready}
use iaos.Scheduler.Agent.{Slots, NativeAgentScheduler, scan, run_at, schedule_next}

-- Slot `i` holds the ready process `q`.
pub record ReadyAt (ps : Slots) (i : ℕ) (q : ProcessControlBlock) : Type 0 where
  pub at : get_elem? ps i ≡ some (some q)
  pub is_ready : q.state ≡ ready

-- Slot `i` holds `p`, which is ready; no ready process has a better priority, and no earlier one
-- an equal one.
pub record IsBest (ps : Slots) (i : ℕ) (p : ProcessControlBlock) : Type 0 where
  pub chosen : ReadyAt ps i p
  pub least :
      (j : ℕ) (q : ProcessControlBlock) → ReadyAt ps j q → as_u8 p.priority ≤ as_u8 q.priority
  pub first :
      (j : ℕ) (q : ProcessControlBlock)
      → ReadyAt ps j q
      → j < i
      → as_u8 p.priority < as_u8 q.priority

abbrev NoneBelow : ℕ → Slots → Type 0
NoneBelow h ps = (j : ℕ) (q : ProcessControlBlock) → ReadyAt ps j q → h ≤ as_u8 q.priority

-- What the scan returns from slot `idx` on: the best so far if nothing beats `h`, else the best
-- process of the rest.
data Scanned (idx h : ℕ) (best : Option ℕ) (ps : Slots) (result : Option ℕ) : Type 0 where
  kept : result ≡ best → NoneBelow h ps → Scanned idx h best ps result
  found :
      (k : ℕ) (p : ProcessControlBlock)
      → result ≡ some (idx + k)
      → as_u8 p.priority < h
      → IsBest ps k p
      → Scanned idx h best ps result

ReadyAt-nil : (j : ℕ) (q : ProcessControlBlock) → ¬ ReadyAt [] j q
ReadyAt-nil j q r = ground (arith, r.at)

ReadyAt-tail :
    (o : Option ProcessControlBlock) (ps : Slots) (j : ℕ) (q : ProcessControlBlock)
    → ReadyAt ps j q
    → ReadyAt (o ∷ ps) (suc j) q
ReadyAt-tail o ps j q r = record { at = r.at; is_ready = r.is_ready }

NoneBelow-cons :
    (h : ℕ) (o : Option ProcessControlBlock) (ps : Slots)
    → ((q : ProcessControlBlock) → ReadyAt (o ∷ ps) 0 q → h ≤ as_u8 q.priority)
    → NoneBelow h ps
    → NoneBelow h (o ∷ ps)
NoneBelow-cons h o ps head rest zero q r = head q r
NoneBelow-cons h o ps head rest (suc j) q r = rest j q (record { at = r.at; is_ready = r.is_ready })

-- The best of the rest stays the best behind a slot that does not beat it.
IsBest-cons :
    (o : Option ProcessControlBlock) (ps : Slots) (k : ℕ) (p : ProcessControlBlock)
    → ((q : ProcessControlBlock) → ReadyAt (o ∷ ps) 0 q → as_u8 p.priority < as_u8 q.priority)
    → IsBest ps k p
    → IsBest (o ∷ ps) (suc k) p
IsBest-cons o ps k p head b = record {
  chosen = ReadyAt-tail o ps k p b.chosen;
  least = NoneBelow-cons (as_u8 p.priority) o ps (λ q r. omega (arith, head q r)) b.least;
  first = before;
}
  where
    before :
        (j : ℕ) (q : ProcessControlBlock)
        → ReadyAt (o ∷ ps) j q
        → j < suc k
        → as_u8 p.priority < as_u8 q.priority
    before zero q r lt = head q r
    before (suc j) q r lt = b.first j q (record { at = r.at; is_ready = r.is_ready }) (omega arith)

-- The head is the best when nothing behind it is better.
IsBest-head :
    (p : ProcessControlBlock) (ps : Slots)
    → p.state ≡ ready
    → NoneBelow (as_u8 p.priority) ps
    → IsBest (some p ∷ ps) 0 p
IsBest-head p ps rd rest = record {
  chosen = record { at = refl; is_ready = rd };
  least = NoneBelow-cons (as_u8 p.priority) (some p) ps (λ q r. ground (arith, r.at)) rest;
  first = λ j q r lt. absurd (omega arith);
}

is_ready_lem : (p : ProcessControlBlock) → is_ready p.state ≡ true → p.state ≡ ready
is_ready_lem p h = ground arith

Scanned-skip :
    (idx h : ℕ) (best : Option ℕ) (o : Option ProcessControlBlock) (ps : Slots) {r : Option ℕ}
    → ((q : ProcessControlBlock) → ReadyAt (o ∷ ps) 0 q → h ≤ as_u8 q.priority)
    → Scanned (suc idx) h best ps r
    → Scanned idx h best (o ∷ ps) r
Scanned-skip idx h best o ps head (kept e n) = kept e (NoneBelow-cons h o ps head n)
Scanned-skip idx h best o ps head (found k p e lt b) =
    found (suc k) p (ground arith) lt (IsBest-cons o ps k p (λ q r. omega (arith, head q r)) b)

Scanned-take :
    (idx h : ℕ) (best : Option ℕ) (p : ProcessControlBlock) (ps : Slots) {r : Option ℕ}
    → p.state ≡ ready
    → as_u8 p.priority < h
    → Scanned (suc idx) (as_u8 p.priority) (some idx) ps r
    → Scanned idx h best (some p ∷ ps) r
Scanned-take idx h best p ps rd lt (kept e n) = found 0 p (ground arith) lt (IsBest-head p ps rd n)
Scanned-take idx h best p ps rd lt (found k q e lt' b) =
    found (suc k) q (ground arith) (omega arith)
      (IsBest-cons (some p) ps k q (λ x r. ground (arith, r.at)) b)

scan-Scanned :
    (idx h : ℕ) (best : Option ℕ) (ps : Slots) → Scanned idx h best ps (scan idx h best ps)
unfolding scan
scan-Scanned idx h best [] = kept refl (λ j q r. absurd (ReadyAt-nil j q r))
scan-Scanned idx h best (none ∷ ps) =
    Scanned-skip idx h best none ps (λ q r. ground (arith, r.at)) (scan-Scanned (suc idx) h best ps)
scan-Scanned idx h best (some p ∷ ps) =
    elim (Bool-cases (is_ready p.state && ltb (as_u8 p.priority) h)) [
      | inl yes_better ↦ rw yes_better (
          Scanned-take idx h best p ps (ground arith) (ground arith)
            (scan-Scanned (suc idx) (as_u8 p.priority) (some idx) ps))
      | inr not_better ↦ rw not_better (
          Scanned-skip idx h best (some p) ps (λ q r. ground (arith, r.at, r.is_ready))
            (scan-Scanned (suc idx) h best ps))
    ]

-- What `schedule_next` does: it runs the best ready process, or finds none ready and changes
-- nothing.
pub data Scheduled (s : NativeAgentScheduler) (result : NativeAgentScheduler × Option ℕ)
    : Type 0 where
  ran :
      (i : ℕ) (p : ProcessControlBlock)
      → IsBest s.processes i p
      → result ≡ (
        record {
          processes = set s.processes i (some (record p { state = running }));
          current_pid = p.pid;
          next_pid = s.next_pid;
        },
        some p.pid,
      )
      → Scheduled s result
  idle :
      ((j : ℕ) (q : ProcessControlBlock) → ¬ ReadyAt s.processes j q)
      → result ≡ (s, none)
      → Scheduled s result

as_u8-lt : (p : ProcessControlBlock) → as_u8 p.priority < 99
as_u8-lt p = ground arith

-- From every table, `schedule_next` either marks running, and returns, the first process of the
-- best priority among the ready ones and changes no other slot, or no process is ready and it
-- returns nothing and changes nothing.
pub schedule_next-Scheduled : (s : NativeAgentScheduler) → Scheduled s (schedule_next s)
unfolding schedule_next
schedule_next-Scheduled s =
    by_scan (scan 0 99 none s.processes) (scan-Scanned 0 99 none s.processes)
  where
    by_scan :
        (r : Option ℕ)
        → Scanned 0 99 none s.processes r
        → Scheduled s
            (elim r [ none ↦ (s, none) | some idx ↦ run_at idx (get_elem? s.processes idx) s ])
    by_scan r (kept e n) = idle (λ j q t. absurd (omega (arith, n j q t, as_u8-lt q))) (rw e)
    by_scan r (found k p e lt b) =
        let e' : r ≡ some k = ground arith in ran k p b (rw e' (rw (b.chosen.at)))
