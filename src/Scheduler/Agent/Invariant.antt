-- ===== src/Scheduler/Agent/Invariant.antt =====
-- The invariant of the process table, and that every operation keeps it.
use Prim.Native.String.{String}
use iaos.Prelude.{
  count_some, count_some-replace, count_some-le-length, ℕ, zero, suc, ◌+◌, ◌≤◌, ◌<◌, ◌%◌, ◌^◌, ◌≡◌,
  refl, ◌∙◌, ◌≢◌, Bool, Option, none, some, arith, get_elem?, set, length, length-set, get_elem?-lt,
  Option-cases, inl, inr,
}
use iaos.Scheduler.Process
use iaos.Scheduler.Process.{ProcessControlBlock, ProcessState, Priority, running}
use iaos.Scheduler.Agent
use iaos.Scheduler.Agent.{
  Slots, NativeAgentScheduler, new, max_processes, spawn, schedule_next, update_process,
  set_kv_block_id, clear_kv_block_id_if_matches, add_tokens_used, update_first, place, holds_block,
}
use iaos.Scheduler.Agent.Table.{
  Holds, AfterSet, AfterSet_lem, written, kept, Placed, place-Placed, Before_lem, Before, same,
  changed, length-update_first, count_some-update_first,
}
use iaos.Scheduler.Agent.Select.{Scheduled, ran, idle, schedule_next-Scheduled}

-- 32 slots; the pid counter is one more than the number of processes, so it never wraps; pids are
-- positive, below the counter, and distinct.
pub record IsValid (s : NativeAgentScheduler) : Type 0 where
  pub size : length s.processes ≡ max_processes
  pub counter : s.next_pid ≡ count_some s.processes + 1
  pub in_range :
      (i : ℕ) (p : ProcessControlBlock) → Holds s.processes i p → (1 ≤ p.pid) × (p.pid < s.next_pid)
  pub distinct :
      (i j : ℕ) (p q : ProcessControlBlock)
      → Holds s.processes i p
      → Holds s.processes j q
      → p.pid ≡ q.pid
      → i ≡ j

pub Holds-new : (i : ℕ) (p : ProcessControlBlock) → ¬ Holds new.processes i p
Holds-new i p h = at_most i 32 h.at
  where
    at_most : (i n : ℕ) → get_elem? (Agent.empty_slots n) i ≢ some (some p)
    at_most i zero e = cc
    at_most zero (suc n) e = cc
    at_most (suc i) (suc n) e = at_most i n e

pub new-IsValid : IsValid new
unfolding count_some
new-IsValid = record {
  size = refl;
  counter = refl;
  in_range = λ i p h. absurd (Holds-new i p h);
  distinct = λ i j p q h k e. absurd (Holds-new i p h);
}

-- At most 32 processes, so the counter is at most 33.
pub next_pid-le : {s : NativeAgentScheduler} → IsValid s → s.next_pid ≤ 33
next_pid-le {s} v = omega (arith, count_some-le-length s.processes, v.size, v.counter)

-- `spawn` on a table with room.
module _ (s : NativeAgentScheduler) (p : ProcessControlBlock) (qs : Slots)
    (fresh : p.pid ≡ s.next_pid) (v : IsValid s) (r : Placed p s.processes qs) where
  slot_lt : r.slot < length s.processes
  slot_lt = get_elem?-lt s.processes r.slot none r.was_empty

  after : (i : ℕ) (q : ProcessControlBlock) → Holds qs i q → AfterSet s.processes r.slot p i q
  after i q h = AfterSet_lem s.processes r.slot p i q slot_lt (record { at = rw (← r.result) h.at })

  in_range_after :
      (i : ℕ) (q : ProcessControlBlock) → Holds qs i q → (1 ≤ q.pid) × (q.pid < s.next_pid + 1)
  in_range_after i q h = elim (after i q h) [
    | written e x ↦ ground (arith, x, fresh, v.counter)
    | kept ne k ↦ omega (arith, v.in_range i q k)
  ]

  not_fresh : (i : ℕ) (q : ProcessControlBlock) → Holds s.processes i q → q.pid ≢ p.pid
  not_fresh i q h e = omega (arith, fresh, v.in_range i q h)

  distinct_after :
      (i j : ℕ) (q t : ProcessControlBlock) → Holds qs i q → Holds qs j t → q.pid ≡ t.pid → i ≡ j
  distinct_after i j q t h k e = cases (after i q h) (after j t k)
    where
      cases : AfterSet s.processes r.slot p i q → AfterSet s.processes r.slot p j t → i ≡ j
      cases (written a x) (written b y) = omega arith
      cases (written a x) (kept b y) = absurd (not_fresh j t y (ground (arith, x, e)))
      cases (kept a x) (written b y) = absurd (not_fresh i q x (ground (arith, y, e)))
      cases (kept a x) (kept b y) = v.distinct i j q t x y e

  placed-IsValid :
      IsValid (record { processes = qs; current_pid = s.current_pid; next_pid = s.next_pid + 1 })
  placed-IsValid = record {
    size = rw r.result (length-set s.processes r.slot (some p) ∙ v.size);
    counter = omega (arith, r.counted, v.counter);
    in_range = in_range_after;
    distinct = distinct_after;
  }

pub spawn-IsValid :
    (name : String) (priority : Priority) (quota : ℕ) (s : NativeAgentScheduler)
    → IsValid s
    → IsValid (spawn name priority quota s).0
unfolding spawn
spawn-IsValid name priority quota s v =
    let p = Process.new s.next_pid name priority quota in
    elim (Option-cases (place p s.processes)) [
      | inl e ↦ rw (e, spawn) v
      | inr (qs, e) ↦
          rw (e, spawn, unwrapped) (placed-IsValid s p qs refl v (place-Placed p s.processes qs e))
    ]
  where
    unwrapped : (s.next_pid + 1) % 2 ^ 32 ≡ s.next_pid + 1
    unwrapped = omega (arith, next_pid-le v)

-- An update that keeps the pids keeps the invariant.
module _ (test : ProcessControlBlock → Bool) (change : ProcessControlBlock → ProcessControlBlock)
    (keeps : (p : ProcessControlBlock) → (change p).pid ≡ p.pid) where
  Held : NativeAgentScheduler → ℕ → ProcessControlBlock → Type 0
  Held s i q = (p : ProcessControlBlock) × Holds s.processes i p × (p.pid ≡ q.pid)

  Held-before :
      (s : NativeAgentScheduler) (i : ℕ) (q : ProcessControlBlock)
      → Holds (update_first test change s.processes) i q
      → Held s i q
  unfolding Held
  Held-before s i q h = by_case (Before_lem test change s.processes i q h)
    where
      by_case : Before test change s.processes i q → Held s i q
      by_case (same k) = (q, k, refl)
      by_case (changed p k t e) = (p, k, rw e (rw keeps))

  pub update_first-IsValid :
      (s : NativeAgentScheduler)
      → IsValid s
      → IsValid (record {
        processes = update_first test change s.processes;
        current_pid = s.current_pid;
        next_pid = s.next_pid;
      })
  unfolding Held
  update_first-IsValid s v = record {
    size = length-update_first test change s.processes ∙ v.size;
    counter = rw (count_some-update_first test change s.processes) v.counter;
    in_range = λ i q h. let (p, k, e) = Held-before s i q h in omega (arith, e, v.in_range i p k);
    distinct = λ i j q t h k e.
        let (p, hp, ep) = Held-before s i q h in
        let (r, hr, er) = Held-before s j t k in
        v.distinct i j p r hp hr (omega (arith, ep, er, e));
  }

module _ (s : NativeAgentScheduler) (v : IsValid s) where
  pub update_process-IsValid :
      (pid : ℕ) (state : ProcessState) (sp : ℕ) → IsValid (update_process pid state sp s)
  unfolding update_process
  update_process-IsValid pid state sp = update_first-IsValid _ _ (λ p. refl) s v

  pub set_kv_block_id-IsValid : (pid block_id : ℕ) → IsValid (set_kv_block_id pid block_id s)
  unfolding set_kv_block_id
  set_kv_block_id-IsValid pid block_id = update_first-IsValid _ _ (λ p. refl) s v

  pub clear_kv_block_id-IsValid :
      (pid block_id : ℕ) → IsValid (clear_kv_block_id_if_matches pid block_id s)
  unfolding clear_kv_block_id_if_matches
  clear_kv_block_id-IsValid pid block_id = update_first-IsValid _ _ (λ p. refl) s v

  pub add_tokens_used-IsValid : (pid amount : ℕ) → IsValid (add_tokens_used pid amount s)
  unfolding add_tokens_used
  add_tokens_used-IsValid pid amount = update_first-IsValid _ _ (λ p. refl) s v

-- `schedule_next` overwrites one full slot by the same process, running.
module _ (s : NativeAgentScheduler) (v : IsValid s) (k : ℕ) (p : ProcessControlBlock)
    (chosen : Holds s.processes k p) where
  started : ProcessControlBlock
  started = record p { state = running }

  started_before :
      (i : ℕ) (q : ProcessControlBlock)
      → Holds (set s.processes k (some started)) i q
      → (t : ProcessControlBlock) × Holds s.processes i t × (t.pid ≡ q.pid)
  unfolding started
  started_before i q h =
      by_case
        (AfterSet_lem s.processes k started i q (get_elem?-lt s.processes k (some p) chosen.at) h)
    where
      by_case :
          AfterSet s.processes k started i q
          → (t : ProcessControlBlock) × Holds s.processes i t × (t.pid ≡ q.pid)
      by_case (written e x) = (p, rw e chosen, rw x)
      by_case (kept ne h') = (q, h', refl)

  started-IsValid : IsValid (record {
    processes = set s.processes k (some (record p { state = running }));
    current_pid = p.pid;
    next_pid = s.next_pid;
  })
  unfolding started
  started-IsValid = record {
    size = length-set s.processes k (some started) ∙ v.size;
    counter = rw (count_some-replace s.processes k p started chosen.at) v.counter;
    in_range = λ i q h. let (t, x, e) = started_before i q h in omega (arith, e, v.in_range i t x);
    distinct = λ i j q t h g e.
        let (q', hq, eq) = started_before i q h in
        let (t', ht, et) = started_before j t g in
        v.distinct i j q' t' hq ht (omega (arith, eq, et, e));
  }

pub schedule_next-IsValid : (s : NativeAgentScheduler) → IsValid s → IsValid (schedule_next s).0
schedule_next-IsValid s v = by_case (schedule_next s) (schedule_next-Scheduled s)
  where
    by_case : (r : NativeAgentScheduler × Option ℕ) → Scheduled s r → IsValid r.0
    by_case r (idle n e) = rw e v
    by_case r (ran k p b e) = rw e (started-IsValid s v k p (record { at = b.chosen.at }))
