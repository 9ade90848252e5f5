-- ===== src/Scheduler/Preempt/Run.antt =====
-- The run of the ticks of a demonstration, to its end.
use iaos.Prelude.{
  ℕ, ◌-◌, ◌<◌, ◌≡◌, refl, ap, ◌∙◌, arith, Bool, true, false, not, Option, none, List, [], ◌∷◌,
  length, ◌==◌,
}
use iaos.Scheduler.Agent.{NativeAgentScheduler}
use iaos.Scheduler.Preempt.{Preemption, counted, next_task, tick}
use iaos.Scheduler.Preempt.Stops.{Parks, tick-Ticked, park}

-- Ticks that interrupt the kernel: whether the table's lock is free, and the stack pointer.
unfoldable pub run_ticks :
    List (Bool × ℕ) → Preemption → NativeAgentScheduler → ℕ → Preemption × NativeAgentScheduler × ℕ
run_ticks [] st sched rsp = (st, sched, rsp)
run_ticks (event ∷ events) st sched rsp =
    let (st', sched', rsp') = tick false event.0 event.1 st sched in
    run_ticks events st' sched' rsp'

-- Preemption is off, and the idle context is the current one.
pub record IsStopped (st : Preemption) : Type 0 where
  pub off : st.enabled ≡ false
  pub idle : st.current ≡ none

run_ticks-cons :
    (event : Bool × ℕ) (events : List (Bool × ℕ)) (st st' : Preemption)
    (sched sched' : NativeAgentScheduler) (rsp rsp' : ℕ)
    → tick false event.0 event.1 st sched ≡ (st', sched', rsp')
    → run_ticks (event ∷ events) st sched rsp ≡ run_ticks events st' sched' rsp'
unfolding run_ticks
run_ticks-cons event events st st' sched sched' rsp rsp' h =
    ap (λ r. run_ticks events r.0 r.1 r.2) h

-- No tick is left: nothing but the idle context is chosen.
next_task-last : (st : Preemption) → st.ticks_remaining - 1 ≡ 0 → next_task (counted st) ≡ none
unfolding next_task
next_task-last st h = let t : (st.ticks_remaining - 1 == 0) ≡ true = ground arith in rw t refl

ended :
    (st : Preemption) (sched : NativeAgentScheduler) (rsp : ℕ)
    → st.enabled ≡ false
    → st.current ≡ none
    → IsStopped (run_ticks [] st sched rsp).0
unfolding run_ticks
ended st sched rsp off idle = record { off = off; idle = idle }

-- From any two tasks, with preemption on and ticks remaining, that many ticks of the kernel end
-- it: preemption is off, and the idle context runs.
pub run_ticks-IsStopped :
    (events : List (Bool × ℕ)) (parked : Option ℕ → ℕ) (st : Preemption)
    (sched : NativeAgentScheduler) (rsp : ℕ)
    → Parks parked st
    → st.enabled ≡ true
    → 0 < st.ticks_remaining
    → length events ≡ st.ticks_remaining
    → IsStopped (run_ticks events st sched rsp).0
run_ticks-IsStopped [] parked st sched rsp p on left size = absurd (omega arith)
run_ticks-IsStopped (event ∷ []) parked st sched rsp p on left size =
    let t = tick-Ticked parked st event.0 event.1 sched p on in
    let last : st.ticks_remaining - 1 ≡ 0 = omega arith in
    let off : not (t.st'.ticks_remaining == 0) ≡ false =
      ap (λ r. not (r == 0)) (t.remaining ∙ last) in
    rw
      (run_ticks-cons event [] st t.st' sched t.sched' rsp
        (park parked st.current event.1 t.st'.current) t.returned)
      (ended t.st' t.sched' (park parked st.current event.1 t.st'.current) (t.enabled ∙ off)
        (t.chosen ∙ next_task-last st last))
run_ticks-IsStopped (event ∷ later ∷ events) parked st sched rsp p on left size =
    let t = tick-Ticked parked st event.0 event.1 sched p on in
    let more : (t.st'.ticks_remaining == 0) ≡ false = let r = t.remaining in ground arith in
    rw
      (run_ticks-cons event (later ∷ events) st t.st' sched t.sched' rsp
        (park parked st.current event.1 t.st'.current) t.returned)
      (run_ticks-IsStopped (later ∷ events) (park parked st.current event.1) t.st' t.sched'
        (park parked st.current event.1 t.st'.current) t.parks (t.enabled ∙ ap not more)
        (omega (arith, t.remaining)) (omega (arith, t.remaining)))
