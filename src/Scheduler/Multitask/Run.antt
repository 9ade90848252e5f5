-- ===== src/Scheduler/Multitask/Run.antt =====
-- Any sequence of interrupts hands the processor the contexts that the scheduler without memory hands it.
use mathlib.Core.Option
use iaos.Prelude.{
  ℕ, ◌<◌, ◌≡◌, ◌≢◌, refl, sym, ap, ◌∙◌, Option, none, some, List, [], ◌∷◌, length, get_or,
}
use iaos.Scheduler.Tier.{TaskSlots}
use iaos.Scheduler.RawMemory.{Memory, AreApart}
use iaos.Scheduler.Multitask.{Multitasking}
use iaos.Scheduler.Multitask.Refines.{
  Tasks, Event, timer, retires, step, handle, IsRunning, IsAllowed, Simulated, handle-Simulated,
}

-- The contexts handed to the processor.
unfoldable pub run : Multitasking → Memory → List Event → Option (List (List ℕ))
run st memory [] = some []
run st memory (event ∷ events) = elim (handle st memory event) [
  | none ↦ none
  | some (st', memory', context) ↦ Option.map (λ cs. context ∷ cs) (run st' memory' events)
]

module _ (prios : List ℕ) (n : ℕ) where
  unfoldable pub run_tasks : Tasks → List Event → Option (List (List ℕ))
  run_tasks t [] = some []
  run_tasks t (event ∷ events) = elim (step prios n t event) [
    | none ↦ none
    | some (t', context) ↦ Option.map (λ cs. context ∷ cs) (run_tasks t' events)
  ]

  -- Only tasks other than task 0 retire.
  abbrev pub TaskRetires : Tasks → Event → Type 0
  TaskRetires t (timer ctx ptr) = Unit
  TaskRetires t (retires ctx ptr) = Tasks.current t ≢ 0

  abbrev pub AreAllowed : Tasks → List Event → Type 0
  AreAllowed t [] = Unit
  AreAllowed t (event ∷ events) =
      TaskRetires t event
      × elim (step prios n t event) [ none ↦ Unit | some (t', context) ↦ AreAllowed t' events ]

-- The processor leaves every context, of 160 bytes, where it overlaps no buffer.
abbrev pub AreOutside : List ℕ → ℕ → List Event → Type 0
AreOutside slots n [] = Unit
AreOutside slots n (timer ctx ptr ∷ events) =
    (length ctx ≡ 160)
    × ((i : ℕ) → i < n → AreApart ptr (get_or slots i 0))
    × AreOutside slots n events
AreOutside slots n (retires ctx ptr ∷ events) =
    (length ctx ≡ 160)
    × ((i : ℕ) → i < n → AreApart ptr (get_or slots i 0))
    × AreOutside slots n events

-- A statement that two runs return, and return the same.
pub record Agree (a b : Option (List (List ℕ))) : Type 0 where
  pub contexts : List (List ℕ)
  pub concrete : a ≡ some contexts
  pub abstract_run : b ≡ some contexts

event-IsAllowed :
    (prios slots : List ℕ) (n : ℕ) (t : Tasks) (st : Multitasking) (event : Event)
    (events : List Event)
    → TaskSlots.slots st.tasks ≡ slots
    → st.active_tasks ≡ n
    → t.current ≡ st.current
    → TaskRetires prios n t event
    → AreOutside slots n (event ∷ events)
    → IsAllowed st event
event-IsAllowed prios slots n t st (timer ctx ptr) events es en here a o =
    (o.0, λ i lt. rw es (o.1 i (rw en at lt)))
event-IsAllowed prios slots n t st (retires ctx ptr) events es en here a o =
    (o.0, λ i lt. rw es (o.1 i (rw en at lt)), rw here at a)

later_outside :
    (slots : List ℕ) (n : ℕ) (event : Event) (events : List Event)
    → AreOutside slots n (event ∷ events)
    → AreOutside slots n events
later_outside slots n (timer ctx ptr) events o = o.2
later_outside slots n (retires ctx ptr) events o = o.2

-- One event more in front.
Agree-cons :
    (prios : List ℕ) (n : ℕ) (t : Tasks) (st : Multitasking) (memory : Memory) (event : Event)
    (events : List Event)
    → (s : Simulated t st memory event) → step prios n t event ≡ some (s.t', s.context)
    → Agree (run s.st' s.memory' events) (run_tasks prios n s.t' events)
    → Agree (run st memory (event ∷ events)) (run_tasks prios n t (event ∷ events))
unfolding run run_tasks
Agree-cons prios n t st memory event events s stepped next = record {
  contexts = s.context ∷ next.contexts;
  concrete = rw (s.concrete, run, next.concrete) refl;
  abstract_run = rw (stepped, run_tasks, next.abstract_run) refl;
}

stepped :
    (prios : List ℕ) (n : ℕ) (t : Tasks) (st : Multitasking) (memory : Memory) (event : Event)
    → TaskSlots.priorities st.tasks ≡ prios
    → st.active_tasks ≡ n
    → (s : Simulated t st memory event) → step prios n t event ≡ some (s.t', s.context)
stepped prios n t st memory event ep en s =
    ap (λ p. step p n t event) (sym ep)
    ∙ ap (λ m. step (TaskSlots.priorities st.tasks) m t event) (sym en)
    ∙ s.abstract_step

-- From a running scheduler whose buffers of 160 bytes do not overlap, whatever sequence of timer interrupts and
-- retirements comes, with the contexts of 160 bytes left where they overlap no buffer and task 0 never retiring: each
-- handler returns, and the contexts handed to the processor are those that a scheduler without
-- memory hands it, which keeps a context for each task.
pub run-run_tasks :
    (prios slots : List ℕ) (n : ℕ) (t : Tasks) (st : Multitasking) (memory : Memory)
    (events : List Event)
    → TaskSlots.priorities st.tasks ≡ prios
    → TaskSlots.slots st.tasks ≡ slots
    → st.active_tasks ≡ n
    → IsRunning t st memory
    → AreAllowed prios n t events
    → AreOutside slots n events
    → Agree (run st memory events) (run_tasks prios n t events)
unfolding run run_tasks
run-run_tasks prios slots n t st memory [] ep es en r a o = record {
  contexts = [];
  concrete = refl;
  abstract_run = refl;
}
run-run_tasks prios slots n t st memory (event ∷ events) ep es en r a o =
    let s =
      handle-Simulated t st memory event r
        (event-IsAllowed prios slots n t st event events es en r.here a.0 o) in
    let q = stepped prios n t st memory event ep en s in
    Agree-cons prios n t st memory event events s q (
      run-run_tasks prios slots n s.t' s.st' s.memory' events (s.same.priorities ∙ ep)
        (s.same.slots ∙ es) (s.same.active ∙ en) s.running (rw q at a.1)
        (later_outside slots n event events o))
