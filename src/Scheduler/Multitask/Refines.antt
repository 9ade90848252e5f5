-- ===== src/Scheduler/Multitask/Refines.antt =====
-- The scheduler with its buffers does what one does that keeps a context for each task.
use iaos.Prelude.{
  ℕ, ◌+◌, ◌≤◌, ◌<◌, ◌≡◌, ◌≢◌, refl, sym, ◌∙◌, inl, inr, arith, Bool, true, false, Bool-cases,
  Option, none, some, List, length, if◌then◌else◌, set, get_or-set_ne, ◌==◌,
}
use iaos.Scheduler.RawMemory.{
  Memory, write, read, AreApart, read-parked, read-parked_apart, read-write_apart, read-write_same,
}
use iaos.Scheduler.Tier.{TaskSlots, select_next, is_done, prio, u8_max}
use iaos.Scheduler.Tier.Top.{Live}
use iaos.Scheduler.Tier.Next.{select_next-Selected}
use iaos.Scheduler.Multitask.{Multitasking, slot_at, park, tick, task_done}

-- A scheduler without memory: the context that each task was last parked with.
pub record Tasks : Type 0 where
  pub parked : ℕ → List ℕ
  pub current : ℕ
  pub done : List Bool

-- What interrupts the current task, with its context and where the processor leaves it.
pub data Event : Type 0 where
  timer : List ℕ → ℕ → Event
  retires : List ℕ → ℕ → Event

abbrev place : Event → ℕ
place (timer ctx ptr) = ptr
place (retires ctx ptr) = ptr

-- The contexts, with a new one for one task.
abbrev parked_with : (ℕ → List ℕ) → ℕ → List ℕ → ℕ → List ℕ
parked_with parked task ctx i = if i == task then ctx else parked i

module _ (prios : List ℕ) (n : ℕ) where
  abbrev pub resume : (ℕ → List ℕ) → List Bool → Option ℕ → Option (Tasks × List ℕ)
  resume parked done none = none
  resume parked done (some next) =
      some (record { parked = parked; current = next; done = done }, parked next)

  -- The task is parked, and another one is resumed with the context it was parked with.
  abbrev pub step : Tasks → Event → Option (Tasks × List ℕ)
  step t (timer ctx ptr) =
      resume (parked_with t.parked t.current ctx) t.done (select_next prios t.done n t.current)
  step t (retires ctx ptr) =
      resume (parked_with t.parked t.current ctx) (set t.done t.current true)
        (select_next prios (set t.done t.current true) n t.current)

-- The handler of an event, and the context at the address that it returns.
abbrev pub returned : Option (Multitasking × Memory × ℕ) → Option (Multitasking × Memory × List ℕ)
returned none = none
returned (some (st, memory, ptr)) = some (st, memory, read 160 memory ptr)

abbrev pub handle : Multitasking → Memory → Event → Option (Multitasking × Memory × List ℕ)
handle st memory (timer ctx ptr) = returned (tick st (write memory ptr ctx) ptr)
handle st memory (retires ctx ptr) = returned (task_done st (write memory ptr ctx) ptr)

-- The buffers do not overlap, and hold what the tasks that do not run were parked with.
pub record IsRunning (t : Tasks) (st : Multitasking) (memory : Memory) : Type 0 where
  pub enabled : st.enabled ≡ true
  pub here : t.current ≡ st.current
  pub below : st.current < st.active_tasks
  pub dones : t.done ≡ TaskSlots.done st.tasks
  pub apart :
      (i j : ℕ)
      → i < st.active_tasks
      → j < st.active_tasks
      → i ≢ j
      → AreApart (slot_at st i) (slot_at st j)
  pub holds :
      (i : ℕ) → i < st.active_tasks → i ≢ st.current → read 160 memory (slot_at st i) ≡ t.parked i
  pub first : Live (TaskSlots.priorities st.tasks) (TaskSlots.done st.tasks) st.active_tasks 0
  pub priority : prio (TaskSlots.priorities st.tasks) (TaskSlots.done st.tasks) 0 ≤ u8_max

-- The processor leaves a context outside the buffers.
abbrev pub Outside : Multitasking → ℕ → Type 0
Outside st ptr = (i : ℕ) → i < st.active_tasks → AreApart ptr (slot_at st i)

module _ (t : Tasks) (st : Multitasking) (memory : Memory) (r : IsRunning t st memory)
    (ctx : List ℕ) (ptr : ℕ) (whole : length ctx ≡ 160) (outside : Outside st ptr) where
  -- Every buffer holds what its task was parked with, once the current task is parked.
  all_parked :
      (i : ℕ)
      → i < st.active_tasks
      → read 160 (park st (write memory ptr ctx) ptr) (slot_at st i)
        ≡ parked_with t.parked t.current ctx i
  all_parked i lt = elim (Bool-cases (i == st.current)) [
    | inl e ↦
        let q : i ≡ st.current = ground arith in
        rw (q, r.here)
          (read-parked (write memory ptr ctx) ptr (slot_at st st.current)
              (outside st.current r.below)
            ∙ read-write_same 160 memory ptr ctx whole
            ∙ ground arith)
    | inr e ↦
        let ne : i ≢ st.current = λ x. ground arith in
        read-parked_apart (write memory ptr ctx) ptr (slot_at st st.current) (slot_at st i)
          (outside i lt) (r.apart st.current i r.below lt (λ x. ne (sym x)))
        ∙ read-write_apart 160 memory ptr ctx (slot_at st i) (let o = outside i lt in ground arith)
        ∙ r.holds i lt ne
        ∙ rw r.here (ground arith)
  ]

  -- The running scheduler after a switch to a live task.
  switched-IsRunning :
      (done' : List Bool) (next : ℕ)
      → Live (TaskSlots.priorities st.tasks) done' st.active_tasks next
      → Live (TaskSlots.priorities st.tasks) done' st.active_tasks 0
      → IsRunning
          (record { parked = parked_with t.parked t.current ctx; current = next; done = done' })
          (record st {
            current = next;
            switch_count = st.switch_count + 1;
            tasks = record st.tasks { done = done' };
          })
          (park st (write memory ptr ctx) ptr)
  switched-IsRunning done' next live first = record {
    enabled = r.enabled;
    here = refl;
    below = live.below;
    dones = refl;
    apart = r.apart;
    holds = λ i lt ne. all_parked i lt;
    first = first;
    priority = r.priority;
  }

-- The statics that no switch changes.
pub record SameTasks (st st' : Multitasking) : Type 0 where
  pub slots : TaskSlots.slots st'.tasks ≡ TaskSlots.slots st.tasks
  pub priorities : TaskSlots.priorities st'.tasks ≡ TaskSlots.priorities st.tasks
  pub active : st'.active_tasks ≡ st.active_tasks

-- A step of the scheduler and the same step of the one without memory.
pub record Simulated (t : Tasks) (st : Multitasking) (memory : Memory) (event : Event)
    : Type 0 where
  pub t' : Tasks
  pub st' : Multitasking
  pub memory' : Memory
  pub context : List ℕ
  pub concrete : handle st memory event ≡ some (st', memory', context)
  pub abstract_step :
      step (TaskSlots.priorities st.tasks) st.active_tasks t event ≡ some (t', context)
  pub running : IsRunning t' st' memory'
  pub same : SameTasks st st'
  pub undone : is_done (TaskSlots.priorities st.tasks) t'.done t'.current ≡ false

-- What an event may be: a context has 160 bytes, and only tasks other than task 0 retire.
abbrev pub IsAllowed : Multitasking → Event → Type 0
IsAllowed st (timer ctx ptr) = (length ctx ≡ 160) × Outside st ptr
IsAllowed st (retires ctx ptr) = (length ctx ≡ 160) × Outside st ptr × (st.current ≢ 0)

-- Each event hands the processor the context that the chosen task was last parked with, wherever the buffers
-- are, and the chosen task has not retired.
pub handle-Simulated :
    (t : Tasks) (st : Multitasking) (memory : Memory) (event : Event)
    → IsRunning t st memory
    → IsAllowed st event
    → Simulated t st memory event
unfolding tick task_done
handle-Simulated t st memory (timer ctx ptr) r (whole, outside) =
    let prios = TaskSlots.priorities st.tasks in
    let done = TaskSlots.done st.tasks in
    let (next, chosen, s) =
      select_next-Selected prios done st.active_tasks r.first.below st.current 0 r.first
        r.priority in
    record {
      t' = record { parked = parked_with t.parked t.current ctx; current = next; done = done };
      st' = record st { current = next; switch_count = st.switch_count + 1 };
      memory' = park st (write memory ptr ctx) ptr;
      context = parked_with t.parked t.current ctx next;
      concrete =
          rw (r.enabled, chosen, all_parked t st memory r ctx ptr whole outside next s.live.below)
            refl;
      abstract_step = rw (r.dones, r.here, chosen) refl;
      running = switched-IsRunning t st memory r ctx ptr whole outside done next s.live r.first;
      same = record { slots = refl; priorities = refl; active = refl };
      undone = s.live.undone;
    }
handle-Simulated t st memory (retires ctx ptr) r (whole, outside, other_task) =
    let prios = TaskSlots.priorities st.tasks in
    let done = set (TaskSlots.done st.tasks) st.current true in
    let first : Live prios done st.active_tasks 0 = record {
      below = r.first.below;
      undone =
          get_or-set_ne (TaskSlots.done st.tasks) st.current 0 true true (λ e. other_task e)
          ∙ r.first.undone;
    } in
    let (next, chosen, s) =
      select_next-Selected prios done st.active_tasks r.first.below st.current 0 first r.priority in
    record {
      t' = record { parked = parked_with t.parked t.current ctx; current = next; done = done };
      st' = record st {
        current = next;
        switch_count = st.switch_count + 1;
        tasks = record st.tasks { done = done };
      };
      memory' = park st (write memory ptr ctx) ptr;
      context = parked_with t.parked t.current ctx next;
      concrete = rw (chosen, all_parked t st memory r ctx ptr whole outside next s.live.below) refl;
      abstract_step = rw (r.dones, r.here, chosen) refl;
      running = switched-IsRunning t st memory r ctx ptr whole outside done next s.live first;
      same = record { slots = refl; priorities = refl; active = refl };
      undone = s.live.undone;
    }
