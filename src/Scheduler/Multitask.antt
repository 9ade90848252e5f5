-- ===== src/Scheduler/Multitask.antt =====
-- agentos-kernel/src/scheduler/ring3_mt.rs: the switching between ring-3 tasks whose contexts are parked in
-- buffers of their own. Memory is bytes at addresses, and a context is 160 of them; the statics are a
-- record. `none` is a scheduler that does not return.
pub mod Refines
pub mod Run
mod Examples
use iaos.Prelude.{
  ℕ, zero, suc, ◌+◌, ◌-◌, Bool, true, false, Option, none, some, List, [], ◌∷◌, length, replicate,
  take, drop, map, byte, le32, set, get_or, ltb, ◌==◌, if◌then◌else◌,
}
use iaos.Scheduler.RawMemory.{Memory, write, read, copy, poison}
use iaos.Scheduler.Tier.{TaskSlots, select_next, arm_task_slots}

pub record Multitasking : Type 0 where
  pub enabled : Bool
  pub active_tasks : ℕ
  pub current : ℕ
  pub switch_count : ℕ
  pub tasks : TaskSlots

abbrev pub slot_at : Multitasking → ℕ → ℕ
slot_at st i = get_or (TaskSlots.slots st.tasks) i 0

-- The copy to the task's own buffer, and the poison behind it.
abbrev pub park : Multitasking → Memory → ℕ → Memory
park st memory saved_ctx_ptr =
    write (copy memory saved_ctx_ptr (slot_at st st.current)) saved_ctx_ptr poison

-- The end of both handlers, for the task that was selected.
abbrev pub switched : Multitasking → Memory → Option ℕ → Option (Multitasking × Memory × ℕ)
switched st memory none = none
switched st memory (some next) =
    some (record st { current = next; switch_count = st.switch_count + 1 }, memory, slot_at st next)

abbrev pub selected : Multitasking → Option ℕ
selected st =
    select_next (TaskSlots.priorities st.tasks) (TaskSlots.done st.tasks) st.active_tasks st.current

unfoldable pub tick : Multitasking → Memory → ℕ → Option (Multitasking × Memory × ℕ)
tick st memory saved_ctx_ptr =
    if st.enabled
    then switched st (park st memory saved_ctx_ptr) (selected st)
    else some (st, memory, saved_ctx_ptr)

-- `done[current] = true`
abbrev pub retired : Multitasking → Multitasking
retired st = record st {
  tasks = record st.tasks { done = set (TaskSlots.done st.tasks) st.current true };
}

unfoldable pub task_done : Multitasking → Memory → ℕ → Option (Multitasking × Memory × ℕ)
task_done st memory saved_ctx_ptr =
    switched (retired st) (park st memory saved_ctx_ptr) (selected (retired st))

-- The boxes of the contexts, at the addresses that the allocator gave.
abbrev pub boxed : Memory → List ℕ → List (List ℕ) → Memory
boxed memory [] ctxs = memory
boxed memory (a ∷ addresses) [] = memory
boxed memory (a ∷ addresses) (ctx ∷ ctxs) = boxed (write memory a ctx) addresses ctxs

abbrev pub paired : List ℕ → List ℕ → List (ℕ × ℕ)
paired [] ps = []
paired (a ∷ as') [] = []
paired (a ∷ as') (p ∷ ps) = (a, p) ∷ paired as' ps

abbrev pub armed : Multitasking → Memory → ℕ → Option TaskSlots → Option (Multitasking × Memory)
armed st memory active_tasks none = none
armed st memory active_tasks (some tasks) = some (
  record {
    enabled = true;
    active_tasks = active_tasks;
    current = 0;
    switch_count = 0;
    tasks = tasks;
  },
  memory,
)

-- `run_multitasking` up to the call of `f`; `none` is the panic of the assertion.
unfoldable pub start_multitasking :
    List ℕ → ℕ → List (ℕ × List ℕ) → Multitasking → Memory → Option (Multitasking × Memory)
start_multitasking addresses task0_priority other_tasks st memory =
    let priorities = task0_priority ∷ map (λ t. t.0) other_tasks in
    let ctxs = replicate 160 0 ∷ map (λ t. t.1) other_tasks in
    armed st (boxed memory addresses ctxs) (length other_tasks + 1)
      (arm_task_slots (paired addresses priorities) st.tasks)

-- The last saved `eax` of a task's buffer.
abbrev pub eax : List ℕ → ℕ
eax buf = le32 (byte buf 0) (byte buf 1) (byte buf 2) (byte buf 3)

-- `run_multitasking` behind the call of `f`: the other tasks' `eax`, which of them are done, and the switches.
unfoldable pub finish_multitasking :
    List ℕ → Multitasking → Memory → Multitasking × List ℕ × List Bool × ℕ
finish_multitasking addresses st memory = (
  record st { enabled = false },
  map (λ a. eax (read 160 memory a)) (drop 1 addresses),
  drop 1 (take st.active_tasks (TaskSlots.done st.tasks)),
  st.switch_count,
)
