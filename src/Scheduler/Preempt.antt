-- ===== src/Scheduler/Preempt.antt =====
-- agentos-kernel/src/scheduler/preemptive.rs: the timer tick that switches between two kernel tasks and the
-- idle context. `switch_to` is assembly: it stores the running stack pointer at one address and loads
-- another; the running one, and whether the process table's lock is free, are inputs of a tick.
pub mod Stops
pub mod Run
mod Examples
use iaos.Prelude.{
  ℕ, zero, suc, ◌+◌, ◌-◌, ◌%◌, Bool, true, false, not, ◌&&◌, ◌||◌, Option, none, some, List, [],
  ◌∷◌, min, set, get_or, ltb, ◌==◌, if◌then◌else◌,
}
use iaos.Scheduler.Process.{Priority, as_u8, ProcessState, ready, running}
use iaos.Scheduler.Agent.{NativeAgentScheduler, update_process}

pub record PreemptTask : Type 0 where
  pub saved_rsp : ℕ
  pub priority : Priority
  pub pid : ℕ

pub record Preemption : Type 0 where
  pub tasks : List (Option PreemptTask)
  pub current : Option ℕ
  pub idle_rsp : ℕ
  pub ticks_remaining : ℕ
  pub enabled : Bool

abbrev pub task_at : Preemption → ℕ → Option PreemptTask
task_at st i = get_or st.tasks i none

-- `top.min(p)` of a slot.
abbrev pub better : Option ℕ → Option PreemptTask → Option ℕ
better top none = top
better none (some t) = some (as_u8 t.priority)
better (some cur) (some t) = some (min cur (as_u8 t.priority))

abbrev pub top_of : Preemption → Option ℕ
top_of st = better (better none (task_at st 0)) (task_at st 1)

abbrev pub has_priority : ℕ → Option PreemptTask → Bool
has_priority top none = false
has_priority top (some t) = as_u8 t.priority == top

-- The two rounds of the search for a task of the best priority.
abbrev pub chosen : Preemption → ℕ → ℕ → Option ℕ
chosen st top start =
    if has_priority top (task_at st (start % 2))
    then some (start % 2)
    else if has_priority top (task_at st ((start + 1) % 2))
    then some ((start + 1) % 2)
    else none

abbrev pub start_of : Option ℕ → ℕ
start_of none = 0
start_of (some i) = (i + 1) % 2

abbrev pub at_top : Preemption → Option ℕ → Option ℕ
at_top st none = none
at_top st (some top) = chosen st top (start_of st.current)

-- What runs next, once the remaining ticks are counted down.
unfoldable pub next_task : Preemption → Option ℕ
next_task st = if st.ticks_remaining == 0 then none else at_top st (top_of st)

abbrev pub same_task : Option ℕ → Option ℕ → Bool
same_task none none = true
same_task none (some j) = false
same_task (some i) none = false
same_task (some i) (some j) = i == j

-- The process of a task, if there is one, is shown in a state.
abbrev pub show_task :
    ProcessState → Option PreemptTask → NativeAgentScheduler → NativeAgentScheduler
show_task state none sched = sched
show_task state (some t) sched = update_process t.pid state t.saved_rsp sched

abbrev pub task_of : Preemption → Option ℕ → Option PreemptTask
task_of st none = none
task_of st (some i) = task_at st i

abbrev pub with_rsp : ℕ → Option PreemptTask → Option PreemptTask
with_rsp rsp none = none
with_rsp rsp (some t) = some (record t { saved_rsp = rsp })

-- `switch_to` stores the running stack pointer where `from` keeps its own.
abbrev pub saved : Preemption → Option ℕ → ℕ → Preemption
saved st none rsp = record st { idle_rsp = rsp }
saved st (some i) rsp = record st { tasks = set st.tasks i (with_rsp rsp (task_at st i)) }

abbrev pub rsp_in : Option PreemptTask → ℕ
rsp_in none = 0
rsp_in (some t) = t.saved_rsp

-- The stack pointer of what runs next.
abbrev pub rsp_of : Preemption → Option ℕ → ℕ
rsp_of st none = st.idle_rsp
rsp_of st (some i) = rsp_in (task_at st i)

-- The count of the remaining ticks, and the end of preemption.
abbrev pub counted : Preemption → Preemption
counted st =
    let remaining = st.ticks_remaining - 1 in
    record st { ticks_remaining = remaining; enabled = not (remaining == 0) && st.enabled }

-- The switch: the state, the process table, and the stack pointer that runs.
abbrev pub switched :
    Preemption → Option ℕ → Bool → ℕ → NativeAgentScheduler → Preemption × NativeAgentScheduler × ℕ
switched st next lock_is_free rsp sched = if same_task next st.current then (st, sched, rsp) else (
  record (saved st st.current rsp) { current = next },
  if lock_is_free
      then show_task running (task_of st next) (show_task ready (task_of st st.current) sched)
      else sched,
  rsp_of st next,
)

unfoldable pub tick :
    Bool → Bool → ℕ → Preemption → NativeAgentScheduler → Preemption × NativeAgentScheduler × ℕ
tick interrupted_ring3 lock_is_free rsp st sched =
    let st' = counted st in
    if not st.enabled || interrupted_ring3
    then (st, sched, rsp)
    else switched st' (next_task st') lock_is_free rsp sched
