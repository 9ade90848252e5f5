-- ===== src/Scheduler/Tier.antt =====
-- agentos-kernel/src/scheduler/tier_select.rs: the choice of the next task, and the arming of the
-- task slots, which the ring-3 schedulers share.
-- The arrays are lists of the const parameter's length. Every index that `select_next` reads is
-- below `active_tasks`, which both callers keep at or below that length.
pub mod Top
pub mod Next
pub mod Fair
pub mod Arm
mod Examples
use iaos.Prelude.{
  ℕ, zero, suc, ◌+◌, ◌-◌, ◌%◌, Bool, true, false, not, ◌&&◌, ◌||◌, Option, none, some, List, [],
  ◌∷◌, ltb, ◌==◌, if◌then◌else◌, get_or, set, length, map,
}

abbrev pub u8_max : ℕ
u8_max = 255

module _ (prios : List ℕ) (done : List Bool) where
  abbrev pub is_done : ℕ → Bool
  is_done i = get_or done i true

  abbrev pub prio : ℕ → ℕ
  prio i = get_or prios i 0

  -- `for i in i..i + left { if !done[i] && prios[i] < top { top = prios[i]; } }`
  unfoldable pub top_from : ℕ → ℕ → ℕ → ℕ
  top_from zero i top = top
  top_from (suc left) i top =
      top_from left (suc i) (if not (is_done i) && ltb (prio i) top then prio i else top)

  -- A task to pass over: finished, or not of the best priority.
  abbrev pub passed_over : ℕ → ℕ → Bool
  passed_over top next = is_done next || not (prio next == top)

  -- The `while` loop; `none` is a loop that is still running when the fuel is used up.
  unfoldable pub seek : ℕ → ℕ → ℕ → ℕ → Option ℕ
  seek zero active_tasks top next = none
  seek (suc fuel) active_tasks top next =
      let rest = seek fuel active_tasks top ((next + 1) % active_tasks) in
      if passed_over top next then rest else some next

  -- One round over the slots is enough fuel. There are at most as many active tasks as slots: the source panics
  -- where an index is out of range.
  unfoldable pub select_next : ℕ → ℕ → Option ℕ
  select_next active_tasks current =
      seek active_tasks active_tasks (top_from active_tasks 0 u8_max) ((current + 1) % active_tasks)

pub record TaskSlots : Type 0 where
  pub slots : List ℕ
  pub priorities : List ℕ
  pub done : List Bool

-- `for (i, (slot_val, prio)) in tasks.iter().enumerate() { slots[i] = …; priorities[i] = …; }`
unfoldable pub write_tasks : ℕ → List (ℕ × ℕ) → TaskSlots → TaskSlots
write_tasks i [] t = t
write_tasks i ((slot_val, prio) ∷ rest) t =
    write_tasks (suc i) rest
      (record t { slots = set t.slots i slot_val; priorities = set t.priorities i prio })

-- `none` is the panic of the assertion.
unfoldable pub arm_task_slots : List (ℕ × ℕ) → TaskSlots → Option TaskSlots
arm_task_slots tasks t =
    if ltb (length t.slots) (length tasks)
    then none
    else let t' = write_tasks 0 tasks t in some (record t' { done = map (λ d. false) t'.done })
