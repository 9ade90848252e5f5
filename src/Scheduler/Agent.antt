-- ===== src/Scheduler/Agent.antt =====
-- agentos-kernel/src/scheduler/agent_scheduler.rs: the table of agent processes.
-- `pid` and `next_pid` are u32 and counters of `usize` are 64 bits wide; `next_pid += 1` wraps, as in
-- the kernel's release build.
pub mod Table
pub mod Select
pub mod Invariant
pub mod Reach
pub mod Lookup
mod Examples
use Prim.Native.String.{String}
use mathlib.Core.Option
use iaos.Prelude.{
  ℕ, zero, suc, ◌+◌, ◌-◌, ◌^◌, Bool, true, false, ◌&&◌, Option, none, some, List, [], ◌∷◌, min, u32,
  ltb, ◌==◌, if◌then◌else◌, get_elem?, set, replicate, count_some,
}
use iaos.Scheduler.Process
use iaos.Scheduler.Process.{ProcessControlBlock, ProcessState, Priority, running, as_u8, is_ready}

abbrev pub Slots : Type 0
Slots = List (Option ProcessControlBlock)

abbrev pub max_processes : ℕ
max_processes = 32

pub record NativeAgentScheduler : Type 0 where
  pub processes : Slots
  pub current_pid : ℕ
  pub next_pid : ℕ

-- `[EMPTY_PROC; n]`
abbrev pub empty_slots : ℕ → Slots
empty_slots n = replicate n none

abbrev pub new : NativeAgentScheduler
new = record { processes = empty_slots max_processes; current_pid = 0; next_pid = 1 }

-- The loop of `spawn`: the first empty slot takes the new process.
unfoldable pub place : ProcessControlBlock → Slots → Option Slots
place p [] = none
place p (none ∷ rest) = some (some p ∷ rest)
place p (some q ∷ rest) = Option.map (λ r. some q ∷ r) (place p rest)

unfoldable pub spawn :
    String → Priority → ℕ → NativeAgentScheduler → NativeAgentScheduler × Option ℕ
spawn name priority quota s =
    elim (place (Process.new s.next_pid name priority quota) s.processes) [
      | none ↦ (s, none)
      | some ps ↦ (record s { processes = ps; next_pid = u32 (s.next_pid + 1) }, some s.next_pid)
    ]

-- The loop of `schedule_next` from slot `idx` on, with `highest_prio` and `best_index` so far.
unfoldable pub scan : ℕ → ℕ → Option ℕ → Slots → Option ℕ
scan idx highest_prio best_index [] = best_index
scan idx highest_prio best_index (none ∷ rest) = scan (suc idx) highest_prio best_index rest
scan idx highest_prio best_index (some p ∷ rest) =
    let better = is_ready p.state && ltb (as_u8 p.priority) highest_prio in
    scan (suc idx) (if better then as_u8 p.priority else highest_prio)
      (if better then some idx else best_index) rest

-- `if let Some(ref mut proc) = self.processes[idx]`
unfoldable pub run_at :
    ℕ → Option (Option ProcessControlBlock) → NativeAgentScheduler → NativeAgentScheduler × Option ℕ
run_at idx (some (some p)) s = (
  record s {
    processes = set s.processes idx (some (record p { state = running }));
    current_pid = p.pid;
  },
  some p.pid,
)
run_at idx _ s = (s, none)

unfoldable pub schedule_next : NativeAgentScheduler → NativeAgentScheduler × Option ℕ
unfolding run_at
schedule_next s = elim (scan 0 99 none s.processes) [
  | none ↦ (s, none)
  | some idx ↦ run_at idx (get_elem? s.processes idx) s
]

-- `for slot in processes { f(slot); }`
unfoldable pub visit {ℓ} :
    {A : Type ℓ} → (ProcessControlBlock → A → A) → A → List ProcessControlBlock → A
visit f a [] = a
visit f a (p ∷ rest) = visit f (f p a) rest

-- `self.processes.iter().flatten()`
unfoldable pub live : Slots → List ProcessControlBlock
live [] = []
live (none ∷ rest) = live rest
live (some p ∷ rest) = p ∷ live rest

abbrev pub get_active_count : NativeAgentScheduler → ℕ
get_active_count s = count_some s.processes

-- The closure's own state is passed from one process to the next.
unfoldable pub for_each_process {ℓ} :
    {A : Type ℓ} → (ProcessControlBlock → A → A) → A → NativeAgentScheduler → A
for_each_process f a s = visit f a (live s.processes)

abbrev pub get_current_pid : NativeAgentScheduler → ℕ
get_current_pid s = s.current_pid

-- `for slot in self.processes.iter_mut().flatten() { if test(slot) { change(slot); return; } }`
unfoldable pub update_first :
    (ProcessControlBlock → Bool) → (ProcessControlBlock → ProcessControlBlock) → Slots → Slots
update_first test change [] = []
update_first test change (none ∷ rest) = none ∷ update_first test change rest
update_first test change (some p ∷ rest) =
    if test p then some (change p) ∷ rest else some p ∷ update_first test change rest

unfoldable pub update_process : ℕ → ProcessState → ℕ → NativeAgentScheduler → NativeAgentScheduler
update_process pid state stack_pointer s = record s {
  processes =
      update_first (λ p. p.pid == pid)
        (λ p. record p { state = state; stack_pointer = stack_pointer }) s.processes;
}

unfoldable pub set_kv_block_id : ℕ → ℕ → NativeAgentScheduler → NativeAgentScheduler
set_kv_block_id pid block_id s = record s {
  processes =
      update_first (λ p. p.pid == pid) (λ p. record p { kv_block_id = some block_id }) s.processes;
}

-- `slot.kv_block_id == Some(block_id)`
abbrev pub holds_block : Option ℕ → ℕ → Bool
holds_block none block_id = false
holds_block (some b) block_id = b == block_id

unfoldable pub clear_kv_block_id_if_matches : ℕ → ℕ → NativeAgentScheduler → NativeAgentScheduler
clear_kv_block_id_if_matches pid block_id s = record s {
  processes =
      update_first (λ p. p.pid == pid && holds_block p.kv_block_id block_id)
        (λ p. record p { kv_block_id = none }) s.processes;
}

-- `saturating_add` on `usize`
abbrev pub usize_max : ℕ
usize_max = 2 ^ 64 - 1

unfoldable pub add_tokens_used : ℕ → ℕ → NativeAgentScheduler → NativeAgentScheduler
add_tokens_used pid amount s = record s {
  processes =
      update_first (λ p. p.pid == pid)
        (λ p. record p { tokens_used = min (p.tokens_used + amount) usize_max }) s.processes;
}
