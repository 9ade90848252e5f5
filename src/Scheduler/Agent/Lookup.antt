-- ===== src/Scheduler/Agent/Lookup.antt =====
-- The table as a map from pids: what each operation does to the process of a pid.
use Prim.Native.String.{String}
use mathlib.Core.Option
use iaos.Prelude.{
  count_some-le-length, ℕ, suc, ◌+◌, ◌<◌, ◌≡◌, refl, ◌≢◌, ◌⊎◌, inl, inr, Option, none, some, [],
  ◌∷◌, arith, min, Option-cases, ◌==◌, if◌then◌else◌, u32,
}
use iaos.Scheduler.Process
use iaos.Scheduler.Process.{ProcessControlBlock, ProcessState, Priority}
use iaos.Scheduler.Agent.{
  Slots, NativeAgentScheduler, max_processes, spawn, place, update_first, update_process,
  set_kv_block_id, add_tokens_used, usize_max, get_active_count,
}
use iaos.Scheduler.Agent.Table.{Holds, place-none, Placed, place-Placed}
use iaos.Scheduler.Agent.Invariant.{IsValid, next_pid-le}

-- The process of a pid.
unfoldable pub find : ℕ → Slots → Option ProcessControlBlock
find pid [] = none
find pid (none ∷ rest) = find pid rest
find pid (some p ∷ rest) = if p.pid == pid then some p else find pid rest

module _ (pid : ℕ) (change : ProcessControlBlock → ProcessControlBlock)
    (keeps : (p : ProcessControlBlock) → (change p).pid ≡ p.pid) where
  pub find-update_first :
      (j : ℕ) (ps : Slots)
      → find j (update_first (λ p. p.pid == pid) change ps)
        ≡ (if pid == j then Option.map change (find j ps) else find j ps)
  unfolding find update_first
  find-update_first j [] = ground arith
  find-update_first j (none ∷ ps) = find-update_first j ps
  find-update_first j (some p ∷ ps) = ground (arith, keeps p, find-update_first j ps)

module _ (s : NativeAgentScheduler) (pid : ℕ) where
  -- `update_process` sets the state and the stack pointer of the process with the pid, and leaves
  -- the process of every other pid alone.
  pub find-update_process :
      (state : ProcessState) (sp j : ℕ)
      → find j (update_process pid state sp s).processes ≡ (
          if pid == j
          then Option.map {A = ProcessControlBlock}
              (λ p. record p { state = state; stack_pointer = sp })
              (find j s.processes)
          else find j s.processes)
  unfolding update_process
  find-update_process state sp j = find-update_first pid _ (λ p. refl) j s.processes

  pub find-set_kv_block_id :
      (block_id j : ℕ)
      → find j (set_kv_block_id pid block_id s).processes ≡ (
          if pid == j
          then Option.map {A = ProcessControlBlock}
              (λ p. record p { kv_block_id = some block_id })
              (find j s.processes)
          else find j s.processes)
  unfolding set_kv_block_id
  find-set_kv_block_id block_id j = find-update_first pid _ (λ p. refl) j s.processes

  -- `add_tokens_used` adds to the tokens of the process with the pid, stopping at the greatest
  -- `usize`, and leaves the process of every other pid alone.
  pub find-add_tokens_used :
      (amount j : ℕ)
      → find j (add_tokens_used pid amount s).processes ≡ (
          if pid == j
          then Option.map {A = ProcessControlBlock}
              (λ p. record p { tokens_used = min (p.tokens_used + amount) usize_max })
              (find j s.processes)
          else find j s.processes)
  unfolding add_tokens_used
  find-add_tokens_used amount j = find-update_first pid _ (λ p. refl) j s.processes

find-place :
    (p : ProcessControlBlock) (ps qs : Slots) (j : ℕ)
    → place p ps ≡ some qs
    → find p.pid ps ≡ none
    → find j qs ≡ (if p.pid == j then some p else find j ps)
unfolding find place
find-place p [] qs j h n = cc
find-place p (none ∷ ps) qs j h n = ground arith
find-place p (some q ∷ ps) qs j h n = elim (Option-cases (place p ps)) [
  | inl e ↦ cc
  | inr (rs, e) ↦
      let e' : qs ≡ some q ∷ rs = ground arith in rw e' (ground (arith, find-place p ps rs j e))
]

find-eq-none :
    (pid : ℕ) (ps : Slots)
    → ((i : ℕ) (p : ProcessControlBlock) → Holds ps i p → p.pid ≢ pid)
    → find pid ps ≡ none
unfolding find
find-eq-none pid [] h = refl
find-eq-none pid (none ∷ ps) h = find-eq-none pid ps (λ i p k. h (suc i) p (record { at = k.at }))
find-eq-none pid (some p ∷ ps) h = ground (
  arith,
  h 0 p (record { at = refl }),
  find-eq-none pid ps (λ i q k. h (suc i) q (record { at = k.at })),
)

-- What `spawn` does.
pub record Spawned (name : String) (priority : Priority) (quota : ℕ) (s t : NativeAgentScheduler)
    : Type 0 where
  pub found :
      (j : ℕ)
      → find j t.processes
        ≡ (if s.next_pid == j then some (Process.new j name priority quota) else find j s.processes)
  pub counter : t.next_pid ≡ s.next_pid + 1
  pub counted : get_active_count t ≡ get_active_count s + 1
  pub current : t.current_pid ≡ s.current_pid

module _ (name : String) (priority : Priority) (quota : ℕ) (s : NativeAgentScheduler)
    (v : IsValid s) where
  fresh_pid : find s.next_pid s.processes ≡ none
  fresh_pid = find-eq-none s.next_pid s.processes λ i p h e. omega (arith, v.in_range i p h)

  room :
      (p : ProcessControlBlock) (qs : Slots)
      → place p s.processes ≡ some qs
      → get_active_count s < max_processes
  room p qs e = by_placed (place-Placed p s.processes qs e)
    where
      by_placed : Placed p s.processes qs → get_active_count s < max_processes
      by_placed r = omega (arith, r.counted, r.same_length, v.size, count_some-le-length qs)

  -- On a valid table `spawn` fails, and changes nothing, exactly when 32 processes exist. Otherwise
  -- it returns the counter as the pid of a new ready process, counts one process more, and leaves
  -- the process of every other pid alone.
  pub spawn_lem :
      ((get_active_count s ≡ max_processes) × (spawn name priority quota s ≡ (s, none)))
      ⊎ ((get_active_count s < max_processes)
          × ((spawn name priority quota s).1 ≡ some s.next_pid)
          × Spawned name priority quota s (spawn name priority quota s).0)
  unfolding spawn
  spawn_lem = elim (Option-cases (place p s.processes)) [
    | inl e ↦ inl (omega (arith, place-none p s.processes e, v.size), rw (e, spawn) refl)
    | inr (qs, e) ↦ inr (room p qs e, rw (e, spawn) refl, rw (e, spawn, unwrapped) (spawned qs e))
  ]
    where
      p : ProcessControlBlock
      p = Process.new s.next_pid name priority quota

      unwrapped : u32 (s.next_pid + 1) ≡ s.next_pid + 1
      unwrapped = omega (arith, next_pid-le v)

      spawned :
          (qs : Slots)
          → place p s.processes ≡ some qs
          → Spawned name priority quota s
              (record { processes = qs; current_pid = s.current_pid; next_pid = s.next_pid + 1 })
      spawned qs e = record {
        found = λ j. ground (arith, find-place p s.processes qs j e fresh_pid);
        counter = refl;
        counted = (place-Placed p s.processes qs e).counted;
        current = refl;
      }
