-- ===== src/Scheduler/Agent/Examples.antt =====
-- The theorems on the process table at concrete tables, and runs of its operations.
use mathlib.Core.Option
use iaos.Prelude.{◌+◌, ◌<◌, ◌≡◌, refl, ◌⊎◌, none, some, List, [], ◌∷◌, min, ◌==◌, if◌then◌else◌}
use iaos.Scheduler.Process.{ProcessControlBlock, blocked, high, normal, background}
use iaos.Scheduler.Agent.{
  NativeAgentScheduler, new, max_processes, spawn, place, schedule_next, scan, update_process,
  add_tokens_used, update_first, usize_max, get_active_count, get_current_pid,
}
use iaos.Scheduler.Agent.Select.{Scheduled, schedule_next-Scheduled}
use iaos.Scheduler.Agent.Invariant.{IsValid, new-IsValid}
use iaos.Scheduler.Agent.Reach.{
  Call, spawn_call, schedule_call, update_call, add_tokens_call, perform_all, perform,
  reachable-IsValid,
}
use iaos.Scheduler.Agent.Lookup.{
  find, Spawned, spawn_lem, find-update_process, find-add_tokens_used,
}

abbrev calls : List Call
calls =
    spawn_call "logger" background 100
    ∷ spawn_call "planner" normal 200
    ∷ spawn_call "router" normal 300
    ∷ schedule_call
    ∷ update_call 2 blocked 4096
    ∷ add_tokens_call 3 7
    ∷ []

abbrev busy : NativeAgentScheduler
busy = perform_all calls new

-- The first of the two normal processes runs, before the background one that came earlier.
busy_runs_planner : get_current_pid busy ≡ 2
unfolding perform_all perform spawn place schedule_next scan update_process add_tokens_used
    update_first
busy_runs_planner = refl

then_router : (schedule_next busy).1 ≡ some 3
unfolding perform_all perform spawn place schedule_next scan update_process add_tokens_used
    update_first
then_router = refl

schedule_next-Scheduled_example : Scheduled busy (schedule_next busy)
schedule_next-Scheduled_example = schedule_next-Scheduled busy

reachable-IsValid_example : IsValid (perform_all calls new)
reachable-IsValid_example = reachable-IsValid calls

spawn_lem_run :
    ((get_active_count new ≡ max_processes) × (spawn "router" high 5 new ≡ (new, none)))
    ⊎ ((get_active_count new < max_processes)
        × ((spawn "router" high 5 new).1 ≡ some 1)
        × Spawned "router" high 5 new (spawn "router" high 5 new).0)
spawn_lem_run = spawn_lem "router" high 5 new new-IsValid

find-update_process_run : find 2 (update_process 2 blocked 8192 busy).processes ≡ (
    if 2 == 2
    then Option.map {A = ProcessControlBlock}
        (λ p. record p { state = blocked; stack_pointer = 8192 })
        (find 2 busy.processes)
    else find 2 busy.processes)
find-update_process_run = find-update_process busy 2 blocked 8192 2

find-add_tokens_used_run : find 3 (add_tokens_used 3 11 busy).processes ≡ (
    if 3 == 3
    then Option.map {A = ProcessControlBlock}
        (λ p. record p { tokens_used = min (p.tokens_used + 11) usize_max })
        (find 3 busy.processes)
    else find 3 busy.processes)
find-add_tokens_used_run = find-add_tokens_used busy 3 11 3
