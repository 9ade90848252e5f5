-- ===== src/Scheduler/Agent/Reach.antt =====
-- Every table that calls of the scheduler can reach satisfies the invariant.
use Prim.Native.String.{String}
use iaos.Prelude.{ℕ, List, [], ◌∷◌}
use iaos.Scheduler.Process.{ProcessState, Priority}
use iaos.Scheduler.Agent.{
  NativeAgentScheduler, new, spawn, schedule_next, update_process, set_kv_block_id,
  clear_kv_block_id_if_matches, add_tokens_used,
}
use iaos.Scheduler.Agent.Invariant.{
  IsValid, new-IsValid, spawn-IsValid, schedule_next-IsValid, update_process-IsValid,
  set_kv_block_id-IsValid, clear_kv_block_id-IsValid, add_tokens_used-IsValid,
}

-- A call of the scheduler.
pub data Call : Type 0 where
  spawn_call : String → Priority → ℕ → Call
  schedule_call : Call
  update_call : ℕ → ProcessState → ℕ → Call
  set_block_call clear_block_call add_tokens_call : ℕ → ℕ → Call

unfoldable pub perform : Call → NativeAgentScheduler → NativeAgentScheduler
perform (spawn_call name priority quota) s = (spawn name priority quota s).0
perform schedule_call s = (schedule_next s).0
perform (update_call pid state sp) s = update_process pid state sp s
perform (set_block_call pid b) s = set_kv_block_id pid b s
perform (clear_block_call pid b) s = clear_kv_block_id_if_matches pid b s
perform (add_tokens_call pid n) s = add_tokens_used pid n s

unfoldable pub perform_all : List Call → NativeAgentScheduler → NativeAgentScheduler
perform_all [] s = s
perform_all (c ∷ cs) s = perform_all cs (perform c s)

perform-IsValid : (c : Call) (s : NativeAgentScheduler) → IsValid s → IsValid (perform c s)
unfolding perform
perform-IsValid (spawn_call name priority quota) s v = spawn-IsValid name priority quota s v
perform-IsValid schedule_call s v = schedule_next-IsValid s v
perform-IsValid (update_call pid state sp) s v = update_process-IsValid s v pid state sp
perform-IsValid (set_block_call pid b) s v = set_kv_block_id-IsValid s v pid b
perform-IsValid (clear_block_call pid b) s v = clear_kv_block_id-IsValid s v pid b
perform-IsValid (add_tokens_call pid n) s v = add_tokens_used-IsValid s v pid n

perform_all_from :
    (cs : List Call) (s : NativeAgentScheduler) → IsValid s → IsValid (perform_all cs s)
unfolding perform_all
perform_all_from [] s v = v
perform_all_from (c ∷ cs) s v = perform_all_from cs (perform c s) (perform-IsValid c s v)

-- After any calls on a new scheduler there are 32 slots, the pid counter is one more than the
-- number of processes, and the pids are positive, below the counter and pairwise distinct.
pub reachable-IsValid : (cs : List Call) → IsValid (perform_all cs new)
reachable-IsValid cs = perform_all_from cs new new-IsValid
