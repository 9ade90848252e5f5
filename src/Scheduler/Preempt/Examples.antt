-- ===== src/Scheduler/Preempt/Examples.antt =====
-- Three ticks over two tasks of one priority.
use iaos.Prelude.{ℕ, ◌≡◌, refl, arith, Bool, true, false, Option, none, some, List, [], ◌∷◌}
use iaos.Scheduler.Process.{normal}
use iaos.Scheduler.Agent
use iaos.Scheduler.Preempt.{Preemption, next_task, rsp_of, tick}
use iaos.Scheduler.Preempt.Stops.{Parks, Ticked, tick-Ticked}
use iaos.Scheduler.Preempt.Run.{run_ticks, IsStopped, run_ticks-IsStopped}

abbrev two_tasks : Preemption
two_tasks = record {
  tasks =
      some (record { saved_rsp = 100; priority = normal; pid = 7 })
      ∷ some (record { saved_rsp = 200; priority = normal; pid = 8 })
      ∷ [];
  current = none;
  idle_rsp = 0;
  ticks_remaining = 3;
  enabled = true;
}

abbrev left_with : Option ℕ → ℕ
left_with c = rsp_of two_tasks c

abbrev events : List (Bool × ℕ)
events = (true, 50) ∷ (false, 101) ∷ (true, 201) ∷ []

two_tasks-Parks : Parks left_with two_tasks
two_tasks-Parks = record { size = refl; current = tt; holds = λ c k f. refl }

tick-Ticked_example : Ticked left_with two_tasks true 50 Agent.new
tick-Ticked_example = tick-Ticked left_with two_tasks true 50 Agent.new two_tasks-Parks refl

-- The idle context gets the stack pointer that it was left with at the first tick.
idle_run : (run_ticks events two_tasks Agent.new 0).2 ≡ 50
unfolding run_ticks tick next_task
idle_run = refl

run_ticks-IsStopped_example : IsStopped (run_ticks events two_tasks Agent.new 0).0
run_ticks-IsStopped_example =
    run_ticks-IsStopped events left_with two_tasks Agent.new 0 two_tasks-Parks refl (omega arith)
      refl
