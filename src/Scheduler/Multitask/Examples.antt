-- ===== src/Scheduler/Multitask/Examples.antt =====
-- Two tasks with equal priorities, switched by the timer.
use iaos.Prelude.{
  ℕ, zero, suc, ◌%◌, ◌≤◌, ◌<◌, ◌≡◌, ◌≢◌, refl, arith, inl, inr, replicate, true, false, some, List,
  [], ◌∷◌, get_or,
}
use iaos.Scheduler.Tier.{select_next, seek, top_from}
use iaos.Scheduler.RawMemory.{Memory, read, AreApart}
use iaos.Scheduler.Multitask.{Multitasking}
use iaos.Scheduler.Multitask.Refines.{Tasks, Event, timer, IsRunning, Simulated, handle-Simulated}
use iaos.Scheduler.Multitask.Run.{run, run_tasks, Agree, run-run_tasks}

abbrev buffers : List ℕ
buffers = 1000 ∷ 2000 ∷ []

abbrev scheduler : Multitasking
scheduler = record {
  enabled = true;
  active_tasks = 2;
  current = 0;
  switch_count = 0;
  tasks = record { slots = buffers; priorities = 1 ∷ 1 ∷ []; done = false ∷ false ∷ [] };
}

abbrev memory : Memory
memory a = a % 256

abbrev tasks : Tasks
tasks = record {
  parked = λ i. read 160 memory (get_or buffers i 0);
  current = 0;
  done = false ∷ false ∷ [];
}

abbrev context : ℕ → List ℕ
context b = replicate 160 b

abbrev events : List Event
events = timer (context 7) 3000 ∷ timer (context 8) 3000 ∷ timer (context 9) 4000 ∷ []

buffers_apart :
    (i j : ℕ) → i < 2 → j < 2 → i ≢ j → AreApart (get_or buffers i 0) (get_or buffers j 0)
buffers_apart zero zero a b n = absurd (n refl)
buffers_apart zero (suc zero) a b n = inl (omega arith)
buffers_apart (suc zero) zero a b n = inr (omega arith)
buffers_apart (suc zero) (suc zero) a b n = absurd (n refl)
buffers_apart zero (suc (suc j)) a b n = absurd (omega arith)
buffers_apart (suc zero) (suc (suc j)) a b n = absurd (omega arith)
buffers_apart (suc (suc i)) j a b n = absurd (omega arith)

stack_outside : (ptr : ℕ) → 2160 ≤ ptr → (i : ℕ) → i < 2 → AreApart ptr (get_or buffers i 0)
stack_outside ptr h zero lt = inr (omega arith)
stack_outside ptr h (suc zero) lt = inr (omega arith)
stack_outside ptr h (suc (suc i)) lt = absurd (omega arith)

scheduler-IsRunning : IsRunning tasks scheduler memory
scheduler-IsRunning = record {
  enabled = refl;
  here = refl;
  below = omega arith;
  dones = refl;
  apart = buffers_apart;
  holds = λ i lt ne. refl;
  first = record { below = omega arith; undone = refl };
  priority = omega arith;
}

handle-Simulated_run : Simulated tasks scheduler memory (timer (context 7) 3000)
handle-Simulated_run =
    handle-Simulated tasks scheduler memory (timer (context 7) 3000) scheduler-IsRunning
      (refl, stack_outside 3000 (omega arith))

run_tasks_run :
    run_tasks (1 ∷ 1 ∷ []) 2 tasks events ≡ some (read 160 memory 2000 ∷ context 7 ∷ context 8 ∷ [])
unfolding run_tasks select_next seek top_from
run_tasks_run = refl

run-run_tasks_example : Agree (run scheduler memory events) (run_tasks (1 ∷ 1 ∷ []) 2 tasks events)
unfolding select_next seek top_from
run-run_tasks_example =
    run-run_tasks (1 ∷ 1 ∷ []) buffers 2 tasks scheduler memory events refl refl refl
      scheduler-IsRunning (tt, (tt, (tt, tt)))
      (
        refl,
        stack_outside 3000 (omega arith),
        (refl, stack_outside 3000 (omega arith), (refl, stack_outside 4000 (omega arith), tt)),
      )
