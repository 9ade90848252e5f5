-- ===== src/Scheduler/Tier/Examples.antt =====
-- The theorems on the task slots at four tasks, and runs of the choice.
use iaos.Prelude.{
  any, ◌==◌, zero, suc, ℕ, ◌<◌, ◌≤◌, ◌≡◌, refl, Bool, true, false, ◌⊎◌, none, some, List, [], ◌∷◌,
  arith, length,
}
use iaos.Scheduler.Tier.{prio, TaskSlots, select_next, seek, top_from, arm_task_slots}
use iaos.Scheduler.Tier.Top.{Live}
use iaos.Scheduler.Tier.Next.{Selected, select_next-Selected}
use iaos.Scheduler.Tier.Fair.{choices, choices-any}
use iaos.Scheduler.Tier.Arm.{IsArmed, arm_task_slots_lem}

abbrev prios : List ℕ
prios = 2 ∷ 1 ∷ 1 ∷ 1 ∷ []

abbrev done : List Bool
done = false ∷ false ∷ true ∷ false ∷ []

-- After task 1, task 2 is done, so task 3 is next; after task 3 the round goes on at task 1.
after_one : select_next prios done 4 1 ≡ some 3
unfolding select_next seek top_from
after_one = refl

after_three : select_next prios done 4 3 ≡ some 1
unfolding select_next seek top_from
after_three = refl

first_live : Live prios done 4 0
first_live = record { below = omega arith; undone = refl }

select_next-Selected_example :
    (next : ℕ) × (select_next prios done 4 1 ≡ some next)
    × Selected prios done 4 (omega arith) 1 next
select_next-Selected_example =
    select_next-Selected prios done 4 (omega arith) 1 0 first_live (omega arith)

abbrev used_slots : TaskSlots
used_slots = record {
  slots = 16 ∷ 32 ∷ 48 ∷ 64 ∷ [];
  priorities = prios;
  done = true ∷ true ∷ true ∷ true ∷ [];
}

abbrev tasks : List (ℕ × ℕ)
tasks = (4096, 0) ∷ (8192, 3) ∷ []

arm_task_slots_lem_example :
    ((4 < length tasks) × (arm_task_slots tasks used_slots ≡ none))
    ⊎ ((length tasks ≤ 4)
        × (u : TaskSlots) × (arm_task_slots tasks used_slots ≡ some u)
        × IsArmed 4 tasks used_slots u)
arm_task_slots_lem_example =
    arm_task_slots_lem 4 tasks used_slots (record { slots = refl; priorities = refl; done = refl })

last_live : Live prios done 4 3
last_live = record { below = omega arith; undone = refl }

best_prio : (i : ℕ) → Live prios done 4 i → 1 ≤ prio prios done i
best_prio zero l = omega arith
best_prio (suc zero) l = omega arith
best_prio (suc (suc zero)) l = omega arith
best_prio (suc (suc (suc zero))) l = omega arith
best_prio (suc (suc (suc (suc i)))) l = let below = l.below in absurd (omega arith)

choices_run : choices prios done 4 4 3 ≡ 1 ∷ 3 ∷ 1 ∷ 3 ∷ []
unfolding choices select_next seek top_from
choices_run = refl

choices-any_example : any (λ i. i == 3) (choices prios done 4 4 0) ≡ true
choices-any_example =
    choices-any prios done 4 (omega arith) 3 last_live (omega arith) best_prio 0 (omega arith)
