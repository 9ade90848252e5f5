-- ===== src/Scheduler/Tier/Arm.antt =====
-- `arm_task_slots` writes the tasks into the first slots and clears the whole done mask.
use iaos.Prelude.{
  ℕ, zero, suc, ◌+◌, ◌≤◌, ◌<◌, ◌≡◌, refl, ap, ◌∙◌, Bool, false, ◌⊎◌, inl, inr, none, some, List, [],
  ◌∷◌, arith, length, get_elem?, set, map, get_elem?-set_self, get_elem?-set_ne, length-set,
  Bool-cases, ltb,
}
use iaos.Scheduler.Tier.{TaskSlots, write_tasks, arm_task_slots}

-- The three arrays have the const parameter's length.
pub record HasSize (n : ℕ) (t : TaskSlots) : Type 0 where
  pub slots : length t.slots ≡ n
  pub priorities : length t.priorities ≡ n
  pub done : length t.done ≡ n

-- `u` is `t` with the tasks written from slot `i` on.
record IsWritten (i : ℕ) (tasks : List (ℕ × ℕ)) (t u : TaskSlots) : Type 0 where
  inside :
      (k slot_val prio : ℕ)
      → get_elem? tasks k ≡ some (slot_val, prio)
      → (get_elem? u.slots (i + k) ≡ some slot_val) × (get_elem? u.priorities (i + k) ≡ some prio)
  outside :
      (j : ℕ)
      → (j < i) ⊎ (i + length tasks ≤ j)
      → (get_elem? u.slots j ≡ get_elem? t.slots j)
        × (get_elem? u.priorities j ≡ get_elem? t.priorities j)
  same_done : u.done ≡ t.done
  same_size : (length u.slots ≡ length t.slots) × (length u.priorities ≡ length t.priorities)

abbrev written_at : ℕ → ℕ → ℕ → TaskSlots → TaskSlots
written_at i slot_val prio t = record t {
  slots = set t.slots i slot_val;
  priorities = set t.priorities i prio;
}

IsWritten-cons :
    (i slot_val prio : ℕ) (rest : List (ℕ × ℕ)) (t u : TaskSlots)
    → i < length t.slots
    → i < length t.priorities
    → IsWritten (suc i) rest (written_at i slot_val prio t) u
    → IsWritten i ((slot_val, prio) ∷ rest) t u
IsWritten-cons i v p rest t u a b w = record {
  inside = inside;
  outside = λ j o.
      ground
        (arith, w.outside j, get_elem?-set_ne t.slots i j v, get_elem?-set_ne t.priorities i j p);
  same_done = w.same_done;
  same_size = ground (arith, w.same_size, length-set t.slots i v, length-set t.priorities i p);
}
  where
    inside :
        (k slot_val prio : ℕ)
        → get_elem? ((v, p) ∷ rest) k ≡ some (slot_val, prio)
        → (get_elem? u.slots (i + k) ≡ some slot_val) × (get_elem? u.priorities (i + k) ≡ some prio)
    inside zero v' p' e =
        let e' : i + 0 ≡ i = omega arith in
        rw e' (
          ground (
            arith,
            w.outside i (inl (omega arith)),
            get_elem?-set_self t.slots i v a,
            get_elem?-set_self t.priorities i p b,
          ))
    inside (suc k) v' p' e =
        let e' : i + suc k ≡ suc i + k = omega arith in rw e' (w.inside k v' p' e)

write_tasks-IsWritten :
    (tasks : List (ℕ × ℕ)) (i : ℕ) (t : TaskSlots)
    → i + length tasks ≤ length t.slots
    → length t.slots ≡ length t.priorities
    → IsWritten i tasks t (write_tasks i tasks t)
unfolding write_tasks
write_tasks-IsWritten [] i t le e = record {
  inside = λ k v p h. absurd (ground arith);
  outside = λ j o. (refl, refl);
  same_done = refl;
  same_size = (refl, refl);
}
write_tasks-IsWritten ((v, p) ∷ rest) i t le e =
    IsWritten-cons i v p rest t (write_tasks (suc i) rest (written_at i v p t)) (omega arith)
      (omega arith)
      (write_tasks-IsWritten rest (suc i) (written_at i v p t)
        (omega (arith, length-set t.slots i v))
        (omega (arith, e, length-set t.slots i v, length-set t.priorities i p)))

get_elem?-cleared :
    (ds : List Bool) (j : ℕ) → j < length ds → get_elem? (map (λ d. false) ds) j ≡ some false
get_elem?-cleared [] j h = absurd (omega arith)
get_elem?-cleared (d ∷ ds) zero h = refl
get_elem?-cleared (d ∷ ds) (suc j) h = get_elem?-cleared ds j (omega arith)

length-cleared : (ds : List Bool) → length (map (λ d. false) ds) ≡ length ds
length-cleared [] = refl
length-cleared (d ∷ ds) = ap suc (length-cleared ds)

-- What arming leaves.
pub record IsArmed (n : ℕ) (tasks : List (ℕ × ℕ)) (t u : TaskSlots) : Type 0 where
  pub size : HasSize n u
  pub task :
      (k slot_val prio : ℕ)
      → get_elem? tasks k ≡ some (slot_val, prio)
      → (get_elem? u.slots k ≡ some slot_val) × (get_elem? u.priorities k ≡ some prio)
  pub beyond :
      (j : ℕ)
      → length tasks ≤ j
      → (get_elem? u.slots j ≡ get_elem? t.slots j)
        × (get_elem? u.priorities j ≡ get_elem? t.priorities j)
  pub none_done : (j : ℕ) → j < n → get_elem? u.done j ≡ some false

-- Arming panics exactly when there are more tasks than slots. Otherwise slot k holds the k-th task
-- and its priority, the slots beyond the tasks keep theirs, and no slot at all is marked done.
pub arm_task_slots_lem :
    (n : ℕ) (tasks : List (ℕ × ℕ)) (t : TaskSlots)
    → HasSize n t
    → ((n < length tasks) × (arm_task_slots tasks t ≡ none))
      ⊎ ((length tasks ≤ n)
          × (u : TaskSlots) × (arm_task_slots tasks t ≡ some u)
          × IsArmed n tasks t u)
unfolding arm_task_slots
arm_task_slots_lem n tasks t h = elim (Bool-cases (ltb (length t.slots) (length tasks))) [
  | inl e ↦ inl (ground (arith, h.slots), rw e)
  | inr e ↦
      let w =
        write_tasks-IsWritten tasks 0 t (ground arith) (omega (arith, h.slots, h.priorities)) in
      let u = write_tasks 0 tasks t in
      let cleared : TaskSlots = record u { done = map (λ d. false) u.done } in
      let done_size : length u.done ≡ n = ground (arith, w.same_done, h.done) in
      inr (
        ground (arith, h.slots),
        cleared,
        rw e,
        record {
          size = record {
            slots = omega (arith, w.same_size, h.slots);
            priorities = omega (arith, w.same_size, h.priorities);
            done = length-cleared u.done ∙ done_size;
          };
          task = λ k v p g. let at : 0 + k ≡ k = omega arith in rw at at (w.inside k v p g);
          beyond = λ j le. w.outside j (inr (omega arith));
          none_done = λ j lt. get_elem?-cleared u.done j (omega (arith, done_size));
        },
      )
]
