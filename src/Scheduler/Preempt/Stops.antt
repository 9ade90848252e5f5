-- ===== src/Scheduler/Preempt/Stops.antt =====
-- The ticks hand the processor the stack pointers that the tasks and the idle context were left with, and
-- the idle context runs again once the ticks are used up.
use iaos.Prelude.{
  ℕ, ◌+◌, ◌-◌, ◌%◌, ◌<◌, ◌≡◌, ◌≢◌, refl, sym, ap, ◌∙◌, inl, inr, arith, Bool, true, false, not,
  ◌&&◌, ◌||◌, Bool-cases, Option, Option-cases, none, some, length, length-set, get_or-set_self,
  get_or-set_ne, ◌==◌, if◌then◌else◌,
}
use iaos.Scheduler.Process.{ready, running}
use iaos.Scheduler.Agent.{NativeAgentScheduler}
use iaos.Scheduler.Preempt.{
  PreemptTask, Preemption, task_at, top_of, has_priority, chosen, start_of, at_top, next_task,
  same_task, show_task, task_of, with_rsp, saved, rsp_in, rsp_of, counted, tick,
}

-- The idle context, or a slot with a task.
abbrev pub IsContext : Preemption → Option ℕ → Type 0
IsContext st none = Unit
IsContext st (some i) = (i < 2) × (t : PreemptTask) × (task_at st i ≡ some t)

-- The contexts that do not run were left with these stack pointers.
pub record Parks (parked : Option ℕ → ℕ) (st : Preemption) : Type 0 where
  pub size : length st.tasks ≡ 2
  pub current : IsContext st st.current
  pub holds :
      (c : Option ℕ) → IsContext st c → same_task c st.current ≡ false → rsp_of st c ≡ parked c

abbrev pub park : (Option ℕ → ℕ) → Option ℕ → ℕ → Option ℕ → ℕ
park parked from rsp c = if same_task c from then rsp else parked c

has_priority-IsContext :
    (st : Preemption) (top i : ℕ)
    → i < 2
    → has_priority top (task_at st i) ≡ true
    → IsContext st (some i)
has_priority-IsContext st top i lt h = elim (Option-cases (task_at st i)) [
  | inl e ↦ absurd (cc (rw e at h))
  | inr (t, e) ↦ (lt, t, e)
]

chosen-IsContext : (st : Preemption) (top start : ℕ) → IsContext st (chosen st top start)
chosen-IsContext st top start = elim (Bool-cases (has_priority top (task_at st (start % 2)))) [
  | inl e ↦ rw (e, IsContext) (has_priority-IsContext st top (start % 2) (omega arith) e)
  | inr e ↦ elim (Bool-cases (has_priority top (task_at st ((start + 1) % 2)))) [
    | inl f ↦ rw (e, f, IsContext) (has_priority-IsContext st top ((start + 1) % 2) (omega arith) f)
    | inr f ↦ rw (e, f, IsContext) tt
  ]
]

at_top-IsContext : (st : Preemption) (top : Option ℕ) → IsContext st (at_top st top)
at_top-IsContext st none = tt
at_top-IsContext st (some top) = chosen-IsContext st top (start_of st.current)

next_task-IsContext : (st : Preemption) → IsContext st (next_task st)
unfolding next_task
next_task-IsContext st = elim (Bool-cases (st.ticks_remaining == 0)) [
  | inl e ↦ rw (e, IsContext) tt
  | inr e ↦ rw e (at_top-IsContext st (top_of st))
]

same_task_refl : (c : Option ℕ) → same_task c c ≡ true
same_task_refl none = refl
same_task_refl (some i) = ground arith

same_task-eq : (c d : Option ℕ) → same_task c d ≡ true → c ≡ d
same_task-eq none none h = refl
same_task-eq none (some j) h = absurd (cc h)
same_task-eq (some i) none h = absurd (cc h)
same_task-eq (some i) (some j) h = let e : i ≡ j = ground arith in ap some e

-- A slot keeps a task, whatever stack pointer is stored in another.
module _ (st : Preemption) (size : length st.tasks ≡ 2) (rsp : ℕ) where
  task_at-saved :
      (i : ℕ) (t : PreemptTask)
      → i < 2
      → task_at st i ≡ some t
      → task_at (saved st (some i) rsp) i ≡ some (record t { saved_rsp = rsp })
  task_at-saved i t lt h =
      get_or-set_self st.tasks i (with_rsp rsp (task_at st i)) none (omega arith)
      ∙ ap (with_rsp rsp) h

  task_at-other : (i j : ℕ) → i ≢ j → task_at (saved st (some i) rsp) j ≡ task_at st j
  task_at-other i j ne = get_or-set_ne st.tasks i j (with_rsp rsp (task_at st i)) none (λ e. ne e)

  saved-IsContext :
      (from c : Option ℕ) → IsContext st from → IsContext st c → IsContext (saved st from rsp) c
  saved-IsContext from none f h = tt
  saved-IsContext none (some i) f h = h
  saved-IsContext (some j) (some i) f h = elim (Bool-cases (j == i)) [
    | inl e ↦
        let q : j ≡ i = ground arith in
        let (lt, t, there) = h in
        rw q (lt, record t { saved_rsp = rsp }, task_at-saved i t lt there)
    | inr e ↦ let ne : j ≢ i = λ x. ground arith in (h.0, h.1, task_at-other j i ne ∙ h.2)
  ]

  saved-IsContext_back :
      (from c : Option ℕ) → IsContext st from → IsContext (saved st from rsp) c → IsContext st c
  saved-IsContext_back from none f h = tt
  saved-IsContext_back none (some i) f h = h
  saved-IsContext_back (some j) (some i) f h = elim (Bool-cases (j == i)) [
    | inl e ↦ let q : j ≡ i = ground arith in rw (← q) f
    | inr e ↦ let ne : j ≢ i = λ x. ground arith in (h.0, h.1, sym (task_at-other j i ne) ∙ h.2)
  ]

  saved-ticks : (from : Option ℕ) → (saved st from rsp).ticks_remaining ≡ st.ticks_remaining
  saved-ticks none = refl
  saved-ticks (some i) = refl

  saved-enabled : (from : Option ℕ) → (saved st from rsp).enabled ≡ st.enabled
  saved-enabled none = refl
  saved-enabled (some i) = refl

  saved-size : (from : Option ℕ) → length (saved st from rsp).tasks ≡ 2
  saved-size none = size
  saved-size (some i) = length-set st.tasks i (with_rsp rsp (task_at st i)) ∙ size

  -- What a context was left with, once the running one is saved.
  rsp_of-saved :
      (parked : Option ℕ → ℕ) (from c : Option ℕ)
      → IsContext st from
      → IsContext st c
      → (same_task c from ≡ false → rsp_of st c ≡ parked c)
      → rsp_of (saved st from rsp) c ≡ park parked from rsp c
  rsp_of-saved parked none none f h k = refl
  rsp_of-saved parked none (some i) f h k = k refl
  rsp_of-saved parked (some j) none f h k = k refl
  rsp_of-saved parked (some j) (some i) f h k = elim (Bool-cases (i == j)) [
    | inl e ↦ let q : i ≡ j = ground arith in rw (e, q) (ap rsp_in (task_at-saved j f.1 f.0 f.2))
    | inr e ↦ let ne : j ≢ i = λ x. ground arith in rw e (ap rsp_in (task_at-other j i ne) ∙ k e)
  ]

-- A tick that counts.
pub record Ticked (parked : Option ℕ → ℕ) (st : Preemption) (lock_is_free : Bool) (rsp : ℕ)
    (sched : NativeAgentScheduler) : Type 0 where
  pub st' : Preemption
  pub sched' : NativeAgentScheduler
  pub returned :
      tick false lock_is_free rsp st sched ≡ (st', sched', park parked st.current rsp st'.current)
  pub parks : Parks (park parked st.current rsp) st'
  pub remaining : st'.ticks_remaining ≡ st.ticks_remaining - 1
  pub enabled : st'.enabled ≡ not (st'.ticks_remaining == 0)
  pub chosen : st'.current ≡ next_task (counted st)

module _ (parked : Option ℕ → ℕ) (st : Preemption) (p : Parks parked st) (lock_is_free : Bool)
    (rsp : ℕ) (sched : NativeAgentScheduler) (on : st.enabled ≡ true) where
  abbrev st1 : Preemption
  st1 = counted st

  abbrev next : Option ℕ
  next = next_task st1

  abbrev later : NativeAgentScheduler
  later =
      if lock_is_free
      then show_task running (task_of st1 next) (show_task ready (task_of st1 st.current) sched)
      else sched

  on_and : (b : Bool) → (b && st.enabled) ≡ b
  on_and true = on
  on_and false = refl

  abbrev by_test : Bool → Preemption × NativeAgentScheduler × ℕ
  by_test b =
      if b
      then (st1, sched, rsp)
      else (record (saved st1 st.current rsp) { current = next }, later, rsp_of st1 next)

  tick-by_test :
      (b : Bool) → same_task next st.current ≡ b → tick false lock_is_free rsp st sched ≡ by_test b
  unfolding tick
  tick-by_test b e =
      ap (λ x. if not x || false then (st, sched, rsp) else by_test (same_task next st.current)) on
      ∙ ap by_test e

  tick-same : same_task next st.current ≡ true → Ticked parked st lock_is_free rsp sched
  unfolding tick
  tick-same e =
      let here : next ≡ st.current = same_task-eq next st.current e in
      record {
        st' = st1;
        sched' = sched;
        returned =
            tick-by_test true e
            ∙ ap (λ b. (st1, sched, if b then rsp else parked st.current))
                (sym (same_task_refl st.current));
        parks = record {
          size = p.size;
          current = p.current;
          holds = λ c k f. rw f (p.holds c k f);
        };
        remaining = refl;
        enabled = on_and (not (st.ticks_remaining - 1 == 0));
        chosen = sym here;
      }

  tick-other : same_task next st.current ≡ false → Ticked parked st lock_is_free rsp sched
  unfolding tick
  tick-other e =
      let is_next = next_task-IsContext st1 in
      record {
        st' = record (saved st1 st.current rsp) { current = next };
        sched' = later;
        returned =
            tick-by_test false e
            ∙ ap (λ r. (record (saved st1 st.current rsp) { current = next }, later, r))
                (p.holds next is_next e ∙ ap (λ b. if b then rsp else parked next) (sym e));
        parks = record {
          size = saved-size st1 p.size rsp st.current;
          current = saved-IsContext st1 p.size rsp st.current next p.current is_next;
          holds = λ c k f.
              let before = saved-IsContext_back st1 p.size rsp st.current c p.current k in
              rsp_of-saved st1 p.size rsp parked st.current c p.current before (p.holds c before);
        };
        remaining = saved-ticks st1 p.size rsp st.current;
        enabled =
            saved-enabled st1 p.size rsp st.current
            ∙ on_and (not (st.ticks_remaining - 1 == 0))
            ∙ ap (λ r. not (r == 0)) (sym (saved-ticks st1 p.size rsp st.current));
        chosen = refl;
      }

-- With preemption on, a tick of the kernel counts down, switches to the task that is chosen, or
-- to the idle context at the last tick, and runs it with the stack pointer that it was left
-- with, whether the process table is locked or not.
pub tick-Ticked :
    (parked : Option ℕ → ℕ) (st : Preemption) (lock_is_free : Bool) (rsp : ℕ)
    (sched : NativeAgentScheduler)
    → Parks parked st
    → st.enabled ≡ true
    → Ticked parked st lock_is_free rsp sched
tick-Ticked parked st lock_is_free rsp sched p on =
    elim (Bool-cases (same_task (next_task (counted st)) st.current)) [
      | inl e ↦ tick-same parked st p lock_is_free rsp sched on e
      | inr e ↦ tick-other parked st p lock_is_free rsp sched on e
    ]
