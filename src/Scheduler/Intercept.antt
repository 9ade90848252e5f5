-- ===== src/Scheduler/Intercept.antt =====
-- agentos-kernel/src/scheduler/ring3_preempt.rs: the one interception of a ring-3 program by the timer, whose
-- context is parked in a buffer of its own.
use iaos.Prelude.{ℕ, ◌≡◌, refl, Bool, true, false, not, inl, inr, Bool-cases, if◌then◌else◌}
use iaos.Scheduler.RawMemory.{Memory, write, read, copy, poison, AreApart, read-parked}

pub record Interception : Type 0 where
  pub enabled : Bool
  pub hit : Bool
  pub task_ctx : ℕ

-- The first tick parks the context and resumes from the copy; the later ones do nothing.
unfoldable pub tick : Interception → Memory → ℕ → Interception × Memory × ℕ
tick st memory saved_ctx_ptr =
    if not st.enabled
    then (st, memory, saved_ctx_ptr)
    else if st.hit
    then (st, memory, saved_ctx_ptr)
    else (
      record st { hit = true },
      write (copy memory saved_ctx_ptr st.task_ctx) saved_ctx_ptr poison,
      st.task_ctx,
    )

-- `run_intercepting` up to the call of `f`, with a buffer at the address that the allocator gave.
unfoldable pub arm : ℕ → Interception
arm ctx_buf = record { enabled = true; hit = false; task_ctx = ctx_buf }

-- `run_intercepting` behind the call of `f`, with whether a tick was intercepted.
unfoldable pub disarm : Interception → Interception × Bool
disarm st = (record st { enabled = false }, st.hit)

-- Whether or not the tick intercepts, the program is resumed with the context it was interrupted with, where
-- this did not overlap the buffer.
tick-resumes :
    (st : Interception) (memory : Memory) (saved_ctx_ptr : ℕ)
    → AreApart saved_ctx_ptr st.task_ctx
    → read 160 (tick st memory saved_ctx_ptr).1 ((tick st memory saved_ctx_ptr).2)
      ≡ read 160 memory saved_ctx_ptr
unfolding tick
tick-resumes st memory saved_ctx_ptr apart = elim (Bool-cases st.enabled) [
  | inr e ↦ rw e refl
  | inl e ↦ elim (Bool-cases st.hit) [
    | inl h ↦ rw (e, h) refl
    | inr h ↦ rw (e, h) (read-parked memory saved_ctx_ptr st.task_ctx apart)
  ]
]
