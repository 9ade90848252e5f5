-- ===== src/Syscall/Owners.antt =====
-- The block that a process claims in the process table is its own in the block table, and every
-- system call on the tables keeps it so.
use iaos.Prelude.{
  ℕ, ◌≡◌, ◌≢◌, sym, ap, ◌∙◌, inl, inr, Bool, true, ◌&&◌, none, some, arith, u32, ◌==◌,
  if◌then◌else◌, Option-cases, get_elem?-lt,
}
use iaos.Scheduler.Process
use iaos.Scheduler.Process.{ProcessControlBlock, normal}
use iaos.Scheduler.Agent
use iaos.Scheduler.Agent.{
  NativeAgentScheduler, spawn, place, set_kv_block_id, clear_kv_block_id_if_matches, update_first,
  holds_block,
}
use iaos.Scheduler.Agent.Table.{
  Holds, Placed, place-Placed, AfterSet, AfterSet_lem, written, kept, Before, Before_lem, same,
  changed, update_first_unique,
}
use iaos.Scheduler.Agent.Invariant
use iaos.Memory.Kv.{KvCacheMemoryManager, allocate_kv_block, free_kv_block}
use iaos.Memory.Kv.Invariant as KvInvariant
use iaos.Memory.Kv.Laws.{owner, free_lem, allocate_lem}
use iaos.Syscall.{Kernel, boot, sys_agent_spawn, sys_kv_alloc, sys_kv_free}

-- Both tables are valid, and the block that a process claims is owned by that process.
pub record IsConsistent (k : Kernel) : Type 0 where
  pub sched : Invariant.IsValid k.sched
  pub kv : KvInvariant.IsValid k.kv
  pub claims :
      (i b : ℕ) (p : ProcessControlBlock)
      → Holds k.sched.processes i p
      → p.kv_block_id ≡ some b
      → owner b k.kv ≡ some p.pid

abbrev Claims : NativeAgentScheduler → KvCacheMemoryManager → Type 0
Claims s m =
    (i b : ℕ) (p : ProcessControlBlock)
    → Holds s.processes i p
    → p.kv_block_id ≡ some b
    → owner b m ≡ some p.pid

pub boot-IsConsistent : IsConsistent boot
boot-IsConsistent = record {
  sched = Invariant.new-IsValid;
  kv = KvInvariant.new-IsValid;
  claims = λ i b p h e. absurd (Invariant.Holds-new i p h);
}

-- Claiming a block that had no owner, for the process that becomes its owner.
set-Claims :
    (s : NativeAgentScheduler) (m m' : KvCacheMemoryManager) (pid id : ℕ)
    → Claims s m
    → owner id m ≡ none
    → ((j : ℕ) → owner j m' ≡ (if id == j then some pid else owner j m))
    → Claims (set_kv_block_id pid id s) m'
unfolding set_kv_block_id
set-Claims s m m' pid id c free after i b q h e =
    by_case
      (Before_lem (λ p. p.pid == pid) (λ p. record p { kv_block_id = some id }) s.processes i q h)
  where
    by_case :
        Before (λ p. p.pid == pid) (λ p. record p { kv_block_id = some id }) s.processes i q
        → owner b m' ≡ some q.pid
    by_case (same k) = ground (arith, c i b q k e, after b)
    by_case (changed p k t x) = rw x (ground (arith, after b, x, e))

-- From consistent tables, whatever the arguments, the allocation of a block leaves both tables
-- valid, and every block that a process claims owned by that process.
pub kv_alloc-IsConsistent :
    (arg1 arg2 : ℕ) (k : Kernel) → IsConsistent k → IsConsistent (sys_kv_alloc arg1 arg2 k).0
unfolding sys_kv_alloc
kv_alloc-IsConsistent arg1 arg2 k h = elim (allocate_lem k.kv h.kv (u32 arg1) arg2) [
  | inl (all_owned, e) ↦ rw (e, sys_kv_alloc) h
  | inr (id, got) ↦ rw got.returned (record {
    sched = Invariant.set_kv_block_id-IsValid k.sched h.sched (u32 arg1) id;
    kv = KvInvariant.allocate-IsValid k.kv h.kv (u32 arg1) arg2;
    claims =
        set-Claims k.sched k.kv (allocate_kv_block (u32 arg1) arg2 k.kv).0 (u32 arg1) id h.claims
          got.was_free got.owners;
  })
]

-- Freeing a block, after which its owner no longer claims it.
module _ (s : NativeAgentScheduler) (m m' : KvCacheMemoryManager) (pid id : ℕ)
    (v : Invariant.IsValid s) (c : Claims s m) (owned : owner id m ≡ some pid)
    (after : (j : ℕ) → owner j m' ≡ (if id == j then none else owner j m)) where
  abbrev test : ProcessControlBlock → Bool
  test p = p.pid == pid && holds_block p.kv_block_id id

  abbrev change : ProcessControlBlock → ProcessControlBlock
  change p = record p { kv_block_id = none }

  only_one :
      (i : ℕ) (p : ProcessControlBlock)
      → Holds s.processes i p
      → p.pid ≡ pid
      → (j : ℕ) (q : ProcessControlBlock) → Holds s.processes j q
      → test q ≡ true
      → j ≡ i
  only_one i p h e j q k t = v.distinct j i q p k h (ground arith)

  claimed_then_cleared :
      (i : ℕ) (q : ProcessControlBlock)
      → Holds s.processes i q
      → Holds (update_first test change s.processes) i q
      → q.kv_block_id ≢ some id
  claimed_then_cleared i q k h e =
      let mine : q.pid ≡ pid = ground (arith, c i id q k e) in
      let passes : test q ≡ true = ground arith in
      let cleared =
        update_first_unique test change s.processes i q k passes (only_one i q k mine) in
      let gone : q ≡ change q = ground (arith, h.at, cleared.at) in
      cc (ap (λ (t : ProcessControlBlock). t.kv_block_id) gone)

  clear-Claims : Claims (clear_kv_block_id_if_matches pid id s) m'
  unfolding clear_kv_block_id_if_matches
  clear-Claims i b q h e = by_case (Before_lem test change s.processes i q h)
    where
      by_case : Before test change s.processes i q → owner b m' ≡ some q.pid
      by_case (same k) = ground (arith, c i b q k e, after b, claimed_then_cleared i q k h)
      by_case (changed p k t x) = cc (ap (λ (t : ProcessControlBlock). t.kv_block_id) x)

-- From consistent tables, whatever the argument, the freeing of a block leaves both tables
-- valid, and every block that a process claims owned by that process.
pub kv_free-IsConsistent :
    (arg1 : ℕ) (k : Kernel) → IsConsistent k → IsConsistent (sys_kv_free arg1 k).0
unfolding sys_kv_free
kv_free-IsConsistent arg1 k h =
    let laws = free_lem k.kv h.kv (u32 arg1) in
    elim (Option-cases (free_kv_block (u32 arg1) k.kv).1) [
      | inl e ↦
          rw (e, sys_kv_free)
            (record {
              sched = h.sched;
              kv = KvInvariant.free-IsValid k.kv h.kv (u32 arg1);
              claims = λ i b p g x. ground (arith, laws.0, laws.1 b, h.claims i b p g x);
            })
      | inr (pid, e) ↦
          rw (e, sys_kv_free)
            (record {
              sched = Invariant.clear_kv_block_id-IsValid k.sched h.sched pid (u32 arg1);
              kv = KvInvariant.free-IsValid k.kv h.kv (u32 arg1);
              claims =
                  clear-Claims k.sched k.kv (free_kv_block (u32 arg1) k.kv).0 pid (u32 arg1) h.sched
                    h.claims (sym laws.0 ∙ e) laws.1;
            })
    ]

-- A spawned process claims no block.
spawn-Claims :
    (quota : ℕ) (s : NativeAgentScheduler) (m : KvCacheMemoryManager)
    → Claims s m
    → Claims (spawn "userspace-agent-sys" normal quota s).0 m
unfolding spawn
spawn-Claims quota s m c = elim (Option-cases (place fresh s.processes)) [
  | inl e ↦ rw (e, spawn) c
  | inr (qs, e) ↦ rw (e, spawn) (placed qs (place-Placed fresh s.processes qs e))
]
  where
    fresh : ProcessControlBlock
    fresh = Process.new s.next_pid "userspace-agent-sys" normal quota

    placed :
        (qs : Agent.Slots)
        → Placed fresh s.processes qs
        → (i b : ℕ) (p : ProcessControlBlock) → Holds qs i p
        → p.kv_block_id ≡ some b
        → owner b m ≡ some p.pid
    placed qs r i b p h x = by_case (
        AfterSet_lem s.processes r.slot fresh i p (get_elem?-lt s.processes r.slot none r.was_empty)
          (record { at = rw (← r.result) h.at }))
      where
        by_case : AfterSet s.processes r.slot fresh i p → owner b m ≡ some p.pid
        by_case (written a y) = cc (ap (λ (t : ProcessControlBlock). t.kv_block_id) y)
        by_case (kept a y) = c i b p y x

pub spawn-IsConsistent :
    (arg1 : ℕ) (k : Kernel) → IsConsistent k → IsConsistent (sys_agent_spawn arg1 k).0
unfolding sys_agent_spawn
spawn-IsConsistent arg1 k h = record {
  sched = Invariant.spawn-IsValid "userspace-agent-sys" normal arg1 k.sched h.sched;
  kv = h.kv;
  claims = spawn-Claims arg1 k.sched k.kv h.claims;
}
