-- ===== src/Syscall.antt =====
-- agentos-kernel/src/syscall.rs: the system calls, over the process table, the block table and the
-- memory of the caller. Console and serial output is left out.
-- A parameter: the page tables, and the memory that raw pointers reach. `read_args` is the struct at
-- an address, `read_f32s` the slice at an address; the buffers of one request do not overlap, as the
-- source's `from_raw_parts_mut` demands.
pub mod Owners
pub mod Eval
mod Examples
use iaos.Prelude.{
  ℕ, zero, suc, ◌+◌, ◌-◌, ◌*◌, ◌^◌, ◌≡◌, Bool, true, false, not, ◌&&◌, ◌||◌, Option, none, some,
  List, length, min, ltb, ◌==◌, if◌then◌else◌, u32,
}
use iaos.Scheduler.Process.{normal}
use iaos.Scheduler.Agent
use iaos.Scheduler.Agent.{
  NativeAgentScheduler, spawn, set_kv_block_id, clear_kv_block_id_if_matches, usize_max,
}
use iaos.Memory.Kv
use iaos.Memory.Kv.{KvCacheMemoryManager, allocate_kv_block, free_kv_block}
use iaos.Memory.Paging.{Mapper, range_is_mapped, range_is_user_accessible}
use iaos.Tensor.{Float, matmul_layer}

pub record TensorEvalArgs : Type 0 where
  pub weights : ℕ
  pub weights_len : ℕ
  pub inputs : ℕ
  pub inputs_len : ℕ
  pub bias : ℕ
  pub bias_len : ℕ
  pub outputs : ℕ
  pub outputs_len : ℕ
  pub in_dim : ℕ
  pub out_dim : ℕ

-- The memory that the kernel's raw pointers reach.
pub record Memory (f : Float) : Type 1 where
  pub Contents : Type 0
  pub read_args : Contents → ℕ → TensorEvalArgs
  pub read_f32s : Contents → ℕ → ℕ → List (Float.F32 f)
  pub write_f32s : Contents → ℕ → List (Float.F32 f) → Contents
  pub length_read : (c : Contents) (ptr len : ℕ) → length (read_f32s c ptr len) ≡ len

abbrev pub u64_max : ℕ
u64_max = 2 ^ 64 - 1

-- `size_of::<f32>()` and `size_of::<TensorEvalArgs>()`: ten fields of eight bytes.
abbrev pub f32_size : ℕ
f32_size = 4

abbrev pub args_size : ℕ
args_size = 80

-- `saturating_mul` on 64 bits.
abbrev pub saturating_mul : ℕ → ℕ → ℕ
saturating_mul a b = min (a * b) u64_max

unfoldable pub pointer_is_mapped_checked : Mapper → ℕ → ℕ → Bool → Bool
pointer_is_mapped_checked mapper ptr len_bytes require_user_accessible =
    if len_bytes == 0
    then true
    else if require_user_accessible
    then range_is_user_accessible mapper ptr len_bytes
    else range_is_mapped mapper ptr len_bytes

pub record Kernel : Type 0 where
  pub sched : NativeAgentScheduler
  pub kv : KvCacheMemoryManager

abbrev pub boot : Kernel
boot = record { sched = Agent.new; kv = Kv.new }

-- A value or 0.
abbrev pub or_zero : Option ℕ → ℕ
or_zero none = 0
or_zero (some n) = n

unfoldable pub sys_agent_spawn : ℕ → Kernel → Kernel × ℕ
sys_agent_spawn arg1 k =
    let (sched, pid) = spawn "userspace-agent-sys" normal arg1 k.sched in
    (record k { sched = sched }, or_zero pid)

abbrev pub record_block : ℕ → Option ℕ → Kernel → Kernel × ℕ
record_block pid none k = (k, 0)
record_block pid (some b) k = (record k { sched = set_kv_block_id pid b k.sched }, b)

unfoldable pub sys_kv_alloc : ℕ → ℕ → Kernel → Kernel × ℕ
sys_kv_alloc arg1 arg2 k =
    let (kv, block_id) = allocate_kv_block (u32 arg1) arg2 k.kv in
    record_block (u32 arg1) block_id (record k { kv = kv })

abbrev pub forget_block : ℕ → Option ℕ → Kernel → Kernel × ℕ
forget_block block_id none k = (k, 0)
forget_block block_id (some pid) k =
    (record k { sched = clear_kv_block_id_if_matches pid block_id k.sched }, 1)

unfoldable pub sys_kv_free : ℕ → Kernel → Kernel × ℕ
sys_kv_free arg1 k =
    let (kv, freed_pid) = free_kv_block (u32 arg1) k.kv in
    forget_block (u32 arg1) freed_pid (record k { kv = kv })

module _ (f : Float) (mem : Memory f) (mapper : Mapper) where
  open mem use {Contents, read_args, read_f32s, write_f32s}

  -- The four buffers of a request pass the check.
  unfoldable pub buffers_checked : TensorEvalArgs → Bool → Bool
  buffers_checked args ring3 =
      pointer_is_mapped_checked mapper args.weights (saturating_mul args.weights_len f32_size) ring3
      && pointer_is_mapped_checked mapper args.inputs (saturating_mul args.inputs_len f32_size)
          ring3
      && pointer_is_mapped_checked mapper args.bias (saturating_mul args.bias_len f32_size) ring3
      && pointer_is_mapped_checked mapper args.outputs (saturating_mul args.outputs_len f32_size)
          ring3

  -- `weights_needed > weights_len || out_dim > outputs_len`
  unfoldable pub dimensions_rejected : TensorEvalArgs → Bool
  dimensions_rejected args =
      ltb args.weights_len (saturating_mul args.out_dim args.in_dim)
      || ltb args.outputs_len args.out_dim

  -- The call of `matmul_layer`; `none` is its panic.
  unfoldable pub evaluate : TensorEvalArgs → Contents → Option (Contents × ℕ)
  evaluate args c =
      elim (matmul_layer f (read_f32s c args.weights args.weights_len)
        (read_f32s c args.inputs args.inputs_len) (read_f32s c args.bias args.bias_len)
        (read_f32s c args.outputs args.outputs_len) args.in_dim args.out_dim) [
          | none ↦ none
          | some out ↦ some (write_f32s c args.outputs out, 0)
        ]

  unfoldable pub sys_tensor_eval : ℕ → Bool → Contents → Option (Contents × ℕ)
  sys_tensor_eval arg1 ring3 c =
      if not (pointer_is_mapped_checked mapper arg1 args_size ring3)
      then some (c, u64_max)
      else if not (buffers_checked (read_args c arg1) ring3)
      then some (c, u64_max)
      else if dimensions_rejected (read_args c arg1)
      then some (c, u64_max)
      else evaluate (read_args c arg1) c

  -- A call that leaves the memory alone.
  abbrev pub with_memory : Contents → Kernel × ℕ → Option (Kernel × Contents × ℕ)
  with_memory c (k, r) = some (k, c, r)

  abbrev pub with_kernel : Kernel → Option (Contents × ℕ) → Option (Kernel × Contents × ℕ)
  with_kernel k none = none
  with_kernel k (some (c, r)) = some (k, c, r)

  -- `none` is a panic, which halts the kernel.
  unfoldable pub dispatch_syscall :
      ℕ → ℕ → ℕ → Bool → Kernel → Contents → Option (Kernel × Contents × ℕ)
  dispatch_syscall sys_nr arg1 arg2 caller_is_ring3 k c =
      if sys_nr == 1
      then some (k, c, 0)
      else if sys_nr == 2
      then with_memory c (sys_agent_spawn arg1 k)
      else if sys_nr == 3
      then with_memory c (sys_kv_alloc arg1 arg2 k)
      else if sys_nr == 5
      then with_memory c (sys_kv_free arg1 k)
      else if sys_nr == 4
      then with_kernel k (sys_tensor_eval arg1 caller_is_ring3 c)
      else some (k, c, u64_max)
