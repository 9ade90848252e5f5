-- ===== src/Scheduler/Process.antt =====
-- agentos-kernel/src/scheduler/process.rs: the process control block.
use Prim.Native.String.{String}
use iaos.Prelude.{ℕ, Bool, true, false, Option, none}

pub data ProcessState : Type 0 where
  ready running blocked terminated : ProcessState

pub data Priority : Type 0 where
  kernel_critical high normal background : Priority

-- `priority as u8`
abbrev pub as_u8 : Priority → ℕ
as_u8 kernel_critical = 0
as_u8 high = 1
as_u8 normal = 2
as_u8 background = 3

pub record ProcessControlBlock : Type 0 where
  pub pid : ℕ
  pub name : String
  pub state : ProcessState
  pub priority : Priority
  pub token_quota : ℕ
  pub tokens_used : ℕ
  pub kv_block_id : Option ℕ
  pub stack_pointer : ℕ

-- `ProcessControlBlock::new`
abbrev pub new : ℕ → String → Priority → ℕ → ProcessControlBlock
new pid name priority token_quota = record {
  pid = pid;
  name = name;
  state = ready;
  priority = priority;
  token_quota = token_quota;
  tokens_used = 0;
  kv_block_id = none;
  stack_pointer = 0;
}

-- `state == ProcessState::Ready`
abbrev pub is_ready : ProcessState → Bool
is_ready ready = true
is_ready _ = false
