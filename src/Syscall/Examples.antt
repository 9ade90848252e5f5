-- ===== src/Syscall/Examples.antt =====
-- System calls from a booted kernel, with a memory of numbered cells.
use iaos.Prelude.{
  ℕ, zero, suc, ◌+◌, ◌≡◌, refl, ap, true, some, none, List, [], ◌∷◌, ltb, ◌==◌, if◌then◌else◌,
  arith, length,
}
use iaos.Memory.Paging.{Mapper}
use iaos.Tensor.{Float}
use iaos.Syscall.{
  TensorEvalArgs, Memory, Kernel, boot, dispatch_syscall, sys_agent_spawn, sys_kv_alloc,
  sys_kv_free,
}
use iaos.Syscall.Owners.{
  IsConsistent, boot-IsConsistent, spawn-IsConsistent, kv_alloc-IsConsistent, kv_free-IsConsistent,
}
use iaos.Syscall.Eval.{Returned, dispatch-Returned}

abbrev whole : Float
whole = record {
  F32 = ℕ;
  zero_f = 0;
  add = λ a b. a + b;
  mul = λ a b. a + b;
  positive = λ a. ltb 0 a;
}

abbrev window : (ℕ → ℕ) → ℕ → ℕ → List ℕ
window c ptr zero = []
window c ptr (suc len) = c ptr ∷ window c (ptr + 4) len

length-window : (c : ℕ → ℕ) (ptr len : ℕ) → length (window c ptr len) ≡ len
length-window c ptr zero = refl
length-window c ptr (suc len) = ap suc (length-window c (ptr + 4) len)

abbrev written : (ℕ → ℕ) → ℕ → List ℕ → ℕ → ℕ
written c ptr [] = c
written c ptr (v ∷ vs) = written (λ a. if a == ptr then v else c a) (ptr + 4) vs

-- A request for two rows of three weights, wherever the kernel looks for one.
abbrev request : TensorEvalArgs
request = record {
  weights = 4096;
  weights_len = 6;
  inputs = 4200;
  inputs_len = 3;
  bias = 4300;
  bias_len = 2;
  outputs = 4400;
  outputs_len = 2;
  in_dim = 3;
  out_dim = 2;
}

abbrev cells : Memory whole
cells = record {
  Contents = ℕ → ℕ;
  read_args = λ c ptr. request;
  read_f32s = window;
  write_f32s = written;
  length_read = length-window;
}

abbrev one_page : Mapper
one_page = record {
  canonical = λ a. ltb a 140737488355328;
  translate =
      λ a. if a == 4096 then some (record { present = true; user_accessible = true }) else none;
}

abbrev one_agent : Kernel
one_agent = (sys_agent_spawn 1000 boot).0

kv_alloc-IsConsistent_example : IsConsistent (sys_kv_alloc 1 64 one_agent).0
kv_alloc-IsConsistent_example =
    kv_alloc-IsConsistent 1 64 one_agent (spawn-IsConsistent 1000 boot boot-IsConsistent)

abbrev one_block : Kernel
one_block = (sys_kv_alloc 1 64 one_agent).0

kv_free-IsConsistent_example : IsConsistent (sys_kv_free 1 one_block).0
kv_free-IsConsistent_example =
    kv_free-IsConsistent 1 one_block
      (kv_alloc-IsConsistent 1 64 one_agent (spawn-IsConsistent 1000 boot boot-IsConsistent))

dispatch-Returned_example :
    Returned whole cells one_page boot
      (dispatch_syscall whole cells one_page 4 4096 0 true boot (λ a. a))
dispatch-Returned_example =
    dispatch-Returned whole cells one_page 4 4096 0 true boot (λ a. a)
      (λ ptr. record { weights_len = omega arith; outputs_len = omega arith }) boot-IsConsistent
