-- ===== src/Syscall/Eval.antt =====
-- No system call panics, and all of them keep the tables consistent.
use iaos.Prelude.{
  ℕ, ◌*◌, ◌/◌, ◌≤◌, ◌<◌, ◌≡◌, ◌≢◌, refl, inl, inr, Bool, true, false, Option, some, arith, ◌==◌,
  Bool-cases,
}
use iaos.Tensor.{Float}
use iaos.Tensor.Layer.{matmul_layer-IsFilled}
use iaos.Memory.Paging.{
  Mapper, Required, present_only, present_and_user, pointer_has_flags, range_has_flags,
}
use iaos.Memory.Paging.Range.{range_has_flags_iff}
use iaos.Syscall.{
  TensorEvalArgs, Memory, Kernel, u64_max, f32_size, args_size, saturating_mul,
  pointer_is_mapped_checked, buffers_checked, dimensions_rejected, evaluate, sys_tensor_eval,
  with_memory, with_kernel, dispatch_syscall, sys_agent_spawn, sys_kv_alloc, sys_kv_free,
}
use iaos.Syscall.Owners.{
  IsConsistent, spawn-IsConsistent, kv_alloc-IsConsistent, kv_free-IsConsistent,
}

-- No range of 2 ^ 64 - 1 bytes passes: it starts at address 0 or 1, whose page is refused.
module _ (mapper : Mapper) where
  null_page : (required : Required) → pointer_has_flags mapper 0 required ≡ false
  unfolding pointer_has_flags
  null_page required = refl

  whole_space_flags :
      (required : Required) (ptr : ℕ) → range_has_flags mapper ptr u64_max required ≢ true
  whole_space_flags required ptr h = elim ((range_has_flags_iff mapper required ptr u64_max).0 h) [
    | inl e ↦ absurd (omega arith)
    | inr c ↦
        let low : ptr / 4096 * 4096 ≡ 0 = omega (arith, c.below) in
        let page = c.page ptr (omega arith) (omega arith) in cc (null_page required, rw low at page)
  ]

  whole_space_rejected :
      (ptr : ℕ) (ring3 : Bool) → pointer_is_mapped_checked mapper ptr u64_max ring3 ≢ true
  unfolding pointer_is_mapped_checked
  whole_space_rejected ptr true h = whole_space_flags present_and_user ptr h
  whole_space_rejected ptr false h = whole_space_flags present_only ptr h

-- The lengths of a request are `usize` values.
pub record HasUsize (args : TensorEvalArgs) : Type 0 where
  pub weights_len : args.weights_len ≤ u64_max
  pub outputs_len : args.outputs_len ≤ u64_max

module _ (f : Float) (mem : Memory f) (mapper : Mapper) where
  open mem use {Contents, read_args, length_read}

  -- A request that passes the checks has room for all of its rows, even where the product of the
  -- dimensions saturates.
  module _ (args : TensorEvalArgs) (ring3 : Bool) (sized : HasUsize args)
      (buffers : buffers_checked f mem mapper args ring3 ≡ true)
      (dims : dimensions_rejected f mem mapper args ≡ false) where
    weights_checked :
        pointer_is_mapped_checked mapper args.weights
          (saturating_mul args.weights_len f32_size)
          ring3
        ≡ true
    unfolding buffers_checked
    weights_checked = ground arith

    dims_fit :
        (saturating_mul args.out_dim args.in_dim ≤ args.weights_len)
        × (args.out_dim ≤ args.outputs_len)
    unfolding dimensions_rejected
    dims_fit = ground arith

    weights_not_all : args.weights_len < u64_max
    weights_not_all = elim (Bool-cases (args.weights_len == u64_max)) [
      | inl e ↦
          let full : saturating_mul args.weights_len f32_size ≡ u64_max =
            (let e' : args.weights_len ≡ u64_max = ground arith in rw e' refl) in
          absurd (whole_space_rejected mapper args.weights ring3 (rw full at weights_checked))
      | inr e ↦ ground (arith, sized.weights_len)
    ]

    rows_fit : args.out_dim * args.in_dim ≤ args.weights_len
    rows_fit = omega (arith, dims_fit, weights_not_all)

    evaluate-some :
        (c : Contents) → (r : Contents × ℕ) × (evaluate f mem mapper args c ≡ some r) × (r.1 ≡ 0)
    unfolding evaluate
    evaluate-some c =
        let (out, e, filled) =
          matmul_layer-IsFilled f (mem.read_f32s c args.weights args.weights_len)
            (mem.read_f32s c args.inputs args.inputs_len) (mem.read_f32s c args.bias args.bias_len)
            args.in_dim (mem.read_f32s c args.outputs args.outputs_len) args.out_dim
            (rw length_read rows_fit) (rw length_read dims_fit.1) in
        ((mem.write_f32s c args.outputs out, 0), rw (e, evaluate), refl)

  tensor_eval-total :
      (arg1 : ℕ) (ring3 : Bool) (c : Contents)
      → HasUsize (read_args c arg1)
      → (r : Contents × ℕ) × (sys_tensor_eval f mem mapper arg1 ring3 c ≡ some r)
  unfolding sys_tensor_eval
  tensor_eval-total arg1 ring3 c sized =
      elim (Bool-cases (pointer_is_mapped_checked mapper arg1 args_size ring3)) [
        | inr a ↦ ((c, u64_max), rw (a, sys_tensor_eval))
        | inl a ↦ elim (Bool-cases (buffers_checked f mem mapper (read_args c arg1) ring3)) [
          | inr b ↦ ((c, u64_max), rw (a, b, sys_tensor_eval))
          | inl b ↦ elim (Bool-cases (dimensions_rejected f mem mapper (read_args c arg1))) [
            | inl d ↦ ((c, u64_max), rw (a, b, d, sys_tensor_eval))
            | inr d ↦
                let r = evaluate-some (read_args c arg1) ring3 sized b d c in
                (r.0, rw (a, b, d, sys_tensor_eval) r.1)
          ]
        ]
      ]

  -- What a system call returns when it does not panic.
  pub record Returned (k : Kernel) (r : Option (Kernel × Contents × ℕ)) : Type 0 where
    pub state : Kernel
    pub memory : Contents
    pub value : ℕ
    pub returns : r ≡ some (state, memory, value)
    pub consistent : IsConsistent state

  kernel_only :
      (k : Kernel) (c : Contents) (r : Kernel × ℕ)
      → IsConsistent r.0
      → Returned k (with_memory f mem mapper c r)
  kernel_only k c r h = record {
    state = r.0;
    memory = c;
    value = r.1;
    returns = refl;
    consistent = h;
  }

  memory_only :
      (k : Kernel) (o : Option (Contents × ℕ)) (r : Contents × ℕ)
      → o ≡ some r
      → IsConsistent k
      → Returned k (with_kernel f mem mapper k o)
  memory_only k o r e h = record {
    state = k;
    memory = r.0;
    value = r.1;
    returns = rw e;
    consistent = h;
  }

  -- From consistent tables, whatever the number and the arguments, from ring 0 or ring 3, a
  -- system call does not panic and leaves the tables consistent. The lengths in a request are
  -- `usize` values.
  pub dispatch-Returned :
      (sys_nr arg1 arg2 : ℕ) (ring3 : Bool) (k : Kernel) (c : Contents)
      → ((ptr : ℕ) → HasUsize (read_args c ptr))
      → IsConsistent k
      → Returned k (dispatch_syscall f mem mapper sys_nr arg1 arg2 ring3 k c)
  unfolding dispatch_syscall
  dispatch-Returned sys_nr arg1 arg2 ring3 k c sized h = elim (Bool-cases (sys_nr == 1)) [
    | inl a ↦ rw (a, dispatch_syscall) (kernel_only k c (k, 0) h)
    | inr a ↦ elim (Bool-cases (sys_nr == 2)) [
      | inl b ↦
          rw (a, b, dispatch_syscall)
            (kernel_only k c (sys_agent_spawn arg1 k) (spawn-IsConsistent arg1 k h))
      | inr b ↦ elim (Bool-cases (sys_nr == 3)) [
        | inl d ↦
            rw (a, b, d, dispatch_syscall)
              (kernel_only k c (sys_kv_alloc arg1 arg2 k) (kv_alloc-IsConsistent arg1 arg2 k h))
        | inr d ↦ elim (Bool-cases (sys_nr == 5)) [
          | inl e ↦
              rw (a, b, d, e, dispatch_syscall)
                (kernel_only k c (sys_kv_free arg1 k) (kv_free-IsConsistent arg1 k h))
          | inr e ↦ elim (Bool-cases (sys_nr == 4)) [
            | inl g ↦
                let r = tensor_eval-total arg1 ring3 c (sized arg1) in
                rw (a, b, d, e, g, dispatch_syscall)
                  (memory_only k (sys_tensor_eval f mem mapper arg1 ring3 c) r.0 r.1 h)
            | inr g ↦ rw (a, b, d, e, g, dispatch_syscall) (kernel_only k c (k, u64_max) h)
          ]
        ]
      ]
    ]
  ]
