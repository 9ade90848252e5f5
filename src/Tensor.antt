-- ===== src/Tensor.antt =====
-- agentos-kernel/src/tensor_engine.rs: dot products and a layer's forward pass.
-- `f32` is a parameter: a type with the operations that the code uses, and no law.
pub mod Layer
pub mod Gguf
mod Examples
use iaos.Prelude.{
  ℕ, zero, suc, ◌+◌, ◌-◌, ◌*◌, Bool, Option, none, some, List, [], ◌∷◌, min, ltb, leb,
  if◌then◌else◌, length, get_elem?, get_or, set, take, drop,
}

pub record Float : Type 1 where
  pub F32 : Type 0
  pub zero_f : F32
  pub add : F32 → F32 → F32
  pub mul : F32 → F32 → F32
  pub positive : F32 → Bool

module _ (f : Float) where
  open f use {F32, zero_f, add, mul, positive}

  -- `w[i] * x[i]`, below both lengths.
  abbrev pub term : List F32 → List F32 → ℕ → F32
  term w x i = mul (get_or w i zero_f) (get_or x i zero_f)

  -- The second loop: one term at a time, `left` rounds from index `i`.
  unfoldable pub dot_rest : List F32 → List F32 → ℕ → ℕ → F32 → F32
  dot_rest w x zero i sum = sum
  dot_rest w x (suc left) i sum = dot_rest w x left (i + 1) (add sum (term w x i))

  -- The first loop: four terms at a time while `i + 4 <= len`.
  unfoldable pub dot_unrolled : List F32 → List F32 → ℕ → ℕ → F32 → F32
  unfolding dot_rest
  dot_unrolled w x (suc (suc (suc (suc left)))) i sum = dot_unrolled w x left (i + 4) (
      add sum
        (add (add (add (term w x i) (term w x (i + 1))) (term w x (i + 2))) (term w x (i + 3))))
  dot_unrolled w x left i sum = dot_rest w x left i sum

  unfoldable pub dot_product : List F32 → List F32 → F32
  unfolding dot_unrolled
  dot_product w x = dot_unrolled w x (min (length w) (length x)) 0 zero_f

  unfoldable pub relu : F32 → F32
  relu v = if positive v then v else zero_f

  -- `&xs[start..end]`; `none` is the panic of a range past the end.
  abbrev pub slice : List F32 → ℕ → ℕ → Option (List F32)
  slice xs start size =
      if leb (start + size) (length xs) then some (take size (drop start xs)) else none

  -- `outputs[i] = v`; `none` is the panic of an index past the end.
  abbrev pub store : List F32 → ℕ → F32 → Option (List F32)
  store outputs i v = if ltb i (length outputs) then some (set outputs i v) else none

  -- One row of the loop.
  unfoldable pub row_value : List F32 → List F32 → List F32 → ℕ → F32
  unfolding dot_product relu
  row_value row_weights inputs bias row =
      relu (add (dot_product row_weights inputs) (get_or bias row zero_f))

  infixl 5 ◌>>=◌
  abbrev ◌>>=◌ : {A B : Type 0} → Option A → (A → Option B) → Option B
  none >>= k = none
  some a >>= k = k a

  -- The loop over the rows, `left` of them from `row` on.
  unfoldable pub rows : List F32 → List F32 → List F32 → ℕ → ℕ → ℕ → List F32 → Option (List F32)
  rows weights inputs bias in_dim zero row outputs = some outputs
  rows weights inputs bias in_dim (suc left) row outputs = do
    row_weights ← slice weights (row * in_dim) in_dim
    outputs' ← store outputs row (row_value row_weights inputs bias row)
    rows weights inputs bias in_dim left (row + 1) outputs'

  unfoldable pub matmul_layer :
      List F32 → List F32 → List F32 → List F32 → ℕ → ℕ → Option (List F32)
  unfolding rows
  matmul_layer weights inputs bias outputs in_dim out_dim =
      rows weights inputs bias in_dim out_dim 0 outputs
