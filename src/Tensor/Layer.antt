-- ===== src/Tensor/Layer.antt =====
-- When a forward pass stays within its buffers, and what it writes.
use iaos.Prelude.{
  ℕ, zero, suc, ◌+◌, ◌*◌, ◌≤◌, ◌<◌, ◌≡◌, refl, ◌∙◌, ◌⊎◌, true, some, List, arith, length, get_elem?,
  set, take, drop, length-set, get_elem?-set_self, get_elem?-set_ne, leb, ltb,
}
use iaos.Tensor.{Float, row_value, rows, matmul_layer}

module _ (f : Float) where
  open f use {F32}

  -- The value that belongs in row `j`.
  abbrev pub expected : List F32 → List F32 → List F32 → ℕ → ℕ → F32
  expected weights inputs bias in_dim j =
      row_value f (take in_dim (drop (j * in_dim) weights)) inputs bias j

  module _ (weights inputs bias : List F32) (in_dim : ℕ) where
    -- `out` has the rows from `lo` below `hi` computed, and the others as in `outputs`.
    pub record IsFilled (lo hi : ℕ) (outputs out : List F32) : Type 0 where
      pub same_length : length out ≡ length outputs
      pub inside :
          (j : ℕ) → lo ≤ j → j < hi → get_elem? out j ≡ some (expected weights inputs bias in_dim j)
      pub outside : (j : ℕ) → (j < lo) ⊎ (hi ≤ j) → get_elem? out j ≡ get_elem? outputs j

    row_fits :
        (row left : ℕ)
        → (row + suc left) * in_dim ≤ length weights
        → row * in_dim + in_dim ≤ length weights
    row_fits row left h = grind arith

    rows-IsFilled :
        (left row hi : ℕ) (outputs : List F32)
        → row + left ≡ hi
        → hi * in_dim ≤ length weights
        → hi ≤ length outputs
        → (out : List F32) × (rows f weights inputs bias in_dim left row outputs ≡ some out)
          × IsFilled row hi outputs out
    unfolding rows
    rows-IsFilled zero row hi outputs e w o = (
      outputs,
      refl,
      record { same_length = refl; inside = λ j a b. absurd (omega arith); outside = λ j h. refl },
    )
    rows-IsFilled (suc left) row hi outputs e w o =
        let v = expected weights inputs bias in_dim row in
        let rest =
          rows-IsFilled left (row + 1) hi (set outputs row v) (omega arith) w (rw length-set o) in
        let fits : leb (row * in_dim + in_dim) (length weights) ≡ true =
          ground (arith, row_fits row left (rw e w)) in
        let in_range : ltb row (length outputs) ≡ true = ground arith in
        (
          rest.0,
          rw (fits, in_range) rest.1,
          record {
            same_length = rest.2.same_length ∙ length-set outputs row v;
            inside = λ j a b.
                ground (arith, rest.2.inside j, rest.2.outside j, get_elem?-set_self outputs row v);
            outside = λ j h. ground (arith, rest.2.outside j, get_elem?-set_ne outputs row j v);
          },
        )

    -- With weights for `out_dim` rows of `in_dim` and an output for each row, the pass runs without
    -- a panic, writes each row's value, and leaves the outputs beyond `out_dim` alone; the lengths
    -- of the inputs and of the bias do not matter.
    pub matmul_layer-IsFilled :
        (outputs : List F32) (out_dim : ℕ)
        → out_dim * in_dim ≤ length weights
        → out_dim ≤ length outputs
        → (out : List F32) × (matmul_layer f weights inputs bias outputs in_dim out_dim ≡ some out)
          × IsFilled 0 out_dim outputs out
    unfolding matmul_layer
    matmul_layer-IsFilled outputs out_dim w o =
        rows-IsFilled out_dim 0 out_dim outputs (omega arith) w o
