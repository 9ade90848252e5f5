-- ===== src/Tensor/Examples.antt =====
-- A layer of two rows over three inputs, with whole numbers as the number type.
use iaos.Prelude.{ℕ, ◌+◌, ◌*◌, ◌≡◌, refl, some, List, [], ◌∷◌, ltb, arith}
use iaos.Tensor.{Float, matmul_layer, rows, row_value, relu, dot_product, dot_unrolled, dot_rest}
use iaos.Tensor.Layer.{IsFilled, matmul_layer-IsFilled}

abbrev pub whole : Float
whole = record {
  F32 = ℕ;
  zero_f = 0;
  add = λ a b. a + b;
  mul = λ a b. a * b;
  positive = λ a. ltb 0 a;
}

abbrev weights : List ℕ
weights = 1 ∷ 2 ∷ 3 ∷ 4 ∷ 5 ∷ 6 ∷ []

abbrev inputs : List ℕ
inputs = 1 ∷ 1 ∷ 2 ∷ []

abbrev bias : List ℕ
bias = 10 ∷ []

abbrev outputs : List ℕ
outputs = 7 ∷ 7 ∷ 7 ∷ []

layer_run : matmul_layer whole weights inputs bias outputs 3 2 ≡ some (19 ∷ 21 ∷ 7 ∷ [])
unfolding matmul_layer rows row_value relu dot_product dot_unrolled dot_rest
layer_run = refl

matmul_layer-IsFilled_example :
    (out : List ℕ) × (matmul_layer whole weights inputs bias outputs 3 2 ≡ some out)
    × IsFilled whole weights inputs bias 3 0 2 outputs out
matmul_layer-IsFilled_example =
    matmul_layer-IsFilled whole weights inputs bias 3 outputs 2 (omega arith) (omega arith)
