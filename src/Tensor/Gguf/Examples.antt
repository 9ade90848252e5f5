-- ===== src/Tensor/Gguf/Examples.antt =====
-- Two tensor-info entries, with names of bytes that are text.
use iaos.Prelude.{ℕ, ◌≡◌, refl, Option, some, List, [], ◌∷◌, ok}
use iaos.Tensor.Gguf.{f32, q4_k, GgufTensorInfo, parse_many}
use iaos.Tensor.Gguf.RoundTrip.{all_encoded, parse_many-all_encoded}

abbrev as_text : List ℕ → Option (List ℕ)
as_text bytes = some bytes

abbrev to_bytes : List ℕ → List ℕ
to_bytes bytes = bytes

abbrev infos : List (GgufTensorInfo (List ℕ))
infos =
    record { name = 119 ∷ 49 ∷ []; dim0 = 4; dim1 = 300; gtype = f32; offset = 0 }
    ∷ record { name = 98 ∷ []; dim0 = 4; dim1 = 1; gtype = q4_k; offset = 4800 }
    ∷ []

parse_many-all_encoded_example :
    parse_many (List ℕ) as_text (all_encoded (List ℕ) as_text to_bytes infos (9 ∷ 9 ∷ [])) 2
    ≡ ok (infos, 43)
parse_many-all_encoded_example =
    parse_many-all_encoded (List ℕ) as_text to_bytes infos (9 ∷ 9 ∷ []) (refl, (refl, tt))
