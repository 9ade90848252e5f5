-- ===== src/Tensor/Gguf/RoundTrip.antt =====
-- Tensor-info entries are parsed back from their encoding.
use iaos.Prelude.{
  take-front, drop-front, ℕ, zero, suc, ◌+◌, ◌-◌, ◌*◌, ◌/◌, ◌%◌, ◌≤◌, ◌≡◌, refl, sym, ap, ◌∙◌,
  arith, false, Option, some, List, [], ◌∷◌, ◌++◌, length, length-append, length-drop, append_assoc,
  append_nil, byte, take, drop, drop-drop, le32_bytes, ltb, le→ltb_false, ok, All,
}
use iaos.Tensor.Gguf.{
  GgufGtype, f32, f16, q4_0, q4_1, q8_0, q2_k, q3_k, q4_k, q5_k, q6_k, q8_k, discriminant, from_u32,
  GgufTensorInfo, read_u32, parse, parse_from, parse_many,
}

pub from_u32-discriminant : (g : GgufGtype) → from_u32 (discriminant g) ≡ ok g
unfolding from_u32 discriminant
from_u32-discriminant f32 = refl
from_u32-discriminant f16 = refl
from_u32-discriminant q4_0 = refl
from_u32-discriminant q4_1 = refl
from_u32-discriminant q8_0 = refl
from_u32-discriminant q2_k = refl
from_u32-discriminant q3_k = refl
from_u32-discriminant q4_k = refl
from_u32-discriminant q5_k = refl
from_u32-discriminant q6_k = refl
from_u32-discriminant q8_k = refl

byte-append : (xs ys : List ℕ) (n k : ℕ) → length xs ≡ n → byte (xs ++ ys) (n + k) ≡ byte ys k
byte-append [] ys n k h = let z : n + k ≡ k = omega arith in rw z refl
byte-append (x ∷ xs) ys zero k h = absurd (omega arith)
byte-append (x ∷ xs) ys (suc n) k h =
    let z : suc n + k ≡ suc (n + k) = omega arith in rw z (byte-append xs ys n k (omega arith))

le32-le32_bytes :
    (x : ℕ) → x % 256 + x / 256 % 256 * 256 + x / 65536 % 256 * 65536 + x / 16777216 * 16777216 ≡ x
le32-le32_bytes x = omega arith

-- A word behind some bytes is read.
read_u32-append :
    (xs ys : List ℕ) (n k x : ℕ)
    → length xs ≡ n
    → read_u32 ys k ≡ x
    → read_u32 (xs ++ ys) (n + k) ≡ x
read_u32-append xs ys n k x h e =
    let z1 : n + k + 1 ≡ n + (k + 1) = omega arith in
    let z2 : n + k + 2 ≡ n + (k + 2) = omega arith in
    let z3 : n + k + 3 ≡ n + (k + 3) = omega arith in
    rw
      (
        z1,
        z2,
        z3,
        byte-append xs ys n k h,
        byte-append xs ys n (k + 1) h,
        byte-append xs ys n (k + 2) h,
        byte-append xs ys n (k + 3) h,
      )
      e

module _ (Text : Type 0) (from_utf8 : List ℕ → Option Text) (to_bytes : Text → List ℕ) where
  -- The four words behind a name.
  abbrev fields : GgufTensorInfo Text → List ℕ → List ℕ
  fields info rest =
      le32_bytes info.dim0
      ++ (le32_bytes info.dim1
          ++ (le32_bytes (discriminant info.gtype) ++ (le32_bytes info.offset ++ rest)))

  -- An entry, and the bytes behind it.
  abbrev pub encoded : GgufTensorInfo Text → List ℕ → List ℕ
  encoded info rest =
      (le32_bytes (length (to_bytes info.name)) ++ to_bytes info.name) ++ fields info rest

  abbrev pub size_of : GgufTensorInfo Text → ℕ
  size_of info = 4 + length (to_bytes info.name) + 16

  -- Text is decoded from its bytes.
  abbrev pub Decodes : GgufTensorInfo Text → Type 0
  Decodes info = from_utf8 (to_bytes info.name) ≡ some info.name

  -- What is parsed, from what is read.
  parse-read :
      (bytes : List ℕ) (info : GgufTensorInfo Text) (len : ℕ)
      → read_u32 bytes 0 ≡ len
      → from_utf8 (take len (drop 4 bytes)) ≡ some info.name
      → read_u32 bytes (4 + len) ≡ info.dim0
      → read_u32 bytes (4 + len + 4) ≡ info.dim1
      → read_u32 bytes (4 + len + 8) ≡ discriminant info.gtype
      → read_u32 bytes (4 + len + 12) ≡ info.offset
      → ltb (length bytes) 4 ≡ false
      → ltb (length bytes) (4 + len + 16) ≡ false
      → parse Text from_utf8 bytes ≡ ok (info, 4 + len + 16)
  unfolding parse
  parse-read bytes info len n name d0 d1 g o t4 tf =
      rw (n, name, d0, d1, g, o, t4, tf, from_u32-discriminant info.gtype) refl

  module _ (info : GgufTensorInfo Text) (rest : List ℕ) where
    abbrev len : ℕ
    len = length (to_bytes info.name)

    abbrev start : List ℕ
    start = le32_bytes len ++ to_bytes info.name

    length-start : length start ≡ 4 + len
    length-start = length-append (le32_bytes len) (to_bytes info.name)

    length-fields : length (fields info rest) ≡ 16 + length rest
    length-fields = omega arith

    length-encoded : length (encoded info rest) ≡ size_of info + length rest
    length-encoded =
        length-append start (fields info rest) ∙ omega (arith, length-start, length-fields)

    field :
        (k x : ℕ)
        → read_u32 (fields info rest) k ≡ x
        → read_u32 (encoded info rest) (4 + len + k) ≡ x
    field k x e = read_u32-append start (fields info rest) (4 + len) k x length-start e

    name_len : read_u32 (encoded info rest) 0 ≡ len
    name_len = le32-le32_bytes len

    name_bytes : take len (drop 4 (encoded info rest)) ≡ to_bytes info.name
    name_bytes = take-front (to_bytes info.name) (fields info rest)

    parse-encoded :
        Decodes info → parse Text from_utf8 (encoded info rest) ≡ ok (info, size_of info)
    unfolding parse
    parse-encoded decodes =
        let first : 4 + len + 0 ≡ 4 + len = omega arith in
        let d0 : read_u32 (encoded info rest) (4 + len) ≡ info.dim0 =
          rw first at (field 0 info.dim0 (le32-le32_bytes info.dim0)) in
        let d1 = field 4 info.dim1 (le32-le32_bytes info.dim1) in
        let g = field 8 (discriminant info.gtype) (le32-le32_bytes (discriminant info.gtype)) in
        let o = field 12 info.offset (le32-le32_bytes info.offset) in
        let t4 : ltb (length (encoded info rest)) 4 ≡ false =
          le→ltb_false (length (encoded info rest)) 4 (omega (arith, length-encoded)) in
        let tf : ltb (length (encoded info rest)) (4 + len + 16) ≡ false =
          le→ltb_false (length (encoded info rest)) (4 + len + 16)
            (omega (arith, length-encoded)) in
        parse-read (encoded info rest) info len name_len (ap from_utf8 name_bytes ∙ decodes) d0 d1 g
          o t4 tf

    drop-encoded : drop (size_of info) (encoded info rest) ≡ rest
    drop-encoded =
        ap (λ n. drop (n + 16) (encoded info rest)) (sym length-start)
        ∙ sym (drop-drop 16 (length start) (encoded info rest))
        ∙ ap (drop 16) (drop-front start (fields info rest))

  -- Entries one after the other, and the bytes behind them.
  abbrev pub all_encoded : List (GgufTensorInfo Text) → List ℕ → List ℕ
  all_encoded [] rest = rest
  all_encoded (info ∷ infos) rest = encoded info (all_encoded infos rest)

  abbrev pub total : List (GgufTensorInfo Text) → ℕ
  total [] = 0
  total (info ∷ infos) = size_of info + total infos

  -- One entry more in front.
  parse_from-step :
      (bytes : List ℕ) (left offset : ℕ) (parsed : List (GgufTensorInfo Text))
      (info : GgufTensorInfo Text) (rest : List ℕ)
      → offset ≤ length bytes
      → drop offset bytes ≡ encoded info rest
      → Decodes info
      → parse_from Text from_utf8 bytes (suc left) offset parsed
        ≡ parse_from Text from_utf8 bytes left (offset + size_of info) (parsed ++ (info ∷ []))
  unfolding parse_from
  parse_from-step bytes left offset parsed info rest le e d =
      let t = le→ltb_false (length bytes) offset le in
      let one = ap (parse Text from_utf8) e ∙ parse-encoded info rest d in rw (t, one) refl

  parse_from-encoded :
      (bytes : List ℕ) (offset : ℕ) (parsed infos : List (GgufTensorInfo Text)) (rest : List ℕ)
      → offset ≤ length bytes
      → drop offset bytes ≡ all_encoded infos rest
      → All Decodes infos
      → parse_from Text from_utf8 bytes (length infos) offset parsed
        ≡ ok (parsed ++ infos, offset + total infos)
  unfolding parse_from
  parse_from-encoded bytes offset parsed [] rest le e d =
      let z : offset + 0 ≡ offset = omega arith in rw (append_nil parsed, z) refl
  parse_from-encoded bytes offset parsed (info ∷ infos) rest le e d =
      let behind = all_encoded infos rest in
      let next : drop (offset + size_of info) bytes ≡ behind =
        sym (drop-drop (size_of info) offset bytes)
        ∙ ap (drop (size_of info)) e
        ∙ drop-encoded info behind in
      let long : length bytes - offset ≡ size_of info + length behind =
        sym (length-drop offset bytes) ∙ ap length e ∙ length-encoded info behind in
      let sum : offset + size_of info + total infos ≡ offset + (size_of info + total infos) =
        omega arith in
      parse_from-step bytes (length infos) offset parsed info behind le e d.0
      ∙ parse_from-encoded bytes (offset + size_of info) (parsed ++ (info ∷ [])) infos rest
          (omega (arith, long)) next d.1
      ∙ ap (λ t. ok (t, offset + size_of info + total infos))
          (append_assoc parsed (info ∷ []) infos)
      ∙ ap (λ t. ok (parsed ++ (info ∷ infos), t)) sum

  -- Tensor entries whose names decode from their bytes, encoded one after the other in front
  -- of any bytes, are parsed back, and the bytes consumed are those of the entries.
  pub parse_many-all_encoded :
      (infos : List (GgufTensorInfo Text)) (rest : List ℕ)
      → All Decodes infos
      → parse_many Text from_utf8 (all_encoded infos rest) (length infos) ≡ ok (infos, total infos)
  unfolding parse_many
  parse_many-all_encoded infos rest d =
      let z : 0 + total infos ≡ total infos = omega arith in
      parse_from-encoded (all_encoded infos rest) 0 [] infos rest (omega arith) refl d
      ∙ ap (λ n. ok (infos, n)) z
