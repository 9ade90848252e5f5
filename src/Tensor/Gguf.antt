-- ===== src/Tensor/Gguf.antt =====
-- agentos-kernel/src/gguf_loader.rs: the tensor-info entries at the head of a model file. `from_utf8` is a
-- parameter, which returns the text or none.
pub mod RoundTrip
mod Examples
use iaos.Prelude.{
  ◌*◌, not, bit_and, bit_or, ◌<<<◌, ◌>>>◌, ℕ, zero, suc, ◌+◌, ◌-◌, Bool, true, false, Option, none,
  some, List, [], ◌∷◌, ◌++◌, length, byte, take, drop, le32, ltb, ◌==◌, if◌then◌else◌, Result, ok,
  err, ◌>>=◌,
}

pub data GgufGtype : Type 0 where
  f32 f16 q4_0 q4_1 q8_0 q2_k q3_k q4_k q5_k q6_k q8_k : GgufGtype

pub data GgufError : Type 0 where
  unknown_gtype name_length_missing fields_missing not_utf8 past_end header_too_small bad_magic :
      GgufError

-- The enum's discriminants.
unfoldable pub discriminant : GgufGtype → ℕ
discriminant f32 = 0
discriminant f16 = 1
discriminant q4_0 = 2
discriminant q4_1 = 3
discriminant q8_0 = 8
discriminant q2_k = 10
discriminant q3_k = 11
discriminant q4_k = 12
discriminant q5_k = 13
discriminant q6_k = 14
discriminant q8_k = 15

unfoldable pub from_u32 : ℕ → Result GgufError GgufGtype
from_u32 raw =
    if raw == 0
    then ok f32
    else if raw == 1
    then ok f16
    else if raw == 2
    then ok q4_0
    else if raw == 3
    then ok q4_1
    else if raw == 8
    then ok q8_0
    else if raw == 10
    then ok q2_k
    else if raw == 11
    then ok q3_k
    else if raw == 12
    then ok q4_k
    else if raw == 13
    then ok q5_k
    else if raw == 14
    then ok q6_k
    else if raw == 15
    then ok q8_k
    else err unknown_gtype

pub record GgufTensorInfo (Text : Type 0) : Type 0 where
  pub name : Text
  pub dim0 : ℕ
  pub dim1 : ℕ
  pub gtype : GgufGtype
  pub offset : ℕ

abbrev pub read_u32 : List ℕ → ℕ → ℕ
read_u32 bytes at =
    le32 (byte bytes at) (byte bytes (at + 1)) (byte bytes (at + 2)) (byte bytes (at + 3))

-- `bytes.get(offset..)`
abbrev pub get_from : List ℕ → ℕ → Result GgufError (List ℕ)
get_from bytes offset = if ltb (length bytes) offset then err past_end else ok (drop offset bytes)

-- The architecture and the two lengths of the model are constants of the source.
pub record GgufModelLoader : Type 0 where
  pub magic : ℕ
  pub version : ℕ
  pub tensor_count : ℕ
  pub kv_count : ℕ

-- "GGUF" in little-endian order.
abbrev pub gguf_magic : ℕ
gguf_magic = 1179993927

abbrev pub read_u64 : List ℕ → ℕ → ℕ
read_u64 bytes at = read_u32 bytes at + read_u32 bytes (at + 4) * 4294967296

unfoldable pub parse_header : List ℕ → Result GgufError GgufModelLoader
parse_header bytes =
    if ltb (length bytes) 24
    then err header_too_small
    else if not (read_u32 bytes 0 == gguf_magic)
    then err bad_magic
    else ok (record {
      magic = read_u32 bytes 0;
      version = read_u32 bytes 4;
      tensor_count = read_u64 bytes 8;
      kv_count = read_u64 bytes 16;
    })

-- The 6-bit scale and minimum of a block, packed in 12 bytes.
unfoldable pub get_scale_min_k4 : ℕ → List ℕ → ℕ × ℕ
get_scale_min_k4 j q = if ltb j 4 then (bit_and (byte q j) 63, bit_and (byte q (j + 4)) 63) else (
  bit_or (bit_and (byte q (j + 4)) 15) ((byte q (j - 4) >>> 6) <<< 4),
  bit_or (byte q (j + 4) >>> 4) ((byte q j >>> 6) <<< 4),
)

module _ (Text : Type 0) (from_utf8 : List ℕ → Option Text) where
  -- The entry of a name that was decoded, with its fields at `fields_start`.
  abbrev pub with_fields : List ℕ → ℕ → Option Text → Result GgufError (GgufTensorInfo Text × ℕ)
  with_fields bytes fields_start none = err not_utf8
  with_fields bytes fields_start (some name) =
      from_u32 (read_u32 bytes (fields_start + 8)) >>= λ gtype. ok (
        record {
          name = name;
          dim0 = read_u32 bytes fields_start;
          dim1 = read_u32 bytes (fields_start + 4);
          gtype = gtype;
          offset = read_u32 bytes (fields_start + 12);
        },
        fields_start + 16,
      )

  unfoldable pub parse : List ℕ → Result GgufError (GgufTensorInfo Text × ℕ)
  parse bytes =
      let name_len = read_u32 bytes 0 in
      let fields_start = 4 + name_len in
      if ltb (length bytes) 4
      then err name_length_missing
      else if ltb (length bytes) (fields_start + 16)
      then err fields_missing
      else with_fields bytes fields_start (from_utf8 (take name_len (drop 4 bytes)))

  -- The loop of `parse_many`, with `left` entries from `offset` on to come.
  unfoldable pub parse_from :
      List ℕ
      → ℕ
      → ℕ
      → List (GgufTensorInfo Text)
      → Result GgufError (List (GgufTensorInfo Text) × ℕ)
  parse_from bytes zero offset infos = ok (infos, offset)
  parse_from bytes (suc left) offset infos = get_from bytes offset >>= λ remaining.
      parse remaining >>= λ parsed.
      parse_from bytes left (offset + parsed.1) (infos ++ (parsed.0 ∷ []))

  unfoldable pub parse_many : List ℕ → ℕ → Result GgufError (List (GgufTensorInfo Text) × ℕ)
  parse_many bytes count = parse_from bytes count 0 []
