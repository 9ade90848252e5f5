-- ===== src/Prelude/Words.antt =====
-- Casts to the machine's widths and the byte order of `to_le_bytes`, `from_be_bytes` and so on.
-- A byte list is indexed by `byte`, which is only used below the length that the source fixes.
use Prim.Native.Nat.{ℕ, ◌+◌, ◌*◌, ◌/◌, ◌%◌, ◌^◌, ◌<◌}
use mathlib.Core.List.{List, [], ◌∷◌}
use iaos.Prelude.Lists.{get_or, All}

abbrev pub u8 : ℕ → ℕ
u8 n = n % 2 ^ 8

abbrev pub u16 : ℕ → ℕ
u16 n = n % 2 ^ 16

abbrev pub u32 : ℕ → ℕ
u32 n = n % 2 ^ 32

abbrev pub u64 : ℕ → ℕ
u64 n = n % 2 ^ 64

infixl 75 ◌<<<◌ ◌>>>◌
abbrev pub ◌<<<◌ : ℕ → ℕ → ℕ
x <<< k = x * 2 ^ k

abbrev pub ◌>>>◌ : ℕ → ℕ → ℕ
x >>> k = x / 2 ^ k

-- `xs[i]` below the length.
abbrev pub byte : List ℕ → ℕ → ℕ
byte xs i = get_or xs i 0

abbrev pub IsBytes : List ℕ → Type 0
IsBytes xs = All (λ b. b < 256) xs

-- `u16::to_le_bytes` and its relatives, of a number that has the type's width: nothing is cut off.
abbrev pub le16_bytes : ℕ → List ℕ
le16_bytes x = x % 256 ∷ x / 256 ∷ []

abbrev pub be16_bytes : ℕ → List ℕ
be16_bytes x = x / 256 ∷ x % 256 ∷ []

abbrev pub le32_bytes : ℕ → List ℕ
le32_bytes x = x % 256 ∷ x / 256 % 256 ∷ x / 65536 % 256 ∷ x / 16777216 ∷ []

abbrev pub be32_bytes : ℕ → List ℕ
be32_bytes x = x / 16777216 ∷ x / 65536 % 256 ∷ x / 256 % 256 ∷ x % 256 ∷ []

-- `u16::from_le_bytes` and its relatives.
abbrev pub le16 : ℕ → ℕ → ℕ
le16 a b = a + b * 256

abbrev pub be16 : ℕ → ℕ → ℕ
be16 a b = a * 256 + b

abbrev pub le32 : ℕ → ℕ → ℕ → ℕ → ℕ
le32 a b c d = a + b * 256 + c * 65536 + d * 16777216

abbrev pub be32 : ℕ → ℕ → ℕ → ℕ → ℕ
be32 a b c d = a * 16777216 + b * 65536 + c * 256 + d
