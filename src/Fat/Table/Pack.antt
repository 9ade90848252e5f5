-- ===== src/Fat/Table/Pack.antt =====
-- Replacing one 12-bit entry leaves the others alone.
use iaos.Prelude.{
  ℕ, zero, suc, ◌+◌, ◌*◌, ◌/◌, ◌%◌, ◌<◌, ◌≡◌, ◌≢◌, refl, sym, ap, ◌∙◌, inl, inr, true, false, ◌&&◌,
  arith, List, [], ◌∷◌, length, byte, set, get_or-set_self, get_or-set_ne, length-set, ◌==◌,
  if◌then◌else◌, bit_and, bit_or, u16, Bool-cases, IsBytes,
}
use iaos.Prelude.Bits.{bit_and_mask, bit_and_shifted, bit_or_high_low, bit_or_low_high}
use iaos.Fat.Table.{byte_offset, is_even, unpack, raw_at, entry_at, pack}

unpack_lem :
    (cluster raw : ℕ) → unpack cluster raw ≡ (if is_even cluster then raw % 4096 else raw / 16)
unpack_lem cluster raw = rw (bit_and_mask 12 raw) refl

pack_lem :
    (cluster raw value : ℕ)
    → raw < 65536
    → pack cluster raw value
      ≡ (if is_even cluster then raw / 4096 * 4096 + value % 4096 else value % 4096 * 16 + raw % 16)
unfolding pack
pack_lem cluster raw value h =
    let masked : bit_and value 4095 ≡ value % 4096 = bit_and_mask 12 value in
    let low : bit_and raw 15 ≡ raw % 16 = bit_and_mask 4 raw in
    let high : bit_and raw 61440 ≡ raw / 4096 * 4096 =
      bit_and_shifted 12 15 raw ∙ ap (λ t. t * 4096) (bit_and_mask 4 (raw / 4096) ∙ omega arith) in
    let shifted : u16 (value % 4096 * 16) ≡ value % 4096 * 16 = omega arith in
    let even : bit_or (raw / 4096 * 4096) (value % 4096) ≡ raw / 4096 * 4096 + value % 4096 =
      bit_or_high_low 12 (raw / 4096) (value % 4096) (omega arith) in
    let odd : bit_or (raw % 16) (value % 4096 * 16) ≡ value % 4096 * 16 + raw % 16 =
      bit_or_low_high 4 (value % 4096) (raw % 16) (omega arith) in
    rw (masked, low, high, shifted, even, odd) refl

-- The table with the two bytes of a cluster replaced.
abbrev pub with_entry : List ℕ → ℕ → ℕ → List ℕ
with_entry fat cluster value =
    let at = byte_offset cluster in
    let out = pack cluster (raw_at fat at) value in
    set (set fat at (out % 256)) (at + 1) (out / 256)

pub IsBytes-byte : (xs : List ℕ) (i : ℕ) → IsBytes xs → byte xs i < 256
IsBytes-byte [] i h = omega arith
IsBytes-byte (x ∷ xs) zero h = h.0
IsBytes-byte (x ∷ xs) (suc i) h = IsBytes-byte xs i h.1

-- The two bytes stay two bytes.
pub pack-lt :
    (fat : List ℕ) (cluster value : ℕ)
    → IsBytes fat
    → pack cluster (raw_at fat (byte_offset cluster)) value < 65536
pack-lt fat cluster value bytes =
    let b0 = IsBytes-byte fat (byte_offset cluster) bytes in
    let b1 = IsBytes-byte fat (byte_offset cluster + 1) bytes in
    let small : raw_at fat (byte_offset cluster) < 65536 = omega arith in
    rw (pack_lem cluster (raw_at fat (byte_offset cluster)) value small)
      (elim (Bool-cases (is_even cluster)) [
        | inl e ↦ rw e (omega arith)
        | inr e ↦ rw e (omega arith)
      ])

module _ (fat : List ℕ) (cluster value : ℕ) (bytes : IsBytes fat)
    (inside : byte_offset cluster + 1 < length fat) (small : cluster < 1431655765) where
  abbrev at : ℕ
  at = byte_offset cluster

  abbrev out : ℕ
  out = pack cluster (raw_at fat at) value

  byte_first : byte (with_entry fat cluster value) at ≡ out % 256
  byte_first =
      get_or-set_ne (set fat at (out % 256)) (at + 1) at (out / 256) 0 (λ e. omega arith)
      ∙ get_or-set_self fat at (out % 256) 0 (omega arith)

  byte_second : byte (with_entry fat cluster value) (at + 1) ≡ out / 256
  byte_second =
      get_or-set_self (set fat at (out % 256)) (at + 1) (out / 256) 0
        (omega (arith, length-set fat at (out % 256)))

  byte_other : (j : ℕ) → j ≢ at → j ≢ at + 1 → byte (with_entry fat cluster value) j ≡ byte fat j
  byte_other j h k =
      get_or-set_ne (set fat at (out % 256)) (at + 1) j (out / 256) 0 (λ e. k (sym e))
      ∙ get_or-set_ne fat at j (out % 256) 0 (λ e. h (sym e))

  raw_small : raw_at fat at < 65536
  raw_small = omega (arith, IsBytes-byte fat at bytes, IsBytes-byte fat (at + 1) bytes)

  -- The entry of a cluster that is written reads back its 12 bits.
  pub entry_at-written : entry_at (with_entry fat cluster value) cluster ≡ value % 4096
  unfolding entry_at
  entry_at-written =
      let joined : out % 256 + out / 256 * 256 ≡ out = omega arith in
      rw
        (
          byte_first,
          byte_second,
          joined,
          unpack_lem cluster out,
          pack_lem cluster (raw_at fat at) value raw_small,
        )
        (elim (Bool-cases (is_even cluster)) [
          | inl e ↦ rw e (omega arith)
          | inr e ↦ rw e (omega arith)
        ])

  -- The neighbours that share a byte with the cluster.
  shared_low : cluster % 2 ≡ 0 → out / 256 / 16 ≡ byte fat (at + 1) / 16
  shared_low e =
      let even : is_even cluster ≡ true = ground arith in
      rw (pack_lem cluster (raw_at fat at) value raw_small, even)
        (omega (arith, IsBytes-byte fat at bytes))

  shared_high : cluster % 2 ≡ 1 → out % 256 % 16 ≡ byte fat at % 16
  shared_high e =
      let odd : is_even cluster ≡ false = ground arith in
      rw (pack_lem cluster (raw_at fat at) value raw_small, odd) (omega arith)

  untouched :
      (other : ℕ)
      → byte_offset other ≢ at
      → byte_offset other ≢ at + 1
      → byte_offset other + 1 ≢ at
      → entry_at (with_entry fat cluster value) other ≡ entry_at fat other
  unfolding entry_at
  untouched other h k l =
      rw
        (
          byte_other (byte_offset other) h k,
          byte_other (byte_offset other + 1) l (λ e. h (omega arith)),
        )
        refl

  -- The odd cluster after an even one that is written.
  after_even :
      (other : ℕ)
      → other ≡ cluster + 1
      → cluster % 2 ≡ 0
      → entry_at (with_entry fat cluster value) other ≡ entry_at fat other
  unfolding entry_at
  after_even other h e =
      let here : byte_offset other ≡ at + 1 = omega arith in
      let odd : is_even other ≡ false = ground arith in
      rw (here, odd, byte_second, byte_other (at + 1 + 1) (λ x. omega arith) (λ x. omega arith))
        (omega (arith, shared_low e))

  -- The even cluster before an odd one that is written.
  before_odd :
      (other : ℕ)
      → other + 1 ≡ cluster
      → cluster % 2 ≡ 1
      → entry_at (with_entry fat cluster value) other ≡ entry_at fat other
  unfolding entry_at
  before_odd other h e =
      let here : byte_offset other + 1 ≡ at = omega arith in
      let even : is_even other ≡ true = ground arith in
      rw
        (
          even,
          here,
          byte_first,
          byte_other (byte_offset other) (λ x. omega arith) (λ x. omega arith),
          bit_and_mask 12 (byte fat (byte_offset other) + out % 256 * 256),
          bit_and_mask 12 (byte fat (byte_offset other) + byte fat at * 256),
        )
        (omega (arith, shared_high e))

  -- Every other entry is as before.
  pub entry_at-other :
      (other : ℕ)
      → other ≢ cluster
      → other < 1431655765
      → entry_at (with_entry fat cluster value) other ≡ entry_at fat other
  entry_at-other other h k =
      let mine : at ≡ cluster * 3 / 2 = omega arith in
      let theirs : byte_offset other ≡ other * 3 / 2 = omega arith in
      elim (Bool-cases (other == cluster + 1 && cluster % 2 == 0)) [
        | inl a ↦ after_even other (ground arith) (ground arith)
        | inr a ↦ elim (Bool-cases (other + 1 == cluster && cluster % 2 == 1)) [
          | inl b ↦ before_odd other (ground arith) (ground arith)
          | inr b ↦ untouched other (λ e. ground arith) (λ e. ground arith) (λ e. ground arith)
        ]
      ]
