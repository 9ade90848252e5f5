-- ===== src/Net/Checksum.antt =====
-- agentos-kernel/src/net/icmp.rs: the Internet checksum, over a packet or a pseudo header.
-- A byte is a number below 256; the sum is a `u32` and wraps.
pub mod Embed
use iaos.Prelude.{
  ℕ, zero, suc, ◌+◌, ◌-◌, ◌*◌, ◌/◌, ◌%◌, ◌^◌, Bool, List, [], ◌∷◌, ◌++◌, length, ◌==◌,
  if◌then◌else◌, u16, u32, be16, be16_bytes, ◌<<<◌, ◌>>>◌,
}

-- `sum` after the words of the data and a last odd byte.
unfoldable pub add_words : ℕ → List ℕ → ℕ
add_words sum (a ∷ b ∷ rest) = add_words (u32 (sum + be16 a b)) rest
add_words sum (last ∷ []) = u32 (sum + last <<< 8)
add_words sum [] = sum

-- `while sum >> 16 != 0`; `sum & 0xFFFF` is `sum % 2 ^ 16`.
unfoldable pub fold_carries : ℕ → ℕ → ℕ
fold_carries zero sum = sum
fold_carries (suc fuel) sum =
    let next = fold_carries fuel (u32 (sum % 2 ^ 16 + sum >>> 16)) in
    if sum >>> 16 == 0 then sum else next

-- Two rounds bring a `u32` below 2 ^ 16.
abbrev pub fold_fuel : ℕ
fold_fuel = 2

unfoldable pub internet_checksum : List ℕ → ℕ
internet_checksum xs = 65535 - u16 (fold_carries fold_fuel (add_words 0 xs))

unfoldable pub checksum_is_valid : List ℕ → Bool
checksum_is_valid xs = internet_checksum xs == 0

-- `[u8; 4]`
pub record Ip : Type 0 where
  pub a : ℕ
  pub b : ℕ
  pub c : ℕ
  pub d : ℕ

abbrev pub octets : Ip → List ℕ
octets ip = ip.a ∷ ip.b ∷ ip.c ∷ ip.d ∷ []

unfoldable pub pseudo_header_checksum : Ip → Ip → ℕ → List ℕ → ℕ
pseudo_header_checksum source_ip dest_ip protocol segment = internet_checksum (
    octets source_ip
    ++ octets dest_ip
    ++ 0 ∷ protocol ∷ be16_bytes (u16 (length segment))
    ++ segment)

-- `xs[start..start + src.len()].copy_from_slice(&src)`
abbrev pub copy_at : ℕ → List ℕ → List ℕ → List ℕ
copy_at start src [] = []
copy_at zero [] (x ∷ xs) = x ∷ xs
copy_at zero (v ∷ src) (x ∷ xs) = v ∷ copy_at zero src xs
copy_at (suc start) src (x ∷ xs) = x ∷ copy_at start src xs
