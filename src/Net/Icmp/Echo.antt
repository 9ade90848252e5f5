-- ===== src/Net/Icmp/Echo.antt =====
-- What the builders emit verifies, and an echo message reads back as it was built.
use iaos.Prelude.{
  ℕ, ◌+◌, ◌≤◌, ◌<◌, ◌≡◌, refl, Bool, true, false, List, [], ◌∷◌, ◌++◌, arith, length, IsBytes,
  be16_bytes, u16, ok,
}
use iaos.Net.Checksum.{Ip, octets, internet_checksum, checksum_is_valid}
use iaos.Net.Checksum.Embed.{checksum-sealed}
use iaos.Net.Icmp.{build_ipv4_header, build_icmp_echo, parse_icmp_echo, echo_type}

pub record IsIp (ip : Ip) : Type 0 where
  pub a : ip.a < 256
  pub b : ip.b < 256
  pub c : ip.c < 256
  pub d : ip.d < 256

-- A header built from fields of their widths, for a payload of any length, has a valid
-- checksum.
pub build_ipv4_header-valid :
    (identification ttl protocol : ℕ) (source destination : Ip) (payload_len : ℕ)
    → identification < 65536
    → ttl < 256
    → protocol < 256
    → IsIp source
    → IsIp destination
    → checksum_is_valid
        (build_ipv4_header identification ttl protocol source destination payload_len)
      ≡ true
unfolding build_ipv4_header checksum_is_valid
build_ipv4_header-valid identification ttl protocol source destination payload_len hi ht hp hs hd =
    rw
      (checksum-sealed
        (69 ∷ 0 ∷ be16_bytes (u16 (20 + payload_len))
          ++ be16_bytes identification
          ++ 0 ∷ 0 ∷ ttl ∷ protocol ∷ [])
        (octets source ++ octets destination) refl
        (
          omega arith,
          (
            omega arith,
            (
              omega arith,
              (
                omega arith,
                (omega arith, (omega arith, (omega arith, (omega arith, (ht, (hp, tt)))))),
              ),
            ),
          ),
        )
        (hs.a, (hs.b, (hs.c, (hs.d, (hd.a, (hd.b, (hd.c, (hd.d, tt)))))))) (omega arith))
      refl

module _ (is_reply : Bool) (identifier sequence : ℕ) (payload : List ℕ) (hi : identifier < 65536)
    (hs : sequence < 65536) (bytes : IsBytes payload) (short : length payload ≤ 65535) where
  kind-lt : echo_type is_reply < 256
  kind-lt = grind arith

  echo-checksum : internet_checksum (build_icmp_echo is_reply identifier sequence payload) ≡ 0
  unfolding build_icmp_echo
  echo-checksum =
      checksum-sealed (echo_type is_reply ∷ 0 ∷ [])
        (be16_bytes identifier ++ be16_bytes sequence ++ payload) refl (kind-lt, (omega arith, tt))
        (omega arith, (omega arith, (omega arith, (omega arith, bytes)))) (omega arith)

  -- An echo request or reply, built from 16-bit fields and at most 65535 bytes of payload, parses back
  -- to its kind, identifier and sequence number.
  pub parse_icmp_echo-build :
      parse_icmp_echo (build_icmp_echo is_reply identifier sequence payload)
      ≡ ok (record { is_reply = is_reply; identifier = identifier; sequence = sequence })
  unfolding parse_icmp_echo build_icmp_echo checksum_is_valid
  parse_icmp_echo-build =
      rw echo-checksum (elim is_reply [ true ↦ ground arith | false ↦ ground arith ])
