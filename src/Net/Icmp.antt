-- ===== src/Net/Icmp.antt =====
-- agentos-kernel/src/net/icmp.rs: Ethernet and IPv4 headers, and ICMP echo messages.
pub mod Echo
use iaos.Prelude.{
  ℕ, zero, suc, ◌+◌, ◌*◌, ◌/◌, ◌%◌, Bool, true, false, not, Option, none, some, List, [], ◌∷◌, ◌++◌,
  length, byte, ltb, ◌==◌, if◌then◌else◌, u16, be16, be16_bytes, replicate, Result, ok, err,
}
use iaos.Net.Checksum.{Ip, octets, internet_checksum, checksum_is_valid, copy_at}

-- The constant `IPV4_HEADER_LEN`.
abbrev pub ipv4_header_len : ℕ
ipv4_header_len = 20

abbrev pub icmp_echo_header_len : ℕ
icmp_echo_header_len = 8

unfoldable pub build_ethernet_header : List ℕ → List ℕ → ℕ → List ℕ
build_ethernet_header dest_mac src_mac ethertype =
    copy_at 12 (be16_bytes ethertype) (copy_at 6 src_mac (copy_at 0 dest_mac (replicate 14 0)))

-- The header before its checksum is filled in.
abbrev pub ipv4_blank : ℕ → ℕ → ℕ → Ip → Ip → ℕ → List ℕ
ipv4_blank identification ttl protocol source destination payload_len =
    copy_at 16 (octets destination) (
      copy_at 12 (octets source) (
        copy_at 9 (protocol ∷ []) (
          copy_at 8 (ttl ∷ []) (
            copy_at 6 (be16_bytes 0) (
              copy_at 4 (be16_bytes identification) (
                copy_at 2 (be16_bytes (u16 (ipv4_header_len + payload_len)))
                  (copy_at 1 (0 ∷ []) (copy_at 0 (69 ∷ []) (replicate 20 0)))))))))

unfoldable pub build_ipv4_header : ℕ → ℕ → ℕ → Ip → Ip → ℕ → List ℕ
build_ipv4_header identification ttl protocol source destination payload_len =
    let header = ipv4_blank identification ttl protocol source destination payload_len in
    copy_at 10 (be16_bytes (internet_checksum header)) header

-- `ICMP_TYPE_ECHO_REPLY` and `ICMP_TYPE_ECHO_REQUEST`.
abbrev pub echo_type : Bool → ℕ
echo_type true = 0
echo_type false = 8

unfoldable pub build_icmp_echo : Bool → ℕ → ℕ → List ℕ → List ℕ
build_icmp_echo is_reply identifier sequence payload =
    let message =
      echo_type is_reply ∷ 0 ∷ be16_bytes 0
      ++ be16_bytes identifier
      ++ be16_bytes sequence
      ++ payload in
    copy_at 2 (be16_bytes (internet_checksum message)) message

pub record IcmpEchoInfo : Type 0 where
  pub is_reply : Bool
  pub identifier : ℕ
  pub sequence : ℕ

pub data IcmpError : Type 0 where
  too_short checksum_mismatch not_an_echo : IcmpError

-- `match message[0]`
abbrev pub kind_of : ℕ → Option Bool
kind_of n = if n == 0 then some true else if n == 8 then some false else none

unfoldable pub parse_icmp_echo : List ℕ → Result IcmpError IcmpEchoInfo
parse_icmp_echo message =
    if ltb (length message) icmp_echo_header_len
    then err too_short
    else if not (checksum_is_valid message)
    then err checksum_mismatch
    else elim (kind_of (byte message 0)) [
      | none ↦ err not_an_echo
      | some is_reply ↦ ok (record {
        is_reply = is_reply;
        identifier = be16 (byte message 4) (byte message 5);
        sequence = be16 (byte message 6) (byte message 7);
      })
    ]
