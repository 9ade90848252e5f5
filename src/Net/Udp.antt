-- ===== src/Net/Udp.antt =====
-- agentos-kernel/src/net/udp.rs: the UDP header, built and parsed.
pub mod Datagram
use iaos.Prelude.{
  ℕ, zero, suc, ◌+◌, ◌*◌, ◌/◌, ◌%◌, Bool, true, not, ◌&&◌, List, [], ◌∷◌, ◌++◌, length, byte, ltb,
  leb, ◌==◌, if◌then◌else◌, u16, be16, be16_bytes, replicate, Result, ok, err,
}
use iaos.Net.Checksum.{Ip, pseudo_header_checksum, copy_at}

abbrev pub udp_header_len : ℕ
udp_header_len = 8

abbrev pub ip_protocol_udp : ℕ
ip_protocol_udp = 17

unfoldable pub udp_checksum_is_valid : Ip → Ip → List ℕ → Bool
udp_checksum_is_valid source_ip dest_ip datagram =
    if leb udp_header_len (length datagram) && byte datagram 6 == 0 && byte datagram 7 == 0
    then true
    else pseudo_header_checksum source_ip dest_ip ip_protocol_udp datagram == 0

-- The header before its checksum is filled in.
abbrev pub udp_blank : ℕ → ℕ → ℕ → List ℕ
udp_blank source_port dest_port payload_len =
    copy_at 4 (be16_bytes (u16 (udp_header_len + payload_len)))
      (copy_at 2 (be16_bytes dest_port) (copy_at 0 (be16_bytes source_port) (replicate 8 0)))

-- A checksum of 0 is sent as 0xFFFF.
abbrev pub nonzero_checksum : ℕ → ℕ
nonzero_checksum checksum = if checksum == 0 then 65535 else checksum

unfoldable pub build_udp_header : Ip → Ip → ℕ → ℕ → List ℕ → List ℕ
build_udp_header source_ip dest_ip source_port dest_port payload =
    let header = udp_blank source_port dest_port (length payload) in
    copy_at 6
      (be16_bytes (
        nonzero_checksum
          (pseudo_header_checksum source_ip dest_ip ip_protocol_udp (header ++ payload))))
      header

pub record UdpDatagramInfo : Type 0 where
  pub source_port : ℕ
  pub dest_port : ℕ
  pub length : ℕ

pub data UdpError : Type 0 where
  too_short checksum_mismatch : UdpError

unfoldable pub parse_udp_datagram : Ip → Ip → List ℕ → Result UdpError UdpDatagramInfo
parse_udp_datagram source_ip dest_ip datagram =
    if ltb (length datagram) udp_header_len
    then err too_short
    else if not (udp_checksum_is_valid source_ip dest_ip datagram)
    then err checksum_mismatch
    else ok (record {
      source_port = be16 (byte datagram 0) (byte datagram 1);
      dest_port = be16 (byte datagram 2) (byte datagram 3);
      length = be16 (byte datagram 4) (byte datagram 5);
    })
