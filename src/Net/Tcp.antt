-- ===== src/Net/Tcp.antt =====
-- agentos-kernel/src/net/tcp.rs: the TCP header, built and parsed.
pub mod Segment
use iaos.Prelude.{
  ℕ, zero, suc, ◌+◌, ◌*◌, ◌/◌, ◌%◌, ◌^◌, Bool, not, List, [], ◌∷◌, ◌++◌, length, byte, ltb, ◌==◌,
  if◌then◌else◌, be16, be16_bytes, be32, be32_bytes, ◌>>>◌, replicate, Result, ok, err,
}
use iaos.Net.Checksum.{Ip, pseudo_header_checksum, copy_at}

abbrev pub tcp_header_len : ℕ
tcp_header_len = 20

abbrev pub ip_protocol_tcp : ℕ
ip_protocol_tcp = 6

unfoldable pub tcp_checksum_is_valid : Ip → Ip → List ℕ → Bool
tcp_checksum_is_valid source_ip dest_ip segment =
    pseudo_header_checksum source_ip dest_ip ip_protocol_tcp segment == 0

-- The header before its checksum is filled in.
abbrev pub tcp_blank : ℕ → ℕ → ℕ → ℕ → ℕ → ℕ → List ℕ
tcp_blank source_port dest_port seq_num ack_num flags window = copy_at 14 (be16_bytes window) (
    copy_at 13 (flags ∷ []) (
      copy_at 12 (80 ∷ []) (
        copy_at 8 (be32_bytes ack_num) (
          copy_at 4 (be32_bytes seq_num) (
            copy_at 2 (be16_bytes dest_port)
              (copy_at 0 (be16_bytes source_port) (replicate 20 0)))))))

unfoldable pub build_tcp_header : Ip → Ip → ℕ → ℕ → ℕ → ℕ → ℕ → ℕ → List ℕ → List ℕ
build_tcp_header source_ip dest_ip source_port dest_port seq_num ack_num flags window payload =
    let header = tcp_blank source_port dest_port seq_num ack_num flags window in
    copy_at 16
      (be16_bytes (pseudo_header_checksum source_ip dest_ip ip_protocol_tcp (header ++ payload)))
      header

pub record TcpSegmentInfo : Type 0 where
  pub source_port : ℕ
  pub dest_port : ℕ
  pub seq_num : ℕ
  pub ack_num : ℕ
  pub flags : ℕ
  pub window : ℕ
  pub header_len : ℕ

pub data TcpError : Type 0 where
  too_short impossible_data_offset checksum_mismatch : TcpError

unfoldable pub parse_tcp_segment : Ip → Ip → List ℕ → Result TcpError TcpSegmentInfo
parse_tcp_segment source_ip dest_ip segment =
    if ltb (length segment) tcp_header_len
    then err too_short
    else if ltb (byte segment 12 >>> 4) 5
    then err impossible_data_offset
    else if not (tcp_checksum_is_valid source_ip dest_ip segment)
    then err checksum_mismatch
    else ok (record {
      source_port = be16 (byte segment 0) (byte segment 1);
      dest_port = be16 (byte segment 2) (byte segment 3);
      seq_num = be32 (byte segment 4) (byte segment 5) (byte segment 6) (byte segment 7);
      ack_num = be32 (byte segment 8) (byte segment 9) (byte segment 10) (byte segment 11);
      flags = byte segment 13;
      window = be16 (byte segment 14) (byte segment 15);
      header_len = (byte segment 12 >>> 4) * 4;
    })
