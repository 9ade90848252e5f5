-- ===== src/Net/Tcp/Segment.antt =====
-- A built segment verifies and parses back.
use iaos.Prelude.{
  ℕ, ◌≤◌, ◌<◌, ◌≡◌, refl, List, ◌∷◌, ◌++◌, arith, length, IsBytes, be16_bytes, be32_bytes, u16,
  replicate, ok,
}
use iaos.Net.Checksum.{Ip, octets, pseudo_header_checksum}
use iaos.Net.Checksum.Embed.{checksum-sealed}
use iaos.Net.Icmp.Echo.{IsIp}
use iaos.Net.Tcp.{build_tcp_header, tcp_checksum_is_valid, TcpSegmentInfo, parse_tcp_segment}

-- The widths of the fields of a header.
pub record IsFields (i : TcpSegmentInfo) : Type 0 where
  pub source_port : i.source_port < 65536
  pub dest_port : i.dest_port < 65536
  pub seq_num : i.seq_num < 4294967296
  pub ack_num : i.ack_num < 4294967296
  pub flags : i.flags < 256
  pub window : i.window < 65536
  pub header_len : i.header_len ≡ 20

abbrev pub built : Ip → Ip → TcpSegmentInfo → List ℕ → List ℕ
built s d i payload =
    build_tcp_header s d i.source_port i.dest_port i.seq_num i.ack_num i.flags i.window payload

module _ (s d : Ip) (i : TcpSegmentInfo) (payload : List ℕ) (hs : IsIp s) (hd : IsIp d)
    (hi : IsFields i) (bytes : IsBytes payload) (short : length payload ≤ 65515) where
  abbrev pre : List ℕ
  pre =
      octets s
      ++ octets d
      ++ 0 ∷ 6 ∷ be16_bytes (u16 (length (replicate 20 0 ++ payload)))
      ++ be16_bytes i.source_port
      ++ be16_bytes i.dest_port
      ++ be32_bytes i.seq_num
      ++ be32_bytes i.ack_num
      ++ 80 ∷ i.flags ∷ be16_bytes i.window

  pre-IsBytes : IsBytes pre
  pre-IsBytes = (
    hs.a,
    (
      hs.b,
      (
        hs.c,
        (
          hs.d,
          (
            hd.a,
            (
              hd.b,
              (
                hd.c,
                (
                  hd.d,
                  (
                    omega arith,
                    (
                      omega arith,
                      (
                        omega arith,
                        (
                          omega arith,
                          (
                            omega (arith, hi.source_port),
                            (
                              omega arith,
                              (
                                omega (arith, hi.dest_port),
                                (
                                  omega arith,
                                  (
                                    omega (arith, hi.seq_num),
                                    (
                                      omega arith,
                                      (
                                        omega arith,
                                        (
                                          omega arith,
                                          (
                                            omega (arith, hi.ack_num),
                                            (
                                              omega arith,
                                              (
                                                omega arith,
                                                (
                                                  omega arith,
                                                  (
                                                    omega arith,
                                                    (
                                                      hi.flags,
                                                      (omega (arith, hi.window), (omega arith, tt)),
                                                    ),
                                                  ),
                                                ),
                                              ),
                                            ),
                                          ),
                                        ),
                                      ),
                                    ),
                                  ),
                                ),
                              ),
                            ),
                          ),
                        ),
                      ),
                    ),
                  ),
                ),
              ),
            ),
          ),
        ),
      ),
    ),
  )

  segment-checksum : pseudo_header_checksum s d 6 (built s d i payload ++ payload) ≡ 0
  unfolding build_tcp_header pseudo_header_checksum
  segment-checksum =
      checksum-sealed pre (0 ∷ 0 ∷ payload) refl pre-IsBytes (omega arith, (omega arith, bytes))
        (omega arith)

  -- A header built from fields of their widths, with at most 65515 bytes of payload after it,
  -- has a valid checksum for its addresses and parses back to the fields, with a header
  -- length of 20.
  pub parse_tcp_segment-build : parse_tcp_segment s d (built s d i payload ++ payload) ≡ ok i
  unfolding parse_tcp_segment build_tcp_header tcp_checksum_is_valid
  parse_tcp_segment-build = rw segment-checksum (
      ground
        (arith, hi.source_port, hi.dest_port, hi.seq_num, hi.ack_num, hi.window, hi.header_len))
