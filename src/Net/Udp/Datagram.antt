-- ===== src/Net/Udp/Datagram.antt =====
-- A built datagram carries a checksum that is not 0, verifies, and parses back.
use iaos.Prelude.{
  ℕ, ◌+◌, ◌≤◌, ◌<◌, ◌≡◌, ◌≢◌, refl, List, ◌∷◌, ◌++◌, arith, length, byte, IsBytes, be16, be16_bytes,
  ◌==◌, u16, inl, inr, replicate, ok, Bool-cases,
}
use iaos.Net.Checksum.{Ip, octets, pseudo_header_checksum}
use iaos.Net.Checksum.Embed.{checksum-sealed, checksum-sealed_ones}
use iaos.Net.Icmp.Echo.{IsIp}
use iaos.Net.Udp.{build_udp_header, udp_checksum_is_valid, udp_blank, parse_udp_datagram}

module _ (s d : Ip) (source_port dest_port : ℕ) (payload : List ℕ) (hs : IsIp s) (hd : IsIp d)
    (hp : source_port < 65536) (hq : dest_port < 65536) (bytes : IsBytes payload)
    (short : length payload ≤ 65527) where
  abbrev pre : List ℕ
  pre =
      octets s
      ++ octets d
      ++ 0 ∷ 17 ∷ be16_bytes (u16 (length (replicate 8 0 ++ payload)))
      ++ be16_bytes source_port
      ++ be16_bytes dest_port
      ++ be16_bytes (u16 (8 + length payload))

  pre-IsBytes : IsBytes pre
  pre-IsBytes = (
    hs.a,
    (
      hs.b,
      (
        hs.c,
        (
          hs.d,
          (
            hd.a,
            (
              hd.b,
              (
                hd.c,
                (
                  hd.d,
                  (
                    omega arith,
                    (
                      omega arith,
                      (
                        omega arith,
                        (
                          omega arith,
                          (
                            omega arith,
                            (
                              omega arith,
                              (omega arith, (omega arith, (omega arith, (omega arith, tt)))),
                            ),
                          ),
                        ),
                      ),
                    ),
                  ),
                ),
              ),
            ),
          ),
        ),
      ),
    ),
  )

  abbrev sum : ℕ
  sum = pseudo_header_checksum s d 17 (udp_blank source_port dest_port (length payload) ++ payload)

  datagram-checksum :
      pseudo_header_checksum s d 17 (build_udp_header s d source_port dest_port payload ++ payload)
      ≡ 0
  unfolding build_udp_header pseudo_header_checksum
  datagram-checksum = elim (Bool-cases (sum == 0)) [
    | inl e ↦
        rw e (checksum-sealed_ones pre payload refl pre-IsBytes bytes (omega arith) (ground arith))
    | inr e ↦ rw e (checksum-sealed pre payload refl pre-IsBytes bytes (omega arith))
  ]

  -- The checksum field is never 0, which would mean that there is none.
  build_udp_header-nonzero :
      be16
        (byte (build_udp_header s d source_port dest_port payload) 6)
        (byte (build_udp_header s d source_port dest_port payload) 7)
      ≢ 0
  unfolding build_udp_header
  build_udp_header-nonzero h = elim (Bool-cases (sum == 0)) [
    | inl e ↦ absurd (ground arith)
    | inr e ↦ absurd (ground arith)
  ]

  parsed :
      parse_udp_datagram s d (build_udp_header s d source_port dest_port payload ++ payload)
      ≡ ok
          (record { source_port = source_port; dest_port = dest_port; length = 8 + length payload })
  unfolding parse_udp_datagram build_udp_header udp_checksum_is_valid
  parsed = rw datagram-checksum (ground arith)

  -- A header built from 16-bit ports for at most 65527 bytes of payload, with the payload
  -- after it: the checksum field is not 0, which would mean that there is none, the sum over
  -- the pseudo-header of its addresses and the whole datagram leaves the checksum 0, and the
  -- datagram parses back to the ports and the length of header and payload.
  pub parse_udp_datagram-build :
      (be16
          (byte (build_udp_header s d source_port dest_port payload) 6)
          (byte (build_udp_header s d source_port dest_port payload) 7)
        ≢ 0)
      × (pseudo_header_checksum s d 17
            (build_udp_header s d source_port dest_port payload ++ payload)
          ≡ 0)
      × (parse_udp_datagram s d (build_udp_header s d source_port dest_port payload ++ payload)
          ≡ ok (record {
            source_port = source_port;
            dest_port = dest_port;
            length = 8 + length payload;
          }))
  parse_udp_datagram-build = (build_udp_header-nonzero, datagram-checksum, parsed)
