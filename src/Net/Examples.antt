-- ===== src/Net/Examples.antt =====
-- Small packets between two addresses.
use iaos.Prelude.{
  ℕ, ◌+◌, ◌-◌, ◌≤◌, ◌≡◌, ◌≢◌, refl, true, false, List, [], ◌∷◌, ◌++◌, length, IsBytes, be16, byte,
  ok, arith,
}
use iaos.Net.Checksum.{
  Ip, internet_checksum, checksum_is_valid, pseudo_header_checksum, add_words, fold_carries,
}
use iaos.Net.Checksum.Embed.{internet_checksum-IsReduced, IsReduced, total}
use iaos.Net.Icmp.{build_ipv4_header, build_icmp_echo, parse_icmp_echo}
use iaos.Net.Icmp.Echo.{IsIp, build_ipv4_header-valid, parse_icmp_echo-build}
use iaos.Net.Tcp.{TcpSegmentInfo, parse_tcp_segment}
use iaos.Net.Tcp.Segment.{IsFields, built, parse_tcp_segment-build}
use iaos.Net.Udp.{build_udp_header, parse_udp_datagram}
use iaos.Net.Udp.Datagram.{parse_udp_datagram-build}

abbrev guest : Ip
guest = record { a = 10; b = 0; c = 2; d = 15 }

abbrev gateway : Ip
gateway = record { a = 10; b = 0; c = 2; d = 2 }

guest-IsIp : IsIp guest
guest-IsIp = record { a = omega arith; b = omega arith; c = omega arith; d = omega arith }

gateway-IsIp : IsIp gateway
gateway-IsIp = record { a = omega arith; b = omega arith; c = omega arith; d = omega arith }

abbrev hello : List ℕ
hello = 104 ∷ 101 ∷ 108 ∷ 108 ∷ 111 ∷ []

hello-IsBytes : IsBytes hello
hello-IsBytes = (omega arith, (omega arith, (omega arith, (omega arith, (omega arith, tt)))))

-- The example of RFC 1071.
rfc_run : internet_checksum (0 ∷ 1 ∷ 242 ∷ 3 ∷ 244 ∷ 245 ∷ 246 ∷ 247 ∷ []) ≡ 8717
unfolding internet_checksum add_words fold_carries
rfc_run = refl

internet_checksum-IsReduced_example :
    (internet_checksum hello ≤ 65535) × IsReduced (total hello) (65535 - internet_checksum hello)
internet_checksum-IsReduced_example = internet_checksum-IsReduced hello hello-IsBytes (omega arith)

build_ipv4_header-valid_run : checksum_is_valid (build_ipv4_header 7 64 1 guest gateway 13) ≡ true
build_ipv4_header-valid_run =
    build_ipv4_header-valid 7 64 1 guest gateway 13 (omega arith) (omega arith) (omega arith)
      guest-IsIp gateway-IsIp

parse_icmp_echo-build_example :
    parse_icmp_echo (build_icmp_echo false 1 2 hello)
    ≡ ok (record { is_reply = false; identifier = 1; sequence = 2 })
parse_icmp_echo-build_example =
    parse_icmp_echo-build false 1 2 hello (omega arith) (omega arith) hello-IsBytes (omega arith)

abbrev syn : TcpSegmentInfo
syn = record {
  source_port = 49152;
  dest_port = 80;
  seq_num = 305419896;
  ack_num = 0;
  flags = 2;
  window = 64240;
  header_len = 20;
}

syn-IsFields : IsFields syn
syn-IsFields = record {
  source_port = omega arith;
  dest_port = omega arith;
  seq_num = omega arith;
  ack_num = omega arith;
  flags = omega arith;
  window = omega arith;
  header_len = refl;
}

parse_tcp_segment-build_example :
    parse_tcp_segment guest gateway (built guest gateway syn hello ++ hello) ≡ ok syn
parse_tcp_segment-build_example =
    parse_tcp_segment-build guest gateway syn hello guest-IsIp gateway-IsIp syn-IsFields
      hello-IsBytes (omega arith)

parse_udp_datagram-build_example :
    (be16
        (byte (build_udp_header guest gateway 5353 53 hello) 6)
        (byte (build_udp_header guest gateway 5353 53 hello) 7)
      ≢ 0)
    × (pseudo_header_checksum guest gateway 17
          (build_udp_header guest gateway 5353 53 hello ++ hello)
        ≡ 0)
    × (parse_udp_datagram guest gateway (build_udp_header guest gateway 5353 53 hello ++ hello)
        ≡ ok (record { source_port = 5353; dest_port = 53; length = 8 + length hello }))
parse_udp_datagram-build_example =
    parse_udp_datagram-build guest gateway 5353 53 hello guest-IsIp gateway-IsIp (omega arith)
      (omega arith) hello-IsBytes (omega arith)
