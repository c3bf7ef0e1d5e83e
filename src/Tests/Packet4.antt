-- ===== src/Tests/Packet4.antt =====
-- A packet of packet4.go.
use vidya_god_ipfs.Prelude.{ℕ, ◌≡◌, some, List, [], ◌∷◌, arith}
use vidya_god_ipfs.Packet4.{Ip4, parse_udp4, build_udp4}
use vidya_god_ipfs.Packet4.Checksum.{IsIp4}
use vidya_god_ipfs.Packet4.RoundTrip.{parse-build}

abbrev host_ip : Ip4
host_ip = record { a = 10; b = 66; c = 0; d = 1 }

abbrev guest_ip : Ip4
guest_ip = record { a = 10; b = 66; c = 42; d = 2 }

host_ip-IsIp4 : IsIp4 host_ip
host_ip-IsIp4 = record {
  a_byte = omega arith;
  b_byte = omega arith;
  c_byte = omega arith;
  d_byte = omega arith;
}

guest_ip-IsIp4 : IsIp4 guest_ip
guest_ip-IsIp4 = record {
  a_byte = omega arith;
  b_byte = omega arith;
  c_byte = omega arith;
  d_byte = omega arith;
}

abbrev odd_payload : List ℕ
odd_payload = 1 ∷ 255 ∷ 7 ∷ []

parse-build_example :
    parse_udp4 (build_udp4 host_ip guest_ip 53 4000 odd_payload)
    ≡ some (record {
      src = host_ip;
      dst = guest_ip;
      src_port = 53;
      dst_port = 4000;
      payload = odd_payload;
    })
parse-build_example =
    parse-build host_ip guest_ip 53 4000 odd_payload (omega arith) (omega arith) (omega arith)
