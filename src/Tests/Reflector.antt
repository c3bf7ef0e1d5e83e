-- ===== src/Tests/Reflector.antt =====
-- The reflector of hostrelay.go on a host with one network, 192.168.1.20/24, and the loopback.
use vidya_god_ipfs.Prelude.{ℕ, ◌≡◌, refl, true, List, [], ◌∷◌, arith}
use vidya_god_ipfs.Packet4.{Ip4, Udp4}
use vidya_god_ipfs.Reflector.Hosts.{HostAddr, v4_net, other_addr, host_ips}
use vidya_god_ipfs.Reflector.Relay.{
  Relay, Datagram, new_host_relay, refresh_host_ips, limited_broadcast, receive,
}
use vidya_god_ipfs.Reflector.Sockets.{IsSound, run, sent, arrived, closed, run-IsSound}
use vidya_god_ipfs.Reflector.Loops.{receive-own}

abbrev ip_of : ℕ → ℕ → ℕ → ℕ → Ip4
ip_of a b c d = record { a = a; b = b; c = c; d = d }

abbrev home : Ip4
home = ip_of 192 168 1 20

abbrev interfaces : List HostAddr
interfaces = v4_net (ip_of 127 0 0 1) 8 ∷ v4_net home 24 ∷ other_addr ∷ []

abbrev vip : Ip4
vip = ip_of 10 66 0 2

abbrev relay : Relay
relay = new_host_relay 5 interfaces vip

-- The game looks for sessions.
abbrev discovery : Udp4
discovery = record {
  src = vip;
  dst = limited_broadcast;
  src_port = 47624;
  dst_port = 47624;
  payload = 1 ∷ 2 ∷ [];
}

abbrev from_home : Datagram
from_home = record { from = home; from_port = 47624; bytes = 1 ∷ 2 ∷ [] }

abbrev from_peer : Datagram
from_peer = record { from = ip_of 192 168 1 9; from_port = 2300; bytes = 7 ∷ [] }

run-IsSound_example :
    IsSound
      (run (sent (λ p. true) discovery ∷ arrived 6 interfaces 47624 from_peer ∷ closed ∷ []) relay)
unfolding new_host_relay refresh_host_ips
run-IsSound_example =
    run-IsSound (sent (λ p. true) discovery ∷ arrived 6 interfaces 47624 from_peer ∷ closed ∷ [])
      relay (omega arith, refl, refl, refl)

receive-own_example : (receive 6 interfaces 47624 from_home relay).1 ≡ []
unfolding new_host_relay refresh_host_ips host_ips
receive-own_example = receive-own 6 interfaces 47624 from_home relay refl refl
