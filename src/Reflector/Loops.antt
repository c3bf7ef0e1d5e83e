-- ===== src/Reflector/Loops.antt =====
-- What the reflector passes on, in both directions, and what it keeps from going round.
use vidya_god_ipfs.Prelude.{
  ℕ, ◌-◌, ◌^◌, ◌≡◌, ◌≤◌, ◌<◌, refl, ap, ◌∙◌, Bool, true, false, ◌&&◌, ◌||◌, Option, some, List, [],
  ◌∷◌, ltb, ◌==◌, length, both_branches,
}
use mathlib.Core.Logic.{◌⊎◌}
use vidya_god_ipfs.Packet4.{Ip4, Udp4, parse_udp4}
use vidya_god_ipfs.Packet4.RoundTrip.{parse-build}
use vidya_god_ipfs.Reflector.Hosts.{HostAddr, v4_net, host_ips, contains_ip, same_ip}
use vidya_god_ipfs.Reflector.Relay.{
  Relay, Effect, wrote, injected, Datagram, receive, is_host_ip, refresh_host_ips, host_ips_ttl,
}

own-is_host_ip :
    (now : ℕ) (addrs : List HostAddr) (ip : Ip4) (r : Relay)
    → r.host_ips ≡ host_ips addrs
    → contains_ip ip (host_ips addrs) ≡ true
    → (is_host_ip now addrs ip r).1 ≡ true
unfolding is_host_ip refresh_host_ips
own-is_host_ip now addrs ip r known own =
    both_branches (λ (s : Relay). contains_ip ip s.host_ips ≡ true)
      (ltb host_ips_ttl (now - r.host_ref_t)) (refresh_host_ips now addrs r) r own
      (ap (contains_ip ip) known ∙ own)

-- While the interfaces keep their addresses, a datagram that comes from one of them, such as a
-- broadcast that the relay itself sent, does not enter the game's link: no broadcast goes round.
pub receive-own :
    (now : ℕ) (addrs : List HostAddr) (port : ℕ) (m : Datagram) (r : Relay)
    → r.host_ips ≡ host_ips addrs
    → contains_ip m.from (host_ips addrs) ≡ true
    → (receive now addrs port m r).1 ≡ []
unfolding receive
receive-own now addrs port m r known own = rw (own-is_host_ip now addrs m.from r known own) refl

-- What the game reads of the packets that enter its link.
abbrev pub read_all : List Effect → List (Option Udp4)
read_all [] = []
read_all (injected p ∷ es) = parse_udp4 p ∷ read_all es
read_all (wrote s d p b ∷ es) = read_all es

-- A datagram from another host enters the link as one packet, from which the game reads the sender, its
-- port and the bytes, addressed to the game's own address and the port on which it came.
pub receive-read :
    (now : ℕ) (addrs : List HostAddr) (port : ℕ) (m : Datagram) (r : Relay)
    → (is_host_ip now addrs m.from r).1 ≡ false
    → m.from_port < 2 ^ 16
    → port < 2 ^ 16
    → length m.bytes ≤ 65507
    → read_all (receive now addrs port m r).1
      ≡ some (record {
        src = m.from;
        dst = r.game_vip;
        src_port = m.from_port;
        dst_port = port;
        payload = m.bytes;
      })
        ∷ []
unfolding receive
receive-read now addrs port m r other fits fits' short =
    rw other
      (ap (λ p. p ∷ []) (parse-build m.from r.game_vip m.from_port port m.bytes fits fits' short))

abbrev same_payload : List ℕ → List ℕ → Bool
same_payload [] [] = true
same_payload (x ∷ xs) (y ∷ ys) = x == y && same_payload xs ys
same_payload _ _ = false

-- A write of the game's datagram to a host: from its source port, to its destination port, with its bytes.
abbrev pub writes_to : Udp4 → Ip4 → Effect → Bool
writes_to u ip (wrote s dst d b) =
    s == u.src_port && same_ip ip dst && d == u.dst_port && same_payload b u.payload
writes_to u ip (injected p) = false

abbrev pub reaches : Udp4 → Ip4 → List Effect → Bool
reaches u ip [] = false
reaches u ip (e ∷ es) = writes_to u ip e || reaches u ip es

-- The subnet is one of the host's.
abbrev pub NetIn : Ip4 → ℕ → List HostAddr → Type 0
NetIn ip ones [] = ⊥
NetIn ip ones (addr ∷ addrs) = (addr ≡ v4_net ip ones) ⊎ NetIn ip ones addrs
