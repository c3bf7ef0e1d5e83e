-- ===== src/Reflector/Sockets.antt =====
-- The sockets that the reflector holds, over any sequence of calls.
use vidya_god_ipfs.Prelude.{
  ℕ, ◌-◌, ◌≡◌, ◌≤◌, refl, Bool, true, false, not, ◌&&◌, ◌||◌, List, [], ◌∷◌, arith, ltb, leb, ◌==◌,
  contains, length, Bool-cases, both_branches, inl, inr,
}
use vidya_god_ipfs.Packet4.{Udp4}
use vidya_god_ipfs.Reflector.Hosts.{HostAddr}
use vidya_god_ipfs.Reflector.Relay.{
  Relay, Effect, Datagram, relay_max_ports, ensure, from_game, close, receive, is_host_ip,
  refresh_host_ips, is_multicast, host_ips_ttl,
}

abbrev pub distinct : List ℕ → Bool
distinct [] = true
distinct (p ∷ ps) = not (contains p ps) && distinct ps

-- The relay's sockets: at most 32, on different ports, none on port 0, none once it is closed.
abbrev pub IsSound : Relay → Type 0
IsSound r =
    (length r.socks ≤ relay_max_ports)
    × (distinct r.socks ≡ true)
    × (contains 0 r.socks ≡ false)
    × ((not r.done || (length r.socks == 0)) ≡ true)

ensure-IsSound : (binds : Bool) (port : ℕ) (r : Relay) → IsSound r → IsSound (ensure binds port r).0
unfolding ensure
ensure-IsSound binds port r h = elim (Bool-cases (port == 0 || r.done)) [
  | inl e ↦ rw (e, ensure) h
  | inr e ↦ elim (Bool-cases (contains port r.socks)) [
    | inl c ↦ rw (e, c, ensure) h
    | inr c ↦ elim (Bool-cases (leb relay_max_ports (length r.socks) || not binds)) [
      | inl full ↦ rw (e, c, full, ensure) h
      | inr free ↦
          let (bound, apart, not_zero, closed) : IsSound r = h in
          rw (e, c, free, ensure)
            (
              ground (arith, free),
              ground (arith, c, apart),
              ground (arith, e, not_zero),
              ground (arith, e),
            )
    ]
  ]
]

-- What may happen to the relay: a broadcast of the game, a datagram of the LAN, the end.
pub data Happening : Type 0 where
  sent : (ℕ → Bool) → Udp4 → Happening
  arrived : ℕ → List HostAddr → ℕ → Datagram → Happening
  closed : Happening

unfoldable pub happen : Happening → Relay → Relay
happen (sent binds u) r = (from_game binds u r).0
happen (arrived now addrs port m) r = (receive now addrs port m r).0
happen closed r = close r

unfoldable pub run : List Happening → Relay → Relay
run [] r = r
run (e ∷ es) r = run es (happen e r)

from_game-IsSound :
    (binds : ℕ → Bool) (u : Udp4) (r : Relay) → IsSound r → IsSound (from_game binds u r).0
unfolding from_game
from_game-IsSound binds u r h =
    let r1 : Relay = (ensure (binds u.src_port) u.src_port r).0 in
    let r2 : Relay = (ensure (binds u.dst_port) u.dst_port r1).0 in
    let s2 : IsSound r2 =
      ensure-IsSound (binds u.dst_port) u.dst_port r1
        (ensure-IsSound (binds u.src_port) u.src_port r h) in
    both_branches (λ (x : Relay × List Effect). IsSound x.0)
      (not (ensure (binds u.src_port) u.src_port r).1) (r2, []) _ s2
      (both_branches (λ (x : Relay × List Effect). IsSound x.0) (is_multicast u.dst) _ _ s2 s2)

receive-IsSound :
    (now : ℕ) (addrs : List HostAddr) (port : ℕ) (m : Datagram) (r : Relay)
    → IsSound r
    → IsSound (receive now addrs port m r).0
unfolding receive is_host_ip refresh_host_ips
receive-IsSound now addrs port m r h =
    let r' : Relay = (is_host_ip now addrs m.from r).0 in
    let s : IsSound r' =
      both_branches IsSound (ltb host_ips_ttl (now - r.host_ref_t)) (refresh_host_ips now addrs r) r
        h h in
    both_branches (λ (x : Relay × List Effect). IsSound x.0) (is_host_ip now addrs m.from r).1
      (r', []) _ s s

happen-IsSound : (e : Happening) (r : Relay) → IsSound r → IsSound (happen e r)
unfolding happen close
happen-IsSound (sent binds u) r h = from_game-IsSound binds u r h
happen-IsSound (arrived now addrs port m) r h = receive-IsSound now addrs port m r h
happen-IsSound closed r h = (omega arith, refl, refl, ground arith)

-- Whatever the game sends and the LAN answers, the relay has at most 32 sockets, on different
-- ports of which none is 0, and none after it was closed.
pub run-IsSound : (es : List Happening) (r : Relay) → IsSound r → IsSound (run es r)
unfolding run
run-IsSound [] r h = h
run-IsSound (e ∷ es) r h = run-IsSound es (happen e r) (happen-IsSound e r h)
