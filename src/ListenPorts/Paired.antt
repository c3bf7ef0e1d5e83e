-- ===== src/ListenPorts/Paired.antt =====
-- The UDP ports of QUIC and WebTransport in listenports.go.
use vidya_god_ipfs.Prelude.{
  ℕ, ◌≡◌, refl, sym, ◌∙◌, Bool, true, false, not, ◌||◌, List, [], arith, ◌⊎◌, ◌==◌, if◌then◌else◌,
  Bool-cases, both_branches, inl, inr,
}
use vidya_god_ipfs.ListenPorts.Ports.{
  Ports, Addr, Kind, plain, quic, web_transport, web_socket, Transport, over_tcp, over_udp, over_ws,
  System, contains_addr, same_addr, addrs_of, opened, port_of, listen, free_port, listen_v4,
  listen_v6, listen_transports, listen_on,
}
use vidya_god_ipfs.ListenPorts.Listen.{
  at, Paired, Free, listen-tcp, listen-udp_taken, listen-udp_refused, listen-udp_other,
}

-- The two parts of a transport, as far as an address is concerned that each attempt leaves alone.
listen_v4-leaves :
    (sys : System) (saved : Ports) (t : Transport) (a : Addr) (l : List Addr)
    → ((port : ℕ) (l : List Addr)
        → contains_addr a (listen sys.takes sys.picks (addrs_of t false port) l).0
          ≡ contains_addr a l)
    → contains_addr a (listen_v4 sys saved t l).1 ≡ contains_addr a l
unfolding listen_v4
listen_v4-leaves sys saved t a l leaves =
    let P : ℕ × List Addr → Type 0 = λ r. contains_addr a r.1 ≡ contains_addr a l in
    let port : ℕ =
      if port_of t saved == 0 then free_port sys.has_v6 (sys.first_probes t) else port_of t saved in
    let fresh : ℕ = free_port sys.has_v6 (sys.fresh_probes t) in
    let (l1, ok) : List Addr × Bool = listen sys.takes sys.picks (addrs_of t false port) l in
    both_branches P (port == 0) (fresh, (listen sys.takes sys.picks (addrs_of t false fresh) l).0) _
      (leaves fresh l)
      (both_branches P (listen sys.takes sys.picks (addrs_of t false port) l).1 (port, l1)
        (fresh, (listen sys.takes sys.picks (addrs_of t false fresh) l1).0) (leaves port l)
        (leaves fresh l1 ∙ leaves port l))

listen_v6-leaves :
    (sys : System) (t : Transport) (port : ℕ) (a : Addr) (l : List Addr)
    → ((port : ℕ) (l : List Addr)
        → contains_addr a (listen sys.takes sys.picks (addrs_of t true port) l).0
          ≡ contains_addr a l)
    → contains_addr a (listen_v6 sys t port l) ≡ contains_addr a l
unfolding listen_v6
listen_v6-leaves sys t port a l leaves =
    let P : List Addr → Type 0 = λ r. contains_addr a r ≡ contains_addr a l in
    let (l1, ok) : List Addr × Bool = listen sys.takes sys.picks (addrs_of t true port) l in
    both_branches P
      ((listen sys.takes sys.picks (addrs_of t true port) l).1
        || not sys.has_v6
        || sys.free_v6 t == 0)
      l1 (listen sys.takes sys.picks (addrs_of t true (sys.free_v6 t)) l1).0 (leaves port l)
      (leaves (sys.free_v6 t) l1 ∙ leaves port l)

udp_v4-Paired :
    (sys : System) (saved : Ports) (l : List Addr)
    → (free_port sys.has_v6 (sys.fresh_probes over_udp) == 0) ≡ false
    → Free false l
    → (Paired false (listen_v4 sys saved over_udp l).1)
      × (((listen_v4 sys saved over_udp l).0 == 0) ≡ false)
unfolding listen_v4
udp_v4-Paired sys saved l found free =
    let port : ℕ =
      if saved.udp == 0 then free_port sys.has_v6 (sys.first_probes over_udp) else saved.udp in
    let fresh : ℕ = free_port sys.has_v6 (sys.fresh_probes over_udp) in
    let l1 : List Addr = (listen sys.takes sys.picks (addrs_of over_udp false port) l).0 in
    elim (Bool-cases (port == 0)) [
      | inl e ↦ rw e (listen-udp_taken sys.takes sys.picks false fresh l found free, found)
      | inr nz ↦ elim (Bool-cases (listen sys.takes sys.picks (addrs_of over_udp false port) l).1) [
        | inl e ↦ rw (nz, e) (listen-udp_taken sys.takes sys.picks false port l nz free, nz)
        | inr e ↦
            rw (nz, e)
              (
                listen-udp_taken sys.takes sys.picks false fresh l1 found
                    (listen-udp_refused sys.takes sys.picks false port l nz free e),
                found,
              )
      ]
    ]

udp_v6-Paired :
    (sys : System) (port : ℕ) (l : List Addr)
    → (port == 0) ≡ false
    → Free true l
    → Paired true (listen_v6 sys over_udp port l)
unfolding listen_v6
udp_v6-Paired sys port l nz free =
    let l1 : List Addr = (listen sys.takes sys.picks (addrs_of over_udp true port) l).0 in
    let p6 : ℕ = sys.free_v6 over_udp in
    elim (Bool-cases (listen sys.takes sys.picks (addrs_of over_udp true port) l).1) [
      | inl e ↦ rw e (listen-udp_taken sys.takes sys.picks true port l nz free)
      | inr e ↦ elim (Bool-cases (not sys.has_v6 || p6 == 0)) [
        | inl none_ ↦ rw (e, none_) (listen-udp_taken sys.takes sys.picks true port l nz free)
        | inr some_ ↦
            rw (e, some_)
              (listen-udp_taken sys.takes sys.picks true p6 l1 (ground (arith, some_))
                (listen-udp_refused sys.takes sys.picks true port l nz free e))
      ]
    ]

not_plain :
    (f : Bool) (k : Kind) (p : ℕ) (v6 : Bool) (port : ℕ)
    → (k ≡ quic) ⊎ (k ≡ web_transport)
    → same_addr (at f k p) (at v6 plain port) ≡ false
not_plain f k p v6 port (inl e) = rw e (ground arith)
not_plain f k p v6 port (inr e) = rw e (ground arith)

not_socket :
    (f : Bool) (k : Kind) (p : ℕ) (v6 : Bool) (port : ℕ)
    → (k ≡ quic) ⊎ (k ≡ web_transport)
    → same_addr (at f k p) (at v6 web_socket port) ≡ false
not_socket f k p v6 port (inl e) = rw e (ground arith)
not_socket f k p v6 port (inr e) = rw e (ground arith)

-- A transport over TCP, both parts.
tcp-leaves :
    (sys : System) (saved : Ports) (f : Bool) (k : Kind) (p : ℕ) (l : List Addr)
    → (k ≡ quic) ⊎ (k ≡ web_transport)
    → contains_addr (at f k p) (
        listen_v6 sys over_tcp
          (listen_v4 sys saved over_tcp l).0
          (listen_v4 sys saved over_tcp l).1)
      ≡ contains_addr (at f k p) l
tcp-leaves sys saved f k p l udp =
    listen_v6-leaves sys over_tcp (listen_v4 sys saved over_tcp l).0 (at f k p)
      (listen_v4 sys saved over_tcp l).1
      (λ port r.
        listen-tcp sys.takes sys.picks f p (at true plain port) r k
          (not_plain f k p true (opened sys.picks (at true plain port)).port udp))
    ∙ listen_v4-leaves sys saved over_tcp (at f k p) l (λ port r.
      listen-tcp sys.takes sys.picks f p (at false plain port) r k
        (not_plain f k p false (opened sys.picks (at false plain port)).port udp))

ws-leaves :
    (sys : System) (saved : Ports) (f : Bool) (k : Kind) (p : ℕ) (l : List Addr)
    → (k ≡ quic) ⊎ (k ≡ web_transport)
    → contains_addr
        (at f k p)
        (listen_v6 sys over_ws (listen_v4 sys saved over_ws l).0 (listen_v4 sys saved over_ws l).1)
      ≡ contains_addr (at f k p) l
ws-leaves sys saved f k p l udp =
    listen_v6-leaves sys over_ws (listen_v4 sys saved over_ws l).0 (at f k p)
      (listen_v4 sys saved over_ws l).1
      (λ port r.
        listen-tcp sys.takes sys.picks f p (at true web_socket port) r k
          (not_socket f k p true (opened sys.picks (at true web_socket port)).port udp))
    ∙ listen_v4-leaves sys saved over_ws (at f k p) l (λ port r.
      listen-tcp sys.takes sys.picks f p (at false web_socket port) r k
        (not_socket f k p false (opened sys.picks (at false web_socket port)).port udp))

udp-Paired :
    (sys : System) (saved : Ports) (f : Bool) (l : List Addr)
    → (free_port sys.has_v6 (sys.fresh_probes over_udp) == 0) ≡ false
    → Free false l
    → Free true l
    → Paired f (
        listen_v6 sys over_udp
          (listen_v4 sys saved over_udp l).0
          (listen_v4 sys saved over_udp l).1)
udp-Paired sys saved false l found free4 free6 p =
    let port : ℕ = (listen_v4 sys saved over_udp l).0 in
    let l1 : List Addr = (listen_v4 sys saved over_udp l).1 in
    let leaves : (k : Kind)
        → contains_addr (at false k p) (listen_v6 sys over_udp port l1)
          ≡ contains_addr (at false k p) l1 =
      λ k.
        listen_v6-leaves sys over_udp port (at false k p) l1
          (λ q r. listen-udp_other sys.takes sys.picks false k p q r) in
    leaves quic ∙ (udp_v4-Paired sys saved l found free4).0 p ∙ sym (leaves web_transport)
udp-Paired sys saved true l found free4 free6 p =
    let l1 : List Addr = (listen_v4 sys saved over_udp l).1 in
    let leaves : (k : Kind) (p : ℕ)
        → contains_addr (at true k p) l1 ≡ contains_addr (at true k p) l =
      λ k p.
        listen_v4-leaves sys saved over_udp (at true k p) l
          (λ q r. listen-udp_other sys.takes sys.picks true k p q r) in
    udp_v6-Paired sys (listen_v4 sys saved over_udp l).0 l1
      (udp_v4-Paired sys saved l found free4).1
      (λ p. (leaves quic p ∙ (free6 p).0, leaves web_transport p ∙ (free6 p).1)) p

-- Where a fresh UDP port is found when one is needed: whichever addresses the system gives or refuses, on each port of each family, the host listens for QUIC exactly
-- where it listens for WebTransport.
pub listen_on-paired :
    (sys : System) (saved : Ports) (f : Bool) (p : ℕ)
    → (free_port sys.has_v6 (sys.fresh_probes over_udp) == 0) ≡ false
    → contains_addr (record { v6 = f; kind = quic; port = p }) (listen_on sys saved).0
      ≡ contains_addr (record { v6 = f; kind = web_transport; port = p }) (listen_on sys saved).0
unfolding listen_on listen_transports
listen_on-paired sys saved f p found =
    let lt : List Addr =
      listen_v6 sys over_tcp (listen_v4 sys saved over_tcp []).0
        (listen_v4 sys saved over_tcp []).1 in
    let free : (f : Bool) → Free f lt = λ f p. (
      tcp-leaves sys saved f quic p [] (inl refl),
      tcp-leaves sys saved f web_transport p [] (inr refl),
    ) in
    let lu : List Addr =
      listen_v6 sys over_udp (listen_v4 sys saved over_udp lt).0
        (listen_v4 sys saved over_udp lt).1 in
    ws-leaves sys saved f quic p lu (inl refl)
    ∙ udp-Paired sys saved f lt found (free false) (free true) p
    ∙ sym (ws-leaves sys saved f web_transport p lu (inr refl))
