-- ===== src/ListenPorts/Stable.antt =====
-- listenports.go on the ports of the last run.
use vidya_god_ipfs.Prelude.{
  ℕ, ◌≡◌, ◌<◌, refl, ap, ◌∙◌, Bool, true, false, none, List, [], ◌∷◌, arith, ◌==◌,
}
use vidya_god_ipfs.ListenPorts.Ports.{
  Ports, Addr, Kind, plain, quic, web_transport, web_socket, Transport, over_tcp, over_udp, over_ws,
  System, addrs_of, port_of, listen_loop, listen, listen_v4, listen_v6, listen_transports,
  transports, family_ports, ports_of, same_ports, listen_on,
}

abbrev pub at : Bool → Kind → ℕ → Addr
at v6 kind port = record { v6 = v6; kind = kind; port = port }

listen-one :
    (takes : Addr → Bool) (picks : Addr → ℕ) (a : Addr) (l : List Addr)
    → (a.port == 0) ≡ false
    → takes a ≡ true
    → listen takes picks (a ∷ []) l ≡ (a ∷ l, true)
unfolding listen listen_loop
listen-one takes picks a l nz h = rw (h, nz) refl

listen-two :
    (takes : Addr → Bool) (picks : Addr → ℕ) (a b : Addr) (l : List Addr)
    → (a.port == 0) ≡ false
    → (b.port == 0) ≡ false
    → takes a ≡ true
    → takes b ≡ true
    → listen takes picks (a ∷ b ∷ []) l ≡ (b ∷ a ∷ l, true)
unfolding listen listen_loop
listen-two takes picks a b l nz nz' h k = rw (h, k, nz, nz') refl

v4-kept :
    (sys : System) (saved : Ports) (t : Transport) (l l' : List Addr)
    → (port_of t saved == 0) ≡ false
    → listen sys.takes sys.picks (addrs_of t false (port_of t saved)) l ≡ (l', true)
    → listen_v4 sys saved t l ≡ (port_of t saved, l')
unfolding listen_v4
v4-kept sys saved t l l' e h = rw (e, h, e) refl

v6-kept :
    (sys : System) (t : Transport) (port : ℕ) (l l' : List Addr)
    → listen sys.takes sys.picks (addrs_of t true port) l ≡ (l', true)
    → listen_v6 sys t port l ≡ l'
unfolding listen_v6
v6-kept sys t port l l' h = rw h refl

-- A transport on its saved port.
both-kept :
    (sys : System) (saved : Ports) (t : Transport) (l l' l'' : List Addr)
    → (port_of t saved == 0) ≡ false
    → listen sys.takes sys.picks (addrs_of t false (port_of t saved)) l ≡ (l', true)
    → listen sys.takes sys.picks (addrs_of t true (port_of t saved)) l' ≡ (l'', true)
    → listen_v6 sys t (listen_v4 sys saved t l).0 (listen_v4 sys saved t l).1 ≡ l''
both-kept sys saved t l l' l'' e h h' =
    rw (v4-kept sys saved t l l' e h) (v6-kept sys t (port_of t saved) l' l'' h')

abbrev kept_addrs : Ports → List Addr
kept_addrs p =
    at true web_socket p.ws
    ∷ at false web_socket p.ws
    ∷ at true web_transport p.udp
    ∷ at true quic p.udp
    ∷ at false web_transport p.udp
    ∷ at false quic p.udp
    ∷ at true plain p.tcp
    ∷ at false plain p.tcp
    ∷ []

ports_of-kept :
    (p : Ports)
    → (p.tcp == 0) ≡ false
    → (p.udp == 0) ≡ false
    → (p.ws == 0) ≡ false
    → ports_of (kept_addrs p) ≡ p
unfolding ports_of family_ports
ports_of-kept p t u w = rw (t, u, w) refl

-- Where each saved port can be had on both families, the host listens on the saved ports and on no
-- others: on both families, over TCP, QUIC, WebTransport and WebSocket; these ports are what it reads
-- back, and nothing is written to the file.
pub listen_on-kept :
    (sys : System) (saved : Ports)
    → 0 < saved.tcp
    → 0 < saved.udp
    → 0 < saved.ws
    → ((v6 : Bool) → sys.takes (at v6 plain saved.tcp) ≡ true)
    → ((v6 : Bool) → sys.takes (at v6 quic saved.udp) ≡ true)
    → ((v6 : Bool) → sys.takes (at v6 web_transport saved.udp) ≡ true)
    → ((v6 : Bool) → sys.takes (at v6 web_socket saved.ws) ≡ true)
    → ((listen_on sys saved).0
        ≡ at true web_socket saved.ws
          ∷ at false web_socket saved.ws
          ∷ at true web_transport saved.udp
          ∷ at true quic saved.udp
          ∷ at false web_transport saved.udp
          ∷ at false quic saved.udp
          ∷ at true plain saved.tcp
          ∷ at false plain saved.tcp
          ∷ [])
      × (ports_of (listen_on sys saved).0 ≡ saved)
      × ((listen_on sys saved).1 ≡ none)
      × ((listen_on sys saved).2 ≡ false)
unfolding listen_on listen_transports
listen_on-kept sys saved t u w has_tcp has_quic has_wt has_ws =
    let et : (saved.tcp == 0) ≡ false = ground arith in
    let eu : (saved.udp == 0) ≡ false = ground arith in
    let ew : (saved.ws == 0) ≡ false = ground arith in
    let tcp : listen_v6 sys over_tcp (listen_v4 sys saved over_tcp []).0
          (listen_v4 sys saved over_tcp []).1
        ≡ at true plain saved.tcp ∷ at false plain saved.tcp ∷ [] =
      both-kept sys saved over_tcp [] _ _ et
        (listen-one sys.takes sys.picks (at false plain saved.tcp) [] et (has_tcp false))
        (listen-one sys.takes sys.picks (at true plain saved.tcp) _ et (has_tcp true)) in
    let udp : (l : List Addr)
        → listen_v6 sys over_udp (listen_v4 sys saved over_udp l).0
            (listen_v4 sys saved over_udp l).1
          ≡ at true web_transport saved.udp
            ∷ at true quic saved.udp
            ∷ at false web_transport saved.udp
            ∷ at false quic saved.udp
            ∷ l =
      λ l.
        both-kept sys saved over_udp l _ _ eu
          (listen-two sys.takes sys.picks (at false quic saved.udp)
            (at false web_transport saved.udp) l eu eu (has_quic false) (has_wt false))
          (listen-two sys.takes sys.picks (at true quic saved.udp) (at true web_transport saved.udp)
            _ eu eu (has_quic true) (has_wt true)) in
    let ws : (l : List Addr)
        → listen_v6 sys over_ws (listen_v4 sys saved over_ws l).0 (listen_v4 sys saved over_ws l).1
          ≡ at true web_socket saved.ws ∷ at false web_socket saved.ws ∷ l =
      λ l.
        both-kept sys saved over_ws l _ _ ew
          (listen-one sys.takes sys.picks (at false web_socket saved.ws) l ew (has_ws false))
          (listen-one sys.takes sys.picks (at true web_socket saved.ws) _ ew (has_ws true)) in
    let all : listen_transports sys saved transports [] ≡ kept_addrs saved =
      ws _
      ∙ ap (λ l. at true web_socket saved.ws ∷ at false web_socket saved.ws ∷ l)
          (udp _
            ∙ ap
                (λ l.
                  at true web_transport saved.udp
                  ∷ at true quic saved.udp
                  ∷ at false web_transport saved.udp
                  ∷ at false quic saved.udp
                  ∷ l)
                tcp) in
    let same : same_ports saved saved ≡ true = ground arith in
    (
      all,
      ap ports_of all ∙ ports_of-kept saved et eu ew,
      rw (all, ports_of-kept saved et eu ew) (rw same refl),
      rw all refl,
    )
