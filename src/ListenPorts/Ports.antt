-- ===== src/ListenPorts/Ports.antt =====
-- listenports.go: the transports, the free ports, and what the host listens on.
use vidya_god_ipfs.Prelude.{
  ℕ, Bool, true, false, not, ◌&&◌, ◌||◌, Option, none, some, List, [], ◌∷◌, take, is_empty, ◌==◌,
  if◌then◌else◌,
}

-- `listenPorts`; 0 where there is none
pub record Ports : Type 0 where
  pub tcp : ℕ
  pub udp : ℕ
  pub ws : ℕ

abbrev pub no_ports : Ports
no_ports = record { tcp = 0; udp = 0; ws = 0 }

-- An address to listen on, on all interfaces of its family.
pub data Kind : Type 0 where
  plain quic web_transport web_socket : Kind

pub record Addr : Type 0 where
  pub v6 : Bool
  pub kind : Kind
  pub port : ℕ

abbrev addr : Bool → Kind → ℕ → Addr
addr v6 kind port = record { v6 = v6; kind = kind; port = port }

-- `transports`
pub data Transport : Type 0 where
  over_tcp over_udp over_ws : Transport

abbrev pub port_of : Transport → Ports → ℕ
port_of over_tcp p = p.tcp
port_of over_udp p = p.udp
port_of over_ws p = p.ws

abbrev pub addrs_of : Transport → Bool → ℕ → List Addr
addrs_of over_tcp v6 port = addr v6 plain port ∷ []
addrs_of over_udp v6 port = addr v6 quic port ∷ addr v6 web_transport port ∷ []
addrs_of over_ws v6 port = addr v6 web_socket port ∷ []

abbrev pub same_kind : Kind → Kind → Bool
same_kind plain plain = true
same_kind quic quic = true
same_kind web_transport web_transport = true
same_kind web_socket web_socket = true
same_kind _ _ = false

abbrev pub same_family : Bool → Bool → Bool
same_family true b = b
same_family false b = not b

abbrev pub same_addr : Addr → Addr → Bool
same_addr x y = same_family x.v6 y.v6 && same_kind x.kind y.kind && x.port == y.port

abbrev pub contains_addr : Addr → List Addr → Bool
contains_addr a [] = false
contains_addr a (x ∷ xs) = same_addr a x || contains_addr a xs

-- `ListenClose` of the host
abbrev pub close_all : List Addr → List Addr → List Addr
close_all done [] = []
close_all done (x ∷ xs) =
    let rest = close_all done xs in if contains_addr x done then rest else x ∷ rest

-- The address that comes of a listen: for port 0 the system picks a port for it.
abbrev pub opened : (Addr → ℕ) → Addr → Addr
opened picks a = record a { port = if a.port == 0 then picks a else a.port }

-- The loop of `listen`: what the host listens on then, and whether on all of the addresses. `takes`
-- is whether an address can be had; `ListenClose` is given the addresses that were asked for.
unfoldable pub listen_loop :
    (Addr → Bool) → (Addr → ℕ) → List Addr → List Addr → List Addr → List Addr × Bool
listen_loop takes picks [] done l = (l, true)
listen_loop takes picks (a ∷ as_) done l =
    let rest = listen_loop takes picks as_ (a ∷ done) (opened picks a ∷ l) in
    if takes a then rest else (close_all done l, false)

-- `listen`
unfoldable pub listen : (Addr → Bool) → (Addr → ℕ) → List Addr → List Addr → List Addr × Bool
listen takes picks ss l = listen_loop takes picks ss [] l

-- One probe of `freePort`: the port that IPv4 gives, whether IPv6 has it too, and the port that IPv6 gives
-- where IPv4 gives none; 0 for none.
pub record Probe : Type 0 where
  pub v4_port : ℕ
  pub v6_has : Bool
  pub v6_port : ℕ

unfoldable pub probed : Bool → Probe → ℕ
probed v6 p =
    if p.v6_has
    then if p.v4_port == 0 then p.v6_port else p.v4_port
    else if v6
    then 0
    else p.v4_port

-- The rounds of `freePort`
unfoldable pub free_port_loop : Bool → List Probe → ℕ
free_port_loop v6 [] = 0
free_port_loop v6 (p ∷ ps) =
    let rest = free_port_loop v6 ps in if probed v6 p == 0 then rest else probed v6 p

-- `freePort`
unfoldable pub free_port : Bool → List Probe → ℕ
free_port v6 probes = free_port_loop v6 (take 16 probes)

-- What the system answers while a transport is brought up: which addresses can be had, the port that it
-- picks for an address on port 0, whether there is IPv6, the probes for a
-- first port and for a fresh one, and a port that is free on IPv6.
pub record System : Type 0 where
  pub takes : Addr → Bool
  pub picks : Addr → ℕ
  pub has_v6 : Bool
  pub first_probes : Transport → List Probe
  pub fresh_probes : Transport → List Probe
  pub free_v6 : Transport → ℕ

-- The IPv4 part of a transport: the port, and what the host listens on
unfoldable pub listen_v4 : System → Ports → Transport → List Addr → ℕ × List Addr
listen_v4 sys saved t l =
    let port =
      if port_of t saved == 0 then free_port sys.has_v6 (sys.first_probes t) else port_of t saved in
    let (l1, ok) = listen sys.takes sys.picks (addrs_of t false port) l in
    let fresh = free_port sys.has_v6 (sys.fresh_probes t) in
    if port == 0
    then (fresh, (listen sys.takes sys.picks (addrs_of t false fresh) l).0)
    else if ok
    then (port, l1)
    else (fresh, (listen sys.takes sys.picks (addrs_of t false fresh) l1).0)

-- The IPv6 part
unfoldable pub listen_v6 : System → Transport → ℕ → List Addr → List Addr
listen_v6 sys t port l =
    let (l1, ok) = listen sys.takes sys.picks (addrs_of t true port) l in
    let p6 = sys.free_v6 t in
    if ok || not sys.has_v6 || p6 == 0
    then l1
    else (listen sys.takes sys.picks (addrs_of t true p6) l1).0

-- The loop of `listenOn`
unfoldable pub listen_transports : System → Ports → List Transport → List Addr → List Addr
listen_transports sys saved [] l = l
listen_transports sys saved (t ∷ ts) l =
    let (port, l1) = listen_v4 sys saved t l in
    listen_transports sys saved ts (listen_v6 sys t port l1)

abbrev pub transports : List Transport
transports = over_tcp ∷ over_udp ∷ over_ws ∷ []

-- The loop of `portsOf` over the addresses of one family
abbrev pub note_port : Kind → ℕ → Ports → Ports
note_port plain port p = record p { tcp = port }
note_port web_socket port p = record p { ws = port }
note_port quic port p = record p { udp = port }
note_port web_transport port p = p

unfoldable pub family_ports : Bool → List Addr → Ports → Ports
family_ports v6 [] p = p
family_ports v6 (a ∷ as_) p =
    family_ports v6 as_ (if same_family v6 a.v6 then note_port a.kind a.port p else p)

abbrev or_else : ℕ → ℕ → ℕ
or_else v4 v6 = if v4 == 0 then v6 else v4

-- `portsOf`
unfoldable pub ports_of : List Addr → Ports
ports_of addrs =
    let v4 = family_ports false addrs no_ports in
    let v6 = family_ports true addrs no_ports in
    record { tcp = or_else v4.tcp v6.tcp; udp = or_else v4.udp v6.udp; ws = or_else v4.ws v6.ws }

abbrev pub same_ports : Ports → Ports → Bool
same_ports p q = p.tcp == q.tcp && p.udp == q.udp && p.ws == q.ws

-- `listenOn`: what the host listens on, the ports that are written to the file, if any, and
-- whether it fails
unfoldable pub listen_on : System → Ports → List Addr × Option Ports × Bool
listen_on sys saved =
    let l = listen_transports sys saved transports [] in
    let have = ports_of l in
    (l, if is_empty l || same_ports have saved then none else some have, is_empty l)
