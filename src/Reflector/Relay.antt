-- ===== src/Reflector/Relay.antt =====
-- hostrelay.go: the sockets, and what goes through them.
use vidya_god_ipfs.Prelude.{
  ℕ, ◌-◌, Bool, true, false, not, ◌&&◌, ◌||◌, List, [], ◌∷◌, ltb, leb, ◌==◌, contains, length,
  if◌then◌else◌,
}
use vidya_god_ipfs.Packet4.{Ip4, Udp4, build_udp4}
use vidya_god_ipfs.Reflector.Hosts.{HostAddr, same_ip, contains_ip, host_ips, directed_of}

abbrev pub relay_max_ports : ℕ
relay_max_ports = 32

-- `hostRelay`; a socket is the port that it is bound to. Times are in nanoseconds.
pub record Relay : Type 0 where
  pub game_vip : Ip4
  pub bcast_addr : Ip4
  pub socks : List ℕ
  pub done : Bool
  pub host_ips : List Ip4
  pub bcast_to : List Ip4
  pub host_ref_t : ℕ

abbrev pub limited_broadcast : Ip4
limited_broadcast = record { a = 255; b = 255; c = 255; d = 255 }

-- What leaves the relay: a datagram from a socket's port to a host and port of the LAN, and a packet into
-- the game's link.
pub data Effect : Type 0 where
  wrote : ℕ → Ip4 → ℕ → List ℕ → Effect
  injected : List ℕ → Effect

-- `refreshHostIPs`, for the addresses that the interfaces have
unfoldable pub refresh_host_ips : ℕ → List HostAddr → Relay → Relay
refresh_host_ips now addrs r = record r {
  host_ips = host_ips addrs;
  bcast_to = directed_of addrs [];
  host_ref_t = now;
}

-- `newHostRelay`
unfoldable pub new_host_relay : ℕ → List HostAddr → Ip4 → Relay
new_host_relay now addrs vip = refresh_host_ips now addrs (record {
  game_vip = vip;
  bcast_addr = limited_broadcast;
  socks = [];
  done = false;
  host_ips = [];
  bcast_to = [];
  host_ref_t = 0;
})

-- `close`
unfoldable pub close : Relay → Relay
close r = record r { done = true; socks = [] }

-- `ensure`: whether there is a socket for the port; `binds` is whether the port can be bound
unfoldable pub ensure : Bool → ℕ → Relay → Relay × Bool
ensure binds port r =
    if port == 0 || r.done
    then (r, false)
    else if contains port r.socks
    then (r, true)
    else if leb relay_max_ports (length r.socks) || not binds
    then (r, false)
    else (record r { socks = port ∷ r.socks }, true)

-- `broadcastTargets`
unfoldable pub broadcast_targets : Relay → List Ip4
broadcast_targets r =
    if same_ip r.bcast_addr limited_broadcast
    then limited_broadcast ∷ r.bcast_to
    else r.bcast_addr ∷ []

abbrev pub is_multicast : Ip4 → Bool
is_multicast ip = leb 224 ip.a && leb ip.a 239

-- The loop over the targets
abbrev pub write_all : ℕ → ℕ → List ℕ → List Ip4 → List Effect
write_all sport dport payload [] = []
write_all sport dport payload (dst ∷ dsts) =
    wrote sport dst dport payload ∷ write_all sport dport payload dsts

-- `fromGame`
unfoldable pub from_game : (ℕ → Bool) → Udp4 → Relay → Relay × List Effect
from_game binds u r =
    let (r1, src) = ensure (binds u.src_port) u.src_port r in
    let (r2, dst) = ensure (binds u.dst_port) u.dst_port r1 in
    if not src
    then (r2, [])
    else if is_multicast u.dst
    then (r2, wrote u.src_port u.dst u.dst_port u.payload ∷ [])
    else (r2, write_all u.src_port u.dst_port u.payload (broadcast_targets r2))

-- A datagram that a socket receives: its sender, and what it holds.
pub record Datagram : Type 0 where
  pub from : Ip4
  pub from_port : ℕ
  pub bytes : List ℕ

abbrev pub host_ips_ttl : ℕ
host_ips_ttl = 30_000_000_000

-- `isHostIP`, for the time and the addresses that the interfaces have then
unfoldable pub is_host_ip : ℕ → List HostAddr → Ip4 → Relay → Relay × Bool
is_host_ip now addrs ip r =
    let r' = if ltb host_ips_ttl (now - r.host_ref_t) then refresh_host_ips now addrs r else r in
    (r', contains_ip ip r'.host_ips)

-- One round of `recvLoop` on the socket of a port
unfoldable pub receive : ℕ → List HostAddr → ℕ → Datagram → Relay → Relay × List Effect
receive now addrs port m r =
    let (r', own) = is_host_ip now addrs m.from r in
    if own
    then (r', [])
    else (r', injected (build_udp4 m.from r.game_vip m.from_port port m.bytes) ∷ [])
