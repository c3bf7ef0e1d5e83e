-- ===== src/DialBudget/Gate.antt =====
-- netgate.go: the connection gater, and the peers that the node knows to be close.
use vidya_god_ipfs.Prelude.{
  ℕ, ◌+◌, ◌/◌, ◌%◌, ◌^◌, Bool, true, false, not, ◌&&◌, ◌||◌, Option, none, some, List, ltb, ◌==◌,
  contains, if◌then◌else◌, Map, get, put, delete,
}
use vidya_god_ipfs.Packet4.{Ip4}
use vidya_god_ipfs.Friends.Social.{Social, accepted_peers}
use vidya_god_ipfs.DialBudget.Bucket.{Bucket, Look, take_from, dial_max_wait}

-- `netGate` and the fields of the node that it reads: the address book, and the times until which a
-- peer counts as one of our network or as a wanted provider.
pub record NetGate : Type 0 where
  pub bucket : Bucket
  pub social : Option Social
  pub lan_peers : Map ℕ
  pub wanted_prov : Map ℕ

abbrev pub lan_peer_ttl : ℕ
lan_peer_ttl = 3_600_000_000_000

abbrev pub wanted_provider_ttl : ℕ
wanted_provider_ttl = 120_000_000_000

-- `noteLanPeer`, `noteWantedProvider`
unfoldable pub note_lan_peer : ℕ → ℕ → NetGate → NetGate
note_lan_peer now p g = record g { lan_peers = put p (now + lan_peer_ttl) g.lan_peers }

unfoldable pub note_wanted_provider : ℕ → ℕ → NetGate → NetGate
note_wanted_provider now p g = record g {
  wanted_prov = put p (now + wanted_provider_ttl) g.wanted_prov;
}

-- `isFriend`
unfoldable pub is_friend : ℕ → NetGate → Bool
is_friend p g = elim g.social [ none ↦ false | some s ↦ contains p (accepted_peers s) ]

-- Whether an entry still counts, and the entries after it was looked at: one that is past is deleted.
abbrev pub counts : ℕ → ℕ → Map ℕ → Bool
counts now p m = elim (get p m) [ none ↦ false | some until ↦ not (ltb until now) ]

abbrev pub looked_at : ℕ → ℕ → Map ℕ → Map ℕ
looked_at now p m = elim (get p m) [
  | none ↦ m
  | some until ↦ if ltb until now then delete p m else m
]

-- `isLanPeer`, `isWantedProvider`
unfoldable pub is_lan_peer : ℕ → ℕ → NetGate → NetGate × Bool
is_lan_peer now p g =
    (record g { lan_peers = looked_at now p g.lan_peers }, counts now p g.lan_peers)

unfoldable pub is_wanted_provider : ℕ → ℕ → NetGate → NetGate × Bool
is_wanted_provider now p g =
    (record g { wanted_prov = looked_at now p g.wanted_prov }, counts now p g.wanted_prov)

-- `priority`: each is asked only where those before it said no
unfoldable pub priority : ℕ → ℕ → NetGate → NetGate × Bool
priority now p g =
    let (g1, lan) = is_lan_peer now p g in
    let (g2, wanted) = is_wanted_provider now p g1 in
    if is_friend p g then (g, true) else if lan then (g1, true) else (g2, wanted)

-- What a gater of `bench.go` answers, where there is one.
abbrev pub inner_allows : Option Bool → Bool
inner_allows none = true
inner_allows (some b) = b

-- `InterceptPeerDial` at a time, where the rounds of `take` are the looks `times`
unfoldable pub intercept_peer_dial :
    Option Bool → ℕ → List Look → ℕ → NetGate → NetGate × Option Bool
intercept_peer_dial inner now times p g =
    let (g1, first) = priority now p g in
    let (bucket, got) = take_from (now + dial_max_wait) times g1.bucket in
    if not (inner_allows inner)
    then (g, some false)
    else if first
    then (g1, some true)
    else (record g1 { bucket = bucket }, got)

-- What `manet.ToIP` makes of an address: no IP address, or one of the two kinds. The 16 bytes of
-- an IPv6 address are its first two and the number of the others.
pub data DialAddr : Type 0 where
  no_ip : DialAddr
  v4_addr : Ip4 → DialAddr
  v6_addr : ℕ → ℕ → ℕ → DialAddr

-- `To4`: the methods of `net.IP` take an IPv4-mapped IPv6 address for the IPv4 address.
abbrev pub to4 : DialAddr → DialAddr
to4 (v6_addr a b rest) =
    if a == 0 && b == 0 && rest / 2 ^ 32 == 0xffff
    then v4_addr (record {
      a = rest / 2 ^ 24 % 256;
      b = rest / 2 ^ 16 % 256;
      c = rest / 2 ^ 8 % 256;
      d = rest % 256;
    })
    else v6_addr a b rest
to4 other = other

-- `net.IP`: IsPrivate, IsLoopback, IsLinkLocalUnicast and IsUnspecified
abbrev pub is_private : DialAddr → Bool
is_private no_ip = false
is_private (v4_addr ip) =
    ip.a == 10 || (ip.a == 172 && ip.b / 16 == 1) || (ip.a == 192 && ip.b == 168)
is_private (v6_addr a b rest) = a / 2 == 126

abbrev pub is_loopback : DialAddr → Bool
is_loopback no_ip = false
is_loopback (v4_addr ip) = ip.a == 127
is_loopback (v6_addr a b rest) = a == 0 && b == 0 && rest == 1

abbrev pub is_link_local_unicast : DialAddr → Bool
is_link_local_unicast no_ip = false
is_link_local_unicast (v4_addr ip) = ip.a == 169 && ip.b == 254
is_link_local_unicast (v6_addr a b rest) = a == 0xfe && b / 64 == 2

abbrev pub is_unspecified : DialAddr → Bool
is_unspecified no_ip = false
is_unspecified (v4_addr ip) = ip.a == 0 && ip.b == 0 && ip.c == 0 && ip.d == 0
is_unspecified (v6_addr a b rest) = a == 0 && b == 0 && rest == 0

-- `cgnat`
abbrev pub in_cgnat : DialAddr → Bool
in_cgnat (v4_addr ip) = ip.a == 100 && ip.b / 64 == 1
in_cgnat _ = false

-- `privateAddr`
unfoldable pub private_addr : DialAddr → Bool
private_addr a =
    let ip = to4 a in
    is_private ip || is_loopback ip || is_link_local_unicast ip || is_unspecified ip || in_cgnat ip

-- `InterceptAddrDial`
unfoldable pub intercept_addr_dial : Option Bool → ℕ → ℕ → DialAddr → NetGate → NetGate × Bool
intercept_addr_dial inner now p a g =
    let (g1, lan) = is_lan_peer now p g in
    if not (inner_allows inner)
    then (g, false)
    else if not (private_addr a) || is_friend p g
    then (g, true)
    else (g1, lan)
