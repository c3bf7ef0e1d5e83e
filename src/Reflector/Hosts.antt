-- ===== src/Reflector/Hosts.antt =====
-- hostrelay.go: the addresses of the host, and the broadcast addresses of its subnets.
use vidya_god_ipfs.Prelude.{
  ℕ, ◌+◌, ◌-◌, ◌*◌, ◌/◌, ◌^◌, min, Bool, false, not, ◌&&◌, ◌||◌, List, [], ◌∷◌, ltb, ◌==◌,
  if◌then◌else◌,
}
use vidya_god_ipfs.Packet4.{Ip4}

abbrev pub same_ip : Ip4 → Ip4 → Bool
same_ip x y = x.a == y.a && x.b == y.b && x.c == y.c && x.d == y.d

abbrev pub contains_ip : Ip4 → List Ip4 → Bool
contains_ip x [] = false
contains_ip x (y ∷ ys) = same_ip x y || contains_ip x ys

-- What `net.InterfaceAddrs` lists: an IPv4 address with its prefix length, or another address.
pub data HostAddr : Type 0 where
  v4_net : Ip4 → ℕ → HostAddr
  other_addr : HostAddr

-- A byte with all bits set from the prefix on that reaches `n` bits into it.
abbrev pub host_byte : ℕ → ℕ → ℕ
host_byte n x = let k = 8 - min 8 n in x / 2 ^ k * 2 ^ k + (2 ^ k - 1)

abbrev pub directed : Ip4 → ℕ → Ip4
directed ip ones = record {
  a = host_byte ones ip.a;
  b = host_byte (ones - 8) ip.b;
  c = host_byte (ones - 16) ip.c;
  d = host_byte (ones - 24) ip.d;
}

-- The loop of `refreshHostIPs`: the addresses, and the directed broadcasts, each once.
unfoldable pub host_ips : List HostAddr → List Ip4
host_ips [] = []
host_ips (v4_net ip ones ∷ addrs) = ip ∷ host_ips addrs
host_ips (other_addr ∷ addrs) = host_ips addrs

abbrev pub has_broadcast : Ip4 → ℕ → Bool
has_broadcast ip ones = not (ip.a == 127) && ltb ones 31

unfoldable pub directed_of : List HostAddr → List Ip4 → List Ip4
directed_of [] seen = []
directed_of (v4_net ip ones ∷ addrs) seen =
    let b = directed ip ones in
    let rest = directed_of addrs seen in
    let rest_after = directed_of addrs (b ∷ seen) in
    if has_broadcast ip ones && not (contains_ip b seen) then b ∷ rest_after else rest
directed_of (other_addr ∷ addrs) seen = directed_of addrs seen
