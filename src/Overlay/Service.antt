-- ===== src/Overlay/Service.antt =====
-- overlay.go: the state of the overlay service and what it is configured with.
use vidya_god_ipfs.Prelude.{
  ℕ, Bool, false, ◌||◌, Option, none, some, List, [], ◌∷◌, ◌==◌, Map, put, has,
}
use vidya_god_ipfs.LinkMaintainer.Link.{Links}
use vidya_god_ipfs.Packet4.{Udp4}
use vidya_god_ipfs.Overlay.Frame.{Subnet, broadcast_of}

-- `overlayService`, the part that the datapath reads and writes. `link`, `gateway` and `relay` say
-- whether there is one; `linkm` is the maintainer's links, none where there is no maintainer.
pub record Overlay : Type 0 where
  pub routes : Map ℕ
  pub bcast : Option ℕ
  pub subnet : Option Subnet
  pub excluded : List ℕ
  pub linkm : Option Links
  pub senders : Map (List (List ℕ))
  pub link : Bool
  pub gateway : Bool
  pub relay : Bool

-- What the service hands on: a datagram on a connection to a peer, a packet to the NAT gateway, a
-- datagram of the game to the reflector, a packet to the local link.
pub data Effect : Type 0 where
  datagram : ℕ → ℕ → List ℕ → Effect
  injected : List ℕ → Effect
  reflected : Udp4 → Effect
  written : List ℕ → Effect

-- The routes of `configure`, the peer ids decoded: none where one is not a peer id.
abbrev decode_routes : List (ℕ × Option ℕ) → Map ℕ → Option (Map ℕ)
decode_routes [] m = some m
decode_routes ((vip, none) ∷ rest) m = none
decode_routes ((vip, some pid) ∷ rest) m = decode_routes rest (put vip pid m)

-- `configure`, with the subnet as net.ParseCIDR reads it
unfoldable pub configure : Option Subnet → List (ℕ × Option ℕ) → Overlay → Option Overlay
configure subnet peers o = elim (decode_routes peers []) [
  | none ↦ none
  | some routes ↦ some (record o {
    routes = routes;
    bcast = elim subnet [ none ↦ none | some s ↦ some (broadcast_of s) ];
    subnet = subnet;
  })
]

-- `setExcluded`
unfoldable pub set_excluded : List ℕ → Overlay → Overlay
set_excluded pids o = record o { excluded = pids }

-- `routesContain`
unfoldable pub routes_contain : Map ℕ → ℕ → Bool
routes_contain [] pid = false
routes_contain ((vip, p) ∷ m) pid = p == pid || routes_contain m pid

-- The test of `handleInbound` and of `maybeStartDatagramLoop`: a session peer or a maintained friend.
unfoldable pub authorized : Overlay → ℕ → Bool
authorized o pid = routes_contain o.routes pid || elim o.linkm [ none ↦ false | some m ↦ has pid m ]
