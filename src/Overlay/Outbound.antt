-- ===== src/Overlay/Outbound.antt =====
-- overlay.go: `handleOutbound`, one packet of the local link.
use vidya_god_ipfs.Prelude.{
  ℕ, Bool, false, not, ◌&&◌, Option, none, some, List, [], ◌∷◌, ◌++◌, contains, if◌then◌else◌, Map,
  get,
}
use vidya_god_ipfs.Packet4.{parse_udp4}
use vidya_god_ipfs.Overlay.Frame.{ipv4_dst, is_fanout, subnet_contains}
use vidya_god_ipfs.Overlay.Service.{Overlay, Effect, injected, reflected}
use vidya_god_ipfs.Overlay.Send.{Wire, forward}

-- The routed peers that are not excluded.
unfoldable pub fanout_targets : List ℕ → Map ℕ → List ℕ
fanout_targets excluded [] = []
fanout_targets excluded ((vip, pid) ∷ m) =
    let rest = fanout_targets excluded m in if contains pid excluded then rest else pid ∷ rest

unfoldable pub forward_all : Wire → Bool → List ℕ → List ℕ → Overlay → Overlay × List Effect
forward_all w force_stream [] pkt o = (o, [])
forward_all w force_stream (t ∷ ts) pkt o =
    let (o', e) = forward w force_stream t pkt o in
    let (o'', es) = forward_all w force_stream ts pkt o' in (o'', e ++ es)

-- To the real LAN as well, where the reflector is up.
abbrev pub reflect : Bool → List ℕ → List Effect
reflect relay pkt =
    if relay then elim (parse_udp4 pkt) [ none ↦ [] | some u ↦ reflected u ∷ [] ] else []

-- The owner of an address, unless it is excluded.
abbrev pub unicast_target : ℕ → Overlay → Option ℕ
unicast_target dst o = elim (get dst o.routes) [
  | none ↦ none
  | some pid ↦ if contains pid o.excluded then none else some pid
]

-- The host plane: an address outside the subnet goes to the NAT.
abbrev pub to_gateway : ℕ → List ℕ → Overlay → List Effect
to_gateway dst pkt o =
    if o.gateway && not (elim o.subnet [ none ↦ false | some s ↦ subnet_contains s dst ])
    then injected pkt ∷ []
    else []

abbrev pub unicast : Wire → Bool → Option ℕ → ℕ → List ℕ → Overlay → Overlay × List Effect
unicast w force_stream none dst pkt o = (o, to_gateway dst pkt o)
unicast w force_stream (some pid) dst pkt o = forward w force_stream pid pkt o

-- fan-out, LAN unicast, or the host plane
unfoldable pub route : Wire → Bool → ℕ → List ℕ → Overlay → Overlay × List Effect
route w force_stream dst pkt o =
    if is_fanout o.bcast dst
    then (let (o', e) = forward_all w force_stream (fanout_targets o.excluded o.routes) pkt o in
        (o', e ++ reflect o.relay pkt))
    else unicast w force_stream (unicast_target dst o) dst pkt o

-- `handleOutbound`
unfoldable pub handle_outbound : Wire → Bool → List ℕ → Overlay → Overlay × List Effect
handle_outbound w force_stream pkt o = elim (ipv4_dst pkt) [
  | none ↦ (o, [])
  | some dst ↦ route w force_stream dst pkt o
]
