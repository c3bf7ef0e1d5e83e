-- ===== src/Overlay/Reach.antt =====
-- Fan-out and the host plane of overlay.go: who must get a packet, and what may reach the NAT.
use vidya_god_ipfs.Prelude.{
  ℕ, ◌≡◌, refl, Bool, true, false, ◌||◌, ◌⊎◌, Option, none, some, List, [], ◌∷◌, ◌++◌, arith, ◌==◌,
  contains, inl, inr, Bool-cases, ltb, length, drop,
}
use vidya_god_ipfs.Overlay.Frame.{Subnet, ipv4_dst, is_fanout, subnet_contains}
use vidya_god_ipfs.Overlay.Service.{Overlay, Effect, datagram, injected, reflected, written}
use vidya_god_ipfs.Overlay.Send.{Wire, forward, queue_of, push, queue_size}
use vidya_god_ipfs.Overlay.Outbound.{
  fanout_targets, forward_all, reflect, unicast_target, unicast, route, handle_outbound,
}
use vidya_god_ipfs.Overlay.Gate.{Every, Every-append, reflect-Every, handle_outbound-ipv4}
use vidya_god_ipfs.Overlay.Routing.{Sending, forward-Sending, is_target, contains-fanout_targets}

-- The last packet of a queue.
abbrev last_of : List (List ℕ) → Option (List ℕ)
last_of [] = none
last_of (p ∷ []) = some p
last_of (p ∷ q ∷ qs) = last_of (q ∷ qs)

last_of-append : (q : List (List ℕ)) (p : List ℕ) → last_of (q ++ p ∷ []) ≡ some p
last_of-append [] p = refl
last_of-append (x ∷ []) p = refl
last_of-append (x ∷ y ∷ q) p = last_of-append (y ∷ q) p

last_of-push : (p : List ℕ) (q : List (List ℕ)) → last_of (push p q) ≡ some p
unfolding push
last_of-push p q = elim (Bool-cases (ltb (length q) queue_size)) [
  | inl e ↦ rw e (last_of-append q p)
  | inr e ↦ rw e (last_of-append (drop 1 q) p)
]

-- A datagram to that peer with that packet is among the effects.
abbrev Carried : ℕ → List ℕ → List Effect → Type 0
Carried x pkt [] = ⊥
Carried x pkt (datagram pid c p ∷ es) = ((pid ≡ x) × (p ≡ pkt)) ⊎ Carried x pkt es
Carried x pkt (_ ∷ es) = Carried x pkt es

Carried-left :
    (x : ℕ) (pkt : List ℕ) (es fs : List Effect) → Carried x pkt es → Carried x pkt (es ++ fs)
Carried-left x pkt [] fs h = elim h [ ]
Carried-left x pkt (datagram pid c p ∷ es) fs (inl h) = inl h
Carried-left x pkt (datagram pid c p ∷ es) fs (inr h) = inr (Carried-left x pkt es fs h)
Carried-left x pkt (injected p ∷ es) fs h = Carried-left x pkt es fs h
Carried-left x pkt (reflected u ∷ es) fs h = Carried-left x pkt es fs h
Carried-left x pkt (written p ∷ es) fs h = Carried-left x pkt es fs h

Carried-right :
    (x : ℕ) (pkt : List ℕ) (es fs : List Effect) → Carried x pkt fs → Carried x pkt (es ++ fs)
Carried-right x pkt [] fs h = h
Carried-right x pkt (datagram pid c p ∷ es) fs h = inr (Carried-right x pkt es fs h)
Carried-right x pkt (injected p ∷ es) fs h = Carried-right x pkt es fs h
Carried-right x pkt (reflected u ∷ es) fs h = Carried-right x pkt es fs h
Carried-right x pkt (written p ∷ es) fs h = Carried-right x pkt es fs h

-- The packet went to that peer by datagram, or waits as the newest one of its stream.
abbrev pub Reached : ℕ → List ℕ → Overlay → List Effect → Type 0
Reached x pkt o es = Carried x pkt es ⊎ (last_of (queue_of x o) ≡ some pkt)

Sending-reaches :
    (pid : ℕ) (pkt : List ℕ) (o o' : Overlay) (es : List Effect)
    → Sending pid pkt o o' es
    → Reached pid pkt o' es
Sending-reaches pid pkt o o' es s = elim s.way [
  | inl (q, (c, is)) ↦ inl (rw is (inl (refl, refl)))
  | inr (q, is) ↦ inr (rw q (last_of-push pkt (queue_of pid o)))
]

-- Sending the same packet to any peer leaves it the newest where it waits.
Sending-keeps :
    (pid x : ℕ) (pkt : List ℕ) (o o' : Overlay) (es : List Effect)
    → Sending pid pkt o o' es
    → last_of (queue_of x o) ≡ some pkt
    → last_of (queue_of x o') ≡ some pkt
Sending-keeps pid x pkt o o' es s h = elim (Bool-cases (x == pid)) [
  | inl same ↦
      let e : x ≡ pid = ground arith in
      elim s.way [ inl (q, r) ↦ cc | inr (q, r) ↦ let l = last_of-push pkt (queue_of pid o) in cc ]
  | inr other ↦ let q = s.others x (ground arith) in cc
]

forward_all-keeps :
    (w : Wire) (fs : Bool) (x : ℕ) (ts pkt : List ℕ) (o : Overlay)
    → last_of (queue_of x o) ≡ some pkt
    → last_of (queue_of x (forward_all w fs ts pkt o).0) ≡ some pkt
unfolding forward_all
forward_all-keeps w fs x [] pkt o h = h
forward_all-keeps w fs x (t ∷ ts) pkt o h =
    let (o', es) = forward w fs t pkt o in
    forward_all-keeps w fs x ts pkt o'
      (Sending-keeps t x pkt o o' es (forward-Sending w fs t pkt o) h)

forward_all-reaches :
    (w : Wire) (fs : Bool) (x : ℕ) (ts pkt : List ℕ) (o : Overlay)
    → contains x ts ≡ true
    → let (o', es) = forward_all w fs ts pkt o in Reached x pkt o' es
unfolding forward_all
forward_all-reaches w fs x [] pkt o n = cc
forward_all-reaches w fs x (t ∷ ts) pkt o n = elim (Bool-cases (x == t)) [
  | inl here ↦
      let e : x ≡ t = ground arith in
      let (o', es) = forward w fs t pkt o in
      let (o'', rest) = forward_all w fs ts pkt o' in
      elim (Sending-reaches t pkt o o' es (forward-Sending w fs t pkt o)) [
        | inl carried ↦ inl (rw e (Carried-left t pkt es rest carried))
        | inr queued ↦ inr (rw e (forward_all-keeps w fs t ts pkt o' queued))
      ]
  | inr later ↦
      let (o', es) = forward w fs t pkt o in
      let (o'', rest) = forward_all w fs ts pkt o' in
      elim (forward_all-reaches w fs x ts pkt o' (ground arith)) [
        | inl carried ↦ inl (Carried-right x pkt es rest carried)
        | inr queued ↦ inr queued
      ]
]

route-fanout :
    (w : Wire) (fs : Bool) (dst : ℕ) (pkt : List ℕ) (o : Overlay)
    → is_fanout o.bcast dst ≡ true
    → let (o', es) = forward_all w fs (fanout_targets o.excluded o.routes) pkt o in
      route w fs dst pkt o ≡ (o', es ++ reflect o.relay pkt)
unfolding route
route-fanout w fs dst pkt o f = rw f refl

-- A broadcast or multicast packet of the game reaches every peer of the LAN that the roster does not
-- exclude: by datagram, or as the newest packet on the way to its stream.
pub handle_outbound-fans_out :
    (w : Wire) (fs : Bool) (x dst : ℕ) (pkt : List ℕ) (o : Overlay)
    → ipv4_dst pkt ≡ some dst
    → is_fanout o.bcast dst ≡ true
    → is_target x o ≡ true
    → let (o', es) = handle_outbound w fs pkt o in Reached x pkt o' es
handle_outbound-fans_out w fs x dst pkt o is f t =
    let ts = fanout_targets o.excluded o.routes in
    let in_ts : contains x ts ≡ true =
      ground (arith, t, contains-fanout_targets x o.excluded o.routes) in
    let all = forward_all-reaches w fs x ts pkt o in_ts in
    rw (handle_outbound-ipv4 w fs pkt dst o is, route-fanout w fs dst pkt o f)
      (elim all [
        | inl carried ↦
            inl (Carried-left x pkt (forward_all w fs ts pkt o).1 (reflect o.relay pkt) carried)
        | inr queued ↦ inr queued
      ])

route-unicast :
    (w : Wire) (fs : Bool) (dst : ℕ) (pkt : List ℕ) (o : Overlay)
    → is_fanout o.bcast dst ≡ false
    → route w fs dst pkt o ≡ unicast w fs (unicast_target dst o) dst pkt o
unfolding route
route-unicast w fs dst pkt o f = rw f refl

-- A packet to the one peer that owns its address, with nobody else reached, is sent to that peer.
pub handle_outbound-unicast :
    (w : Wire) (fs : Bool) (x dst : ℕ) (pkt : List ℕ) (o : Overlay)
    → ipv4_dst pkt ≡ some dst
    → is_fanout o.bcast dst ≡ false
    → unicast_target dst o ≡ some x
    → let (o', es) = handle_outbound w fs pkt o in Sending x pkt o o' es
handle_outbound-unicast w fs x dst pkt o is f t =
    rw (handle_outbound-ipv4 w fs pkt dst o is, route-unicast w fs dst pkt o f, t)
      (forward-Sending w fs x pkt o)

-- Nothing is handed to the NAT.
abbrev pub Inside : Effect → Type 0
Inside (injected pkt) = ⊥
Inside _ = Unit

Sending-Inside :
    (pid : ℕ) (pkt : List ℕ) (o o' : Overlay) (es : List Effect)
    → Sending pid pkt o o' es
    → Every Inside es
Sending-Inside pid pkt o o' es s = elim s.way [
  | inl (q, (c, is)) ↦ rw is (tt, tt)
  | inr (q, is) ↦ rw is tt
]

forward_all-Inside :
    (w : Wire) (fs : Bool) (ts pkt : List ℕ) (o : Overlay)
    → Every Inside (forward_all w fs ts pkt o).1
unfolding forward_all
forward_all-Inside w fs [] pkt o = tt
forward_all-Inside w fs (t ∷ ts) pkt o =
    let (o', es) = forward w fs t pkt o in
    Every-append Inside es (forward_all w fs ts pkt o').1
      (Sending-Inside t pkt o o' es (forward-Sending w fs t pkt o))
      (forward_all-Inside w fs ts pkt o')

unicast-Inside :
    (w : Wire) (fs : Bool) (target : Option ℕ) (dst : ℕ) (pkt : List ℕ) (o : Overlay) (s : Subnet)
    → o.subnet ≡ some s
    → subnet_contains s dst ≡ true
    → Every Inside (unicast w fs target dst pkt o).1
unicast-Inside w fs none dst pkt o s e c =
    rw (e, c) (elim (Bool-cases o.gateway) [ inl g ↦ rw g tt | inr g ↦ rw g tt ])
unicast-Inside w fs (some pid) dst pkt o s e c =
    let (o', es) = forward w fs pid pkt o in
    Sending-Inside pid pkt o o' es (forward-Sending w fs pid pkt o)

-- A packet to an address of the LAN's own subnet never reaches the NAT, whether or not a friend owns
-- the address; nor does a broadcast.
pub handle_outbound-keeps_Inside :
    (w : Wire) (fs : Bool) (dst : ℕ) (pkt : List ℕ) (o : Overlay) (s : Subnet)
    → ipv4_dst pkt ≡ some dst
    → o.subnet ≡ some s
    → (subnet_contains s dst || is_fanout o.bcast dst) ≡ true
    → Every Inside (handle_outbound w fs pkt o).1
handle_outbound-keeps_Inside w fs dst pkt o s is e c = elim (Bool-cases (is_fanout o.bcast dst)) [
  | inl f ↦
      let ts = fanout_targets o.excluded o.routes in
      rw (handle_outbound-ipv4 w fs pkt dst o is, route-fanout w fs dst pkt o f)
        (Every-append Inside (forward_all w fs ts pkt o).1 (reflect o.relay pkt)
          (forward_all-Inside w fs ts pkt o) (reflect-Every Inside o.relay pkt (λ u. tt)))
  | inr f ↦
      rw (handle_outbound-ipv4 w fs pkt dst o is, route-unicast w fs dst pkt o f)
        (unicast-Inside w fs (unicast_target dst o) dst pkt o s e (ground arith))
]
