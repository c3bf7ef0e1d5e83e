-- ===== src/Overlay/Routing.antt =====
-- Where a packet of the local link goes in overlay.go: who gets it, who does not.
use vidya_god_ipfs.Prelude.{
  ℕ, ◌≡◌, ◌≢◌, refl, Bool, true, false, not, ◌&&◌, ◌⊎◌, Option, none, some, List, [], ◌∷◌, arith,
  contains, inl, inr, Option-cases, Bool-cases, get, Map, sym, ap, ◌∙◌,
}
use vidya_god_ipfs.Overlay.Frame.{ipv4_dst, is_fanout}
use vidya_god_ipfs.Overlay.Service.{Overlay, Effect, datagram, injected, routes_contain}
use vidya_god_ipfs.Overlay.Send.{
  Wire, Sent, accepted, too_large, failed, pick_conn, after_send, send_datagram, forward,
  enqueue_stream, queue_of, push,
}
use vidya_god_ipfs.Overlay.Outbound.{
  fanout_targets, forward_all, reflect, unicast_target, unicast, route, handle_outbound,
}
use vidya_god_ipfs.Overlay.Queue.{queue_of-enqueue_stream}
use vidya_god_ipfs.Overlay.Gate.{
  Every, Every-append, Every-if, reflect-Every, handle_outbound-ipv4, handle_outbound-other,
}

-- A packet that leaves by datagram does not go to that peer.
abbrev pub Spares : ℕ → Effect → Type 0
Spares x (datagram pid c pkt) = pid ≢ x
Spares x _ = Unit

after_send-lem :
    (sent : Sent) (pid c : ℕ) (pkt : List ℕ) (o : Overlay)
    → let (carried, o', es) = after_send sent pid pkt c o in
      (o'.senders ≡ o.senders)
      × ((carried ≡ true) × (es ≡ datagram pid c pkt ∷ []) ⊎ (carried ≡ false) × (es ≡ []))
unfolding after_send
after_send-lem accepted pid c pkt o = (refl, inl (refl, refl))
after_send-lem too_large pid c pkt o = (refl, inr (refl, refl))
after_send-lem failed pid c pkt o = (refl, inr (refl, refl))

-- Sending one packet to one peer: on a datagram to that peer, or at the end of its queue.
pub record Sending (pid : ℕ) (pkt : List ℕ) (o o' : Overlay) (es : List Effect) : Type 0 where
  pub others : (j : ℕ) → j ≢ pid → queue_of j o' ≡ queue_of j o
  pub way :
      ((queue_of pid o' ≡ queue_of pid o) × ((c : ℕ) × (es ≡ datagram pid c pkt ∷ [])))
      ⊎ ((queue_of pid o' ≡ push pkt (queue_of pid o)) × (es ≡ []))

Sending-queue :
    (pid : ℕ) (pkt : List ℕ) (o o' : Overlay)
    → o'.senders ≡ o.senders
    → Sending pid pkt o (enqueue_stream pid pkt o') []
Sending-queue pid pkt o o' e = record {
  others = λ j n. ground (arith, e, queue_of-enqueue_stream pid j pkt o');
  way = inr (ground (arith, e, queue_of-enqueue_stream pid pid pkt o'), refl);
}

send_datagram-lem :
    (w : Wire) (fs : Bool) (pid : ℕ) (pkt : List ℕ) (o : Overlay)
    → let (carried, o', es) = send_datagram w fs pid pkt o in
      (o'.senders ≡ o.senders)
      × (((carried ≡ true) × ((c : ℕ) × (es ≡ datagram pid c pkt ∷ [])))
          ⊎ (carried ≡ false) × (es ≡ []))
unfolding send_datagram
send_datagram-lem w true pid pkt o = (refl, inr (refl, refl))
send_datagram-lem w false pid pkt o = elim (Option-cases (pick_conn w pid o.linkm)) [
  | inl e ↦ rw e (refl, inr (refl, refl))
  | inr (c, e) ↦ rw e (
      let (same, way) = after_send-lem (w.send c pkt) pid c pkt o in
      (same, elim way [ inl (t, es) ↦ inl (t, (c, es)) | inr (f, es) ↦ inr (f, es) ]))
]

same_queue : (j : ℕ) (o o' : Overlay) → o'.senders ≡ o.senders → queue_of j o' ≡ queue_of j o
same_queue j o o' e = ap (λ (s : Map (List (List ℕ))). elim (get j s) [ none ↦ [] | some q ↦ q ]) e

pub forward-Sending :
    (w : Wire) (fs : Bool) (pid : ℕ) (pkt : List ℕ) (o : Overlay)
    → let (o', es) = forward w fs pid pkt o in Sending pid pkt o o' es
unfolding forward
forward-Sending w fs pid pkt o =
    let (carried, o', es) = send_datagram w fs pid pkt o in
    let (same, way) = send_datagram-lem w fs pid pkt o in
    elim way [
      | inl (t, (c, is)) ↦ rw t (record {
        others = λ j n. same_queue j o o' same;
        way = inl (same_queue pid o o' same, (c, is));
      })
      | inr (f, is) ↦ rw (f, is) (Sending-queue pid pkt o o' same)
    ]

pub Sending-Spares :
    (pid x : ℕ) (pkt : List ℕ) (o o' : Overlay) (es : List Effect)
    → pid ≢ x
    → Sending pid pkt o o' es
    → Every (Spares x) es × (queue_of x o' ≡ queue_of x o)
Sending-Spares pid x pkt o o' es n s = elim s.way [
  | inl (q, (c, is)) ↦ (rw is (n, tt), s.others x (λ e. n (sym e)))
  | inr (q, is) ↦ (rw is tt, s.others x (λ e. n (sym e)))
]

forward_all-Spares :
    (w : Wire) (fs : Bool) (x : ℕ) (ts pkt : List ℕ) (o : Overlay)
    → contains x ts ≡ false
    → let (o', es) = forward_all w fs ts pkt o in
      Every (Spares x) es × (queue_of x o' ≡ queue_of x o)
unfolding forward_all
forward_all-Spares w fs x [] pkt o n = (tt, refl)
forward_all-Spares w fs x (t ∷ ts) pkt o n =
    let (o', es) = forward w fs t pkt o in
    let (one, same) =
      Sending-Spares t x pkt o o' es (ground arith) (forward-Sending w fs t pkt o) in
    let (all, same') = forward_all-Spares w fs x ts pkt o' (ground arith) in
    (Every-append (Spares x) es (forward_all w fs ts pkt o').1 one all, same' ∙ same)

-- The peers that the LAN's traffic may go to.
abbrev pub is_target : ℕ → Overlay → Bool
is_target x o = routes_contain o.routes x && not (contains x o.excluded)

pub contains-fanout_targets :
    (x : ℕ) (excluded : List ℕ) (m : Map ℕ)
    → contains x (fanout_targets excluded m) ≡ (routes_contain m x && not (contains x excluded))
unfolding fanout_targets routes_contain
contains-fanout_targets x excluded [] = refl
contains-fanout_targets x excluded ((vip, pid) ∷ m) =
    ground (arith, contains-fanout_targets x excluded m)

routes_contain-get : (vip pid : ℕ) (m : Map ℕ) → get vip m ≡ some pid → routes_contain m pid ≡ true
unfolding routes_contain
routes_contain-get vip pid [] e = cc
routes_contain-get vip pid ((v, p) ∷ m) e = ground (arith, e, routes_contain-get vip pid m)

unicast_target-is_target :
    (dst pid : ℕ) (o : Overlay) → unicast_target dst o ≡ some pid → is_target pid o ≡ true
unicast_target-is_target dst pid o e = ground (arith, e, routes_contain-get dst pid o.routes)

not_target_unicast :
    (dst x : ℕ) (o : Overlay) → is_target x o ≡ false → unicast_target dst o ≡ some x → ⊥
not_target_unicast dst x o n e = ground (arith, n, unicast_target-is_target dst x o e)

unicast-Spares :
    (w : Wire) (fs : Bool) (x : ℕ) (target : Option ℕ) (dst : ℕ) (pkt : List ℕ) (o : Overlay)
    → target ≢ some x
    → let (o', es) = unicast w fs target dst pkt o in
      Every (Spares x) es × (queue_of x o' ≡ queue_of x o)
unicast-Spares w fs x none dst pkt o n = (Every-if (Spares x) _ (injected pkt) tt, refl)
unicast-Spares w fs x (some pid) dst pkt o n =
    let (o', es) = forward w fs pid pkt o in
    Sending-Spares pid x pkt o o' es (λ e. n (ap some e)) (forward-Sending w fs pid pkt o)

route-Spares :
    (w : Wire) (fs : Bool) (x dst : ℕ) (pkt : List ℕ) (o : Overlay)
    → is_target x o ≡ false
    → let (o', es) = route w fs dst pkt o in Every (Spares x) es × (queue_of x o' ≡ queue_of x o)
unfolding route
route-Spares w fs x dst pkt o n =
    let ts = fanout_targets o.excluded o.routes in
    let not_unicast : unicast_target dst o ≢ some x = λ e. not_target_unicast dst x o n e in
    elim (Bool-cases (is_fanout o.bcast dst)) [
      | inl fanout ↦
          let (sp, same) =
            forward_all-Spares w fs x ts pkt o
              (ground (arith, contains-fanout_targets x o.excluded o.routes)) in
          rw fanout (
            Every-append (Spares x) (forward_all w fs ts pkt o).1 (reflect o.relay pkt) sp
                (reflect-Every (Spares x) o.relay pkt (λ u. tt)),
            same,
          )
      | inr one ↦ rw one (unicast-Spares w fs x (unicast_target dst o) dst pkt o not_unicast)
    ]

-- A peer that owns no route, or that the roster excludes, gets nothing of the game's: no datagram,
-- and its queue stays as it is, whatever the packet.
pub handle_outbound-Spares :
    (w : Wire) (fs : Bool) (x : ℕ) (pkt : List ℕ) (o : Overlay)
    → is_target x o ≡ false
    → let (o', es) = handle_outbound w fs pkt o in
      Every (Spares x) es × (queue_of x o' ≡ queue_of x o)
handle_outbound-Spares w fs x pkt o n = elim (Option-cases (ipv4_dst pkt)) [
  | inl not_ipv4 ↦ rw (handle_outbound-other w fs pkt o not_ipv4) (tt, refl)
  | inr (dst, is) ↦ rw (handle_outbound-ipv4 w fs pkt dst o is) (route-Spares w fs x dst pkt o n)
]
