-- ===== src/Overlay/Gate.antt =====
-- The trust gate in overlay.go: what may ride a datagram.
use vidya_god_ipfs.Prelude.{
  ℕ, ◌≡◌, ◌≢◌, refl, Bool, true, false, Option, none, some, List, [], ◌∷◌, ◌++◌, arith, contains,
  Bool-cases, if◌then◌else◌, inl, inr, Option-cases,
}
use vidya_god_ipfs.LinkMaintainer.Link.{Links, trusted_conn_for, suspect, note_tx, count_u64}
use vidya_god_ipfs.LinkMaintainer.Heartbeat.{suspect_closes, get-at_link}
use vidya_god_ipfs.Packet4.{Udp4, parse_udp4}
use vidya_god_ipfs.Overlay.Frame.{ipv4_dst, is_fanout}
use vidya_god_ipfs.Overlay.Service.{Overlay, Effect, datagram, injected, reflected, written}
use vidya_god_ipfs.Overlay.Send.{
  Wire, Sent, accepted, too_large, failed, pick_conn, after_send, send_datagram, forward,
  enqueue_stream,
}
use vidya_god_ipfs.Overlay.Outbound.{
  fanout_targets, forward_all, reflect, unicast_target, unicast, route, handle_outbound,
}

-- A property of every effect of a list.
abbrev pub Every : (Effect → Type 0) → List Effect → Type 0
Every P [] = Unit
Every P (e ∷ es) = P e × Every P es

pub Every-append :
    (P : Effect → Type 0) (xs ys : List Effect) → Every P xs → Every P ys → Every P (xs ++ ys)
Every-append P [] ys a b = b
Every-append P (x ∷ xs) ys a b = (a.0, Every-append P xs ys a.1 b)

-- A datagram goes to a peer on one of its connections, the one that its pongs have proven.
abbrev pub Rides : Wire → Links → Effect → Type 0
Rides w m (datagram pid c pkt) =
    (trusted_conn_for pid m ≡ (c, true)) × (c ≢ 0) × (contains c (w.conns pid) ≡ true)
Rides w m _ = Unit

-- The connection that a link's trust names has not changed but to none.
abbrev LessTrust : Links → Links → Type 0
LessTrust m' m =
    (pid c : ℕ) → c ≢ 0 → trusted_conn_for pid m' ≡ (c, true) → trusted_conn_for pid m ≡ (c, true)

note_tx-LessTrust : (pid : ℕ) (m : Links) → LessTrust (note_tx pid m) m
unfolding note_tx trusted_conn_for
note_tx-LessTrust pid m j c n t =
    ground (arith, get-at_link pid j (λ l. record l { dg_tx = count_u64 l.dg_tx }) m)

suspect-LessTrust : (pid : ℕ) (m : Links) → LessTrust (suspect pid m) m
suspect-LessTrust pid m j c n t = ground (arith, suspect_closes pid j m)

-- What sending leaves: less trust, the same service otherwise, and datagrams on proven connections.
record Gated (w : Wire) (m : Links) (o : Overlay) (es : List Effect) : Type 0 where
  links : Links
  is : o.linkm ≡ some links
  less : LessTrust links m
  rides : Every (Rides w m) es

pick_conn-trusted :
    (w : Wire) (pid c : ℕ) (m : Links)
    → pick_conn w pid (some m) ≡ some c
    → (trusted_conn_for pid m ≡ (c, true)) × (c ≢ 0) × (contains c (w.conns pid) ≡ true)
unfolding pick_conn
pick_conn-trusted w pid c m e = ground arith

after_send-Gated :
    (w : Wire) (sent : Sent) (pid c : ℕ) (pkt : List ℕ) (o : Overlay) (m : Links)
    → o.linkm ≡ some m
    → Rides w m (datagram pid c pkt)
    → let (carried, o', es) = after_send sent pid pkt c o in Gated w m o' es
unfolding after_send
after_send-Gated w accepted pid c pkt o m e t = record {
  links = note_tx pid m;
  is = rw e refl;
  less = note_tx-LessTrust pid m;
  rides = (t, tt);
}
after_send-Gated w too_large pid c pkt o m e t = record {
  links = m;
  is = e;
  less = λ j k n u. u;
  rides = tt;
}
after_send-Gated w failed pid c pkt o m e t = record {
  links = suspect pid m;
  is = rw e refl;
  less = suspect-LessTrust pid m;
  rides = tt;
}

send_datagram-Gated :
    (w : Wire) (fs : Bool) (pid : ℕ) (pkt : List ℕ) (o : Overlay) (m : Links)
    → o.linkm ≡ some m
    → let (sent, o', es) = send_datagram w fs pid pkt o in Gated w m o' es
unfolding send_datagram
send_datagram-Gated w true pid pkt o m e = record {
  links = m;
  is = e;
  less = λ j k n u. u;
  rides = tt;
}
send_datagram-Gated w false pid pkt o m e = elim (Option-cases (pick_conn w pid (some m))) [
  | inl none_picked ↦
      rw (e, none_picked) (record { links = m; is = e; less = λ j k n u. u; rides = tt })
  | inr (c, picked) ↦
      rw (e, picked)
        (after_send-Gated w (w.send c pkt) pid c pkt o m e (pick_conn-trusted w pid c m picked))
]

queued-Gated :
    (w : Wire) (m : Links) (sent : Bool) (pid : ℕ) (pkt : List ℕ) (o : Overlay) (es : List Effect)
    → Gated w m o es
    → let (o', es') : Overlay × List Effect =
        if sent then (o, es) else (enqueue_stream pid pkt o, es) in
      Gated w m o' es'
unfolding enqueue_stream
queued-Gated w m true pid pkt o es g = g
queued-Gated w m false pid pkt o es g = record {
  links = g.links;
  is = g.is;
  less = g.less;
  rides = g.rides;
}

forward-Gated :
    (w : Wire) (fs : Bool) (pid : ℕ) (pkt : List ℕ) (o : Overlay) (m : Links)
    → o.linkm ≡ some m
    → let (o', es) = forward w fs pid pkt o in Gated w m o' es
unfolding forward
forward-Gated w fs pid pkt o m e =
    let (sent, o', es) = send_datagram w fs pid pkt o in
    queued-Gated w m sent pid pkt o' es (send_datagram-Gated w fs pid pkt o m e)

-- What rides on less trust rides.
Rides-weaken :
    (w : Wire) (m m' : Links) (es : List Effect)
    → LessTrust m' m
    → Every (Rides w m') es
    → Every (Rides w m) es
Rides-weaken w m m' [] l r = tt
Rides-weaken w m m' (datagram pid c p ∷ es) l r =
    let (t, n, k) = r.0 in ((l pid c n t, n, k), Rides-weaken w m m' es l r.1)
Rides-weaken w m m' (injected p ∷ es) l r = (tt, Rides-weaken w m m' es l r.1)
Rides-weaken w m m' (reflected u ∷ es) l r = (tt, Rides-weaken w m m' es l r.1)
Rides-weaken w m m' (written p ∷ es) l r = (tt, Rides-weaken w m m' es l r.1)

forward_all-Rides :
    (w : Wire) (fs : Bool) (ts : List ℕ) (pkt : List ℕ) (o : Overlay) (m : Links)
    → o.linkm ≡ some m
    → Every (Rides w m) (forward_all w fs ts pkt o).1
unfolding forward_all
forward_all-Rides w fs [] pkt o m e = tt
forward_all-Rides w fs (t ∷ ts) pkt o m e =
    let (o', es) = forward w fs t pkt o in
    let g : Gated w m o' es = forward-Gated w fs t pkt o m e in
    Every-append (Rides w m) es (forward_all w fs ts pkt o').1 g.rides (
      Rides-weaken w m g.links (forward_all w fs ts pkt o').1 g.less
        (forward_all-Rides w fs ts pkt o' g.links g.is))

pub Every-if :
    (P : Effect → Type 0) (b : Bool) (e : Effect) → P e → Every P (if b then e ∷ [] else [])
Every-if P true e p = (p, tt)
Every-if P false e p = tt

pub reflect-Every :
    (P : Effect → Type 0) (relay : Bool) (pkt : List ℕ)
    → ((u : Udp4) → P (reflected u))
    → Every P (reflect relay pkt)
reflect-Every P true pkt p = elim (Option-cases (parse_udp4 pkt)) [
  | inl e ↦ rw e tt
  | inr (u, e) ↦ rw e (p u, tt)
]
reflect-Every P false pkt p = tt

unicast-Rides :
    (w : Wire) (fs : Bool) (target : Option ℕ) (dst : ℕ) (pkt : List ℕ) (o : Overlay) (m : Links)
    → o.linkm ≡ some m
    → Every (Rides w m) (unicast w fs target dst pkt o).1
unicast-Rides w fs none dst pkt o m e = Every-if (Rides w m) _ (injected pkt) tt
unicast-Rides w fs (some pid) dst pkt o m e = let g = forward-Gated w fs pid pkt o m e in g.rides

route-Rides :
    (w : Wire) (fs : Bool) (dst : ℕ) (pkt : List ℕ) (o : Overlay) (m : Links)
    → o.linkm ≡ some m
    → Every (Rides w m) (route w fs dst pkt o).1
unfolding route
route-Rides w fs dst pkt o m e = elim (Bool-cases (is_fanout o.bcast dst)) [
  | inl fanout ↦ rw fanout (
      Every-append (Rides w m) (forward_all w fs (fanout_targets o.excluded o.routes) pkt o).1
        (reflect o.relay pkt)
        (forward_all-Rides w fs (fanout_targets o.excluded o.routes) pkt o m e)
        (reflect-Every (Rides w m) o.relay pkt (λ u. tt)))
  | inr one ↦ rw one (unicast-Rides w fs (unicast_target dst o) dst pkt o m e)
]

pub handle_outbound-ipv4 :
    (w : Wire) (fs : Bool) (pkt : List ℕ) (dst : ℕ) (o : Overlay)
    → ipv4_dst pkt ≡ some dst
    → handle_outbound w fs pkt o ≡ route w fs dst pkt o
unfolding handle_outbound
handle_outbound-ipv4 w fs pkt dst o e = rw (e, handle_outbound) refl

pub handle_outbound-other :
    (w : Wire) (fs : Bool) (pkt : List ℕ) (o : Overlay)
    → ipv4_dst pkt ≡ none
    → handle_outbound w fs pkt o ≡ (o, [])
unfolding handle_outbound
handle_outbound-other w fs pkt o e = rw (e, handle_outbound) refl

-- Under a live maintainer, every datagram that a packet of the local link causes rides the very
-- connection of its peer that the heartbeats have proven, also when a fan-out suspects links on its
-- way.
pub handle_outbound-Rides :
    (w : Wire) (fs : Bool) (pkt : List ℕ) (o : Overlay) (m : Links)
    → o.linkm ≡ some m
    → Every (Rides w m) (handle_outbound w fs pkt o).1
handle_outbound-Rides w fs pkt o m e = elim (Option-cases (ipv4_dst pkt)) [
  | inl not_ipv4 ↦ rw (handle_outbound-other w fs pkt o not_ipv4) tt
  | inr (dst, is) ↦ rw (handle_outbound-ipv4 w fs pkt dst o is) (route-Rides w fs dst pkt o m e)
]
