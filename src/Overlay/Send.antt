-- ===== src/Overlay/Send.antt =====
-- overlay.go: one packet to one peer, by datagram or by the queue of the stream.
use vidya_god_ipfs.Prelude.{
  ℕ, Bool, true, false, not, ◌&&◌, Option, none, some, List, [], ◌∷◌, ◌++◌, ltb, ◌==◌, contains,
  length, drop, if◌then◌else◌, get, put,
}
use vidya_god_ipfs.LinkMaintainer.Link.{Links, trusted_conn_for, suspect, note_tx}
use vidya_god_ipfs.Overlay.Service.{Overlay, Effect, datagram}

-- What quic-go answers to a datagram.
pub data Sent : Type 0 where
  accepted too_large failed : Sent

-- The host's connections to a peer, which of them are direct QUIC, and what sending on one gives.
pub record Wire : Type 0 where
  pub conns : ℕ → List ℕ
  pub is_quic : ℕ → Bool
  pub send : ℕ → List ℕ → Sent

-- The connection of that id among the peer's, if it is QUIC.
abbrev named_conn : Wire → ℕ → ℕ → Option ℕ
named_conn w pid id = if contains id (w.conns pid) && w.is_quic id then some id else none

-- `quicConnTo`: the first that is QUIC
abbrev pub first_quic : (ℕ → Bool) → List ℕ → Option ℕ
first_quic is_quic [] = none
first_quic is_quic (c ∷ cs) = if is_quic c then some c else first_quic is_quic cs

-- The connection that `sendDatagram` picks.
unfoldable pub pick_conn : Wire → ℕ → Option Links → Option ℕ
pick_conn w pid none = first_quic w.is_quic (w.conns pid)
pick_conn w pid (some m) =
    let (id, tracked) = trusted_conn_for pid m in
    if tracked && not (id == 0) then named_conn w pid id else none

abbrev with_links : (Links → Links) → Overlay → Overlay
with_links f o = record o { linkm = elim o.linkm [ none ↦ none | some m ↦ some (f m) ] }

-- The end of `sendDatagram`, after quic-go's answer on connection `c`.
unfoldable pub after_send : Sent → ℕ → List ℕ → ℕ → Overlay → Bool × Overlay × List Effect
after_send accepted pid pkt c o = (true, with_links (note_tx pid) o, datagram pid c pkt ∷ [])
after_send too_large pid pkt c o = (false, o, [])
after_send failed pid pkt c o = (false, with_links (suspect pid) o, [])

-- `sendDatagram`: whether a datagram carried the packet. `force_stream` is VG_OVERLAY_FORCE_STREAM.
unfoldable pub send_datagram : Wire → Bool → ℕ → List ℕ → Overlay → Bool × Overlay × List Effect
send_datagram w force_stream pid pkt o =
    if force_stream then (false, o, []) else elim (pick_conn w pid o.linkm) [
      | none ↦ (false, o, [])
      | some c ↦ after_send (w.send c pkt) pid pkt c o
    ]

abbrev pub queue_size : ℕ
queue_size = 64

-- The queue that `enqueueStream` makes where there is none.
abbrev pub queue_of : ℕ → Overlay → List (List ℕ)
queue_of pid o = elim (get pid o.senders) [ none ↦ [] | some q ↦ q ]

-- A full channel loses its oldest packet.
unfoldable pub push : List ℕ → List (List ℕ) → List (List ℕ)
push pkt q = if ltb (length q) queue_size then q ++ pkt ∷ [] else drop 1 q ++ pkt ∷ []

-- `enqueueStream`
unfoldable pub enqueue_stream : ℕ → List ℕ → Overlay → Overlay
enqueue_stream pid pkt o = record o { senders = put pid (push pkt (queue_of pid o)) o.senders }

-- The sender goroutine of a peer takes the next packet.
unfoldable pub pump : ℕ → Overlay → Option (List ℕ) × Overlay
pump pid o = elim (queue_of pid o) [
  | [] ↦ (none, o)
  | pkt ∷ q ↦ (some pkt, record o { senders = put pid q o.senders })
]

-- `forward`
unfoldable pub forward : Wire → Bool → ℕ → List ℕ → Overlay → Overlay × List Effect
forward w force_stream pid pkt o =
    let (sent, o', effects) = send_datagram w force_stream pid pkt o in
    if sent then (o', effects) else (enqueue_stream pid pkt o', effects)
