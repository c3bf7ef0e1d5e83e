-- ===== src/Overlay/Inbound.antt =====
-- overlay.go: packets from peers, by stream and by datagram.
use vidya_god_ipfs.Prelude.{
  ℕ, Bool, true, false, not, ◌||◌, none, some, List, [], ◌∷◌, if◌then◌else◌,
}
use vidya_god_ipfs.LinkMaintainer.Link.{is_heartbeat, handle_heartbeat, note_rx}
use vidya_god_ipfs.Overlay.Frame.{ipv4_dst, read_frame}
use vidya_god_ipfs.Overlay.Service.{Overlay, Effect, datagram, written, authorized}

abbrev pub is_ipv4 : List ℕ → Bool
is_ipv4 pkt = elim (ipv4_dst pkt) [ none ↦ false | some dst ↦ true ]

-- The loop of `handleInbound`: the service as it is at each frame, whether the local link then takes
-- a packet, and the bytes of the stream. The loop has a round for each state that it is given; the
-- result is what is written to the link.
unfoldable pub inbound_loop : ℕ → List (Overlay × Bool) → List ℕ → List (List ℕ)
inbound_loop remote [] stream = []
inbound_loop remote ((o, takes) ∷ later) stream = elim (read_frame stream) [
  | none ↦ []
  | some (pkt, rest) ↦
      let more = inbound_loop remote later rest in
      if not (authorized o remote)
      then []
      else if not (is_ipv4 pkt) || not o.link
      then more
      else if takes
      then pkt ∷ more
      else []
]

-- `handleInbound`, with the service as it is when the stream opens
unfoldable pub handle_inbound : ℕ → Overlay → List (Overlay × Bool) → List ℕ → List (List ℕ)
handle_inbound remote o later stream =
    if authorized o remote then inbound_loop remote later stream else []

-- One datagram of `datagramRecvLoop`, on connection `conn` of `remote`.
unfoldable pub receive_datagram : ℕ → ℕ → ℕ → List ℕ → Overlay → Overlay × List Effect
receive_datagram now remote conn pkt o =
    if is_heartbeat pkt
    then elim o.linkm [
      | none ↦ (o, [])
      | some m ↦
          let (m', reply) = handle_heartbeat now remote conn pkt m in
          (
            record o { linkm = some m' },
            elim reply [ none ↦ [] | some b ↦ datagram remote conn b ∷ [] ],
          )
    ]
    else if not (is_ipv4 pkt)
    then (o, [])
    else (
      record o { linkm = elim o.linkm [ none ↦ none | some m ↦ some (note_rx remote m) ] },
      if o.link then written pkt ∷ [] else [],
    )
