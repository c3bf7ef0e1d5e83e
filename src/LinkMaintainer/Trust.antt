-- ===== src/LinkMaintainer/Trust.antt =====
-- The trust gate of overlaylink.go: which connections it trusts, and when.
use vidya_god_ipfs.Prelude.{
  ℕ, ◌≡◌, ◌≢◌, Bool, true, false, not, ◌&&◌, List, [], ◌∷◌, arith, contains, is_empty,
  if◌then◌else◌,
}
use vidya_god_ipfs.LinkMaintainer.Link.{PeerLink, LinkState, trusts, on_pong, suspect_link}
use vidya_god_ipfs.LinkMaintainer.Evaluate.{
  Host, evaluate, drop_dead_conn, direct_beat, kick_dial, kick_upgrade, dial_done, dial_panicked,
  count_miss, demote, demotes, seen_state,
}

-- What changes a link: beats, pongs, send errors, and the ends of its dials. The counters of the
-- datapath are left out: they stand in no other field.
pub data Event : Type 0 where
  beaten : ℕ → Host → Event
  ponged : ℕ → ℕ → ℕ → Event
  suspected : Event
  dialed : ℕ → Bool → Event
  panicked : Event

unfoldable pub after : Event → PeerLink → PeerLink
after (beaten now h) l = (evaluate now h l).0
after (ponged now conn sent) l = on_pong now conn sent l
after suspected l = suspect_link l
after (dialed now failed) l = dial_done now failed l
after panicked l = dial_panicked l

unfoldable pub run : List Event → PeerLink → PeerLink
run [] l = l
run (e ∷ es) l = run es (after e l)

abbrev pub is_pong : Event → Bool
is_pong (ponged now conn sent) = true
is_pong _ = false

abbrev pub no_pong : List Event → Bool
no_pong [] = true
no_pong (e ∷ es) = not (is_pong e) && no_pong es

-- The fields that trust rests on.
pub record SameTrust (a b : PeerLink) : Type 0 where
  pub pong : a.ever_ponged ≡ b.ever_ponged
  pub count : a.missed ≡ b.missed
  pub conn : a.proven_conn ≡ b.proven_conn
  pub time : a.last_pong ≡ b.last_pong

kick_dial-SameTrust :
    (now : ℕ) (forced : Bool) (l : PeerLink) → SameTrust (kick_dial now forced l).0 l
unfolding kick_dial
kick_dial-SameTrust now forced l = ground arith

kick_upgrade-SameTrust : (now : ℕ) (l : PeerLink) → SameTrust (kick_upgrade now l).0 l
unfolding kick_upgrade
kick_upgrade-SameTrust now l = ground arith

-- What a beat makes of the trust: the dead connection, then, over direct connections, the misses.
unfoldable pub judged : ℕ → Host → PeerLink → PeerLink
judged now h l =
    let d = drop_dead_conn h.conns l in
    let c = count_miss now d in if is_empty h.conns then d else if demotes c then demote c else c

direct_beat-SameTrust :
    (now : ℕ) (n : LinkState) (l : PeerLink)
    → let c = count_miss now l in
      SameTrust (direct_beat now n l).0 (if demotes c then demote c else c)
unfolding direct_beat
direct_beat-SameTrust now n l =
    let c = count_miss now l in
    ground (arith, kick_upgrade-SameTrust now (demote c), kick_upgrade-SameTrust now c)

-- The dials and the displayed state do not touch the trust.
pub evaluate-SameTrust :
    (now : ℕ) (h : Host) (l : PeerLink) → SameTrust (evaluate now h l).0 (judged now h l)
unfolding evaluate judged
evaluate-SameTrust now h l =
    let d = drop_dead_conn h.conns l in
    ground (
      arith,
      direct_beat-SameTrust now (seen_state h d) d,
      kick_upgrade-SameTrust now d,
      kick_dial-SameTrust now false d,
    )

pub judged-distrust :
    (now : ℕ) (h : Host) (l : PeerLink) → trusts l ≡ false → trusts (judged now h l) ≡ false
unfolding judged drop_dead_conn count_miss demote
judged-distrust now h l t = ground arith

after-distrust :
    (e : Event) (l : PeerLink) → is_pong e ≡ false → trusts l ≡ false → trusts (after e l) ≡ false
unfolding after dial_done dial_panicked
after-distrust (beaten now h) l n t =
    ground (arith, evaluate-SameTrust now h l, judged-distrust now h l t)
after-distrust (ponged now conn sent) l n t = cc
after-distrust suspected l n t = ground arith
after-distrust (dialed now failed) l n t = ground arith
after-distrust panicked l n t = ground arith

-- An untrusted link stays untrusted through any beats, dials and send errors: nothing but a pong
-- proves a path.
pub run-distrust :
    (es : List Event) (l : PeerLink)
    → no_pong es ≡ true
    → trusts l ≡ false
    → trusts (run es l) ≡ false
unfolding run
run-distrust [] l n t = t
run-distrust (e ∷ es) l n t =
    run-distrust es (after e l) (ground arith) (after-distrust e l (ground arith) t)

-- A send error takes the trust away at once, and only a pong brings it back.
pub suspected_until_pong :
    (es : List Event) (l : PeerLink) → no_pong es ≡ true → trusts (run es (suspect_link l)) ≡ false
suspected_until_pong es l n = run-distrust es (suspect_link l) n (ground arith)

-- A link whose pongs come on real connections: trust names the connection that was proven.
pub record IsNamed (l : PeerLink) : Type 0 where
  pub named : l.ever_ponged ≡ true → l.proven_conn ≢ 0

-- Every change keeps that, as long as the pongs come on real connections.
abbrev pub FromConn : Event → Type 0
FromConn (ponged now conn sent) = conn ≢ 0
FromConn _ = Unit

judged-IsNamed : (now : ℕ) (h : Host) (l : PeerLink) → IsNamed l → IsNamed (judged now h l)
unfolding judged drop_dead_conn count_miss demote
judged-IsNamed now h l v = record { named = ground (arith, v.named) }

pub after-IsNamed : (e : Event) (l : PeerLink) → FromConn e → IsNamed l → IsNamed (after e l)
unfolding after dial_done dial_panicked on_pong
after-IsNamed (beaten now h) l f v =
    let j = judged-IsNamed now h l v in
    record { named = ground (arith, evaluate-SameTrust now h l, j.named) }
after-IsNamed (ponged now conn sent) l f v = record { named = λ _. f }
after-IsNamed suspected l f v = record { named = ground (arith, v.named) }
after-IsNamed (dialed now failed) l f v = record { named = ground (arith, v.named) }
after-IsNamed panicked l f v = record { named = v.named }

-- After a beat, a trusted link's proven connection is one of the direct connections of that beat,
-- and no pong has been missing for three beats: trust dies with its connection.
pub evaluate-trusts_live :
    (now : ℕ) (h : Host) (l : PeerLink)
    → IsNamed l
    → trusts (evaluate now h l).0 ≡ true
    → (trusts l ≡ true)
      × ((evaluate now h l).0.proven_conn ≡ l.proven_conn)
      × (contains l.proven_conn h.conns ≡ true)
evaluate-trusts_live now h l v t = ground (arith, evaluate-SameTrust now h l, judged-live)
  where
    judged-live :
        trusts (judged now h l) ≡ true
        → (trusts l ≡ true)
          × ((judged now h l).proven_conn ≡ l.proven_conn)
          × (contains l.proven_conn h.conns ≡ true)
    judged-live t' = unfold judged drop_dead_conn count_miss demote in ground (arith, v.named)
