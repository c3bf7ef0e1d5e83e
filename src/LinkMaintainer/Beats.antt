-- ===== src/LinkMaintainer/Beats.antt =====
-- Missed beats, and the state that a link shows.
use vidya_god_ipfs.Prelude.{
  ℕ, ◌+◌, ◌≤◌, ◌≡◌, Bool, true, false, not, ◌&&◌, ◌||◌, ◌⊎◌, inl, inr, List, [], ◌∷◌, arith,
  is_empty, if◌then◌else◌,
}
use vidya_god_ipfs.LinkMaintainer.Link.{
  PeerLink, LinkState, direct, relayed, connecting, down, trusts, longer_since, link_beat_every,
  link_beat_miss,
}
use vidya_god_ipfs.LinkMaintainer.Evaluate.{
  Host, evaluate, drop_dead_conn, direct_beat, kick_dial, kick_upgrade, dial_done, dial_panicked,
  count_miss, demote,
}
use vidya_god_ipfs.LinkMaintainer.Trust.{
  Event, beaten, ponged, suspected, dialed, panicked, after, run, is_pong, no_pong, run-distrust,
  judged, evaluate-SameTrust, IsNamed, FromConn, after-IsNamed,
}

-- The beats that come more than a beat after the last pong.
abbrev pub due : ℕ → Event → ℕ
due pong (beaten now h) = if longer_since now pong link_beat_every then 1 else 0
due pong _ = 0

abbrev pub due_beats : ℕ → List Event → ℕ
due_beats pong [] = 0
due_beats pong (e ∷ es) = due pong e + due_beats pong es

judged-counts :
    (now : ℕ) (h : Host) (l : PeerLink)
    → IsNamed l
    → (trusts (judged now h l) ≡ false)
      ⊎ (((judged now h l).last_pong ≡ l.last_pong)
          × (l.missed + due l.last_pong (beaten now h) ≤ (judged now h l).missed))
unfolding judged drop_dead_conn count_miss demote
judged-counts now h l v = ground (arith, v.named)

after-counts :
    (e : Event) (l : PeerLink)
    → is_pong e ≡ false
    → IsNamed l
    → (trusts (after e l) ≡ false)
      ⊎ (((after e l).last_pong ≡ l.last_pong)
          × (l.missed + due l.last_pong e ≤ (after e l).missed))
unfolding after dial_done dial_panicked
after-counts (beaten now h) l n v =
    ground (arith, judged-counts now h l v, evaluate-SameTrust now h l)
after-counts (ponged now conn sent) l n v = cc
after-counts suspected l n v = ground arith
after-counts (dialed now failed) l n v = ground arith
after-counts panicked l n v = ground arith

FromConn-no_pong : (e : Event) → is_pong e ≡ false → FromConn e
FromConn-no_pong (ponged now conn sent) n = cc
FromConn-no_pong _ n = tt

-- Whatever else happens, three beats that come too late after the last pong end the trust: the
-- window in which a dead path is still used is bounded.
pub misses_demote :
    (es : List Event) (l : PeerLink)
    → IsNamed l
    → no_pong es ≡ true
    → link_beat_miss ≤ l.missed + due_beats l.last_pong es
    → trusts (run es l) ≡ false
unfolding run
misses_demote [] l v n h = ground arith
misses_demote (e ∷ es) l v n h = elim (after-counts e l (ground arith) v) [
  | inl gone ↦ run-distrust es (after e l) (ground arith) gone
  | inr (same, more) ↦
      misses_demote es (after e l) (after-IsNamed e l (FromConn-no_pong e (ground arith)) v)
        (ground arith) (rw same (omega arith))
]

-- What the beat itself says a friend's state is.
abbrev pub shown_as : Host → Bool → PeerLink → LinkState
shown_as h trusted l =
    if h.connected
    then (if not (is_empty h.conns) && trusted then direct else relayed)
    else if l.dialing
    then connecting
    else down

-- After a beat, a connected friend is shown as direct exactly when there is a direct connection and
-- datagrams are trusted, else as relayed; one that is not connected and has no direct connection as
-- connecting while a dial was in flight, else as down.
pub shown_state :
    (now : ℕ) (h : Host) (l : PeerLink)
    → (h.connected || is_empty h.conns) ≡ true
    → let l' = (evaluate now h l).0 in l'.state ≡ shown_as h (trusts l') l
unfolding evaluate direct_beat kick_upgrade kick_dial drop_dead_conn count_miss demote
shown_state now h l c = ground arith
