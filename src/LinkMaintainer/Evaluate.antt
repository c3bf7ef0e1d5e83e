-- ===== src/LinkMaintainer/Evaluate.antt =====
-- overlaylink.go: `evaluate`, the dials and `tick`. What a method does on the host is the list of its
-- effects.
use vidya_god_ipfs.Prelude.{
  ℕ, ◌+◌, ◌*◌, Bool, true, false, not, ◌&&◌, ◌||◌, none, some, List, [], ◌∷◌, ◌++◌, ltb, leb, ◌==◌,
  is_empty, contains, if◌then◌else◌, Map, get, put, has, map, ℤ,
}
use vidya_god_ipfs.LinkMaintainer.Link.{
  PeerLink, Links, LinkState, down, connecting, relayed, direct, link_beat_every, link_beat_miss,
  link_dial_backoff, link_dial_max, link_upgrade_try, unknown_rtt, count_u64, new_link,
  longer_since, trusts,
}

-- What the maintainer does on the host. There is no way to close a connection.
pub data Effect : Type 0 where
  ensure_recv_loops protect unprotect : Effect
  beat : ℕ → Effect
  dial : Bool → Effect

-- `kickDial`: starts a dial unless one is in flight or the backoff has not passed
unfoldable pub kick_dial : ℕ → Bool → PeerLink → PeerLink × List Effect
kick_dial now forced l =
    if l.dialing || ltb now l.next_dial
    then (l, [])
    else (record l { dialing = true }, dial forced ∷ [])

-- the end of the dial that `kickDial` started
unfoldable pub dial_done : ℕ → Bool → PeerLink → PeerLink
dial_done now failed l =
    if failed
    then record l {
      dialing = false;
      next_dial = now + l.backoff;
      backoff = if ltb l.backoff link_dial_max then l.backoff * 2 else l.backoff;
    }
    else record l { dialing = false; next_dial = 0; backoff = link_dial_backoff }

-- a panic in the dial: only the deferred reset runs
unfoldable pub dial_panicked : PeerLink → PeerLink
dial_panicked l = record l { dialing = false }

unfoldable pub kick_upgrade : ℕ → PeerLink → PeerLink × List Effect
unfolding kick_dial
kick_upgrade now l =
    if longer_since now l.last_up link_upgrade_try
    then kick_dial now true (record l { last_up = now })
    else (l, [])

-- What `evaluate` reads of the host: whether the peer is connected (a limited connection counts),
-- and its direct QUIC connections.
pub record Host : Type 0 where
  pub connected : Bool
  pub conns : List ℕ

-- The first block of `evaluate`: trust dies with the connection that was proven.
unfoldable pub drop_dead_conn : List ℕ → PeerLink → PeerLink
drop_dead_conn conns l =
    if l.ever_ponged && not (l.proven_conn == 0) && not (contains l.proven_conn conns)
    then record l {
      ever_ponged = false;
      proven_conn = 0;
      missed = 0;
      rtt_ms = unknown_rtt;
      demoted = count_u64 l.demoted;
    }
    else l

-- The `switch` on what the link looks like before this beat.
abbrev pub seen_state : Host → PeerLink → LinkState
seen_state h l =
    if not (is_empty h.conns) && trusts l
    then direct
    else if h.connected
    then relayed
    else if l.dialing
    then connecting
    else down

-- A beat over direct connections: count a miss, demote after the last one.
unfoldable pub count_miss : ℕ → PeerLink → PeerLink
count_miss now l =
    if l.ever_ponged && longer_since now l.last_pong link_beat_every
    then record l { missed = l.missed + 1 }
    else l

abbrev pub demotes : PeerLink → Bool
demotes l = l.ever_ponged && leb link_beat_miss l.missed

unfoldable pub demote : PeerLink → PeerLink
demote l = record l {
  ever_ponged = false;
  missed = 0;
  rtt_ms = unknown_rtt;
  demoted = count_u64 l.demoted;
}

unfoldable pub direct_beat : ℕ → LinkState → PeerLink → PeerLink × List Effect × LinkState
direct_beat now next l =
    let c = count_miss now l in
    if demotes c
    then (let (k, e) = kick_upgrade now (demote c) in (k, e, relayed))
    else if not c.ever_ponged
    then (let (k, e) = kick_upgrade now c in (k, e, next))
    else (c, [], next)

abbrev pub beats : List ℕ → List Effect
beats conns = map beat conns

-- `evaluate`
unfoldable pub evaluate : ℕ → Host → PeerLink → PeerLink × List Effect
evaluate now h l0 =
    let l = drop_dead_conn h.conns l0 in
    let next = seen_state h l in
    let (l', acted, next') : PeerLink × List Effect × LinkState =
      if not (is_empty h.conns)
      then (let (k, e, n) = direct_beat now next l in (k, beats h.conns ++ e, n))
      else if h.connected
      then (let (k, e) = kick_upgrade now l in (k, e, next))
      else (let (k, e) = kick_dial now false l in (k, e, next)) in
    (
      record l' { state = next' },
      (if h.connected then ensure_recv_loops ∷ [] else [])
          ++ acted
          ++ (if h.connected || not (is_empty h.conns) then protect ∷ [] else []),
    )

-- The membership part of `tick`: friends that are new get a link, the others their nickname.
unfoldable pub sync_added : List (ℕ × ℕ) → Links → Links
sync_added [] m = m
sync_added ((pid, nick) ∷ want) m = sync_added want (elim (get pid m) [
  | none ↦ put pid (new_link nick) m
  | some l ↦ put pid (record l { nick = nick }) m
])

unfoldable pub sync_removed : Map ℕ → Links → Links × List (ℕ × Effect)
sync_removed want [] = ([], [])
sync_removed want ((pid, l) ∷ m) =
    let (rest, e) = sync_removed want m in
    if has pid want then ((pid, l) ∷ rest, e) else (rest, (pid, unprotect) ∷ e)

abbrev at_peer : ℕ → List Effect → List (ℕ × Effect)
at_peer pid [] = []
at_peer pid (e ∷ es) = (pid, e) ∷ at_peer pid es

unfoldable pub evaluate_all : ℕ → (ℕ → Host) → Links → Links × List (ℕ × Effect)
evaluate_all now hosts [] = ([], [])
evaluate_all now hosts ((pid, l) ∷ m) =
    let (l', e) = evaluate now (hosts pid) l in
    let (rest, es) = evaluate_all now hosts m in ((pid, l') ∷ rest, at_peer pid e ++ es)

-- `tick`: membership, then every link is judged
unfoldable pub tick : ℕ → (ℕ → Host) → Map ℕ → Links → Links × List (ℕ × Effect)
tick now hosts want m =
    let (kept, gone) = sync_removed want (sync_added want m) in
    let (judged, acted) = evaluate_all now hosts kept in (judged, gone ++ acted)

pub record LinkInfo : Type 0 where
  pub peer : ℕ
  pub shown_nick : ℕ
  pub online : Bool
  pub link : LinkState
  pub shown_rtt : ℤ

abbrev usable : LinkState → Bool
usable direct = true
usable relayed = true
usable _ = false

-- `snapshot` (the virtual IP, which the caller computes, is left out)
unfoldable pub snapshot : Links → List LinkInfo
snapshot [] = []
snapshot ((pid, l) ∷ m) =
    record {
      peer = pid;
      shown_nick = l.nick;
      online = usable l.state;
      link = l.state;
      shown_rtt = l.rtt_ms;
    }
    ∷ snapshot m
