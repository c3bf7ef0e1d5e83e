-- ===== src/LinkMaintainer/Heartbeat.antt =====
-- Heartbeat packets, and the trust gate of the datapath over all links.
use vidya_god_ipfs.Prelude.{
  ℕ, ◌^◌, ◌<◌, ◌≡◌, refl, true, ◌&&◌, ◌||◌, none, some, [], ◌∷◌, arith, ◌==◌, has, if◌then◌else◌,
  Map, get, put, get-put, uint64, uint64-put, inl, inr, Option-cases, Bool-cases,
}
use vidya_god_ipfs.LinkMaintainer.Link.{
  PeerLink, Links, new_link, trusts, on_pong, suspect, suspect_link, at_link, datagrams_trusted,
  trusted_conn_for, handle_heartbeat, heartbeat_packet, is_heartbeat,
}
use vidya_god_ipfs.LinkMaintainer.Evaluate.{
  Host, evaluate, sync_added, sync_removed, evaluate_all, tick,
}
use vidya_god_ipfs.LinkMaintainer.Trust.{evaluate-SameTrust, judged-distrust}

pub get-at_link :
    (pid j : ℕ) (f : PeerLink → PeerLink) (m : Links)
    → get j (at_link pid f m)
      ≡ (if pid == j then elim (get j m) [ none ↦ none | some l ↦ some (f l) ] else get j m)
get-at_link pid j f m = elim (Option-cases (get pid m)) [
  | inl e ↦ ground (arith, e)
  | inr (l, e) ↦ ground (arith, e, get-put pid j (f l) m)
]

-- A ping is answered by a pong with the timestamp it carried, bit for bit, and changes nothing.
pub ping_echoed :
    (now pid conn ts : ℕ) (m : Links)
    → ts < 2 ^ 64
    → handle_heartbeat now pid conn (heartbeat_packet 0 ts) m ≡ (m, some (heartbeat_packet 1 ts))
unfolding handle_heartbeat is_heartbeat heartbeat_packet
ping_echoed now pid conn ts m h = rw (uint64-put ts h)

-- A pong makes the connection it came on the one that datagrams to that friend may ride, and no
-- other peer's gate moves; from a peer that is not tracked it does nothing.
pub pong_proves :
    (now pid conn ts j : ℕ) (m : Links)
    → trusted_conn_for j (handle_heartbeat now pid conn (heartbeat_packet 1 ts) m).0
      ≡ (if pid == j && has j m then (conn, true) else trusted_conn_for j m)
unfolding handle_heartbeat is_heartbeat heartbeat_packet trusted_conn_for on_pong
pong_proves now pid conn ts j m =
    ground (arith, get-at_link pid j (on_pong now conn (uint64 (heartbeat_packet 1 ts) 5)) m)

-- A send error closes the gate of that friend at once, and of no other.
pub suspect_closes :
    (pid j : ℕ) (m : Links)
    → trusted_conn_for j (suspect pid m) ≡ (if pid == j then (0, has j m) else trusted_conn_for j m)
unfolding suspect trusted_conn_for
suspect_closes pid j m = ground (arith, get-at_link pid j suspect_link m)

has-sync_added :
    (pid : ℕ) (want : Map ℕ) (m : Links) → has pid (sync_added want m) ≡ (has pid want || has pid m)
unfolding sync_added
has-sync_added pid [] m = refl
has-sync_added pid ((p, nick) ∷ want) m = elim (Option-cases (get p m)) [
  | inl e ↦ rw e (
      ground
        (arith, has-sync_added pid want (put p (new_link nick) m), get-put p pid (new_link nick) m))
  | inr (l, e) ↦ rw e (
      ground (
        arith,
        has-sync_added pid want (put p (record l { nick = nick }) m),
        get-put p pid (record l { nick = nick }) m,
        e,
      ))
]

-- Trust is not made by the membership sync: a link that it adds or renames is no more trusted.
trusted-sync_added :
    (pid : ℕ) (want : Map ℕ) (m : Links)
    → datagrams_trusted pid (sync_added want m) ≡ datagrams_trusted pid m
unfolding sync_added datagrams_trusted
trusted-sync_added pid [] m = refl
trusted-sync_added pid ((p, nick) ∷ want) m = elim (Option-cases (get p m)) [
  | inl e ↦ rw e (
      ground (
        arith,
        e,
        trusted-sync_added pid want (put p (new_link nick) m),
        get-put p pid (new_link nick) m,
      ))
  | inr (l, e) ↦ rw e (
      ground (
        arith,
        e,
        trusted-sync_added pid want (put p (record l { nick = nick }) m),
        get-put p pid (record l { nick = nick }) m,
      ))
]

get-sync_removed :
    (pid : ℕ) (want : Map ℕ) (m : Links)
    → get pid (sync_removed want m).0 ≡ (if has pid want then get pid m else none)
unfolding sync_removed
get-sync_removed pid want [] = ground arith
get-sync_removed pid want ((p, l) ∷ m) = ground (arith, get-sync_removed pid want m)

get-evaluate_all :
    (now pid : ℕ) (hosts : ℕ → Host) (m : Links)
    → get pid (evaluate_all now hosts m).0
      ≡ elim (get pid m) [ none ↦ none | some l ↦ some (evaluate now (hosts pid) l).0 ]
unfolding evaluate_all
get-evaluate_all now pid hosts [] = refl
get-evaluate_all now pid hosts ((p, l) ∷ m) = ground (arith, get-evaluate_all now pid hosts m)

evaluate-gives_no_trust :
    (now : ℕ) (h : Host) (l : PeerLink) → trusts (evaluate now h l).0 ≡ true → trusts l ≡ true
evaluate-gives_no_trust now h l t = elim (Bool-cases (trusts l)) [
  | inl was ↦ was
  | inr was_not ↦ ground (arith, evaluate-SameTrust now h l, judged-distrust now h l was_not)
]

-- After a tick the links are those of the current friends, and no others.
pub tick-membership :
    (now pid : ℕ) (hosts : ℕ → Host) (want : Map ℕ) (m : Links)
    → has pid (tick now hosts want m).0 ≡ has pid want
unfolding tick
tick-membership now pid hosts want m =
    let s = sync_added want m in
    let k = (sync_removed want s).0 in
    elim (Option-cases (get pid s)) [
      | inl e ↦ ground (
        arith,
        e,
        get-evaluate_all now pid hosts k,
        get-sync_removed pid want s,
        has-sync_added pid want m,
      )
      | inr (l, e) ↦ ground (
        arith,
        e,
        get-evaluate_all now pid hosts k,
        get-sync_removed pid want s,
        has-sync_added pid want m,
      )
    ]

-- A friend whose datagrams are trusted after a tick is a current friend, and its datagrams were
-- trusted before: a new friend starts untrusted, and a removed one has no trust left.
pub tick-gives_no_trust :
    (now pid : ℕ) (hosts : ℕ → Host) (want : Map ℕ) (m : Links)
    → datagrams_trusted pid (tick now hosts want m).0 ≡ true
    → (has pid want ≡ true) × (datagrams_trusted pid m ≡ true)
unfolding tick datagrams_trusted
tick-gives_no_trust now pid hosts want m t =
    let s = sync_added want m in
    let k = (sync_removed want s).0 in
    elim (Option-cases (get pid s)) [
      | inl e ↦ ground (arith, e, t, get-evaluate_all now pid hosts k, get-sync_removed pid want s)
      | inr (l, e) ↦ ground (
        arith,
        e,
        t,
        get-evaluate_all now pid hosts k,
        get-sync_removed pid want s,
        evaluate-gives_no_trust now (hosts pid) l,
        trusted-sync_added pid want m,
      )
    ]
