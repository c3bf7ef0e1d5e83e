-- ===== src/LinkMaintainer/Repair.antt =====
-- The dials of overlaylink.go and their backoff.
use vidya_god_ipfs.Prelude.{
  ℕ, zero, suc, ◌+◌, ◌*◌, ◌^◌, ◌≡◌, refl, Bool, true, false, not, ◌&&◌, ◌||◌, List, [], ◌∷◌, ◌++◌,
  arith, leb, is_empty, if◌then◌else◌, min, Bool-cases, inl, inr, length, ◌∙◌,
}
use vidya_god_ipfs.LinkMaintainer.Link.{
  PeerLink, LinkState, trusts, longer_since, link_dial_backoff, link_upgrade_try, new_link,
}
use vidya_god_ipfs.LinkMaintainer.Evaluate.{
  Host, Effect, ensure_recv_loops, protect, unprotect, beat, dial, evaluate, drop_dead_conn,
  direct_beat, kick_dial, kick_upgrade, dial_done, count_miss, demote, demotes, seen_state, beats,
}
use vidya_god_ipfs.LinkMaintainer.Trust.{judged, evaluate-SameTrust}

abbrev pub dials : List Effect → ℕ
dials [] = 0
dials (dial forced ∷ es) = suc (dials es)
dials (_ ∷ es) = dials es

dials-append : (xs ys : List Effect) → dials (xs ++ ys) ≡ dials xs + dials ys
dials-append [] ys = omega arith
dials-append (ensure_recv_loops ∷ xs) ys = dials-append xs ys
dials-append (protect ∷ xs) ys = dials-append xs ys
dials-append (unprotect ∷ xs) ys = dials-append xs ys
dials-append (beat c ∷ xs) ys = dials-append xs ys
dials-append (dial f ∷ xs) ys = omega (arith, dials-append xs ys)

dials-beats : (conns : List ℕ) → dials (beats conns) ≡ 0
dials-beats [] = refl
dials-beats (c ∷ cs) = dials-beats cs

-- Whether the backoff lets a dial start.
abbrev pub may_dial : ℕ → PeerLink → Bool
may_dial now l = not l.dialing && leb l.next_dial now

abbrev pub count_if : Bool → ℕ
count_if b = if b then 1 else 0

kick_dial-dials :
    (now : ℕ) (forced : Bool) (l : PeerLink)
    → (dials (kick_dial now forced l).1 ≡ count_if (may_dial now l))
      × ((kick_dial now forced l).0.dialing ≡ (l.dialing || may_dial now l))
unfolding kick_dial
kick_dial-dials now forced l = ground arith

abbrev pub upgrade_due : ℕ → PeerLink → Bool
upgrade_due now l = longer_since now l.last_up link_upgrade_try

kick_upgrade-dials :
    (now : ℕ) (l : PeerLink)
    → (dials (kick_upgrade now l).1 ≡ count_if (upgrade_due now l && may_dial now l))
      × ((kick_upgrade now l).0.dialing ≡ (l.dialing || (upgrade_due now l && may_dial now l)))
unfolding kick_upgrade
kick_upgrade-dials now l = ground arith

-- What a kick reads of a link is not what a beat changes.
record SameDial (a b : PeerLink) : Type 0 where
  dialing : a.dialing ≡ b.dialing
  next : a.next_dial ≡ b.next_dial
  up : a.last_up ≡ b.last_up

drop-SameDial : (conns : List ℕ) (l : PeerLink) → SameDial (drop_dead_conn conns l) l
unfolding drop_dead_conn
drop-SameDial conns l = ground arith

direct_beat-dials :
    (now : ℕ) (n : LinkState) (l : PeerLink)
    → let r = direct_beat now n l in
      let c = count_miss now l in
      let dialed =
        not (c.ever_ponged && not (demotes c)) && (upgrade_due now l && may_dial now l) in
      (dials r.1 ≡ count_if dialed) × (r.0.dialing ≡ (l.dialing || dialed))
unfolding direct_beat count_miss demote
direct_beat-dials now n l = ground (
  arith,
  kick_upgrade-dials now (demote (count_miss now l)),
  kick_upgrade-dials now (count_miss now l),
)

-- When a beat has a dial to start: the link is not up, or it is up on no trusted direct connection
-- and the last upgrade is long enough ago.
abbrev pub wants_dial : ℕ → Host → PeerLink → Bool → Bool
wants_dial now h l trusted =
    if is_empty h.conns
    then (if h.connected then upgrade_due now l else true)
    else not trusted && upgrade_due now l

trusts-judged :
    (now : ℕ) (h : Host) (l : PeerLink)
    → is_empty h.conns ≡ false
    → let c = count_miss now (drop_dead_conn h.conns l) in
      trusts (judged now h l) ≡ (c.ever_ponged && not (demotes c))
unfolding judged demote
trusts-judged now h l e = ground arith

trusts-evaluate :
    (now : ℕ) (h : Host) (l : PeerLink)
    → is_empty h.conns ≡ false
    → let c = count_miss now (drop_dead_conn h.conns l) in
      trusts (evaluate now h l).0 ≡ (c.ever_ponged && not (demotes c))
trusts-evaluate now h l e = ground (arith, evaluate-SameTrust now h l, trusts-judged now h l e)

evaluate-direct_dials :
    (now : ℕ) (h : Host) (l : PeerLink)
    → is_empty h.conns ≡ false
    → let d = drop_dead_conn h.conns l in
      let r = direct_beat now (seen_state h d) d in
      (dials (evaluate now h l).1 ≡ dials r.1) × ((evaluate now h l).0.dialing ≡ r.0.dialing)
unfolding evaluate
evaluate-direct_dials now h l e =
    let d = drop_dead_conn h.conns l in
    let r = direct_beat now (seen_state h d) d in
    ground (
      arith,
      dials-append (beats h.conns) r.1,
      dials-append (beats h.conns ++ r.1) (protect ∷ []),
      dials-beats h.conns,
    )

evaluate-other_dials :
    (now : ℕ) (h : Host) (l : PeerLink)
    → is_empty h.conns ≡ true
    → let d = drop_dead_conn h.conns l in
      let r = if h.connected then kick_upgrade now d else kick_dial now false d in
      (dials (evaluate now h l).1 ≡ dials r.1) × ((evaluate now h l).0.dialing ≡ r.0.dialing)
unfolding evaluate
evaluate-other_dials now h l e =
    let d = drop_dead_conn h.conns l in
    ground (
      arith,
      dials-append (kick_upgrade now d).1 (protect ∷ []),
      dials-append (kick_dial now false d).1 [],
    )

-- Each beat starts a dial exactly when the link wants one, none is in flight and the backoff has
-- passed; it starts one at most, and the link knows of it. So every state but a trusted direct link
-- has a way on.
pub evaluate-dials :
    (now : ℕ) (h : Host) (l : PeerLink)
    → let r = evaluate now h l in
      let dialed = wants_dial now h l (trusts r.0) && may_dial now l in
      (dials r.1 ≡ count_if dialed) × (r.0.dialing ≡ (l.dialing || dialed))
evaluate-dials now h l =
    let d = drop_dead_conn h.conns l in
    elim (Bool-cases (is_empty h.conns)) [
      | inl none_direct ↦ ground (
        arith,
        evaluate-other_dials now h l none_direct,
        kick_upgrade-dials now d,
        kick_dial-dials now false d,
        drop-SameDial h.conns l,
      )
      | inr some_direct ↦ ground (
        arith,
        evaluate-direct_dials now h l some_direct,
        trusts-evaluate now h l some_direct,
        direct_beat-dials now (seen_state h d) d,
        drop-SameDial h.conns l,
      )
    ]

-- The backoff after a number of failed dials in a row.
unfoldable pub failures : List ℕ → PeerLink → PeerLink
failures [] l = l
failures (now ∷ nows) l = failures nows (dial_done now true l)

failed_once :
    (now j : ℕ) (l : PeerLink)
    → l.backoff ≡ link_dial_backoff * 2 ^ min j 8
    → (dial_done now true l).backoff ≡ link_dial_backoff * 2 ^ min (suc j) 8
unfolding dial_done
failed_once now zero l h = ground arith
failed_once now (suc zero) l h = ground arith
failed_once now (suc (suc zero)) l h = ground arith
failed_once now (suc (suc (suc zero))) l h = ground arith
failed_once now (suc (suc (suc (suc zero)))) l h = ground arith
failed_once now (suc (suc (suc (suc (suc zero))))) l h = ground arith
failed_once now (suc (suc (suc (suc (suc (suc zero)))))) l h = ground arith
failed_once now (suc (suc (suc (suc (suc (suc (suc zero))))))) l h = ground arith
failed_once now (suc (suc (suc (suc (suc (suc (suc (suc k)))))))) l h =
    let e : min (suc (suc (suc (suc (suc (suc (suc (suc k)))))))) 8 ≡ 8 = omega arith in
    let e' : min (suc (suc (suc (suc (suc (suc (suc (suc (suc k))))))))) 8 ≡ 8 = omega arith in
    let full : l.backoff ≡ 512_000_000_000 = h ∙ rw e in rw e' (ground (arith, full))

backoff-failures_from :
    (j : ℕ) (nows : List ℕ) (l : PeerLink)
    → l.backoff ≡ link_dial_backoff * 2 ^ min j 8
    → (failures nows l).backoff ≡ link_dial_backoff * 2 ^ min (j + length nows) 8
unfolding failures
backoff-failures_from j [] l h = let e : j + 0 ≡ j = omega arith in rw e h
backoff-failures_from j (now ∷ nows) l h =
    let e : j + suc (length nows) ≡ suc j + length nows = omega arith in
    rw e (backoff-failures_from (suc j) nows (dial_done now true l) (failed_once now j l h))

-- The backoff of a friend that cannot be reached doubles from two seconds with every failed dial,
-- and stops after eight of them, at 512 seconds: past the five minutes of `linkDialMax`.
pub backoff-failures :
    (nick : ℕ) (nows : List ℕ)
    → (failures nows (new_link nick)).backoff ≡ link_dial_backoff * 2 ^ min (length nows) 8
backoff-failures nick nows =
    let e : 0 + length nows ≡ length nows = omega arith in
    rw (← e) (backoff-failures_from 0 nows (new_link nick) refl)
