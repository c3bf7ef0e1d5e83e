-- ===== src/Providing/Listed.antt =====
-- What the application lists, and the leftovers of an earlier run.
use vidya_god_ipfs.Prelude.{
  ℕ, ◌≡◌, refl, ap, ◌∙◌, Bool, true, false, not, ◌&&◌, ◌||◌, none, List, [], ◌∷◌, ◌++◌, arith, ltb,
  ◌-◌, ◌==◌, contains, is_empty, has, put, Option-cases, both_branches, inl, inr,
}
use vidya_god_ipfs.Providing.Keys.{only, contains-append, contains-minus, delete_all}
use vidya_god_ipfs.Providing.State.{
  Providing, World, Ask, start_providing, stop_providing, set_refile, set_announced, provider_ready,
  provider_ready_now, provider_ready_ttl, note_readiness,
}
use vidya_god_ipfs.Providing.Flush.{
  pending_keys, tracked, track, track_one, end_flush, hand_over, flush_provides, ask_start,
  offer_provides, start, Cid, hashes, strings, with_force,
}
use vidya_god_ipfs.Providing.Leftovers.{
  stale_of, begin_drop, end_drop, may_drop, drop_leftovers, seed_announce, unlisted,
}

-- Whether the provider is told to stop a key.
abbrev pub stops : ℕ → List Ask → Bool
stops k [] = false
stops k (start_providing force keys ∷ asks) = stops k asks
stops k (stop_providing keys ∷ asks) = contains k keys || stops k asks

stops-append :
    (k : ℕ) (before later : List Ask)
    → stops k (before ++ later) ≡ (stops k before || stops k later)
stops-append k [] later = refl
stops-append k (start_providing force keys ∷ before) later = stops-append k before later
stops-append k (stop_providing keys ∷ before) later = ground (arith, stops-append k before later)

stops-ask_start : (k : ℕ) (force : Bool) (keys : List ℕ) → stops k (ask_start force keys) ≡ false
stops-ask_start k force [] = refl
stops-ask_start k force (j ∷ keys) = refl

handed-track : (at : ℕ) (ks : List ℕ) (st : Providing) → (track at ks st).handed ≡ st.handed
unfolding track
handed-track at [] st = refl
handed-track at (k ∷ ks) st =
    handed-track at ks (track_one at k st)
    ∙ both_branches (λ (s : Providing). s.handed ≡ st.handed) (has k st.pending)
        (record st { unconfirmed = put k at st.unconfirmed }) st refl refl

-- An operation that stops nothing and hands over no more keys of the application.
abbrev Quiet : ℕ → List ℕ → Providing × List Ask → Type 0
Quiet k handed r = (r.0.handed ≡ handed) × (stops k r.1 ≡ false)

stops-both :
    (k : ℕ) (fresh forced : List ℕ)
    → stops k (ask_start false fresh ++ ask_start true forced) ≡ false
stops-both k fresh forced =
    stops-append k (ask_start false fresh) (ask_start true forced)
    ∙ rw (stops-ask_start k false fresh) (stops-ask_start k true forced)

hand_over-Quiet :
    (w : World) (k : ℕ) (fresh forced : List ℕ) (st : Providing)
    → Quiet k st.handed (hand_over w fresh forced st)
unfolding hand_over set_refile end_flush
hand_over-Quiet w k fresh forced st =
    let keys : List ℕ = tracked fresh forced st in
    let st1 : Providing = set_refile w keys true st in
    let asks : List Ask = ask_start false fresh ++ ask_start true forced in
    both_branches (Quiet k st.handed) (not (is_empty fresh) && not w.takes_fresh)
      (st1, ask_start false fresh) _ (refl, stops-ask_start k false fresh)
      (both_branches (Quiet k st.handed) (not (is_empty forced) && not w.takes_forced) (st1, asks)
        (end_flush w fresh forced keys st1, asks) (refl, stops-both k fresh forced)
        (handed-track w.now keys st1, stops-both k fresh forced))

handed-provider_ready : (w : World) (st : Providing) → (provider_ready w st).1.handed ≡ st.handed
unfolding provider_ready provider_ready_now note_readiness
handed-provider_ready w st =
    both_branches (λ (r : Bool × Providing). r.1.handed ≡ st.handed)
      (not (st.checked_at == 0) && ltb (w.now - st.checked_at) provider_ready_ttl) (st.ready, st)
      (provider_ready_now w st) refl refl

flush_provides-Quiet :
    (w : World) (k : ℕ) (st : Providing) → Quiet k st.handed (flush_provides w st)
unfolding flush_provides
flush_provides-Quiet w k st =
    let fresh : List ℕ = pending_keys false st.pending in
    let forced : List ℕ = pending_keys true st.pending in
    let st1 : Providing = (provider_ready w st).1 in
    let same : st1.handed ≡ st.handed = handed-provider_ready w st in
    let over : Quiet k st1.handed (hand_over w fresh forced st1) =
      hand_over-Quiet w k fresh forced st1 in
    both_branches (Quiet k st.handed) (not st.provider || (is_empty fresh && is_empty forced))
      (st, []) _ (refl, refl)
      (both_branches (Quiet k st.handed) (provider_ready w st).0 (hand_over w fresh forced st1)
        (st1, []) (over.0 ∙ same, over.1) (same, refl))

start-Quiet :
    (w : World) (k : ℕ) (cids : List Cid) (st : Providing)
    → Quiet k (hashes cids ++ st.handed) (start w cids st)
unfolding start offer_provides
start-Quiet w k [] st = (refl, refl)
start-Quiet w k (cid ∷ cids) st = flush_provides-Quiet w k _

stale-handed :
    (k : ℕ) (st : Providing) → contains k st.handed ≡ true → contains k (stale_of st) ≡ false
stale-handed k st h = elim (Option-cases st.leftover) [
  | inl e ↦ rw (e, stale_of) refl
  | inr (left, e) ↦ rw (e, stale_of) (ground (arith, h, contains-minus k left st.handed))
]

begin_drop-stops :
    (w : World) (k : ℕ) (st : Providing)
    → contains k st.handed ≡ true
    → stops k (begin_drop w st).1 ≡ false
unfolding begin_drop
begin_drop-stops w k st h =
    let stale : List ℕ = stale_of st in
    let st1 : Providing = record st {
      pending = delete_all stale st.pending;
      unconfirmed = delete_all stale st.unconfirmed;
      leftover = none;
    } in
    both_branches (λ (r : Providing × List Ask). stops k r.1 ≡ false) (is_empty stale) (st1, [])
      (set_announced w stale false (set_refile w stale false st1), stop_providing stale ∷ []) refl
      (ground (arith, stale-handed k st h))

end_drop-stops :
    (w : World) (k : ℕ) (stale : List ℕ) (st : Providing) → stops k (end_drop w stale st).1 ≡ false
unfolding end_drop offer_provides
end_drop-stops w k stale st =
    let again : List ℕ = only (λ j. contains j st.handed) stale in
    both_branches (λ (r : Providing × List Ask). stops k r.1 ≡ false) (is_empty again) (st, [])
      (offer_provides w (with_force true again) st) refl (flush_provides-Quiet w k _).1

-- What `dropLeftovers` stops is none of the keys that were handed over.
drop_leftovers-stops :
    (w : World) (k : ℕ) (st : Providing)
    → contains k st.handed ≡ true
    → stops k (drop_leftovers w st).1 ≡ false
unfolding drop_leftovers
drop_leftovers-stops w k st h =
    let first : Providing × List Ask = begin_drop w st in
    let last : Providing × List Ask = end_drop w (stale_of st) first.0 in
    both_branches (λ (r : Providing × List Ask). stops k r.1 ≡ false) (may_drop st)
      (last.0, first.1 ++ last.1) (st, [])
      (ground (
        arith,
        stops-append k first.1 last.1,
        begin_drop-stops w k st h,
        end_drop-stops w k (stale_of st) first.0,
      ))
      refl

contains-hashes :
    (k : ℕ) (before later : List Cid)
    → contains k (hashes (before ++ later))
      ≡ (contains k (hashes before) || contains k (hashes later))
contains-hashes k [] later = refl
contains-hashes k ((c, h) ∷ before) later = ground (arith, contains-hashes k before later)

-- The announcement of what the application lists, with a pin set that was read to its end or not:
-- none of the listed keys is stopped.
pub seed_announce-stops :
    (w : World) (k : ℕ) (colls pkgs all : List Cid) (failed : Bool) (st : Providing)
    → contains k (hashes (colls ++ pkgs ++ unlisted all (strings colls ++ strings pkgs))) ≡ true
    → stops k (seed_announce w colls pkgs all failed st).1 ≡ false
unfolding seed_announce
seed_announce-stops w k colls pkgs all failed st h =
    let content : List Cid = unlisted all (strings colls ++ strings pkgs) in
    let r1 : Providing × List Ask = start w colls st in
    let r2 : Providing × List Ask = start w pkgs r1.0 in
    let r3 : Providing × List Ask = start w content r2.0 in
    let (e1, q1) : Quiet k (hashes colls ++ st.handed) r1 = start-Quiet w k colls st in
    let (e2, q2) : Quiet k (hashes pkgs ++ r1.0.handed) r2 = start-Quiet w k pkgs r1.0 in
    let (e3, q3) : Quiet k (hashes content ++ r2.0.handed) r3 = start-Quiet w k content r2.0 in
    let given : contains k r3.0.handed ≡ true = ground (
      arith,
      h,
      contains-hashes k colls pkgs,
      contains-hashes k (colls ++ pkgs) content,
      ap (contains k) e1 ∙ contains-append k (hashes colls) st.handed,
      ap (contains k) e2 ∙ contains-append k (hashes pkgs) r1.0.handed,
      ap (contains k) e3 ∙ contains-append k (hashes content) r2.0.handed,
    ) in
    let r4 : Providing × List Ask = drop_leftovers w (record r3.0 { seeded = true }) in
    let q4 : stops k r4.1 ≡ false =
      drop_leftovers-stops w k (record r3.0 { seeded = true }) given in
    let quiet : stops k ((r1.1 ++ r2.1) ++ r3.1) ≡ false =
      ground (arith, stops-append k (r1.1 ++ r2.1) r3.1, stops-append k r1.1 r2.1, q1, q2, q3) in
    both_branches (λ (r : Providing × List Ask). stops k r.1 ≡ false) failed
      (r3.0, (r1.1 ++ r2.1) ++ r3.1) (r4.0, ((r1.1 ++ r2.1) ++ r3.1) ++ r4.1) quiet
      (ground (arith, stops-append k ((r1.1 ++ r2.1) ++ r3.1) r4.1, quiet, q4))
