-- ===== src/Providing/Remember.antt =====
-- The operations of provide.go and the marks of the keys that they hand over.
use vidya_god_ipfs.Prelude.{
  ℕ, ◌≡◌, refl, ap, ◌∙◌, Bool, true, false, not, ◌&&◌, ◌||◌, none, List, [], ◌∷◌, ◌++◌, arith, ltb,
  ◌-◌, ◌==◌, contains, is_empty, Map, put, delete, has, both_branches,
}
use vidya_god_ipfs.Providing.Keys.{only, minus, contains-append, contains-minus, delete_all}
use vidya_god_ipfs.Providing.State.{
  Providing, World, Ask, stop_providing, set_refile, set_announced, provider_ready,
  provider_ready_now, provider_ready_ttl, note_readiness, online,
}
use vidya_god_ipfs.Providing.Flush.{
  pending_keys, hand_over, flush_provides, offer_provides, add_pending, start, Cid, hashes, strings,
  with_force,
}
use vidya_god_ipfs.Providing.Confirm.{
  settle, settled, settle_one, settles, settle_all, confirm_unconfirmed, drained,
}
use vidya_god_ipfs.Providing.Leftovers.{
  stale_of, begin_drop, end_drop, may_drop, drop_leftovers, restore_refiles, use_provider, Stored,
  installed, to_refile, seed_announce, unlisted,
}
use vidya_god_ipfs.Providing.Marks.{
  remembered, refile_off-remembered, announced_off-remembered, settled-remembered,
}
use vidya_god_ipfs.Providing.Safe.{
  filed_after, filed_after-append, Remembers, hand_over-Remembers, pending_keys-has, weaken,
}

store-provider_ready : (w : World) (st : Providing) → (provider_ready w st).1.store ≡ st.store
unfolding provider_ready provider_ready_now note_readiness
store-provider_ready w st =
    both_branches (λ (r : Bool × Providing). r.1.store ≡ st.store)
      (not (st.checked_at == 0) && ltb (w.now - st.checked_at) provider_ready_ttl) (st.ready, st)
      (provider_ready_now w st) refl refl

pending-provider_ready : (w : World) (st : Providing) → (provider_ready w st).1.pending ≡ st.pending
unfolding provider_ready provider_ready_now note_readiness
pending-provider_ready w st =
    both_branches (λ (r : Bool × Providing). r.1.pending ≡ st.pending)
      (not (st.checked_at == 0) && ltb (w.now - st.checked_at) provider_ready_ttl) (st.ready, st)
      (provider_ready_now w st) refl refl

pub flush_provides-Remembers :
    (w : World) (k : ℕ) (filed : List ℕ) (st : Providing)
    → w.commits ≡ true
    → remembered (contains k filed) k st.store ≡ true
    → Remembers k filed (flush_provides w st)
unfolding flush_provides
flush_provides-Remembers w k filed st c h =
    let fresh : List ℕ = pending_keys false st.pending in
    let forced : List ℕ = pending_keys true st.pending in
    let (ready, st1) : Bool × Providing = provider_ready w st in
    let h1 : remembered (contains k filed) k (provider_ready w st).1.store ≡ true =
      ap (remembered (contains k filed) k) (store-provider_ready w st) ∙ h in
    let waits : (not (contains k (fresh ++ forced)) || has k (provider_ready w st).1.pending)
        ≡ true =
      rw (pending-provider_ready w st) (
        ground (
          arith,
          contains-append k fresh forced,
          pending_keys-has k false st.pending,
          pending_keys-has k true st.pending,
        )) in
    both_branches (Remembers k filed) (not st.provider || (is_empty fresh && is_empty forced))
      (st, []) _ h
      (both_branches (Remembers k filed) (provider_ready w st).0
        (hand_over w fresh forced (provider_ready w st).1) ((provider_ready w st).1, [])
        (hand_over-Remembers w k fresh forced filed (provider_ready w st).1 c waits h1) h1)

offer_provides-Remembers :
    (w : World) (k : ℕ) (keys : List (ℕ × Bool)) (filed : List ℕ) (st : Providing)
    → w.commits ≡ true
    → remembered (contains k filed) k st.store ≡ true
    → Remembers k filed (offer_provides w keys st)
unfolding offer_provides
offer_provides-Remembers w k keys filed st c h =
    flush_provides-Remembers w k filed
      (record st { pending = add_pending keys st.pending; started = true }) c h

pub start-Remembers :
    (w : World) (k : ℕ) (cids : List Cid) (filed : List ℕ) (st : Providing)
    → w.commits ≡ true
    → remembered (contains k filed) k st.store ≡ true
    → Remembers k filed (start w cids st)
unfolding start
start-Remembers w k [] filed st c h = h
start-Remembers w k (cid ∷ cids) filed st c h =
    offer_provides-Remembers w k (with_force false (hashes (cid ∷ cids))) filed _ c h

store-settle_one : (w : World) (k at : ℕ) (st : Providing) → (settle_one w k at st).store ≡ st.store
store-settle_one w k at st =
    both_branches (λ (s : Providing). s.store ≡ st.store) (has k st.unconfirmed) _ st
      (both_branches (λ (s : Providing). s.store ≡ st.store) (settles w at st)
        (record st { unconfirmed = delete k st.unconfirmed })
        (record st { unconfirmed = delete k st.unconfirmed; pending = put k true st.pending }) refl
        refl)
      refl

pub store-settle : (w : World) (snap : Map ℕ) (st : Providing) → (settle w snap st).store ≡ st.store
unfolding settle
store-settle w [] st = refl
store-settle w ((k, at) ∷ snap) st =
    store-settle w snap (settle_one w k at st) ∙ store-settle_one w k at st

pub confirm_unconfirmed-remembered :
    (w : World) (k : ℕ) (filed : Bool) (st : Providing)
    → w.commits ≡ true
    → remembered filed k st.store ≡ true
    → remembered filed k (confirm_unconfirmed w st).store ≡ true
unfolding confirm_unconfirmed settle_all note_readiness
confirm_unconfirmed-remembered w k filed st c h =
    let P : Providing → Type 0 = λ s. remembered filed k s.store ≡ true in
    let noted : Providing = note_readiness w (online w) st in
    let snap : Map ℕ = st.unconfirmed in
    let all_settled : P (settle_all w snap noted) =
      settled-remembered w k (settled w snap noted) filed (settle w snap noted) c
        (ap (remembered filed k) (store-settle w snap noted) ∙ h) in
    both_branches P (not st.provider || is_empty st.unconfirmed) st _ h (
      both_branches P (w.failed || w.closed) st _ h (
        both_branches P (w.measured && not (drained w)) noted (settle_all w snap noted) h
          all_settled))

-- An operation after another.
then_Remembers :
    (k : ℕ) (filed : List ℕ) (before : List Ask) (r : Providing × List Ask)
    → Remembers k (filed_after before filed) r
    → Remembers k filed (r.0, before ++ r.1)
then_Remembers k filed before r h =
    ap (λ l. remembered (contains k l) k r.0.store) (filed_after-append before r.1 filed) ∙ h

begin_drop-Remembers :
    (w : World) (k : ℕ) (filed : List ℕ) (st : Providing)
    → w.commits ≡ true
    → remembered (contains k filed) k st.store ≡ true
    → Remembers k filed (begin_drop w st)
unfolding begin_drop
begin_drop-Remembers w k filed st c h =
    let stale : List ℕ = stale_of st in
    let st1 : Providing = record st {
      pending = delete_all stale st.pending;
      unconfirmed = delete_all stale st.unconfirmed;
      leftover = none;
    } in
    let unmarked : remembered (contains k filed && not (contains k stale)) k
          (set_refile w stale false st1).store
        ≡ true =
      refile_off-remembered w k stale (contains k filed) st1 c h in
    let twice : remembered ((contains k filed && not (contains k stale)) && not (contains k stale))
          k (set_announced w stale false (set_refile w stale false st1)).store
        ≡ true =
      announced_off-remembered w k stale (contains k filed && not (contains k stale))
        (set_refile w stale false st1) c unmarked in
    both_branches (Remembers k filed) (is_empty stale) (st1, [])
      (set_announced w stale false (set_refile w stale false st1), stop_providing stale ∷ []) h
      (weaken k ((contains k filed && not (contains k stale)) && not (contains k stale))
        (contains k (minus filed stale)) _ (ground (arith, contains-minus k filed stale)) twice)

drop_leftovers-Remembers :
    (w : World) (k : ℕ) (filed : List ℕ) (st : Providing)
    → w.commits ≡ true
    → remembered (contains k filed) k st.store ≡ true
    → Remembers k filed (drop_leftovers w st)
unfolding drop_leftovers end_drop
drop_leftovers-Remembers w k filed st c h =
    let first : Providing × List Ask = begin_drop w st in
    let again : List ℕ = only (λ j. contains j first.0.handed) (stale_of st) in
    let dropped : Remembers k filed first = begin_drop-Remembers w k filed st c h in
    let ended : Remembers k (filed_after first.1 filed) (end_drop w (stale_of st) first.0) =
      both_branches (Remembers k (filed_after first.1 filed)) (is_empty again) (first.0, [])
        (offer_provides w (with_force true again) first.0) dropped
        (offer_provides-Remembers w k (with_force true again) (filed_after first.1 filed) first.0 c
          dropped) in
    both_branches (Remembers k filed) (may_drop st)
      ((end_drop w (stale_of st) first.0).0, first.1 ++ (end_drop w (stale_of st) first.0).1)
      (st, []) (then_Remembers k filed first.1 (end_drop w (stale_of st) first.0) ended) h

restore_refiles-Remembers :
    (w : World) (k : ℕ) (readable : Bool) (filed : List ℕ) (st : Providing)
    → w.commits ≡ true
    → remembered (contains k filed) k st.store ≡ true
    → Remembers k filed (restore_refiles w readable st)
unfolding restore_refiles
restore_refiles-Remembers w k readable filed st c h =
    both_branches (Remembers k filed) (is_empty (to_refile st.store) || not readable) (st, [])
      (offer_provides w (with_force true (to_refile st.store)) st) h
      (offer_provides-Remembers w k (with_force true (to_refile st.store)) filed st c h)

pub use_provider-Remembers :
    (w : World) (k : ℕ) (readable : Bool) (answer : Stored) (filed : List ℕ) (st : Providing)
    → w.commits ≡ true
    → remembered (contains k filed) k st.store ≡ true
    → Remembers k filed (use_provider w readable answer st)
unfolding use_provider
use_provider-Remembers w k readable answer filed st c h =
    let r : Providing × List Ask = restore_refiles w readable (installed answer st) in
    let restored : Remembers k filed r =
      restore_refiles-Remembers w k readable filed (installed answer st) c h in
    then_Remembers k filed r.1 (drop_leftovers w r.0)
      (drop_leftovers-Remembers w k (filed_after r.1 filed) r.0 c restored)

pub seed_announce-Remembers :
    (w : World) (k : ℕ) (colls pkgs all : List Cid) (failed : Bool) (filed : List ℕ)
    (st : Providing)
    → w.commits ≡ true
    → remembered (contains k filed) k st.store ≡ true
    → Remembers k filed (seed_announce w colls pkgs all failed st)
unfolding seed_announce
seed_announce-Remembers w k colls pkgs all failed filed st c h =
    let content : List Cid = unlisted all (strings colls ++ strings pkgs) in
    let r1 : Providing × List Ask = start w colls st in
    let h1 : Remembers k filed r1 = start-Remembers w k colls filed st c h in
    let r2 : Providing × List Ask = start w pkgs r1.0 in
    let h2 : Remembers k (filed_after r1.1 filed) r2 =
      start-Remembers w k pkgs (filed_after r1.1 filed) r1.0 c h1 in
    let h12 : Remembers k filed (r2.0, r1.1 ++ r2.1) = then_Remembers k filed r1.1 r2 h2 in
    let r3 : Providing × List Ask = start w content r2.0 in
    let h3 : Remembers k filed (r3.0, (r1.1 ++ r2.1) ++ r3.1) =
      then_Remembers k filed (r1.1 ++ r2.1) r3
        (start-Remembers w k content (filed_after (r1.1 ++ r2.1) filed) r2.0 c h12) in
    let all_asks : List Ask = (r1.1 ++ r2.1) ++ r3.1 in
    let r4 : Providing × List Ask = drop_leftovers w (record r3.0 { seeded = true }) in
    both_branches (Remembers k filed) failed (r3.0, all_asks) (r4.0, all_asks ++ r4.1) h3
      (then_Remembers k filed all_asks r4 (
        drop_leftovers-Remembers w k (filed_after all_asks filed) (record r3.0 { seeded = true }) c
          h3))
