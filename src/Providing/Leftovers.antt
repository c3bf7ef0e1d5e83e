-- ===== src/Providing/Leftovers.antt =====
-- provide.go and seedannounce.go: what an earlier run left in the keystore.
use vidya_god_ipfs.Prelude.{
  ℕ, Bool, true, false, not, ◌&&◌, ◌||◌, Option, none, some, List, [], ◌∷◌, ◌++◌, is_empty,
  contains, if◌then◌else◌,
}
use vidya_god_ipfs.Providing.Keys.{only, minus, delete_all}
use vidya_god_ipfs.Providing.State.{
  Providing, World, Ask, Marks, stop_providing, set_refile, set_announced,
}
use vidya_god_ipfs.Providing.Flush.{offer_provides, with_force, Cid, strings, start}

-- `dropLeftovers` up to the stop: the keys of an earlier run that this one has not handed over.
abbrev pub stale_of : Providing → List ℕ
stale_of st = elim st.leftover [ none ↦ [] | some left ↦ minus left st.handed ]

unfoldable pub begin_drop : World → Providing → Providing × List Ask
begin_drop w st =
    let stale = stale_of st in
    let st1 = record st {
      pending = delete_all stale st.pending;
      unconfirmed = delete_all stale st.unconfirmed;
      leftover = none;
    } in
    if is_empty stale
    then (st1, [])
    else (set_announced w stale false (set_refile w stale false st1), stop_providing stale ∷ [])

-- The end of `dropLeftovers`: a key that was handed over meanwhile is offered again.
unfoldable pub end_drop : World → List ℕ → Providing → Providing × List Ask
end_drop w stale st =
    let again = only (λ k. contains k st.handed) stale in
    if is_empty again then (st, []) else offer_provides w (with_force true again) st

abbrev pub may_drop : Providing → Bool
may_drop st = st.seeded && st.prune_with && (elim st.leftover [ none ↦ false | some left ↦ true ])

-- `dropLeftovers`
unfoldable pub drop_leftovers : World → Providing → Providing × List Ask
drop_leftovers w st =
    let (st1, asks) = begin_drop w st in
    let (st2, asks') = end_drop w (stale_of st) st1 in
    if may_drop st then (st2, asks ++ asks') else (st, [])

abbrev pub to_refile : Option Marks → List ℕ
to_refile none = []
to_refile (some m) = m.refile

-- `restoreRefiles`; `readable` is whether the query is answered
unfoldable pub restore_refiles : World → Bool → Providing → Providing × List Ask
restore_refiles w readable st =
    let keys = to_refile st.store in
    if is_empty keys || not readable then (st, []) else offer_provides w (with_force true keys) st

-- What `StoredKeys` answers: the provider lists no keys, its keystore fails, or the keys of the keystore.
pub data Stored : Type 0 where
  no_lister no_answer : Stored
  stored : List ℕ → Stored

abbrev list_leftover : Bool → Stored → Option (List ℕ) → Option (List ℕ)
list_leftover true (stored keys) left = some keys
list_leftover _ _ left = left

abbrev pub installed : Stored → Providing → Providing
installed answer st = record st {
  leftover = list_leftover (not st.listed) answer st.leftover;
  listed = true;
  prune_with = true;
  provider = true;
}

-- `useProvider`
unfoldable pub use_provider : World → Bool → Stored → Providing → Providing × List Ask
use_provider w readable answer st =
    let (st1, asks) = restore_refiles w readable (installed answer st) in
    let (st2, asks') = drop_leftovers w st1 in (st2, asks ++ asks')

-- `unlisted`
unfoldable pub unlisted : List Cid → List ℕ → List Cid
unlisted [] meta = []
unlisted ((c, h) ∷ all) meta =
    let rest = unlisted all meta in if contains c meta then rest else (c, h) ∷ rest

-- `runSeedAnnounce`, for the collections and packages of the app; `pinLs` answers `all`, and whether
-- it failed
unfoldable pub seed_announce :
    World → List Cid → List Cid → List Cid → Bool → Providing → Providing × List Ask
seed_announce w colls pkgs all failed st =
    let content = unlisted all (strings colls ++ strings pkgs) in
    let (st1, asks1) = start w colls st in
    let (st2, asks2) = start w pkgs st1 in
    let (st3, asks3) = start w content st2 in
    let (st4, asks4) = drop_leftovers w (record st3 { seeded = true }) in
    if failed then (st3, asks1 ++ asks2 ++ asks3) else (st4, asks1 ++ asks2 ++ asks3 ++ asks4)
