-- ===== src/Providing/Flush.antt =====
-- provide.go: keys are offered and handed over to the provider.
use vidya_god_ipfs.Prelude.{
  ℕ, Bool, true, false, not, ◌&&◌, ◌||◌, none, some, List, [], ◌∷◌, ◌++◌, is_empty, if◌then◌else◌,
  Map, get, put, has,
}
use vidya_god_ipfs.Providing.Keys.{only, delete_all}
use vidya_god_ipfs.Providing.State.{
  Providing, World, Ask, start_providing, stop_providing, set_refile, set_announced, is_announced,
  provider_ready,
}

-- The pending keys with a force mark, or without one.
abbrev pub pending_keys : Bool → Map Bool → List ℕ
pending_keys force [] = []
pending_keys force ((k, f) ∷ m) =
    let rest = pending_keys force m in if (if force then f else not f) then k ∷ rest else rest

-- The keys that a hand-over tracks.
abbrev pub tracked : List ℕ → List ℕ → Providing → List ℕ
tracked fresh forced st = only (λ k. not (is_announced k st)) fresh ++ forced

-- The loop over the tracked keys after the hand-over: the new state, and the keys that are gone.
abbrev pub track_one : ℕ → ℕ → Providing → Providing
track_one at k st =
    if has k st.pending then record st { unconfirmed = put k at st.unconfirmed } else st

abbrev pub is_gone : Providing → ℕ → Bool
is_gone st k = not (has k st.pending) && not (has k st.unconfirmed)

unfoldable pub track : ℕ → List ℕ → Providing → Providing
track at [] st = st
track at (k ∷ ks) st = track at ks (track_one at k st)

unfoldable pub gone : ℕ → List ℕ → Providing → List ℕ
gone at [] st = []
gone at (k ∷ ks) st =
    let rest = gone at ks (track_one at k st) in if is_gone st k then k ∷ rest else rest

-- The end of `flushProvides`, after the hand-over.
unfoldable pub end_flush : World → List ℕ → List ℕ → List ℕ → Providing → Providing
end_flush w fresh forced keys st =
    let st1 = track w.now keys st in
    let lost = gone w.now keys st in
    set_refile w lost false (record st1 { pending = delete_all (fresh ++ forced) st1.pending })

abbrev pub ask_start : Bool → List ℕ → List Ask
ask_start force [] = []
ask_start force (k ∷ ks) = start_providing force (k ∷ ks) ∷ []

-- The hand-over: the records go first.
unfoldable pub hand_over : World → List ℕ → List ℕ → Providing → Providing × List Ask
hand_over w fresh forced st =
    let keys = tracked fresh forced st in
    let st1 = set_refile w keys true st in
    if not (is_empty fresh) && not w.takes_fresh
    then (st1, ask_start false fresh)
    else if not (is_empty forced) && not w.takes_forced
    then (st1, ask_start false fresh ++ ask_start true forced)
    else (end_flush w fresh forced keys st1, ask_start false fresh ++ ask_start true forced)

-- `flushProvides`
unfoldable pub flush_provides : World → Providing → Providing × List Ask
flush_provides w st =
    let fresh = pending_keys false st.pending in
    let forced = pending_keys true st.pending in
    let (ready, st1) = provider_ready w st in
    if not st.provider || (is_empty fresh && is_empty forced)
    then (st, [])
    else if ready
    then hand_over w fresh forced st1
    else (st1, [])

abbrev pub is_forced : ℕ → Map Bool → Bool
is_forced k m = elim (get k m) [ none ↦ false | some f ↦ f ]

-- The loop of `offerProvides`: a force mark sticks.
unfoldable pub add_pending : List (ℕ × Bool) → Map Bool → Map Bool
add_pending [] m = m
add_pending ((k, force) ∷ ks) m = add_pending ks (put k (force || is_forced k m) m)

-- `offerProvides`
unfoldable pub offer_provides : World → List (ℕ × Bool) → Providing → Providing × List Ask
offer_provides w keys st =
    flush_provides w (record st { pending = add_pending keys st.pending; started = true })

-- A CID: the number of its string, and of its multihash.
abbrev pub Cid : Type 0
Cid = ℕ × ℕ

abbrev pub hashes : List Cid → List ℕ
hashes [] = []
hashes ((c, h) ∷ cids) = h ∷ hashes cids

abbrev pub strings : List Cid → List ℕ
strings [] = []
strings ((c, h) ∷ cids) = c ∷ strings cids

abbrev pub with_force : Bool → List ℕ → List (ℕ × Bool)
with_force force [] = []
with_force force (k ∷ ks) = (k, force) ∷ with_force force ks

-- `startProviding`
unfoldable pub start : World → List Cid → Providing → Providing × List Ask
start w cids st =
    if is_empty cids
    then (st, [])
    else offer_provides w (with_force false (hashes cids)) (record st {
      seed_done = elim st.seed_done [ none ↦ none | some done ↦ some (strings cids ++ done) ];
      handed = hashes cids ++ st.handed;
    })

-- `stopProviding`
unfoldable pub stop : World → List Cid → Providing → Providing × List Ask
stop w cids st =
    let keys = hashes cids in
    let st1 = record st {
      pending = delete_all keys st.pending;
      unconfirmed = delete_all keys st.unconfirmed;
    } in
    let st2 = set_announced w keys false (set_refile w keys false st1) in
    (st2, if st.provider then stop_providing keys ∷ [] else [])
