-- ===== src/Providing/Safe.antt =====
-- The marks of the keys that were handed to the provider.
use vidya_god_ipfs.Prelude.{
  ℕ, ◌≡◌, refl, ap, ◌∙◌, Bool, true, false, not, ◌&&◌, ◌||◌, Option, List, [], ◌∷◌, ◌++◌, arith,
  ◌==◌, contains, is_empty, Map, has, Bool-cases, both_branches, inl, inr,
}
use vidya_god_ipfs.Providing.Keys.{only, minus, contains-only, contains-append, delete_all}
use vidya_god_ipfs.Providing.State.{
  Providing, World, Marks, Ask, start_providing, stop_providing, set_refile, is_announced,
}
use vidya_god_ipfs.Providing.Flush.{
  pending_keys, tracked, track, track_one, gone, end_flush, hand_over, ask_start,
}
use vidya_god_ipfs.Providing.Marks.{remembered, refile_on-remembered, refile_off-remembered}

-- The keys that the provider was handed and was not told to stop since.
abbrev pub asked : Ask → List ℕ → List ℕ
asked (start_providing force keys) filed = keys ++ filed
asked (stop_providing keys) filed = minus filed keys

abbrev pub filed_after : List Ask → List ℕ → List ℕ
filed_after [] filed = filed
filed_after (a ∷ asks) filed = filed_after asks (asked a filed)

pub filed_after-append :
    (before later : List Ask) (filed : List ℕ)
    → filed_after (before ++ later) filed ≡ filed_after later (filed_after before filed)
filed_after-append [] later filed = refl
filed_after-append (a ∷ before) later filed = filed_after-append before later (asked a filed)

filed-ask_start :
    (k : ℕ) (force : Bool) (keys filed : List ℕ)
    → contains k (filed_after (ask_start force keys) filed) ≡ (contains k keys || contains k filed)
filed-ask_start k force [] filed = refl
filed-ask_start k force (j ∷ keys) filed = contains-append k (j ∷ keys) filed

filed-hand_over :
    (k : ℕ) (fresh forced filed : List ℕ)
    → contains k (filed_after (ask_start false fresh ++ ask_start true forced) filed)
      ≡ (contains k forced || (contains k fresh || contains k filed))
filed-hand_over k fresh forced filed =
    ap (contains k) (filed_after-append (ask_start false fresh) (ask_start true forced) filed)
    ∙ filed-ask_start k true forced (filed_after (ask_start false fresh) filed)
    ∙ ap (λ b. contains k forced || b) (filed-ask_start k false fresh filed)

pending-track_one : (at j : ℕ) (st : Providing) → (track_one at j st).pending ≡ st.pending
pending-track_one at j st = elim (Bool-cases (has j st.pending)) [
  | inl e ↦ rw (e, track_one) refl
  | inr e ↦ rw (e, track_one) refl
]

store-track_one : (at j : ℕ) (st : Providing) → (track_one at j st).store ≡ st.store
store-track_one at j st = elim (Bool-cases (has j st.pending)) [
  | inl e ↦ rw (e, track_one) refl
  | inr e ↦ rw (e, track_one) refl
]

has-same : (k j : ℕ) (m : Map Bool) → (not (k == j) || not (has k m) || has j m) ≡ true
has-same k j m = elim (Bool-cases (k == j)) [
  | inl e ↦
      let is : k ≡ j = ground (arith, e) in
      let same : has k m ≡ has j m = ap (λ i. has i m) is in ground (arith, same)
  | inr e ↦ ground (arith, e)
]

-- A key that is pending is not gone.
gone-pending :
    (at k : ℕ) (ks : List ℕ) (st : Providing)
    → (not (contains k ks) || has k st.pending) ≡ true
    → contains k (gone at ks st) ≡ false
unfolding gone
gone-pending at k [] st h = refl
gone-pending at k (j ∷ ks) st h =
    let step : (not (contains k ks) || has k (track_one at j st).pending) ≡ true =
      rw (pending-track_one at j st) (ground (arith, h)) in
    ground (arith, h, has-same k j st.pending, gone-pending at k ks (track_one at j st) step)

pub pending_keys-has :
    (k : ℕ) (force : Bool) (m : Map Bool)
    → (not (contains k (pending_keys force m)) || has k m) ≡ true
pending_keys-has k force [] = refl
pending_keys-has k force ((j, f) ∷ m) = ground (arith, pending_keys-has k force m)

store-track : (at : ℕ) (ks : List ℕ) (st : Providing) → (track at ks st).store ≡ st.store
unfolding track
store-track at [] st = refl
store-track at (k ∷ ks) st = store-track at ks (track_one at k st) ∙ store-track_one at k st

pub weaken :
    (k : ℕ) (a b : Bool) (o : Option Marks)
    → (not b || a) ≡ true
    → remembered a k o ≡ true
    → remembered b k o ≡ true
weaken k a b o i h = ground (arith, i, h)

end_flush-remembered :
    (w : World) (k : ℕ) (fresh forced keys : List ℕ) (filed : Bool) (st : Providing)
    → w.commits ≡ true
    → (not (contains k keys) || has k st.pending) ≡ true
    → remembered filed k st.store ≡ true
    → remembered filed k (end_flush w fresh forced keys st).store ≡ true
unfolding end_flush
end_flush-remembered w k fresh forced keys filed st c p h =
    let st1 : Providing = track w.now keys st in
    let st2 : Providing = record st1 { pending = delete_all (fresh ++ forced) st1.pending } in
    let lost : List ℕ = gone w.now keys st in
    let stays : contains k lost ≡ false = gone-pending w.now k keys st p in
    let same : remembered filed k st2.store ≡ true =
      ap (remembered filed k) (store-track w.now keys st) ∙ h in
    weaken k (filed && not (contains k lost)) filed (set_refile w lost false st2).store
      (ground (arith, stays)) (refile_off-remembered w k lost filed st2 c same)

-- The key, under the provider and under the marks, after an operation.
abbrev pub Remembers : ℕ → List ℕ → Providing × List Ask → Type 0
Remembers k filed r = (remembered (contains k (filed_after r.1 filed)) k r.0.store ≡ true)

pub hand_over-Remembers :
    (w : World) (k : ℕ) (fresh forced filed : List ℕ) (st : Providing)
    → w.commits ≡ true
    → (not (contains k (fresh ++ forced)) || has k st.pending) ≡ true
    → remembered (contains k filed) k st.store ≡ true
    → Remembers k filed (hand_over w fresh forced st)
unfolding hand_over set_refile
hand_over-Remembers w k fresh forced filed st c p h =
    let keys : List ℕ = tracked fresh forced st in
    let st1 : Providing = set_refile w keys true st in
    let asks : List Ask = ask_start false fresh ++ ask_start true forced in
    let in_keys : contains k keys
        ≡ ((not (is_announced k st) && contains k fresh) || contains k forced) =
      contains-append k (only (λ j. not (is_announced j st)) fresh) forced
      ∙ ap (λ b. b || contains k forced) (contains-only (λ j. not (is_announced j st)) k fresh) in
    let given : Bool = contains k forced || (contains k fresh || contains k filed) in
    let marked_first : remembered given k st1.store ≡ true =
      weaken k (contains k keys || is_announced k st || contains k filed) given st1.store
        (ground (arith, in_keys)) (refile_on-remembered w k keys (contains k filed) st c h) in
    let waits : (not (contains k keys) || has k st1.pending) ≡ true =
      ground (arith, p, in_keys, contains-append k fresh forced) in
    let all : (o : Option Marks)
        → remembered given k o ≡ true
        → remembered (contains k (filed_after asks filed)) k o ≡ true =
      λ o r.
        weaken k given (contains k (filed_after asks filed)) o
          (ground (arith, filed-hand_over k fresh forced filed)) r in
    let first_only : remembered (contains k (filed_after (ask_start false fresh) filed)) k st1.store
        ≡ true =
      weaken k given (contains k (filed_after (ask_start false fresh) filed)) st1.store
        (ground (arith, filed-ask_start k false fresh filed)) marked_first in
    both_branches (Remembers k filed) (not (is_empty fresh) && not w.takes_fresh)
      (st1, ask_start false fresh) _ first_only
      (both_branches (Remembers k filed) (not (is_empty forced) && not w.takes_forced) (st1, asks)
        (end_flush w fresh forced keys st1, asks) (all st1.store marked_first)
        (all (end_flush w fresh forced keys st1).store
          (end_flush-remembered w k fresh forced keys given st1 c waits marked_first)))
