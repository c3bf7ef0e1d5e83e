-- ===== src/Providing/Marks.antt =====
-- What the batches of marks make of each key.
use vidya_god_ipfs.Prelude.{
  ℕ, ◌≡◌, refl, ◌∙◌, Bool, true, false, not, ◌&&◌, ◌||◌, Option, none, some, List, [], ◌∷◌, arith,
  contains, is_empty, Bool-cases, inl, inr,
}
use vidya_god_ipfs.Providing.Keys.{contains-append, contains-minus}
use vidya_god_ipfs.Providing.State.{
  Providing, World, Marks, marked, set_marks, set_refile, set_announced, is_announced, announced_in,
  refiled_in,
}

abbrev pub has_store : Option Marks → Bool
has_store none = false
has_store (some m) = true

-- What a batch makes of a set.
abbrev pub set_to : Bool → Bool → Bool → Bool
set_to true given was = given || was
set_to false given was = not given && was

contains-marked :
    (k : ℕ) (keys : List ℕ) (on : Bool) (set : List ℕ)
    → contains k (marked keys on set) ≡ set_to on (contains k keys) (contains k set)
contains-marked k keys true set = contains-append k keys set
contains-marked k keys false set = contains-minus k set keys

no_keys : (on was : Bool) → was ≡ set_to on false was
no_keys true was = refl
no_keys false was = refl

pub refiled-set_refile :
    (w : World) (k : ℕ) (keys : List ℕ) (on : Bool) (o : Option Marks)
    → w.commits ≡ true
    → has_store o ≡ true
    → refiled_in k
        (set_marks w (λ (m : Marks). record m { refile = marked keys on m.refile }) keys o)
      ≡ set_to on (contains k keys) (refiled_in k o)
refiled-set_refile w k keys on none c h = absurd (ground (arith, h))
refiled-set_refile w k [] on (some m) c h = no_keys on (contains k m.refile)
refiled-set_refile w k (j ∷ keys) on (some m) c h =
    rw (c, set_marks) (contains-marked k (j ∷ keys) on m.refile)

pub announced-set_refile :
    (w : World) (k : ℕ) (keys : List ℕ) (on : Bool) (o : Option Marks)
    → announced_in k
        (set_marks w (λ (m : Marks). record m { refile = marked keys on m.refile }) keys o)
      ≡ announced_in k o
announced-set_refile w k keys on none = refl
announced-set_refile w k keys on (some m) = elim (Bool-cases (is_empty keys || not w.commits)) [
  | inl e ↦ rw (e, set_marks) refl
  | inr e ↦ rw (e, set_marks) refl
]

pub announced-set_announced :
    (w : World) (k : ℕ) (keys : List ℕ) (on : Bool) (o : Option Marks)
    → w.commits ≡ true
    → has_store o ≡ true
    → announced_in k
        (set_marks w (λ (m : Marks). record m { announced = marked keys on m.announced }) keys o)
      ≡ set_to on (contains k keys) (announced_in k o)
announced-set_announced w k keys on none c h = absurd (ground (arith, h))
announced-set_announced w k [] on (some m) c h = no_keys on (contains k m.announced)
announced-set_announced w k (j ∷ keys) on (some m) c h =
    rw (c, set_marks) (contains-marked k (j ∷ keys) on m.announced)

pub refiled-set_announced :
    (w : World) (k : ℕ) (keys : List ℕ) (on : Bool) (o : Option Marks)
    → refiled_in k
        (set_marks w (λ (m : Marks). record m { announced = marked keys on m.announced }) keys o)
      ≡ refiled_in k o
refiled-set_announced w k keys on none = refl
refiled-set_announced w k keys on (some m) = elim (Bool-cases (is_empty keys || not w.commits)) [
  | inl e ↦ rw (e, set_marks) refl
  | inr e ↦ rw (e, set_marks) refl
]

pub store-set_marks :
    (w : World) (change : Marks → Marks) (keys : List ℕ) (o : Option Marks)
    → has_store (set_marks w change keys o) ≡ has_store o
store-set_marks w change keys none = refl
store-set_marks w change keys (some m) = elim (Bool-cases (is_empty keys || not w.commits)) [
  | inl e ↦ rw (e, set_marks) refl
  | inr e ↦ rw (e, set_marks) refl
]

-- A key of which it is known, where `filed`, that it is announced or is to be offered again.
abbrev pub remembered : Bool → ℕ → Option Marks → Bool
remembered filed k o = has_store o && (not filed || refiled_in k o || announced_in k o)

-- Marks for a hand-over.
pub refile_on-remembered :
    (w : World) (k : ℕ) (keys : List ℕ) (filed : Bool) (st : Providing)
    → w.commits ≡ true
    → remembered filed k st.store ≡ true
    → remembered (contains k keys || is_announced k st || filed) k (set_refile w keys true st).store
      ≡ true
unfolding set_refile is_announced
refile_on-remembered w k keys filed st c h =
    let s : has_store st.store ≡ true = ground (arith, h) in
    ground (
      arith,
      h,
      store-set_marks w (λ (m : Marks). record m { refile = marked keys true m.refile }) keys
          st.store,
      refiled-set_refile w k keys true st.store c s,
      announced-set_refile w k keys true st.store,
    )

-- Marks that are taken away of keys which are not filed.
pub refile_off-remembered :
    (w : World) (k : ℕ) (keys : List ℕ) (filed : Bool) (st : Providing)
    → w.commits ≡ true
    → remembered filed k st.store ≡ true
    → remembered (filed && not (contains k keys)) k (set_refile w keys false st).store ≡ true
unfolding set_refile
refile_off-remembered w k keys filed st c h =
    let s : has_store st.store ≡ true = ground (arith, h) in
    ground (
      arith,
      h,
      store-set_marks w (λ (m : Marks). record m { refile = marked keys false m.refile }) keys
          st.store,
      refiled-set_refile w k keys false st.store c s,
      announced-set_refile w k keys false st.store,
    )

pub announced_off-remembered :
    (w : World) (k : ℕ) (keys : List ℕ) (filed : Bool) (st : Providing)
    → w.commits ≡ true
    → remembered filed k st.store ≡ true
    → remembered (filed && not (contains k keys)) k (set_announced w keys false st).store ≡ true
unfolding set_announced
announced_off-remembered w k keys filed st c h =
    let s : has_store st.store ≡ true = ground (arith, h) in
    ground (
      arith,
      h,
      store-set_marks w (λ (m : Marks). record m { announced = marked keys false m.announced }) keys
          st.store,
      announced-set_announced w k keys false st.store c s,
      refiled-set_announced w k keys false st.store,
    )

-- Keys that are settled.
pub settled-remembered :
    (w : World) (k : ℕ) (keys : List ℕ) (filed : Bool) (st : Providing)
    → w.commits ≡ true
    → remembered filed k st.store ≡ true
    → remembered filed k (set_refile w keys false (set_announced w keys true st)).store ≡ true
unfolding set_announced set_refile
settled-remembered w k keys filed st c h =
    let s : has_store st.store ≡ true = ground (arith, h) in
    let st1 : Providing = set_announced w keys true st in
    let s1 : has_store st1.store ≡ true =
      store-set_marks w (λ (m : Marks). record m { announced = marked keys true m.announced }) keys
        st.store
      ∙ s in
    ground (
      arith,
      h,
      s1,
      announced-set_announced w k keys true st.store c s,
      refiled-set_announced w k keys true st.store,
      store-set_marks w (λ (m : Marks). record m { refile = marked keys false m.refile }) keys
          st1.store,
      refiled-set_refile w k keys false st1.store c s1,
      announced-set_refile w k keys false st1.store,
    )
