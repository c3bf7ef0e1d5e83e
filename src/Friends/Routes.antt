-- ===== src/Friends/Routes.antt =====
-- The addresses and the routes of the virtual LAN.
use vidya_god_ipfs.Prelude.{
  ℕ, ◌+◌, ◌<◌, ◌≡◌, ◌⊎◌, refl, sym, ap, ◌∙◌, Bool, true, false, not, ◌&&◌, ◌||◌, Option, none, some,
  ◌≢◌, contains, List, [], ◌∷◌, arith, ◌==◌, if◌then◌else◌, Map, get, put, get-put, Bool-cases, inl,
  inr,
}
use vidya_god_ipfs.Friends.Social.{
  Contact, Social, FriendState, unset, pending, incoming, accepted, blocked, is_accepted,
}
use vidya_god_ipfs.Friends.Lan.{lan_network, lan_vip, on_lan, lan_routes, lan_config_from}

-- The address of a peer lies in the /16, and is neither its network nor its broadcast address.
pub lan_vip-inside :
    (h : ℕ × ℕ)
    → h.0 < 256
    → h.1 < 256
    → (lan_network < lan_vip h) × (lan_vip h < lan_network + 65535)
unfolding lan_vip
lan_vip-inside h hi lo = ground arith

is_accepted-accepted : (s : FriendState) → is_accepted s ≡ true → s ≡ accepted
is_accepted-accepted unset h = absurd (ground (arith, h))
is_accepted-accepted pending h = absurd (ground (arith, h))
is_accepted-accepted incoming h = absurd (ground (arith, h))
is_accepted-accepted accepted h = refl
is_accepted-accepted blocked h = absurd (ground (arith, h))

-- The peer is an accepted friend of the book, not we ourselves, not excluded, and its address is `v`.
abbrev pub Member : (ℕ → ℕ × ℕ) → ℕ → List ℕ → ℕ → ℕ → Map Contact → Type 0
Member hash self excluded v pid [] = ⊥
Member hash self excluded v pid ((j, c) ∷ contacts) =
    ((j ≡ pid)
      × (c.state ≡ accepted)
      × (pid ≢ self)
      × (contains pid excluded ≡ false)
      × (lan_vip (hash pid) ≡ v))
    ⊎ Member hash self excluded v pid contacts

routed-put :
    (v vip j pid : ℕ) (routes : Map ℕ)
    → get v (put vip j routes) ≡ some pid
    → ((j ≡ pid) × (vip ≡ v)) ⊎ (get v routes ≡ some pid)
routed-put v vip j pid routes h = elim (Bool-cases (vip == v)) [
  | inl e ↦
      let found : some j ≡ some pid = sym (get-put vip v j routes ∙ rw e refl) ∙ h in
      inl (ap (λ o. elim o [ none ↦ j | some x ↦ x ]) found, ground (arith, e))
  | inr e ↦ inr (sym (get-put vip v j routes ∙ rw e refl) ∙ h)
]

put-Member :
    (hash : ℕ → ℕ × ℕ) (self v pid : ℕ) (excluded : List ℕ) (j : ℕ) (c : Contact)
    (contacts : Map Contact) (routes : Map ℕ)
    → on_lan self excluded j c ≡ true
    → Member hash self excluded v pid contacts
      ⊎ (get v (put (lan_vip (hash j)) j routes) ≡ some pid)
    → Member hash self excluded v pid ((j, c) ∷ contacts) ⊎ (get v routes ≡ some pid)
put-Member hash self v pid excluded j c contacts routes e (inl m) = inl (inr m)
put-Member hash self v pid excluded j c contacts routes e (inr g) =
    elim (routed-put v (lan_vip (hash j)) j pid routes g) [
      | inl (same, at) ↦
          let friend : c.state ≡ accepted = is_accepted-accepted c.state (ground (arith, e)) in
          let other : pid ≢ self = λ is. ground (arith, e, same, is) in
          let apart : contains pid excluded ≡ false =
            ap (λ k. contains k excluded) (sym same) ∙ ground (arith, e) in
          inl (inl (same, friend, other, apart, ap (λ k. lan_vip (hash k)) (sym same) ∙ at))
      | inr before ↦ inr before
    ]

skip-Member :
    (hash : ℕ → ℕ × ℕ) (self v pid : ℕ) (excluded : List ℕ) (j : ℕ) (c : Contact)
    (contacts : Map Contact) (routes : Map ℕ)
    → Member hash self excluded v pid contacts ⊎ (get v routes ≡ some pid)
    → Member hash self excluded v pid ((j, c) ∷ contacts) ⊎ (get v routes ≡ some pid)
skip-Member hash self v pid excluded j c contacts routes (inl m) = inl (inr m)
skip-Member hash self v pid excluded j c contacts routes (inr g) = inr g

abbrev pub routes_of : Option (ℕ × Map ℕ) → Map ℕ
routes_of none = []
routes_of (some (own, routes)) = routes

lan_routes-Member :
    (hash : ℕ → ℕ × ℕ) (self v pid : ℕ) (excluded : List ℕ) (contacts : Map Contact)
    (routes : Map ℕ)
    → get v (lan_routes hash self excluded contacts routes) ≡ some pid
    → Member hash self excluded v pid contacts ⊎ (get v routes ≡ some pid)
unfolding lan_routes
lan_routes-Member hash self v pid excluded [] routes h = inr h
lan_routes-Member hash self v pid excluded ((j, c) ∷ contacts) routes h =
    let rest : Bool → Map ℕ = λ b.
      lan_routes hash self excluded contacts
        (if b then put (lan_vip (hash j)) j routes else routes) in
    elim (Bool-cases (on_lan self excluded j c)) [
      | inl e ↦
          let h' : get v (rest true) ≡ some pid = ap (λ b. get v (rest b)) (sym e) ∙ h in
          put-Member hash self v pid excluded j c contacts routes e (
            lan_routes-Member hash self v pid excluded contacts (put (lan_vip (hash j)) j routes)
              h')
      | inr e ↦
          let h' : get v (rest false) ≡ some pid = ap (λ b. get v (rest b)) (sym e) ∙ h in
          skip-Member hash self v pid excluded j c contacts routes
            (lan_routes-Member hash self v pid excluded contacts routes h')
    ]

-- Every route of the LAN leads to an accepted friend that is not excluded and is not ourselves, at
-- that friend's own address.
pub lan_config_from-Member :
    (hash : ℕ → ℕ × ℕ) (self v pid : ℕ) (s : Social) (excluded : List ℕ)
    → get v (routes_of (lan_config_from hash self (some s) excluded)) ≡ some pid
    → Member hash self excluded v pid s.contacts
unfolding lan_config_from
lan_config_from-Member hash self v pid s excluded h =
    elim (lan_routes-Member hash self v pid excluded s.contacts [] h) [
      | inl m ↦ m
      | inr e ↦ absurd (ground (arith, e))
    ]

-- The peer is in the book as one of the LAN, and no other peer of the LAN has its address.
abbrev pub listed : ℕ → List ℕ → ℕ → Map Contact → Bool
listed self excluded pid [] = false
listed self excluded pid ((j, c) ∷ contacts) =
    (j == pid && on_lan self excluded j c) || listed self excluded pid contacts

abbrev pub alone : (ℕ → ℕ × ℕ) → ℕ → List ℕ → ℕ → Map Contact → Bool
alone hash self excluded pid [] = true
alone hash self excluded pid ((j, c) ∷ contacts) =
    (j == pid || not (on_lan self excluded j c) || not (lan_vip (hash j) == lan_vip (hash pid)))
    && alone hash self excluded pid contacts

put-reaches :
    (hash : ℕ → ℕ × ℕ) (pid j : ℕ) (routes : Map ℕ) (later : Bool)
    → (j == pid || not (lan_vip (hash j) == lan_vip (hash pid))) ≡ true
    → ((j == pid || later) ≡ true) ⊎ (get (lan_vip (hash pid)) routes ≡ some pid)
    → (later ≡ true) ⊎ (get (lan_vip (hash pid)) (put (lan_vip (hash j)) j routes) ≡ some pid)
put-reaches hash pid j routes later a h = elim (Bool-cases (j == pid)) [
  | inl e ↦
      let is : j ≡ pid = ground (arith, e) in
      let hit : (lan_vip (hash j) == lan_vip (hash pid)) ≡ true =
        ground (arith, ap (λ i. lan_vip (hash i)) is) in
      inr (get-put (lan_vip (hash j)) (lan_vip (hash pid)) j routes ∙ rw hit (ap some is))
  | inr e ↦
      let miss : (lan_vip (hash j) == lan_vip (hash pid)) ≡ false = ground (arith, a, e) in
      elim h [
        | inl l ↦ inl (ground (arith, l, e))
        | inr g ↦ inr (get-put (lan_vip (hash j)) (lan_vip (hash pid)) j routes ∙ rw miss g)
      ]
]

listed-head :
    (here on later : Bool) (T : Type 0)
    → on ≡ true
    → (((here && on) || later) ≡ true) ⊎ T
    → ((here || later) ≡ true) ⊎ T
listed-head here on later T e (inl l) = inl (ground (arith, l, e))
listed-head here on later T e (inr t) = inr t

listed-skip :
    (here on later : Bool) (T : Type 0)
    → on ≡ false
    → (((here && on) || later) ≡ true) ⊎ T
    → (later ≡ true) ⊎ T
listed-skip here on later T e (inl l) = inl (ground (arith, l, e))
listed-skip here on later T e (inr t) = inr t

lan_routes-reaches :
    (hash : ℕ → ℕ × ℕ) (self pid : ℕ) (excluded : List ℕ) (contacts : Map Contact) (routes : Map ℕ)
    → alone hash self excluded pid contacts ≡ true
    → (listed self excluded pid contacts ≡ true) ⊎ (get (lan_vip (hash pid)) routes ≡ some pid)
    → get (lan_vip (hash pid)) (lan_routes hash self excluded contacts routes) ≡ some pid
unfolding lan_routes
lan_routes-reaches hash self pid excluded [] routes a (inl l) = absurd (ground (arith, l))
lan_routes-reaches hash self pid excluded [] routes a (inr g) = g
lan_routes-reaches hash self pid excluded ((j, c) ∷ contacts) routes a h =
    let v : ℕ = lan_vip (hash pid) in
    let later : alone hash self excluded pid contacts ≡ true = ground (arith, a) in
    elim (Bool-cases (on_lan self excluded j c)) [
      | inl e ↦ rw e (
          lan_routes-reaches hash self pid excluded contacts (put (lan_vip (hash j)) j routes) later
            (put-reaches hash pid j routes (listed self excluded pid contacts)
              (ground (arith, a, e))
              (listed-head (j == pid) (on_lan self excluded j c) (listed self excluded pid contacts)
                _ e h)))
      | inr e ↦ rw e (
          lan_routes-reaches hash self pid excluded contacts routes later (
            listed-skip (j == pid) (on_lan self excluded j c) (listed self excluded pid contacts) _
              e h))
    ]

-- An accepted friend that is not excluded and whose address no other one has is reached at its address.
pub lan_config_from-reaches :
    (hash : ℕ → ℕ × ℕ) (self pid : ℕ) (s : Social) (excluded : List ℕ)
    → listed self excluded pid s.contacts ≡ true
    → alone hash self excluded pid s.contacts ≡ true
    → get (lan_vip (hash pid)) (routes_of (lan_config_from hash self (some s) excluded)) ≡ some pid
unfolding lan_config_from
lan_config_from-reaches hash self pid s excluded l a =
    lan_routes-reaches hash self pid excluded s.contacts [] a (inl l)
