-- ===== src/Providing/Settled.antt =====
-- What becomes of the keys that were handed over: settled, sent back, or still waiting.
use vidya_god_ipfs.Prelude.{
  ℕ, ◌≡◌, refl, sym, ap, ◌∙◌, Bool, true, false, not, ◌&&◌, ◌||◌, List, [], ◌∷◌, arith, ltb, ◌==◌,
  contains, is_empty, Map, put, delete, has, get-put, get-delete, Bool-cases, both_branches, inl,
  inr,
}
use vidya_god_ipfs.Providing.State.{
  Providing, World, announced_in, set_refile, set_announced, is_announced, note_readiness, online,
}
use vidya_god_ipfs.Providing.Flush.{is_forced}
use vidya_god_ipfs.Providing.Confirm.{
  settle, settled, settle_one, settles, settle_all, confirm_unconfirmed, drained,
}
use vidya_god_ipfs.Providing.Remember.{store-settle}
use vidya_god_ipfs.Providing.Marks.{has_store, announced-set_announced, announced-set_refile}

-- The key was handed over after a time.
abbrev pub handed_after : ℕ → ℕ → Map ℕ → Bool
handed_after time k [] = false
handed_after time k ((j, at) ∷ m) = (k == j && ltb time at) || handed_after time k m

lost-settle_one :
    (w : World) (k at : ℕ) (st : Providing) → (settle_one w k at st).lost_before ≡ st.lost_before
lost-settle_one w k at st =
    both_branches (λ (s : Providing). s.lost_before ≡ st.lost_before) (has k st.unconfirmed) _ st
      (both_branches (λ (s : Providing). s.lost_before ≡ st.lost_before) (settles w at st)
        (record st { unconfirmed = delete k st.unconfirmed })
        (record st { unconfirmed = delete k st.unconfirmed; pending = put k true st.pending }) refl
        refl)
      refl

-- Only a key that was handed over after the last loss is settled, while the provider is not offline.
settled-handed_after :
    (w : World) (k : ℕ) (snap : Map ℕ) (st : Providing)
    → (not (contains k (settled w snap st)) || (w.measured && handed_after st.lost_before k snap))
      ≡ true
unfolding settled
settled-handed_after w k [] st = refl
settled-handed_after w k ((j, at) ∷ snap) st =
    let rest : (not (contains k (settled w snap (settle_one w j at st)))
          || (w.measured && handed_after st.lost_before k snap))
        ≡ true =
      ap
        (λ t.
          not (contains k (settled w snap (settle_one w j at st)))
          || (w.measured && handed_after t k snap))
        (sym (lost-settle_one w j at st))
      ∙ settled-handed_after w k snap (settle_one w j at st) in
    ground (arith, rest)

-- Where a key that was handed over is, before and after it is settled.
abbrev pub waits : ℕ → Providing → Bool
waits k st = has k st.unconfirmed || is_forced k st.pending

has-delete : (k j : ℕ) (m : Map ℕ) → has k (delete j m) ≡ (not (j == k) && has k m)
has-delete k j m = elim (Bool-cases (j == k)) [
  | inl e ↦ rw (get-delete j k m, e, has) refl
  | inr e ↦ rw (get-delete j k m, e, has) refl
]

is_forced-put : (k j : ℕ) (m : Map Bool) → is_forced k (put j true m) ≡ (j == k || is_forced k m)
is_forced-put k j m = elim (Bool-cases (j == k)) [
  | inl e ↦ rw (get-put j k true m, e, is_forced) refl
  | inr e ↦ rw (get-put j k true m, e, is_forced) refl
]

waits-settle_one :
    (w : World) (k j at : ℕ) (st : Providing)
    → (not (waits k st)
        || waits k (settle_one w j at st)
        || (k == j && (has j st.unconfirmed && settles w at st)))
      ≡ true
waits-settle_one w k j at st = elim (Bool-cases (has j st.unconfirmed)) [
  | inl e ↦ elim (Bool-cases (settles w at st)) [
    | inl t ↦ rw (e, t, settle_one) (ground (arith, has-delete k j st.unconfirmed))
    | inr t ↦
        rw (e, t, settle_one)
          (ground (arith, has-delete k j st.unconfirmed, is_forced-put k j st.pending))
  ]
  | inr e ↦ rw (e, settle_one) (ground arith)
]

waits-settle :
    (w : World) (k : ℕ) (snap : Map ℕ) (st : Providing)
    → (not (waits k st) || waits k (settle w snap st) || contains k (settled w snap st)) ≡ true
unfolding settle settled
waits-settle w k [] st = ground arith
waits-settle w k ((j, at) ∷ snap) st =
    ground (arith, waits-settle_one w k j at st, waits-settle w k snap (settle_one w j at st))

announced-settle_all :
    (w : World) (k : ℕ) (snap : Map ℕ) (st : Providing)
    → w.commits ≡ true
    → has_store st.store ≡ true
    → is_announced k (settle_all w snap st) ≡ (contains k (settled w snap st) || is_announced k st)
unfolding settle_all set_refile set_announced is_announced
announced-settle_all w k snap st c h =
    let keys : List ℕ = settled w snap st in
    let st1 : Providing = settle w snap st in
    let same : st1.store ≡ st.store = store-settle w snap st in
    let st2 : Providing = set_announced w keys true st1 in
    announced-set_refile w k keys false st2.store
    ∙ announced-set_announced w k keys true st1.store c (ap has_store same ∙ h)
    ∙ ap (λ o. contains k keys || announced_in k o) same

moved :
    (w : World) (k : ℕ) (snap : Map ℕ) (st : Providing)
    → waits k (settle_all w snap st) ≡ waits k (settle w snap st)
unfolding settle_all set_refile set_announced
moved w k snap st = refl

waits-settle_all :
    (w : World) (k : ℕ) (snap : Map ℕ) (st : Providing)
    → w.commits ≡ true
    → has_store st.store ≡ true
    → (not (waits k st) || waits k (settle_all w snap st) || is_announced k (settle_all w snap st))
      ≡ true
waits-settle_all w k snap st c h =
    let same : waits k (settle_all w snap st) ≡ waits k (settle w snap st) = moved w k snap st in
    ground (arith, same, announced-settle_all w k snap st c h, waits-settle w k snap st)

-- No key, region or running reprovide is left in the provider's queues.
abbrev pub is_empty_queues : World → Bool
is_empty_queues w =
    w.pending_keys == 0 && w.pending_regions == 0 && w.key_provides == 0 && w.region_provides == 0

-- What is asked of a state after `st`: a key that is announced was so before, or was handed over
-- after the last loss while the provider's queues have drained; a key that waits still waits, or
-- is announced.
abbrev pub Settles : World → ℕ → Providing → Providing → Type 0
Settles w k st s =
    ((not (is_announced k s)
        || is_announced k st
        || (w.measured && is_empty_queues w && handed_after st.lost_before k st.unconfirmed))
      ≡ true)
    × ((not (waits k st) || waits k s || is_announced k s) ≡ true)

settle_all-Settles :
    (w : World) (k : ℕ) (st : Providing)
    → (w.measured && not (drained w)) ≡ false
    → w.commits ≡ true
    → has_store st.store ≡ true
    → Settles w k st (settle_all w st.unconfirmed st)
settle_all-Settles w k st e c h =
    let snap : Map ℕ = st.unconfirmed in
    (
      ground (arith, e, announced-settle_all w k snap st c h, settled-handed_after w k snap st),
      waits-settle_all w k snap st c h,
    )

-- With a datastore whose batches commit, a reading of the provider's state settles a key only where the
-- provider is not offline, each of its four queues is empty, and the key was handed over after the provider last lost its queue; and it loses no
-- key: one that waited to be confirmed waits on, is sent back to be handed over by force, or is
-- recorded as announced.
pub confirm_unconfirmed-Settles :
    (w : World) (k : ℕ) (st : Providing)
    → w.commits ≡ true
    → has_store st.store ≡ true
    → Settles w k st (confirm_unconfirmed w st)
unfolding confirm_unconfirmed note_readiness is_announced
confirm_unconfirmed-Settles w k st c h =
    let noted : Providing = note_readiness w (online w) st in
    let snap : Map ℕ = st.unconfirmed in
    let same : Settles w k st st = (ground arith, ground arith) in
    elim (Bool-cases (not st.provider || is_empty snap)) [
      | inl e ↦ rw (e, confirm_unconfirmed) same
      | inr e ↦ elim (Bool-cases (w.failed || w.closed)) [
        | inl e' ↦ rw (e, e', confirm_unconfirmed) same
        | inr e' ↦ elim (Bool-cases (w.measured && not (drained w))) [
          | inl e'' ↦ rw (e, e', e'', confirm_unconfirmed) same
          | inr e'' ↦ rw (e, e', e'', confirm_unconfirmed) (settle_all-Settles w k noted e'' c h)
        ]
      ]
    ]
