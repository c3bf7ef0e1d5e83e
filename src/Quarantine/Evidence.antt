-- ===== src/Quarantine/Evidence.antt =====
-- Why quarantine.go takes a peer out.
use vidya_god_ipfs.Prelude.{
  ℕ, ◌-◌, ◌≤◌, ◌≡◌, ◌≢◌, refl, Bool, true, false, not, ◌&&◌, ◌||◌, ◌⊎◌, inl, inr, List, [], ◌∷◌,
  ◌++◌, arith, ltb, ◌==◌, contains, is_empty, if◌then◌else◌, Map, get, In, get-delete, Bool-cases,
  Option-cases,
}
use vidya_god_ipfs.Quarantine.Ledger.{
  Ledger, Net, hold, held, out_at, offers, other_than, offered_elsewhere, without, forget_have,
  drop_offers,
}
use vidya_god_ipfs.Quarantine.Scan.{
  Scanned, tally, sits, take_out, bring_back, scan_peer, scan_peers, scan,
}

contains-without :
    (o p : ℕ) (xs : List ℕ) → contains o (without p xs) ≡ (not (p == o) && contains o xs)
contains-without o p [] = ground arith
contains-without o p (x ∷ xs) = ground (arith, contains-without o p xs)

is_empty-contains : (o : ℕ) (xs : List ℕ) → is_empty xs ≡ true → contains o xs ≡ false
is_empty-contains o [] h = refl
is_empty-contains o (x ∷ xs) h = cc

-- Who offers what after a peer's offer is forgotten.
pub offers-forget_have :
    (o c d p : ℕ) (h : Map (List ℕ))
    → contains o (offers d (forget_have c p h))
      ≡ (if c == d then not (p == o) && contains o (offers d h) else contains o (offers d h))
unfolding forget_have
offers-forget_have o c d p h = elim (Option-cases (get c h)) [
  | inl e ↦ ground (arith, e)
  | inr (who, e) ↦
      ground
        (arith, e, get-delete c d h, contains-without o p who, is_empty-contains o (without p who))
]

pub drop_offers-le :
    (o d p : ℕ) (cs : List ℕ) (h : Map (List ℕ))
    → contains o (offers d (drop_offers p cs h)) ≡ true
    → contains o (offers d h) ≡ true
unfolding drop_offers
drop_offers-le o d p [] h t = t
drop_offers-le o d p (c ∷ cs) h t =
    ground (arith, drop_offers-le o d p cs (forget_have c p h), offers-forget_have o c d p h)

-- What a peer sat on, and who else offers it.
pub record Evidence (now p : ℕ) (q : Net) : Type 0 where
  pub ledger : Ledger
  pub entry : In p ledger q.peers
  pub still_there : (ledger.linked ≡ true) ⊎ (held ledger now ≡ true)
  pub in_rotation : out_at ledger now ≡ false
  pub silent : hold ledger ≤ now - ledger.progress
  pub cid : ℕ
  pub since : ℕ
  pub want : In cid since ledger.wanted
  pub long : hold ledger ≤ now - since
  pub other : ℕ
  pub different : other ≢ p
  pub offer : contains other (offers cid q.haves) ≡ true

other_than-some :
    (p : ℕ) (xs : List ℕ) → other_than p xs ≡ true → (o : ℕ) × (o ≢ p) × (contains o xs ≡ true)
other_than-some p [] h = cc
other_than-some p (x ∷ xs) h = elim (Bool-cases (x == p)) [
  | inl e ↦ let (o, d, c) = other_than-some p xs (ground arith) in (o, d, ground arith)
  | inr e ↦ (x, ground arith, ground arith)
]

tally-offered :
    (now hold p : ℕ) (haves : Map (List ℕ)) (m : Map ℕ)
    → (tally now hold p haves m).1 ≡ true
    → (c t : ℕ) × In c t m × (hold ≤ now - t) × (offered_elsewhere c p haves ≡ true)
unfolding tally
tally-offered now hold p haves [] h = cc
tally-offered now hold p haves ((c, t) ∷ m) h = elim (Bool-cases (ltb (now - t) hold)) [
  | inl recent ↦
      let (d, u, i, l, o) = tally-offered now hold p haves m (ground arith) in (d, u, inr i, l, o)
  | inr long ↦ elim (Bool-cases (tally now hold p haves m).1) [
    | inl later ↦
        let (d, u, i, l, o) = tally-offered now hold p haves m later in (d, u, inr i, l, o)
    | inr none_later ↦ (c, t, inl (refl, refl), ground arith, ground arith)
  ]
]

sits-Evidence :
    (now p : ℕ) (l : Ledger) (haves : Map (List ℕ)) (q : Net)
    → In p l q.peers
    → ((l.linked ≡ true) ⊎ (held l now ≡ true))
    → ((o d : ℕ) → contains o (offers d haves) ≡ true → contains o (offers d q.haves) ≡ true)
    → sits now p l haves ≡ true
    → Evidence now p q
unfolding sits offered_elsewhere
sits-Evidence now p l haves q i still le h =
    let (c, t, w, long, o) = tally-offered now (hold l) p haves l.wanted (ground arith) in
    let (other, d, off) = other_than-some p (offers c haves) o in
    record {
      ledger = l;
      entry = i;
      still_there = still;
      in_rotation = ground arith;
      silent = ground arith;
      cid = c;
      since = t;
      want = w;
      long = long;
      other = other;
      different = d;
      offer = le other c off;
    }

contains-append :
    (a : ℕ) (xs ys : List ℕ) → contains a (xs ++ ys) ≡ (contains a xs || contains a ys)
contains-append a [] ys = refl
contains-append a (x ∷ xs) ys = ground (arith, contains-append a xs ys)

-- One round: it adds its own peer at most, on evidence, and offers only go.
scan_peer-outs :
    (now : ℕ) (apply : Bool) (p a : ℕ) (l : Ledger) (s : Scanned)
    → contains a (scan_peer now apply p l s).outs ≡ true
    → (contains a s.outs ≡ true)
      ⊎ ((p ≡ a) × (sits now p l s.net.haves ≡ true) × ((l.linked ≡ true) ⊎ (held l now ≡ true)))
unfolding scan_peer
scan_peer-outs now apply p a l s h = ground (arith, contains-append a s.outs (p ∷ []))

scan_peer-offers :
    (now : ℕ) (apply : Bool) (p : ℕ) (l : Ledger) (s : Scanned) (o d : ℕ)
    → contains o (offers d (scan_peer now apply p l s).net.haves) ≡ true
    → contains o (offers d s.net.haves) ≡ true
unfolding scan_peer take_out bring_back
scan_peer-offers now apply p l s o d h = ground (arith, drop_offers-le o d p l.asked s.net.haves)

scan_peers-Evidence :
    (now : ℕ) (apply : Bool) (q : Net) (rest : Map Ledger) (s : Scanned) (a : ℕ)
    → ((p : ℕ) (l : Ledger) → In p l rest → In p l q.peers)
    → ((o d : ℕ) → contains o (offers d s.net.haves) ≡ true → contains o (offers d q.haves) ≡ true)
    → contains a (scan_peers now apply rest s).outs ≡ true
    → (contains a s.outs ≡ true) ⊎ Evidence now a q
unfolding scan_peers
scan_peers-Evidence now apply q [] s a sub le h = inl h
scan_peers-Evidence now apply q ((p, l) ∷ rest) s a sub le h =
    elim (scan_peers-Evidence now apply q rest (scan_peer now apply p l s) a
      (λ p' l' i. sub p' l' (inr i)) (λ o d c. le o d (scan_peer-offers now apply p l s o d c)) h) [
        | inr ev ↦ inr ev
        | inl early ↦ elim (scan_peer-outs now apply p a l s early) [
          | inl before ↦ inl before
          | inr (e, sat, still) ↦ inr (
              rw (← e)
                (sits-Evidence now p l s.net.haves q (sub p l (inl (refl, refl))) still le sat))
        ]
      ]

-- A peer that a scan takes out is in the rotation and not gone, has delivered nothing for its hold
-- time, and has held for that long a want-block for which another peer has said HAVE: a sole
-- provider is never taken out.
pub scan-Evidence :
    (now : ℕ) (apply : Bool) (q : Net) (p : ℕ)
    → contains p (scan now apply q).outs ≡ true
    → Evidence now p q
unfolding scan
scan-Evidence now apply q p h =
    elim (scan_peers-Evidence now apply q q.peers _ p (λ _ _ i. i) (λ _ _ c. c) h) [
      | inl e ↦ cc
      | inr ev ↦ ev
    ]
