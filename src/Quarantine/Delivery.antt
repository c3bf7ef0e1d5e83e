-- ===== src/Quarantine/Delivery.antt =====
-- What of a peer's message reaches bitswap, and what the client is told first.
use vidya_god_ipfs.Prelude.{
  ℕ, ◌≡◌, refl, ◌∙◌, true, false, not, ◌&&◌, ◌||◌, some, List, [], ◌∷◌, arith, contains, is_empty,
  if◌then◌else◌,
}
use vidya_god_ipfs.Quarantine.Ledger.{Ledger, Net, held, out_at, ledger_of}
use vidya_god_ipfs.Quarantine.Message.{
  Messages, Entry, wants_only, without_haves, add_wants, add_blocks, add_dont_haves,
}
use vidya_god_ipfs.Quarantine.Scan.{Call}
use vidya_god_ipfs.Quarantine.Traffic.{pay, admit, receive_message, pay_dont_haves, pay_dont_have}

pay_dont_have-standing :
    (c : ℕ) (l : Ledger)
    → ((pay_dont_have c l).until ≡ l.until)
      × ((pay_dont_have c l).probation ≡ l.probation)
      × ((pay_dont_have c l).linked ≡ l.linked)
unfolding pay_dont_have
pay_dont_have-standing c l = ground arith

module _ (bs : Messages) where
  open bs use {
    Msg, full, wantlist, blocks, haves, dont_haves, new, add_cancel, add_entry, add_block,
    add_dont_have, blocks-new, haves-new, dont_haves-new, blocks-add_cancel, haves-add_cancel,
    dont_haves-add_cancel, blocks-add_entry, haves-add_entry, dont_haves-add_entry,
    contains-add_block, haves-add_block, blocks-add_dont_have, haves-add_dont_have,
    blocks-set_pending_bytes, haves-set_pending_bytes,
  }

  blocks-add_wants : (es : List Entry) (w : Msg) → blocks (add_wants bs es w) ≡ blocks w
  blocks-add_wants [] w = refl
  blocks-add_wants (e ∷ es) w =
      blocks-add_wants es _ ∙ ground (arith, blocks-add_cancel e.cid w, blocks-add_entry e w)

  haves-add_wants : (es : List Entry) (w : Msg) → haves (add_wants bs es w) ≡ haves w
  haves-add_wants [] w = refl
  haves-add_wants (e ∷ es) w =
      haves-add_wants es _ ∙ ground (arith, haves-add_cancel e.cid w, haves-add_entry e w)

  dont_haves-add_wants : (es : List Entry) (w : Msg) → dont_haves (add_wants bs es w) ≡ dont_haves w
  dont_haves-add_wants [] w = refl
  dont_haves-add_wants (e ∷ es) w =
      dont_haves-add_wants es _
      ∙ ground (arith, dont_haves-add_cancel e.cid w, dont_haves-add_entry e w)

  -- `wantsOnly` says nothing to the client.
  wants_only-says_nothing :
      (m : Msg)
      → (blocks (wants_only bs m) ≡ [])
        × (haves (wants_only bs m) ≡ [])
        × (dont_haves (wants_only bs m) ≡ [])
  unfolding wants_only
  wants_only-says_nothing m = (
    blocks-add_wants (wantlist m) _ ∙ blocks-new (full m),
    haves-add_wants (wantlist m) _ ∙ haves-new (full m),
    dont_haves-add_wants (wantlist m) _ ∙ dont_haves-new (full m),
  )

  haves-add_blocks : (xs : List ℕ) (w : Msg) → haves w ≡ [] → haves (add_blocks bs xs w) ≡ []
  haves-add_blocks [] w h = h
  haves-add_blocks (b ∷ xs) w h = haves-add_blocks xs _ (haves-add_block b w h)

  haves-add_dont_haves :
      (xs : List ℕ) (w : Msg) → haves w ≡ [] → haves (add_dont_haves bs xs w) ≡ []
  haves-add_dont_haves [] w h = h
  haves-add_dont_haves (b ∷ xs) w h = haves-add_dont_haves xs _ (haves-add_dont_have b w h)

  haves-without_haves : (m : Msg) → haves (without_haves bs m) ≡ []
  unfolding without_haves
  haves-without_haves m =
      haves-set_pending_bytes _ _
      ∙ haves-add_dont_haves (dont_haves m) _
          (haves-add_blocks (blocks m) _ (wants_only-says_nothing m).1)

  blocks-add_dont_haves : (xs : List ℕ) (w : Msg) → blocks (add_dont_haves bs xs w) ≡ blocks w
  blocks-add_dont_haves [] w = refl
  blocks-add_dont_haves (b ∷ xs) w = blocks-add_dont_haves xs _ ∙ blocks-add_dont_have b w

  contains-add_blocks :
      (c : ℕ) (xs : List ℕ) (w : Msg)
      → contains c (blocks (add_blocks bs xs w)) ≡ (contains c xs || contains c (blocks w))
  contains-add_blocks c [] w = refl
  contains-add_blocks c (b ∷ xs) w =
      ground (arith, contains-add_blocks c xs (add_block b w), contains-add_block c b w)

  contains-without_haves :
      (c : ℕ) (m : Msg) → contains c (blocks (without_haves bs m)) ≡ contains c (blocks m)
  unfolding without_haves
  contains-without_haves c m = ground (
    arith,
    blocks-set_pending_bytes (bs.pending_bytes m)
        (add_dont_haves bs (dont_haves m) (add_blocks bs (blocks m) (wants_only bs m))),
    blocks-add_dont_haves (dont_haves m) (add_blocks bs (blocks m) (wants_only bs m)),
    contains-add_blocks c (blocks m) (wants_only bs m),
    wants_only-says_nothing m,
  )

  contains-not_empty : (c : ℕ) (xs : List ℕ) → contains c xs ≡ true → is_empty xs ≡ false
  contains-not_empty c [] h = cc
  contains-not_empty c (x ∷ xs) h = refl

  -- Nothing that a peer sends is thrown away: whatever its standing, a block of its message is in
  -- what is forwarded.
  pub admit-forwards_blocks :
      (now p : ℕ) (m : Msg) (q : Net) (c : ℕ)
      → contains c (blocks m) ≡ true
      → (f : Msg) × ((admit bs now p m q).forward ≡ some f) × (contains c (blocks f) ≡ true)
  unfolding admit
  admit-forwards_blocks now p m q c h =
      let l = ledger_of q p now in
      let f = if not (held l now) || is_empty (pay bs m l).owed then m else without_haves bs m in
      (
        f,
        ground (
          arith,
          contains-not_empty c (blocks m) h,
          contains-without_haves c m,
          contains-not_empty c (blocks (without_haves bs m)),
        ),
        ground (arith, contains-without_haves c m),
      )

  -- A peer that still owes after its message gets none of its HAVEs through.
  pub admit-holds_haves :
      (now p : ℕ) (m f : Msg) (q : Net)
      → held (ledger_of q p now) now ≡ true
      → is_empty (pay bs m (ledger_of q p now)).owed ≡ false
      → (admit bs now p m q).forward ≡ some f
      → haves f ≡ []
  unfolding admit
  admit-holds_haves now p m f q h o e =
      ground (arith, haves-without_haves m, wants_only-says_nothing m)

  pay_dont_haves-standing :
      (cs : List ℕ) (l : Ledger)
      → ((pay_dont_haves bs cs l).until ≡ l.until)
        × ((pay_dont_haves bs cs l).probation ≡ l.probation)
        × ((pay_dont_haves bs cs l).linked ≡ l.linked)
  unfolding pay_dont_haves
  pay_dont_haves-standing [] l = (refl, refl, refl)
  pay_dont_haves-standing (c ∷ cs) l =
      ground (arith, pay_dont_haves-standing cs (pay_dont_have c l), pay_dont_have-standing c l)

  -- Paying changes neither a peer's standing nor its connection.
  pay-standing :
      (m : Msg) (l : Ledger)
      → ((pay bs m l).until ≡ l.until)
        × ((pay bs m l).probation ≡ l.probation)
        × ((pay bs m l).linked ≡ l.linked)
  unfolding pay
  pay-standing m l = pay_dont_haves-standing (dont_haves m) _

  -- Out, with debts left and no block in the message: at most its wants go on, the client is told
  -- nothing, and it stays out.
  pub admit-keeps_out :
      (now p : ℕ) (m : Msg) (q : Net)
      → held (ledger_of q p now) now ≡ true
      → (ledger_of q p now).probation ≡ false
      → is_empty (pay bs m (ledger_of q p now)).owed ≡ false
      → is_empty (blocks m) ≡ true
      → ((admit bs now p m q).announce ≡ false)
        × (out_at (ledger_of (admit bs now p m q).net p now) now ≡ true)
        × ((f : Msg)
            → (admit bs now p m q).forward ≡ some f
            → (blocks f ≡ []) × (haves f ≡ []) × (dont_haves f ≡ []))
  unfolding admit
  admit-keeps_out now p m q h o e b = (
    ground arith,
    ground (arith, pay-standing m (ledger_of q p now)),
    λ f fe. ground (arith, wants_only-says_nothing m),
  )

  -- The client is told that the peer is back exactly when it was out, is connected, and has now
  -- delivered a block or paid in full.
  pub admit-announces :
      (now p : ℕ) (m : Msg) (q : Net)
      → (admit bs now p m q).announce ≡ (
          out_at (ledger_of q p now) now
          && (ledger_of q p now).linked
          && (is_empty (pay bs m (ledger_of q p now)).owed || not (is_empty (blocks m))))
  unfolding admit
  admit-announces now p m q = ground (arith, pay-standing m (ledger_of q p now))

  -- A block from a peer that is out and connected: the client is told that the peer is back, and
  -- only then given the message.
  pub receive_message-told_first :
      (now p : ℕ) (m : Msg) (q : Net) (c : ℕ)
      → out_at (ledger_of q p now) now ≡ true
      → (ledger_of q p now).linked ≡ true
      → contains c (blocks m) ≡ true
      → (f : Msg) × ((receive_message bs now p m q).1
          ≡ Call.client_connected p ∷ Call.deliver p f ∷ [])
        × (contains c (blocks f) ≡ true)
  unfolding receive_message
  receive_message-told_first now p m q c o l h =
      let (f, e, there) = admit-forwards_blocks now p m q c h in
      (f, ground (arith, e, admit-announces now p m q, contains-not_empty c (blocks m)), there)
