-- ===== src/Quarantine/Strike.antt =====
-- What taking a peer out leaves behind, and what the end of its cooldown does.
use vidya_god_ipfs.Prelude.{
  ℕ, ◌+◌, ◌≤◌, ◌<◌, ◌≡◌, refl, Bool, true, false, not, ◌&&◌, ◌||◌, none, some, List, [], ◌∷◌, arith,
  ◌==◌, contains, has, if◌then◌else◌, Map, get, put, get-delete, get-put, Bool-cases, inl, inr,
}
use vidya_god_ipfs.Quarantine.Ledger.{
  Ledger, Net, out_at, offers, forget_have, drop_offers, ledger_of,
}
use vidya_god_ipfs.Quarantine.Message.{Messages, Entry}
use vidya_god_ipfs.Quarantine.Scan.{Call, owe, take_out, cooldown, strikes_of}
use vidya_god_ipfs.Quarantine.Traffic.{Noted, note_entry, note_entries, receive_message, admit}
use vidya_god_ipfs.Quarantine.Evidence.{offers-forget_have, drop_offers-le}

get-owe :
    (c p : ℕ) (haves : Map (List ℕ)) (m : Map ℕ) (owed : Map Bool)
    → get c (owe p haves m owed)
      ≡ (if has c m then some (contains p (offers c haves)) else get c owed)
unfolding owe
get-owe c p haves [] owed = refl
get-owe c p haves ((d, t) ∷ m) owed = ground (
  arith,
  get-owe c p haves m (put d (contains p (offers d haves)) owed),
  get-put d c (contains p (offers d haves)) owed,
)

drop_offers-gone :
    (p c : ℕ) (cs : List ℕ) (h : Map (List ℕ))
    → contains c cs ≡ true
    → contains p (offers c (drop_offers p cs h)) ≡ false
unfolding drop_offers
drop_offers-gone p c [] h e = cc
drop_offers-gone p c (d ∷ cs) h e = elim (Bool-cases (contains c cs)) [
  | inl later ↦ drop_offers-gone p c cs (forget_have d p h) later
  | inr here ↦
      ground (arith, drop_offers-le p c p cs (forget_have d p h), offers-forget_have p c d p h)
]

-- Taken out, a peer is out of the client's rotation for its whole cooldown, nothing is wanted of it
-- any more, it owes every want-block it held, marked by whether it had said HAVE, and none of the
-- blocks it was asked for counts as offered by it.
pub take_out_lem :
    (now p : ℕ) (l : Ledger) (q : Net) (c t : ℕ)
    → t < cooldown (strikes_of p q.records)
    → let q' = take_out now p l q in
      let l' = ledger_of q' p now in
      (out_at l' (now + t) ≡ true)
      × (l'.wanted ≡ [])
      × (has c l.wanted ≡ true → get c l'.owed ≡ some (contains p (offers c q.haves)))
      × (contains c l.asked ≡ true → contains p (offers c q'.haves) ≡ false)
unfolding take_out
take_out_lem now p l q c t h =
    ground (arith, get-owe c p q.haves l.wanted l.owed, drop_offers-gone p c l.asked q.haves)

-- Between the end of a peer's cooldown and the next scan, a message from it is passed on whole and
-- the client is not told first that the peer is back.
pub expired_unannounced :
    (bs : Messages) (now later p : ℕ) (m : bs.Msg) (l : Ledger) (q : Net)
    → now + cooldown (strikes_of p q.records) ≤ later
    → (receive_message bs later p m (take_out now p l q)).1 ≡ Call.deliver p m ∷ []
unfolding take_out receive_message admit
expired_unannounced bs now later p m l q h = ground arith

-- One entry that is sent: a cancel ends the want, a want-block starts its clock once, unless the peer
-- is out, and every other want keeps the time it has.
pub wanted-note_entry :
    (now : ℕ) (out : Bool) (e : Entry) (n : Noted) (c : ℕ)
    → get c (note_entry now out e n).ledger.wanted ≡ (
        if not (e.cid == c)
        then get c n.ledger.wanted
        else if e.cancel
        then none
        else if not (has c n.ledger.wanted) && e.want_block && not out
        then some now
        else get c n.ledger.wanted)
unfolding note_entry
wanted-note_entry now out e n c =
    ground (arith, get-delete e.cid c n.ledger.wanted, get-put e.cid c now n.ledger.wanted)

abbrev cancels : ℕ → List Entry → Bool
cancels c [] = false
cancels c (e ∷ es) = (e.cid == c && e.cancel) || cancels c es

-- A want-block that is sent again, and not cancelled, keeps the time at which it was first sent, so
-- its peer cannot be given a fresh start by being asked again.
pub resent_keeps_time :
    (now : ℕ) (out : Bool) (es : List Entry) (n : Noted) (c t : ℕ)
    → get c n.ledger.wanted ≡ some t
    → cancels c es ≡ false
    → get c (note_entries now out es n).ledger.wanted ≡ some t
unfolding note_entries
resent_keeps_time now out [] n c t h k = h
resent_keeps_time now out (e ∷ es) n c t h k =
    resent_keeps_time now out es (note_entry now out e n) c t
      (ground (arith, wanted-note_entry now out e n c)) (ground arith)
