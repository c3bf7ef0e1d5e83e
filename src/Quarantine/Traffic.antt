-- ===== src/Quarantine/Traffic.antt =====
-- quarantine.go `noteSent`, `noteReceived`, `admit` and the wrapped network's receiver.
use vidya_god_ipfs.Prelude.{
  ℕ, ◌+◌, ◌-◌, ◌*◌, ◌/◌, Bool, true, false, not, ◌&&◌, ◌||◌, Option, none, some, List, [], ◌∷◌,
  ◌++◌, ltb, ◌==◌, is_empty, contains, if◌then◌else◌, Map, get, put, delete, has, ◌+◌,
}
use vidya_god_ipfs.Quarantine.Ledger.{
  Ledger, Net, quarantine_max_hold, ledger_of, held, out_at, offers, forget_have, drop_offers,
  without, add,
}
use vidya_god_ipfs.Quarantine.Message.{Entry, Messages, wants_only, without_haves}
use vidya_god_ipfs.Quarantine.Scan.{Call}

-- A ledger and the offers, as the loops change them.
pub record Noted : Type 0 where
  pub ledger : Ledger
  pub haves : Map (List ℕ)

-- One entry of a wantlist that was sent.
unfoldable pub note_entry : ℕ → Bool → Entry → Noted → Noted
note_entry now out e n =
    let l = n.ledger in
    if e.cancel
    then record {
      ledger = record l { wanted = delete e.cid l.wanted; asked = without e.cid l.asked };
      haves = delete e.cid n.haves;
    }
    else record {
      ledger = record l {
        asked = add e.cid l.asked;
        wanted =
            if not (has e.cid l.wanted) && e.want_block && not out
            then put e.cid now l.wanted
            else l.wanted;
      };
      haves = n.haves;
    }

unfoldable pub note_entries : ℕ → Bool → List Entry → Noted → Noted
note_entries now out [] n = n
note_entries now out (e ∷ es) n = note_entries now out es (note_entry now out e n)

unfoldable pub note_block : ℕ → Noted → Noted
note_block b n = record {
  ledger = record n.ledger { wanted = delete b n.ledger.wanted; asked = without b n.ledger.asked };
  haves = delete b n.haves;
}

unfoldable pub note_dont_have : ℕ → ℕ → Noted → Noted
note_dont_have p c n = record {
  ledger = record n.ledger { wanted = delete c n.ledger.wanted; asked = without c n.ledger.asked };
  haves = forget_have c p n.haves;
}

unfoldable pub note_have : ℕ → ℕ → Noted → Noted
note_have p c n =
    if contains c n.ledger.asked
    then record n { haves = put c (add p (offers c n.haves)) n.haves }
    else n

unfoldable pub fold_noted : (ℕ → Noted → Noted) → List ℕ → Noted → Noted
fold_noted f [] n = n
fold_noted f (c ∷ cs) n = fold_noted f cs (f c n)

-- The pace of a delivery: a new interval, averaged in; an idle gap is no pace.
unfoldable pub paced : ℕ → Ledger → Ledger
paced now l =
    let d = now - l.last_block in
    record l {
      gap =
          if not (l.last_block == 0) && ltb d quarantine_max_hold
          then (if l.gap == 0 then d else (3 * l.gap + d) / 4)
          else l.gap;
      progress = now;
      last_block = now;
    }

-- A DONT_HAVE settles the debt; it is a lie where the peer had said HAVE.
unfoldable pub pay_dont_have : ℕ → Ledger → Ledger
pay_dont_have c l = elim (get c l.owed) [
  | none ↦ l
  | some said ↦ record l { owed = delete c l.owed; denied = l.denied || said }
]

module _ (bs : Messages) where
  open bs use {Msg, full, wantlist, blocks, haves, dont_haves}

  unfoldable pub note_sent : ℕ → ℕ → Msg → Net → Net
  note_sent now p m q =
      let l = ledger_of q p now in
      let cleared : Noted =
        if full m
        then record {
          ledger = record l { wanted = []; asked = [] };
          haves = drop_offers p l.asked q.haves;
        }
        else record { ledger = l; haves = q.haves } in
      let n = note_entries now (out_at l now) (wantlist m) cleared in
      if is_empty (wantlist m)
      then q
      else record q { peers = put p n.ledger q.peers; haves = n.haves }

  unfoldable pub note_received : ℕ → ℕ → Msg → Noted → Noted
  note_received now p m n =
      let after =
        fold_noted (note_have p) (haves m)
          (fold_noted (note_dont_have p) (dont_haves m) (fold_noted note_block (blocks m) n)) in
      if is_empty (blocks m) then after else record after { ledger = paced now after.ledger }

  -- What its blocks and its DONT_HAVEs pay of what it owes.
  unfoldable pub pay_blocks : List ℕ → Map Bool → Map Bool
  pay_blocks [] owed = owed
  pay_blocks (b ∷ bs) owed = pay_blocks bs (delete b owed)

  unfoldable pub pay_dont_haves : List ℕ → Ledger → Ledger
  unfolding pay_dont_have
  pay_dont_haves [] l = l
  pay_dont_haves (c ∷ cs) l = pay_dont_haves cs (pay_dont_have c l)

  unfoldable pub pay : Msg → Ledger → Ledger
  unfolding pay_blocks pay_dont_haves
  pay m l = pay_dont_haves (dont_haves m) (record l { owed = pay_blocks (blocks m) l.owed })

  pub record Admitted : Type 0 where
    pub net : Net
    pub forward : Option Msg
    pub announce : Bool

  abbrev file : ℕ → Noted → Net → Net
  file p n q = record q { peers = put p n.ledger q.peers; haves = n.haves }

  -- Paid in full: back in, and its record cleared unless it denied a block it had said it had.
  unfoldable pub settle : ℕ → ℕ → Msg → Bool → Ledger → Net → Admitted
  settle now p m was_out l q = record {
    net =
        file p
          (note_received now p m
            (record { ledger = record l { until = 0; probation = false }; haves = q.haves }))
          (if l.denied then q else record q { records = delete p q.records });
    forward = some m;
    announce = was_out && l.linked;
  }

  -- It delivered, or was on probation: all but its HAVEs goes on.
  unfoldable pub on_probation : ℕ → ℕ → Msg → Bool → Ledger → Net → Admitted
  on_probation now p m was_out l q =
      let fwd = without_haves bs m in
      record {
        net =
            file p
              (note_received now p fwd
                (record { ledger = record l { probation = true }; haves = q.haves }))
              q;
        forward =
            if is_empty (blocks fwd) && is_empty (dont_haves fwd) && is_empty (wantlist fwd)
            then none
            else some fwd;
        announce = was_out && l.linked;
      }

  unfoldable pub admit : ℕ → ℕ → Msg → Net → Admitted
  unfolding settle on_probation
  admit now p m q =
      let l = ledger_of q p now in
      let paid = pay m l in
      let was_out = not l.probation in
      if not (held l now)
      then record {
        net = file p (note_received now p m (record { ledger = l; haves = q.haves })) q;
        forward = some m;
        announce = false;
      }
      else if is_empty paid.owed
      then settle now p m was_out paid q
      else if was_out && is_empty (blocks m)
      then record {
        net = record q { peers = put p paid q.peers };
        forward = if is_empty (wantlist m) then none else some (wants_only bs m);
        announce = false;
      }
      else on_probation now p m was_out paid q

  -- `ReceiveMessage`: the client is told first, then the message goes on.
  unfoldable pub receive_message : ℕ → ℕ → Msg → Net → Net × List (Call Msg)
  receive_message now p m q =
      let a = admit now p m q in
      (
        a.net,
        (if a.announce then Call.client_connected p ∷ [] else [])
            ++ elim a.forward [ none ↦ [] | some f ↦ Call.deliver p f ∷ [] ],
      )

  unfoldable pub peer_connected : ℕ → ℕ → Net → Net × List (Call Msg)
  peer_connected now p q =
      let l = ledger_of q p now in
      (
        record q { peers = put p (record l { linked = true }) q.peers },
        if out_at l now
            then (if q.has_server then Call.server_connected p ∷ [] else [])
            else Call.peer_connected p ∷ [],
      )

  unfoldable pub peer_disconnected : ℕ → Net → Net × List (Call Msg)
  peer_disconnected p q = (
    elim (get p q.peers) [
      | none ↦ q
      | some l ↦ record q {
        peers = put p (record l { linked = false; wanted = []; asked = [] }) q.peers;
        haves = drop_offers p l.asked q.haves;
      }
    ],
    Call.peer_disconnected p ∷ [],
  )
