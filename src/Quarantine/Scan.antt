-- ===== src/Quarantine/Scan.antt =====
-- quarantine.go `scan` and `check`: who goes out, who comes back, whose probation ends.
use vidya_god_ipfs.Prelude.{
  ℕ, ◌+◌, ◌-◌, ◌*◌, ◌%◌, ◌^◌, Bool, true, false, not, ◌&&◌, ◌||◌, none, some, List, [], ◌∷◌, ◌++◌,
  ltb, leb, ◌==◌, is_empty, contains, if◌then◌else◌, Map, get, put, delete, map,
}
use vidya_god_ipfs.Quarantine.Ledger.{
  Ledger, Offences, Net, quarantine_cool, quarantine_max_cool, quarantine_forget, hold, held,
  out_at, offers, offered_elsewhere, drop_offers,
}

-- `quarantineCool << (strikes - 1)` on an int64, with the guard on its overflow.
unfoldable pub cooldown : ℕ → ℕ
cooldown strikes =
    let cool = quarantine_cool * 2 ^ (strikes - 1) % 2 ^ 64 in
    if ltb quarantine_max_cool cool || leb (2 ^ 63) cool || cool == 0
    then quarantine_max_cool
    else cool

-- The lists that `scan` returns, and the state.
pub record Scanned : Type 0 where
  pub net : Net
  pub outs : List ℕ
  pub backs : List ℕ
  pub ends : List ℕ

-- The loop over `l.wanted`: how many were held for `hold`, and whether one is offered elsewhere.
unfoldable pub tally : ℕ → ℕ → ℕ → Map (List ℕ) → Map ℕ → ℕ × Bool
tally now hold p haves [] = (0, false)
tally now hold p haves ((c, t) ∷ m) =
    let (n, offered) = tally now hold p haves m in
    if ltb (now - t) hold then (n, offered) else (n + 1, offered || offered_elsewhere c p haves)

-- `l.owed[c] = said` for each want-block
unfoldable pub owe : ℕ → Map (List ℕ) → Map ℕ → Map Bool → Map Bool
owe p haves [] owed = owed
owe p haves ((c, t) ∷ m) owed = owe p haves m (put c (contains p (offers c haves)) owed)

-- The strike: the ledger and the record of a peer that is taken out.
unfoldable pub strikes_of : ℕ → Map Offences → ℕ
strikes_of p records = elim (get p records) [ none ↦ 1 | some r ↦ r.strikes + 1 ]

unfoldable pub take_out : ℕ → ℕ → Ledger → Net → Net
unfolding owe strikes_of
take_out now p l q =
    let n = strikes_of p q.records in
    record q {
      records = put p (record { strikes = n; last = now }) q.records;
      peers =
          put p
            (record l {
              until = now + cooldown n;
              probation = false;
              denied = false;
              owed = owe p q.haves l.wanted l.owed;
              wanted = [];
              asked = [];
            })
            q.peers;
      haves = drop_offers p l.asked q.haves;
    }

-- Back in the rotation, or off probation.
unfoldable pub bring_back : ℕ → Ledger → Net → Net
bring_back p l q = record q {
  peers = put p (record l { until = 0; probation = false; owed = [] }) q.peers;
}

-- It sits on a want-block that another peer offers.
unfoldable pub sits : ℕ → ℕ → Ledger → Map (List ℕ) → Bool
sits now p l haves =
    let (n, offered) = tally now (hold l) p haves l.wanted in
    not (out_at l now || is_empty l.wanted || ltb (now - l.progress) (hold l))
    && not (n == 0 || not offered)

-- One round of the loop over `q.peers`.
unfoldable pub scan_peer : ℕ → Bool → ℕ → Ledger → Scanned → Scanned
scan_peer now apply p l s =
    if not l.linked && not (held l now)
    then record s { net = record s.net { peers = delete p s.net.peers } }
    else if not (l.until == 0) && not (held l now)
    then record s {
      ends = if l.probation then s.ends ++ p ∷ [] else s.ends;
      backs = if l.probation then s.backs else s.backs ++ p ∷ [];
      net = if apply then bring_back p l s.net else s.net;
    }
    else if sits now p l s.net.haves
    then record s { outs = s.outs ++ p ∷ []; net = if apply then take_out now p l s.net else s.net }
    else s

unfoldable pub scan_peers : ℕ → Bool → Map Ledger → Scanned → Scanned
scan_peers now apply [] s = s
scan_peers now apply ((p, l) ∷ rest) s = scan_peers now apply rest (scan_peer now apply p l s)

-- A record is forgotten an hour after its last offence, unless its peer is held.
forgets : ℕ → Net → ℕ → Offences → Bool
forgets now q p r =
    ltb quarantine_forget (now - r.last)
    && elim (get p q.peers) [ none ↦ true | some l ↦ not (held l now) ]

keep_records : ℕ → Net → Map Offences → Map Offences
keep_records now q [] = []
keep_records now q ((p, r) ∷ m) =
    let rest = keep_records now q m in if forgets now q p r then rest else (p, r) ∷ rest

unfoldable pub scan : ℕ → Bool → Net → Scanned
unfolding forgets keep_records
scan now apply q = scan_peers now apply q.peers (record {
  net = record q { records = keep_records now q q.records };
  outs = [];
  backs = [];
  ends = [];
})

-- What reaches the bitswap client and server.
pub data Call (Msg : Type 0) : Type 0 where
  client_connected client_disconnected server_connected : ℕ → Call Msg
  peer_connected peer_disconnected : ℕ → Call Msg
  deliver : ℕ → Msg → Call Msg

-- `check`: the first scan looks, the second moves.
unfoldable pub check : {Msg : Type 0} → ℕ → Net → Net × List (Call Msg)
check now q =
    let look = scan now false q in
    if is_empty look.outs && is_empty look.backs && is_empty look.ends
    then (look.net, [])
    else (let moved = scan now true look.net in
        (
          moved.net,
          if moved.net.has_client
              then map client_disconnected moved.outs ++ map client_connected moved.backs
              else [],
        ))
