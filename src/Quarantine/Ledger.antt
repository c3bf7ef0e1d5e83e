-- ===== src/Quarantine/Ledger.antt =====
-- quarantine.go: what the wrapper keeps for each peer, and the tests and helpers on it.
-- A peer id and a block's CID are numbers. A `time.Time` is a number of nanoseconds, 0 for the zero
-- time; the clock is Go's monotonic one, so `now.Sub(t)` of a past time is `now - t`. A duration is a
-- number of nanoseconds. A method under `q.mu` is a function from the state to the state.
use vidya_god_ipfs.Prelude.{
  ℕ, ◌*◌, Bool, false, not, ◌&&◌, ◌||◌, none, some, List, [], ◌∷◌, ltb, ◌==◌, is_empty, contains,
  if◌then◌else◌, Map, get, put, delete,
}

abbrev pub quarantine_after : ℕ
quarantine_after = 3_000_000_000

abbrev pub quarantine_max_hold : ℕ
quarantine_max_hold = 10_000_000_000

abbrev pub quarantine_cool : ℕ
quarantine_cool = 30_000_000_000

abbrev pub quarantine_max_cool : ℕ
quarantine_max_cool = 600_000_000_000

abbrev pub quarantine_forget : ℕ
quarantine_forget = 3_600_000_000_000

-- `peerLedger`. The sets of CIDs are lists.
pub record Ledger : Type 0 where
  pub wanted : Map ℕ
  pub asked : List ℕ
  pub owed : Map Bool
  pub denied : Bool
  pub last_block : ℕ
  pub gap : ℕ
  pub progress : ℕ
  pub until : ℕ
  pub probation : Bool
  pub linked : Bool

-- `peerRecord`
pub record Offences : Type 0 where
  pub strikes : ℕ
  pub last : ℕ

-- `quarantineNet`: its maps, and whether `Start` found a client and a server.
pub record Net : Type 0 where
  pub peers : Map Ledger
  pub records : Map Offences
  pub haves : Map (List ℕ)
  pub has_client : Bool
  pub has_server : Bool

unfoldable pub new_quarantine_net : Net
new_quarantine_net = record {
  peers = [];
  records = [];
  haves = [];
  has_client = false;
  has_server = false;
}

abbrev pub new_ledger : ℕ → Ledger
new_ledger now = record {
  wanted = [];
  asked = [];
  owed = [];
  denied = false;
  last_block = 0;
  gap = 0;
  progress = now;
  until = 0;
  probation = false;
  linked = false;
}

-- `ledger`: p's ledger, or the fresh one that the method files. What is changed in it is put back by
-- the caller, who holds the pointer.
abbrev pub ledger_of : Net → ℕ → ℕ → Ledger
ledger_of q p now = elim (get p q.peers) [ none ↦ new_ledger now | some l ↦ l ]

unfoldable pub hold : Ledger → ℕ
hold l =
    let d = 3 * l.gap in
    if ltb d quarantine_after
    then quarantine_after
    else if ltb quarantine_max_hold d
    then quarantine_max_hold
    else d

abbrev pub held : Ledger → ℕ → Bool
held l t = ltb t l.until

abbrev pub out_at : Ledger → ℕ → Bool
out_at l t = not l.probation && held l t

-- `out`
unfoldable pub is_out : Net → ℕ → ℕ → Bool
is_out q p now = elim (get p q.peers) [ none ↦ false | some l ↦ out_at l now ]

-- q.haves[c], nil where there is none
abbrev pub offers : ℕ → Map (List ℕ) → List ℕ
offers c h = elim (get c h) [ none ↦ [] | some who ↦ who ]

abbrev pub other_than : ℕ → List ℕ → Bool
other_than p [] = false
other_than p (o ∷ os) = not (o == p) || other_than p os

unfoldable pub offered_elsewhere : ℕ → ℕ → Map (List ℕ) → Bool
offered_elsewhere c p h = other_than p (offers c h)

-- delete(set, x)
abbrev pub without : ℕ → List ℕ → List ℕ
without x [] = []
without x (y ∷ ys) = let rest = without x ys in if y == x then rest else y ∷ rest

unfoldable pub forget_have : ℕ → ℕ → Map (List ℕ) → Map (List ℕ)
forget_have c p h = elim (get c h) [
  | none ↦ h
  | some who ↦ let left = without p who in if is_empty left then delete c h else put c left h
]

-- the loop of `dropAsked`; the caller clears `asked`
unfoldable pub drop_offers : ℕ → List ℕ → Map (List ℕ) → Map (List ℕ)
drop_offers p [] h = h
drop_offers p (c ∷ cs) h = drop_offers p cs (forget_have c p h)

-- set[x] = struct{}{}
abbrev pub add : ℕ → List ℕ → List ℕ
add x xs = if contains x xs then xs else x ∷ xs
