-- ===== src/Friends/Social.antt =====
-- social.go: the address book.
use vidya_god_ipfs.Prelude.{
  ℕ, Bool, true, false, not, Option, none, some, List, [], ◌∷◌, is_empty, if◌then◌else◌, Map, get,
  put, delete, has,
}

-- `friendState`; `unset` is the empty string of a contact that was just created.
pub data FriendState : Type 0 where
  unset pending incoming accepted blocked : FriendState

abbrev pub is_pending : FriendState → Bool
is_pending pending = true
is_pending _ = false

abbrev pub is_accepted : FriendState → Bool
is_accepted accepted = true
is_accepted _ = false

abbrev pub is_blocked_state : FriendState → Bool
is_blocked_state blocked = true
is_blocked_state _ = false

-- `contact`, under its peer id as the key; times are in milliseconds.
pub record Contact : Type 0 where
  pub nick : List ℕ
  pub pic : List ℕ
  pub state : FriendState
  pub added_at : ℕ
  pub last_seen : ℕ
  pub online : Bool

-- `profile`
pub record Profile : Type 0 where
  pub nick : List ℕ
  pub pic : List ℕ

-- `socialState`; `hostname` is what `defaultNick` gives.
pub record Social : Type 0 where
  pub self : Profile
  pub contacts : Map Contact
  pub hostname : List ℕ

abbrev pub new_contact : ℕ → Contact
new_contact now = record {
  nick = [];
  pic = [];
  state = unset;
  added_at = now;
  last_seen = 0;
  online = false;
}

-- the entry that `upsert` changes
abbrev pub contact_or_new : ℕ → ℕ → Social → Contact
contact_or_new now pid s = elim (get pid s.contacts) [ none ↦ new_contact now | some c ↦ c ]

-- `upsert`: the book, and the contact as it is then
unfoldable pub upsert : ℕ → ℕ → (Contact → Contact) → Social → Social × Contact
upsert now pid mutate s =
    let c = mutate (contact_or_new now pid s) in (record s { contacts = put pid c s.contacts }, c)

-- `remove`
unfoldable pub remove : ℕ → Social → Social × Bool
remove pid s =
    if has pid s.contacts then (record s { contacts = delete pid s.contacts }, true) else (s, false)

-- `get` of a contact's state; unset where there is no contact
abbrev pub state_of : ℕ → Social → FriendState
state_of pid s = elim (get pid s.contacts) [ none ↦ unset | some c ↦ c.state ]

-- `isBlocked`
unfoldable pub is_blocked : ℕ → Social → Bool
is_blocked pid s = is_blocked_state (state_of pid s)

abbrev same_bool : Bool → Bool → Bool
same_bool true b = b
same_bool false b = not b

abbrev pub present_contact : ℕ → Bool → Contact → Contact
present_contact now online c =
    if online then record c { online = true; last_seen = now } else record c { online = false }

-- `setPresence`: the book, and the contact where its state changed
unfoldable pub set_presence : ℕ → ℕ → Bool → Social → Social × Option Contact
set_presence now pid online s = elim (get pid s.contacts) [
  | none ↦ (s, none)
  | some c ↦
      let c' = present_contact now online c in
      (
        record s { contacts = put pid c' s.contacts },
        if same_bool c.online online then none else some c',
      )
]

-- The ids of the contacts in a state.
abbrev pub peers_in : (FriendState → Bool) → Map Contact → List ℕ
peers_in test [] = []
peers_in test ((pid, c) ∷ m) =
    let rest = peers_in test m in if test c.state then pid ∷ rest else rest

-- `acceptedPeers`
unfoldable pub accepted_peers : Social → List ℕ
accepted_peers s = peers_in is_accepted s.contacts

-- `pendingPeers`
unfoldable pub pending_peers : Social → List ℕ
pending_peers s = peers_in is_pending s.contacts

-- `setProfile`
unfoldable pub set_profile : List ℕ → List ℕ → Social → Social
set_profile nick pic s = record s {
  self = record { nick = if is_empty nick then s.hostname else nick; pic = pic };
}
