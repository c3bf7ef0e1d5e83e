-- ===== src/Friends/Disk.antt =====
-- social.go: the file of the address book. A JSON object is the list of its tags and values; what
-- encoding/json writes for a string is a parameter, as it replaces what is not UTF-8.
use vidya_god_ipfs.Prelude.{
  ℕ, zero, suc, false, Option, none, some, List, [], ◌∷◌, ◌++◌, ◌==◌, is_empty, if◌then◌else◌, Map,
  put,
}
use vidya_god_ipfs.Resume.{same_bytes}
use vidya_god_ipfs.Friends.Social.{
  FriendState, unset, pending, incoming, accepted, blocked, Contact, Profile, Social,
}

-- A peer id is the number that stands for it everywhere, 0 for the empty one.
pub data Json : Type 0 where
  text : List ℕ → Json
  number peer_id : ℕ → Json

abbrev pub Object : Type 0
Object = List (List ℕ × Json)

abbrev pub tag_peer : List ℕ
tag_peer = b'p' ∷ b'e' ∷ b'e' ∷ b'r' ∷ []

abbrev pub tag_nick : List ℕ
tag_nick = b'n' ∷ b'i' ∷ b'c' ∷ b'k' ∷ []

abbrev pub tag_pic : List ℕ
tag_pic = b'p' ∷ b'i' ∷ b'c' ∷ []

abbrev pub tag_state : List ℕ
tag_state = b's' ∷ b't' ∷ b'a' ∷ b't' ∷ b'e' ∷ []

abbrev pub tag_added : List ℕ
tag_added = b'a' ∷ b'd' ∷ b'd' ∷ b'e' ∷ b'd' ∷ []

abbrev pub tag_seen : List ℕ
tag_seen = b's' ∷ b'e' ∷ b'e' ∷ b'n' ∷ []

-- The constants of `friendState`
abbrev pub text_of : FriendState → List ℕ
text_of unset = []
text_of pending = b'p' ∷ b'e' ∷ b'n' ∷ b'd' ∷ b'i' ∷ b'n' ∷ b'g' ∷ []
text_of incoming = b'i' ∷ b'n' ∷ b'c' ∷ b'o' ∷ b'm' ∷ b'i' ∷ b'n' ∷ b'g' ∷ []
text_of accepted = b'a' ∷ b'c' ∷ b'c' ∷ b'e' ∷ b'p' ∷ b't' ∷ b'e' ∷ b'd' ∷ []
text_of blocked = b'b' ∷ b'l' ∷ b'o' ∷ b'c' ∷ b'k' ∷ b'e' ∷ b'd' ∷ []

-- A string that is none of them is no state that the code asks for, as the empty one.
abbrev pub state_from : List ℕ → FriendState
state_from s =
    if same_bytes s (text_of pending)
    then pending
    else if same_bytes s (text_of incoming)
    then incoming
    else if same_bytes s (text_of accepted)
    then accepted
    else if same_bytes s (text_of blocked)
    then blocked
    else unset

-- `omitempty`
abbrev pub text_unless_empty : List ℕ → List ℕ → Object
text_unless_empty tag s = if is_empty s then [] else (tag, text s) ∷ []

abbrev pub number_unless_zero : List ℕ → ℕ → Object
number_unless_zero tag zero = []
number_unless_zero tag (suc n) = (tag, number (suc n)) ∷ []

-- What a field of the struct is after decoding: the value under its tag, or the zero value.
unfoldable pub text_at : List ℕ → Object → List ℕ
text_at tag [] = []
text_at tag ((t, v) ∷ o) =
    let rest = text_at tag o in
    if same_bytes t tag then (elim v [ text s ↦ s | number n ↦ [] | peer_id p ↦ [] ]) else rest

unfoldable pub number_at : List ℕ → Object → ℕ
number_at tag [] = 0
number_at tag ((t, v) ∷ o) =
    let rest = number_at tag o in
    if same_bytes t tag then (elim v [ text s ↦ 0 | number n ↦ n | peer_id p ↦ 0 ]) else rest

unfoldable pub peer_at : Object → ℕ
peer_at [] = 0
peer_at ((t, v) ∷ o) =
    let rest = peer_at o in
    if same_bytes t tag_peer then (elim v [ text s ↦ 0 | number n ↦ 0 | peer_id p ↦ p ]) else rest

-- `diskSocial`; `online` is not in it
pub record DiskSocial : Type 0 where
  pub profile : Object
  pub contacts : List Object

-- A contact under its tags
abbrev pub fields : ℕ → List ℕ → List ℕ → FriendState → ℕ → ℕ → Object
fields pid nick pic state added seen =
    (tag_peer, peer_id pid)
    ∷ (text_unless_empty tag_nick nick
        ++ (text_unless_empty tag_pic pic
            ++ ((tag_state, text (text_of state))
                ∷ (tag_added, number added)
                ∷ number_unless_zero tag_seen seen)))

-- What is written, where `json_string` is what encoding/json makes of a string.
module _ (json_string : List ℕ → List ℕ) where
  -- a `contact`; the strings of its state are ASCII
  unfoldable pub contact_object : ℕ → Contact → Object
  contact_object pid c =
      fields pid (json_string c.nick) (json_string c.pic) c.state c.added_at c.last_seen

  -- a `profile` under its tags
  unfoldable pub profile_object : Profile → Object
  profile_object p =
      text_unless_empty tag_nick (json_string p.nick)
      ++ text_unless_empty tag_pic (json_string p.pic)

  unfoldable pub disk_contacts : Map Contact → List Object
  disk_contacts [] = []
  disk_contacts ((pid, c) ∷ m) = contact_object pid c ∷ disk_contacts m

  -- `saveLocked`
  unfoldable pub save_social : Social → DiskSocial
  save_social s = record { profile = profile_object s.self; contacts = disk_contacts s.contacts }

unfoldable pub loaded_contact : Object → Contact
loaded_contact o = record {
  nick = text_at tag_nick o;
  pic = text_at tag_pic o;
  state = state_from (text_at tag_state o);
  added_at = number_at tag_added o;
  last_seen = number_at tag_seen o;
  online = false;
}

unfoldable pub loaded_profile : Object → Profile
loaded_profile o = record { nick = text_at tag_nick o; pic = text_at tag_pic o }

-- The loop of `load`; the peer id 0 is the empty one.
unfoldable pub load_contacts : List Object → Map Contact → Map Contact
load_contacts [] m = m
load_contacts (o ∷ os) m =
    load_contacts os (if peer_at o == 0 then m else put (peer_at o) (loaded_contact o) m)

-- `load`, into the empty book of `newSocialState`; a file that cannot be read or parsed leaves it
unfoldable pub load_social : List ℕ → Option DiskSocial → Social
load_social hostname none = record {
  self = record { nick = []; pic = [] };
  contacts = [];
  hostname = hostname;
}
load_social hostname (some d) = record {
  self = loaded_profile d.profile;
  contacts = load_contacts d.contacts [];
  hostname = hostname;
}
