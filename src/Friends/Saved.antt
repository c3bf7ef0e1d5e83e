-- ===== src/Friends/Saved.antt =====
-- The address book that is saved and loaded again.
use vidya_god_ipfs.Prelude.{
  ℕ, zero, suc, is_empty, ◌++◌, true, ◌≡◌, ◌≢◌, refl, sym, ap, ◌∙◌, false, Option, none, some, List,
  [], ◌∷◌, arith, ◌==◌, Map, get, put, get-put, Bool-cases, inl, inr,
}
use vidya_god_ipfs.Friends.Text.{valid_string}
use vidya_god_ipfs.Friends.Social.{
  FriendState, unset, pending, incoming, accepted, blocked, Contact, Profile, Social,
}
use vidya_god_ipfs.Friends.Disk.{
  text_of, state_from, fields, tag_nick, tag_pic, text_unless_empty, text_at, number_at, peer_at,
  contact_object, profile_object, disk_contacts, save_social, loaded_contact, loaded_profile,
  load_contacts, load_social,
}

-- The book's keys are those of a Go map, none of them the empty id.
abbrev pub Keys : Map Contact → Type 0
Keys [] = Unit
Keys ((pid, c) ∷ m) = (pid ≢ 0) × (get pid m ≡ none) × Keys m

abbrev pub offline : Option Contact → Option Contact
offline none = none
offline (some c) = some (record c { online = false })

abbrev over : Option Contact → Option Contact → Option Contact
over none o = o
over (some c) o = some c

over-none : (o : Option Contact) → over o none ≡ o
over-none none = refl
over-none (some c) = refl

-- One entry that is loaded, before the entries that follow.
over-put :
    (j pid : ℕ) (c : Contact) (m acc : Map Contact)
    → get pid m ≡ none
    → over (offline (get j m)) (get j (put pid (record c { online = false }) acc))
      ≡ over (offline (get j ((pid, c) ∷ m))) (get j acc)
over-put j pid c m acc new = elim (Bool-cases (pid == j)) [
  | inl e ↦
      let is : pid ≡ j = ground (arith, e) in
      let gone : get j m ≡ none = ap (λ i. get i m) (sym is) ∙ new in
      rw (get-put pid j (record c { online = false }) acc, gone, e) refl
  | inr e ↦ rw (get-put pid j (record c { online = false }) acc, e) refl
]

-- The words of a contact are valid UTF-8.
abbrev pub ValidWords : List ℕ → List ℕ → Type 0
ValidWords nick pic = (valid_string nick ≡ true) × (valid_string pic ≡ true)

abbrev pub AllValid : Map Contact → Type 0
AllValid [] = Unit
AllValid ((pid, c) ∷ m) = ValidWords c.nick c.pic × AllValid m

is_empty-nil : (s : List ℕ) → is_empty s ≡ true → s ≡ []
is_empty-nil [] h = refl
is_empty-nil (x ∷ s) h = absurd (ground (arith, h))

state_from-text_of : (s : FriendState) → state_from (text_of s) ≡ s
state_from-text_of unset = refl
state_from-text_of pending = refl
state_from-text_of incoming = refl
state_from-text_of accepted = refl
state_from-text_of blocked = refl

-- A contact that is decoded from its own tags.
peer_at-fields :
    (pid : ℕ) (nick pic : List ℕ) (s : FriendState) (added seen : ℕ)
    → peer_at (fields pid nick pic s added seen) ≡ pid
unfolding peer_at
peer_at-fields pid nick pic s added seen = refl

loaded-fields :
    (pid : ℕ) (nick pic : List ℕ) (s : FriendState) (added seen : ℕ)
    → loaded_contact (fields pid nick pic s added seen) ≡ record {
      nick = nick;
      pic = pic;
      state = state_from (text_of s);
      added_at = added;
      last_seen = seen;
      online = false;
    }
unfolding loaded_contact text_at number_at
loaded-fields pid [] [] s added zero = refl
loaded-fields pid [] [] s added (suc n) = refl
loaded-fields pid [] (y ∷ ys) s added zero = refl
loaded-fields pid [] (y ∷ ys) s added (suc n) = refl
loaded-fields pid (x ∷ xs) [] s added zero = refl
loaded-fields pid (x ∷ xs) [] s added (suc n) = refl
loaded-fields pid (x ∷ xs) (y ∷ ys) s added zero = refl
loaded-fields pid (x ∷ xs) (y ∷ ys) s added (suc n) = refl

loaded-words :
    (nick pic : List ℕ)
    → loaded_profile (text_unless_empty tag_nick nick ++ text_unless_empty tag_pic pic)
      ≡ record { nick = nick; pic = pic }
unfolding loaded_profile text_at
loaded-words [] [] = refl
loaded-words [] (y ∷ ys) = refl
loaded-words (x ∷ xs) [] = refl
loaded-words (x ∷ xs) (y ∷ ys) = refl

-- What encoding/json keeps: a string that is valid UTF-8 is written and read as it is.
module _ (json_string : List ℕ → List ℕ)
    (keeps_valid : (s : List ℕ) → valid_string s ≡ true → json_string s ≡ s) where
  loaded-contact_object :
      (pid : ℕ) (c : Contact)
      → ValidWords c.nick c.pic
      → (peer_at (contact_object json_string pid c) ≡ pid)
        × (loaded_contact (contact_object json_string pid c) ≡ record c { online = false })
  unfolding contact_object
  loaded-contact_object pid c (valid_nick, valid_pic) = (
    peer_at-fields pid (json_string c.nick) (json_string c.pic) c.state c.added_at c.last_seen,
    rw (keeps_valid c.nick valid_nick, keeps_valid c.pic valid_pic)
        (loaded-fields pid c.nick c.pic c.state c.added_at c.last_seen
          ∙ ap (λ (s : FriendState). record c { state = s; online = false })
              (state_from-text_of c.state)),
  )

  get-load_contacts :
      (j : ℕ) (m acc : Map Contact)
      → Keys m
      → AllValid m
      → get j (load_contacts (disk_contacts json_string m) acc)
        ≡ over (offline (get j m)) (get j acc)
  unfolding load_contacts disk_contacts peer_at contact_object
  get-load_contacts j [] acc k v = refl
  get-load_contacts j ((pid, c) ∷ m) acc (nz, new, k) (valid, v) =
      let kept : (pid == 0) ≡ false = ground arith in
      let (same_peer, same) = loaded-contact_object pid c valid in
      rw (same_peer, kept, same)
        (get-load_contacts j m (put pid (record c { online = false }) acc) k v
          ∙ over-put j pid c m acc new)

  loaded-profile :
      (p : Profile) → ValidWords p.nick p.pic → loaded_profile (profile_object json_string p) ≡ p
  unfolding profile_object
  loaded-profile p (valid_nick, valid_pic) =
      rw (keeps_valid p.nick valid_nick, keeps_valid p.pic valid_pic) (loaded-words p.nick p.pic)

  -- Where encoding/json keeps strings that are valid UTF-8: a book whose names and pictures' ids are valid
  -- UTF-8, without an empty id or a double key, that is saved and loaded again has the same profile and the
  -- same contacts, with their names, pictures, states and times, and none of them online.
  pub load_social-save_social :
      (hostname : List ℕ) (j : ℕ) (s : Social)
      → Keys s.contacts
      → ValidWords s.self.nick s.self.pic
      → AllValid s.contacts
      → ((load_social hostname (some (save_social json_string s))).self ≡ s.self)
        × (get j (load_social hostname (some (save_social json_string s))).contacts
            ≡ offline (get j s.contacts))
  unfolding load_social save_social
  load_social-save_social hostname j s k valid v = (
    loaded-profile s.self valid,
    get-load_contacts j s.contacts [] k v ∙ over-none (offline (get j s.contacts)),
  )
