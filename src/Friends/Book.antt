-- ===== src/Friends/Book.antt =====
-- What each change of the address book makes of each peer's state.
use vidya_god_ipfs.Prelude.{
  ℕ, ◌≡◌, refl, ap, ◌∙◌, Bool, arith, ◌==◌, if◌then◌else◌, get, get-put, get-delete, Option-cases,
  Bool-cases, inl, inr,
}
use vidya_god_ipfs.Friends.Social.{
  FriendState, unset, pending, is_accepted, Contact, Social, state_of, contact_or_new, upsert,
  remove, set_presence, present_contact,
}
use vidya_god_ipfs.Friends.Actions.{on_add}

pub state_of-upsert :
    (now pid j : ℕ) (g : Contact → Contact) (s : Social)
    → state_of j (upsert now pid g s).0
      ≡ (if pid == j then (g (contact_or_new now pid s)).state else state_of j s)
unfolding upsert
state_of-upsert now pid j g s =
    ground (arith, get-put pid j (g (contact_or_new now pid s)) s.contacts)

-- An entry that `upsert` makes has no state yet.
pub state-contact_or_new :
    (now pid : ℕ) (s : Social) → (contact_or_new now pid s).state ≡ state_of pid s
state-contact_or_new now pid s = ground arith

-- A change that makes of a contact's state what `h` makes of it.
pub upsert-next :
    (now pid j : ℕ) (g : Contact → Contact) (h : FriendState → FriendState) (s : Social)
    → ((c : Contact) → (g c).state ≡ h c.state)
    → state_of j (upsert now pid g s).0 ≡ (if pid == j then h (state_of j s) else state_of j s)
upsert-next now pid j g h s e = elim (Bool-cases (pid == j)) [
  | inl same ↦
      let is : pid ≡ j = ground arith in
      let made : state_of j (upsert now pid g s).0 ≡ (g (contact_or_new now pid s)).state =
        ground (arith, state_of-upsert now pid j g s, same) in
      rw same (
        made
        ∙ e (contact_or_new now pid s)
        ∙ ap h (state-contact_or_new now pid s)
        ∙ ap (λ i. h (state_of i s)) is)
  | inr other_peer ↦ ground (arith, state_of-upsert now pid j g s, other_peer)
]

pub state-on_add :
    (c : Contact) → (on_add c).state ≡ (if is_accepted c.state then c.state else pending)
state-on_add c = elim (Bool-cases (is_accepted c.state)) [
  | inl e ↦ rw (e, on_add) refl
  | inr e ↦ rw (e, on_add) refl
]

pub state_of-remove :
    (pid j : ℕ) (s : Social)
    → state_of j (remove pid s).0 ≡ (if pid == j then unset else state_of j s)
unfolding remove
state_of-remove pid j s = ground (arith, get-delete pid j s.contacts)

pub state_of-set_presence :
    (now pid j : ℕ) (online : Bool) (s : Social)
    → state_of j (set_presence now pid online s).0 ≡ state_of j s
unfolding set_presence
state_of-set_presence now pid j online s = elim (Option-cases (get pid s.contacts)) [
  | inl e ↦ ground (arith, e)
  | inr (c, e) ↦ ground (arith, e, get-put pid j (present_contact now online c) s.contacts)
]
