-- ===== src/Friends/Kept.antt =====
-- The bounds on what a contact keeps of its peer's words.
use vidya_god_ipfs.Prelude.{
  has, ℕ, ◌≡◌, refl, sym, ap, Bool, true, false, none, some, List, [], ◌∷◌, arith, ◌≤◌, ltb-cases,
  ◌==◌, length, is_empty, Map, get, put, delete, Bool-cases, Option-cases, inl, inr,
}
use mathlib.Core.Path.{subst}
use vidya_god_ipfs.Friends.Bounds.{Fits, empty-Fits, cap_utf8-Fits}
use vidya_god_ipfs.Friends.Text.{max_nick_len, max_cid_len}
use vidya_god_ipfs.Friends.Social.{
  Contact, Social, upsert, remove, set_presence, new_contact, contact_or_new, present_contact,
}
use vidya_god_ipfs.Friends.Service.{Friends, FriendMsg}
use vidya_god_ipfs.Friends.Inbound.{
  bounded_msg, with_profile, on_request, on_accept, on_profile, note_presence,
}
use vidya_god_ipfs.Friends.Machine.{
  Call, after, heard, adding, accepting, declining, blocking, pinged, sharing, unsharing, pushed,
  denying,
}
use vidya_god_ipfs.Friends.Service.{
  presence_denied, purge_shares, run_push, set_share_lib, remove_share_lib, set_presence_deny,
  request, accept, decline, profile, presence, ping, library_req, library, other, MsgType,
}
use vidya_god_ipfs.Friends.Inbound.{
  dispatch, dispatch_kind, handle_request, handle_accept, handle_decline, handle_profile,
  handle_presence,
}
use vidya_god_ipfs.Friends.Actions.{
  on_add, add_friend, accept_friend, decline_friend, block_friend, ping_presence,
}
use vidya_god_ipfs.Friends.Machine.{
  book-push_snapshot, handle_library_req-book, handle_library-book,
}
use vidya_god_ipfs.Friends.Consent.{after_all}
use vidya_god_ipfs.Friends.Social.{accepted, blocked, is_accepted}

-- What a contact may keep of its peer's words.
abbrev pub Kept : Contact → Type 0
Kept c = Fits max_nick_len c.nick × (length c.pic ≤ max_cid_len)

abbrev pub BookKept : Map Contact → Type 0
BookKept [] = Unit
BookKept ((pid, c) ∷ m) = Kept c × BookKept m

delete-BookKept : (pid : ℕ) (m : Map Contact) → BookKept m → BookKept (delete pid m)
delete-BookKept pid [] h = h
delete-BookKept pid ((j, c) ∷ m) (k, h) = elim (Bool-cases (j == pid)) [
  | inl e ↦ rw (e, delete) (delete-BookKept pid m h)
  | inr e ↦ rw (e, delete) (k, delete-BookKept pid m h)
]

put-BookKept :
    (pid : ℕ) (c : Contact) (m : Map Contact) → Kept c → BookKept m → BookKept (put pid c m)
put-BookKept pid c m k h = (k, delete-BookKept pid m h)

entry :
    (j pid : ℕ) (d : Contact) (m : Map Contact) → (j == pid) ≡ true → get pid ((j, d) ∷ m) ≡ some d
entry j pid d m t = rw t refl

no_entry :
    (j pid : ℕ) (d : Contact) (m : Map Contact)
    → (j == pid) ≡ false
    → get pid ((j, d) ∷ m) ≡ get pid m
no_entry j pid d m t = rw t refl

get-Kept : (pid : ℕ) (c : Contact) (m : Map Contact) → BookKept m → get pid m ≡ some c → Kept c
get-Kept pid c [] h e = absurd (ground (arith, e))
get-Kept pid c ((j, d) ∷ m) (k, h) e = elim (Bool-cases (j == pid)) [
  | inl t ↦
      let found : some d ≡ some c = rw (sym (entry j pid d m t)) e in
      subst Kept (ap (λ o. elim o [ none ↦ d | some x ↦ x ]) found) k
  | inr t ↦ get-Kept pid c m h (rw (sym (no_entry j pid d m t)) e)
]

new_contact-Kept : (now : ℕ) → Kept (new_contact now)
new_contact-Kept now = (empty-Fits max_nick_len, omega arith)

contact_or_new-Kept :
    (now pid : ℕ) (s : Social) → BookKept s.contacts → Kept (contact_or_new now pid s)
contact_or_new-Kept now pid s h = elim (Option-cases (get pid s.contacts)) [
  | inl e ↦ rw (e, contact_or_new) (new_contact-Kept now)
  | inr (c, e) ↦ rw (e, contact_or_new) (get-Kept pid c s.contacts h e)
]

upsert-BookKept :
    (now pid : ℕ) (g : Contact → Contact) (s : Social)
    → ((c : Contact) → Kept c → Kept (g c))
    → BookKept s.contacts
    → BookKept (upsert now pid g s).0.contacts
unfolding upsert
upsert-BookKept now pid g s k h =
    put-BookKept pid (g (contact_or_new now pid s)) s.contacts
      (k (contact_or_new now pid s) (contact_or_new-Kept now pid s h)) h

remove-BookKept : (pid : ℕ) (s : Social) → BookKept s.contacts → BookKept (remove pid s).0.contacts
unfolding remove
remove-BookKept pid s h = elim (Bool-cases (has pid s.contacts)) [
  | inl e ↦ rw (e, remove) (delete-BookKept pid s.contacts h)
  | inr e ↦ rw (e, remove) h
]

present_contact-Kept :
    (now : ℕ) (online : Bool) (c : Contact) → Kept c → Kept (present_contact now online c)
present_contact-Kept now true c k = k
present_contact-Kept now false c k = k

set_presence-BookKept :
    (now pid : ℕ) (online : Bool) (s : Social)
    → BookKept s.contacts
    → BookKept (set_presence now pid online s).0.contacts
unfolding set_presence
set_presence-BookKept now pid online s h = elim (Option-cases (get pid s.contacts)) [
  | inl e ↦ rw (e, set_presence) h
  | inr (c, e) ↦
      rw (e, set_presence)
        (put-BookKept pid (present_contact now online c) s.contacts
          (present_contact-Kept now online c (get-Kept pid c s.contacts h e)) h)
]

-- The messages, whose words are cut before a handler sees them.
abbrev MsgKept : FriendMsg → Type 0
MsgKept m = Fits max_nick_len m.nick × (length m.pic ≤ max_cid_len)

bounded_msg-MsgKept : (m : FriendMsg) → MsgKept (bounded_msg m)
unfolding bounded_msg
bounded_msg-MsgKept m = elim (ltb-cases max_cid_len (length m.pic)) [
  | inl (e, long) ↦ rw (e, bounded_msg) (cap_utf8-Fits m.nick max_nick_len, omega arith)
  | inr (e, short) ↦ rw (e, bounded_msg) (cap_utf8-Fits m.nick max_nick_len, short)
]

with_profile-Kept : (m : FriendMsg) → MsgKept m → (c : Contact) → Kept c → Kept (with_profile m c)
with_profile-Kept m (n, p) c (n', p') = elim (Bool-cases (is_empty m.nick)) [
  | inl e ↦ elim (Bool-cases (is_empty m.pic)) [
    | inl e' ↦ rw (e, e', with_profile) (n', p')
    | inr e' ↦ rw (e, e', with_profile) (n', p)
  ]
  | inr e ↦ elim (Bool-cases (is_empty m.pic)) [
    | inl e' ↦ rw (e, e', with_profile) (n, p')
    | inr e' ↦ rw (e, e', with_profile) (n, p)
  ]
]

handle_decline-BookKept :
    (remote : ℕ) (f : Friends)
    → BookKept f.social.contacts
    → BookKept (handle_decline remote f).0.social.contacts
unfolding handle_decline
handle_decline-BookKept remote f h = elim (Option-cases (get remote f.social.contacts)) [
  | inl e ↦ rw (e, handle_decline) h
  | inr (c, e) ↦ rw (e, handle_decline) (remove-BookKept remote f.social h)
]

handle_profile-BookKept :
    (now remote : ℕ) (m : FriendMsg) (f : Friends)
    → MsgKept m
    → BookKept f.social.contacts
    → BookKept (handle_profile now remote m f).0.social.contacts
unfolding handle_profile
handle_profile-BookKept now remote m f k h = elim (Bool-cases (has remote f.social.contacts)) [
  | inl e ↦
      rw (e, handle_profile) (upsert-BookKept now remote (on_profile m) f.social (λ c. λ kept. k) h)
  | inr e ↦ rw (e, handle_profile) h
]

handle_presence-BookKept :
    (now remote : ℕ) (f : Friends)
    → BookKept f.social.contacts
    → BookKept (handle_presence now remote f).0.social.contacts
unfolding handle_presence note_presence
handle_presence-BookKept now remote f h = elim (Bool-cases (presence_denied remote f)) [
  | inl e ↦ rw (e, handle_presence) h
  | inr e ↦ rw (e, handle_presence) (set_presence-BookKept now remote true f.social h)
]

dispatch_kind-BookKept :
    (k : MsgType) (now remote : ℕ) (m : FriendMsg) (f : Friends)
    → MsgKept m
    → BookKept f.social.contacts
    → BookKept (dispatch_kind k now remote m f).0.social.contacts
unfolding dispatch_kind handle_request handle_accept
dispatch_kind-BookKept request now remote m f k h =
    upsert-BookKept now remote (on_request m) f.social (with_profile-Kept m k) h
dispatch_kind-BookKept accept now remote m f k h =
    upsert-BookKept now remote (on_accept m) f.social (with_profile-Kept m k) h
dispatch_kind-BookKept decline now remote m f k h = handle_decline-BookKept remote f h
dispatch_kind-BookKept profile now remote m f k h = handle_profile-BookKept now remote m f k h
dispatch_kind-BookKept presence now remote m f k h = handle_presence-BookKept now remote f h
dispatch_kind-BookKept ping now remote m f k h = handle_presence-BookKept now remote f h
dispatch_kind-BookKept library_req now remote m f k h = rw (handle_library_req-book remote f) h
dispatch_kind-BookKept library now remote m f k h = rw (handle_library-book remote m f) h
dispatch_kind-BookKept other now remote m f k h = h

on_add-Kept : (c : Contact) → Kept c → Kept (on_add c)
on_add-Kept c k = elim (Bool-cases (is_accepted c.state)) [
  | inl e ↦ rw (e, on_add) k
  | inr e ↦ rw (e, on_add) k
]

after-BookKept :
    (c : Call) (f : Friends) → BookKept f.social.contacts → BookKept (after c f).social.contacts
unfolding after dispatch add_friend accept_friend decline_friend block_friend ping_presence
    note_presence purge_shares set_share_lib remove_share_lib run_push set_presence_deny
after-BookKept (heard now remote m) f h =
    dispatch_kind-BookKept m.kind now remote (bounded_msg m) f (bounded_msg-MsgKept m) h
after-BookKept (adding now pid note) f h = upsert-BookKept now pid on_add f.social on_add-Kept h
after-BookKept (accepting now pid) f h =
    upsert-BookKept now pid (λ (c : Contact). record c { state = accepted }) f.social (λ c. λ k. k)
      h
after-BookKept (declining pid) f h = remove-BookKept pid f.social h
after-BookKept (blocking now pid) f h =
    upsert-BookKept now pid (λ (c : Contact). record c { state = blocked; online = false }) f.social
      (λ c. λ k. k) h
after-BookKept (pinged now pid reached) f h = set_presence-BookKept now pid reached f.social h
after-BookKept (sharing pid lib items) f h = rw (book-push_snapshot pid _) h
after-BookKept (unsharing pid lib items) f h = rw (book-push_snapshot pid _) h
after-BookKept (pushed pid) f h = h
after-BookKept (denying pids) f h = h

-- Where the name of every contact is valid UTF-8 of at most 64 bytes and its picture's id has at
-- most 128, they are so after any messages of any peers and any actions of the user.
pub after_all-BookKept :
    (cs : List Call) (f : Friends)
    → BookKept f.social.contacts
    → BookKept (after_all cs f).social.contacts
unfolding after_all
after_all-BookKept [] f h = h
after_all-BookKept (c ∷ cs) f h = after_all-BookKept cs (after c f) (after-BookKept c f h)
