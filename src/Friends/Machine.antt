-- ===== src/Friends/Machine.antt =====
-- The friend protocol of friend.go as a state machine for each peer.
use vidya_god_ipfs.Prelude.{
  ℕ, ◌≡◌, refl, sym, ap, ◌∙◌, Bool, true, false, Option, none, some, List, arith, ◌==◌,
  if◌then◌else◌, get, Option-cases, Bool-cases, inl, inr,
}
use vidya_god_ipfs.Friends.Text.{ShareItem}
use vidya_god_ipfs.Friends.Social.{
  FriendState, unset, pending, incoming, accepted, blocked, is_accepted, Contact, Social, state_of,
}
use vidya_god_ipfs.Friends.Service.{
  Friends, FriendMsg, Effect, MsgType, request, accept, decline, profile, presence, ping,
  library_req, library, other, push_snapshot, purge_shares, run_push, set_share_lib,
  remove_share_lib, set_presence_deny,
}
use vidya_god_ipfs.Friends.Inbound.{
  bounded_msg, requested, on_request, on_accept, on_profile, note_presence, dispatch, dispatch_kind,
  handle_request, handle_accept, handle_decline, handle_profile, handle_presence,
  handle_library_req, handle_library,
}
use vidya_god_ipfs.Friends.Actions.{
  on_add, add_friend, accept_friend, decline_friend, block_friend, ping_presence,
}
use vidya_god_ipfs.Friends.Book.{upsert-next, state_of-remove, state_of-set_presence, state-on_add}

-- The state machine: what each message of a peer, and each action of ours, makes of its state.
pub data Label : Type 0 where
  told : MsgType → Label
  we_add we_accept we_decline we_block : Label

abbrev pub next : Label → FriendState → FriendState
next (told request) unset = incoming
next (told request) pending = accepted
next (told request) incoming = incoming
next (told request) accepted = accepted
next (told request) blocked = blocked
next (told accept) s = accepted
next (told decline) s = unset
next (told _) s = s
next we_add s = if is_accepted s then s else pending
next we_accept s = accepted
next we_decline s = unset
next we_block s = blocked

-- One call of the service: a message of a peer, an action of ours, or a step that leaves the book's
-- states alone.
pub data Call : Type 0 where
  heard : ℕ → ℕ → FriendMsg → Call
  adding : ℕ → ℕ → List ℕ → Call
  accepting : ℕ → ℕ → Call
  declining : ℕ → Call
  blocking : ℕ → ℕ → Call
  pinged : ℕ → ℕ → Bool → Call
  sharing unsharing : ℕ → ℕ → List ShareItem → Call
  pushed : ℕ → Call
  denying : List ℕ → Call

abbrev added : Option (Friends × List Effect) → Friends → Friends
added none f = f
added (some (f', es)) f = f'

unfoldable pub after : Call → Friends → Friends
after (heard now remote m) f = (dispatch now remote m f).0
after (adding now pid note) f = added (add_friend now true pid note f) f
after (accepting now pid) f = (accept_friend now pid f).0
after (declining pid) f = (decline_friend pid f).0
after (blocking now pid) f = (block_friend now pid f).0
after (pinged now pid reached) f = (ping_presence now reached pid f).0
after (sharing pid lib items) f = (set_share_lib pid lib items f).0
after (unsharing pid lib items) f = (remove_share_lib pid lib f).0
after (pushed pid) f = (run_push pid f).0
after (denying pids) f = set_presence_deny pids f

-- What a call is in the state machine of peer `j`.
abbrev pub label_of : ℕ → Call → Option Label
label_of j (heard now remote m) = if remote == j then some (told m.kind) else none
label_of j (adding now pid note) = if pid == j then some we_add else none
label_of j (accepting now pid) = if pid == j then some we_accept else none
label_of j (declining pid) = if pid == j then some we_decline else none
label_of j (blocking now pid) = if pid == j then some we_block else none
label_of j _ = none

abbrev pub next_if : Option Label → FriendState → FriendState
next_if none s = s
next_if (some l) s = next l s

pub book-push_snapshot : (pid : ℕ) (f : Friends) → (push_snapshot pid f).0.social ≡ f.social
unfolding push_snapshot
book-push_snapshot pid f = ground arith

-- A peer without an entry has no state.
no_entry :
    (pid j : ℕ) (s : Social)
    → get pid s.contacts ≡ none
    → state_of j s ≡ (if pid == j then unset else state_of j s)
no_entry pid j s e = elim (Bool-cases (pid == j)) [
  | inl same ↦
      let is : pid ≡ j = ground (arith, same) in
      rw same (ap (λ i. state_of i s) (sym is) ∙ rw (e, state_of) refl)
  | inr other_peer ↦ rw other_peer refl
]

-- The handlers, each as its label.
requested-next : (s : FriendState) → requested s ≡ next (told request) s
requested-next unset = refl
requested-next pending = refl
requested-next incoming = refl
requested-next accepted = refl
requested-next blocked = refl

handle_request-next :
    (now remote j : ℕ) (m : FriendMsg) (f : Friends)
    → state_of j (handle_request now remote m f).0.social
      ≡ (if remote == j then next (told request) (state_of j f.social) else state_of j f.social)
unfolding handle_request
handle_request-next now remote j m f =
    upsert-next now remote j (on_request m) (next (told request)) f.social
      (λ c. requested-next c.state)

pub handle_accept-next :
    (now remote j : ℕ) (m : FriendMsg) (f : Friends)
    → state_of j (handle_accept now remote m f).0.social
      ≡ (if remote == j then accepted else state_of j f.social)
unfolding handle_accept
handle_accept-next now remote j m f =
    upsert-next now remote j (on_accept m) (λ s. accepted) f.social (λ c. refl)

handle_decline-next :
    (remote j : ℕ) (f : Friends)
    → state_of j (handle_decline remote f).0.social
      ≡ (if remote == j then unset else state_of j f.social)
unfolding handle_decline
handle_decline-next remote j f = elim (Option-cases (get remote f.social.contacts)) [
  | inl e ↦ rw (e, handle_decline) (no_entry remote j f.social e)
  | inr (c, e) ↦ ground (arith, e, state_of-remove remote j f.social)
]

handle_profile-next :
    (now remote j : ℕ) (m : FriendMsg) (f : Friends)
    → state_of j (handle_profile now remote m f).0.social ≡ state_of j f.social
unfolding handle_profile
handle_profile-next now remote j m f =
    ground (arith, upsert-next now remote j (on_profile m) (λ s. s) f.social (λ c. refl))

note_presence-next :
    (now pid j : ℕ) (online : Bool) (f : Friends)
    → state_of j (note_presence now pid online f).0.social ≡ state_of j f.social
unfolding note_presence
note_presence-next now pid j online f = state_of-set_presence now pid j online f.social

handle_presence-next :
    (now remote j : ℕ) (f : Friends)
    → state_of j (handle_presence now remote f).0.social ≡ state_of j f.social
unfolding handle_presence
handle_presence-next now remote j f = ground (arith, note_presence-next now remote j true f)

pub handle_library_req-book :
    (remote : ℕ) (f : Friends) → (handle_library_req remote f).0.social ≡ f.social
unfolding handle_library_req
handle_library_req-book remote f = ground (arith, book-push_snapshot remote f)

pub handle_library-book :
    (remote : ℕ) (m : FriendMsg) (f : Friends) → (handle_library remote m f).0.social ≡ f.social
unfolding handle_library
handle_library-book remote m f = ground arith

both_ways : (b : Bool) (x : FriendState) → x ≡ (if b then x else x)
both_ways true x = refl
both_ways false x = refl

dispatch_kind-next :
    (k : MsgType) (now remote j : ℕ) (m : FriendMsg) (f : Friends)
    → state_of j (dispatch_kind k now remote m f).0.social
      ≡ (if remote == j then next (told k) (state_of j f.social) else state_of j f.social)
unfolding dispatch_kind
dispatch_kind-next request now remote j m f = handle_request-next now remote j m f
dispatch_kind-next accept now remote j m f = handle_accept-next now remote j m f
dispatch_kind-next decline now remote j m f = handle_decline-next remote j f
dispatch_kind-next profile now remote j m f =
    handle_profile-next now remote j m f ∙ both_ways (remote == j) (state_of j f.social)
dispatch_kind-next presence now remote j m f =
    handle_presence-next now remote j f ∙ both_ways (remote == j) (state_of j f.social)
dispatch_kind-next ping now remote j m f =
    handle_presence-next now remote j f ∙ both_ways (remote == j) (state_of j f.social)
dispatch_kind-next library_req now remote j m f =
    ap (state_of j) (handle_library_req-book remote f)
    ∙ both_ways (remote == j) (state_of j f.social)
dispatch_kind-next library now remote j m f =
    ap (state_of j) (handle_library-book remote m f) ∙ both_ways (remote == j) (state_of j f.social)
dispatch_kind-next other now remote j m f = both_ways (remote == j) (state_of j f.social)

-- A call about peer `pid`, seen from peer `j`.
next_if-at :
    (b : Bool) (l : Label) (x : FriendState)
    → (if b then next l x else x) ≡ next_if (if b then some l else none) x
next_if-at true l x = refl
next_if-at false l x = refl

add_friend-next :
    (now pid j : ℕ) (note : List ℕ) (f : Friends)
    → state_of j (added (add_friend now true pid note f) f).social
      ≡ (if pid == j then next we_add (state_of j f.social) else state_of j f.social)
unfolding add_friend
add_friend-next now pid j note f =
    upsert-next now pid j on_add (next we_add) f.social (λ c. state-on_add c)

accept_friend-next :
    (now pid j : ℕ) (f : Friends)
    → state_of j (accept_friend now pid f).0.social
      ≡ (if pid == j then next we_accept (state_of j f.social) else state_of j f.social)
unfolding accept_friend
accept_friend-next now pid j f =
    upsert-next now pid j (λ (c : Contact). record c { state = accepted }) (λ s. accepted) f.social
      (λ c. refl)

decline_friend-next :
    (pid j : ℕ) (f : Friends)
    → state_of j (decline_friend pid f).0.social
      ≡ (if pid == j then next we_decline (state_of j f.social) else state_of j f.social)
unfolding decline_friend purge_shares
decline_friend-next pid j f = state_of-remove pid j f.social

pub block_friend-next :
    (now pid j : ℕ) (f : Friends)
    → state_of j (block_friend now pid f).0.social
      ≡ (if pid == j then next we_block (state_of j f.social) else state_of j f.social)
unfolding block_friend purge_shares
block_friend-next now pid j f =
    upsert-next now pid j (λ (c : Contact). record c { state = blocked; online = false })
      (λ s. blocked) f.social (λ c. refl)

-- Each call moves the state of each peer as the state machine says: a message or an action that
-- concerns another peer does not move it.
pub after-next :
    (c : Call) (j : ℕ) (f : Friends)
    → state_of j (after c f).social ≡ next_if (label_of j c) (state_of j f.social)
unfolding after dispatch set_presence_deny set_share_lib remove_share_lib run_push ping_presence
after-next (heard now remote m) j f =
    dispatch_kind-next m.kind now remote j (bounded_msg m) f
    ∙ next_if-at (remote == j) (told m.kind) (state_of j f.social)
after-next (adding now pid note) j f =
    add_friend-next now pid j note f ∙ next_if-at (pid == j) we_add (state_of j f.social)
after-next (accepting now pid) j f =
    accept_friend-next now pid j f ∙ next_if-at (pid == j) we_accept (state_of j f.social)
after-next (declining pid) j f =
    decline_friend-next pid j f ∙ next_if-at (pid == j) we_decline (state_of j f.social)
after-next (blocking now pid) j f =
    block_friend-next now pid j f ∙ next_if-at (pid == j) we_block (state_of j f.social)
after-next (pinged now pid reached) j f = note_presence-next now pid j reached f
after-next (sharing pid lib items) j f = ap (state_of j) (book-push_snapshot pid _)
after-next (unsharing pid lib items) j f = ap (state_of j) (book-push_snapshot pid _)
after-next (pushed pid) j f = refl
after-next (denying pids) j f = refl
