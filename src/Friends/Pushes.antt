-- ===== src/Friends/Pushes.antt =====
-- friend.go: the pushes of what is shared, each from the call that starts it to the message that is sent;
-- and what the messages of peers leave of the shelves.
use vidya_god_ipfs.Prelude.{
  ℕ, ◌≡◌, refl, Bool, true, false, not, ◌&&◌, ◌||◌, Option, none, some, List, [], ◌∷◌, ◌++◌, arith,
  ◌==◌, contains, take, drop, zero, suc, if◌then◌else◌, Map, get, has, Bool-cases, Option-cases,
  inl, inr,
}
use vidya_god_ipfs.Friends.Text.{lib_snapshot_ok}
use vidya_god_ipfs.Friends.Social.{state_of, is_accepted}
use vidya_god_ipfs.Friends.Service.{
  Friends, FriendMsg, Shelf, Effect, emitted, removed, emitted_library, sent, pushing, shelf_of,
  push_snapshot, run_push, send_push, set_share_lib, remove_share_lib, without, presence_denied,
  MsgType, request, accept, decline, profile, presence, ping, library_req, library, other,
}
use vidya_god_ipfs.Friends.Inbound.{
  dispatch, dispatch_kind, handle_request, handle_accept, handle_decline, handle_profile,
  handle_presence, handle_library_req, handle_library, note_presence,
}
use vidya_god_ipfs.Friends.Actions.{
  add_friend, accept_friend, decline_friend, block_friend, ping_presence,
}
use vidya_god_ipfs.Friends.Machine.{
  Call, heard, adding, accepting, declining, blocking, pinged, sharing, unsharing, pushed, denying,
  after,
}

-- The goroutines that a call starts.
abbrev pub pushes : List Effect → List ℕ
pushes [] = []
pushes (pushing pid ∷ es) = pid ∷ pushes es
pushes (emitted e pid c ∷ es) = pushes es
pushes (removed pid ∷ es) = pushes es
pushes (emitted_library pid libs seq ∷ es) = pushes es
pushes (sent pid m ∷ es) = pushes es

-- What a call does outside. A push that reads does nothing outside yet.
abbrev added_effects : Option (Friends × List Effect) → List Effect
added_effects none = []
added_effects (some (f, es)) = es

unfoldable pub effects_of : Call → Friends → List Effect
effects_of (heard now remote m) f = (dispatch now remote m f).1
effects_of (adding now pid note) f = added_effects (add_friend now true pid note f)
effects_of (accepting now pid) f = (accept_friend now pid f).1
effects_of (declining pid) f = (decline_friend pid f).1
effects_of (blocking now pid) f = (block_friend now pid f).1
effects_of (pinged now pid reached) f = (ping_presence now reached pid f).1
effects_of (sharing pid lib items) f = (set_share_lib pid lib items f).1
effects_of (unsharing pid lib items) f = (remove_share_lib pid lib f).1
effects_of (pushed pid) f = []
effects_of (denying pids) f = []

-- The service while its pushes run: the goroutines that have not read yet, the messages that were read
-- and are not sent yet, what was sent of them, and the shelves that were ever read, the newest first.
pub record Running : Type 0 where
  pub friends : Friends
  pub started : List ℕ
  pub unsent : List (ℕ × FriendMsg)
  pub outbox : List Effect
  pub was_read : Map Shelf

-- One goroutine of a peer less.
abbrev pub without_one : ℕ → List ℕ → List ℕ
without_one pid [] = []
without_one pid (p ∷ ps) = let rest = without_one pid ps in if p == pid then ps else p ∷ rest

abbrev send_nth : ℕ → List (ℕ × FriendMsg) → List Effect
send_nth n [] = []
send_nth zero ((pid, m) ∷ ms) = send_push pid m
send_nth (suc n) ((pid, m) ∷ ms) = send_nth n ms

-- A step: a call, where `pushed` is a goroutine that reads, or the sending of a message that was read.
pub data Step : Type 0 where
  calls : Call → Step
  sends : ℕ → Step

abbrev pub read_push : ℕ → Running → Running
read_push pid r =
    let (f, m) = run_push pid r.friends in
    record r {
      friends = f;
      started = without_one pid r.started;
      unsent = (pid, m) ∷ r.unsent;
      was_read = (pid, m.shelf) ∷ r.was_read;
    }

abbrev pub call : Call → Running → Running
call c r = record r {
  friends = after c r.friends;
  started = pushes (effects_of c r.friends) ++ r.started;
}

unfoldable pub step : Step → Running → Running
step (calls (pushed pid)) r = if contains pid r.started then read_push pid r else r
step (calls c) r = call c r
step (sends n) r = record r {
  unsent = take n r.unsent ++ drop (suc n) r.unsent;
  outbox = send_nth n r.unsent ++ r.outbox;
}

unfoldable pub steps : List Step → Running → Running
steps [] r = r
steps (s ∷ ss) r = steps ss (step s r)

-- A step that does not change what a peer is shown.
abbrev pub spares : ℕ → Step → Bool
spares j (calls (sharing pid lib items)) = not (pid == j)
spares j (calls (unsharing pid lib items)) = not (pid == j)
spares j (calls (declining pid)) = not (pid == j)
spares j (calls (blocking now pid)) = not (pid == j)
spares j _ = true

abbrev pub all_spare : ℕ → List Step → Bool
all_spare j [] = true
all_spare j (s ∷ ss) = spares j s && all_spare j ss

pub contains-append :
    (j : ℕ) (xs ys : List ℕ) → contains j (xs ++ ys) ≡ (contains j xs || contains j ys)
contains-append j [] ys = refl
contains-append j (x ∷ xs) ys = ground (arith, contains-append j xs ys)

pub contains-without :
    (j pid : ℕ) (ps : List ℕ) → contains j (without pid ps) ≡ (not (pid == j) && contains j ps)
contains-without j pid [] = ground arith
contains-without j pid (p ∷ ps) = ground (arith, contains-without j pid ps)

pub contains-without_one :
    (j pid : ℕ) (ps : List ℕ) → (pid == j) ≡ false → contains j (without_one pid ps) ≡ contains j ps
contains-without_one j pid [] e = refl
contains-without_one j pid (p ∷ ps) e = ground (arith, e, contains-without_one j pid ps e)

-- What a call leaves of the shelves, of the flags, and what it starts.
module _ (j : ℕ) where
  -- No flag is set without a goroutine that is started.
  abbrev pub Announces : Friends × List Effect → Friends → Type 0
  Announces r f =
      (not (contains j r.0.push_pending) || contains j (pushes r.1) || contains j f.push_pending)
      ≡ true

  -- The shelves stay, and the flags too, but for those of a push that is started.
  abbrev pub Leaves : Friends × List Effect → Friends → Type 0
  Leaves r f = Announces r f × (shelf_of j r.0 ≡ shelf_of j f)

  pub push_snapshot-Leaves : (pid : ℕ) (f : Friends) → Leaves (push_snapshot pid f) f
  unfolding push_snapshot
  push_snapshot-Leaves pid f =
      elim (Bool-cases (not (is_accepted (state_of pid f.social)) || contains pid f.push_pending)) [
        | inl e ↦ rw e (ground arith, refl)
        | inr e ↦ rw e (ground arith, refl)
      ]

  handle_decline-Leaves : (remote : ℕ) (f : Friends) → Leaves (handle_decline remote f) f
  unfolding handle_decline
  handle_decline-Leaves remote f = elim (Option-cases (get remote f.social.contacts)) [
    | inl e ↦ rw (e, handle_decline) (ground arith, refl)
    | inr (c, e) ↦ rw (e, handle_decline) (ground arith, refl)
  ]

  handle_request-Leaves :
      (now remote : ℕ) (m : FriendMsg) (f : Friends) → Leaves (handle_request now remote m f) f
  unfolding handle_request
  handle_request-Leaves now remote m f = (ground arith, refl)

  handle_profile-Leaves :
      (now remote : ℕ) (m : FriendMsg) (f : Friends) → Leaves (handle_profile now remote m f) f
  unfolding handle_profile
  handle_profile-Leaves now remote m f = elim (Bool-cases (has remote f.social.contacts)) [
    | inl e ↦ rw e (ground arith, refl)
    | inr e ↦ rw e (ground arith, refl)
  ]

  pub note_presence-Leaves :
      (now pid : ℕ) (online : Bool) (f : Friends) → Leaves (note_presence now pid online f) f
  unfolding note_presence
  note_presence-Leaves now pid online f = (ground arith, refl)

  handle_presence-Leaves : (now remote : ℕ) (f : Friends) → Leaves (handle_presence now remote f) f
  unfolding handle_presence
  handle_presence-Leaves now remote f = elim (Bool-cases (presence_denied remote f)) [
    | inl e ↦ rw e (ground arith, refl)
    | inr e ↦ rw e (note_presence-Leaves now remote true f)
  ]

  handle_library_req-Leaves : (remote : ℕ) (f : Friends) → Leaves (handle_library_req remote f) f
  unfolding handle_library_req
  handle_library_req-Leaves remote f = elim (Bool-cases (is_accepted (state_of remote f.social))) [
    | inl e ↦ rw e (push_snapshot-Leaves remote f)
    | inr e ↦ rw e (ground arith, refl)
  ]

  handle_library-Leaves :
      (remote : ℕ) (m : FriendMsg) (f : Friends) → Leaves (handle_library remote m f) f
  unfolding handle_library
  handle_library-Leaves remote m f =
      elim (Bool-cases (is_accepted (state_of remote f.social) && lib_snapshot_ok m.libs)) [
        | inl e ↦ rw e (ground arith, refl)
        | inr e ↦ rw e (ground arith, refl)
      ]

  pub dispatch_kind-Leaves :
      (k : MsgType) (now remote : ℕ) (m : FriendMsg) (f : Friends)
      → Leaves (dispatch_kind k now remote m f) f
  unfolding dispatch_kind handle_accept
  dispatch_kind-Leaves request now remote m f = handle_request-Leaves now remote m f
  dispatch_kind-Leaves accept now remote m f = (ground arith, refl)
  dispatch_kind-Leaves decline now remote m f = handle_decline-Leaves remote f
  dispatch_kind-Leaves profile now remote m f = handle_profile-Leaves now remote m f
  dispatch_kind-Leaves presence now remote m f = handle_presence-Leaves now remote f
  dispatch_kind-Leaves ping now remote m f = handle_presence-Leaves now remote f
  dispatch_kind-Leaves library_req now remote m f = handle_library_req-Leaves remote f
  dispatch_kind-Leaves library now remote m f = handle_library-Leaves remote m f
  dispatch_kind-Leaves other now remote m f = (ground arith, refl)
