-- ===== src/Friends/Sharing.antt =====
-- What the calls of the service and the steps of its pushes make of the shelves and of the flags.
use vidya_god_ipfs.Prelude.{
  ℕ, ◌≡◌, ◌⊎◌, refl, sym, ap, ◌∙◌, true, false, not, ◌||◌, some, List, [], ◌∷◌, arith, ◌==◌,
  contains, if◌then◌else◌, get, put, get-put, get-delete, Bool-cases, Option-cases, inl, inr,
}
use vidya_god_ipfs.Friends.Service.{
  Friends, Shelf, shelf_of, run_push, set_share_lib, remove_share_lib, purge_shares,
  set_presence_deny, put_shelf,
}
use vidya_god_ipfs.Friends.Inbound.{dispatch, bounded_msg}
use vidya_god_ipfs.Friends.Actions.{
  add_friend, accept_friend, decline_friend, block_friend, ping_presence,
}
use vidya_god_ipfs.Friends.Machine.{
  Call, heard, adding, accepting, declining, blocking, pinged, sharing, unsharing, pushed, denying,
  after,
}
use vidya_god_ipfs.Friends.Pushes.{
  pushes, effects_of, Running, Step, calls, sends, read_push, call, step, steps, spares,
  contains-append, contains-without, contains-without_one, Announces, push_snapshot-Leaves,
  note_presence-Leaves, dispatch_kind-Leaves,
}

-- What is taken away from a peer is gone, and stays with the others.
pub shelf_of-purge_shares :
    (pid j : ℕ) (f : Friends)
    → shelf_of j (purge_shares pid f) ≡ (if pid == j then [] else shelf_of j f)
unfolding purge_shares
shelf_of-purge_shares pid j f = elim (Bool-cases (pid == j)) [
  | inl e ↦ rw (get-delete pid j f.share_libs, e, shelf_of) refl
  | inr e ↦ rw (get-delete pid j f.share_libs, e, shelf_of) refl
]

pub shelf_of-put :
    (pid j : ℕ) (m : Shelf) (f : Friends)
    → shelf_of j (record f { share_libs = put pid m f.share_libs })
      ≡ (if pid == j then m else shelf_of j f)
shelf_of-put pid j m f = elim (Bool-cases (pid == j)) [
  | inl e ↦ rw (get-put pid j m f.share_libs, e, shelf_of) refl
  | inr e ↦ rw (get-put pid j m f.share_libs, e, shelf_of) refl
]

shelf_of-put_shelf :
    (pid j : ℕ) (m : Shelf) (f : Friends)
    → (pid == j) ≡ false
    → shelf_of j (record f { share_libs = put_shelf pid m f.share_libs }) ≡ shelf_of j f
shelf_of-put_shelf pid j [] f e = rw (get-delete pid j f.share_libs, e, shelf_of) refl
shelf_of-put_shelf pid j (x ∷ m) f e = rw (get-put pid j (x ∷ m) f.share_libs, e, shelf_of) refl

-- A call starts a goroutine for every flag that it sets, and leaves the shelf of a peer that it spares.
remove_share_lib-Leaves :
    (j pid lib : ℕ) (f : Friends)
    → Announces j (remove_share_lib pid lib f) f
      × ((pid == j) ≡ false → shelf_of j (remove_share_lib pid lib f).0 ≡ shelf_of j f)
unfolding remove_share_lib
remove_share_lib-Leaves j pid lib f = elim (Option-cases (get pid f.share_libs)) [
  | inl e ↦ rw e ((push_snapshot-Leaves j pid f).0, λ h. (push_snapshot-Leaves j pid f).1)
  | inr (m, e) ↦ rw e (
    (push_snapshot-Leaves j pid _).0,
    λ h. (push_snapshot-Leaves j pid _).1 ∙ shelf_of-put_shelf pid j _ f h,
  )
]

after-Announces : (j : ℕ) (c : Call) (f : Friends) → Announces j (after c f, effects_of c f) f
unfolding after effects_of dispatch add_friend accept_friend ping_presence set_share_lib run_push
    set_presence_deny decline_friend block_friend purge_shares
after-Announces j (heard now remote m) f =
    (dispatch_kind-Leaves j m.kind now remote (bounded_msg m) f).0
after-Announces j (adding now pid note) f = ground arith
after-Announces j (accepting now pid) f = ground arith
after-Announces j (declining pid) f = ground (arith, contains-without j pid f.push_pending)
after-Announces j (blocking now pid) f = ground (arith, contains-without j pid f.push_pending)
after-Announces j (pinged now pid reached) f = (note_presence-Leaves j now pid reached f).0
after-Announces j (sharing pid lib items) f = (push_snapshot-Leaves j pid _).0
after-Announces j (unsharing pid lib items) f = (remove_share_lib-Leaves j pid lib f).0
after-Announces j (pushed pid) f = ground (arith, contains-without j pid f.push_pending)
after-Announces j (denying pids) f = ground arith

pub after-shelf_of :
    (j : ℕ) (c : Call) (f : Friends)
    → spares j (calls c) ≡ true
    → shelf_of j (after c f) ≡ shelf_of j f
unfolding after dispatch add_friend accept_friend decline_friend block_friend ping_presence
    set_share_lib run_push set_presence_deny
after-shelf_of j (heard now remote m) f h =
    (dispatch_kind-Leaves j m.kind now remote (bounded_msg m) f).1
after-shelf_of j (adding now pid note) f h = refl
after-shelf_of j (accepting now pid) f h = refl
after-shelf_of j (declining pid) f h = shelf_of-purge_shares pid j _ ∙ ground (arith, h)
after-shelf_of j (blocking now pid) f h = shelf_of-purge_shares pid j _ ∙ ground (arith, h)
after-shelf_of j (pinged now pid reached) f h = (note_presence-Leaves j now pid reached f).1
after-shelf_of j (sharing pid lib items) f h =
    (push_snapshot-Leaves j pid _).1 ∙ shelf_of-put pid j _ f ∙ ground (arith, h)
after-shelf_of j (unsharing pid lib items) f h =
    (remove_share_lib-Leaves j pid lib f).1 (ground (arith, h))
after-shelf_of j (pushed pid) f h = refl
after-shelf_of j (denying pids) f h = refl

-- A flag is set only while a goroutine is started that has not read.
abbrev pub Flagged : ℕ → Running → Type 0
Flagged j r = (not (contains j r.friends.push_pending) || contains j r.started) ≡ true

call-Flagged : (j : ℕ) (c : Call) (r : Running) → Flagged j r → Flagged j (call c r)
call-Flagged j c r h = ground (
  arith,
  h,
  after-Announces j c r.friends,
  contains-append j (pushes (effects_of c r.friends)) r.started,
)

read_push-Flagged : (j pid : ℕ) (r : Running) → Flagged j r → Flagged j (read_push pid r)
unfolding run_push
read_push-Flagged j pid r h = elim (Bool-cases (pid == j)) [
  | inl e ↦ ground (arith, e, contains-without j pid r.friends.push_pending)
  | inr e ↦ ground (
    arith,
    e,
    h,
    contains-without j pid r.friends.push_pending,
    contains-without_one j pid r.started e,
  )
]

pub step-Flagged : (j : ℕ) (s : Step) (r : Running) → Flagged j r → Flagged j (step s r)
unfolding step
step-Flagged j (calls (heard now pid m)) r h = call-Flagged j (heard now pid m) r h
step-Flagged j (calls (adding now pid note)) r h = call-Flagged j (adding now pid note) r h
step-Flagged j (calls (accepting now pid)) r h = call-Flagged j (accepting now pid) r h
step-Flagged j (calls (declining pid)) r h = call-Flagged j (declining pid) r h
step-Flagged j (calls (blocking now pid)) r h = call-Flagged j (blocking now pid) r h
step-Flagged j (calls (pinged now pid b)) r h = call-Flagged j (pinged now pid b) r h
step-Flagged j (calls (sharing pid lib items)) r h = call-Flagged j (sharing pid lib items) r h
step-Flagged j (calls (unsharing pid lib items)) r h = call-Flagged j (unsharing pid lib items) r h
step-Flagged j (calls (pushed pid)) r h = elim (Bool-cases (contains pid r.started)) [
  | inl e ↦ rw e (read_push-Flagged j pid r h)
  | inr e ↦ rw e h
]
step-Flagged j (calls (denying pids)) r h = call-Flagged j (denying pids) r h
step-Flagged j (sends n) r h = h

pub steps-Flagged : (j : ℕ) (ss : List Step) (r : Running) → Flagged j r → Flagged j (steps ss r)
unfolding steps
steps-Flagged j [] r h = h
steps-Flagged j (s ∷ ss) r h = steps-Flagged j ss (step s r) (step-Flagged j s r h)

-- What the peer is shown has been read as it is now, or is still to be read.
abbrev pub Current : ℕ → Running → Type 0
Current j r = (contains j r.started ≡ true) ⊎ (get j r.was_read ≡ some (shelf_of j r.friends))

call-Current :
    (j : ℕ) (c : Call) (r : Running)
    → spares j (calls c) ≡ true
    → Current j r
    → Current j (call c r)
call-Current j c r h (inl e) =
    inl (ground (arith, e, contains-append j (pushes (effects_of c r.friends)) r.started))
call-Current j c r h (inr e) = inr (e ∙ ap some (sym (after-shelf_of j c r.friends h)))

read_push-Current : (j pid : ℕ) (r : Running) → Current j r → Current j (read_push pid r)
unfolding run_push
read_push-Current j pid r h = elim (Bool-cases (pid == j)) [
  | inl e ↦
      let is : pid ≡ j = ground (arith, e) in inr (rw e (ap (λ k. some (shelf_of k r.friends)) is))
  | inr e ↦ elim h [
    | inl started_ ↦ inl (contains-without_one j pid r.started e ∙ started_)
    | inr same ↦ inr (rw e same)
  ]
]

pub step-Current :
    (j : ℕ) (s : Step) (r : Running) → spares j s ≡ true → Current j r → Current j (step s r)
unfolding step
step-Current j (calls (heard now pid m)) r e h = call-Current j (heard now pid m) r e h
step-Current j (calls (adding now pid note)) r e h = call-Current j (adding now pid note) r e h
step-Current j (calls (accepting now pid)) r e h = call-Current j (accepting now pid) r e h
step-Current j (calls (declining pid)) r e h = call-Current j (declining pid) r e h
step-Current j (calls (blocking now pid)) r e h = call-Current j (blocking now pid) r e h
step-Current j (calls (pinged now pid b)) r e h = call-Current j (pinged now pid b) r e h
step-Current j (calls (sharing pid lib is)) r e h = call-Current j (sharing pid lib is) r e h
step-Current j (calls (unsharing pid lib is)) r e h = call-Current j (unsharing pid lib is) r e h
step-Current j (calls (pushed pid)) r e h = elim (Bool-cases (contains pid r.started)) [
  | inl c ↦ rw c (read_push-Current j pid r h)
  | inr c ↦ rw c h
]
step-Current j (calls (denying pids)) r e h = call-Current j (denying pids) r e h
step-Current j (sends n) r e h = h
