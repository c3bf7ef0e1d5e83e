-- ===== src/Friends/Shown.antt =====
-- What pushes read for a friend of the libraries after a change.
use vidya_god_ipfs.Prelude.{
  ℕ, ◌≡◌, refl, ap, ◌∙◌, true, ◌||◌, Option, none, some, List, [], ◌∷◌, arith, ◌==◌, contains, get,
  put, delete, get-put, get-delete, Bool-cases, Option-cases, inl, inr,
}
use vidya_god_ipfs.Friends.Text.{ShareItem}
use vidya_god_ipfs.Friends.Social.{accepted, state_of}
use vidya_god_ipfs.Friends.Service.{
  Friends, Shelf, shelf_of, push_snapshot, run_push, set_share_lib, remove_share_lib, put_shelf,
}
use vidya_god_ipfs.Friends.Machine.{
  Call, heard, adding, accepting, declining, blocking, pinged, sharing, unsharing, pushed, denying,
  after,
}
use vidya_god_ipfs.Friends.Pushes.{
  pushes, effects_of, Running, Step, calls, sends, call, step, steps, spares, all_spare,
  contains-append, push_snapshot-Leaves,
}
use vidya_god_ipfs.Friends.Sharing.{
  shelf_of-put, after-shelf_of, Flagged, steps-Flagged, Current, step-Current,
}

-- A push to an accepted friend: its goroutine is started, or was before.
push_snapshot-starts :
    (pid : ℕ) (f : Friends)
    → state_of pid f.social ≡ accepted
    → (contains pid (pushes (push_snapshot pid f).1) || contains pid f.push_pending) ≡ true
unfolding push_snapshot
push_snapshot-starts pid f e = elim (Bool-cases (contains pid f.push_pending)) [
  | inl c ↦ rw (e, c) refl
  | inr c ↦ rw (e, c) (ground arith)
]

call-starts :
    (pid : ℕ) (c : Call) (r : Running)
    → Flagged pid r
    → (contains pid (pushes (effects_of c r.friends)) || contains pid r.friends.push_pending) ≡ true
    → contains pid (call c r).started ≡ true
call-starts pid c r flagged h =
    ground (arith, flagged, h, contains-append pid (pushes (effects_of c r.friends)) r.started)

-- The steps after a change.
steps-Current :
    (j : ℕ) (ss : List Step) (r : Running)
    → all_spare j ss ≡ true
    → Current j r
    → Current j (steps ss r)
unfolding steps
steps-Current j [] r e h = h
steps-Current j (s ∷ ss) r e h =
    steps-Current j ss (step s r) (ground (arith, e)) (step-Current j s r (ground (arith, e)) h)

pub step-shelf_of :
    (j : ℕ) (s : Step) (r : Running)
    → spares j s ≡ true
    → shelf_of j (step s r).friends ≡ shelf_of j r.friends
unfolding step
step-shelf_of j (calls (heard now pid m)) r h = after-shelf_of j (heard now pid m) r.friends h
step-shelf_of j (calls (adding now pid note)) r h =
    after-shelf_of j (adding now pid note) r.friends h
step-shelf_of j (calls (accepting now pid)) r h = after-shelf_of j (accepting now pid) r.friends h
step-shelf_of j (calls (declining pid)) r h = after-shelf_of j (declining pid) r.friends h
step-shelf_of j (calls (blocking now pid)) r h = after-shelf_of j (blocking now pid) r.friends h
step-shelf_of j (calls (pinged now pid b)) r h = after-shelf_of j (pinged now pid b) r.friends h
step-shelf_of j (calls (sharing pid lib is)) r h = after-shelf_of j (sharing pid lib is) r.friends h
step-shelf_of j (calls (unsharing pid lib is)) r h =
    after-shelf_of j (unsharing pid lib is) r.friends h
step-shelf_of j (calls (pushed pid)) r h = elim (Bool-cases (contains pid r.started)) [
  | inl c ↦ rw c (unfold run_push in refl)
  | inr c ↦ rw c refl
]
step-shelf_of j (calls (denying pids)) r h = after-shelf_of j (denying pids) r.friends h
step-shelf_of j (sends n) r h = refl

steps-shelf_of :
    (j : ℕ) (ss : List Step) (r : Running)
    → all_spare j ss ≡ true
    → shelf_of j (steps ss r).friends ≡ shelf_of j r.friends
unfolding steps
steps-shelf_of j [] r e = refl
steps-shelf_of j (s ∷ ss) r e =
    steps-shelf_of j ss (step s r) (ground (arith, e)) ∙ step-shelf_of j s r (ground (arith, e))

-- The service before any push.
abbrev pub idle : Friends → Running
idle f = record { friends = f; started = []; unsent = []; outbox = []; was_read = [] }

idle-Flagged : (j : ℕ) (f : Friends) → f.push_pending ≡ [] → Flagged j (idle f)
idle-Flagged j f e = rw e refl

pub same_peer : (j : ℕ) → (j == j) ≡ true
same_peer j = ground arith

-- What is changed of a library: it is shared with some items, or no longer.
abbrev pub change : ℕ → ℕ → Option (List ShareItem) → Call
change pid lib none = unsharing pid lib []
change pid lib (some items) = sharing pid lib items

shelf_of-put_shelf :
    (pid : ℕ) (m : Shelf) (f : Friends)
    → shelf_of pid (record f { share_libs = put_shelf pid m f.share_libs }) ≡ m
shelf_of-put_shelf pid [] f = rw (get-delete pid pid f.share_libs, same_peer pid, shelf_of) refl
shelf_of-put_shelf pid (x ∷ m) f =
    rw (get-put pid pid (x ∷ m) f.share_libs, same_peer pid, shelf_of) refl

removed_shelf :
    (pid lib : ℕ) (f : Friends) → get lib (shelf_of pid (remove_share_lib pid lib f).0) ≡ none
unfolding remove_share_lib
removed_shelf pid lib f = elim (Option-cases (get pid f.share_libs)) [
  | inl e ↦
      let kept = (push_snapshot-Leaves pid pid f).1 in
      let nothing : shelf_of pid f ≡ [] = rw (e, shelf_of) refl in
      rw e (ap (get lib) (kept ∙ nothing))
  | inr (m, e) ↦
      let left : Shelf = delete lib m in
      let f' : Friends = record f { share_libs = put_shelf pid left f.share_libs } in
      let kept : shelf_of pid (push_snapshot pid f').0 ≡ shelf_of pid f' =
        (push_snapshot-Leaves pid pid f').1 in
      let all : shelf_of pid (push_snapshot pid f').0 ≡ left =
        kept ∙ shelf_of-put_shelf pid left f in
      rw e (ap (get lib) all ∙ get-delete lib lib m ∙ rw (same_peer lib) refl)
]

changed_shelf :
    (pid lib : ℕ) (o : Option (List ShareItem)) (f : Friends)
    → get lib (shelf_of pid (after (change pid lib o) f)) ≡ o
unfolding after set_share_lib remove_share_lib
changed_shelf pid lib (some items) f =
    let shelf : Shelf = put lib items (shelf_of pid f) in
    let put_there : shelf_of pid (record f { share_libs = put pid shelf f.share_libs }) ≡ shelf =
      shelf_of-put pid pid shelf f ∙ rw (same_peer pid) refl in
    let kept = (push_snapshot-Leaves pid pid _).1 in
    ap (get lib) (kept ∙ put_there)
    ∙ get-put lib lib items (shelf_of pid f)
    ∙ rw (same_peer lib) refl
changed_shelf pid lib none f = removed_shelf pid lib f

changed_starts :
    (pid lib : ℕ) (o : Option (List ShareItem)) (f : Friends)
    → state_of pid f.social ≡ accepted
    → (contains pid (pushes (effects_of (change pid lib o) f)) || contains pid f.push_pending)
      ≡ true
unfolding effects_of set_share_lib remove_share_lib
changed_starts pid lib (some items) f e = push_snapshot-starts pid _ e
changed_starts pid lib none f e = push_snapshot-starts pid _ e

step-change :
    (pid lib : ℕ) (o : Option (List ShareItem)) (r : Running)
    → step (calls (change pid lib o)) r ≡ call (change pid lib o) r
unfolding step
step-change pid lib none r = refl
step-change pid lib (some items) r = refl

-- After any steps of the service, a library is shared with an accepted friend, or no longer shared with
-- it. Then through any later steps that leave alone what the friend is shown: a goroutine is started for
-- the friend that has yet to read its shelf, or the last shelf that was read for it is the one it has
-- now; and that one holds the library with the items it was shared with, or does not hold it.
pub change-steps :
    (f : Friends) (before later : List Step) (pid lib : ℕ) (o : Option (List ShareItem))
    → f.push_pending ≡ []
    → state_of pid (steps before (idle f)).friends.social ≡ accepted
    → all_spare pid later ≡ true
    → Current pid (steps later (step (calls (change pid lib o)) (steps before (idle f))))
      × (get lib (
            shelf_of pid
              (steps later (step (calls (change pid lib o)) (steps before (idle f)))).friends)
          ≡ o)
change-steps f before later pid lib o none_yet friend quiet =
    let r : Running = steps before (idle f) in
    let flagged : Flagged pid r = steps-Flagged pid before (idle f) (idle-Flagged pid f none_yet) in
    let r' : Running = call (change pid lib o) r in
    rw (step-change pid lib o r) (
      steps-Current pid later r' quiet (
          inl (
            call-starts pid (change pid lib o) r flagged
              (changed_starts pid lib o r.friends friend))),
      ap (get lib) (steps-shelf_of pid later r' quiet) ∙ changed_shelf pid lib o r.friends,
    )
