-- ===== src/NetQueue/Steps.antt =====
-- The queue over any sequence of method calls. A release is run once by one who holds a slot, the
-- end of a hold once by one who holds the foreground: the premises of the steps.
use vidya_god_ipfs.Prelude.{
  ℕ, zero, suc, ◌+◌, ◌-◌, ◌≤◌, ◌<◌, ◌≡◌, Bool, true, false, some, arith, leb, Option-cases, inl,
  inr, contains, erase, if◌then◌else◌, Bool-cases,
}
use vidya_god_ipfs.NetQueue.{
  NetQueue, new_net_queue, bg_active, turn, grant_loop, grant, acquire, release, hold, release_hold,
  give_up, set_slots, mark_fg_idle_if,
}
use vidya_god_ipfs.NetQueue.Invariant.{
  IsValid, Holder, hold-IsValid, acquire-IsValid, set_slots-IsValid, release-IsValid,
  release_hold-IsValid, give_up-IsValid, new_net_queue-IsValid, grant_loop-stop, grant_loop-go,
}

pub data Step (q : NetQueue) : NetQueue → Type 0 where
  acquires : (fg : Bool) → Step q (acquire fg q).0
  releases : (fg : Bool) → Holder fg q → Step q (release fg q)
  gives_up :
      (fg : Bool) (ch : ℕ)
      → (contains ch q.fg ≡ false → contains ch q.bg ≡ false → Holder fg q)
      → Step q (give_up fg ch q)
  holds : Step q (hold q)
  unholds : 1 ≤ q.holds → Step q (release_hold q)

pub data Steps (q : NetQueue) : NetQueue → Type 0 where
  here : Steps q q
  next : {t u : NetQueue} → Steps q t → Step t u → Steps q u

-- The queue of a node that was made with `n` slots, resized at any time.
pub data Reach (n : ℕ) : NetQueue → Type 0 where
  start : Reach n (new_net_queue n)
  steps : {q t : NetQueue} → Reach n q → Step q t → Reach n t
  resize : {q : NetQueue} (m : ℕ) → Reach n q → Reach n (set_slots m q)

Step-IsValid : {q t : NetQueue} → Step q t → IsValid q → IsValid t
Step-IsValid {q} (acquires fg) v = acquire-IsValid fg q v
Step-IsValid {q} (releases fg h) v = release-IsValid fg q v h
Step-IsValid {q} (gives_up fg ch h) v = give_up-IsValid fg ch q v h
Step-IsValid {q} holds v = hold-IsValid q v
Step-IsValid {q} (unholds h) v = release_hold-IsValid q v h

-- In every state that method calls reach, resizes included: no free slot waits beside a waiter it
-- may go to, the foreground jobs are among the active ones, and the idle channel is closed exactly
-- while no foreground job holds or waits for a slot and nobody holds the foreground.
pub Reach-IsValid : {n : ℕ} {q : NetQueue} → 1 ≤ n → Reach n q → IsValid q
Reach-IsValid {n} h start = new_net_queue-IsValid n h
Reach-IsValid h (steps r s) = Step-IsValid s (Reach-IsValid h r)
Reach-IsValid h (resize {q} m r) = set_slots-IsValid m q (Reach-IsValid h r)

-- What background work may hold at most, whatever the foreground does: never the last slot of
-- several.
abbrev pub bg_cap : ℕ → ℕ
bg_cap n = if leb n 1 then 1 else n - 1

pub record IsBounded (q : NetQueue) : Type 0 where
  pub within_slots : q.active ≤ q.slots
  pub bg_within : bg_active q ≤ bg_cap q.slots

turn-IsBounded :
    (q t : NetQueue)
    → 1 ≤ q.slots
    → q.fg_active ≤ q.active
    → q.active < q.slots
    → IsBounded q
    → turn q.fg q.bg q ≡ some t
    → IsBounded t × (t.slots ≡ q.slots) × (t.active ≡ q.active + 1) × (t.fg_active ≤ t.active)
unfolding turn
turn-IsBounded q t o w lt b h = ground arith

grant_loop-IsBounded :
    (f : ℕ) (q : NetQueue)
    → f ≤ q.slots - q.active
    → 1 ≤ q.slots
    → q.fg_active ≤ q.active
    → IsBounded q
    → IsBounded (grant_loop f q)
grant_loop-IsBounded zero q le o w b = unfold grant_loop in b
grant_loop-IsBounded (suc f) q le o w b = elim (Option-cases (turn q.fg q.bg q)) [
  | inl e ↦ rw (grant_loop-stop f q e) b
  | inr (t, e) ↦
      let s = turn-IsBounded q t o w (omega arith) b e in
      rw (grant_loop-go f q t e)
        (grant_loop-IsBounded f t (omega (arith, s)) (omega (arith, s)) s.3 s.0)
]

grant-IsBounded :
    (q : NetQueue) → 1 ≤ q.slots → q.fg_active ≤ q.active → IsBounded q → IsBounded (grant q)
unfolding grant
grant-IsBounded q o w b = grant_loop-IsBounded (q.slots - q.active) q (omega arith) o w b

mark-IsBounded : (q : NetQueue) → IsBounded q → IsBounded (mark_fg_idle_if q)
mark-IsBounded q b = ground arith

release-IsBounded :
    (fg : Bool) (q : NetQueue) → IsValid q → Holder fg q → IsBounded q → IsBounded (release fg q)
unfolding release
release-IsBounded true q v h b = mark-IsBounded _ (
    grant-IsBounded (record q { active = q.active - 1; fg_active = q.fg_active - 1 }) v.has_slot
      (omega arith) (ground arith))
release-IsBounded false q v h b =
    mark-IsBounded _
      (grant-IsBounded (record q { active = q.active - 1 }) v.has_slot (omega arith) (ground arith))

Step-IsBounded : {q t : NetQueue} → Step q t → IsValid q → IsBounded q → IsBounded t
unfolding acquire hold release_hold give_up
Step-IsBounded {q} (acquires fg) v b = ground arith
Step-IsBounded {q} (releases fg h) v b = release-IsBounded fg q v h b
Step-IsBounded {q} (gives_up fg ch h) v b = elim (Bool-cases (contains ch q.fg)) [
  | inl i ↦ rw i (mark-IsBounded (record q { fg = erase ch q.fg }) (omega (arith, b)))
  | inr i ↦ rw i (elim (Bool-cases (contains ch q.bg)) [
    | inl j ↦ rw j (mark-IsBounded (record q { bg = erase ch q.bg }) (omega (arith, b)))
    | inr j ↦ rw j (release-IsBounded fg q v (h i j) b)
  ])
]
Step-IsBounded {q} holds v b = ground arith
Step-IsBounded {q} (unholds h) v b =
    mark-IsBounded _
      (grant-IsBounded (record q { holds = q.holds - 1 }) v.has_slot v.fg_within (omega (arith, b)))

-- However the calls interleave, as long as the size is not changed: no more slots are in use than
-- there are, and background work never holds the last slot of two or more.
pub Steps-IsBounded :
    {q t : NetQueue} → IsValid q → IsBounded q → Steps q t → IsValid t × IsBounded t
Steps-IsBounded v b here = (v, b)
Steps-IsBounded v b (next r s) =
    let before = Steps-IsBounded v b r in
    (Step-IsValid s before.0, Step-IsBounded s before.0 before.1)
