-- ===== src/NetQueue/Invariant.antt =====
-- What holds of the queue between two method calls, and that every method keeps it.
use vidya_god_ipfs.Prelude.{
  ℕ, zero, suc, ◌+◌, ◌-◌, ◌≤◌, ◌<◌, ◌≡◌, refl, Bool, true, false, not, none, some, List, [], ◌∷◌,
  arith, ltb, is_empty, contains, erase, Bool-cases, Option-cases, inl, inr, sym, if◌then◌else◌,
}
use mathlib.Core.Path.{subst}
use vidya_god_ipfs.NetQueue.{
  mark_fg_idle_if, NetQueue, bg_max, fg_busy, bg_active, turn, grant_loop, grant, new_net_queue,
  hold, release_hold, acquire, release, give_up, set_slots,
}

-- The loop of `grantLocked` has nothing left to do.
abbrev pub Settled : NetQueue → Type 0
Settled q =
    q.active < q.slots → (is_empty q.fg ≡ true) × (is_empty q.bg ≡ false → bg_max q ≤ bg_active q)

pub record IsValid (q : NetQueue) : Type 0 where
  pub has_slot : 1 ≤ q.slots
  pub fg_within : q.fg_active ≤ q.active
  pub settled : Settled q
  pub idle_exact : q.fg_idle ≡ not (fg_busy q)

-- What a run of grants leaves as it was.
pub record Frame (q t : NetQueue) : Type 0 where
  pub slots : t.slots ≡ q.slots
  pub holds : t.holds ≡ q.holds
  pub idle : t.fg_idle ≡ q.fg_idle
  pub busy : fg_busy t ≡ fg_busy q
  pub within : t.fg_active ≤ t.active

turn-none : (q : NetQueue) → turn q.fg q.bg q ≡ none → Settled q
unfolding turn
turn-none q h = ground arith

turn-Frame : (q t : NetQueue) → q.fg_active ≤ q.active → turn q.fg q.bg q ≡ some t → Frame q t
unfolding turn
turn-Frame q t w h = ground arith

active-turn : (q t : NetQueue) → turn q.fg q.bg q ≡ some t → t.active ≡ q.active + 1
unfolding turn
active-turn q t h = ground arith

Frame-refl : (q : NetQueue) → q.fg_active ≤ q.active → Frame q q
Frame-refl q w = record { slots = refl; holds = refl; idle = refl; busy = refl; within = w }

Frame-trans : (q t u : NetQueue) → Frame q t → Frame t u → Frame q u
Frame-trans q t u a b = ground arith

pub grant_loop-stop : (f : ℕ) (q : NetQueue) → turn q.fg q.bg q ≡ none → grant_loop (suc f) q ≡ q
unfolding grant_loop
grant_loop-stop f q e = rw (e, grant_loop)

pub grant_loop-go :
    (f : ℕ) (q t : NetQueue) → turn q.fg q.bg q ≡ some t → grant_loop (suc f) q ≡ grant_loop f t
unfolding grant_loop
grant_loop-go f q t e = rw (e, grant_loop)

grant_loop-Frame : (f : ℕ) (q : NetQueue) → q.fg_active ≤ q.active → Frame q (grant_loop f q)
grant_loop-Frame zero q w = unfold grant_loop in Frame-refl q w
grant_loop-Frame (suc f) q w = elim (Option-cases (turn q.fg q.bg q)) [
  | inl e ↦ rw (grant_loop-stop f q e) (Frame-refl q w)
  | inr (t, e) ↦
      let fr = turn-Frame q t w e in
      rw (grant_loop-go f q t e)
        (Frame-trans q t (grant_loop f t) fr (grant_loop-Frame f t fr.within))
]

grant_loop-Settled :
    (f : ℕ) (q : NetQueue)
    → q.fg_active ≤ q.active
    → q.slots - q.active ≤ f
    → Settled (grant_loop f q)
grant_loop-Settled zero q w h = unfold grant_loop in λ lt. absurd (omega arith)
grant_loop-Settled (suc f) q w h = elim (Option-cases (turn q.fg q.bg q)) [
  | inl e ↦ subst Settled (sym (grant_loop-stop f q e)) (turn-none q e)
  | inr (t, e) ↦ subst Settled (sym (grant_loop-go f q t e)) (
      grant_loop-Settled f t (turn-Frame q t w e).within
        (omega (arith, active-turn q t e, (turn-Frame q t w e).slots)))
]

-- Whatever the state it is called in, the grants end with nothing left to do.
pub grant-Settled : (q : NetQueue) → q.fg_active ≤ q.active → Settled (grant q)
unfolding grant
grant-Settled q w = grant_loop-Settled (q.slots - q.active) q w (omega arith)

pub grant-Frame : (q : NetQueue) → q.fg_active ≤ q.active → Frame q (grant q)
unfolding grant
grant-Frame q w = grant_loop-Frame (q.slots - q.active) q w

IsValid-mark_idle :
    (q : NetQueue)
    → 1 ≤ q.slots
    → q.fg_active ≤ q.active
    → Settled q
    → (fg_busy q ≡ true → q.fg_idle ≡ false)
    → IsValid (mark_fg_idle_if q)
IsValid-mark_idle q a b c d = ground arith

pub new_net_queue-IsValid : (n : ℕ) → 1 ≤ n → IsValid (new_net_queue n)
unfolding new_net_queue
new_net_queue-IsValid n h = ground arith

pub hold-IsValid : (q : NetQueue) → IsValid q → IsValid (hold q)
unfolding hold
hold-IsValid q v = ground arith

pub acquire-IsValid : (fg : Bool) (q : NetQueue) → IsValid q → IsValid (acquire fg q).0
unfolding acquire
acquire-IsValid fg q v = ground arith

pub set_slots-IsValid : (n : ℕ) (q : NetQueue) → IsValid q → IsValid (set_slots n q)
unfolding set_slots
set_slots-IsValid n q v =
    let r : NetQueue = record q { slots = if ltb n 1 then 1 else n } in
    ground (arith, grant-Settled r, grant-Frame r)

-- What `release` and the end of a hold do after their own change: grant, then mark.
grant-mark-IsValid :
    (q : NetQueue)
    → 1 ≤ q.slots
    → q.fg_active ≤ q.active
    → (fg_busy q ≡ true → q.fg_idle ≡ false)
    → IsValid (mark_fg_idle_if (grant q))
grant-mark-IsValid q a b c =
    IsValid-mark_idle (grant q) (ground (arith, grant-Frame q b)) (ground (arith, grant-Frame q b))
      (grant-Settled q b) (ground (arith, grant-Frame q b))

-- The caller holds a slot of the kind it releases.
abbrev pub Holder : Bool → NetQueue → Type 0
Holder fg q = if fg then 1 ≤ q.fg_active else q.fg_active < q.active

pub release-IsValid : (fg : Bool) (q : NetQueue) → IsValid q → Holder fg q → IsValid (release fg q)
unfolding release
release-IsValid true q v h =
    grant-mark-IsValid (record q { active = q.active - 1; fg_active = q.fg_active - 1 }) v.has_slot
      (omega arith) (ground arith)
release-IsValid false q v h =
    grant-mark-IsValid (record q { active = q.active - 1 }) v.has_slot (omega arith) (ground arith)

pub release_hold-IsValid : (q : NetQueue) → IsValid q → 1 ≤ q.holds → IsValid (release_hold q)
unfolding release_hold
release_hold-IsValid q v h =
    grant-mark-IsValid (record q { holds = q.holds - 1 }) v.has_slot v.fg_within (ground arith)

contains-not_empty : (ch : ℕ) (xs : List ℕ) → contains ch xs ≡ true → is_empty xs ≡ false
contains-not_empty ch [] h = cc
contains-not_empty ch (x ∷ xs) h = refl

erase-is_empty : (ch : ℕ) (xs : List ℕ) → is_empty xs ≡ true → is_empty (erase ch xs) ≡ true
erase-is_empty ch [] h = refl
erase-is_empty ch (x ∷ xs) h = cc

-- A waiter that leaves grants nothing: with a foreground waiter in line no slot was free, and a
-- background waiter that leaves opens nothing to the others.
pub give_up-IsValid :
    (fg : Bool) (ch : ℕ) (q : NetQueue)
    → IsValid q
    → (contains ch q.fg ≡ false → contains ch q.bg ≡ false → Holder fg q)
    → IsValid (give_up fg ch q)
unfolding give_up
give_up-IsValid fg ch q v h = elim (Bool-cases (contains ch q.fg)) [
  | inl in_fg ↦ rw in_fg (
      IsValid-mark_idle (record q { fg = erase ch q.fg }) v.has_slot v.fg_within
        (λ lt. absurd (ground (arith, contains-not_empty ch q.fg)))
        (ground (arith, contains-not_empty ch q.fg)))
  | inr out_fg ↦ rw out_fg (elim (Bool-cases (contains ch q.bg)) [
    | inl in_bg ↦ rw in_bg (
        IsValid-mark_idle (record q { bg = erase ch q.bg }) v.has_slot v.fg_within
          (ground (arith, contains-not_empty ch q.bg)) (ground arith))
    | inr out_bg ↦ rw out_bg (release-IsValid fg q v (h out_fg out_bg))
  ])
]
