-- ===== src/NetQueue.antt =====
-- netq.go: the one queue through which every job that opens new network flows takes a slot.
-- A method under `q.mu` is a function from the queue to the queue; a channel is a number, and a
-- closed channel is one that `granted` lists. `sync.Once` makes each release run at most once: it is
-- the caller's obligation in `Step` (NetQueue/Steps.antt).
pub mod Invariant
pub mod Order
pub mod Steps
use vidya_god_ipfs.Prelude.{
  ℕ, zero, suc, ◌+◌, ◌-◌, Bool, true, false, not, ◌&&◌, ◌||◌, List, [], ◌∷◌, ◌++◌, Option, none,
  some, ltb, leb, length, is_empty, contains, erase, if◌then◌else◌,
}

pub record NetQueue : Type 0 where
  pub slots : ℕ
  pub active : ℕ
  pub fg_active : ℕ
  pub fg : List ℕ
  pub bg : List ℕ
  pub holds : ℕ
  pub fg_idle : Bool
  pub granted : List ℕ
  pub next_channel : ℕ

unfoldable pub new_net_queue : ℕ → NetQueue
new_net_queue n = record {
  slots = n;
  active = 0;
  fg_active = 0;
  fg = [];
  bg = [];
  holds = 0;
  fg_idle = true;
  granted = [];
  next_channel = 0;
}

abbrev pub fg_busy : NetQueue → Bool
fg_busy q = ltb 0 q.fg_active || not (is_empty q.fg) || ltb 0 q.holds

abbrev pub bg_max : NetQueue → ℕ
bg_max q = if leb q.slots 1 || fg_busy q then 1 else q.slots - 1

abbrev pub mark_fg_busy : NetQueue → NetQueue
mark_fg_busy q = record q { fg_idle = false }

abbrev pub mark_fg_idle_if : NetQueue → NetQueue
mark_fg_idle_if q = if fg_busy q then q else record q { fg_idle = true }

abbrev bg_active : NetQueue → ℕ
bg_active q = q.active - q.fg_active

-- The two grants of a turn of `grantLocked`.
abbrev grant_fg : ℕ → List ℕ → NetQueue → NetQueue
grant_fg ch rest q = record q {
  fg = rest;
  fg_active = q.fg_active + 1;
  active = q.active + 1;
  granted = q.granted ++ ch ∷ [];
}

abbrev grant_bg : ℕ → List ℕ → NetQueue → NetQueue
grant_bg ch rest q = record q { bg = rest; active = q.active + 1; granted = q.granted ++ ch ∷ [] }

-- The `switch`, over the lists it inspects: `none` is its `default`, the loop's end.
pub turn : List ℕ → List ℕ → NetQueue → Option NetQueue
turn (ch ∷ rest) bg q = some (grant_fg ch rest q)
turn [] (ch ∷ rest) q = if ltb (bg_active q) (bg_max q) then some (grant_bg ch rest q) else none
turn [] [] q = none

-- The loop: a turn raises `active` by one, so `slots - active` turns reach the end of its test.
pub grant_loop : ℕ → NetQueue → NetQueue
grant_loop zero q = q
grant_loop (suc f) q = elim (turn q.fg q.bg q) [ none ↦ q | some q' ↦ grant_loop f q' ]

unfoldable pub grant : NetQueue → NetQueue
unfolding grant_loop turn
grant q = grant_loop (q.slots - q.active) q

unfoldable pub hold : NetQueue → NetQueue
hold q = mark_fg_busy (record q { holds = q.holds + 1 })

unfoldable pub release_hold : NetQueue → NetQueue
release_hold q = mark_fg_idle_if (grant (record q { holds = q.holds - 1 }))

pub data Acquired : Type 0 where
  slot : Acquired
  waiting : ℕ → Acquired

abbrev with_fg_mark : Bool → NetQueue → NetQueue
with_fg_mark fg q = if fg then mark_fg_busy q else q

abbrev may_take : Bool → NetQueue → Bool
may_take fg q = ltb q.active q.slots && (fg || (is_empty q.fg && ltb (bg_active q) (bg_max q)))

abbrev take_slot : Bool → NetQueue → NetQueue
take_slot fg q = record q {
  active = q.active + 1;
  fg_active = if fg then q.fg_active + 1 else q.fg_active;
}

abbrev enqueue : Bool → NetQueue → NetQueue
enqueue fg q = record q {
  fg = if fg then q.fg ++ q.next_channel ∷ [] else q.fg;
  bg = if fg then q.bg else q.bg ++ q.next_channel ∷ [];
  next_channel = q.next_channel + 1;
}

-- `acquire` up to its `select`: a slot at once, or a channel to wait on.
unfoldable pub acquire : Bool → NetQueue → NetQueue × Acquired
acquire fg q =
    let m = with_fg_mark fg q in
    if may_take fg m then (take_slot fg m, slot) else (enqueue fg m, waiting m.next_channel)

-- What the `releaser` runs.
unfoldable pub release : Bool → NetQueue → NetQueue
release fg q = mark_fg_idle_if (
    grant
      (record q { active = q.active - 1; fg_active = if fg then q.fg_active - 1 else q.fg_active }))

-- The `ctx.Done` branch of `acquire`: a waiter leaves, and one that was granted meanwhile hands its
-- slot on.
unfoldable pub give_up : Bool → ℕ → NetQueue → NetQueue
give_up fg ch q =
    if contains ch q.fg
    then mark_fg_idle_if (record q { fg = erase ch q.fg })
    else if contains ch q.bg
    then mark_fg_idle_if (record q { bg = erase ch q.bg })
    else release fg q

unfoldable pub set_slots : ℕ → NetQueue → NetQueue
set_slots n q = grant (record q { slots = if ltb n 1 then 1 else n })

unfoldable pub size : NetQueue → ℕ
size q = q.slots

-- `waitFgIdle`: it goes on at once exactly when the idle channel is closed.
unfoldable pub fg_is_idle : NetQueue → Bool
fg_is_idle q = q.fg_idle

unfoldable pub load : NetQueue → ℕ × ℕ
load q = (q.active, length q.fg + length q.bg)
