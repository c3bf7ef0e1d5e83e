-- ===== src/WantPool.antt =====
-- fetch.go: the pool of want tokens that all fetches share, and the controller that sizes it.
-- The smoothed rate is a float: the limit that a step computes from it is an argument of the step.
pub mod Tokens
use vidya_god_ipfs.Prelude.{
  ℕ, zero, suc, ◌+◌, ◌-◌, Bool, true, false, ◌&&◌, ltb, ◌==◌, if◌then◌else◌,
}

abbrev pub want_floor : ℕ
want_floor = 32

-- `wantPool`: `tokens` is how many tokens the channel holds, `limit` the tokens in circulation.
pub record WantPool : Type 0 where
  pub tokens : ℕ
  pub size : ℕ
  pub limit : ℕ
  pub delivered : ℕ
  pub parked : ℕ

-- `newWantPool`
abbrev pub new_want_pool : ℕ → WantPool
new_want_pool n = record { tokens = n; size = n; limit = n; delivered = 0; parked = 0 }

-- `tryAcquire`: whether there was a token. `acquire` goes on with one in the same way.
unfoldable pub try_acquire : WantPool → WantPool × Bool
try_acquire p = if p.tokens == 0 then (p, false) else (record p { tokens = p.tokens - 1 }, true)

-- `release`: a token that does not fit the channel is dropped
unfoldable pub release : WantPool → WantPool
release p = if ltb p.tokens p.size then record p { tokens = p.tokens + 1 } else p

-- The first loop of `setLimitLocked`: parked tokens go back into the channel. Each round takes one
-- of the parked ones. A send on a full channel blocks for ever: `none`.
pub data Unparked : Type 0 where
  blocked : Unparked
  unparked : WantPool → Unparked

pub unpark : ℕ → ℕ → WantPool → Unparked
unpark zero n p = unparked p
unpark (suc f) n p =
    if ltb (p.size - p.parked) n && ltb 0 p.parked
    then (if ltb p.tokens p.size
        then unpark f n (record p { tokens = p.tokens + 1; parked = p.parked - 1 })
        else blocked)
    else unparked p

-- The second loop: tokens that are there are parked. Each round takes one of the channel's.
pub park : ℕ → ℕ → WantPool → WantPool
park zero n p = p
park (suc f) n p =
    let (q, got) = try_acquire p in
    if ltb n (p.size - p.parked) && got then park f n (record q { parked = q.parked + 1 }) else p

abbrev pub at_least_floor : ℕ → ℕ
at_least_floor n = if ltb n want_floor then want_floor else n

abbrev with_limit : WantPool → WantPool
with_limit p = record p { limit = p.size - p.parked }

-- `setLimitLocked`
unfoldable pub set_limit : ℕ → WantPool → Unparked
unfolding unpark park
set_limit n p = elim (unpark p.parked (at_least_floor n) p) [
  | blocked ↦ blocked
  | unparked q ↦ unparked (with_limit (park q.tokens (at_least_floor n) q))
]

-- `step`: the blocks that were delivered are taken, and the limit that they give is set.
unfoldable pub step : ℕ → WantPool → Unparked
step n p = set_limit n (record p { delivered = 0 })
