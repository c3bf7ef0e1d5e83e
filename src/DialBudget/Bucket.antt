-- ===== src/DialBudget/Bucket.antt =====
-- netgate.go: the token bucket. The code counts tokens in floating point and the seconds between
-- two looks; here a token is 10 ^ 9 units, so that each of the 4 tokens in a second is 4 units in a
-- nanosecond, and the sums are exact.
use vidya_god_ipfs.Prelude.{
  ℕ, ◌+◌, ◌-◌, ◌*◌, ◌/◌, min, Bool, true, false, Option, none, some, List, [], ◌∷◌, ltb, leb, ◌==◌,
  if◌then◌else◌,
}

abbrev pub dial_rate : ℕ
dial_rate = 4

abbrev pub token : ℕ
token = 1_000_000_000

abbrev pub dial_burst : ℕ
dial_burst = 12_000_000_000

abbrev pub dial_max_wait : ℕ
dial_max_wait = 3_000_000_000

-- `tokenBucket`; times are in nanoseconds, `last` is 0 before the first look
pub record Bucket : Type 0 where
  pub tokens : ℕ
  pub last : ℕ

-- The tokens at a time
unfoldable pub refill : ℕ → Bucket → Bucket
refill now b = record {
  tokens =
      if b.last == 0 then dial_burst else min dial_burst (b.tokens + (now - b.last) * dial_rate);
  last = now;
}

-- What a round of the loop of `take` comes to: a token, no token in time, or a sleep.
pub data Round : Type 0 where
  taken refused : Round
  sleeps : ℕ → Round

-- The wait for the next token
abbrev pub wait_for : Bucket → ℕ
wait_for b = (token - b.tokens) / dial_rate

unfoldable pub spend : ℕ → Bucket → Bucket × Round
spend deadline b =
    if leb token b.tokens
    then (record b { tokens = b.tokens - token }, taken)
    else if ltb deadline (b.last + wait_for b)
    then (b, refused)
    else (b, sleeps (wait_for b))

unfoldable pub look : ℕ → ℕ → Bucket → Bucket × Round
look deadline now b = spend deadline (refill now b)

-- A round of the loop of `take`: what the other dials made of the bucket since the round before, while
-- the mutex was free, and the time that the round reads.
pub record Look : Type 0 where
  pub others : Bucket → Bucket
  pub now : ℕ

-- `take`, for its rounds; none where these run out
unfoldable pub take_from : ℕ → List Look → Bucket → Bucket × Option Bool
take_from deadline [] b = (b, none)
take_from deadline (l ∷ looks) b =
    let (b', round) = look deadline l.now (l.others b) in
    let rest = take_from deadline looks b' in
    elim round [ taken ↦ (b', some true) | refused ↦ (b', some false) | sleeps wait ↦ rest ]
