-- ===== src/DialBudget/Rate.antt =====
-- How many dials the budget lets through.
use vidya_god_ipfs.Prelude.{
  ℕ, ◌+◌, ◌-◌, ◌*◌, min, ◌≤◌, ◌<◌, ◌≡◌, refl, ◌∙◌, Bool, true, false, ◌&&◌, List, [], ◌∷◌, arith,
  ltb, leb, leb-cases, ◌==◌, both_branches, inl, inr,
}
use vidya_god_ipfs.DialBudget.Bucket.{
  Bucket, Round, taken, refused, sleeps, refill, look, token, dial_rate, spend, wait_for,
  dial_burst,
}

-- Looks at the bucket, by whichever dials, each with its deadline and time, in the order of the clock.
abbrev pub in_order : ℕ → List (ℕ × ℕ) → Bool
in_order from [] = true
in_order from ((deadline, now) ∷ looks) = leb from now && in_order now looks

abbrev pub is_taken : Round → ℕ
is_taken taken = 1
is_taken _ = 0

unfoldable pub dials : List (ℕ × ℕ) → Bucket → ℕ
dials [] b = 0
dials ((deadline, now) ∷ looks) b =
    is_taken (look deadline now b).1 + dials looks (look deadline now b).0

abbrev pub last_of : ℕ → List (ℕ × ℕ) → ℕ
last_of from [] = from
last_of from ((deadline, now) ∷ looks) = last_of now looks

-- A round that takes a token takes it from the bucket.
spend-exact :
    (deadline : ℕ) (b : Bucket)
    → (is_taken (spend deadline b).1 * token + (spend deadline b).0.tokens ≡ b.tokens)
      × ((spend deadline b).0.last ≡ b.last)
unfolding spend
spend-exact deadline b = elim (leb-cases token b.tokens) [
  | inl (e, le) ↦ rw (e, spend) (omega arith, refl)
  | inr (e, gt) ↦
      rw (e, spend)
        (both_branches
          (λ (r : Bucket × Round).
            (is_taken r.1 * token + r.0.tokens ≡ b.tokens) × (r.0.last ≡ b.last))
          (ltb deadline (b.last + wait_for b)) (b, refused) (b, sleeps (wait_for b))
          (omega arith, refl) (omega arith, refl))
]

refill-most :
    (now : ℕ) (b : Bucket)
    → 0 < b.last
    → (refill now b).tokens ≤ b.tokens + (now - b.last) * dial_rate
unfolding refill
refill-most now b set = let e : (b.last == 0) ≡ false = ground arith in rw e (omega arith)

refill-burst : (now : ℕ) (b : Bucket) → (refill now b).tokens ≤ dial_burst
unfolding refill
refill-burst now b =
    both_branches (λ (n : ℕ). n ≤ dial_burst) (b.last == 0) dial_burst
      (min dial_burst (b.tokens + (now - b.last) * dial_rate)) (omega arith) (omega arith)

pub last-refill : (now : ℕ) (b : Bucket) → (refill now b).last ≡ now
unfolding refill
last-refill now b = refl

-- A look after another: what is given out is no more than what was there and came since.
look-spends :
    (deadline now : ℕ) (b : Bucket)
    → 0 < b.last
    → (is_taken (look deadline now b).1 * token + (look deadline now b).0.tokens
        ≤ b.tokens + (now - b.last) * dial_rate)
      × ((look deadline now b).0.last ≡ now)
unfolding look
look-spends deadline now b set =
    let (exact, same) : (is_taken (spend deadline (refill now b)).1 * token
            + (spend deadline (refill now b)).0.tokens
          ≡ (refill now b).tokens)
        × ((spend deadline (refill now b)).0.last ≡ (refill now b).last) =
      spend-exact deadline (refill now b) in
    let most : (refill now b).tokens ≤ b.tokens + (now - b.last) * dial_rate =
      refill-most now b set in
    (omega arith, same ∙ last-refill now b)

-- The first look: no more than the burst.
look-burst :
    (deadline now : ℕ) (b : Bucket)
    → (is_taken (look deadline now b).1 * token + (look deadline now b).0.tokens ≤ dial_burst)
      × ((look deadline now b).0.last ≡ now)
unfolding look
look-burst deadline now b =
    let (exact, same) : (is_taken (spend deadline (refill now b)).1 * token
            + (spend deadline (refill now b)).0.tokens
          ≡ (refill now b).tokens)
        × ((spend deadline (refill now b)).0.last ≡ (refill now b).last) =
      spend-exact deadline (refill now b) in
    let most : (refill now b).tokens ≤ dial_burst = refill-burst now b in
    (omega arith, same ∙ last-refill now b)

last_of-after :
    (from : ℕ) (looks : List (ℕ × ℕ)) → in_order from looks ≡ true → from ≤ last_of from looks
last_of-after from [] h = omega arith
last_of-after from ((deadline, now) ∷ looks) h =
    let here : leb from now ≡ true = ground (arith, h) in
    let later : now ≤ last_of now looks = last_of-after now looks (ground (arith, h)) in
    ground (arith, here, later)

dials-after :
    (from : ℕ) (looks : List (ℕ × ℕ)) (b : Bucket)
    → 0 < from
    → b.last ≡ from
    → in_order from looks ≡ true
    → dials looks b * token ≤ b.tokens + (last_of from looks - from) * dial_rate
unfolding dials
dials-after from [] b set same h = omega arith
dials-after from ((deadline, now) ∷ looks) b set same h =
    let here : from ≤ now = ground (arith, h) in
    let ordered : in_order now looks ≡ true = ground (arith, h) in
    let (spent, at) : (is_taken (look deadline now b).1 * token + (look deadline now b).0.tokens
          ≤ b.tokens + (now - b.last) * dial_rate)
        × ((look deadline now b).0.last ≡ now) =
      look-spends deadline now b (omega arith) in
    let rest : dials looks (look deadline now b).0 * token
        ≤ (look deadline now b).0.tokens + (last_of now looks - now) * dial_rate =
      dials-after now looks (look deadline now b).0 (omega arith) at ordered in
    let end : now ≤ last_of now looks = last_of-after now looks ordered in omega arith

-- However many dials wait for a token, and whatever their deadlines: between two looks at the
-- bucket, no more get one than the burst of 12 and 4 for each second between the two looks.
pub dials-rate :
    (deadline first : ℕ) (looks : List (ℕ × ℕ)) (b : Bucket)
    → 0 < first
    → in_order first looks ≡ true
    → dials ((deadline, first) ∷ looks) b * token
      ≤ dial_burst + (last_of first looks - first) * dial_rate
unfolding dials
dials-rate deadline first looks b set ordered =
    let (spent, at) : (is_taken (look deadline first b).1 * token + (look deadline first b).0.tokens
          ≤ dial_burst)
        × ((look deadline first b).0.last ≡ first) =
      look-burst deadline first b in
    let rest : dials looks (look deadline first b).0 * token
        ≤ (look deadline first b).0.tokens + (last_of first looks - first) * dial_rate =
      dials-after first looks (look deadline first b).0 set at ordered in
    omega arith
