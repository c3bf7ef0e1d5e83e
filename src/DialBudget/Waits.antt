-- ===== src/DialBudget/Waits.antt =====
-- How long a dial waits for the budget.
use vidya_god_ipfs.Prelude.{
  ◌⊎◌, ℕ, zero, suc, ◌+◌, ◌-◌, ◌*◌, ◌≤◌, ◌<◌, length, ◌&&◌, ◌≡◌, refl, sym, ap, ◌∙◌, Bool, true,
  false, Option, none, some, List, [], ◌∷◌, arith, ltb, leb, Bool-cases, both_branches, inl, inr,
}
use vidya_god_ipfs.DialBudget.Bucket.{
  Bucket, Look, Round, taken, refused, sleeps, refill, look, token, spend, wait_for, take_from,
}
use vidya_god_ipfs.DialBudget.Rate.{last-refill}

abbrev pub returned : Option Bool → Bool
returned none = false
returned (some b) = true

Round-cases : (r : Round) → (r ≡ taken) ⊎ ((r ≡ refused) ⊎ ((wait : ℕ) × (r ≡ sleeps wait)))
Round-cases taken = inl refl
Round-cases refused = inr (inl refl)
Round-cases (sleeps wait) = inr (inr (wait, refl))

abbrev sleeping : Round → Bool
sleeping (sleeps wait) = true
sleeping _ = false

-- A look after the deadline is the last.
look-late :
    (deadline now : ℕ) (b : Bucket)
    → ltb deadline now ≡ true
    → sleeping (look deadline now b).1 ≡ false
unfolding look spend
look-late deadline now b late =
    let b' : Bucket = refill now b in
    let at : b'.last ≡ now = last-refill now b in
    let over : ltb deadline (b'.last + wait_for b') ≡ true = ground (arith, late, at) in
    both_branches (λ (r : Bucket × Round). sleeping r.1 ≡ false) (leb token b'.tokens)
      (record b' { tokens = b'.tokens - token }, taken) _ refl (rw over refl)

suc-times : (n tick : ℕ) → suc n * tick ≡ tick + n * tick
suc-times n tick = omega arith

more_rounds : (n tick x y : ℕ) → x ≤ y → y < x + n * tick → 0 < n
more_rounds zero tick x y h h' = absurd (omega arith)
more_rounds (suc n) tick x y h h' = omega arith

-- The clock moves on by at least `tick` from one round to the next.
abbrev pub ticks : ℕ → ℕ → List Look → Bool
ticks tick time [] = true
ticks tick time (l ∷ looks) = leb (time + tick) l.now && ticks tick l.now looks

-- A dial does not wait for ever, whatever the other dials do to the bucket between its rounds: where the
-- clock moves on by `tick` from round to round, `take` has returned, with a token or without one,
-- after as many rounds as ticks bring the clock past the deadline.
pub take_from-returns :
    (deadline tick time : ℕ) (looks : List Look) (b : Bucket)
    → ticks tick time looks ≡ true
    → 0 < length looks
    → deadline < time + length looks * tick
    → returned (take_from deadline looks b).1 ≡ true
unfolding take_from
take_from-returns deadline tick time [] b moves some_look enough = absurd (omega arith)
take_from-returns deadline tick time (l ∷ looks) b moves some_look enough =
    elim (Round-cases (look deadline l.now (l.others b)).1) [
      | inl e ↦ rw (e, returned) refl
      | inr (inl e) ↦ rw (e, returned) refl
      | inr (inr (wait, e)) ↦ elim (Bool-cases (ltb deadline l.now)) [
        | inl late ↦
            let awake : true ≡ false =
              sym (ap sleeping e) ∙ look-late deadline l.now (l.others b) late in
            absurd (ground (arith, awake))
        | inr early ↦
            let later : ticks tick l.now looks ≡ true = ground (arith, moves) in
            let from_here : time + tick ≤ l.now = ground (arith, moves) in
            let here : l.now ≤ deadline = ground (arith, early) in
            let total : deadline < (time + tick) + length looks * tick =
              omega (arith, suc-times (length looks) tick, enough) in
            rw (e, returned)
              (take_from-returns deadline tick l.now looks (look deadline l.now (l.others b)).0
                later
                (more_rounds (length looks) tick (time + tick) deadline
                  (omega (arith, from_here, here)) total)
                (omega (arith, total, from_here)))
      ]
    ]
