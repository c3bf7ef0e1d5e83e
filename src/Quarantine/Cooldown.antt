-- ===== src/Quarantine/Cooldown.antt =====
-- For how long a peer is taken out.
use native.Mathlib.Nat.{pow-suc}
use vidya_god_ipfs.Prelude.{
  ℕ, zero, suc, ◌+◌, ◌-◌, ◌*◌, ◌%◌, ◌^◌, ◌≤◌, ◌≡◌, refl, Bool, true, arith, ◌==◌, min, ==_iff,
  every_below, every_below-at,
}
use native.Mathlib.Decide.{dec_lt}
use vidya_god_ipfs.Quarantine.Ledger.{quarantine_cool, quarantine_max_cool}
use vidya_god_ipfs.Quarantine.Scan.{cooldown}

abbrev as_specified : ℕ → Bool
as_specified k = cooldown (suc k) == min (quarantine_cool * 2 ^ k) quarantine_max_cool

low_table : every_below as_specified 64 ≡ true
unfolding every_below cooldown
low_table = refl

-- Past the width of the word the shift leaves nothing, and the true value is over the maximum.
high_bits :
    (j : ℕ)
    → (quarantine_cool * 2 ^ (64 + j) % 2 ^ 64 ≡ 0)
      × (quarantine_max_cool ≤ quarantine_cool * 2 ^ (64 + j))
high_bits zero = (refl, omega arith)
high_bits (suc j) =
    let e : 64 + suc j ≡ suc (64 + j) = omega arith in
    let (zeros, over) = high_bits j in rw (e, pow-suc) (omega arith)

at_width : (k : ℕ) → as_specified k ≡ true
at_width k = elim (dec_lt k 64) [
  | yes low ↦ every_below-at as_specified 64 k low low_table
  | no high ↦ at_width_high k (k - 64) (omega arith)
]
  where
    at_width_high : (k j : ℕ) → k ≡ 64 + j → as_specified k ≡ true
    at_width_high k j e = rw e (unfold cooldown in ground (arith, high_bits j))

-- The first cooldown doubles with each offence up to the maximum, however many offences there are:
-- no overflow of the int64 shift ever shows.
pub cooldown_exact :
    (n : ℕ) → 1 ≤ n → cooldown n ≡ min (quarantine_cool * 2 ^ (n - 1)) quarantine_max_cool
cooldown_exact zero h = absurd (omega arith)
cooldown_exact (suc k) h = let e : suc k - 1 ≡ k = omega arith in rw e ((==_iff _ _).0 (at_width k))
