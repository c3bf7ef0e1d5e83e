-- ===== src/GatewayRanges/Bound.antt =====
-- How many requests gateway.go makes.
use vidya_god_ipfs.Prelude.{
  ℕ, zero, suc, ◌+◌, ◌-◌, ◌≤◌, ◌<◌, ◌≡◌, refl, List, [], ◌∷◌, arith, ltb, length, if◌then◌else◌,
  Bool-cases, inl, inr,
}
use vidya_god_ipfs.GatewayRanges.{
  ByteRange, gateway_max_ranges, is_closer, closest, merge_at, shrink, join_spans, gateway_ranges,
}

-- The range that is found has a neighbour.
closest-below :
    (f i best : ℕ) (out : List ByteRange)
    → best < length out - 1
    → closest f i best out < length out - 1
unfolding closest
closest-below zero i best out h = h
closest-below (suc f) i best out h = elim (Bool-cases (ltb i (length out - 1))) [
  | inl inside ↦ rw inside (
      closest-below f (i + 1) (if is_closer out i best then i else best) out
        (elim (Bool-cases (is_closer out i best)) [
          | inl closer ↦ rw closer (ground arith)
          | inr farther ↦ rw farther h
        ]))
  | inr outside ↦ rw outside h
]

length-merge_at :
    (i : ℕ) (out : List ByteRange) → i < length out - 1 → suc (length (merge_at i out)) ≡ length out
unfolding merge_at
length-merge_at i [] h = absurd (omega arith)
length-merge_at i (x ∷ []) h = absurd (omega arith)
length-merge_at zero (x ∷ y ∷ out) h = refl
length-merge_at (suc i) (x ∷ y ∷ out) h = omega (arith, length-merge_at i (y ∷ out) (omega arith))

-- With enough rounds the loop ends by its own test.
length-shrink :
    (f : ℕ) (out : List ByteRange)
    → length out ≤ f + gateway_max_ranges
    → length (shrink f out) ≤ gateway_max_ranges
unfolding shrink
length-shrink zero out h = omega arith
length-shrink (suc f) out h = elim (Bool-cases (ltb gateway_max_ranges (length out))) [
  | inl many ↦
      let i = closest (length out) 1 0 out in
      let below = closest-below (length out) 1 0 out (ground arith) in
      rw many (length-shrink f (merge_at i out) (omega (arith, length-merge_at i out below)))
  | inr few ↦ rw few (ground arith)
]

-- A gateway is asked for at most eight ranges of a file.
pub length-gateway_ranges :
    (missing : List ByteRange) → length (gateway_ranges missing) ≤ gateway_max_ranges
unfolding gateway_ranges
length-gateway_ranges missing =
    length-shrink (length (join_spans missing [])) (join_spans missing []) (omega arith)
