-- ===== src/GatewayRanges.antt =====
-- gateway.go: the byte ranges that a resumed fetch asks a gateway for.
-- A span is inclusive; offsets are not negative, and a comparison of differences is written as one of
-- sums.
pub mod Bound
pub mod Cover
use vidya_god_ipfs.Prelude.{
  ℕ, zero, suc, ◌+◌, ◌-◌, ◌^◌, Bool, true, false, List, [], ◌∷◌, ltb, leb, length, max,
  if◌then◌else◌,
}

-- `byteRange`
pub record ByteRange : Type 0 where
  pub from : ℕ
  pub to : ℕ

abbrev pub gateway_run_gap : ℕ
gateway_run_gap = 2 ^ 20

abbrev pub gateway_max_ranges : ℕ
gateway_max_ranges = 8

-- One round of the first loop: a span that starts near the last range extends it.
unfoldable pub add_span : ByteRange → List ByteRange → List ByteRange
add_span m [] = m ∷ []
add_span m (x ∷ []) =
    if leb m.from (x.to + 1 + gateway_run_gap)
    then record { from = x.from; to = max x.to m.to } ∷ []
    else x ∷ m ∷ []
add_span m (x ∷ y ∷ out) = x ∷ add_span m (y ∷ out)

unfoldable pub join_spans : List ByteRange → List ByteRange → List ByteRange
join_spans [] out = out
join_spans (m ∷ missing) out = join_spans missing (add_span m out)

abbrev pub range_at : List ByteRange → ℕ → ByteRange
range_at [] i = record { from = 0; to = 0 }
range_at (x ∷ out) zero = x
range_at (x ∷ out) (suc i) = range_at out i

-- Whether the gap behind range `i` is smaller than the one behind range `best`.
abbrev pub is_closer : List ByteRange → ℕ → ℕ → Bool
is_closer out i best =
    ltb ((range_at out (i + 1)).from + (range_at out best).to)
      ((range_at out (best + 1)).from + (range_at out i).to)

-- The inner loop over the neighbours; each round moves `i` on.
unfoldable pub closest : ℕ → ℕ → ℕ → List ByteRange → ℕ
closest zero i best out = best
closest (suc f) i best out =
    let next = if is_closer out i best then i else best in
    let rest = closest f (i + 1) next out in if ltb i (length out - 1) then rest else best

-- Range `i` and the next become one.
unfoldable pub merge_at : ℕ → List ByteRange → List ByteRange
merge_at zero (x ∷ y ∷ out) = record { from = x.from; to = y.to } ∷ out
merge_at (suc i) (x ∷ out) = x ∷ merge_at i out
merge_at i out = out

-- The second loop; each round leaves one range fewer.
unfoldable pub shrink : ℕ → List ByteRange → List ByteRange
shrink zero out = out
shrink (suc f) out =
    let rest = shrink f (merge_at (closest (length out) 1 0 out) out) in
    if ltb gateway_max_ranges (length out) then rest else out

-- `gatewayRanges`
unfoldable pub gateway_ranges : List ByteRange → List ByteRange
gateway_ranges missing = let out = join_spans missing [] in shrink (length out) out
