-- ===== src/GatewayRanges/Cover.antt =====
-- What the requests of gateway.go cover of what a file misses.
use vidya_god_ipfs.Prelude.{
  ℕ, zero, suc, ◌+◌, ◌≤◌, ◌⊎◌, List, [], ◌∷◌, arith, ltb, leb, length, Bool-cases, inl, inr,
}
use vidya_god_ipfs.GatewayRanges.{
  ByteRange, gateway_run_gap, gateway_max_ranges, closest, add_span, join_spans, merge_at, shrink,
  gateway_ranges,
}

-- Byte `b` is in one of the ranges.
abbrev pub Covers : ℕ → List ByteRange → Type 0
Covers b [] = ⊥
Covers b (x ∷ out) = ((x.from ≤ b) × (b ≤ x.to)) ⊎ Covers b out

-- Both ends go up.
abbrev Ordered : List ByteRange → Type 0
Ordered [] = Unit
Ordered (x ∷ []) = Unit
Ordered (x ∷ y ∷ out) = (x.from ≤ y.from) × (x.to ≤ y.to) × Ordered (y ∷ out)

-- The spans of a file, by their offsets.
abbrev pub SortedSpans : List ByteRange → Type 0
SortedSpans [] = Unit
SortedSpans (m ∷ []) = m.from ≤ m.to
SortedSpans (m ∷ n ∷ missing) = (m.from ≤ m.to) × (m.from ≤ n.from) × SortedSpans (n ∷ missing)

Ordered-tail : (x : ByteRange) (out : List ByteRange) → Ordered (x ∷ out) → Ordered out
Ordered-tail x [] o = tt
Ordered-tail x (y ∷ out) (f, t, o) = o

merge_at-Covers :
    (b i : ℕ) (out : List ByteRange) → Ordered out → Covers b out → Covers b (merge_at i out)
unfolding merge_at
merge_at-Covers b zero [] o c = c
merge_at-Covers b zero (x ∷ []) o c = c
merge_at-Covers b zero (x ∷ y ∷ out) (f, t, o) (inl c) = inl (omega (arith, c), omega (arith, c))
merge_at-Covers b zero (x ∷ y ∷ out) (f, t, o) (inr (inl c)) =
    inl (omega (arith, c), omega (arith, c))
merge_at-Covers b zero (x ∷ y ∷ out) (f, t, o) (inr (inr c)) = inr c
merge_at-Covers b (suc i) [] o c = c
merge_at-Covers b (suc i) (x ∷ out) o (inl c) = inl c
merge_at-Covers b (suc i) (x ∷ out) o (inr c) =
    inr (merge_at-Covers b i out (Ordered-tail x out o) c)

merge_at-Ordered_behind :
    (x : ByteRange) (i : ℕ) (out : List ByteRange)
    → Ordered (x ∷ out)
    → Ordered (x ∷ merge_at i out)
unfolding merge_at
merge_at-Ordered_behind x zero [] o = o
merge_at-Ordered_behind x zero (y ∷ []) o = o
merge_at-Ordered_behind x zero (y ∷ z ∷ []) (f, t, (f', t', o)) = (f, omega arith, tt)
merge_at-Ordered_behind x zero (y ∷ z ∷ w ∷ out) (f, t, (f', t', (f'', t'', o))) =
    (f, omega arith, (omega arith, t'', o))
merge_at-Ordered_behind x (suc i) [] o = o
merge_at-Ordered_behind x (suc i) (y ∷ out) (f, t, o) = (f, t, merge_at-Ordered_behind y i out o)

merge_at-Ordered : (i : ℕ) (out : List ByteRange) → Ordered out → Ordered (merge_at i out)
unfolding merge_at
merge_at-Ordered zero [] o = o
merge_at-Ordered zero (x ∷ []) o = o
merge_at-Ordered zero (x ∷ y ∷ []) o = tt
merge_at-Ordered zero (x ∷ y ∷ z ∷ out) (f, t, (f', t', o)) = (omega arith, t', o)
merge_at-Ordered (suc i) [] o = o
merge_at-Ordered (suc i) (x ∷ out) o = merge_at-Ordered_behind x i out o

shrink-Covers :
    (b f : ℕ) (out : List ByteRange) → Ordered out → Covers b out → Covers b (shrink f out)
unfolding shrink
shrink-Covers b zero out o c = c
shrink-Covers b (suc f) out o c =
    let i = closest (length out) 1 0 out in
    elim (Bool-cases (ltb gateway_max_ranges (length out))) [
      | inl many ↦ rw many (
          shrink-Covers b f (merge_at i out) (merge_at-Ordered i out o)
            (merge_at-Covers b i out o c))
      | inr few ↦ rw few c
    ]

-- A span that starts after the last range does.
abbrev Before : List ByteRange → ByteRange → Type 0
Before [] m = Unit
Before (x ∷ []) m = x.from ≤ m.from
Before (x ∷ y ∷ out) m = Before (y ∷ out) m

add_span-Covers :
    (b : ℕ) (m : ByteRange) (out : List ByteRange)
    → Before out m
    → ((m.from ≤ b) × (b ≤ m.to)) ⊎ Covers b out
    → Covers b (add_span m out)
unfolding add_span
add_span-Covers b m [] before c = c
add_span-Covers b m (x ∷ []) before c =
    elim (Bool-cases (leb m.from (x.to + 1 + gateway_run_gap))) [
      | inl near ↦ rw near (elim c [
        | inl new ↦ inl (omega (arith, new), omega (arith, new))
        | inr (inl old) ↦ inl (omega (arith, old), omega (arith, old))
        | inr (inr none_left) ↦ absurd none_left
      ])
      | inr far ↦ rw far (elim c [
        | inl new ↦ inr (inl new)
        | inr (inl old) ↦ inl old
        | inr (inr none_left) ↦ absurd none_left
      ])
    ]
add_span-Covers b m (x ∷ y ∷ out) before (inl new) =
    inr (add_span-Covers b m (y ∷ out) before (inl new))
add_span-Covers b m (x ∷ y ∷ out) before (inr (inl old)) = inl old
add_span-Covers b m (x ∷ y ∷ out) before (inr (inr old)) =
    inr (add_span-Covers b m (y ∷ out) before (inr old))

add_span-Before :
    (m n : ByteRange) (out : List ByteRange)
    → m.from ≤ n.from
    → Before out m
    → Before (add_span m out) n
unfolding add_span
add_span-Before m n [] h before = h
add_span-Before m n (x ∷ []) h before =
    elim (Bool-cases (leb m.from (x.to + 1 + gateway_run_gap))) [
      | inl near ↦ rw near (omega arith)
      | inr far ↦ rw far h
    ]
add_span-Before m n (x ∷ y ∷ []) h before =
    elim (Bool-cases (leb m.from (y.to + 1 + gateway_run_gap))) [
      | inl near ↦ rw near (omega arith)
      | inr far ↦ rw far h
    ]
add_span-Before m n (x ∷ y ∷ z ∷ out) h before = add_span-Before m n (y ∷ z ∷ out) h before

add_span-Ordered :
    (m : ByteRange) (out : List ByteRange)
    → m.from ≤ m.to
    → Before out m
    → Ordered out
    → Ordered (add_span m out)
unfolding add_span
add_span-Ordered m [] h before o = tt
add_span-Ordered m (x ∷ []) h before o =
    elim (Bool-cases (leb m.from (x.to + 1 + gateway_run_gap))) [
      | inl near ↦ rw near tt
      | inr far ↦ rw far (before, ground arith, tt)
    ]
add_span-Ordered m (x ∷ y ∷ []) h before (f, t, o) =
    elim (Bool-cases (leb m.from (y.to + 1 + gateway_run_gap))) [
      | inl near ↦ rw near (f, omega arith, tt)
      | inr far ↦ rw far (f, t, (before, ground arith, tt))
    ]
add_span-Ordered m (x ∷ y ∷ z ∷ out) h before (f, t, o) =
    (f, t, add_span-Ordered m (y ∷ z ∷ out) h before o)

join_spans-Covers :
    (b : ℕ) (m : ByteRange) (missing out : List ByteRange)
    → SortedSpans (m ∷ missing)
    → Before out m
    → Ordered out
    → Covers b (m ∷ missing) ⊎ Covers b out
    → Covers b (join_spans (m ∷ missing) out) × Ordered (join_spans (m ∷ missing) out)
unfolding join_spans
join_spans-Covers b m [] out s before o c = (
  add_span-Covers b m out before (elim c [
    | inl (inl new) ↦ inl new
    | inl (inr none_left) ↦ absurd none_left
    | inr old ↦ inr old
  ]),
  add_span-Ordered m out s before o,
)
join_spans-Covers b m (n ∷ missing) out (h, le, s) before o c =
    join_spans-Covers b n missing (add_span m out) s (add_span-Before m n out le before)
      (add_span-Ordered m out h before o)
      (elim c [
        | inl (inl new) ↦ inr (add_span-Covers b m out before (inl new))
        | inl (inr later) ↦ inl later
        | inr old ↦ inr (add_span-Covers b m out before (inr old))
      ])

-- Every byte of the missing spans is in one of the ranges that are asked for.
pub gateway_ranges-Covers :
    (b : ℕ) (missing : List ByteRange)
    → SortedSpans missing
    → Covers b missing
    → Covers b (gateway_ranges missing)
unfolding gateway_ranges
gateway_ranges-Covers b [] s c = elim c [ ]
gateway_ranges-Covers b (m ∷ missing) s c =
    let (covers, ordered) = join_spans-Covers b m missing [] s tt tt (inl c) in
    let out = join_spans (m ∷ missing) [] in shrink-Covers b (length out) out ordered covers
