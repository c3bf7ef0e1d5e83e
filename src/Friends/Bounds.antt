-- ===== src/Friends/Bounds.antt =====
-- The cut of a string at a number of bytes.
use vidya_god_ipfs.Prelude.{
  ℕ, zero, suc, ◌≡◌, refl, sym, ap, ◌∙◌, true, false, List, [], ◌∷◌, arith, leb, ◌≤◌, ◌<◌,
  leb-cases, length, take, length-take, Bool-cases, inl, inr,
}
use mathlib.Core.Path.{subst}
use vidya_god_ipfs.Friends.Text.{valid_from, valid_string, trim_utf8, cap_utf8}

-- A string that a contact may keep as its name: valid UTF-8 of at most `max` bytes.
abbrev pub Fits : ℕ → List ℕ → Type 0
Fits max s = (length s ≤ max) × (valid_string s ≡ true)

pub empty-Fits : (n : ℕ) → Fits n []
unfolding valid_from
empty-Fits n = (omega arith, refl)

length-take_most : (n : ℕ) (s : List ℕ) → length (take n s) ≤ n
length-take_most zero s = omega arith
length-take_most (suc n) [] = omega arith
length-take_most (suc n) (x ∷ s) = let rest = length-take_most n s in omega arith

trim_utf8-Fits : (n : ℕ) (s : List ℕ) → Fits n (trim_utf8 n s)
unfolding trim_utf8
trim_utf8-Fits zero s = empty-Fits zero
trim_utf8-Fits (suc n) s = elim (Bool-cases (valid_string (take (suc n) s))) [
  | inl e ↦ rw (e, trim_utf8) (length-take_most (suc n) s, e)
  | inr e ↦
      let (short, valid) : Fits n (trim_utf8 n s) = trim_utf8-Fits n s in
      rw (e, trim_utf8) (omega arith, valid)
]

pub cap_utf8-Fits : (s : List ℕ) (max : ℕ) → Fits max (cap_utf8 s max)
unfolding cap_utf8
cap_utf8-Fits s max = elim (leb-cases (length s) max) [
  | inl (e, le) ↦ elim (Bool-cases (valid_string s)) [
    | inl v ↦ rw (e, v, cap_utf8) (le, v)
    | inr v ↦ rw (e, v, cap_utf8) (empty-Fits max)
  ]
  | inr (e, gt) ↦ rw (e, cap_utf8) (trim_utf8-Fits max s)
]

length-take_le : (k n : ℕ) (s : List ℕ) → k ≤ n → length (take k s) ≤ length (take n s)
length-take_le zero n s h = omega arith
length-take_le (suc k) zero s h = absurd (omega arith)
length-take_le (suc k) (suc n) [] h = omega arith
length-take_le (suc k) (suc n) (x ∷ s) h =
    let rest = length-take_le k n s (omega arith) in omega arith

take-length-take : (n : ℕ) (s : List ℕ) → take (length (take n s)) s ≡ take n s
take-length-take zero s = refl
take-length-take (suc n) [] = refl
take-length-take (suc n) (x ∷ s) = ap (λ r. x ∷ r) (take-length-take n s)

trim_utf8-prefix : (n : ℕ) (s : List ℕ) → trim_utf8 n s ≡ take (length (trim_utf8 n s)) s
unfolding trim_utf8
trim_utf8-prefix zero s = refl
trim_utf8-prefix (suc n) s = elim (Bool-cases (valid_string (take (suc n) s))) [
  | inl e ↦ rw (e, trim_utf8) (sym (take-length-take (suc n) s))
  | inr e ↦ rw (e, trim_utf8) (trim_utf8-prefix n s)
]

trim_utf8-longest :
    (n k : ℕ) (s : List ℕ)
    → k ≤ n
    → valid_string (take k s) ≡ true
    → length (take k s) ≤ length (trim_utf8 n s)
unfolding trim_utf8
trim_utf8-longest zero k s h v =
    let z : k ≡ 0 = omega arith in subst (λ i. length (take i s) ≤ 0) (sym z) (omega arith)
trim_utf8-longest (suc n) k s h v = elim (Bool-cases (valid_string (take (suc n) s))) [
  | inl e ↦ rw (e, trim_utf8) (length-take_le k (suc n) s h)
  | inr e ↦ elim (leb-cases k n) [
    | inl (t, le) ↦ rw (e, trim_utf8) (trim_utf8-longest n k s le v)
    | inr (t, gt) ↦
        let is : k ≡ suc n = omega arith in
        let bad : true ≡ false = sym v ∙ ap (λ i. valid_string (take i s)) is ∙ e in
        absurd (ground (arith, bad))
  ]
]

-- A string of more than `max` bytes is cut to a prefix of at most `max` bytes that is valid UTF-8,
-- and to the longest such prefix.
pub cap_utf8-longest :
    (max k : ℕ) (s : List ℕ)
    → max < length s
    → k ≤ max
    → valid_string (take k s) ≡ true
    → (cap_utf8 s max ≡ take (length (cap_utf8 s max)) s)
      × (length (cap_utf8 s max) ≤ max)
      × (valid_string (cap_utf8 s max) ≡ true)
      × (k ≤ length (cap_utf8 s max))
unfolding cap_utf8
cap_utf8-longest max k s long h v =
    let e : leb (length s) max ≡ false = ground arith in
    let (short, valid) : Fits max (trim_utf8 max s) = trim_utf8-Fits max s in
    let most : length (take k s) ≤ length (trim_utf8 max s) = trim_utf8-longest max k s h v in
    let all : length (take k s) ≡ k = length-take k s (omega arith) in
    rw (e, cap_utf8) (trim_utf8-prefix max s, short, valid, omega arith)
