-- ===== src/Prelude/Assoc.antt =====
-- Go maps with comparable keys, as association lists over numbered keys. A `range` over such a map
-- visits its entries in the order of the list: Go leaves that order open, and a theorem that is
-- stated for every list is stated for every order.
use Prim.Native.Nat.{ℕ}
use mathlib.Core.Path.{◌≡◌}
use mathlib.Core.Logic.{◌⊎◌}
use mathlib.Core.Bool.{Bool, true, false}
use mathlib.Core.List.{List, [], ◌∷◌}
use mathlib.Core.Option.{Option, none, some}
use native.Mathlib.Omega.{arith}
use vidya_god_ipfs.Prelude.Tests.{◌==◌, if◌then◌else◌}

abbrev pub Map {ℓ} : Type ℓ → Type ℓ
Map V = List (ℕ × V)

module _ {ℓ} {V : Type ℓ} where
  -- m[k]
  abbrev pub get : ℕ → Map V → Option V
  get k [] = none
  get k ((j, v) ∷ m) = if j == k then some v else get k m

  -- delete(m, k)
  abbrev pub delete : ℕ → Map V → Map V
  delete k [] = []
  delete k ((j, v) ∷ m) = let rest = delete k m in if j == k then rest else (j, v) ∷ rest

  -- m[k] = v
  abbrev pub put : ℕ → V → Map V → Map V
  put k v m = (k, v) ∷ delete k m

  abbrev pub has : ℕ → Map V → Bool
  has k m = elim (get k m) [ none ↦ false | some v ↦ true ]

  pub get-delete : (k j : ℕ) (m : Map V) → get j (delete k m) ≡ (if k == j then none else get j m)
  get-delete k j [] = ground arith
  get-delete k j ((i, v) ∷ m) = ground (arith, get-delete k j m)

  pub get-put :
      (k j : ℕ) (v : V) (m : Map V) → get j (put k v m) ≡ (if k == j then some v else get j m)
  get-put k j v m = ground (arith, get-delete k j m)

-- `(k, v)` is an entry of the list.
abbrev pub In : {V : Type 0} → ℕ → V → Map V → Type 0
In k v [] = ⊥
In k v ((j, w) ∷ m) = ((j ≡ k) × (w ≡ v)) ⊎ In k v m
