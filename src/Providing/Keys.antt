-- ===== src/Providing/Keys.antt =====
-- Sets of keys, and maps by keys, as provide.go changes them a batch at a time.
use vidya_god_ipfs.Prelude.{
  ℕ, ◌≡◌, refl, ap, Bool, not, ◌&&◌, ◌||◌, none, List, [], ◌∷◌, ◌++◌, arith, ◌==◌, contains,
  if◌then◌else◌, Map, get, delete, has, get-delete, Bool-cases, inl, inr,
}

-- The keys that a test holds for.
abbrev pub only : (ℕ → Bool) → List ℕ → List ℕ
only test [] = []
only test (k ∷ ks) = let rest = only test ks in if test k then k ∷ rest else rest

pub contains-only :
    (test : ℕ → Bool) (k : ℕ) (ks : List ℕ) → contains k (only test ks) ≡ (test k && contains k ks)
contains-only test k [] = ground arith
contains-only test k (j ∷ ks) = elim (Bool-cases (k == j)) [
  | inl e ↦
      let is : k ≡ j = ground (arith, e) in
      let same : test k ≡ test j = ap test is in ground (arith, e, same, contains-only test k ks)
  | inr e ↦ ground (arith, e, contains-only test k ks)
]

pub contains-append :
    (k : ℕ) (ks js : List ℕ) → contains k (ks ++ js) ≡ (contains k ks || contains k js)
contains-append k [] js = refl
contains-append k (j ∷ ks) js = ground (arith, contains-append k ks js)

-- A set without the keys of a batch.
abbrev pub minus : List ℕ → List ℕ → List ℕ
minus set ks = only (λ k. not (contains k ks)) set

pub contains-minus :
    (k : ℕ) (set ks : List ℕ) → contains k (minus set ks) ≡ (not (contains k ks) && contains k set)
contains-minus k set ks = contains-only (λ k. not (contains k ks)) k set

-- A map without the keys of a batch.
abbrev pub delete_all {ℓ} : {V : Type ℓ} → List ℕ → Map V → Map V
delete_all [] m = m
delete_all (k ∷ ks) m = delete_all ks (delete k m)

pub get-delete_all {ℓ} :
    {V : Type ℓ} (j : ℕ) (ks : List ℕ) (m : Map V)
    → get j (delete_all ks m) ≡ (if contains j ks then none else get j m)
get-delete_all j [] m = refl
get-delete_all j (k ∷ ks) m = ground (arith, get-delete_all j ks (delete k m), get-delete k j m)

-- The keys of a map.
abbrev pub keys_of {ℓ} : {V : Type ℓ} → Map V → List ℕ
keys_of [] = []
keys_of ((k, v) ∷ m) = k ∷ keys_of m

pub contains-keys_of {ℓ} : {V : Type ℓ} (j : ℕ) (m : Map V) → contains j (keys_of m) ≡ has j m
contains-keys_of j [] = refl
contains-keys_of j ((k, v) ∷ m) = ground (arith, contains-keys_of j m)
