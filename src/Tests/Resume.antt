-- ===== src/Tests/Resume.antt =====
-- A fetch of ten leaves, as resume.go keeps it.
use vidya_god_ipfs.Prelude.{
  ℕ, zero, suc, ltb, contains, ◌&&◌, ◌<◌, ◌≡◌, ◌↔◌, refl, Bool, true, some, List, [], ◌∷◌, arith,
}
use vidya_god_ipfs.Resume.{PartBits, new_part_bits, all_set, save_part, load_part}
use vidya_god_ipfs.Resume.Bits.{IsPart, new_part_bits-IsPart, mark_all, all_set-mark_all}
use vidya_god_ipfs.Resume.Sidecar.{Fits, AllBytes, IsOf, load-save, load_part-IsPart}

abbrev fresh : PartBits
fresh = new_part_bits (b'Q' ∷ b'm' ∷ []) 5000 10

fresh-IsPart : IsPart fresh
fresh-IsPart = new_part_bits-IsPart (b'Q' ∷ b'm' ∷ []) 5000 10

-- A file of two leaves, marked last leaf first.
all_set-mark_all_example :
    (all_set (mark_all (1 ∷ 0 ∷ 1 ∷ []) (new_part_bits [] 600 2)) ≡ true)
    ↔ ((i : ℕ) → i < 2 → contains i (1 ∷ 0 ∷ 1 ∷ []) ≡ true)
all_set-mark_all_example = all_set-mark_all [] 600 2 (1 ∷ 0 ∷ 1 ∷ []) refl

fresh-Fits : Fits fresh
fresh-Fits = record { root_fits = omega arith; total_fits = omega arith; count_fits = omega arith }

load-save_example : load_part (save_part fresh) fresh.root fresh.total fresh.count ≡ some fresh
load-save_example = load-save fresh fresh-IsPart fresh-Fits

abbrev are_bytes : List ℕ → Bool
are_bytes [] = true
are_bytes (x ∷ xs) = ltb x 256 && are_bytes xs

are_bytes-AllBytes : (xs : List ℕ) → are_bytes xs ≡ true → AllBytes xs
are_bytes-AllBytes [] h i = omega arith
are_bytes-AllBytes (x ∷ xs) h zero = ground arith
are_bytes-AllBytes (x ∷ xs) h (suc i) = are_bytes-AllBytes xs (ground arith) i

saved-AllBytes : AllBytes (save_part fresh)
unfolding save_part
saved-AllBytes = are_bytes-AllBytes (save_part fresh) refl

load_part-IsPart_example :
    IsOf (save_part fresh) fresh.root fresh.total fresh.count
    × IsPart fresh
    × (fresh.root ≡ fresh.root)
    × (fresh.total ≡ fresh.total)
    × (fresh.count ≡ fresh.count)
load_part-IsPart_example =
    load_part-IsPart (save_part fresh) fresh.root fresh.total fresh.count fresh saved-AllBytes
      (load-save fresh fresh-IsPart fresh-Fits)
