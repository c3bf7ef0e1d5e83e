-- ===== src/Resume/Bits.antt =====
-- The bitmap of resume.go: setting a leaf, and what the count of set leaves says.
use vidya_god_ipfs.Prelude.{
  ℕ, zero, suc, ◌+◌, ◌/◌, ◌%◌, ◌^◌, ◌≤◌, ◌<◌, ◌≡◌, refl, sym, ap, ◌∙◌, Bool, true, false, not, ◌&&◌,
  ◌||◌, List, [], ◌∷◌, ◌↔◌, arith, ltb, ◌==◌, contains, length, replicate, set, if◌then◌else◌,
  byte_at, every_below, every_below-at, Bool-cases, inl, inr, length-replicate,
}
use vidya_god_ipfs.Resume.{
  PartBits, bitmap_size, new_part_bits, bit_of, get_bit, get_leaf, set_leaf, all_set, count_bits,
}

abbrev same_bool : Bool → Bool → Bool
same_bool true b = b
same_bool false b = not b

-- Setting bit `k` of a byte that does not have it sets that bit alone, and leaves a byte.
abbrev adds_bit : ℕ → ℕ → ℕ → Bool
adds_bit b k j =
    bit_of b k || (same_bool (bit_of (b + 2 ^ k) j) (k == j || bit_of b j) && ltb (b + 2 ^ k) 256)

bytes_table : every_below (λ b. every_below (λ k. every_below (λ j. adds_bit b k j) 8) 8) 256 ≡ true
unfolding every_below
bytes_table = refl

adding_bit :
    (b k j : ℕ)
    → b < 256
    → k < 8
    → j < 8
    → bit_of b k ≡ false
    → (bit_of (b + 2 ^ k) j ≡ (k == j || bit_of b j)) × (b + 2 ^ k < 256)
adding_bit b k j hb hk hj unset =
    let of_byte =
      every_below-at (λ b. every_below (λ k. every_below (λ j. adds_bit b k j) 8) 8) 256 b hb
        bytes_table in
    let of_bit = every_below-at (λ k. every_below (λ j. adds_bit b k j) 8) 8 k hk of_byte in
    let at = every_below-at (λ j. adds_bit b k j) 8 j hj of_bit in read_entry at
  where
    read_entry :
        adds_bit b k j ≡ true → (bit_of (b + 2 ^ k) j ≡ (k == j || bit_of b j)) × (b + 2 ^ k < 256)
    read_entry at = ground (arith, at, unset)

byte_at-set :
    (xs : List ℕ) (n v m : ℕ)
    → n < length xs
    → byte_at (set xs n v) m ≡ (if n == m then v else byte_at xs m)
byte_at-set [] n v m h = absurd (omega arith)
byte_at-set (x ∷ xs) zero v zero h = refl
byte_at-set (x ∷ xs) zero v (suc m) h = ground arith
byte_at-set (x ∷ xs) (suc n) v zero h = ground arith
byte_at-set (x ∷ xs) (suc n) v (suc m) h = ground (arith, byte_at-set xs n v m (omega arith))

length-set : (xs : List ℕ) (n v : ℕ) → length (set xs n v) ≡ length xs
length-set [] n v = refl
length-set (x ∷ xs) zero v = refl
length-set (x ∷ xs) (suc n) v = ap suc (length-set xs n v)

-- A bitmap for `count` leaves, with the number of the leaves that it marks.
pub record IsPart (p : PartBits) : Type 0 where
  pub sized : length p.bits ≡ bitmap_size p.count
  pub bytes : (i : ℕ) → byte_at p.bits i < 256
  pub counted : p.nset ≡ count_bits p.bits p.count

get_bit-set :
    (bits : List ℕ) (i j : ℕ)
    → i / 8 < length bits
    → ((n : ℕ) → byte_at bits n < 256)
    → get_bit bits i ≡ false
    → let b = byte_at bits (i / 8) in
      (get_bit (set bits (i / 8) (b + 2 ^ (i % 8))) j ≡ (i == j || get_bit bits j))
      × (b + 2 ^ (i % 8) < 256)
unfolding get_bit
get_bit-set bits i j h bytes unset =
    let b = byte_at bits (i / 8) in
    let (added, fits) =
      adding_bit b (i % 8) (j % 8) (bytes (i / 8)) (omega arith) (omega arith) unset in
    let at = byte_at-set bits (i / 8) (b + 2 ^ (i % 8)) (j / 8) h in
    (
      elim (Bool-cases (i / 8 == j / 8)) [
        | inl same ↦
            let e : j / 8 ≡ i / 8 = ground arith in
            let p : (i % 8 == j % 8) ≡ (i == j) = ground arith in
            let at' : byte_at (set bits (i / 8) (b + 2 ^ (i % 8))) (j / 8) ≡ b + 2 ^ (i % 8) =
              ground (arith, at, same) in
            ap (λ v. bit_of v (j % 8)) at'
            ∙ added
            ∙ ap (λ x. x || bit_of b (j % 8)) p
            ∙ ap (λ n. i == j || bit_of (byte_at bits n) (j % 8)) (sym e)
        | inr other ↦
            let p : (i == j) ≡ false = ground arith in
            let at' : byte_at (set bits (i / 8) (b + 2 ^ (i % 8))) (j / 8) ≡ byte_at bits (j / 8) =
              ground (arith, at, other) in
            ap (λ v. bit_of v (j % 8)) at' ∙ ap (λ x. x || get_bit bits j) (sym p)
      ],
      fits,
    )

count_bits-below :
    (bits bits' : List ℕ) (n : ℕ)
    → ((j : ℕ) → j < n → get_bit bits' j ≡ get_bit bits j)
    → count_bits bits' n ≡ count_bits bits n
unfolding count_bits
count_bits-below bits bits' zero h = refl
count_bits-below bits bits' (suc n) h =
    ground (arith, h n (omega arith), count_bits-below bits bits' n (λ j l. h j (omega arith)))

count_bits-set :
    (bits bits' : List ℕ) (i n : ℕ)
    → get_bit bits i ≡ false
    → ((j : ℕ) → get_bit bits' j ≡ (i == j || get_bit bits j))
    → count_bits bits' n ≡ count_bits bits n + (if ltb i n then 1 else 0)
unfolding count_bits
count_bits-set bits bits' i zero unset h = ground arith
count_bits-set bits bits' i (suc n) unset h =
    ground (arith, h n, count_bits-set bits bits' i n unset h)

count_bits-full :
    (bits : List ℕ) (n : ℕ)
    → (count_bits bits n ≤ n)
      × ((count_bits bits n ≡ n) ↔ ((i : ℕ) → i < n → get_bit bits i ≡ true))
unfolding count_bits
count_bits-full bits zero = (omega arith, ((λ e i h. absurd (omega arith)), λ a. refl))
count_bits-full bits (suc n) =
    let (le, (full, every)) = count_bits-full bits n in
    (
      ground arith,
      (
        (λ e i h.
            let last : get_bit bits n ≡ true = ground arith in
            elim (Bool-cases (i == n)) [
              | inl same ↦ let i_is : i ≡ n = ground arith in rw i_is last
              | inr other ↦ full (ground arith) i (ground arith)
            ]),
        λ a.
            let last = a n (omega arith) in
            let rest = every (λ i h. a i (omega arith)) in ground arith,
      ),
    )

-- A fresh state is one in which no leaf is marked.
byte_at-replicate : (n i : ℕ) → byte_at (replicate n 0) i ≡ 0
byte_at-replicate zero i = refl
byte_at-replicate (suc n) zero = refl
byte_at-replicate (suc n) (suc i) = byte_at-replicate n i

count_bits-replicate : (n k : ℕ) → count_bits (replicate n 0) k ≡ 0
unfolding count_bits get_bit
count_bits-replicate n zero = refl
count_bits-replicate n (suc k) =
    rw (byte_at-replicate n (k / 8)) (ground (arith, count_bits-replicate n k))

unset_leaf :
    (root : List ℕ) (total count j : ℕ) → get_leaf (new_part_bits root total count) j ≡ false
unfolding get_bit
unset_leaf root total count j = rw (byte_at-replicate (bitmap_size count) (j / 8)) (ground arith)

pub new_part_bits-IsPart :
    (root : List ℕ) (total count : ℕ) → IsPart (new_part_bits root total count)
new_part_bits-IsPart root total count = record {
  sized = length-replicate (bitmap_size count) 0;
  bytes = λ i. omega (arith, byte_at-replicate (bitmap_size count) i);
  counted = sym (count_bits-replicate (bitmap_size count) count);
}

in_bitmap : (p : PartBits) (i : ℕ) → IsPart p → i < p.count → i / 8 < length p.bits
in_bitmap p i v h = omega (arith, v.sized)

-- Marking a leaf marks that leaf and no other.
pub get_leaf-set_leaf :
    (p : PartBits) (i j : ℕ)
    → IsPart p
    → i < p.count
    → get_leaf (set_leaf i p) j ≡ (i == j || get_leaf p j)
unfolding set_leaf
get_leaf-set_leaf p i j v h = elim (Bool-cases (get_bit p.bits i)) [
  | inl was ↦ rw was (elim (Bool-cases (i == j)) [
    | inl same ↦
        let e : i ≡ j = ground arith in
        let marked : get_bit p.bits j ≡ true = ap (get_bit p.bits) (sym e) ∙ was in
        ground (arith, same, marked)
    | inr other ↦ rw other refl
  ])
  | inr unset ↦
      let (at, fits) = get_bit-set p.bits i j (in_bitmap p i v h) v.bytes unset in rw unset at
]

-- Marking a leaf keeps the count of the marked leaves right, and the bitmap a bitmap.
pub set_leaf-IsPart : (p : PartBits) (i : ℕ) → IsPart p → i < p.count → IsPart (set_leaf i p)
unfolding set_leaf
set_leaf-IsPart p i v h = elim (Bool-cases (get_bit p.bits i)) [
  | inl was ↦ rw was v
  | inr unset ↦
      let b = byte_at p.bits (i / 8) in
      let bits' = set p.bits (i / 8) (b + 2 ^ (i % 8)) in
      let inside = in_bitmap p i v h in
      let (at0, fits) = get_bit-set p.bits i 0 inside v.bytes unset in
      let every = λ (j : ℕ). let (at, f) = get_bit-set p.bits i j inside v.bytes unset in at in
      rw unset (record {
        sized = length-set p.bits (i / 8) (b + 2 ^ (i % 8)) ∙ v.sized;
        bytes = λ n.
            ground (arith, byte_at-set p.bits (i / 8) (b + 2 ^ (i % 8)) n inside, v.bytes n, fits);
        counted = ground (arith, count_bits-set p.bits bits' i p.count unset every, v.counted);
      })
]

all_set-IsPart :
    (p : PartBits) → IsPart p → (all_set p ≡ true) ↔ ((i : ℕ) → i < p.count → get_leaf p i ≡ true)
all_set-IsPart p v =
    let (le, (full, every)) = count_bits-full p.bits p.count in
    ((λ e. full (ground (arith, v.counted))), λ a. ground (arith, v.counted, every a))

-- The leaves of a list, marked one after the other.
abbrev pub mark_all : List ℕ → PartBits → PartBits
mark_all [] p = p
mark_all (i ∷ is) p = mark_all is (set_leaf i p)

abbrev pub all_below : ℕ → List ℕ → Bool
all_below n [] = true
all_below n (i ∷ is) = ltb i n && all_below n is

count-set_leaf : (i : ℕ) (p : PartBits) → (set_leaf i p).count ≡ p.count
unfolding set_leaf
count-set_leaf i p = ground arith

mark_all-IsPart :
    (is : List ℕ) (p : PartBits)
    → IsPart p
    → all_below p.count is ≡ true
    → IsPart (mark_all is p)
      × ((mark_all is p).count ≡ p.count)
      × ((j : ℕ) → get_leaf (mark_all is p) j ≡ (contains j is || get_leaf p j))
mark_all-IsPart [] p v h = (v, refl, λ j. refl)
mark_all-IsPart (i ∷ is) p v h =
    let inside : i < p.count = ground arith in
    let same : (set_leaf i p).count ≡ p.count = count-set_leaf i p in
    let later : all_below (set_leaf i p).count is ≡ true =
      ap (λ n. all_below n is) same ∙ ground (arith, h) in
    let (w, count_is, at) =
      mark_all-IsPart is (set_leaf i p) (set_leaf-IsPart p i v inside) later in
    (w, count_is ∙ same, λ j. ground (arith, at j, get_leaf-set_leaf p i j v inside))

-- A fetch that starts with no leaf and marks leaves of the file, in any order and as often as it
-- likes, is complete by its counter exactly when it has marked every leaf.
pub all_set-mark_all :
    (root : List ℕ) (total count : ℕ) (is : List ℕ)
    → all_below count is ≡ true
    → (all_set (mark_all is (new_part_bits root total count)) ≡ true)
      ↔ ((i : ℕ) → i < count → contains i is ≡ true)
all_set-mark_all root total count is h =
    let p : PartBits = new_part_bits root total count in
    let (v, count_is, at) = mark_all-IsPart is p (new_part_bits-IsPart root total count) h in
    let (complete, full) = all_set-IsPart (mark_all is p) v in
    let marked : (j : ℕ) → get_leaf (mark_all is p) j ≡ contains j is =
      λ j. at j ∙ ground (arith, unset_leaf root total count j) in
    (
      (λ e i l. sym (marked i) ∙ complete e i (omega (arith, count_is))),
      λ every. full (λ i l. marked i ∙ every i (omega (arith, count_is))),
    )
