-- ===== src/Resume/Sidecar.antt =====
-- The sidecar file of resume.go: what is written, and what is read of any bytes.
use vidya_god_ipfs.Prelude.{
  ℕ, zero, suc, ◌+◌, ◌*◌, ◌/◌, ◌%◌, ◌^◌, ◌≤◌, ◌<◌, ◌≡◌, refl, sym, ap, ◌∙◌, true, false, not, ◌||◌,
  none, some, List, [], ◌∷◌, ◌++◌, arith, ltb, ◌==◌, length, take, drop, byte_at, Bool-cases, inl,
  inr, length-append, take-append, take-length, drop-append, drop-drop, length-take,
}
use vidya_god_ipfs.Resume.{
  PartBits, bitmap_size, count_bits, part_magic, le_bytes, le_value, save_part, same_bytes,
  load_rest, load_part,
}
use vidya_god_ipfs.Resume.Bits.{IsPart}

same_bytes_self : (xs : List ℕ) → same_bytes xs xs ≡ true
same_bytes_self [] = refl
same_bytes_self (x ∷ xs) = ground (arith, same_bytes_self xs)

same_bytes-eq : (xs ys : List ℕ) → same_bytes xs ys ≡ true → xs ≡ ys
same_bytes-eq [] [] h = refl
same_bytes-eq [] (y ∷ ys) h = cc
same_bytes-eq (x ∷ xs) [] h = cc
same_bytes-eq (x ∷ xs) (y ∷ ys) h =
    let e : x ≡ y = ground arith in let r = same_bytes-eq xs ys (ground arith) in cc

le_value-bytes : (v : ℕ) (rest : List ℕ) → v < 2 ^ 64 → le_value 8 (le_bytes 8 v ++ rest) ≡ v
le_value-bytes v rest h = omega arith

-- A state whose numbers fit the fields of the sidecar.
pub record Fits (p : PartBits) : Type 0 where
  pub root_fits : length p.root < 2 ^ 16
  pub total_fits : p.total < 2 ^ 64
  pub count_fits : p.count < 2 ^ 64

-- What `savePart` writes behind the root.
abbrev tail_of : PartBits → List ℕ
tail_of p = le_bytes 8 p.total ++ (le_bytes 8 p.count ++ p.bits)

-- A file that passes the first guards.
load_part-passes :
    (b root : List ℕ) (total count rl : ℕ)
    → le_value 2 (drop 4 b) ≡ rl
    → (ltb (length b) 6 || not (same_bytes (take 4 b) part_magic)) ≡ false
    → ltb (length b) (6 + rl + 16) ≡ false
    → load_part b root total count
      ≡ load_rest (take rl (drop 6 b)) root total count (drop (6 + rl) b)
unfolding load_part
load_part-passes b root total count rl e f g = rw (e, f, g) refl

-- A sidecar that was written is read up to its root, whatever it is asked for.
load-save_to_root :
    (p : PartBits) (root : List ℕ) (total count : ℕ)
    → Fits p
    → load_part (save_part p) root total count ≡ load_rest p.root root total count (tail_of p)
unfolding save_part
load-save_to_root p root total count f =
    let n = length p.root in
    let rl : n % 256 + 256 * (n / 256 % 256 + 256 * 0) ≡ n = omega (arith, f.root_fits) in
    let b = save_part p in
    let tail_size : length (tail_of p) ≡ 16 + length p.bits = omega arith in
    let size : length b ≡ 6 + (n + (16 + length p.bits)) =
      omega (arith, length-append p.root (tail_of p), tail_size) in
    let passes = load_part-passes b root total count n rl (ground arith) (ground arith) in
    let root_is : take n (drop 6 b) ≡ p.root = take-append p.root (tail_of p) in
    let tail_is : drop (6 + n) b ≡ tail_of p =
      sym (drop-drop 6 n b) ∙ drop-append p.root (tail_of p) in
    passes
    ∙ ap (λ r. load_rest r root total count (drop (6 + n) b)) root_is
    ∙ ap (load_rest p.root root total count) tail_is

load_rest-passes :
    (stored root rest : List ℕ) (total count : ℕ)
    → (not (same_bytes stored root)
        || not (le_value 8 rest == total)
        || not (le_value 8 (drop 8 rest) == count)
        || ltb (length (drop 16 rest)) (bitmap_size count))
      ≡ false
    → let bits = take (bitmap_size count) (drop 16 rest) in
      load_rest stored root total count rest
      ≡ some (record {
        root = root;
        total = total;
        count = count;
        nset = count_bits bits count;
        bits = bits;
      })
unfolding load_rest
load_rest-passes stored root rest total count e = rw e refl

-- A state that was saved is loaded again as it was, leaf for leaf, with its count.
pub load-save :
    (p : PartBits) → IsPart p → Fits p → load_part (save_part p) p.root p.total p.count ≡ some p
load-save p v f =
    let total_is = le_value-bytes p.total (le_bytes 8 p.count ++ p.bits) f.total_fits in
    let count_is = le_value-bytes p.count p.bits f.count_fits in
    let bits_is : take (bitmap_size p.count) p.bits ≡ p.bits =
      ap (λ n. take n p.bits) (sym v.sized) ∙ take-length p.bits in
    let passes =
      load_rest-passes p.root p.root (tail_of p) p.total p.count
        (ground (arith, same_bytes_self p.root, total_is, count_is, v.sized)) in
    load-save_to_root p p.root p.total p.count f
    ∙ passes
    ∙ ap (λ bs. some (record p { nset = count_bits bs p.count; bits = bs })) bits_is
    ∙ ap (λ n. some (record p { nset = n })) (sym v.counted)

-- What a loaded state is, and what the guards have found.
record Loaded (stored root rest : List ℕ) (total count : ℕ) (q : PartBits) : Type 0 where
  root_is : stored ≡ root
  total_is : le_value 8 rest ≡ total
  count_is : le_value 8 (drop 8 rest) ≡ count
  bitmap_fits : bitmap_size count ≤ length (drop 16 rest)
  state_is :
      let bits = take (bitmap_size count) (drop 16 rest) in
      q ≡ record {
        root = root;
        total = total;
        count = count;
        nset = count_bits bits count;
        bits = bits;
      }

load_rest-Loaded :
    (stored root rest : List ℕ) (total count : ℕ) (q : PartBits)
    → load_rest stored root total count rest ≡ some q
    → Loaded stored root rest total count q
load_rest-Loaded stored root rest total count q e =
    elim (Bool-cases (
      not (same_bytes stored root)
      || not (le_value 8 rest == total)
      || not (le_value 8 (drop 8 rest) == count)
      || ltb (length (drop 16 rest)) (bitmap_size count))) [
        | inl refused ↦ absurd (unfold load_rest in ground (arith, refused, e))
        | inr passed ↦
            let is = load_rest-passes stored root rest total count passed in
            record {
              root_is = same_bytes-eq stored root (ground arith);
              total_is = ground arith;
              count_is = ground arith;
              bitmap_fits = ground arith;
              state_is = ap (λ o. elim o [ none ↦ q | some x ↦ x ]) (sym e ∙ is);
            }
      ]

-- A sidecar that was written for other content is not accepted.
pub load-save_own :
    (p q : PartBits) (root : List ℕ) (total count : ℕ)
    → Fits p
    → load_part (save_part p) root total count ≡ some q
    → (root ≡ p.root) × (total ≡ p.total) × (count ≡ p.count)
load-save_own p q root total count f e =
    let l =
      load_rest-Loaded p.root root (tail_of p) total count q
        (sym (load-save_to_root p root total count f) ∙ e) in
    (
      sym l.root_is,
      sym l.total_is ∙ le_value-bytes p.total (le_bytes 8 p.count ++ p.bits) f.total_fits,
      sym l.count_is ∙ le_value-bytes p.count p.bits f.count_fits,
    )

abbrev pub AllBytes : List ℕ → Type 0
AllBytes xs = (i : ℕ) → byte_at xs i < 256

AllBytes-take : (n : ℕ) (xs : List ℕ) → AllBytes xs → AllBytes (take n xs)
AllBytes-take zero xs a i = omega arith
AllBytes-take (suc n) [] a i = omega arith
AllBytes-take (suc n) (x ∷ xs) a zero = a 0
AllBytes-take (suc n) (x ∷ xs) a (suc i) = AllBytes-take n xs (λ j. a (suc j)) i

AllBytes-drop : (n : ℕ) (xs : List ℕ) → AllBytes xs → AllBytes (drop n xs)
AllBytes-drop zero xs a = a
AllBytes-drop (suc n) [] a = a
AllBytes-drop (suc n) (x ∷ xs) a = AllBytes-drop n xs (λ j. a (suc j))

load_part-some :
    (b root : List ℕ) (total count : ℕ) (p : PartBits)
    → load_part b root total count ≡ some p
    → let rl = le_value 2 (drop 4 b) in
      (load_rest (take rl (drop 6 b)) root total count (drop (6 + rl) b) ≡ some p)
      × (same_bytes (take 4 b) part_magic ≡ true)
load_part-some b root total count p e =
    let rl = le_value 2 (drop 4 b) in
    elim (Bool-cases (ltb (length b) 6 || not (same_bytes (take 4 b) part_magic))) [
      | inl refused ↦ absurd (unfold load_part in ground (arith, refused, e))
      | inr magic ↦ elim (Bool-cases (ltb (length b) (6 + rl + 16))) [
        | inl refused ↦ absurd (unfold load_part in ground (arith, magic, refused, e))
        | inr long ↦ (
          sym (load_part-passes b root total count rl refl magic long) ∙ e,
          ground (arith, magic),
        )
      ]
    ]

-- What the file itself says, behind its magic, is the content that was asked for.
pub record IsOf (b root : List ℕ) (total count : ℕ) : Type 0 where
  pub magic_is : take 4 b ≡ part_magic
  pub root_is : take (le_value 2 (drop 4 b)) (drop 6 b) ≡ root
  pub total_is : le_value 8 (drop (6 + le_value 2 (drop 4 b)) b) ≡ total
  pub count_is : le_value 8 (drop 8 (drop (6 + le_value 2 (drop 4 b)) b)) ≡ count

-- Whatever bytes a sidecar holds: where it is loaded, its own magic, root, size and count are those
-- of the content that was asked for, and the state is of that content, with a bitmap of the right size and
-- the count that its bits have.
pub load_part-IsPart :
    (b root : List ℕ) (total count : ℕ) (p : PartBits)
    → AllBytes b
    → load_part b root total count ≡ some p
    → IsOf b root total count × IsPart p × (p.root ≡ root) × (p.total ≡ total) × (p.count ≡ count)
load_part-IsPart b root total count p a e =
    let rl = le_value 2 (drop 4 b) in
    let rest = drop (6 + rl) b in
    let bits = take (bitmap_size count) (drop 16 rest) in
    let (loaded, magic) = load_part-some b root total count p e in
    let l = load_rest-Loaded (take rl (drop 6 b)) root rest total count p loaded in
    let v : IsPart (record {
      root = root;
      total = total;
      count = count;
      nset = count_bits bits count;
      bits = bits;
    }) =
      record {
        sized = length-take (bitmap_size count) (drop 16 rest) l.bitmap_fits;
        bytes =
            AllBytes-take (bitmap_size count) (drop 16 rest)
              (AllBytes-drop 16 rest (AllBytes-drop (6 + rl) b a));
        counted = refl;
      } in
    let of_file : IsOf b root total count = record {
      magic_is = same_bytes-eq (take 4 b) part_magic magic;
      root_is = l.root_is;
      total_is = l.total_is;
      count_is = l.count_is;
    } in
    rw l.state_is (of_file, v, refl, refl, refl)
