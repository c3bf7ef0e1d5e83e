-- ===== src/Resume.antt =====
-- resume.go: the resume state of a fetch, one bit for each leaf, and the bytes of its sidecar file.
-- The root CID is the list of its string's bytes.
pub mod Bits
pub mod Sidecar
use vidya_god_ipfs.Prelude.{
  ℕ, zero, suc, ◌+◌, ◌*◌, ◌/◌, ◌%◌, ◌^◌, Bool, true, false, not, ◌&&◌, ◌||◌, Option, none, some,
  List, [], ◌∷◌, ◌++◌, ltb, ◌==◌, length, take, drop, replicate, set, if◌then◌else◌, byte_at,
}

-- `partBits`; `total` is the 64-bit pattern of the file's size
pub record PartBits : Type 0 where
  pub root : List ℕ
  pub total : ℕ
  pub count : ℕ
  pub nset : ℕ
  pub bits : List ℕ

abbrev pub bitmap_size : ℕ → ℕ
bitmap_size count = (count + 7) / 8

-- `newPartBits`
abbrev pub new_part_bits : List ℕ → ℕ → ℕ → PartBits
new_part_bits root total count = record {
  root = root;
  total = total;
  count = count;
  nset = 0;
  bits = replicate (bitmap_size count) 0;
}

-- bit `k` of a byte
abbrev pub bit_of : ℕ → ℕ → Bool
bit_of b k = b / 2 ^ k % 2 == 1

-- bits[i>>3] & (1 << (i&7))
unfoldable pub get_bit : List ℕ → ℕ → Bool
get_bit bits i = bit_of (byte_at bits (i / 8)) (i % 8)

-- `partBits.get`
abbrev pub get_leaf : PartBits → ℕ → Bool
get_leaf p i = get_bit p.bits i

-- `partBits.set`: or-ing in a bit that is not set adds it
unfoldable pub set_leaf : ℕ → PartBits → PartBits
set_leaf i p = if get_bit p.bits i then p else record p {
  bits = set p.bits (i / 8) (byte_at p.bits (i / 8) + 2 ^ (i % 8));
  nset = p.nset + 1;
}

-- `partBits.allSet`
abbrev pub all_set : PartBits → Bool
all_set p = p.nset == p.count

-- The loop of `loadPart` that counts the bits below `n`.
unfoldable pub count_bits : List ℕ → ℕ → ℕ
count_bits bits zero = 0
count_bits bits (suc n) = (if get_bit bits n then 1 else 0) + count_bits bits n

-- "VGPT"
abbrev pub part_magic : List ℕ
part_magic = b'V' ∷ b'G' ∷ b'P' ∷ b'T' ∷ []

-- binary.LittleEndian
abbrev pub le_bytes : ℕ → ℕ → List ℕ
le_bytes zero v = []
le_bytes (suc n) v = (v % 256) ∷ le_bytes n (v / 256)

abbrev pub le_value : ℕ → List ℕ → ℕ
le_value zero b = 0
le_value (suc n) [] = 0
le_value (suc n) (x ∷ xs) = x + 256 * le_value n xs

-- The bytes that `savePart` writes.
unfoldable pub save_part : PartBits → List ℕ
save_part p =
    part_magic
    ++ (le_bytes 2 (length p.root)
        ++ (p.root ++ (le_bytes 8 p.total ++ (le_bytes 8 p.count ++ p.bits))))

-- string comparison
abbrev pub same_bytes : List ℕ → List ℕ → Bool
same_bytes [] [] = true
same_bytes (x ∷ xs) (y ∷ ys) = x == y && same_bytes xs ys
same_bytes _ _ = false

-- The end of `loadPart`: what follows the root in the file is `rest`.
unfoldable pub load_rest : List ℕ → List ℕ → ℕ → ℕ → List ℕ → Option PartBits
load_rest stored root total count rest =
    let bitmap = drop 16 rest in
    if not (same_bytes stored root)
      || not (le_value 8 rest == total)
      || not (le_value 8 (drop 8 rest) == count)
      || ltb (length bitmap) (bitmap_size count)
    then none
    else some (record {
      root = root;
      total = total;
      count = count;
      nset = count_bits (take (bitmap_size count) bitmap) count;
      bits = take (bitmap_size count) bitmap;
    })

-- `loadPart` on the bytes of the file
unfoldable pub load_part : List ℕ → List ℕ → ℕ → ℕ → Option PartBits
load_part b root total count =
    let rl = le_value 2 (drop 4 b) in
    if ltb (length b) 6 || not (same_bytes (take 4 b) part_magic)
    then none
    else if ltb (length b) (6 + rl + 16)
    then none
    else load_rest (take rl (drop 6 b)) root total count (drop (6 + rl) b)
