-- ===== src/Packet4/Checksum.antt =====
-- The checksums of packet4.go, as a receiver adds them up.
use vidya_god_ipfs.Prelude.{
  ℕ, ◌+◌, ◌*◌, ◌/◌, ◌%◌, ◌^◌, ◌≤◌, ◌<◌, ◌≡◌, List, [], ◌∷◌, arith, length, uint16, put_uint16, ◌==◌,
  inl, inr, Bool-cases,
}
use vidya_god_ipfs.Packet4.{
  Ip4, sum_words, fold_carries, complement16, ip_checksum, udp_checksum, ip_header, udp_sum,
  udp_part, ip_bytes,
}

carry_once : (s : ℕ) → s < 2 ^ 32 → s / 2 ^ 16 + s % 2 ^ 16 ≤ 0x1fffe
carry_once s h = omega arith

-- The loop ends by its own test, and keeps the sum modulo 2 ^ 16 - 1, and above zero.
pub fold_carries_lem :
    (s : ℕ)
    → s < 2 ^ 32
    → (fold_carries 3 s ≤ 0xffff)
      × (fold_carries 3 s % 0xffff ≡ s % 0xffff)
      × (0 < s → 0 < fold_carries 3 s)
unfolding fold_carries
fold_carries_lem s h = ground arith

-- One's complement: a sum to which its complemented fold is added folds to all ones.
pub complement_verifies :
    (s : ℕ) → 0 < s → s < 2 ^ 31 → fold_carries 3 (s + complement16 (fold_carries 3 s)) ≡ 0xffff
complement_verifies s p h =
    let (le, same, above) = fold_carries_lem s (omega arith) in
    let t = s + complement16 (fold_carries 3 s) in
    let (le', same', above') = fold_carries_lem t (omega arith) in
    let up = above p in let up' = above' (omega arith) in omega arith

-- The same where all ones stand for zero.
all_ones_verifies :
    (s : ℕ)
    → s < 2 ^ 31
    → complement16 (fold_carries 3 s) ≡ 0
    → fold_carries 3 (s + 0xffff) ≡ 0xffff
all_ones_verifies s h z =
    let (le, same, above) = fold_carries_lem s (omega arith) in
    let (le', same', above') = fold_carries_lem (s + 0xffff) (omega arith) in
    let up' = above' (omega arith) in omega arith

pub record IsIp4 (i : Ip4) : Type 0 where
  pub a_byte : i.a < 256
  pub b_byte : i.b < 256
  pub c_byte : i.c < 256
  pub d_byte : i.d < 256

abbrev ip_words : Ip4 → ℕ
ip_words i = uint16 i.a i.b + uint16 i.c i.d

sum-ip_header :
    (src dst : Ip4) (total hi lo : ℕ)
    → IsIp4 src
    → IsIp4 dst
    → hi < 256
    → lo < 256
    → sum_words (λ x. 0) 0 (ip_header src dst total (hi ∷ lo ∷ []))
      ≡ 0x4500 + total % 2 ^ 16 + 16401 + uint16 hi lo + ip_words src + ip_words dst
unfolding sum_words
sum-ip_header src dst total hi lo s d h l = omega arith

-- The header that is built sums to all ones, which is what a receiver checks.
pub ip_checksum_verifies :
    (src dst : Ip4) (total : ℕ)
    → IsIp4 src
    → IsIp4 dst
    → let sum = ip_checksum (ip_header src dst total (0 ∷ 0 ∷ [])) in
      fold_carries 3 (sum_words (λ x. 0) 0 (ip_header src dst total (put_uint16 sum))) ≡ 0xffff
unfolding ip_checksum
ip_checksum_verifies src dst total s d =
    let zero_sum = sum_words (λ x. 0) 0 (ip_header src dst total (0 ∷ 0 ∷ [])) in
    let is = sum-ip_header src dst total 0 0 s d (omega arith) (omega arith) in
    let c = complement16 (fold_carries 3 zero_sum) in
    let whole : sum_words (λ x. 0) 0 (ip_header src dst total (put_uint16 c)) ≡ zero_sum + c =
      omega (
        arith,
        sum-ip_header src dst total (c / 256 % 256) (c % 256) s d (omega arith) (omega arith),
      ) in
    rw whole (complement_verifies zero_sum (omega arith) (omega arith))

abbrev shl8 : ℕ → ℕ
shl8 x = x * 256

-- The words of a payload, with no wrap-around.
abbrev payload_words : List ℕ → ℕ
payload_words [] = 0
payload_words (x ∷ []) = x * 256
payload_words (x ∷ y ∷ rest) = uint16 x y + payload_words rest

abbrev pub IsBytes : List ℕ → Type 0
IsBytes [] = Unit
IsBytes (x ∷ xs) = (x < 256) × IsBytes xs

payload_words-le : (p : List ℕ) → IsBytes p → 2 * payload_words p ≤ 0xffff * (length p + 1)
payload_words-le [] b = omega arith
payload_words-le (x ∷ []) b = omega (arith, b.0)
payload_words-le (x ∷ y ∷ rest) b = omega (arith, b.0, b.1.0, payload_words-le rest b.1.1)

sum_words-payload :
    (acc : ℕ) (p : List ℕ)
    → acc + payload_words p < 2 ^ 32
    → sum_words shl8 acc p ≡ acc + payload_words p
unfolding sum_words
sum_words-payload acc [] h = omega arith
sum_words-payload acc (x ∷ []) h = omega arith
sum_words-payload acc (x ∷ y ∷ rest) h =
    let e : (acc + uint16 x y) % 2 ^ 32 ≡ acc + uint16 x y = omega arith in
    rw e (omega (arith, sum_words-payload (acc + uint16 x y) rest (omega arith)))

-- What the UDP sum is, with any checksum in its field.
abbrev udp_words : Ip4 → Ip4 → ℕ → ℕ → ℕ → List ℕ → ℕ
udp_words src dst sport dport ulen payload =
    ip_words src
    + ip_words dst
    + 17
    + ulen
    + (sport % 2 ^ 16 + dport % 2 ^ 16 + ulen % 2 ^ 16)
    + payload_words payload

sum-header :
    (src dst : Ip4)
    → IsIp4 src
    → IsIp4 dst
    → sum_words shl8 (sum_words shl8 0 (ip_bytes src)) (ip_bytes dst) ≡ ip_words src + ip_words dst
unfolding sum_words
sum-header src dst s d = omega arith

sum-udp_part :
    (src dst : Ip4) (sport dport hi lo : ℕ) (payload : List ℕ)
    → IsIp4 src
    → IsIp4 dst
    → IsBytes payload
    → length payload ≤ 65507
    → hi < 256
    → lo < 256
    → udp_sum src dst (udp_part sport dport (8 + length payload) (hi ∷ lo ∷ []) payload)
      ≡ udp_words src dst sport dport (8 + length payload) payload + uint16 hi lo
unfolding udp_sum
sum-udp_part src dst sport dport hi lo payload s d b n h l =
    let part = udp_part sport dport (8 + length payload) (hi ∷ lo ∷ []) payload in
    let le = payload_words-le payload b in
    let acc = (ip_words src + ip_words dst + 17 + length part) % 2 ^ 32 in
    let e = sum_words-payload acc part (omega arith) in
    rw (sum-header src dst s d) (omega (arith, e))

-- The datagram that is built sums, with its pseudo-header, to all ones, and its checksum is not the
-- zero that stands for no checksum.
pub udp_checksum_verifies :
    (src dst : Ip4) (sport dport : ℕ) (payload : List ℕ)
    → IsIp4 src
    → IsIp4 dst
    → IsBytes payload
    → length payload ≤ 65507
    → let ulen = 8 + length payload in
      let sum = udp_checksum src dst (udp_part sport dport ulen (0 ∷ 0 ∷ []) payload) in
      (fold_carries 3 (udp_sum src dst (udp_part sport dport ulen (put_uint16 sum) payload))
        ≡ 0xffff)
      × (0 < sum)
      × (sum ≤ 0xffff)
unfolding udp_checksum
udp_checksum_verifies src dst sport dport payload s d b n =
    let ulen = 8 + length payload in
    let u = udp_sum src dst (udp_part sport dport ulen (0 ∷ 0 ∷ []) payload) in
    let le = payload_words-le payload b in
    let is : u ≡ udp_words src dst sport dport ulen payload =
      omega
        (arith, sum-udp_part src dst sport dport 0 0 payload s d b n (omega arith) (omega arith)) in
    let with_sum = λ (c : ℕ).
      sum-udp_part src dst sport dport (c / 256 % 256) (c % 256) payload s d b n (omega arith)
        (omega arith) in
    let c = complement16 (fold_carries 3 u) in
    elim (Bool-cases (c == 0)) [
      | inr nonzero ↦ rw nonzero (
          let whole : udp_sum src dst (udp_part sport dport ulen (put_uint16 c) payload) ≡ u + c =
            omega (arith, with_sum c) in
          (rw whole (complement_verifies u (omega arith) (omega arith)), ground arith, omega arith))
      | inl is_zero ↦ rw is_zero (
          let whole : udp_sum src dst (udp_part sport dport ulen (put_uint16 0xffff) payload)
              ≡ u + 0xffff =
            omega (arith, with_sum 0xffff) in
          (rw whole (all_ones_verifies u (omega arith) (ground arith)), omega arith, omega arith))
    ]
