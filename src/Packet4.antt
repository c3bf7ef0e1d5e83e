-- ===== src/Packet4.antt =====
-- packet4.go: the IPv4/UDP packets that the reflector and the DNS synthesizer parse and build.
-- A packet is a list of bytes; an address is its four bytes.
pub mod Checksum
pub mod RoundTrip
use vidya_god_ipfs.Prelude.{
  ℕ, zero, suc, ◌+◌, ◌-◌, ◌*◌, ◌/◌, ◌%◌, ◌^◌, Bool, true, false, not, ◌&&◌, ◌||◌, Option, none,
  some, List, [], ◌∷◌, ◌++◌, ltb, leb, ◌==◌, length, take, drop, if◌then◌else◌, byte_at, put_uint16,
  uint16,
}

pub record Ip4 : Type 0 where
  pub a : ℕ
  pub b : ℕ
  pub c : ℕ
  pub d : ℕ

-- `udp4`
pub record Udp4 : Type 0 where
  pub src : Ip4
  pub dst : Ip4
  pub src_port : ℕ
  pub dst_port : ℕ
  pub payload : List ℕ

abbrev pub ip_at : List ℕ → ℕ → Ip4
ip_at p o = record {
  a = byte_at p o;
  b = byte_at p (o + 1);
  c = byte_at p (o + 2);
  d = byte_at p (o + 3);
}

abbrev pub word_at : List ℕ → ℕ → ℕ
word_at p o = uint16 (byte_at p o) (byte_at p (o + 1))

-- pkt[from:to]
abbrev pub slice : ℕ → ℕ → List ℕ → List ℕ
slice from to p = take (to - from) (drop from p)

abbrev pub header_length : List ℕ → ℕ
header_length p = byte_at p 0 % 16 * 4

-- The three guards of `parseUDP4`, and the one on the UDP length.
abbrev pub is_udp4 : List ℕ → Bool
is_udp4 p =
    let ihl = header_length p in
    not (ltb (length p) 20 || not (byte_at p 0 / 16 == 4))
    && not (ltb ihl 20 || ltb (length p) (ihl + 8) || not (byte_at p 9 == 17))
    && not (not (byte_at p 6 % 32 == 0) || not (byte_at p 7 == 0))

unfoldable pub parse_udp4 : List ℕ → Option Udp4
parse_udp4 p =
    let ihl = header_length p in
    let ulen = word_at p (ihl + 4) in
    if not (is_udp4 p)
    then none
    else if ltb ulen 8 || ltb (length p) (ihl + ulen)
    then none
    else some (record {
      src = ip_at p 12;
      dst = ip_at p 16;
      src_port = word_at p ihl;
      dst_port = word_at p (ihl + 2);
      payload = slice (ihl + 8) (ihl + ulen) p;
    })

-- The sum of the 16-bit words from `acc` on, as a uint32; an odd last byte adds `odd` of it.
unfoldable pub sum_words : (ℕ → ℕ) → ℕ → List ℕ → ℕ
sum_words odd acc [] = acc
sum_words odd acc (x ∷ []) = (acc + odd x) % 2 ^ 32
sum_words odd acc (x ∷ y ∷ rest) = sum_words odd ((acc + uint16 x y) % 2 ^ 32) rest

-- The loop that adds the carries back: on a uint32 two rounds bring it below 2 ^ 16.
unfoldable pub fold_carries : ℕ → ℕ → ℕ
fold_carries zero sum = sum
fold_carries (suc f) sum = elim (ltb 0xffff sum) [
  | true ↦ fold_carries f (sum / 2 ^ 16 + sum % 2 ^ 16)
  | false ↦ sum
]

abbrev pub complement16 : ℕ → ℕ
complement16 sum = 0xffff - sum

unfoldable pub ip_checksum : List ℕ → ℕ
ip_checksum hdr = complement16 (fold_carries 3 (sum_words (λ x. 0) 0 hdr))

abbrev pub ip_bytes : Ip4 → List ℕ
ip_bytes i = i.a ∷ i.b ∷ i.c ∷ i.d ∷ []

unfoldable pub udp_sum : Ip4 → Ip4 → List ℕ → ℕ
udp_sum src dst udp =
    let shl8 = λ (x : ℕ). x * 256 in
    let addresses = sum_words shl8 (sum_words shl8 0 (ip_bytes src)) (ip_bytes dst) in
    sum_words shl8 ((addresses + 17 + length udp) % 2 ^ 32) udp

unfoldable pub udp_checksum : Ip4 → Ip4 → List ℕ → ℕ
udp_checksum src dst udp =
    let c = complement16 (fold_carries 3 (udp_sum src dst udp)) in if c == 0 then 0xffff else c

abbrev pub ip_header : Ip4 → Ip4 → ℕ → List ℕ → List ℕ
ip_header src dst total sum =
    0x45
    ∷ 0
    ∷ (total / 256 % 256)
    ∷ (total % 256)
    ∷ 0
    ∷ 0
    ∷ 0
    ∷ 0
    ∷ 64
    ∷ 17
    ∷ (sum ++ ip_bytes src ++ ip_bytes dst)

abbrev pub udp_part : ℕ → ℕ → ℕ → List ℕ → List ℕ → List ℕ
udp_part sport dport ulen sum payload =
    put_uint16 sport ++ put_uint16 dport ++ put_uint16 ulen ++ sum ++ payload

-- `buildUDP4`: each checksum is taken while its own field is zero.
unfoldable pub build_udp4 : Ip4 → Ip4 → ℕ → ℕ → List ℕ → List ℕ
build_udp4 src dst sport dport payload =
    let ulen = 8 + length payload in
    let zeros : List ℕ = 0 ∷ 0 ∷ [] in
    let ip_sum = ip_checksum (ip_header src dst (20 + ulen) zeros) in
    let udp_sum = udp_checksum src dst (udp_part sport dport ulen zeros payload) in
    ip_header src dst (20 + ulen) (put_uint16 ip_sum)
    ++ udp_part sport dport ulen (put_uint16 udp_sum) payload
