-- ===== src/Packet4/RoundTrip.antt =====
-- What the parser of packet4.go reads of what its builder builds.
use vidya_god_ipfs.Prelude.{
  ℕ, ◌+◌, ◌-◌, ◌/◌, ◌%◌, ◌^◌, ◌≤◌, ◌<◌, ◌≡◌, true, false, List, [], ◌∷◌, ◌++◌, arith, ltb, length,
  take-length, take, some, ◌||◌, uint16,
}
use vidya_god_ipfs.Packet4.{
  Ip4, parse_udp4, is_udp4, header_length, word_at, ip_at, slice, build_udp4, ip_checksum,
  udp_checksum, ip_header, udp_part, ip_bytes,
}

-- A packet that passes the guards.
parse_udp4-passes :
    (p : List ℕ)
    → let ihl = header_length p in
      let ulen = word_at p (ihl + 4) in
      is_udp4 p ≡ true
      → (ltb ulen 8 || ltb (length p) (ihl + ulen)) ≡ false
      → parse_udp4 p
        ≡ some (record {
          src = ip_at p 12;
          dst = ip_at p 16;
          src_port = word_at p ihl;
          dst_port = word_at p (ihl + 2);
          payload = slice (ihl + 8) (ihl + ulen) p;
        })
unfolding parse_udp4
parse_udp4-passes p e f = rw (e, f)

-- The parser on the bytes of a header without options.
parse-fields :
    (src dst : Ip4) (t t' c c' s s' d d' u v k k' : ℕ) (payload : List ℕ)
    → uint16 u v ≡ 8 + length payload
    → parse_udp4 (
        0x45
        ∷ 0
        ∷ t
        ∷ t'
        ∷ 0
        ∷ 0
        ∷ 0
        ∷ 0
        ∷ 64
        ∷ 17
        ∷ c
        ∷ c'
        ∷ (ip_bytes src ++ ip_bytes dst ++ (s ∷ s' ∷ d ∷ d' ∷ u ∷ v ∷ k ∷ k' ∷ payload)))
      ≡ some (record {
        src = src;
        dst = dst;
        src_port = uint16 s s';
        dst_port = uint16 d d';
        payload = payload;
      })
parse-fields src dst t t' c c' s s' d d' u v k k' payload e =
    let same : 20 + uint16 u v - 28 ≡ length payload = omega arith in
    let at_end : take (20 + uint16 u v - 28) payload ≡ payload = rw same (take-length payload) in
    let p : List ℕ =
      0x45
      ∷ 0
      ∷ t
      ∷ t'
      ∷ 0
      ∷ 0
      ∷ 0
      ∷ 0
      ∷ 64
      ∷ 17
      ∷ c
      ∷ c'
      ∷ (ip_bytes src ++ ip_bytes dst ++ (s ∷ s' ∷ d ∷ d' ∷ u ∷ v ∷ k ∷ k' ∷ payload)) in
    let parsed = parse_udp4-passes p (ground arith) (ground arith) in cc (parsed, at_end)

-- A packet that is built from ports and a payload that fit is parsed to just those.
pub parse-build :
    (src dst : Ip4) (sport dport : ℕ) (payload : List ℕ)
    → sport < 2 ^ 16
    → dport < 2 ^ 16
    → length payload ≤ 65507
    → parse_udp4 (build_udp4 src dst sport dport payload)
      ≡ some
          (record { src = src; dst = dst; src_port = sport; dst_port = dport; payload = payload })
unfolding build_udp4
parse-build src dst sport dport payload s d n =
    let ulen = 8 + length payload in
    let total = 20 + ulen in
    let zeros : List ℕ = 0 ∷ 0 ∷ [] in
    let c = ip_checksum (ip_header src dst total zeros) in
    let k = udp_checksum src dst (udp_part sport dport ulen zeros payload) in
    let sp : sport ≡ uint16 (sport / 256 % 256) (sport % 256) = omega arith in
    let dp : dport ≡ uint16 (dport / 256 % 256) (dport % 256) = omega arith in
    let parsed =
      parse-fields src dst (total / 256 % 256) (total % 256) (c / 256 % 256) (c % 256)
        (sport / 256 % 256) (sport % 256) (dport / 256 % 256) (dport % 256) (ulen / 256 % 256)
        (ulen % 256) (k / 256 % 256) (k % 256) payload (omega arith) in
    cc (parsed, sp, dp)
