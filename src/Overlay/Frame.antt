-- ===== src/Overlay/Frame.antt =====
-- overlay.go: addresses, the demultiplexer's view of a packet, and the frames of the stream.
-- A dotted address is its 32-bit number, which the dotted form determines and is determined by.
use vidya_god_ipfs.Prelude.{
  ℕ, ◌+◌, ◌-◌, ◌*◌, ◌/◌, ◌^◌, Bool, false, not, ◌&&◌, ◌||◌, Option, none, some, List, ◌∷◌, ◌++◌,
  ltb, leb, ◌==◌, length, take, drop, if◌then◌else◌, byte_at, put_uint16, uint16,
}

-- `ipv4Dst`
unfoldable pub ipv4_dst : List ℕ → Option ℕ
ipv4_dst pkt =
    if ltb (length pkt) 20 || not (byte_at pkt 0 / 16 == 4)
    then none
    else some (
        byte_at pkt 16 * 2 ^ 24 + byte_at pkt 17 * 2 ^ 16 + byte_at pkt 18 * 2 ^ 8 + byte_at pkt 19)

-- The subnet of the LAN: its network address and the length of its prefix.
pub record Subnet : Type 0 where
  pub network : ℕ
  pub prefix : ℕ

abbrev block_size : Subnet → ℕ
block_size s = 2 ^ (32 - s.prefix)

-- `IPNet.Contains`: the address under the mask is the network's
unfoldable pub subnet_contains : Subnet → ℕ → Bool
subnet_contains s ip = ip / block_size s == s.network / block_size s

-- The network address with every bit outside the mask set, as `configure` computes it.
unfoldable pub broadcast_of : Subnet → ℕ
broadcast_of s = s.network / block_size s * block_size s + (block_size s - 1)

-- `isFanout`
unfoldable pub is_fanout : Option ℕ → ℕ → Bool
is_fanout bcast dst =
    dst == 0xffffffff
    || elim bcast [ none ↦ false | some b ↦ dst == b ]
    || (leb 224 (dst / 2 ^ 24) && leb (dst / 2 ^ 24) 239)

-- `writeFrame`: what is written to the stream, where the stream takes it
unfoldable pub write_frame : List ℕ → Option (List ℕ)
write_frame pkt = if ltb 0xffff (length pkt) then none else some (put_uint16 (length pkt) ++ pkt)

-- `readFrame`: the packet and what the stream still holds, or an end before the frame's
unfoldable pub read_frame : List ℕ → Option (List ℕ × List ℕ)
read_frame (x ∷ y ∷ rest) =
    let n = uint16 x y in if ltb (length rest) n then none else some (take n rest, drop n rest)
read_frame _ = none
