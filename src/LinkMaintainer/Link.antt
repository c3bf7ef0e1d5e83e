-- ===== src/LinkMaintainer/Link.antt =====
-- overlaylink.go: a friend's link, the trust gate of the datapath, and the heartbeat packets.
-- A peer, a nickname and a connection id are numbers, with 0 for the empty connection id; `now` is
-- the clock's reading in nanoseconds.
use vidya_god_ipfs.Prelude.{
  ℕ, ◌+◌, ◌-◌, ◌/◌, ◌%◌, ◌^◌, Bool, true, false, not, ◌&&◌, ◌||◌, Option, none, some, List, ◌∷◌,
  ltb, leb, ◌==◌, min, length, if◌then◌else◌, Map, get, put, ℤ, pos, negsuc, byte_at, put_uint64,
  uint64,
}

abbrev pub link_beat_every : ℕ
link_beat_every = 4_000_000_000

abbrev pub link_beat_miss : ℕ
link_beat_miss = 3

abbrev pub link_dial_backoff : ℕ
link_dial_backoff = 2_000_000_000

abbrev pub link_dial_max : ℕ
link_dial_max = 300_000_000_000

abbrev pub link_upgrade_try : ℕ
link_upgrade_try = 30_000_000_000

pub data LinkState : Type 0 where
  down connecting relayed direct : LinkState

pub LinkState-discrete : Discrete LinkState
LinkState-discrete = hlevel

-- `peerLink`; -1 in `rttMs` is the unknown round trip. The counters are uint64.
pub record PeerLink : Type 0 where
  pub nick : ℕ
  pub state : LinkState
  pub rtt_ms : ℤ
  pub last_pong : ℕ
  pub ever_ponged : Bool
  pub proven_conn : ℕ
  pub missed : ℕ
  pub dialing : Bool
  pub next_dial : ℕ
  pub backoff : ℕ
  pub last_up : ℕ
  pub dg_tx : ℕ
  pub dg_rx : ℕ
  pub stream_tx : ℕ
  pub demoted : ℕ

abbrev pub unknown_rtt : ℤ
unknown_rtt = negsuc 0

abbrev pub count_u64 : ℕ → ℕ
count_u64 n = (n + 1) % 2 ^ 64

abbrev pub new_link : ℕ → PeerLink
new_link nick = record {
  nick = nick;
  state = down;
  rtt_ms = unknown_rtt;
  last_pong = 0;
  ever_ponged = false;
  proven_conn = 0;
  missed = 0;
  dialing = false;
  next_dial = 0;
  backoff = link_dial_backoff;
  last_up = 0;
  dg_tx = 0;
  dg_rx = 0;
  stream_tx = 0;
  demoted = 0;
}

abbrev pub Links : Type 0
Links = Map PeerLink

-- time.Since(t) > d; the zero time is longer ago than any duration
abbrev pub longer_since : ℕ → ℕ → ℕ → Bool
longer_since now t d = t == 0 || ltb d (now - t)

abbrev pub trusts : PeerLink → Bool
trusts l = l.ever_ponged && ltb l.missed link_beat_miss

-- `datagramsTrusted`
unfoldable pub datagrams_trusted : ℕ → Links → Bool
datagrams_trusted pid m = elim (get pid m) [ none ↦ false | some l ↦ trusts l ]

-- `trustedConnFor`: the connection, and whether the peer is tracked
unfoldable pub trusted_conn_for : ℕ → Links → ℕ × Bool
trusted_conn_for pid m = elim (get pid m) [
  | none ↦ (0, false)
  | some l ↦ (if trusts l then l.proven_conn else 0, true)
]

-- `heartbeatPacket`: "VGHB", the kind, the timestamp
unfoldable pub heartbeat_packet : ℕ → ℕ → List ℕ
heartbeat_packet kind ts = b'V' ∷ b'G' ∷ b'H' ∷ b'B' ∷ kind ∷ put_uint64 ts

unfoldable pub is_heartbeat : List ℕ → Bool
is_heartbeat pkt =
    length pkt == 13
    && byte_at pkt 0 == b'V'
    && byte_at pkt 1 == b'G'
    && byte_at pkt 2 == b'H'
    && byte_at pkt 3 == b'B'

-- A whole number of milliseconds, rounded towards zero; negative for a time to come.
abbrev negated : ℕ → ℤ
negated n = if n == 0 then pos 0 else negsuc (n - 1)

-- time.Since(sent).Milliseconds() of the 64-bit pattern `w` of `sent`, with a duration's saturation
unfoldable pub since_ms : ℕ → ℕ → ℤ
since_ms now w =
    if ltb w (2 ^ 63)
    then (if leb w now then pos ((now - w) / 1_000_000) else negated ((w - now) / 1_000_000))
    else pos (min (now + (2 ^ 64 - w)) (2 ^ 63 - 1) / 1_000_000)

-- what a pong on connection `conn` does to a link
unfoldable pub on_pong : ℕ → ℕ → ℕ → PeerLink → PeerLink
on_pong now conn sent l = record l {
  rtt_ms = since_ms now sent;
  last_pong = now;
  ever_ponged = true;
  proven_conn = conn;
  missed = 0;
}

-- `m.links[pid]` changed in place, where there is one
abbrev pub at_link : ℕ → (PeerLink → PeerLink) → Links → Links
at_link pid f m = elim (get pid m) [ none ↦ m | some l ↦ put pid (f l) m ]

-- `handleHeartbeat`: the links, and the packet that `sendPong` ships
unfoldable pub handle_heartbeat : ℕ → ℕ → ℕ → List ℕ → Links → Links × Option (List ℕ)
handle_heartbeat now pid conn pkt m =
    if not (is_heartbeat pkt)
    then (m, none)
    else if byte_at pkt 4 == 0
    then (m, some (heartbeat_packet 1 (uint64 pkt 5)))
    else if byte_at pkt 4 == 1
    then (at_link pid (on_pong now conn (uint64 pkt 5)) m, none)
    else (m, none)

unfoldable pub note_tx : ℕ → Links → Links
note_tx pid m = at_link pid (λ l. record l { dg_tx = count_u64 l.dg_tx }) m

unfoldable pub note_rx : ℕ → Links → Links
note_rx pid m = at_link pid (λ l. record l { dg_rx = count_u64 l.dg_rx }) m

unfoldable pub note_stream : ℕ → Links → Links
note_stream pid m = at_link pid (λ l. record l { stream_tx = count_u64 l.stream_tx }) m

abbrev pub suspect_link : PeerLink → PeerLink
suspect_link l = if l.ever_ponged then record l { missed = link_beat_miss } else l

-- `suspect`: instant distrust
unfoldable pub suspect : ℕ → Links → Links
suspect pid m = at_link pid suspect_link m
