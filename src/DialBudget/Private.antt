-- ===== src/DialBudget/Private.antt =====
-- Which peers' private addresses are dialed.
use vidya_god_ipfs.Prelude.{
  ℕ, ◌+◌, ◌≡◌, refl, Bool, true, false, not, ◌&&◌, ◌||◌, Option, none, some, List, [], ◌∷◌, arith,
  ltb, ◌==◌, Map, get, put, delete, get-put, get-delete, Bool-cases, Option-cases, both_branches,
  inl, inr,
}
use vidya_god_ipfs.DialBudget.Bucket.{Bucket, Look, take_from, dial_max_wait}
use vidya_god_ipfs.DialBudget.Gate.{
  NetGate, note_lan_peer, note_wanted_provider, is_friend, counts, looked_at, is_lan_peer,
  is_wanted_provider, priority, intercept_peer_dial, DialAddr, private_addr, intercept_addr_dial,
  lan_peer_ttl,
}

-- What may happen at the gate, each at its time: a peer is noted, or looked up for a dial.
pub data Event : Type 0 where
  lan_noted wanted_noted addr_dialed : ℕ → ℕ → Event
  peer_dialed : ℕ → List Look → ℕ → Event

unfoldable pub happen : DialAddr → Event → NetGate → NetGate
happen a (lan_noted now p) g = note_lan_peer now p g
happen a (wanted_noted now p) g = note_wanted_provider now p g
happen a (addr_dialed now p) g = (intercept_addr_dial none now p a g).0
happen a (peer_dialed now times p) g = (intercept_peer_dial none now times p g).0

unfoldable pub run : DialAddr → List Event → NetGate → NetGate
run a [] g = g
run a (e ∷ es) g = run a es (happen a e g)

-- The peer was noted as one of the network within the hour before a time.
abbrev pub noted_for : ℕ → ℕ → Event → Bool
noted_for later j (lan_noted now p) = p == j && not (ltb (now + lan_peer_ttl) later)
noted_for later j _ = false

abbrev pub noted_within : ℕ → ℕ → List Event → Bool
noted_within later j [] = false
noted_within later j (e ∷ es) = noted_for later j e || noted_within later j es

counts-delete :
    (later p j : ℕ) (m : Map ℕ) → (not (counts later j (delete p m)) || counts later j m) ≡ true
counts-delete later p j m = elim (Bool-cases (p == j)) [
  | inl e ↦ rw (get-delete p j m, e, counts) refl
  | inr e ↦ rw (get-delete p j m, e, counts) (ground arith)
]

-- A look at an entry makes no other answer a yes.
counts-looked_at :
    (now later p j : ℕ) (m : Map ℕ)
    → (not (counts later j (looked_at now p m)) || counts later j m) ≡ true
counts-looked_at now later p j m = elim (Option-cases (get p m)) [
  | inl e ↦ rw (e, looked_at) (ground arith)
  | inr (until, e) ↦
      rw (e, looked_at)
        (both_branches (λ (n : Map ℕ). (not (counts later j n) || counts later j m) ≡ true)
          (ltb until now) (delete p m) m (counts-delete later p j m) (ground arith))
]

counts-put :
    (later p j until : ℕ) (m : Map ℕ)
    → (not (counts later j (put p until m))
        || counts later j m
        || (p == j && not (ltb until later)))
      ≡ true
counts-put later p j until m = elim (Bool-cases (p == j)) [
  | inl e ↦ rw (get-put p j until m, e, counts) (ground arith)
  | inr e ↦ rw (get-put p j until m, e, counts) (ground arith)
]

priority-counts :
    (now later p j : ℕ) (g : NetGate)
    → (not (counts later j (priority now p g).0.lan_peers) || counts later j g.lan_peers) ≡ true
unfolding priority is_lan_peer is_wanted_provider
priority-counts now later p j g =
    let P : NetGate × Bool → Type 0 =
      λ r. (not (counts later j r.0.lan_peers) || counts later j g.lan_peers) ≡ true in
    let g1 : NetGate = record g { lan_peers = looked_at now p g.lan_peers } in
    let looked : P (g1, true) = counts-looked_at now later p j g.lan_peers in
    both_branches P (is_friend p g) (g, true) _ (ground arith)
      (both_branches P (counts now p g.lan_peers) (g1, true)
        (record g1 { wanted_prov = looked_at now p g.wanted_prov }, counts now p g.wanted_prov)
        looked looked)

happen-counts :
    (a : DialAddr) (later j : ℕ) (e : Event) (g : NetGate)
    → (not (counts later j (happen a e g).lan_peers)
        || counts later j g.lan_peers
        || noted_for later j e)
      ≡ true
unfolding happen note_lan_peer note_wanted_provider intercept_addr_dial intercept_peer_dial
    is_lan_peer is_wanted_provider priority
happen-counts a later j (lan_noted now p) g = counts-put later p j (now + lan_peer_ttl) g.lan_peers
happen-counts a later j (wanted_noted now p) g = ground arith
happen-counts a later j (addr_dialed now p) g =
    let looked : (not (counts later j (looked_at now p g.lan_peers)) || counts later j g.lan_peers)
        ≡ true =
      counts-looked_at now later p j g.lan_peers in
    both_branches
      (λ (r : NetGate × Bool).
        (not (counts later j r.0.lan_peers) || counts later j g.lan_peers || false) ≡ true)
      (not (private_addr a) || is_friend p g) (g, true)
      (record g { lan_peers = looked_at now p g.lan_peers }, counts now p g.lan_peers)
      (ground arith) (ground (arith, looked))
happen-counts a later j (peer_dialed now times p) g =
    let (g1, first) : NetGate × Bool = priority now p g in
    let looked : (not (counts later j (priority now p g).0.lan_peers) || counts later j g.lan_peers)
        ≡ true =
      priority-counts now later p j g in
    let (bucket, got) : Bucket × Option Bool =
      take_from (now + dial_max_wait) times (priority now p g).0.bucket in
    both_branches
      (λ (r : NetGate × Option Bool).
        (not (counts later j r.0.lan_peers) || counts later j g.lan_peers || false) ≡ true)
      (priority now p g).1 ((priority now p g).0, some true)
      (record (priority now p g).0 { bucket = bucket }, got) (ground (arith, looked))
      (ground (arith, looked))

run-counts :
    (a : DialAddr) (later j : ℕ) (es : List Event) (g : NetGate)
    → (not (counts later j (run a es g).lan_peers)
        || counts later j g.lan_peers
        || noted_within later j es)
      ≡ true
unfolding run
run-counts a later j [] g = ground arith
run-counts a later j (e ∷ es) g =
    ground (arith, run-counts a later j es (happen a e g), happen-counts a later j e g)

dial-allowed :
    (inner : Option Bool) (now p : ℕ) (a : DialAddr) (g : NetGate)
    → private_addr a ≡ true
    → (intercept_addr_dial inner now p a g).1 ≡ true
    → (is_friend p g || counts now p g.lan_peers) ≡ true
unfolding intercept_addr_dial is_lan_peer
dial-allowed inner now p a g private dialed = ground (arith, private, dialed)

-- After any notes and dials, at a gate that knew no peers of the network at first: a private address of
-- a peer is dialed only where the peer is an accepted friend, or was noted as one of the network
-- within the hour before.
pub intercept_addr_dial-private :
    (a : DialAddr) (es : List Event) (inner : Option Bool) (now p : ℕ) (g : NetGate)
    → g.lan_peers ≡ []
    → private_addr a ≡ true
    → (intercept_addr_dial inner now p a (run a es g)).1 ≡ true
    → (is_friend p (run a es g) || noted_within now p es) ≡ true
unfolding intercept_addr_dial is_lan_peer
intercept_addr_dial-private a es inner now p g none_yet private dialed =
    let allowed : (is_friend p (run a es g) || counts now p (run a es g).lan_peers) ≡ true =
      dial-allowed inner now p a (run a es g) private dialed in
    let unknown : counts now p g.lan_peers ≡ false = rw none_yet refl in
    ground (arith, allowed, unknown, run-counts a now p es g)
