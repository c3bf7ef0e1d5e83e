-- ===== src/Overlay/Stream.antt =====
-- The frames and the inbound stream of overlay.go.
use vidya_god_ipfs.Prelude.{
  ℕ, ◌/◌, ◌%◌, ◌≤◌, ◌≡◌, refl, Bool, true, false, Option, none, some, List, [], ◌∷◌, ◌++◌, arith,
  ltb, length, length-append, take-append, drop-append, put_uint16, uint16, if◌then◌else◌, inl, inr,
  Option-cases,
}
use vidya_god_ipfs.Overlay.Frame.{write_frame, read_frame}
use vidya_god_ipfs.Overlay.Service.{Overlay, authorized}
use vidya_god_ipfs.Overlay.Inbound.{is_ipv4, inbound_loop}

abbrev frame : List ℕ → List ℕ
frame pkt = put_uint16 (length pkt) ++ pkt

write_frame-fits : (pkt : List ℕ) → length pkt ≤ 0xffff → write_frame pkt ≡ some (frame pkt)
unfolding write_frame
write_frame-fits pkt h = ground arith

-- A frame is read back whole, and no byte more: whatever follows it stays on the stream.
pub read-frame :
    (pkt rest : List ℕ) → length pkt ≤ 0xffff → read_frame (frame pkt ++ rest) ≡ some (pkt, rest)
unfolding read_frame
read-frame pkt rest h =
    let size : uint16 (length pkt / 256 % 256) (length pkt % 256) ≡ length pkt = omega arith in
    let fits : ltb (length (pkt ++ rest)) (length pkt) ≡ false =
      ground (arith, length-append pkt rest) in
    rw (size, fits, take-append pkt rest, drop-append pkt rest) refl

-- The packets of a list that are written to a stream, one frame after the other; none where one is
-- too large.
unfoldable pub write_frames : List (List ℕ) → Option (List ℕ)
write_frames [] = some []
write_frames (p ∷ ps) = elim (write_frame p) [
  | none ↦ none
  | some b ↦ elim (write_frames ps) [ none ↦ none | some bs ↦ some (b ++ bs) ]
]

-- A state of the service in which frames of that peer go through to the link.
pub record IsOpen (remote : ℕ) (s : Overlay × Bool) : Type 0 where
  pub authorized : authorized s.0 remote ≡ true
  pub attached : s.0.link ≡ true
  pub takes : s.1 ≡ true

-- The service is open at each of the frames, and after them.
abbrev pub OpenFor : ℕ → List (Overlay × Bool) → List (List ℕ) → Type 0
OpenFor remote states [] = Unit
OpenFor remote [] (p ∷ ps) = ⊥
OpenFor remote (s ∷ states) (p ∷ ps) = IsOpen remote s × OpenFor remote states ps

abbrev pub ipv4_only : List (List ℕ) → List (List ℕ)
ipv4_only [] = []
ipv4_only (p ∷ ps) = let rest = ipv4_only ps in if is_ipv4 p then p ∷ rest else rest

write_frame-some : (p b : List ℕ) → write_frame p ≡ some b → (b ≡ frame p) × (length p ≤ 0xffff)
unfolding write_frame
write_frame-some p b e = ground arith

write_frames-step :
    (p : List ℕ) (ps : List (List ℕ)) (b : List ℕ)
    → write_frames (p ∷ ps) ≡ some b
    → (bs : List ℕ) × (write_frames ps ≡ some bs) × (b ≡ frame p ++ bs) × (length p ≤ 0xffff)
write_frames-step p ps b e = elim (Option-cases (write_frame p)) [
  | inl large ↦ absurd (unfold write_frames in ground (arith, large, e))
  | inr (c, is) ↦ elim (Option-cases (write_frames ps)) [
    | inl large ↦ absurd (unfold write_frames in ground (arith, is, large, e))
    | inr (bs, are) ↦
        let (same, fits) = write_frame-some p c is in
        (bs, are, unfold write_frames in ground (arith, is, are, e, same), fits)
  ]
]

inbound_loop-open :
    (remote : ℕ) (s : Overlay × Bool) (later : List (Overlay × Bool)) (p rest stream : List ℕ)
    → IsOpen remote s
    → read_frame stream ≡ some (p, rest)
    → inbound_loop remote (s ∷ later) stream
      ≡ (if is_ipv4 p then p ∷ inbound_loop remote later rest else inbound_loop remote later rest)
unfolding inbound_loop
inbound_loop-open remote s later p rest stream v e =
    ground (arith, e, v.authorized, v.attached, v.takes)

-- What a peer's sender frames onto the stream is written to the link of an open service: exactly the
-- IPv4 packets, whole, in the order in which they were sent.
pub inbound_loop-delivers :
    (remote : ℕ) (states : List (Overlay × Bool)) (ps : List (List ℕ)) (stream : List ℕ)
    → write_frames ps ≡ some stream
    → OpenFor remote states ps
    → inbound_loop remote states stream ≡ ipv4_only ps
inbound_loop-delivers remote [] [] stream e v = unfold inbound_loop in refl
inbound_loop-delivers remote [] (p ∷ ps) stream e v = elim v [ ]
inbound_loop-delivers remote (s ∷ states) [] stream e v =
    unfold write_frames inbound_loop read_frame in ground (arith, e)
inbound_loop-delivers remote (s ∷ states) (p ∷ ps) stream e v =
    let (bs, are, is, fits) = write_frames-step p ps stream e in
    let read : read_frame stream ≡ some (p, bs) = rw is (read-frame p bs fits) in
    let more = inbound_loop-delivers remote states ps bs are v.1 in
    rw (inbound_loop-open remote s states p bs stream v.0 read, more) refl

-- Once a peer is no longer authorized, nothing that it sends on a stream it already has is written
-- to the link.
pub inbound_loop-revoked :
    (remote : ℕ) (before after : List (Overlay × Bool)) (o : Overlay) (takes : Bool)
    (stream : List ℕ)
    → authorized o remote ≡ false
    → inbound_loop remote (before ++ (o, takes) ∷ after) stream ≡ inbound_loop remote before stream
unfolding inbound_loop
inbound_loop-revoked remote [] after o takes stream n = elim (Option-cases (read_frame stream)) [
  | inl e ↦ rw (e, inbound_loop) refl
  | inr (r, e) ↦ rw (e, n, inbound_loop) refl
]
inbound_loop-revoked remote (s ∷ before) after o takes stream n =
    elim (Option-cases (read_frame stream)) [
      | inl e ↦ rw (e, inbound_loop) refl
      | inr ((p, rest), e) ↦
          let more = inbound_loop-revoked remote before after o takes rest n in
          ground (arith, e, more)
    ]
