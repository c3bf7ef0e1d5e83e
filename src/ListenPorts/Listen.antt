-- ===== src/ListenPorts/Listen.antt =====
-- One attempt to listen, and what it leaves of the UDP ports.
use vidya_god_ipfs.Prelude.{
  ℕ, ◌≡◌, refl, sym, ap, ◌∙◌, Bool, true, false, not, ◌||◌, ◌==◌, List, [], ◌∷◌, arith, ◌⊎◌,
  if◌then◌else◌, Bool-cases, inl, inr,
}
use vidya_god_ipfs.ListenPorts.Ports.{
  Addr, Kind, quic, web_transport, over_udp, contains_addr, same_addr, addrs_of, opened, close_all,
  listen_loop, listen,
}

abbrev pub at : Bool → Kind → ℕ → Addr
at v6 kind port = record { v6 = v6; kind = kind; port = port }

-- What is listened on of UDP, of one family: for each port both parts or neither, or nothing at all.
abbrev pub Paired : Bool → List Addr → Type 0
Paired f l = (p : ℕ) → contains_addr (at f quic p) l ≡ contains_addr (at f web_transport p) l

abbrev pub Free : Bool → List Addr → Type 0
Free f l =
    (p : ℕ)
    → (contains_addr (at f quic p) l ≡ false) × (contains_addr (at f web_transport p) l ≡ false)

close_all-none : (l : List Addr) → close_all [] l ≡ l
close_all-none [] = refl
close_all-none (x ∷ l) = ap (λ r. x ∷ r) (close_all-none l)

close_all-fewer :
    (a : Addr) (done l : List Addr)
    → (not (contains_addr a (close_all done l)) || contains_addr a l) ≡ true
close_all-fewer a done [] = refl
close_all-fewer a done (x ∷ l) = elim (Bool-cases (contains_addr x done)) [
  | inl e ↦ rw (e, close_all) (ground (arith, close_all-fewer a done l))
  | inr e ↦ rw (e, close_all) (ground (arith, close_all-fewer a done l))
]

other_family :
    (f : Bool) (k k' : Kind) (p p' : ℕ) (x : Addr)
    → same_addr x (at (not f) k' p') ≡ true
    → same_addr (at f k p) x ≡ false
other_family true k k' p p' x e = ground (arith, e)
other_family false k k' p p' x e = ground (arith, e)

-- A port of another family.
close_all-other :
    (f : Bool) (k k' : Kind) (p p' : ℕ) (l : List Addr)
    → contains_addr (at f k p) (close_all (at (not f) k' p' ∷ []) l) ≡ contains_addr (at f k p) l
close_all-other f k k' p p' [] = refl
close_all-other f k k' p p' (x ∷ l) = elim (Bool-cases (same_addr x (at (not f) k' p'))) [
  | inl e ↦
      let apart : same_addr (at f k p) x ≡ false = other_family f k k' p p' x e in
      rw (e, apart, close_all) (close_all-other f k k' p p' l)
  | inr e ↦
      rw (e, close_all) (ap (λ b. same_addr (at f k p) x || b) (close_all-other f k k' p p' l))
]

-- A transport over TCP leaves what is listened on of UDP.
pub listen-tcp :
    (takes : Addr → Bool) (picks : Addr → ℕ) (f : Bool) (p : ℕ) (x : Addr) (l : List Addr)
    (k : Kind)
    → same_addr (at f k p) (opened picks x) ≡ false
    → contains_addr (at f k p) (listen takes picks (x ∷ []) l).0 ≡ contains_addr (at f k p) l
unfolding listen listen_loop
listen-tcp takes picks f p x l k other = elim (Bool-cases (takes x)) [
  | inl e ↦ rw (e, other) refl
  | inr e ↦ rw (e, close_all-none l) refl
]

same_self : (f : Bool) (port : ℕ) → same_addr (at f quic port) (at f quic port) ≡ true
same_self true port = ground arith
same_self false port = ground arith

apart : (f : Bool) (k k' : Kind) (p p' : ℕ) → same_addr (at f k p) (at (not f) k' p') ≡ false
apart true k k' p p' = refl
apart false k k' p p' = refl

close_all-no_udp :
    (f : Bool) (p : ℕ) (done l : List Addr)
    → Free f l
    → (contains_addr (at f quic p) (close_all done l) ≡ false)
      × (contains_addr (at f web_transport p) (close_all done l) ≡ false)
close_all-no_udp f p done l free =
    let (q, w) : (contains_addr (at f quic p) l ≡ false)
        × (contains_addr (at f web_transport p) l ≡ false) =
      free p in
    (
      ground (arith, q, close_all-fewer (at f quic p) done l),
      ground (arith, w, close_all-fewer (at f web_transport p) done l),
    )

both_parts :
    (f : Bool) (p port : ℕ) (l : List Addr)
    → Free f l
    → contains_addr (at f quic p) (at f web_transport port ∷ at f quic port ∷ l)
      ≡ contains_addr (at f web_transport p) (at f web_transport port ∷ at f quic port ∷ l)
both_parts true p port l free =
    let (q, w) : (contains_addr (at true quic p) l ≡ false)
        × (contains_addr (at true web_transport p) l ≡ false) =
      free p in
    rw (q, w) (ground arith)
both_parts false p port l free =
    let (q, w) : (contains_addr (at false quic p) l ≡ false)
        × (contains_addr (at false web_transport p) l ≡ false) =
      free p in
    rw (q, w) (ground arith)

asked : (picks : Addr → ℕ) (a : Addr) → (a.port == 0) ≡ false → opened picks a ≡ a
asked picks a nz = rw nz refl

-- What comes of UDP on a port other than 0: both parts, or neither, with QUIC closed again where it was
-- listened on.
listen-udp_cases :
    (takes : Addr → Bool) (picks : Addr → ℕ) (f : Bool) (port : ℕ) (l : List Addr)
    → (port == 0) ≡ false
    → (listen takes picks (addrs_of over_udp f port) l
        ≡ (at f web_transport port ∷ at f quic port ∷ l, true))
      ⊎ ((b : Bool) × (listen takes picks (addrs_of over_udp f port) l
            ≡ (close_all (if b then at f quic port ∷ [] else []) l, false)))
unfolding listen listen_loop
listen-udp_cases takes picks f port l nz = elim (Bool-cases (takes (at f quic port))) [
  | inl e ↦ elim (Bool-cases (takes (at f web_transport port))) [
    | inl e' ↦ inl (rw (e, e', nz) refl)
    | inr e' ↦ inr (true, rw (e, e', nz, same_self f port) refl)
  ]
  | inr e ↦ inr (false, rw e refl)
]

pub listen-udp_taken :
    (takes : Addr → Bool) (picks : Addr → ℕ) (f : Bool) (port : ℕ) (l : List Addr)
    → (port == 0) ≡ false
    → Free f l
    → Paired f (listen takes picks (addrs_of over_udp f port) l).0
listen-udp_taken takes picks f port l nz free p = elim (listen-udp_cases takes picks f port l nz) [
  | inl e ↦ rw e (both_parts f p port l free)
  | inr (b, e) ↦
      let (q, w) : (contains_addr (at f quic p)
              (close_all (if b then at f quic port ∷ [] else []) l)
            ≡ false)
          × (contains_addr (at f web_transport p)
                (close_all (if b then at f quic port ∷ [] else []) l)
              ≡ false) =
        close_all-no_udp f p (if b then at f quic port ∷ [] else []) l free in
      rw e (q ∙ sym w)
]

pub listen-udp_refused :
    (takes : Addr → Bool) (picks : Addr → ℕ) (f : Bool) (port : ℕ) (l : List Addr)
    → (port == 0) ≡ false
    → Free f l
    → (listen takes picks (addrs_of over_udp f port) l).1 ≡ false
    → Free f (listen takes picks (addrs_of over_udp f port) l).0
listen-udp_refused takes picks f port l nz free refused p =
    elim (listen-udp_cases takes picks f port l nz) [
      | inl e ↦
          let both : true ≡ false = sym (ap (λ (r : List Addr × Bool). r.1) e) ∙ refused in
          absurd (ground (arith, both))
      | inr (b, e) ↦ rw e (close_all-no_udp f p (if b then at f quic port ∷ [] else []) l free)
    ]

-- Whatever comes of UDP on a family leaves the other, also where the system picks the ports.
pub listen-udp_other :
    (takes : Addr → Bool) (picks : Addr → ℕ) (f : Bool) (k : Kind) (p port : ℕ) (l : List Addr)
    → contains_addr (at f k p) (listen takes picks (addrs_of over_udp (not f) port) l).0
      ≡ contains_addr (at f k p) l
unfolding listen listen_loop
listen-udp_other takes picks f k p port l =
    let q : Addr = at (not f) quic port in
    let got : ℕ = (opened picks q).port in
    let got' : ℕ = (opened picks (at (not f) web_transport port)).port in
    elim (Bool-cases (takes q)) [
      | inl e ↦ elim (Bool-cases (takes (at (not f) web_transport port))) [
        | inl e' ↦
            rw (e, e')
              (ap (λ b. b || (same_addr (at f k p) (opened picks q) || contains_addr (at f k p) l))
                  (apart f k web_transport p got')
                ∙ ap (λ b. b || contains_addr (at f k p) l) (apart f k quic p got))
        | inr e' ↦
            rw (e, e')
              (close_all-other f k quic p port (opened picks q ∷ l)
                ∙ ap (λ b. b || contains_addr (at f k p) l) (apart f k quic p got))
      ]
      | inr e ↦ rw e (ap (contains_addr (at f k p)) (close_all-none l))
    ]
