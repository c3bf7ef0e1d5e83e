-- ===== src/WantPool/Tokens.antt =====
-- The tokens of fetch.go's pool: those in the channel, those that are parked, and those in use.
use vidya_god_ipfs.Prelude.{
  ℕ, zero, suc, ◌+◌, ◌-◌, ◌≤◌, ◌≡◌, refl, true, false, ◌&&◌, not, ◌∙◌, arith, ltb, ◌==◌,
  if◌then◌else◌, min, max, Bool-cases, inl, inr,
}
use vidya_god_ipfs.WantPool.{
  WantPool, want_floor, new_want_pool, try_acquire, release, unparked, unpark, park, at_least_floor,
  set_limit,
}

-- With `used` tokens in use, all `size` of them are accounted for.
pub record IsPool (used : ℕ) (p : WantPool) : Type 0 where
  pub all : p.tokens + p.parked + used ≡ p.size

pub new_want_pool-IsPool : (n : ℕ) → IsPool 0 (new_want_pool n)
new_want_pool-IsPool n = record { all = omega arith }

-- Taking a token and giving it back.
pub try_acquire-IsPool :
    (used : ℕ) (p : WantPool)
    → IsPool used p
    → let (q, got) = try_acquire p in IsPool (if got then suc used else used) q
unfolding try_acquire
try_acquire-IsPool used p v = record { all = ground (arith, v.all) }

pub release-IsPool : (used : ℕ) (p : WantPool) → IsPool (suc used) p → IsPool used (release p)
unfolding release
release-IsPool used p v = record { all = ground (arith, v.all) }

-- What returning parked tokens leaves; it never blocks.
record Unparks (used n : ℕ) (p q : WantPool) : Type 0 where
  pool : IsPool used q
  same_size : q.size ≡ p.size
  parked_is : q.parked ≡ min p.parked (p.size - n)

unpark-lem :
    (f used n : ℕ) (p : WantPool)
    → p.parked ≤ f
    → IsPool used p
    → (q : WantPool) × (unpark f n p ≡ unparked q) × Unparks used n p q
unfolding unpark
unpark-lem zero used n p h v =
    (p, refl, record { pool = v; same_size = refl; parked_is = omega (arith, v.all) })
unpark-lem (suc f) used n p h v = elim (Bool-cases (ltb (p.size - p.parked) n && ltb 0 p.parked)) [
  | inl more ↦
      let room : ltb p.tokens p.size ≡ true = ground (arith, v.all) in
      let p' = record p { tokens = p.tokens + 1; parked = p.parked - 1 } in
      let (q, is, u) =
        unpark-lem f used n p' (ground arith) (record { all = ground (arith, v.all) }) in
      (
        q,
        rw (more, room) is,
        record {
          pool = u.pool;
          same_size = u.same_size;
          parked_is = ground (arith, u.parked_is, v.all);
        },
      )
  | inr enough ↦
      (p, rw enough refl, record { pool = v; same_size = refl; parked_is = ground (arith, v.all) })
]

record Parks (used n : ℕ) (p q : WantPool) : Type 0 where
  pool : IsPool used q
  same_size : q.size ≡ p.size
  parked_is : q.parked ≡ max p.parked (min (p.size - n) (p.parked + p.tokens))

park-stop :
    (f n : ℕ) (p : WantPool)
    → (ltb n (p.size - p.parked) && not (p.tokens == 0)) ≡ false
    → park (suc f) n p ≡ p
unfolding park try_acquire
park-stop f n p e = elim (Bool-cases (p.tokens == 0)) [
  | inl empty ↦ rw empty (ground arith)
  | inr some_left ↦ let below : ltb n (p.size - p.parked) ≡ false = ground arith in rw below refl
]

park-Parks :
    (f used n : ℕ) (p : WantPool) → p.tokens ≤ f → IsPool used p → Parks used n p (park f n p)
unfolding park try_acquire
park-Parks zero used n p h v = record {
  pool = v;
  same_size = refl;
  parked_is = omega (arith, v.all);
}
park-Parks (suc f) used n p h v =
    elim (Bool-cases (ltb n (p.size - p.parked) && not (p.tokens == 0))) [
      | inl more ↦
          let here : (p.tokens == 0) ≡ false = ground arith in
          let above : ltb n (p.size - p.parked) ≡ true = ground arith in
          let p' = record p { tokens = p.tokens - 1; parked = p.parked + 1 } in
          let q = park-Parks f used n p' (ground arith) (record { all = ground (arith, v.all) }) in
          rw (here, above)
            (record {
              pool = q.pool;
              same_size = q.same_size;
              parked_is = ground (arith, q.parked_is, v.all);
            })
      | inr enough ↦
          rw (park-stop f n p enough)
            (record { pool = v; same_size = refl; parked_is = ground (arith, v.all) })
    ]

-- Setting a limit never blocks on the channel. It loses and makes no token, leaves those in use
-- alone, and parks as many of the others as the limit, raised to the floor, says.
pub set_limit-lem :
    (used n : ℕ) (p : WantPool)
    → IsPool used p
    → (q : WantPool) × (set_limit n p ≡ unparked q)
      × IsPool used q
      × (q.size ≡ p.size)
      × (q.parked ≡ min (p.size - max want_floor n) (p.parked + p.tokens))
      × (q.limit ≡ q.size - q.parked)
unfolding set_limit
set_limit-lem used n p v =
    let (q, is, u) = unpark-lem p.parked used (at_least_floor n) p (omega arith) v in
    let k = park-Parks q.tokens used (at_least_floor n) q (omega arith) u.pool in
    let r = park q.tokens (at_least_floor n) q in
    (
      record r { limit = r.size - r.parked },
      rw (is, set_limit) refl,
      record { all = ground (arith, k.pool) },
      k.same_size ∙ u.same_size,
      ground (arith, k.parked_is, u.parked_is, u.same_size, u.pool, v.all),
      refl,
    )
