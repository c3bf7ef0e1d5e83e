-- ===== src/FailureLog/Bound.antt =====
-- The log of servefail.go: its bound, and what its order and its map agree on.
use vidya_god_ipfs.Prelude.{
  ℕ, ◌≤◌, ◌≡◌, refl, sym, ap, ◌∙◌, Bool, true, false, not, ◌&&◌, ◌||◌, List, [], ◌∷◌, ◌++◌, arith,
  ltb, ◌==◌, length, contains, Map, delete, has, get-put, get-delete, length-append, Bool-cases,
  inl, inr,
}
use vidya_god_ipfs.FailureLog.{
  FailureLog, ServeFailure, max_serve_failures, new_failure_log, trim, note_key, record_failure,
  Got, found, not_found, broken, note_get,
}

-- No key twice.
abbrev pub distinct : List ℕ → Bool
distinct [] = true
distinct (k ∷ ks) = not (contains k ks) && distinct ks

-- The order lists the keys of the map, each once, and not too many.
pub record IsLog (f : FailureLog) : Type 0 where
  pub bounded : length f.order ≤ max_serve_failures
  pub once : distinct f.order ≡ true
  pub keys : (k : ℕ) → has k f.by_cid ≡ contains k f.order

pub new_failure_log-IsLog : IsLog new_failure_log
new_failure_log-IsLog = record { bounded = omega arith; once = refl; keys = λ k. refl }

contains-append : (j k : ℕ) (xs : List ℕ) → contains j (xs ++ k ∷ []) ≡ (contains j xs || j == k)
contains-append j k [] = ground arith
contains-append j k (x ∷ xs) = ground (arith, contains-append j k xs)

distinct-append :
    (k : ℕ) (xs : List ℕ)
    → contains k xs ≡ false
    → distinct xs ≡ true
    → distinct (xs ++ k ∷ []) ≡ true
distinct-append k [] n d = refl
distinct-append k (x ∷ xs) n d =
    ground (arith, contains-append x k xs, distinct-append k xs (ground arith) (ground arith))

-- With one key too many at most, the loop drops the oldest one or none. The newest key need not be
-- in the map yet.
record Trimmed (k : ℕ) (f : FailureLog) : Type 0 where
  bounded : length f.order ≤ max_serve_failures
  once : distinct f.order ≡ true
  keys : (j : ℕ) → (has j f.by_cid || j == k) ≡ contains j f.order

trim-fits :
    (ks : List ℕ) (m : Map ServeFailure)
    → length ks ≤ max_serve_failures
    → trim ks m ≡ record { by_cid = m; order = ks }
unfolding trim
trim-fits [] m h = refl
trim-fits (k ∷ ks) m h =
    let e : ltb max_serve_failures (length (k ∷ ks)) ≡ false = ground arith in rw e refl

trim-over :
    (x : ℕ) (ks : List ℕ) (m : Map ServeFailure)
    → length ks ≡ max_serve_failures
    → trim (x ∷ ks) m ≡ record { by_cid = delete x m; order = ks }
unfolding trim
trim-over x ks m h =
    let e : ltb max_serve_failures (length (x ∷ ks)) ≡ true = ground arith in
    rw e (trim-fits ks (delete x m) (omega arith))

absent_key :
    (k : ℕ) (f : FailureLog) → IsLog f → has k f.by_cid ≡ false → contains k f.order ≡ false
absent_key k f v n = ground (arith, v.keys k)

-- The key lists stay right where the order is a list in its own right.
trim-Trimmed :
    (k : ℕ) (order : List ℕ) (m : Map ServeFailure)
    → length order ≤ max_serve_failures
    → distinct order ≡ true
    → ((j : ℕ) → has j m ≡ contains j order)
    → contains k order ≡ false
    → Trimmed k (trim (order ++ k ∷ []) m)
trim-Trimmed k [] m h d keys n =
    rw (trim-fits (k ∷ []) m (omega arith))
      (record { bounded = omega arith; once = refl; keys = λ j. ground (arith, keys j) })
trim-Trimmed k (x ∷ xs) m h d keys n =
    elim (Bool-cases (ltb (length (x ∷ xs)) max_serve_failures)) [
      | inl room ↦
          rw (trim-fits (x ∷ (xs ++ k ∷ [])) m (ground (arith, length-append xs (k ∷ []))))
            (record {
              bounded = ground (arith, length-append xs (k ∷ []));
              once = distinct-append k (x ∷ xs) n d;
              keys = λ j. ground (arith, keys j, contains-append j k xs);
            })
      | inr full ↦
          rw (trim-over x (xs ++ k ∷ []) m (ground (arith, length-append xs (k ∷ [])))) (record {
            bounded = ground (arith, length-append xs (k ∷ []));
            once = distinct-append k xs (ground arith) (ground arith);
            keys = λ j. after_drop j;
          })
    ]
  where
    after_drop : (j : ℕ) → (has j (delete x m) || j == k) ≡ contains j (xs ++ k ∷ [])
    after_drop j = elim (Bool-cases (j == x)) [
      | inl same ↦
          let e : x ≡ j = ground arith in
          let first : contains x xs ≡ false = ground arith in
          let gone : contains j xs ≡ false = ap (λ i. contains i xs) (sym e) ∙ first in
          ground (arith, get-delete x j m, contains-append j k xs, gone)
      | inr other ↦ ground (arith, get-delete x j m, contains-append j k xs, keys j)
    ]

note_key-Trimmed : (k : ℕ) (f : FailureLog) → IsLog f → Trimmed k (note_key k f)
unfolding note_key
note_key-Trimmed k f v = elim (Bool-cases (has k f.by_cid)) [
  | inl was ↦ rw was (record { bounded = v.bounded; once = v.once; keys = λ j. was_there j was })
  | inr new ↦
      rw new (trim-Trimmed k f.order f.by_cid v.bounded v.once v.keys (absent_key k f v new))
]
  where
    was_there : (j : ℕ) → has k f.by_cid ≡ true → (has j f.by_cid || j == k) ≡ contains j f.order
    was_there j was = elim (Bool-cases (j == k)) [
      | inl same ↦
          let e : j ≡ k = ground arith in
          let here : has j f.by_cid ≡ true = ap (λ i. has i f.by_cid) e ∙ was in
          ground (arith, v.keys j, here)
      | inr other ↦ ground (arith, v.keys j)
    ]

-- Whatever is read, the log stays bounded, with each failed block in it once.
pub note_get-IsLog : (now k : ℕ) (g : Got) (f : FailureLog) → IsLog f → IsLog (note_get now k g f)
unfolding note_get record_failure
note_get-IsLog now k found f v = v
note_get-IsLog now k not_found f v = v
note_get-IsLog now k (broken err) f v =
    let t = note_key-Trimmed k f v in
    let g = note_key k f in
    record {
      bounded = t.bounded;
      once = t.once;
      keys = λ j.
          ground
            (arith, t.keys j, get-put k j (record { cid = k; err = err; when = now }) g.by_cid);
    }
