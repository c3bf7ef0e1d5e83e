-- ===== src/Resolver/Cache.antt =====
-- The size of the caches of doh.go.
use vidya_god_ipfs.Prelude.{
  ℕ, ◌≤◌, Option, none, some, List, [], ◌∷◌, ◌++◌, arith, leb-cases, length, is_empty, delete,
  Bool-cases, both_branches, inl, inr, ◌==◌,
}
use vidya_god_ipfs.Resolver.Lookup.{
  Got, got, failed, Cache, doh_cache_max, cache_put, cached, query, World, Traffic, no_traffic,
  fall_back, resolve_ip, or_resolve, or_direct, lookup_ip_addr, or_fall_back, lookup_txt, found_in,
  is_blocked,
}

pub length-delete : (name : ℕ) (m : Cache) → length (delete name m) ≤ length m
length-delete name [] = omega arith
length-delete name ((j, v) ∷ m) = elim (Bool-cases (j == name)) [
  | inl e ↦ let rest = length-delete name m in rw (e, delete) (omega arith)
  | inr e ↦ let rest = length-delete name m in rw (e, delete) (omega arith)
]

cache_put-bounded :
    (now name : ℕ) (r : Got (List ℕ)) (m : Cache)
    → length m ≤ doh_cache_max
    → length (cache_put now name r m) ≤ doh_cache_max
unfolding cache_put
cache_put-bounded now name r m h = elim (leb-cases doh_cache_max (length m)) [
  | inl (e, full) ↦ rw e (omega arith)
  | inr (e, room) ↦ let rest = length-delete name m in rw e (omega arith)
]

-- A lookup, of addresses or of texts.
pub data Lookup : Type 0 where
  of_ip of_txt : World → ℕ → Lookup

-- The two caches
pub record Caches : Type 0 where
  pub ip_cache : Cache
  pub txt_cache : Cache

unfoldable pub run : List Lookup → Caches → Caches
run [] d = d
run (of_ip w name ∷ ls) d = run ls (record d { ip_cache = (lookup_ip_addr w name d.ip_cache).0 })
run (of_txt w name ∷ ls) d = run ls (record d { txt_cache = (lookup_txt w name d.txt_cache).0 })

fall_back-bounded :
    (w : World) (name asked : ℕ) (m : Cache)
    → length m ≤ doh_cache_max
    → length (fall_back w name asked m).0 ≤ doh_cache_max
fall_back-bounded w name asked m h =
    both_branches (λ (r : Cache × Got (List ℕ) × Traffic). length r.0 ≤ doh_cache_max) w.slot
      (cache_put w.later name w.system m, w.system, record { queries = asked; fallbacks = 1 })
      (m, failed w.given_up, record { queries = asked; fallbacks = 0 })
      (cache_put-bounded w.later name w.system m h) h

or_resolve-bounded :
    (o : Option (Got (List ℕ))) (m : Cache) (r : Cache × Got (List ℕ) × Traffic)
    → length m ≤ doh_cache_max
    → length r.0 ≤ doh_cache_max
    → length (or_resolve o m r).0 ≤ doh_cache_max
or_resolve-bounded none m r h k = k
or_resolve-bounded (some x) m r h k = h

resolve_ip-bounded :
    (w : World) (name : ℕ) (m : Cache)
    → length m ≤ doh_cache_max
    → length (resolve_ip w name m).0 ≤ doh_cache_max
unfolding resolve_ip
resolve_ip-bounded w name m h =
    let out : List ℕ = found_in (query w.a_answers) ++ found_in (query w.aaaa_answers) in
    both_branches (λ (r : Cache × Got (List ℕ) × Traffic). length r.0 ≤ doh_cache_max)
      (is_empty out) (fall_back w name 2 m)
      (cache_put w.later name (got out) m, got out, record { queries = 2; fallbacks = 0 })
      (fall_back-bounded w name 2 m h) (cache_put-bounded w.later name (got out) m h)

direct-bounded :
    (o : Option ℕ) (m : Cache) (r : Cache × Got (List ℕ) × Traffic)
    → length m ≤ doh_cache_max
    → length r.0 ≤ doh_cache_max
    → length (or_direct o m r).0 ≤ doh_cache_max
direct-bounded none m r h k = k
direct-bounded (some ip) m r h k = h

lookup_ip_addr-bounded :
    (w : World) (name : ℕ) (m : Cache)
    → length m ≤ doh_cache_max
    → length (lookup_ip_addr w name m).0 ≤ doh_cache_max
unfolding lookup_ip_addr
lookup_ip_addr-bounded w name m h =
    both_branches (λ (r : Cache × Got (List ℕ) × Traffic). length r.0 ≤ doh_cache_max) w.blocked
      (m, failed is_blocked, no_traffic) _ h
      (direct-bounded w.direct m (or_resolve (cached w.now name m) m (resolve_ip w name m)) h (
        or_resolve-bounded (cached w.now name m) m (resolve_ip w name m) h
          (resolve_ip-bounded w name m h)))

or_fall_back-bounded :
    (r : Got (List ℕ)) (w : World) (name : ℕ) (m : Cache)
    → length m ≤ doh_cache_max
    → length (or_fall_back r w name m).0 ≤ doh_cache_max
or_fall_back-bounded (got out) w name m h = cache_put-bounded w.later name (got out) m h
or_fall_back-bounded (failed e) w name m h = fall_back-bounded w name 1 m h

lookup_txt-bounded :
    (w : World) (name : ℕ) (m : Cache)
    → length m ≤ doh_cache_max
    → length (lookup_txt w name m).0 ≤ doh_cache_max
unfolding lookup_txt
lookup_txt-bounded w name m h =
    both_branches (λ (r : Cache × Got (List ℕ) × Traffic). length r.0 ≤ doh_cache_max) w.blocked
      (m, failed is_blocked, no_traffic) _ h
      (or_resolve-bounded (cached w.now name m) m _ h
        (or_fall_back-bounded (query w.txt_answers) w name m h))

-- Whatever names are looked up, each of the two caches has at most 4096 entries.
pub run-bounded :
    (ls : List Lookup) (d : Caches)
    → length d.ip_cache ≤ doh_cache_max
    → length d.txt_cache ≤ doh_cache_max
    → (length (run ls d).ip_cache ≤ doh_cache_max) × (length (run ls d).txt_cache ≤ doh_cache_max)
unfolding run
run-bounded [] d i t = (i, t)
run-bounded (of_ip w name ∷ ls) d i t =
    run-bounded ls (record d { ip_cache = (lookup_ip_addr w name d.ip_cache).0 })
      (lookup_ip_addr-bounded w name d.ip_cache i) t
run-bounded (of_txt w name ∷ ls) d i t =
    run-bounded ls (record d { txt_cache = (lookup_txt w name d.txt_cache).0 }) i
      (lookup_txt-bounded w name d.txt_cache t)
