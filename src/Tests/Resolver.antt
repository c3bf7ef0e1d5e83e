-- ===== src/Tests/Resolver.antt =====
-- The resolver of doh.go: one endpoint fails, another answers, and the name is looked up again.
use vidya_god_ipfs.Prelude.{
  ℕ, ◌+◌, ◌≤◌, ◌≡◌, refl, true, false, none, some, List, [], ◌∷◌, length, arith,
}
use vidya_god_ipfs.Resolver.Lookup.{
  got, failed, World, doh_cache_max, no_traffic, lookup_ip_addr, cached, cache_put, resolve_ip,
  query,
}
use vidya_god_ipfs.Resolver.Cache.{Caches, of_ip, of_txt, run, run-bounded}
use vidya_god_ipfs.Resolver.Again.{lookups, lookup_ip_addr-again}

abbrev at_time : ℕ → World
at_time now = record {
  now = now;
  later = now + 5;
  blocked = false;
  direct = none;
  a_answers = failed 4 ∷ got (some 8 ∷ none ∷ []) ∷ [];
  aaaa_answers = [];
  txt_answers = failed 4 ∷ got (6 ∷ []) ∷ [];
  slot = true;
  given_up = 9;
  system = failed 7;
}

abbrev empty_caches : Caches
empty_caches = record { ip_cache = []; txt_cache = [] }

run-bounded_example :
    (length (run (of_ip (at_time 10) 3 ∷ of_txt (at_time 20) 3 ∷ []) empty_caches).ip_cache
      ≤ doh_cache_max)
    × (length (run (of_ip (at_time 10) 3 ∷ of_txt (at_time 20) 3 ∷ []) empty_caches).txt_cache
        ≤ doh_cache_max)
run-bounded_example =
    run-bounded (of_ip (at_time 10) 3 ∷ of_txt (at_time 20) 3 ∷ []) empty_caches (omega arith)
      (omega arith)

-- Name 5 is looked up in between.
abbrev since : List (World × ℕ)
since = (at_time 50, 5) ∷ []

lookup_ip_addr-again_example :
    lookup_ip_addr (at_time 100) 3 (lookups since (lookup_ip_addr (at_time 10) 3 []).0) ≡ (
      lookups since (lookup_ip_addr (at_time 10) 3 []).0,
      (lookup_ip_addr (at_time 10) 3 []).1,
      no_traffic,
    )
unfolding cached lookup_ip_addr resolve_ip query cache_put
lookup_ip_addr-again_example =
    lookup_ip_addr-again (at_time 10) (at_time 100) 3 [] since refl refl refl refl refl
      (omega arith) refl refl (omega arith)
