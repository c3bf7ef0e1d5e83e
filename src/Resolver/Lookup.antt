-- ===== src/Resolver/Lookup.antt =====
-- doh.go: the cache, the race between the endpoints, and the lookups.
use vidya_god_ipfs.Prelude.{
  ℕ, ◌+◌, Bool, Option, none, some, List, [], ◌∷◌, ◌++◌, ltb, leb, length, is_empty, if◌then◌else◌,
  Map, get, put,
}

-- A result or an error; an error is its number.
pub data Got {ℓ} (A : Type ℓ) : Type ℓ where
  got : A → Got A
  failed : ℕ → Got A

abbrev pub doh_cache_ok : ℕ
doh_cache_ok = 300_000_000_000

abbrev pub doh_cache_fail : ℕ
doh_cache_fail = 30_000_000_000

abbrev pub doh_cache_max : ℕ
doh_cache_max = 4096

-- `ipCache` and `txtCache`: what was found for a name, and until when it counts. Names, addresses and
-- texts are numbers; a result is a list of them.
abbrev pub Cache : Type 0
Cache = Map (Got (List ℕ) × ℕ)

abbrev pub ttl_of : Got (List ℕ) → ℕ
ttl_of (got xs) = doh_cache_ok
ttl_of (failed e) = doh_cache_fail

-- `cacheIP` and `cacheTXT`
unfoldable pub cache_put : ℕ → ℕ → Got (List ℕ) → Cache → Cache
cache_put now name r m =
    put name (r, now + ttl_of r) (if leb doh_cache_max (length m) then [] else m)

-- The entry that still counts
abbrev pub if_before : ℕ → Option (Got (List ℕ) × ℕ) → Option (Got (List ℕ))
if_before now none = none
if_before now (some (r, exp)) = if ltb now exp then some r else none

unfoldable pub cached : ℕ → ℕ → Cache → Option (Got (List ℕ))
cached now name m = if_before now (get name m)

-- `query`: the answers of the endpoints in the order in which they come
abbrev pub first_good {ℓ} : {A : Type ℓ} → ℕ → List (Got A) → Got A
first_good last [] = failed last
first_good last (got a ∷ rs) = got a
first_good last (failed e ∷ rs) = first_good e rs

abbrev pub no_endpoints : ℕ
no_endpoints = 0

unfoldable pub query {ℓ} : {A : Type ℓ} → List (Got A) → Got A
query rs = first_good no_endpoints rs

-- The data of the answers that are addresses
abbrev pub addresses : List (Option ℕ) → List ℕ
addresses [] = []
addresses (none ∷ data_) = addresses data_
addresses (some ip ∷ data_) = ip ∷ addresses data_

abbrev pub found_in : Got (List (Option ℕ)) → List ℕ
found_in (got data_) = addresses data_
found_in (failed e) = []

-- What the world outside answers during a lookup: whether the name is blocked by the benchmark, the
-- address that the name itself carries, the answers of the endpoints, whether a slot of the fallback is
-- got before the caller gives up, and what the operating system's resolver answers.
pub record World : Type 0 where
  pub now : ℕ
  pub later : ℕ
  pub blocked : Bool
  pub direct : Option ℕ
  pub a_answers : List (Got (List (Option ℕ)))
  pub aaaa_answers : List (Got (List (Option ℕ)))
  pub txt_answers : List (Got (List ℕ))
  pub slot : Bool
  pub given_up : ℕ
  pub system : Got (List ℕ)

abbrev pub is_blocked : ℕ
is_blocked = 1

-- What is asked on the network: the endpoints, and the operating system's resolver.
pub record Traffic : Type 0 where
  pub queries : ℕ
  pub fallbacks : ℕ

abbrev pub no_traffic : Traffic
no_traffic = record { queries = 0; fallbacks = 0 }

-- The fallback to the operating system, behind its slots
abbrev pub fall_back : World → ℕ → ℕ → Cache → Cache × Got (List ℕ) × Traffic
fall_back w name asked m =
    if w.slot
    then (cache_put w.later name w.system m, w.system, record { queries = asked; fallbacks = 1 })
    else (m, failed w.given_up, record { queries = asked; fallbacks = 0 })

-- The lookup of addresses past the cache
unfoldable pub resolve_ip : World → ℕ → Cache → Cache × Got (List ℕ) × Traffic
resolve_ip w name m =
    let out = found_in (query w.a_answers) ++ found_in (query w.aaaa_answers) in
    if is_empty out
    then fall_back w name 2 m
    else (cache_put w.later name (got out) m, got out, record { queries = 2; fallbacks = 0 })

abbrev pub or_resolve :
    Option (Got (List ℕ))
    → Cache
    → (Cache × Got (List ℕ) × Traffic)
    → Cache × Got (List ℕ) × Traffic
or_resolve none m resolved = resolved
or_resolve (some r) m resolved = (m, r, no_traffic)

abbrev pub or_direct :
    Option ℕ → Cache → (Cache × Got (List ℕ) × Traffic) → Cache × Got (List ℕ) × Traffic
or_direct none m looked = looked
or_direct (some ip) m looked = (m, got (ip ∷ []), no_traffic)

-- `LookupIPAddr`
unfoldable pub lookup_ip_addr : World → ℕ → Cache → Cache × Got (List ℕ) × Traffic
lookup_ip_addr w name m =
    let looked = or_resolve (cached w.now name m) m (resolve_ip w name m) in
    if w.blocked then (m, failed is_blocked, no_traffic) else or_direct w.direct m looked

-- The lookup of texts past the cache
abbrev pub or_fall_back : Got (List ℕ) → World → ℕ → Cache → Cache × Got (List ℕ) × Traffic
or_fall_back (got out) w name m =
    (cache_put w.later name (got out) m, got out, record { queries = 1; fallbacks = 0 })
or_fall_back (failed e) w name m = fall_back w name 1 m

-- `LookupTXT`
unfoldable pub lookup_txt : World → ℕ → Cache → Cache × Got (List ℕ) × Traffic
lookup_txt w name m =
    let looked = or_resolve (cached w.now name m) m (or_fall_back (query w.txt_answers) w name m) in
    if w.blocked then (m, failed is_blocked, no_traffic) else looked
