-- ===== src/Resolver/Again.antt =====
-- What a lookup of doh.go costs: after an earlier one, and where one endpoint answers.
use vidya_god_ipfs.Prelude.{
  ℕ, suc, ◌+◌, ◌*◌, ◌<◌, ◌≤◌, not, ◌&&◌, Option, ◌≡◌, refl, ap, ◌∙◌, Bool, true, false, none, some,
  List, [], ◌∷◌, ◌++◌, arith, ltb, leb, length, is_empty, if◌then◌else◌, get, put, get-put,
  both_branches, ◌==◌,
}
use mathlib.Core.Path.{subst}
use vidya_god_ipfs.Resolver.Cache.{length-delete}
use vidya_god_ipfs.Resolver.Lookup.{
  Got, got, failed, Cache, doh_cache_max, ttl_of, cache_put, if_before, cached, first_good,
  no_endpoints, query, World, Traffic, no_traffic, fall_back, resolve_ip, or_resolve, or_direct,
  lookup_ip_addr, or_fall_back, lookup_txt, found_in, is_blocked,
}

-- An entry counts until its time has passed.
cached-cache_put :
    (now later name : ℕ) (r : Got (List ℕ)) (m : Cache)
    → later < now + ttl_of r
    → cached later name (cache_put now name r m) ≡ some r
unfolding cached cache_put
cached-cache_put now later name r m early =
    let kept : Cache = if leb doh_cache_max (length m) then [] else m in
    let counts : ltb later (now + ttl_of r) ≡ true = ground (arith, early) in
    let same : (name == name) ≡ true = ground arith in
    let entry : get name (put name (r, now + ttl_of r) kept) ≡ some (r, now + ttl_of r) =
      get-put name name (r, now + ttl_of r) kept ∙ rw same refl in
    ap (if_before later) entry ∙ rw counts refl

-- A lookup past the cache that is not given up stores what it answers.
resolve_ip-stores :
    (w : World) (name : ℕ) (m : Cache)
    → w.slot ≡ true
    → (resolve_ip w name m).0 ≡ cache_put w.later name (resolve_ip w name m).1 m
unfolding resolve_ip
resolve_ip-stores w name m slot =
    let out : List ℕ = found_in (query w.a_answers) ++ found_in (query w.aaaa_answers) in
    both_branches (λ (r : Cache × Got (List ℕ) × Traffic). r.0 ≡ cache_put w.later name r.1 m)
      (is_empty out) (fall_back w name 2 m)
      (cache_put w.later name (got out) m, got out, record { queries = 2; fallbacks = 0 })
      (rw (slot, fall_back) refl) refl

lookup_ip_addr-past :
    (w : World) (name : ℕ) (m : Cache)
    → w.blocked ≡ false
    → w.direct ≡ none
    → cached w.now name m ≡ none
    → lookup_ip_addr w name m ≡ resolve_ip w name m
unfolding lookup_ip_addr
lookup_ip_addr-past w name m open_ named fresh = rw (open_, named, fresh) refl

lookup_ip_addr-hit :
    (w : World) (name : ℕ) (r : Got (List ℕ)) (m : Cache)
    → w.blocked ≡ false
    → w.direct ≡ none
    → cached w.now name m ≡ some r
    → lookup_ip_addr w name m ≡ (m, r, no_traffic)
unfolding lookup_ip_addr
lookup_ip_addr-hit w name r m open_ named hit = rw (open_, named, hit) refl

-- A name that is not looked up keeps its entry, while the cache has room.
get-cache_put :
    (now name other : ℕ) (r : Got (List ℕ)) (m : Cache)
    → length m < doh_cache_max
    → (other == name) ≡ false
    → (get name (cache_put now other r m) ≡ get name m)
      × (length (cache_put now other r m) ≤ suc (length m))
unfolding cache_put
get-cache_put now name other r m room apart =
    let roomy : leb doh_cache_max (length m) ≡ false = ground (arith, room) in
    let fewer = length-delete other m in
    rw roomy (get-put other name (r, now + ttl_of r) m ∙ rw apart refl, omega arith)

-- What a lookup of another name leaves: the entry of the name, and room for all but one entry.
abbrev KeepsEntry : ℕ → Cache → Cache → Type 0
KeepsEntry name m m' = (get name m' ≡ get name m) × (length m' ≤ suc (length m))

same-KeepsEntry : (name : ℕ) (m : Cache) → KeepsEntry name m m
same-KeepsEntry name m = (refl, omega arith)

fall_back-KeepsEntry :
    (w : World) (name other asked : ℕ) (m : Cache)
    → length m < doh_cache_max
    → (other == name) ≡ false
    → KeepsEntry name m (fall_back w other asked m).0
fall_back-KeepsEntry w name other asked m room apart =
    both_branches (λ (r : Cache × Got (List ℕ) × Traffic). KeepsEntry name m r.0) w.slot
      (cache_put w.later other w.system m, w.system, record { queries = asked; fallbacks = 1 })
      (m, failed w.given_up, record { queries = asked; fallbacks = 0 })
      (get-cache_put w.later name other w.system m room apart) (same-KeepsEntry name m)

resolve_ip-KeepsEntry :
    (w : World) (name other : ℕ) (m : Cache)
    → length m < doh_cache_max
    → (other == name) ≡ false
    → KeepsEntry name m (resolve_ip w other m).0
unfolding resolve_ip
resolve_ip-KeepsEntry w name other m room apart =
    let out : List ℕ = found_in (query w.a_answers) ++ found_in (query w.aaaa_answers) in
    both_branches (λ (r : Cache × Got (List ℕ) × Traffic). KeepsEntry name m r.0) (is_empty out)
      (fall_back w other 2 m)
      (cache_put w.later other (got out) m, got out, record { queries = 2; fallbacks = 0 })
      (fall_back-KeepsEntry w name other 2 m room apart)
      (get-cache_put w.later name other (got out) m room apart)

or_resolve-KeepsEntry :
    (name : ℕ) (o : Option (Got (List ℕ))) (m : Cache) (r : Cache × Got (List ℕ) × Traffic)
    → KeepsEntry name m r.0
    → KeepsEntry name m (or_resolve o m r).0
or_resolve-KeepsEntry name none m r h = h
or_resolve-KeepsEntry name (some x) m r h = same-KeepsEntry name m

or_direct-KeepsEntry :
    (name : ℕ) (o : Option ℕ) (m : Cache) (r : Cache × Got (List ℕ) × Traffic)
    → KeepsEntry name m r.0
    → KeepsEntry name m (or_direct o m r).0
or_direct-KeepsEntry name none m r h = h
or_direct-KeepsEntry name (some ip) m r h = same-KeepsEntry name m

lookup_ip_addr-KeepsEntry :
    (w : World) (name other : ℕ) (m : Cache)
    → length m < doh_cache_max
    → (other == name) ≡ false
    → KeepsEntry name m (lookup_ip_addr w other m).0
unfolding lookup_ip_addr
lookup_ip_addr-KeepsEntry w name other m room apart =
    both_branches (λ (r : Cache × Got (List ℕ) × Traffic). KeepsEntry name m r.0) w.blocked
      (m, failed is_blocked, no_traffic) _ (same-KeepsEntry name m)
      (or_direct-KeepsEntry name w.direct m
        (or_resolve (cached w.now other m) m (resolve_ip w other m))
        (or_resolve-KeepsEntry name (cached w.now other m) m (resolve_ip w other m)
          (resolve_ip-KeepsEntry w name other m room apart)))

-- Lookups of other names, one after the other.
abbrev pub lookups : List (World × ℕ) → Cache → Cache
lookups [] m = m
lookups ((w, name) ∷ ls) m = lookups ls (lookup_ip_addr w name m).0

abbrev pub of_others : ℕ → List (World × ℕ) → Bool
of_others name [] = true
of_others name ((w, other) ∷ ls) = not (other == name) && of_others name ls

get-lookups :
    (name : ℕ) (ls : List (World × ℕ)) (m : Cache)
    → of_others name ls ≡ true
    → length m + length ls ≤ doh_cache_max
    → get name (lookups ls m) ≡ get name m
get-lookups name [] m h room = refl
get-lookups name ((w, other) ∷ ls) m h room =
    let (kept, grown) =
      lookup_ip_addr-KeepsEntry w name other m (omega (arith, room)) (ground (arith, h)) in
    get-lookups name ls (lookup_ip_addr w other m).0 (ground (arith, h))
      (omega (arith, room, grown))
    ∙ kept

-- How long an answer counts, in nanoseconds: 5 minutes for one that was got, 30 seconds for an error.
abbrev pub counts_for : Got (List ℕ) → ℕ
counts_for (got xs) = 5 * 60 * 1_000_000_000
counts_for (failed e) = 30 * 1_000_000_000

counts_for-ttl_of : (r : Got (List ℕ)) → counts_for r ≡ ttl_of r
counts_for-ttl_of (got xs) = refl
counts_for-ttl_of (failed e) = refl

-- A name was looked up past the cache, with a slot of the fallback where one was needed, and other names were
-- looked up since, not so many that the cache had to be emptied. Until 5 minutes after an answer, or 30
-- seconds after an error, the lookup of the name gives the same, asks nobody, and leaves the cache.
pub lookup_ip_addr-again :
    (w w' : World) (name : ℕ) (m : Cache) (ls : List (World × ℕ))
    → w.blocked ≡ false
    → w.direct ≡ none
    → cached w.now name m ≡ none
    → w.slot ≡ true
    → of_others name ls ≡ true
    → length (lookup_ip_addr w name m).0 + length ls ≤ 4096
    → w'.blocked ≡ false
    → w'.direct ≡ none
    → w'.now < w.later + counts_for (lookup_ip_addr w name m).1
    → lookup_ip_addr w' name (lookups ls (lookup_ip_addr w name m).0)
      ≡ (lookups ls (lookup_ip_addr w name m).0, (lookup_ip_addr w name m).1, no_traffic)
unfolding cached
lookup_ip_addr-again w w' name m ls open_ named fresh slot others room open' named' early =
    let first : lookup_ip_addr w name m ≡ resolve_ip w name m =
      lookup_ip_addr-past w name m open_ named fresh in
    let r : Got (List ℕ) = (resolve_ip w name m).1 in
    let stored : (resolve_ip w name m).0 ≡ cache_put w.later name r m =
      resolve_ip-stores w name m slot in
    let early' : w'.now < w.later + ttl_of r =
      subst (λ n. w'.now < w.later + n) (counts_for-ttl_of r)
        (subst (λ (x : Cache × Got (List ℕ) × Traffic). w'.now < w.later + counts_for x.1) first
          early) in
    let room' : length (resolve_ip w name m).0 + length ls ≤ doh_cache_max =
      subst (λ (x : Cache × Got (List ℕ) × Traffic). length x.0 + length ls ≤ 4096) first room in
    let kept : get name (lookups ls (resolve_ip w name m).0) ≡ get name (resolve_ip w name m).0 =
      get-lookups name ls (resolve_ip w name m).0 others room' in
    let hit : cached w'.now name (lookups ls (resolve_ip w name m).0) ≡ some r =
      ap (if_before w'.now) kept
      ∙ ap (cached w'.now name) stored
      ∙ cached-cache_put w.later w'.now name r m early' in
    rw first (lookup_ip_addr-hit w' name r (lookups ls (resolve_ip w name m).0) open' named' hit)

-- One of the endpoints answers.
abbrev pub some_got {ℓ} : {A : Type ℓ} → List (Got A) → Bool
some_got [] = false
some_got (got a ∷ rs) = true
some_got (failed e ∷ rs) = some_got rs

abbrev pub is_got {ℓ} : {A : Type ℓ} → Got A → Bool
is_got (got a) = true
is_got (failed e) = false

first_good-got {ℓ} :
    {A : Type ℓ} (e : ℕ) (rs : List (Got A)) → is_got (first_good e rs) ≡ some_got rs
first_good-got e [] = refl
first_good-got e (got a ∷ rs) = refl
first_good-got e (failed e' ∷ rs) = first_good-got e' rs

or_fall_back-got :
    (r : Got (List ℕ)) (w : World) (name : ℕ) (m : Cache)
    → is_got r ≡ true
    → ((or_fall_back r w name m).2.fallbacks ≡ 0) × (is_got (or_fall_back r w name m).1 ≡ true)
or_fall_back-got (got out) w name m h = (refl, refl)
or_fall_back-got (failed e) w name m h = absurd (ground (arith, h))

lookup_txt-past :
    (w : World) (name : ℕ) (m : Cache)
    → w.blocked ≡ false
    → cached w.now name m ≡ none
    → lookup_txt w name m ≡ or_fall_back (query w.txt_answers) w name m
unfolding lookup_txt
lookup_txt-past w name m open_ fresh =
    let resolved : Cache × Got (List ℕ) × Traffic = or_fall_back (query w.txt_answers) w name m in
    ap
      (λ b.
        if b
        then (m, failed is_blocked, no_traffic)
        else or_resolve (cached w.now name m) m resolved)
      open_
    ∙ ap (λ o. or_resolve o m resolved) fresh

-- The endpoints are asked at once: where one of them answers, in whatever order the answers and errors
-- come, a name that is not in the cache and not blocked gets its texts without the operating system's
-- resolver.
pub lookup_txt-hedged :
    (w : World) (name : ℕ) (m : Cache)
    → w.blocked ≡ false
    → cached w.now name m ≡ none
    → some_got w.txt_answers ≡ true
    → ((lookup_txt w name m).2.fallbacks ≡ 0) × (is_got (lookup_txt w name m).1 ≡ true)
unfolding query
lookup_txt-hedged w name m open_ fresh answers =
    let past : lookup_txt w name m ≡ or_fall_back (query w.txt_answers) w name m =
      lookup_txt-past w name m open_ fresh in
    rw past (
      or_fall_back-got (first_good no_endpoints w.txt_answers) w name m
        (first_good-got no_endpoints w.txt_answers ∙ answers))
