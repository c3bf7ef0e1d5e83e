-- ===== src/Providing/State.antt =====
-- provide.go: the state, the marks in the datastore, and what is asked of the DHT provider.
use vidya_god_ipfs.Prelude.{
  ℕ, ◌-◌, Bool, true, false, not, ◌&&◌, ◌||◌, Option, none, some, List, [], ◌++◌, ltb, ◌==◌,
  is_empty, contains, if◌then◌else◌, Map,
}
use vidya_god_ipfs.Providing.Keys.{minus}

-- `refileNS` and `announcedNS`: the keys that have a record under each.
pub record Marks : Type 0 where
  pub refile : List ℕ
  pub announced : List ℕ

-- `provideState`, with the fields of the node beside it: its provider, its datastore and
-- `seedDone`. A key is the number of a multihash; `pending` holds the force mark, `unconfirmed`
-- the time of the hand-over. Times are in nanoseconds, 0 is the zero time.
pub record Providing : Type 0 where
  pub pending : Map Bool
  pub unconfirmed : Map ℕ
  pub handed : List ℕ
  pub leftover : Option (List ℕ)
  pub listed : Bool
  pub seeded : Bool
  pub prune_with : Bool
  pub went_offline : Bool
  pub lost_before : ℕ
  pub started : Bool
  pub ready : Bool
  pub checked_at : ℕ
  pub provider : Bool
  pub seed_done : Option (List ℕ)
  pub store : Option Marks

-- A node that starts: nothing in memory, the marks of an earlier run in the datastore.
unfoldable pub started_with : Option Marks → Providing
started_with store = record {
  pending = [];
  unconfirmed = [];
  handed = [];
  leftover = none;
  listed = false;
  seeded = false;
  prune_with = false;
  went_offline = false;
  lost_before = 0;
  started = false;
  ready = false;
  checked_at = 0;
  provider = false;
  seed_done = none;
  store = store;
}

-- What is asked of the provider.
pub data Ask : Type 0 where
  start_providing : Bool → List ℕ → Ask
  stop_providing : List ℕ → Ask

-- What the world outside answers while an operation runs: the reading of the provider's state, whether
-- it takes keys that are handed over, fresh and forced, and whether a batch of the datastore commits.
pub record World : Type 0 where
  pub now : ℕ
  pub failed : Bool
  pub closed : Bool
  pub connected : Bool
  pub measured : Bool
  pub pending_keys : ℕ
  pub pending_regions : ℕ
  pub key_provides : ℕ
  pub region_provides : ℕ
  pub takes_fresh : Bool
  pub takes_forced : Bool
  pub commits : Bool

abbrev pub marked : List ℕ → Bool → List ℕ → List ℕ
marked keys true set = keys ++ set
marked keys false set = minus set keys

-- `setMarks`: one batch, all of it or nothing
abbrev pub set_marks : World → (Marks → Marks) → List ℕ → Option Marks → Option Marks
set_marks w change keys none = none
set_marks w change keys (some m) =
    if is_empty keys || not w.commits then some m else some (change m)

unfoldable pub set_refile : World → List ℕ → Bool → Providing → Providing
set_refile w keys on st = record st {
  store = set_marks w (λ (m : Marks). record m { refile = marked keys on m.refile }) keys st.store;
}

unfoldable pub set_announced : World → List ℕ → Bool → Providing → Providing
set_announced w keys on st = record st {
  store =
      set_marks w (λ (m : Marks). record m { announced = marked keys on m.announced }) keys
        st.store;
}

abbrev pub announced_in : ℕ → Option Marks → Bool
announced_in k none = false
announced_in k (some m) = contains k m.announced

abbrev pub refiled_in : ℕ → Option Marks → Bool
refiled_in k none = false
refiled_in k (some m) = contains k m.refile

-- `announced`
unfoldable pub is_announced : ℕ → Providing → Bool
is_announced k st = announced_in k st.store

abbrev pub is_refiled : ℕ → Providing → Bool
is_refiled k st = refiled_in k st.store

abbrev pub provider_ready_ttl : ℕ
provider_ready_ttl = 5_000_000_000

-- `online`
abbrev pub online : World → Bool
online w = w.connected && w.measured

-- `noteReadiness`
unfoldable pub note_readiness : World → Bool → Providing → Providing
note_readiness w r st = record st { ready = r; checked_at = w.now }

-- `providerReadyNow`
unfoldable pub provider_ready_now : World → Providing → Bool × Providing
provider_ready_now w st =
    let r = not w.failed && not w.closed && online w in (r, note_readiness w r st)

-- `providerReady`
unfoldable pub provider_ready : World → Providing → Bool × Providing
provider_ready w st =
    if not (st.checked_at == 0) && ltb (w.now - st.checked_at) provider_ready_ttl
    then (st.ready, st)
    else provider_ready_now w st

-- `noteOffline`, `noteOnline`, `dropProvider`
unfoldable pub note_offline : Providing → Providing
note_offline st = record st { went_offline = true }

unfoldable pub note_online : World → Providing → Providing
note_online w st =
    if st.went_offline then record st { went_offline = false; lost_before = w.now } else st

unfoldable pub drop_provider : Providing → Providing
drop_provider st = record st { prune_with = false }
