-- ===== src/Tests/Providing.antt =====
-- A run of provide.go: a key is handed over, the process ends before it is announced, and starts anew.
use vidya_god_ipfs.Prelude.{ℕ, ◌≡◌, refl, true, false, some, List, [], ◌∷◌, contains}
use vidya_god_ipfs.Providing.State.{World, Providing, started_with}
use vidya_god_ipfs.Providing.Confirm.{confirm_unconfirmed}
use vidya_god_ipfs.Providing.Leftovers.{stored, seed_announce}
use vidya_god_ipfs.Providing.Marks.{remembered}
use vidya_god_ipfs.Providing.Crash.{Happening, starting, restarted, using, run, run-remembered}
use vidya_god_ipfs.Providing.Settled.{Settles, confirm_unconfirmed-Settles}
use vidya_god_ipfs.Providing.Listed.{stops, seed_announce-stops}

abbrev ready_at : ℕ → World
ready_at now = record {
  now = now;
  failed = false;
  closed = false;
  connected = true;
  measured = true;
  pending_keys = 0;
  pending_regions = 0;
  key_provides = 0;
  region_provides = 0;
  takes_fresh = true;
  takes_forced = true;
  commits = true;
}

abbrev empty_node : Providing
empty_node = started_with (some (record { refile = []; announced = [] }))

abbrev session : List (World × Happening)
session =
    (ready_at 1, using true (stored []))
    ∷ (ready_at 2, starting ((8, 3) ∷ []))
    ∷ (ready_at 3, restarted)
    ∷ (ready_at 4, using true (stored (3 ∷ [])))
    ∷ []

run-remembered_example :
    remembered (contains 3 (run session empty_node []).1) 3 (run session empty_node []).0.store
    ≡ true
unfolding started_with
run-remembered_example = run-remembered session 3 [] empty_node refl refl

-- A node that handed a key over, and one before the provider lost its queue.
abbrev waiting_node : Providing
waiting_node = record empty_node {
  provider = true;
  unconfirmed = (3, 7) ∷ (4, 2) ∷ [];
  lost_before = 5;
}

confirm_unconfirmed-Settles_example :
    Settles (ready_at 9) 3 waiting_node (confirm_unconfirmed (ready_at 9) waiting_node)
unfolding started_with
confirm_unconfirmed-Settles_example =
    confirm_unconfirmed-Settles (ready_at 9) 3 waiting_node refl refl

-- A node that found the keys 3 and 4 of an earlier run, of which the application lists 3.
abbrev found_node : Providing
found_node = record empty_node { provider = true; prune_with = true; leftover = some (3 ∷ 4 ∷ []) }

seed_announce-stops_example :
    stops 3 (seed_announce (ready_at 9) [] ((8, 3) ∷ []) [] false found_node).1 ≡ false
seed_announce-stops_example =
    seed_announce-stops (ready_at 9) 3 [] ((8, 3) ∷ []) [] false found_node refl
