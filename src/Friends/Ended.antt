-- ===== src/Friends/Ended.antt =====
-- What pushes read for a peer of the libraries after the end of the friendship.
use vidya_god_ipfs.Prelude.{ℕ, ◌≡◌, Bool, true, not, ◌&&◌, ◌||◌, [], ◌∷◌, ◌++◌, ◌==◌, is_empty, Map}
use vidya_god_ipfs.Friends.Service.{Friends, Shelf}
use vidya_god_ipfs.Friends.Pushes.{Running}

-- The shelves that were read for a peer are empty.
abbrev pub read_nothing : ℕ → Map Shelf → Bool
read_nothing j [] = true
read_nothing j ((pid, m) ∷ ms) = (not (pid == j) || is_empty m) && read_nothing j ms

-- What was read during some steps.
abbrev pub ReadsNothing : ℕ → Running → Running → Type 0
ReadsNothing j r r' =
    (news : Map Shelf) × (r'.was_read ≡ news ++ r.was_read) × (read_nothing j news ≡ true)
