-- ===== src/FailureLog.antt =====
-- servefail.go: the log of the blocks that the node failed to hand to a peer.
-- An error is the number of its text.
pub mod Bound
use vidya_god_ipfs.Prelude.{
  ℕ, zero, suc, Bool, true, false, not, ◌&&◌, Option, none, some, List, [], ◌∷◌, ◌++◌, ltb, length,
  if◌then◌else◌, Map, get, put, delete, has,
}

abbrev pub max_serve_failures : ℕ
max_serve_failures = 256

-- `serveFailure`; its `Cid` is the key it is kept under
pub record ServeFailure : Type 0 where
  pub cid : ℕ
  pub err : ℕ
  pub when : ℕ

-- `failureLog`
pub record FailureLog : Type 0 where
  pub by_cid : Map ServeFailure
  pub order : List ℕ

abbrev pub new_failure_log : FailureLog
new_failure_log = record { by_cid = []; order = [] }

-- The loop of `record` over a list of keys that has become too long: the oldest one goes.
unfoldable pub trim : List ℕ → Map ServeFailure → FailureLog
trim [] m = record { by_cid = m; order = [] }
trim (k ∷ order) m =
    let rest = trim order (delete k m) in
    if ltb max_serve_failures (length (k ∷ order))
    then rest
    else record { by_cid = m; order = k ∷ order }

-- A key that is new goes to the end.
unfoldable pub note_key : ℕ → FailureLog → FailureLog
note_key k f = if has k f.by_cid then f else trim (f.order ++ k ∷ []) f.by_cid

-- `record`
unfoldable pub record_failure : ℕ → ℕ → Option ℕ → FailureLog → FailureLog
record_failure now k none f = f
record_failure now k (some err) f =
    let g = note_key k f in
    record g { by_cid = put k (record { cid = k; err = err; when = now }) g.by_cid }

unfoldable pub listed : List ℕ → Map ServeFailure → List ServeFailure
listed [] m = []
listed (k ∷ order) m =
    let rest = listed order m in elim (get k m) [ none ↦ rest | some v ↦ v ∷ rest ]

-- `drain`: what was recorded, oldest first, and an empty log
unfoldable pub drain : FailureLog → FailureLog × List ServeFailure
drain f = (new_failure_log, listed f.order f.by_cid)

-- `recordingBlockstore.Get`: a block that is not there is no failure
pub data Got : Type 0 where
  found not_found : Got
  broken : ℕ → Got

unfoldable pub note_get : ℕ → ℕ → Got → FailureLog → FailureLog
note_get now k found f = f
note_get now k not_found f = f
note_get now k (broken err) f = record_failure now k (some err) f
