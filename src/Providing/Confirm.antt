-- ===== src/Providing/Confirm.antt =====
-- provide.go: handed-over keys are settled, or sent back.
use vidya_god_ipfs.Prelude.{
  ℕ, Bool, true, false, not, ◌&&◌, ◌||◌, List, [], ◌∷◌, ltb, ◌==◌, is_empty, if◌then◌else◌, Map,
  put, delete, has,
}
use vidya_god_ipfs.Providing.State.{
  Providing, World, Ask, set_refile, set_announced, note_readiness, online,
}
use vidya_god_ipfs.Providing.Flush.{flush_provides}

abbrev pub drained : World → Bool
drained w =
    w.pending_keys == 0 && w.pending_regions == 0 && w.key_provides == 0 && w.region_provides == 0

-- The loop of `confirmUnconfirmed` over what it read before: the state, and the keys that are settled.
abbrev pub settles : World → ℕ → Providing → Bool
settles w at st = w.measured && ltb st.lost_before at

abbrev pub settle_one : World → ℕ → ℕ → Providing → Providing
settle_one w k at st =
    if has k st.unconfirmed
    then if settles w at st
      then record st { unconfirmed = delete k st.unconfirmed }
      else record st { unconfirmed = delete k st.unconfirmed; pending = put k true st.pending }
    else st

unfoldable pub settle : World → Map ℕ → Providing → Providing
settle w [] st = st
settle w ((k, at) ∷ snap) st = settle w snap (settle_one w k at st)

unfoldable pub settled : World → Map ℕ → Providing → List ℕ
settled w [] st = []
settled w ((k, at) ∷ snap) st =
    let rest = settled w snap (settle_one w k at st) in
    if has k st.unconfirmed && settles w at st then k ∷ rest else rest

-- `confirmUnconfirmed` from the reading on, for the keys that were read before it
unfoldable pub settle_all : World → Map ℕ → Providing → Providing
settle_all w snap st =
    let keys = settled w snap st in
    set_refile w keys false (set_announced w keys true (settle w snap st))

-- `confirmUnconfirmed`
unfoldable pub confirm_unconfirmed : World → Providing → Providing
confirm_unconfirmed w st =
    if not st.provider || is_empty st.unconfirmed
    then st
    else if w.failed || w.closed
    then st
    else if w.measured && not (drained w)
    then note_readiness w (online w) st
    else settle_all w st.unconfirmed (note_readiness w (online w) st)

-- One tick of `provideRetryLoop`
unfoldable pub retry_tick : World → Providing → Providing × List Ask
retry_tick w st = flush_provides w (confirm_unconfirmed w st)
