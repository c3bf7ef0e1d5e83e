-- ===== src/Tests/LinkMaintainer.antt =====
-- The links of overlaylink.go at concrete states.
use vidya_god_ipfs.Prelude.{
  ℕ, ◌+◌, ◌*◌, ◌^◌, ◌≡◌, refl, true, false, [], ◌∷◌, arith, min, contains, has, Map,
}
use vidya_god_ipfs.LinkMaintainer.Link.{
  PeerLink, Links, new_link, trusts, on_pong, suspect_link, link_dial_backoff,
}
use vidya_god_ipfs.LinkMaintainer.Evaluate.{
  Host, evaluate, tick, drop_dead_conn, count_miss, direct_beat,
}
use vidya_god_ipfs.LinkMaintainer.Trust.{
  beaten, suspected, dialed, run, run-distrust, suspected_until_pong, IsNamed, evaluate-trusts_live,
}
use vidya_god_ipfs.LinkMaintainer.Beats.{misses_demote}
use vidya_god_ipfs.LinkMaintainer.Repair.{failures, backoff-failures}
use vidya_god_ipfs.LinkMaintainer.Heartbeat.{tick-membership}

-- Times are well past the zero time: `beat n` is the time of the n-th beat after the pong.
abbrev beat : ℕ → ℕ
beat n = 1_000_000_000_000 + n * 4_000_000_001

-- A friend with one direct connection, 3, which a pong has proven.
abbrev proven : PeerLink
proven = on_pong (beat 0) 3 (beat 0) (new_link 7)

abbrev direct_host : Host
direct_host = record { connected = true; conns = 3 ∷ [] }

abbrev no_host : Host
no_host = record { connected = false; conns = [] }

proven_trusted : trusts proven ≡ true
unfolding on_pong
proven_trusted = refl

proven-IsNamed : IsNamed proven
unfolding on_pong
proven-IsNamed = record { named = λ _. omega arith }

run-distrust_example :
    trusts (run (beaten (beat 1) direct_host ∷ dialed (beat 2) false ∷ suspected ∷ []) (new_link 7))
    ≡ false
run-distrust_example =
    run-distrust (beaten (beat 1) direct_host ∷ dialed (beat 2) false ∷ suspected ∷ []) (new_link 7)
      refl refl

suspected_until_pong_example :
    trusts (run (beaten (beat 1) direct_host ∷ []) (suspect_link proven)) ≡ false
suspected_until_pong_example = suspected_until_pong (beaten (beat 1) direct_host ∷ []) proven refl

evaluate-trusts_live_example :
    (trusts proven ≡ true)
    × ((evaluate (beat 1) direct_host proven).0.proven_conn ≡ proven.proven_conn)
    × (contains proven.proven_conn direct_host.conns ≡ true)
unfolding evaluate on_pong direct_beat count_miss drop_dead_conn
evaluate-trusts_live_example = evaluate-trusts_live (beat 1) direct_host proven proven-IsNamed refl

misses_demote_example :
    trusts (
      run
        (beaten (beat 1) direct_host
          ∷ beaten (beat 2) direct_host
          ∷ beaten (beat 3) direct_host
          ∷ [])
        proven)
    ≡ false
unfolding on_pong
misses_demote_example =
    misses_demote
      (beaten (beat 1) direct_host ∷ beaten (beat 2) direct_host ∷ beaten (beat 3) direct_host ∷ [])
      proven proven-IsNamed refl (omega arith)

backoff-failures_example :
    (failures (beat 1 ∷ beat 2 ∷ []) (new_link 7)).backoff ≡ link_dial_backoff * 2 ^ min 2 8
backoff-failures_example = backoff-failures 7 (beat 1 ∷ beat 2 ∷ [])

abbrev friends : Map ℕ
friends = (1, 7) ∷ (9, 4) ∷ []

abbrev two_friends : Links
two_friends = (1, proven) ∷ (2, new_link 8) ∷ []

tick-membership_example : has 2 (tick (beat 1) (λ pid. direct_host) friends two_friends).0 ≡ false
tick-membership_example = tick-membership (beat 1) 2 (λ pid. direct_host) friends two_friends
