-- ===== src/Providing/Crash.antt =====
-- The marks over a run of the node, its crashes and restarts included.
use vidya_god_ipfs.Prelude.{
  ℕ, ◌≡◌, Bool, true, false, not, ◌&&◌, ◌||◌, List, [], ◌∷◌, arith, contains, if◌then◌else◌,
  both_branches,
}
use vidya_god_ipfs.Providing.Keys.{minus, contains-minus, delete_all}
use vidya_god_ipfs.Providing.State.{
  Providing, World, Ask, stop_providing, set_refile, set_announced, note_offline, note_online,
  drop_provider, started_with,
}
use vidya_god_ipfs.Providing.Flush.{start, stop, Cid, hashes}
use vidya_god_ipfs.Providing.Confirm.{confirm_unconfirmed, retry_tick}
use vidya_god_ipfs.Providing.Leftovers.{use_provider, Stored, seed_announce}
use vidya_god_ipfs.Providing.Marks.{remembered, refile_off-remembered, announced_off-remembered}
use vidya_god_ipfs.Providing.Safe.{filed_after, weaken}
use vidya_god_ipfs.Providing.Remember.{
  flush_provides-Remembers, start-Remembers, use_provider-Remembers, seed_announce-Remembers,
  confirm_unconfirmed-remembered,
}

-- What may happen to the node: calls of the application, the retry loop, the provider's callbacks,
-- and an end of the process after which it starts anew with what the datastore keeps.
pub data Happening : Type 0 where
  starting stopping : List Cid → Happening
  ticking went_off came_back dropped restarted : Happening
  using : Bool → Stored → Happening
  seeding : List Cid → List Cid → List Cid → Bool → Happening

unfoldable pub happen : World → Happening → Providing → Providing × List Ask
happen w (starting cids) st = start w cids st
happen w (stopping cids) st = stop w cids st
happen w ticking st = retry_tick w st
happen w went_off st = (note_offline st, [])
happen w came_back st = (note_online w st, [])
happen w dropped st = (drop_provider st, [])
happen w restarted st = (started_with st.store, [])
happen w (using readable answer) st = use_provider w readable answer st
happen w (seeding colls pkgs all failed) st = seed_announce w colls pkgs all failed st

-- The keys that the provider may hold, of those that the node did not stop.
abbrev pub filed_by : Happening → List Ask → List ℕ → List ℕ
filed_by (stopping cids) asks filed = minus (filed_after asks filed) (hashes cids)
filed_by _ asks filed = filed_after asks filed

unfoldable pub run : List (World × Happening) → Providing → List ℕ → Providing × List ℕ
run [] st filed = (st, filed)
run ((w, e) ∷ es) st filed = run es (happen w e st).0 (filed_by e (happen w e st).1 filed)

abbrev pub all_commit : List (World × Happening) → Bool
all_commit [] = true
all_commit ((w, e) ∷ es) = w.commits && all_commit es

filed-stopped :
    (k : ℕ) (keys filed : List ℕ) (told : Bool)
    → (not (contains k (filed_after (if told then stop_providing keys ∷ [] else []) filed))
        || contains k filed)
      ≡ true
filed-stopped k keys filed true = ground (arith, contains-minus k filed keys)
filed-stopped k keys filed false = ground arith

stop-remembered :
    (w : World) (k : ℕ) (cids : List Cid) (filed : List ℕ) (st : Providing)
    → w.commits ≡ true
    → remembered (contains k filed) k st.store ≡ true
    → remembered
        (contains k (filed_by (stopping cids) (stop w cids st).1 filed))
        k
        (stop w cids st).0.store
      ≡ true
unfolding stop
stop-remembered w k cids filed st c h =
    let keys : List ℕ = hashes cids in
    let st1 : Providing = record st {
      pending = delete_all keys st.pending;
      unconfirmed = delete_all keys st.unconfirmed;
    } in
    let asks : List Ask = if st.provider then stop_providing keys ∷ [] else [] in
    let unmarked : remembered (contains k filed && not (contains k keys)) k
          (set_refile w keys false st1).store
        ≡ true =
      refile_off-remembered w k keys (contains k filed) st1 c h in
    let twice : remembered ((contains k filed && not (contains k keys)) && not (contains k keys)) k
          (set_announced w keys false (set_refile w keys false st1)).store
        ≡ true =
      announced_off-remembered w k keys (contains k filed && not (contains k keys))
        (set_refile w keys false st1) c unmarked in
    weaken k ((contains k filed && not (contains k keys)) && not (contains k keys))
      (contains k (minus (filed_after asks filed) keys)) _
      (ground (
        arith,
        contains-minus k (filed_after asks filed) keys,
        filed-stopped k keys filed st.provider,
      ))
      twice

happen-remembered :
    (w : World) (e : Happening) (k : ℕ) (filed : List ℕ) (st : Providing)
    → w.commits ≡ true
    → remembered (contains k filed) k st.store ≡ true
    → remembered (contains k (filed_by e (happen w e st).1 filed)) k (happen w e st).0.store ≡ true
unfolding happen retry_tick note_offline note_online drop_provider started_with
happen-remembered w (starting cids) k filed st c h = start-Remembers w k cids filed st c h
happen-remembered w (stopping cids) k filed st c h = stop-remembered w k cids filed st c h
happen-remembered w ticking k filed st c h =
    flush_provides-Remembers w k filed (confirm_unconfirmed w st) c
      (confirm_unconfirmed-remembered w k (contains k filed) st c h)
happen-remembered w went_off k filed st c h = h
happen-remembered w came_back k filed st c h =
    both_branches (λ (s : Providing). remembered (contains k filed) k s.store ≡ true)
      st.went_offline _ st h h
happen-remembered w dropped k filed st c h = h
happen-remembered w restarted k filed st c h = h
happen-remembered w (using readable answer) k filed st c h =
    use_provider-Remembers w k readable answer filed st c h
happen-remembered w (seeding colls pkgs all failed) k filed st c h =
    seed_announce-Remembers w k colls pkgs all failed filed st c h

-- Where the batches of the datastore commit, a key that the provider may hold without the node
-- having stopped it has a record at every moment: either it is known announced, or its refile record
-- makes a next run offer it again. Restarts may come between any two operations.
pub run-remembered :
    (es : List (World × Happening)) (k : ℕ) (filed : List ℕ) (st : Providing)
    → all_commit es ≡ true
    → remembered (contains k filed) k st.store ≡ true
    → remembered (contains k (run es st filed).1) k (run es st filed).0.store ≡ true
unfolding run
run-remembered [] k filed st c h = h
run-remembered ((w, e) ∷ es) k filed st c h =
    let now_commits : w.commits ≡ true = ground (arith, c) in
    let later_commit : all_commit es ≡ true = ground (arith, c) in
    run-remembered es k (filed_by e (happen w e st).1 filed) (happen w e st).0 later_commit
      (happen-remembered w e k filed st now_commits h)
