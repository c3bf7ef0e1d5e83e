-- ===== src/Tests/Friends.antt =====
-- The friends protocol of friend.go and social.go, between a user and the peers 5, 6 and 7.
use vidya_god_ipfs.Prelude.{
  ℕ, ◌≡◌, refl, true, some, List, [], ◌∷◌, if◌then◌else◌, get, ◌||◌, ◌&&◌, arith,
}
use vidya_god_ipfs.Friends.Text.{ShareItem, valid_from, valid_string}
use vidya_god_ipfs.Friends.Social.{FriendState, accepted, blocked, Contact, Social, state_of}
use vidya_god_ipfs.Friends.Service.{
  Friends, FriendMsg, bare_msg, request, accept, library_req, shelf_of, push_snapshot,
}
use vidya_god_ipfs.Friends.Inbound.{dispatch, dispatch_kind, handle_library_req, handle_stream}
use vidya_god_ipfs.Friends.Actions.{block_friend}
use vidya_god_ipfs.Friends.Machine.{
  heard, adding, accepting, pushed, told, next, after, label_of, next_if, after-next,
}
use vidya_god_ipfs.Friends.Consent.{
  after_all, after_all-next, next_all, some_call, consents, is_ask, is_request, befriended,
  block_friend-handle_stream, block_friend-dispatch,
}
use vidya_god_ipfs.Friends.Kept.{BookKept, after_all-BookKept}
use vidya_god_ipfs.Friends.Pushes.{Step, calls, sends, step, steps, effects_of}
use vidya_god_ipfs.Friends.Sharing.{Current}
use vidya_god_ipfs.Friends.Shown.{change, idle, change-steps}
use vidya_god_ipfs.Friends.Lan.{lan_vip, lan_config_from, lan_routes}
use vidya_god_ipfs.Friends.Routes.{Member, lan_config_from-Member}
use vidya_god_ipfs.Friends.Handshake.{mail, receives, hears, both_accepted}
use vidya_god_ipfs.Friends.Disk.{save_social, load_social}
use vidya_god_ipfs.Friends.Saved.{offline, load_social-save_social}

abbrev friend_of : FriendState → Contact
friend_of s = record {
  nick = (65 ∷ 66 ∷ []);
  pic = [];
  state = s;
  added_at = 1;
  last_seen = 2;
  online = true;
}

abbrev book : Social
book = record {
  self = record { nick = (67 ∷ []); pic = [] };
  contacts = (5, friend_of accepted) ∷ (7, friend_of blocked) ∷ [];
  hostname = (72 ∷ []);
}

abbrev service : Friends
service = record {
  social = book;
  share_libs = (5, (1, []) ∷ []) ∷ [];
  send_seq = 10;
  push_pending = (5 ∷ []);
  presence_deny = [];
}

-- A request.
abbrev request_msg : FriendMsg
request_msg = record (bare_msg request) { nick = (65 ∷ []) }

abbrev accept_msg : FriendMsg
accept_msg = bare_msg accept

abbrev item : ShareItem
item = record {
  cid = (1 ∷ []);
  node = [];
  pkg = [];
  uid = [];
  title = [];
  tile_cid = [];
  tile_node = [];
}

after-next_example :
    state_of 6 (after (heard 9 6 request_msg) service).social
    ≡ next_if (label_of 6 (heard 9 6 request_msg)) (state_of 6 service.social)
after-next_example = after-next (heard 9 6 request_msg) 6 service

befriended_example :
    (some_call consents 6 (adding 9 6 [] ∷ heard 10 6 request_msg ∷ [])
      || (some_call is_ask 6 (adding 9 6 [] ∷ heard 10 6 request_msg ∷ [])
          && some_call is_request 6 (adding 9 6 [] ∷ heard 10 6 request_msg ∷ [])))
    ≡ true
unfolding next_all
befriended_example =
    befriended (adding 9 6 [] ∷ heard 10 6 request_msg ∷ []) 6 service refl
      (after_all-next (adding 9 6 [] ∷ heard 10 6 request_msg ∷ []) 6 service)

block_friend-handle_stream_example :
    handle_stream 11 5 (accept_msg ∷ []) (block_friend 9 5 service).0
    ≡ ((block_friend 9 5 service).0, [])
block_friend-handle_stream_example = block_friend-handle_stream 9 11 5 (accept_msg ∷ []) service

block_friend-dispatch_example :
    state_of 5 (dispatch 11 5 accept_msg (block_friend 9 5 service).0).0.social ≡ accepted
block_friend-dispatch_example = block_friend-dispatch 9 11 5 accept_msg service refl

book_kept : BookKept book.contacts
unfolding valid_from
book_kept = (((omega arith, refl), omega arith), (((omega arith, refl), omega arith), tt))

after_all-BookKept_example :
    BookKept (after_all (heard 9 6 request_msg ∷ []) service).social.contacts
after_all-BookKept_example = after_all-BookKept (heard 9 6 request_msg ∷ []) service book_kept

-- A service without pushes under way.
abbrev quiet_service : Friends
quiet_service = record service { push_pending = [] }

-- Peer 5 asks for the libraries; then library 2 is shared with it, and a push reads.
abbrev asked_before : List Step
asked_before = calls (heard 9 5 (bare_msg library_req)) ∷ []

change-steps_example :
    Current 5 (
      steps
        (calls (pushed 5) ∷ sends 0 ∷ [])
        (step (calls (change 5 2 (some (item ∷ [])))) (steps asked_before (idle quiet_service))))
    × (get 2 (
          shelf_of 5
            (steps (calls (pushed 5) ∷ sends 0 ∷ []) (
              step
                (calls (change 5 2 (some (item ∷ []))))
                (steps asked_before (idle quiet_service)))).friends)
        ≡ some (item ∷ []))
unfolding steps step after dispatch dispatch_kind handle_library_req push_snapshot
change-steps_example =
    change-steps quiet_service asked_before (calls (pushed 5) ∷ sends 0 ∷ []) 5 2 (some (item ∷ []))
      refl refl refl

-- The users 6 and 8, who do not know each other.
abbrev asked_of : Friends
asked_of = receives 10 6 (mail 8 (effects_of (adding 9 8 []) service)) service

both_accepted_example :
    (state_of 8
        (receives 10 8
          (mail 6 (effects_of (adding 9 6 []) service))
          (after (adding 9 8 []) service)).social
      ≡ accepted)
    × (state_of 6
          (receives 10 6
            (mail 8 (effects_of (adding 9 8 []) service))
            (after (adding 9 6 []) service)).social
        ≡ accepted)
    × (state_of 6 asked_of.social
        ≡ hears (state_of 6 service.social) (next (told request) (state_of 6 service.social)))
    × (state_of 6 (after (accepting 10 6) asked_of).social ≡ accepted)
    × (state_of 8
          (receives 10 8
            (mail 6 (effects_of (accepting 10 6) asked_of))
            (after (adding 9 8 []) service)).social
        ≡ accepted)
both_accepted_example = both_accepted 9 10 6 8 [] service service

-- An encoder that writes what is not valid UTF-8 as U+FFFD.
abbrev replaced : List ℕ → List ℕ
replaced s = if valid_string s then s else 0xef ∷ 0xbf ∷ 0xbd ∷ []

replaced-valid : (s : List ℕ) → valid_string s ≡ true → replaced s ≡ s
replaced-valid s h = rw h refl

load_social-save_social_example :
    ((load_social (72 ∷ []) (some (save_social replaced book))).self ≡ book.self)
    × (get 7 (load_social (72 ∷ []) (some (save_social replaced book))).contacts
        ≡ offline (get 7 book.contacts))
unfolding valid_from
load_social-save_social_example =
    load_social-save_social replaced replaced-valid (72 ∷ []) 7 book
      ((λ h. omega arith), refl, ((λ h. omega arith), refl, tt)) (refl, refl)
      ((refl, refl), ((refl, refl), tt))

-- Peer ids that hash to their own number.
abbrev hash_of : ℕ → ℕ × ℕ
hash_of pid = (0, pid)

lan_config_from-Member_example : Member hash_of 9 [] (lan_vip (hash_of 5)) 5 book.contacts
unfolding lan_vip lan_config_from lan_routes
lan_config_from-Member_example =
    lan_config_from-Member hash_of 9 (lan_vip (hash_of 5)) 5 book [] refl
