-- ===== src/Friends/Service.antt =====
-- friend.go: the state of the friend service, its messages, and what it shares.
use vidya_god_ipfs.Prelude.{
  ℕ, ◌+◌, ◌%◌, ◌^◌, Bool, not, ◌||◌, none, some, List, [], ◌∷◌, ◌==◌, is_empty, contains,
  if◌then◌else◌, Map, get, put, delete,
}
use vidya_god_ipfs.Friends.Text.{ShareItem, Libs}
use vidya_god_ipfs.Friends.Social.{is_accepted, Contact, Social, state_of}

-- What a peer shares and what it is shown: libraries by the number of their name.
abbrev pub Shelf : Type 0
Shelf = Map (List ShareItem)

-- `friendService`. `push_pending` lists the peers whose flag is set.
pub record Friends : Type 0 where
  pub social : Social
  pub share_libs : Map Shelf
  pub send_seq : ℕ
  pub push_pending : List ℕ
  pub presence_deny : List ℕ

pub data MsgType : Type 0 where
  request accept decline profile presence ping library_req library other : MsgType

-- `friendMsg`; the libraries that are received are `libs`, those that are sent `shelf`.
pub record FriendMsg : Type 0 where
  pub kind : MsgType
  pub nick : List ℕ
  pub pic : List ℕ
  pub note : List ℕ
  pub libs : Libs
  pub shelf : Shelf
  pub lib_seq : ℕ

abbrev pub bare_msg : MsgType → FriendMsg
bare_msg k = record { kind = k; nick = []; pic = []; note = []; libs = []; shelf = []; lib_seq = 0 }

-- The kinds of events that the application is told.
pub data Event : Type 0 where
  ev_request ev_accept ev_decline ev_presence ev_profile ev_removed ev_sent : Event

-- What a method does outside: events, messages that it tries to send, a goroutine for a push.
pub data Effect : Type 0 where
  emitted : Event → ℕ → Contact → Effect
  removed : ℕ → Effect
  emitted_library : ℕ → Libs → ℕ → Effect
  sent : ℕ → FriendMsg → Effect
  pushing : ℕ → Effect

-- `helloMsg`
abbrev pub hello_msg : MsgType → Social → FriendMsg
hello_msg k s = record (bare_msg k) {
  nick = if is_empty s.self.nick then s.hostname else s.self.nick;
  pic = s.self.pic;
}

abbrev pub shelf_of : ℕ → Friends → Shelf
shelf_of pid f = elim (get pid f.share_libs) [ none ↦ [] | some m ↦ m ]

-- `pushSnapshot`
unfoldable pub push_snapshot : ℕ → Friends → Friends × List Effect
push_snapshot pid f =
    if not (is_accepted (state_of pid f.social)) || contains pid f.push_pending
    then (f, [])
    else (record f { push_pending = pid ∷ f.push_pending }, pushing pid ∷ [])

-- Drops a peer from a list of peers.
abbrev pub without : ℕ → List ℕ → List ℕ
without pid [] = []
without pid (p ∷ ps) = let rest = without pid ps in if p == pid then rest else p ∷ rest

-- The goroutine that `pushSnapshot` starts, while it holds the lock, with the message that it has read
-- then; the counter is a uint64.
unfoldable pub run_push : ℕ → Friends → Friends × FriendMsg
run_push pid f =
    let seq = (f.send_seq + 1) % 2 ^ 64 in
    (
      record f { push_pending = without pid f.push_pending; send_seq = seq },
      record (bare_msg library) { shelf = shelf_of pid f; lib_seq = seq },
    )

-- What it does after it has let go of the lock, and at any later time.
unfoldable pub send_push : ℕ → FriendMsg → List Effect
send_push pid m = sent pid m ∷ []

-- `setShareLib`
unfoldable pub set_share_lib : ℕ → ℕ → List ShareItem → Friends → Friends × List Effect
set_share_lib pid lib items f =
    push_snapshot pid
      (record f { share_libs = put pid (put lib items (shelf_of pid f)) f.share_libs })

-- A shelf that is empty is taken away.
abbrev pub put_shelf : ℕ → Shelf → Map Shelf → Map Shelf
put_shelf pid m libs = if is_empty m then delete pid libs else put pid m libs

-- `removeShareLib`
unfoldable pub remove_share_lib : ℕ → ℕ → Friends → Friends × List Effect
remove_share_lib pid lib f = push_snapshot pid (record f {
  share_libs = elim (get pid f.share_libs) [
    | none ↦ f.share_libs
    | some m ↦ put_shelf pid (delete lib m) f.share_libs
  ];
})

-- `purgeShares`
unfoldable pub purge_shares : ℕ → Friends → Friends
purge_shares pid f = record f {
  share_libs = delete pid f.share_libs;
  push_pending = without pid f.push_pending;
}

-- `requestLibraries`
unfoldable pub request_libraries : ℕ → Friends → List Effect
request_libraries pid f = sent pid (bare_msg library_req) ∷ []

-- `presenceDenied`
unfoldable pub presence_denied : ℕ → Friends → Bool
presence_denied pid f = contains pid f.presence_deny

-- `setPresenceDeny`
unfoldable pub set_presence_deny : List ℕ → Friends → Friends
set_presence_deny pids f = record f { presence_deny = pids }
