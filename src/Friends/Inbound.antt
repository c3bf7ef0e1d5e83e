-- ===== src/Friends/Inbound.antt =====
-- friend.go: messages of a peer.
use vidya_god_ipfs.Prelude.{
  ℕ, Bool, true, ◌&&◌, Option, none, some, List, [], ◌∷◌, ◌++◌, ltb, length, is_empty,
  if◌then◌else◌, has, get,
}
use vidya_god_ipfs.Friends.Text.{cap_utf8, max_nick_len, max_cid_len, lib_snapshot_ok}
use vidya_god_ipfs.Friends.Social.{
  FriendState, pending, incoming, accepted, blocked, is_accepted, is_pending, is_blocked, Contact,
  Social, state_of, upsert, remove, set_presence,
}
use vidya_god_ipfs.Friends.Service.{
  Friends, FriendMsg, MsgType, request, accept, decline, profile, presence, ping, library_req,
  library, other, Effect, emitted, emitted_library, sent, ev_request, ev_accept, ev_decline,
  ev_presence, ev_profile, hello_msg, push_snapshot, presence_denied,
}

-- The bounds on the identity that a message carries.
unfoldable pub bounded_msg : FriendMsg → FriendMsg
bounded_msg m = record m {
  nick = cap_utf8 m.nick max_nick_len;
  pic = if ltb max_cid_len (length m.pic) then [] else m.pic;
}

abbrev or_kept : List ℕ → List ℕ → List ℕ
or_kept new old = if is_empty new then old else new

-- The profile that a request or an accept carries, where it carries one.
abbrev pub with_profile : FriendMsg → Contact → Contact
with_profile m c = record c { nick = or_kept m.nick c.nick; pic = or_kept m.pic c.pic }

-- What a request makes of the state.
abbrev pub requested : FriendState → FriendState
requested pending = accepted
requested accepted = accepted
requested blocked = blocked
requested _ = incoming

abbrev pub on_request : FriendMsg → Contact → Contact
on_request m c = record (with_profile m c) { state = requested c.state }

abbrev pub on_accept : FriendMsg → Contact → Contact
on_accept m c = record (with_profile m c) { state = accepted }

abbrev pub on_profile : FriendMsg → Contact → Contact
on_profile m c = record c { nick = m.nick; pic = m.pic }

abbrev with_social : Friends → Social → Friends
with_social f s = record f { social = s }

-- `request`: a crossing of requests makes friends, and tells the peer so.
unfoldable pub handle_request : ℕ → ℕ → FriendMsg → Friends → Friends × List Effect
handle_request now remote m f =
    let crossing = is_pending (state_of remote f.social) in
    let (s, c) = upsert now remote (on_request m) f.social in
    (
      with_social f s,
      if crossing
          then emitted ev_accept remote c ∷ sent remote (hello_msg accept s) ∷ []
          else emitted ev_request remote c ∷ [],
    )

unfoldable pub handle_accept : ℕ → ℕ → FriendMsg → Friends → Friends × List Effect
handle_accept now remote m f =
    let (s, c) = upsert now remote (on_accept m) f.social in
    (with_social f s, emitted ev_accept remote c ∷ [])

unfoldable pub handle_decline : ℕ → Friends → Friends × List Effect
handle_decline remote f = elim (get remote f.social.contacts) [
  | none ↦ (f, [])
  | some c ↦ (with_social f (remove remote f.social).0, emitted ev_decline remote c ∷ [])
]

unfoldable pub handle_profile : ℕ → ℕ → FriendMsg → Friends → Friends × List Effect
handle_profile now remote m f =
    if has remote f.social.contacts
    then (let (s, c) = upsert now remote (on_profile m) f.social in
        (with_social f s, emitted ev_profile remote c ∷ []))
    else (f, [])

abbrev pub presence_event : ℕ → Option Contact → List Effect
presence_event remote none = []
presence_event remote (some c) = emitted ev_presence remote c ∷ []

-- `setPresence` and its event
unfoldable pub note_presence : ℕ → ℕ → Bool → Friends → Friends × List Effect
note_presence now remote online f =
    let (s, changed) = set_presence now remote online f.social in
    (with_social f s, presence_event remote changed)

unfoldable pub handle_presence : ℕ → ℕ → Friends → Friends × List Effect
handle_presence now remote f =
    if presence_denied remote f then (f, []) else note_presence now remote true f

unfoldable pub handle_library_req : ℕ → Friends → Friends × List Effect
handle_library_req remote f =
    if is_accepted (state_of remote f.social) then push_snapshot remote f else (f, [])

unfoldable pub handle_library : ℕ → FriendMsg → Friends → Friends × List Effect
handle_library remote m f =
    if is_accepted (state_of remote f.social) && lib_snapshot_ok m.libs
    then (f, emitted_library remote m.libs m.lib_seq ∷ [])
    else (f, [])

-- The `switch` of `dispatch`
unfoldable pub dispatch_kind : MsgType → ℕ → ℕ → FriendMsg → Friends → Friends × List Effect
dispatch_kind request now remote m f = handle_request now remote m f
dispatch_kind accept now remote m f = handle_accept now remote m f
dispatch_kind decline now remote m f = handle_decline remote f
dispatch_kind profile now remote m f = handle_profile now remote m f
dispatch_kind presence now remote m f = handle_presence now remote f
dispatch_kind ping now remote m f = handle_presence now remote f
dispatch_kind library_req now remote m f = handle_library_req remote f
dispatch_kind library now remote m f = handle_library remote m f
dispatch_kind other now remote m f = (f, [])

-- `dispatch`
unfoldable pub dispatch : ℕ → ℕ → FriendMsg → Friends → Friends × List Effect
dispatch now remote m f = dispatch_kind m.kind now remote (bounded_msg m) f

unfoldable pub dispatch_all : ℕ → ℕ → List FriendMsg → Friends → Friends × List Effect
dispatch_all now remote [] f = (f, [])
dispatch_all now remote (m ∷ ms) f =
    let (f', es) = dispatch now remote m f in
    let (f'', es') = dispatch_all now remote ms f' in (f'', es ++ es')

-- `handleStream`: the messages that are decoded before the stream ends, or its limit is reached
unfoldable pub handle_stream : ℕ → ℕ → List FriendMsg → Friends → Friends × List Effect
handle_stream now remote ms f =
    if is_blocked remote f.social then (f, []) else dispatch_all now remote ms f
