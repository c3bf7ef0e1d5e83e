-- ===== src/Friends/Actions.antt =====
-- friend.go: what the user does, and the presence loop.
use vidya_god_ipfs.Prelude.{ℕ, Bool, false, Option, none, some, List, [], ◌∷◌, if◌then◌else◌}
use vidya_god_ipfs.Friends.Social.{
  pending, accepted, blocked, is_accepted, Contact, Social, upsert, remove, accepted_peers,
  pending_peers,
}
use vidya_god_ipfs.Friends.Service.{
  Friends, FriendMsg, request, accept, decline, profile, ping, bare_msg, Effect, emitted, removed,
  sent, ev_sent, ev_accept, ev_decline, hello_msg, purge_shares, presence_denied,
}
use vidya_god_ipfs.Friends.Inbound.{note_presence}

abbrev with_social : Friends → Social → Friends
with_social f s = record f { social = s }

abbrev pub on_add : Contact → Contact
on_add c = if is_accepted c.state then c else record c { state = pending }

-- `addFriend`: none for an id that is no peer id
unfoldable pub add_friend : ℕ → Bool → ℕ → List ℕ → Friends → Option (Friends × List Effect)
add_friend now decodes pid note f =
    if decodes
    then (let (s, c) = upsert now pid on_add f.social in
        some (
          with_social f s,
          emitted ev_sent pid c ∷ sent pid (record (hello_msg request s) { note = note }) ∷ [],
        ))
    else none

-- `acceptFriend`
unfoldable pub accept_friend : ℕ → ℕ → Friends → Friends × List Effect
accept_friend now pid f =
    let (s, c) = upsert now pid (λ (c : Contact). record c { state = accepted }) f.social in
    (with_social f s, emitted ev_accept pid c ∷ sent pid (hello_msg accept s) ∷ [])

-- `declineFriend`
unfoldable pub decline_friend : ℕ → Friends → Friends × List Effect
decline_friend pid f = (
  purge_shares pid (with_social f (remove pid f.social).0),
  removed pid ∷ sent pid (bare_msg decline) ∷ [],
)

-- `blockFriend`
unfoldable pub block_friend : ℕ → ℕ → Friends → Friends × List Effect
block_friend now pid f =
    let (s, c) =
      upsert now pid (λ (c : Contact). record c { state = blocked; online = false }) f.social in
    (purge_shares pid (with_social f s), emitted ev_decline pid c ∷ [])

-- The peers that may see that we are there.
unfoldable pub shown_to : List ℕ → Friends → List ℕ
shown_to [] f = []
shown_to (p ∷ ps) f = let rest = shown_to ps f in if presence_denied p f then rest else p ∷ rest

abbrev pub send_to : FriendMsg → List ℕ → List Effect
send_to m [] = []
send_to m (p ∷ ps) = sent p m ∷ send_to m ps

-- `broadcastProfile`
unfoldable pub broadcast_profile : Friends → List Effect
broadcast_profile f = send_to (hello_msg profile f.social) (shown_to (accepted_peers f.social) f)

-- `pingPresence`, where `reached` is whether the ping could be sent
unfoldable pub ping_presence : ℕ → Bool → ℕ → Friends → Friends × List Effect
ping_presence now reached pid f =
    let (f', es) = note_presence now pid reached f in (f', sent pid (hello_msg ping f.social) ∷ es)

-- One tick of `startPresence`: the pings and the requests that it starts
unfoldable pub presence_tick : Friends → List ℕ × List Effect
presence_tick f = (
  shown_to (accepted_peers f.social) f,
  send_to (hello_msg request f.social) (pending_peers f.social),
)
