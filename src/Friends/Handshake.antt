-- ===== src/Friends/Handshake.antt =====
-- Two services that befriend each other, by the messages that each sends to the other.
use vidya_god_ipfs.Prelude.{
  ℕ, ◌≡◌, refl, ap, ◌∙◌, Bool, true, false, List, [], ◌∷◌, arith, ◌==◌, if◌then◌else◌,
}
use vidya_god_ipfs.Friends.Social.{
  FriendState, unset, pending, incoming, accepted, blocked, is_blocked, is_blocked_state, state_of,
  Contact, Social, upsert,
}
use vidya_god_ipfs.Friends.Service.{
  Friends, FriendMsg, request, accept, Event, ev_sent, ev_accept, hello_msg, Effect, emitted,
  removed, emitted_library, sent, pushing,
}
use vidya_god_ipfs.Friends.Inbound.{dispatch, dispatch_all, handle_stream}
use vidya_god_ipfs.Friends.Actions.{on_add, add_friend, accept_friend}
use vidya_god_ipfs.Friends.Machine.{
  told, we_add, next, heard, adding, accepting, after, after-next, label_of,
}
use vidya_god_ipfs.Friends.Pushes.{effects_of}

-- What of the messages that are sent goes to a peer.
abbrev pub mail : ℕ → List Effect → List FriendMsg
mail j [] = []
mail j (sent pid m ∷ es) = let rest = mail j es in if pid == j then m ∷ rest else rest
mail j (emitted e pid c ∷ es) = mail j es
mail j (removed pid ∷ es) = mail j es
mail j (emitted_library pid libs seq ∷ es) = mail j es
mail j (pushing pid ∷ es) = mail j es

-- The service after a stream with some messages of a peer.
abbrev pub receives : ℕ → ℕ → List FriendMsg → Friends → Friends
receives now remote ms f = (handle_stream now remote ms f).0

-- What a message of a peer that is not blocked makes of its state.
abbrev pub hears : FriendState → FriendState → FriendState
hears s s' = if is_blocked_state s then s else s'

same_peer : (j : ℕ) → (j == j) ≡ true
same_peer j = ground arith

state_of-if :
    (j : ℕ) (b : Bool) (x y : Friends × List Effect)
    → state_of j (if b then x else y).0.social
      ≡ (if b then state_of j x.0.social else state_of j y.0.social)
state_of-if j true x y = refl
state_of-if j false x y = refl

one_message :
    (now j : ℕ) (m : FriendMsg) (ms : List FriendMsg) (f : Friends)
    → ms ≡ m ∷ []
    → state_of j (receives now j ms f).social
      ≡ hears (state_of j f.social) (next (told m.kind) (state_of j f.social))
unfolding handle_stream dispatch_all is_blocked after
one_message now j m ms f e =
    let heard_ : state_of j (dispatch now j m f).0.social
        ≡ next (told m.kind) (state_of j f.social) =
      after-next (heard now j m) j f ∙ rw (same_peer j, label_of) refl in
    rw e (
      state_of-if j (is_blocked_state (state_of j f.social)) (f, []) (dispatch_all now j (m ∷ []) f)
      ∙ ap (hears (state_of j f.social)) heard_)

-- The one message that adding and accepting a peer send to it.
mail_one :
    (j : ℕ) (e : Event) (c : Contact) (m : FriendMsg)
    → mail j (emitted e j c ∷ sent j m ∷ []) ≡ m ∷ []
mail_one j e c m = rw (same_peer j) refl

mail-adding :
    (now j : ℕ) (note : List ℕ) (f : Friends)
    → (m : FriendMsg) × (mail j (effects_of (adding now j note) f) ≡ m ∷ []) × (m.kind ≡ request)
unfolding effects_of add_friend
mail-adding now j note f =
    let m : FriendMsg = record (hello_msg request (upsert now j on_add f.social).0) {
      note = note;
    } in
    (m, mail_one j ev_sent (upsert now j on_add f.social).1 m, refl)

mail-accepting :
    (now j : ℕ) (f : Friends)
    → (m : FriendMsg) × (mail j (effects_of (accepting now j) f) ≡ m ∷ []) × (m.kind ≡ accept)
unfolding effects_of accept_friend
mail-accepting now j f =
    let r : Social × Contact =
      upsert now j (λ (c : Contact). record c { state = accepted }) f.social in
    let m : FriendMsg = hello_msg accept r.0 in (m, mail_one j ev_accept r.1 m, refl)

after-adding :
    (now j : ℕ) (note : List ℕ) (f : Friends)
    → state_of j (after (adding now j note) f).social ≡ next we_add (state_of j f.social)
after-adding now j note f = after-next (adding now j note) j f ∙ rw (same_peer j, label_of) refl

after-accepting :
    (now j : ℕ) (f : Friends) → state_of j (after (accepting now j) f).social ≡ accepted
after-accepting now j f = after-next (accepting now j) j f ∙ rw (same_peer j, label_of) refl

added_hears :
    (s : FriendState) → hears (next we_add s) (next (told request) (next we_add s)) ≡ accepted
added_hears unset = refl
added_hears pending = refl
added_hears incoming = refl
added_hears accepted = refl
added_hears blocked = refl

added_answered :
    (s : FriendState) → hears (next we_add s) (next (told accept) (next we_add s)) ≡ accepted
added_answered unset = refl
added_answered pending = refl
added_answered incoming = refl
added_answered accepted = refl
added_answered blocked = refl

-- What the one peer has sent reaches the other.
asked_by :
    (now later i j : ℕ) (note : List ℕ) (f g : Friends)
    → state_of i (receives later i (mail j (effects_of (adding now j note) f)) g).social
      ≡ hears (state_of i g.social) (next (told request) (state_of i g.social))
asked_by now later i j note f g =
    let (m, is, kind_is) = mail-adding now j note f in
    one_message later i m _ g is
    ∙ ap (λ k. hears (state_of i g.social) (next (told k) (state_of i g.social))) kind_is

answered_by :
    (now later i j : ℕ) (f g : Friends)
    → state_of i (receives later i (mail j (effects_of (accepting now j) f)) g).social
      ≡ hears (state_of i g.social) (next (told accept) (state_of i g.social))
answered_by now later i j f g =
    let (m, is, kind_is) = mail-accepting now j f in
    one_message later i m _ g is
    ∙ ap (λ k. hears (state_of i g.social) (next (told k) (state_of i g.social))) kind_is

pub crossed :
    (now later i j : ℕ) (note : List ℕ) (f g : Friends)
    → state_of i
        (receives later i
          (mail j (effects_of (adding now j note) f))
          (after (adding now i note) g)).social
      ≡ accepted
crossed now later i j note f g =
    asked_by now later i j note f (after (adding now i note) g)
    ∙ ap (λ s. hears s (next (told request) s)) (after-adding now i note g)
    ∙ added_hears (state_of i g.social)

answers :
    (now meanwhile later i j : ℕ) (note : List ℕ) (f g : Friends)
    → state_of j
        (receives later j
          (mail i (effects_of (accepting meanwhile i) g))
          (after (adding now j note) f)).social
      ≡ accepted
answers now meanwhile later i j note f g =
    answered_by meanwhile later j i g (after (adding now j note) f)
    ∙ ap (λ s. hears s (next (told accept) s)) (after-adding now j note f)
    ∙ added_answered (state_of j f.social)

-- Two users `i` and `j`, whatever they were to each other before. Where both add the other, and what the
-- two services send for it reaches the other, each has the other as a friend. Where `i` adds `j` and its
-- message arrives, `j` has a request of `i` to decide on, unless it has blocked it or the two
-- were further already; and where `j` then accepts `i` and the message for that arrives, each has the other as
-- a friend.
pub both_accepted :
    (now later i j : ℕ) (note : List ℕ) (f g : Friends)
    → let f1 = after (adding now j note) f in
      let g1 = after (adding now i note) g in
      let asked = receives later i (mail j (effects_of (adding now j note) f)) g in
      (state_of j (receives later j (mail i (effects_of (adding now i note) g)) f1).social
        ≡ accepted)
      × (state_of i (receives later i (mail j (effects_of (adding now j note) f)) g1).social
          ≡ accepted)
      × (state_of i asked.social
          ≡ hears (state_of i g.social) (next (told request) (state_of i g.social)))
      × (state_of i (after (accepting later i) asked).social ≡ accepted)
      × (state_of j (receives later j (mail i (effects_of (accepting later i) asked)) f1).social
          ≡ accepted)
both_accepted now later i j note f g =
    let asked : Friends = receives later i (mail j (effects_of (adding now j note) f)) g in
    (
      crossed now later j i note g f,
      crossed now later i j note f g,
      asked_by now later i j note f g,
      after-accepting later i asked,
      answers now later later i j note f asked,
    )
