-- ===== src/Friends/Consent.antt =====
-- Who becomes a friend, and who stays out.
use vidya_god_ipfs.Prelude.{
  ℕ, ◌≡◌, refl, sym, ap, ◌∙◌, Bool, true, false, ◌&&◌, ◌||◌, Option, none, some, List, [], ◌∷◌,
  arith, ◌==◌, if◌then◌else◌,
}
use vidya_god_ipfs.Friends.Social.{
  FriendState, unset, pending, incoming, accepted, blocked, is_accepted, is_pending, state_of,
}
use vidya_god_ipfs.Friends.Service.{
  Friends, FriendMsg, request, accept, decline, profile, presence, ping, library_req, library,
  other,
}
use vidya_god_ipfs.Friends.Inbound.{dispatch}
use vidya_god_ipfs.Friends.Actions.{block_friend}
use vidya_god_ipfs.Friends.Machine.{
  Label, told, we_add, we_accept, we_decline, we_block, next, Call, heard, after, label_of, next_if,
  after-next, block_friend-next,
}
use vidya_god_ipfs.Friends.Inbound.{handle_stream}
use vidya_god_ipfs.Friends.Social.{is_blocked}

-- A sequence of calls.
unfoldable pub after_all : List Call → Friends → Friends
after_all [] f = f
after_all (c ∷ cs) f = after_all cs (after c f)

-- What a peer has shown, or the user has done, that may make them friends.
abbrev pub consents : Option Label → Bool
consents (some (told accept)) = true
consents (some we_accept) = true
consents _ = false

abbrev pub is_ask : Option Label → Bool
is_ask (some we_add) = true
is_ask _ = false

abbrev pub is_request : Option Label → Bool
is_request (some (told request)) = true
is_request _ = false

abbrev pub some_call : (Option Label → Bool) → ℕ → List Call → Bool
some_call test j [] = false
some_call test j (c ∷ cs) = test (label_of j c) || some_call test j cs

unfoldable pub next_all : ℕ → List Call → FriendState → FriendState
next_all j [] s = s
next_all j (c ∷ cs) s = next_all j cs (next_if (label_of j c) s)

pub after_all-next :
    (cs : List Call) (j : ℕ) (f : Friends)
    → state_of j (after_all cs f).social ≡ next_all j cs (state_of j f.social)
unfolding after_all next_all
after_all-next [] j f = refl
after_all-next (c ∷ cs) j f =
    after_all-next cs j (after c f) ∙ ap (next_all j cs) (after-next c j f)

-- The reasons for which a peer in state `s` may be a friend after the calls.
abbrev reasons : ℕ → List Call → FriendState → Bool
reasons j cs s =
    is_accepted s
    || some_call consents j cs
    || ((is_pending s || some_call is_ask j cs) && some_call is_request j cs)

next_label-reasons :
    (l : Label) (s : FriendState) (ask asked consented : Bool)
    → (is_accepted (next l s) || consented || ((is_pending (next l s) || ask) && asked)) ≡ true
    → (is_accepted s
        || (consents (some l) || consented)
        || ((is_pending s || (is_ask (some l) || ask)) && (is_request (some l) || asked)))
      ≡ true
next_label-reasons (told accept) s ask asked consented h = ground (arith, h)
next_label-reasons (told decline) s ask asked consented h = ground (arith, h)
next_label-reasons (told profile) s ask asked consented h = ground (arith, h)
next_label-reasons (told presence) s ask asked consented h = ground (arith, h)
next_label-reasons (told ping) s ask asked consented h = ground (arith, h)
next_label-reasons (told library_req) s ask asked consented h = ground (arith, h)
next_label-reasons (told library) s ask asked consented h = ground (arith, h)
next_label-reasons (told other) s ask asked consented h = ground (arith, h)
next_label-reasons (told request) unset ask asked consented h = ground (arith, h)
next_label-reasons (told request) pending ask asked consented h = ground (arith, h)
next_label-reasons (told request) incoming ask asked consented h = ground (arith, h)
next_label-reasons (told request) accepted ask asked consented h = ground (arith, h)
next_label-reasons (told request) blocked ask asked consented h = ground (arith, h)
next_label-reasons we_add unset ask asked consented h = ground (arith, h)
next_label-reasons we_add pending ask asked consented h = ground (arith, h)
next_label-reasons we_add incoming ask asked consented h = ground (arith, h)
next_label-reasons we_add accepted ask asked consented h = ground (arith, h)
next_label-reasons we_add blocked ask asked consented h = ground (arith, h)
next_label-reasons we_accept s ask asked consented h = ground (arith, h)
next_label-reasons we_decline s ask asked consented h = ground (arith, h)
next_label-reasons we_block s ask asked consented h = ground (arith, h)

next_if-reasons :
    (l : Option Label) (s : FriendState) (ask asked consented : Bool)
    → (is_accepted (next_if l s) || consented || ((is_pending (next_if l s) || ask) && asked))
      ≡ true
    → (is_accepted s
        || (consents l || consented)
        || ((is_pending s || (is_ask l || ask)) && (is_request l || asked)))
      ≡ true
next_if-reasons none s ask asked consented h = h
next_if-reasons (some l) s ask asked consented h = next_label-reasons l s ask asked consented h

next_all-reasons :
    (cs : List Call) (j : ℕ) (s : FriendState)
    → is_accepted (next_all j cs s) ≡ true
    → reasons j cs s ≡ true
unfolding next_all
next_all-reasons [] j s h = ground (arith, h)
next_all-reasons (c ∷ cs) j s h =
    next_if-reasons (label_of j c) s (some_call is_ask j cs) (some_call is_request j cs)
      (some_call consents j cs) (next_all-reasons cs j (next_if (label_of j c) s) h)

-- A peer that has no state and is a friend after some calls is a friend because, among these calls,
-- it sent an accept, or the user accepted it, or the user added it and it sent a request.
pub befriended :
    (cs : List Call) (j : ℕ) (f : Friends)
    → state_of j f.social ≡ unset
    → state_of j (after_all cs f).social ≡ accepted
    → (some_call consents j cs || (some_call is_ask j cs && some_call is_request j cs)) ≡ true
befriended cs j f start h =
    let reached : is_accepted (next_all j cs (state_of j f.social)) ≡ true =
      ap is_accepted (sym (after_all-next cs j f) ∙ h) in
    let why : reasons j cs unset ≡ true =
      next_all-reasons cs j unset (ap (λ x. is_accepted (next_all j cs x)) (sym start) ∙ reached) in
    why

-- What takes a peer out of the blocked state: an accept or a decline of its own, or an action of the user.
abbrev pub unblocks : Option Label → Bool
unblocks none = false
unblocks (some (told accept)) = true
unblocks (some (told decline)) = true
unblocks (some (told _)) = false
unblocks (some _) = true

next_if-blocked : (l : Option Label) → unblocks l ≡ false → next_if l blocked ≡ blocked
next_if-blocked none h = refl
next_if-blocked (some we_add) h = ground (arith, h)
next_if-blocked (some we_accept) h = ground (arith, h)
next_if-blocked (some we_decline) h = ground (arith, h)
next_if-blocked (some we_block) h = refl
next_if-blocked (some (told request)) h = refl
next_if-blocked (some (told accept)) h = ground (arith, h)
next_if-blocked (some (told decline)) h = ground (arith, h)
next_if-blocked (some (told profile)) h = refl
next_if-blocked (some (told presence)) h = refl
next_if-blocked (some (told ping)) h = refl
next_if-blocked (some (told library_req)) h = refl
next_if-blocked (some (told library)) h = refl
next_if-blocked (some (told other)) h = refl

next_all-blocked :
    (cs : List Call) (j : ℕ) → some_call unblocks j cs ≡ false → next_all j cs blocked ≡ blocked
unfolding next_all
next_all-blocked [] j h = refl
next_all-blocked (c ∷ cs) j h =
    let here : unblocks (label_of j c) ≡ false = ground (arith, h) in
    let later : some_call unblocks j cs ≡ false = ground (arith, h) in
    ap (next_all j cs) (next_if-blocked (label_of j c) here) ∙ next_all-blocked cs j later

-- A blocked peer stays blocked whatever is heard and done, where neither an accept or a decline of
-- the peer nor an action of the user on the peer is among it.
pub stays_blocked :
    (cs : List Call) (j : ℕ) (f : Friends)
    → state_of j f.social ≡ blocked
    → some_call unblocks j cs ≡ false
    → state_of j (after_all cs f).social ≡ blocked
stays_blocked cs j f start h =
    after_all-next cs j f ∙ ap (next_all j cs) start ∙ next_all-blocked cs j h

state-block_friend :
    (now pid : ℕ) (f : Friends) → state_of pid (block_friend now pid f).0.social ≡ blocked
state-block_friend now pid f = ground (arith, block_friend-next now pid pid f)

-- A stream that a peer opens after it was blocked changes nothing and has no effect.
pub block_friend-handle_stream :
    (now later pid : ℕ) (ms : List FriendMsg) (f : Friends)
    → handle_stream later pid ms (block_friend now pid f).0 ≡ ((block_friend now pid f).0, [])
unfolding handle_stream is_blocked
block_friend-handle_stream now later pid ms f = rw (state-block_friend now pid f) refl

-- An accept that is read after the block, on a stream that the peer had opened before it, makes
-- the blocked peer a friend.
pub block_friend-dispatch :
    (now later pid : ℕ) (m : FriendMsg) (f : Friends)
    → m.kind ≡ accept
    → state_of pid (dispatch later pid m (block_friend now pid f).0).0.social ≡ accepted
unfolding dispatch after
block_friend-dispatch now later pid m f e =
    let f' : Friends = (block_friend now pid f).0 in
    let same : (pid == pid) ≡ true = ground arith in
    after-next (heard later pid m) pid f'
    ∙ ap (λ b. next_if (if b then some (told m.kind) else none) (state_of pid f'.social)) same
    ∙ ap (λ k. next (told k) (state_of pid f'.social)) e
