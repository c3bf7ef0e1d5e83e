-- ===== src/Quarantine/Message.antt =====
-- The bitswap messages (boxo's bsmsg, not part of this repository) as an interface: the methods that
-- quarantine.go calls, and what it relies on. `wants_only` and `without_haves` are built from them.
use vidya_god_ipfs.Prelude.{ℕ, ◌≡◌, Bool, ◌||◌, List, [], ◌∷◌, ◌==◌, contains, if◌then◌else◌}

-- `bsmsg.Entry`, the fields that are read.
pub record Entry : Type 0 where
  pub cid : ℕ
  pub cancel : Bool
  pub want_block : Bool
  pub priority : ℕ
  pub send_dont_have : Bool

-- A block stands for its CID. The laws: a new message is empty, an entry or a cancel adds no block, no
-- HAVE and no DONT_HAVE, a block or a DONT_HAVE adds no HAVE, and a block that was added is there and
-- stays there.
pub record Messages : Type 1 where
  pub Msg : Type 0
  pub full : Msg → Bool
  pub wantlist : Msg → List Entry
  pub blocks : Msg → List ℕ
  pub haves : Msg → List ℕ
  pub dont_haves : Msg → List ℕ
  pub pending_bytes : Msg → ℕ
  pub new : Bool → Msg
  pub add_cancel : ℕ → Msg → Msg
  pub add_entry : Entry → Msg → Msg
  pub add_block : ℕ → Msg → Msg
  pub add_dont_have : ℕ → Msg → Msg
  pub set_pending_bytes : ℕ → Msg → Msg
  pub blocks-new : (f : Bool) → blocks (new f) ≡ []
  pub haves-new : (f : Bool) → haves (new f) ≡ []
  pub dont_haves-new : (f : Bool) → dont_haves (new f) ≡ []
  pub blocks-add_cancel : (c : ℕ) (m : Msg) → blocks (add_cancel c m) ≡ blocks m
  pub haves-add_cancel : (c : ℕ) (m : Msg) → haves (add_cancel c m) ≡ haves m
  pub dont_haves-add_cancel : (c : ℕ) (m : Msg) → dont_haves (add_cancel c m) ≡ dont_haves m
  pub blocks-add_entry : (e : Entry) (m : Msg) → blocks (add_entry e m) ≡ blocks m
  pub haves-add_entry : (e : Entry) (m : Msg) → haves (add_entry e m) ≡ haves m
  pub dont_haves-add_entry : (e : Entry) (m : Msg) → dont_haves (add_entry e m) ≡ dont_haves m
  pub contains-add_block :
      (c b : ℕ) (m : Msg) → contains c (blocks (add_block b m)) ≡ (c == b || contains c (blocks m))
  pub haves-add_block : (b : ℕ) (m : Msg) → haves m ≡ [] → haves (add_block b m) ≡ []
  pub blocks-add_dont_have : (c : ℕ) (m : Msg) → blocks (add_dont_have c m) ≡ blocks m
  pub haves-add_dont_have : (c : ℕ) (m : Msg) → haves m ≡ [] → haves (add_dont_have c m) ≡ []
  pub blocks-set_pending_bytes : (n : ℕ) (m : Msg) → blocks (set_pending_bytes n m) ≡ blocks m
  pub haves-set_pending_bytes : (n : ℕ) (m : Msg) → haves (set_pending_bytes n m) ≡ haves m

module _ (bs : Messages) where
  open bs use {
    Msg, full, wantlist, blocks, dont_haves, pending_bytes, new, add_cancel, add_entry, add_block,
    add_dont_have, set_pending_bytes,
  }

  abbrev pub add_wants : List Entry → Msg → Msg
  add_wants [] w = w
  add_wants (e ∷ es) w = add_wants es (if e.cancel then add_cancel e.cid w else add_entry e w)

  -- `wantsOnly`
  unfoldable pub wants_only : Msg → Msg
  wants_only m = add_wants (wantlist m) (new (full m))

  abbrev pub add_blocks : List ℕ → Msg → Msg
  add_blocks [] w = w
  add_blocks (b ∷ bs) w = add_blocks bs (add_block b w)

  abbrev pub add_dont_haves : List ℕ → Msg → Msg
  add_dont_haves [] w = w
  add_dont_haves (c ∷ cs) w = add_dont_haves cs (add_dont_have c w)

  -- `withoutHaves`
  unfoldable pub without_haves : Msg → Msg
  without_haves m =
      set_pending_bytes (pending_bytes m)
        (add_dont_haves (dont_haves m) (add_blocks (blocks m) (wants_only m)))
