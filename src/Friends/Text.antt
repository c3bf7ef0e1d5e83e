-- ===== src/Friends/Text.antt =====
-- friend.go: the bounds on what a peer may send. A string is the list of its bytes.
use vidya_god_ipfs.Prelude.{
  ℕ, zero, suc, Bool, true, false, not, ◌&&◌, ◌||◌, Option, none, some, List, [], ◌∷◌, ltb, leb,
  ◌==◌, length, take, is_empty, if◌then◌else◌,
}

-- What follows a first byte in UTF-8: how many bytes, and the range of the next of them.
abbrev pub lead_byte : ℕ → Option (ℕ × ℕ × ℕ)
lead_byte x =
    if ltb x 0x80
    then some (0, 0x80, 0xbf)
    else if ltb x 0xc2
    then none
    else if ltb x 0xe0
    then some (1, 0x80, 0xbf)
    else if x == 0xe0
    then some (2, 0xa0, 0xbf)
    else if x == 0xed
    then some (2, 0x80, 0x9f)
    else if ltb x 0xf0
    then some (2, 0x80, 0xbf)
    else if x == 0xf0
    then some (3, 0x90, 0xbf)
    else if ltb x 0xf4
    then some (3, 0x80, 0xbf)
    else if x == 0xf4
    then some (3, 0x80, 0x8f)
    else none

-- `n` bytes of a rune are still to come, the next one between `lo` and `hi`.
unfoldable pub valid_from : ℕ → ℕ → ℕ → List ℕ → Bool
valid_from n lo hi [] = n == 0
valid_from zero lo hi (x ∷ xs) = elim (lead_byte x) [
  | none ↦ false
  | some (n, lo', hi') ↦ valid_from n lo' hi' xs
]
valid_from (suc n) lo hi (x ∷ xs) = (leb lo x && leb x hi) && valid_from n 0x80 0xbf xs

-- utf8.ValidString
abbrev pub valid_string : List ℕ → Bool
valid_string s = valid_from 0 0x80 0xbf s

-- The loop of `capUtf8` on `s[:n]`.
unfoldable pub trim_utf8 : ℕ → List ℕ → List ℕ
trim_utf8 zero s = []
trim_utf8 (suc n) s =
    let rest = trim_utf8 n s in if valid_string (take (suc n) s) then take (suc n) s else rest

-- `capUtf8`
unfoldable pub cap_utf8 : List ℕ → ℕ → List ℕ
cap_utf8 s max = if leb (length s) max then (if valid_string s then s else []) else trim_utf8 max s

abbrev pub max_shared_libs : ℕ
max_shared_libs = 4096

abbrev pub max_lib_cids : ℕ
max_lib_cids = 100000

abbrev pub max_lib_name_len : ℕ
max_lib_name_len = 256

abbrev pub max_cid_len : ℕ
max_cid_len = 128

abbrev pub max_share_id_len : ℕ
max_share_id_len = 256

abbrev pub max_share_title_len : ℕ
max_share_title_len = 512

abbrev pub max_nick_len : ℕ
max_nick_len = 64

-- `shareItem`
pub record ShareItem : Type 0 where
  pub cid : List ℕ
  pub node : List ℕ
  pub pkg : List ℕ
  pub uid : List ℕ
  pub title : List ℕ
  pub tile_cid : List ℕ
  pub tile_node : List ℕ

-- A snapshot: the libraries by their names, in the order in which they are visited.
abbrev pub Libs : Type 0
Libs = List (List ℕ × List ShareItem)

unfoldable pub item_ok : ShareItem → Bool
item_ok it = not (
    is_empty it.cid
    || ltb max_cid_len (length it.cid)
    || ltb max_cid_len (length it.tile_cid)
    || ltb max_share_id_len (length it.node)
    || ltb max_share_id_len (length it.uid)
    || ltb max_share_id_len (length it.tile_node)
    || ltb max_share_id_len (length it.pkg)
    || ltb max_share_title_len (length it.title))

unfoldable pub items_ok : List ShareItem → Bool
items_ok [] = true
items_ok (it ∷ items) = item_ok it && items_ok items

unfoldable pub libs_ok : Libs → Bool
libs_ok [] = true
libs_ok ((name, items) ∷ libs) =
    not (is_empty name || ltb max_lib_name_len (length name) || ltb max_lib_cids (length items))
    && items_ok items
    && libs_ok libs

-- `libSnapshotOK`
unfoldable pub lib_snapshot_ok : Libs → Bool
lib_snapshot_ok m = not (ltb max_shared_libs (length m)) && libs_ok m
