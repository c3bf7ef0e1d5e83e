-- ===== src/Tests/Quarantine.antt =====
-- The quarantine at concrete states, with a plain record of lists for the bitswap messages.
use vidya_god_ipfs.Prelude.{ℕ, ◌≡◌, refl, Bool, true, false, List, [], ◌∷◌, contains}
use vidya_god_ipfs.Quarantine.Ledger.{Ledger, Net, hold, offered_elsewhere}
use vidya_god_ipfs.Quarantine.Message.{Messages, Entry}
use vidya_god_ipfs.Quarantine.Scan.{
  scan, scan_peers, scan_peer, sits, tally, take_out, cooldown, strikes_of,
}
use vidya_god_ipfs.Quarantine.Evidence.{Evidence, scan-Evidence}

record Plain : Type 0 where
  full : Bool
  wantlist : List Entry
  blocks : List ℕ
  haves : List ℕ
  dont_haves : List ℕ
  pending_bytes : ℕ

abbrev plain_messages : Messages
plain_messages = record {
  Msg = Plain;
  full = λ m. m.full;
  wantlist = λ m. m.wantlist;
  blocks = λ m. m.blocks;
  haves = λ m. m.haves;
  dont_haves = λ m. m.dont_haves;
  pending_bytes = λ m. m.pending_bytes;
  new = λ f. record {
    full = f;
    wantlist = [];
    blocks = [];
    haves = [];
    dont_haves = [];
    pending_bytes = 0;
  };
  add_cancel = λ c m. m;
  add_entry = λ e m. record m { wantlist = e ∷ m.wantlist };
  add_block = λ b m. record m { blocks = b ∷ m.blocks };
  add_dont_have = λ c m. record m { dont_haves = c ∷ m.dont_haves };
  set_pending_bytes = λ n m. record m { pending_bytes = n };
  blocks-new = λ f. refl;
  haves-new = λ f. refl;
  dont_haves-new = λ f. refl;
  blocks-add_cancel = λ c m. refl;
  haves-add_cancel = λ c m. refl;
  dont_haves-add_cancel = λ c m. refl;
  blocks-add_entry = λ e m. refl;
  haves-add_entry = λ e m. refl;
  dont_haves-add_entry = λ e m. refl;
  contains-add_block = λ c b m. refl;
  haves-add_block = λ b m h. h;
  blocks-add_dont_have = λ c m. refl;
  haves-add_dont_have = λ c m h. h;
  blocks-set_pending_bytes = λ n m. refl;
  haves-set_pending_bytes = λ n m. refl;
}

abbrev sitting : Ledger
sitting = record {
  wanted = (7, 1_000_000_000) ∷ (8, 1_000_000_000) ∷ [];
  asked = 7 ∷ 8 ∷ [];
  owed = [];
  denied = false;
  last_block = 0;
  gap = 0;
  progress = 1_000_000_000;
  until = 0;
  probation = false;
  linked = true;
}

-- Peer 1 sits on blocks 7 and 8; peer 2 has said HAVE for 7.
abbrev stuck : Net
stuck = record {
  peers = (1, sitting) ∷ [];
  records = [];
  haves = (7, 1 ∷ 2 ∷ []) ∷ [];
  has_client = true;
  has_server = true;
}

abbrev five_s : ℕ
five_s = 5_000_000_000

goes_out : (scan five_s true stuck).outs ≡ 1 ∷ []
unfolding scan scan_peers scan_peer sits tally hold take_out cooldown strikes_of offered_elsewhere
goes_out = refl

stuck_out : contains 1 (scan five_s true stuck).outs ≡ true
unfolding scan scan_peers scan_peer sits tally hold take_out cooldown strikes_of offered_elsewhere
stuck_out = refl

scan-Evidence_example : Evidence five_s 1 stuck
scan-Evidence_example = scan-Evidence five_s true stuck 1 stuck_out

-- Peer 1 is out until 100 s, owes 7 (it had said HAVE) and 8.
abbrev out_net : Net
out_net = record stuck {
  peers =
      (
        1,
        record sitting {
          wanted = [];
          asked = [];
          owed = (7, true) ∷ (8, false) ∷ [];
          until = 100_000_000_000;
        },
      )
      ∷ [];
}

abbrev one_block : Plain
one_block = record {
  full = false;
  wantlist = [];
  blocks = 7 ∷ [];
  haves = 8 ∷ [];
  dont_haves = [];
  pending_bytes = 0;
}

abbrev a_denial : Plain
a_denial = record one_block { blocks = []; dont_haves = 7 ∷ [] }
