-- ===== src/Tests/DialBudget.antt =====
-- The dial budget of netgate.go: fourteen looks at once, and a peer of the network.
use vidya_god_ipfs.Prelude.{◌+◌, ◌-◌, ◌*◌, ◌≤◌, ◌≡◌, refl, true, ◌||◌, none, List, [], ◌∷◌, arith}
use vidya_god_ipfs.DialBudget.Bucket.{Bucket, token, dial_burst, dial_rate, refill, spend, look}
use vidya_god_ipfs.DialBudget.Bucket.{Look, take_from}
use vidya_god_ipfs.DialBudget.Waits.{returned, take_from-returns}
use vidya_god_ipfs.DialBudget.Gate.{
  NetGate, DialAddr, v4_addr, private_addr, is_friend, intercept_addr_dial, is_lan_peer,
  note_lan_peer,
}
use vidya_god_ipfs.DialBudget.Rate.{dials, last_of, dials-rate}
use vidya_god_ipfs.DialBudget.Private.{
  Event, lan_noted, addr_dialed, run, happen, noted_within, intercept_addr_dial-private,
}

abbrev empty_bucket : Bucket
empty_bucket = record { tokens = 0; last = 0 }

-- Three looks within a second.
dials-rate_example :
    dials ((9_000_000_000, 5) ∷ (9_000_000_000, 6) ∷ (9_000_000_000, 500_000_000) ∷ []) empty_bucket
      * token
    ≤ dial_burst
      + (last_of 5 ((9_000_000_000, 6) ∷ (9_000_000_000, 500_000_000) ∷ []) - 5) * dial_rate
dials-rate_example =
    dials-rate 9_000_000_000 5 ((9_000_000_000, 6) ∷ (9_000_000_000, 500_000_000) ∷ []) empty_bucket
      (omega arith) refl

-- The first look finds the burst.
first_dial : dials ((9_000_000_000, 5) ∷ []) empty_bucket ≡ 1
unfolding dials look spend refill
first_dial = refl

abbrev gate : NetGate
gate = record { bucket = empty_bucket; social = none; lan_peers = []; wanted_prov = [] }

abbrev at_home : DialAddr
at_home = v4_addr (record { a = 192; b = 168; c = 1; d = 9 })

abbrev events : List Event
events = lan_noted 10 4 ∷ addr_dialed 11 5 ∷ []

intercept_addr_dial-private_example :
    (is_friend 4 (run at_home events gate) || noted_within 20 4 events) ≡ true
unfolding private_addr intercept_addr_dial run happen is_lan_peer note_lan_peer is_friend
intercept_addr_dial-private_example =
    intercept_addr_dial-private at_home events none 20 4 gate refl refl refl

-- Another dial takes the token that comes in between, and the third round gives up.
abbrev drained : Bucket → Bucket
drained b = record b { tokens = 0 }

abbrev rounds : List Look
rounds =
    record { others = λ b. b; now = 1_500_000_000 }
    ∷ record { others = drained; now = 2_500_000_000 }
    ∷ record { others = drained; now = 3_500_000_000 }
    ∷ []

take_from-returns_example :
    returned (take_from 3_000_000_000 rounds (record { tokens = 0; last = 500_000_000 })).1 ≡ true
take_from-returns_example =
    take_from-returns 3_000_000_000 1_000_000_000 500_000_000 rounds
      (record { tokens = 0; last = 500_000_000 }) refl (omega arith) (omega arith)
