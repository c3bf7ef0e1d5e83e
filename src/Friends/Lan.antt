-- ===== src/Friends/Lan.antt =====
-- friendlan.go: the virtual LAN of the accepted friends. The first two bytes of the hash of a peer id
-- are an argument; an address is its 32-bit number.
use vidya_god_ipfs.Prelude.{
  ℕ, ◌+◌, ◌*◌, Bool, not, ◌&&◌, Option, none, some, List, [], ◌∷◌, ◌==◌, contains, if◌then◌else◌,
  Map, put,
}
use vidya_god_ipfs.Friends.Social.{Contact, Social, is_accepted}

-- 10.66.0.0, the network of `lanSubnet`
abbrev pub lan_network : ℕ
lan_network = 172_097_536

abbrev lan_host : ℕ → ℕ → ℕ
lan_host hi lo = lan_network + hi * 256 + lo

-- `lanVIP`, for the first two bytes of the hash
unfoldable pub lan_vip : ℕ × ℕ → ℕ
lan_vip h =
    let lo = if h.0 == 0 && h.1 == 0 then 1 else h.1 in
    let lo' = if h.0 == 255 && lo == 255 then 254 else lo in lan_host h.0 lo'

-- Whether a contact is one of the LAN.
abbrev pub on_lan : ℕ → List ℕ → ℕ → Contact → Bool
on_lan self excluded pid c = is_accepted c.state && not (pid == self) && not (contains pid excluded)

-- The loop of `lanConfigFrom`
unfoldable pub lan_routes : (ℕ → ℕ × ℕ) → ℕ → List ℕ → Map Contact → Map ℕ → Map ℕ
lan_routes hash self excluded [] routes = routes
lan_routes hash self excluded ((pid, c) ∷ contacts) routes =
    lan_routes hash self excluded contacts
      (if on_lan self excluded pid c then put (lan_vip (hash pid)) pid routes else routes)

-- `lanConfigFrom`: our own address and the routes; none without an address book
unfoldable pub lan_config_from : (ℕ → ℕ × ℕ) → ℕ → Option Social → List ℕ → Option (ℕ × Map ℕ)
lan_config_from hash self none excluded = none
lan_config_from hash self (some s) excluded =
    some (lan_vip (hash self), lan_routes hash self excluded s.contacts [])
