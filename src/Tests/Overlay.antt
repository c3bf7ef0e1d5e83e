-- ===== src/Tests/Overlay.antt =====
-- The datapath of overlay.go between three friends, with concrete connections.
use vidya_god_ipfs.Prelude.{
  ℕ, ◌+◌, ◌*◌, ◌^◌, ◌≡◌, refl, true, false, some, List, [], ◌∷◌, arith, drop, replicate,
}
use vidya_god_ipfs.LinkMaintainer.Link.{Links, new_link, on_pong}
use vidya_god_ipfs.Overlay.Frame.{Subnet, ipv4_dst, write_frame}
use vidya_god_ipfs.Overlay.Service.{Overlay, authorized, routes_contain}
use vidya_god_ipfs.Overlay.Send.{Wire, accepted, queue_of}
use vidya_god_ipfs.Overlay.Outbound.{handle_outbound}
use vidya_god_ipfs.Overlay.Inbound.{inbound_loop}
use vidya_god_ipfs.Overlay.Queue.{enqueue_all, enqueue_all-freshest}
use vidya_god_ipfs.Overlay.Gate.{Every, Rides, handle_outbound-Rides}
use vidya_god_ipfs.Overlay.Routing.{Spares, handle_outbound-Spares}
use vidya_god_ipfs.Overlay.Stream.{write_frames, IsOpen, inbound_loop-delivers}

-- 10.66.0.0/16
abbrev lan : Subnet
lan = record { network = 10 * 2 ^ 24 + 66 * 2 ^ 16; prefix = 16 }

-- Friend 1 is proven on connection 3; friend 2 has no proven connection; friend 4 is excluded.
abbrev links : Links
links = (1, on_pong 50 3 40 (new_link 7)) ∷ (2, new_link 8) ∷ []

abbrev service : Overlay
service = record {
  routes =
      (10 * 2 ^ 24 + 66 * 2 ^ 16 + 1, 1)
      ∷ (10 * 2 ^ 24 + 66 * 2 ^ 16 + 2, 2)
      ∷ (10 * 2 ^ 24 + 66 * 2 ^ 16 + 4, 4)
      ∷ [];
  bcast = some (10 * 2 ^ 24 + 66 * 2 ^ 16 + 65535);
  subnet = some lan;
  excluded = 4 ∷ [];
  linkm = some links;
  senders = [];
  link = true;
  gateway = true;
  relay = false;
}

abbrev wire : Wire
wire = record { conns = λ pid. 3 ∷ 5 ∷ []; is_quic = λ c. true; send = λ c pkt. accepted }

-- An IPv4 header to 10.66.x.y.
abbrev packet_to : ℕ → ℕ → List ℕ
packet_to x y =
    0x45 ∷ 0 ∷ 0 ∷ 20 ∷ 0 ∷ 0 ∷ 0 ∷ 0 ∷ 64 ∷ 17 ∷ 0 ∷ 0 ∷ 10 ∷ 66 ∷ 0 ∷ 9 ∷ 10 ∷ 66 ∷ x ∷ y ∷ []

abbrev shout : List ℕ
shout = packet_to 255 255

handle_outbound-Rides_example :
    Every (Rides wire links) (handle_outbound wire false shout service).1
handle_outbound-Rides_example = handle_outbound-Rides wire false shout service links refl

handle_outbound-Spares_example :
    Every (Spares 4) (handle_outbound wire false shout service).1
    × (queue_of 4 (handle_outbound wire false shout service).0 ≡ queue_of 4 service)
handle_outbound-Spares_example =
    handle_outbound-Spares wire false 4 shout service (unfold routes_contain in refl)

enqueue_all-freshest_example :
    queue_of 2 (enqueue_all 2 (replicate 70 shout) service) ≡ drop 6 (replicate 70 shout)
enqueue_all-freshest_example = enqueue_all-freshest 2 (replicate 70 shout) service (omega arith)

friend-IsOpen : IsOpen 2 (service, true)
friend-IsOpen = record {
  authorized = unfold authorized routes_contain in refl;
  attached = refl;
  takes = refl;
}

inbound_loop-delivers_example :
    inbound_loop 2 ((service, true) ∷ (service, true) ∷ []) (0 ∷ 1 ∷ 96 ∷ 0 ∷ 20 ∷ packet_to 0 9)
    ≡ packet_to 0 9 ∷ []
unfolding ipv4_dst
inbound_loop-delivers_example =
    inbound_loop-delivers 2 ((service, true) ∷ (service, true) ∷ [])
      ((96 ∷ []) ∷ packet_to 0 9 ∷ []) (0 ∷ 1 ∷ 96 ∷ 0 ∷ 20 ∷ packet_to 0 9)
      (unfold write_frames write_frame in refl) (friend-IsOpen, (friend-IsOpen, tt))
