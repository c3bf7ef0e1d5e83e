-- ===== src/Tests/ListenPorts.antt =====
-- The listeners of listenports.go, on a system that gives all ports, and on one that refuses WebTransport
-- on the saved UDP port.
use vidya_god_ipfs.Prelude.{◌≡◌, refl, Bool, true, false, not, ◌&&◌, none, [], ◌∷◌, ◌==◌, arith}
use vidya_god_ipfs.ListenPorts.Ports.{
  Ports, Kind, plain, quic, web_transport, web_socket, Probe, System, free_port, free_port_loop,
  probed, contains_addr, ports_of, listen_on,
}
use vidya_god_ipfs.ListenPorts.Stable.{at, listen_on-kept}
use vidya_god_ipfs.ListenPorts.Paired.{listen_on-paired}

abbrev saved : Ports
saved = record { tcp = 4001; udp = 4002; ws = 4003 }

abbrev free_probe : Probe
free_probe = record { v4_port = 5000; v6_has = true; v6_port = 0 }

abbrev open_system : System
open_system = record {
  takes = λ a. true;
  picks = λ a. 40000;
  has_v6 = true;
  first_probes = λ t. free_probe ∷ [];
  fresh_probes = λ t. free_probe ∷ [];
  free_v6 = λ t. 6000;
}

listen_on-kept_example :
    ((listen_on open_system saved).0
      ≡ at true web_socket 4003
        ∷ at false web_socket 4003
        ∷ at true web_transport 4002
        ∷ at true quic 4002
        ∷ at false web_transport 4002
        ∷ at false quic 4002
        ∷ at true plain 4001
        ∷ at false plain 4001
        ∷ [])
    × (ports_of (listen_on open_system saved).0 ≡ saved)
    × ((listen_on open_system saved).1 ≡ none)
    × ((listen_on open_system saved).2 ≡ false)
listen_on-kept_example =
    listen_on-kept open_system saved (omega arith) (omega arith) (omega arith) (λ v6. refl)
      (λ v6. refl) (λ v6. refl) (λ v6. refl)

abbrev is_web_transport : Kind → Bool
is_web_transport web_transport = true
is_web_transport _ = false

abbrev strict_system : System
strict_system = record open_system { takes = λ a. not (is_web_transport a.kind && a.port == 4002) }

listen_on-paired_example :
    contains_addr
      (record { v6 = false; kind = quic; port = 5000 })
      (listen_on strict_system saved).0
    ≡ contains_addr
        (record { v6 = false; kind = web_transport; port = 5000 })
        (listen_on strict_system saved).0
unfolding free_port free_port_loop probed
listen_on-paired_example = listen_on-paired strict_system saved false 5000 refl
