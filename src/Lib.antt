-- ===== src/Lib.antt =====
-- VidyaGodIPFS, the embedded IPFS node of VidyaGod (Go, one package at the repository's root), and
-- the parts of it whose logic is its own.
--
-- How the parts interact. Fetches and provider work take slots of one network queue (netq.go). A
-- fetch's blocks come through bitswap, whose network is wrapped by the quarantine (quarantine.go):
-- it takes a peer that sits on want-blocks out of the client's rotation. All fetches share one pool
-- of want tokens (fetch.go), and keep what they have of a file in a sidecar (resume.go). Between
-- friends runs a virtual LAN: the overlay (overlay.go) moves IP packets between the game's link and
-- the friends, by datagram over a connection that the link maintainer (overlaylink.go) has proven
-- by heartbeats, else by a stream; broadcasts that the real LAN is to see are parsed, and replies
-- built, by packet4.go. Who is a friend is kept in the address book (social.go), which the messages
-- of friend.go change, with the libraries that each friend is shown. What the node holds is made
-- findable through the DHT provider (provide.go): keys are handed over, marked until they are known
-- announced, and the leftovers of an earlier run are dropped once the application's list is in
-- (seedannounce.go). Broadcasts of the game also go through a reflector (hostrelay.go) to the real
-- LAN. Every dial of the libp2p host passes a gate with a budget (netgate.go), which knows the
-- friends from the address book, and the host listens on the ports of its last run (listenports.go).
-- Names are resolved over HTTPS with a cache and a fallback (doh.go). The routes of the overlay are
-- those of the accepted friends (friendlan.go).
--
-- Which file models what. Each file of this library opens with the Go file that it is about.
-- NetQueue.antt is netq.go: the record `NetQueue` is `netQueue`, and `acquire`, `release`,
-- `give_up`, `hold`, `release_hold`, `set_slots` are its methods (the parts of `acquire` before and
-- after its `select` are two functions). Quarantine/Ledger.antt, Scan.antt, Message.antt and
-- Traffic.antt are quarantine.go: `Net` is `quarantineNet`, `Ledger` is `peerLedger`, `Offences` is
-- `peerRecord`. LinkMaintainer/Link.antt and Evaluate.antt are overlaylink.go: `PeerLink` is
-- `peerLink`, `Links` the maintainer's map; `Effect` lists what a beat does on the host.
-- Packet4.antt is packet4.go. Overlay/Frame.antt, Service.antt, Send.antt, Outbound.antt and
-- Inbound.antt are overlay.go: `Overlay` is `overlayService`, `handle_outbound` and `inbound_loop`
-- are `handleOutbound` and the loop of `handleInbound`, and `Effect` lists what leaves the service.
-- Resume.antt is resume.go: `PartBits` is `partBits`, and a sidecar is its bytes. WantPool.antt is
-- `wantPool` of fetch.go: `set_limit` is `setLimitLocked`, and a send that would block is a result
-- of its own. FailureLog.antt is servefail.go, and GatewayRanges.antt is `gatewayRanges` of
-- gateway.go. Friends/Social.antt is social.go (`Social` is `socialState`), and Friends/Text.antt,
-- Service.antt, Inbound.antt and Actions.antt are friend.go: `Friends` is `friendService`, `dispatch`
-- and `handle_stream` are its methods, `Effect` lists what is emitted and sent, and `run_push` is the
-- goroutine of `pushSnapshot` while it holds the lock (`send_push` is its send). Friends/Disk.antt is
-- the file of social.go with its JSON tags, and Friends/Pushes.antt runs the service with its pushes. Providing/State.antt, Flush.antt, Confirm.antt and Leftovers.antt are
-- provide.go and `runSeedAnnounce`: `Providing` is `provideState`, `Marks` the records of the
-- datastore, `Ask` what is asked of the provider, and `World` what the provider, the datastore and
-- the clock answer during one operation. Reflector/Hosts.antt and Relay.antt are hostrelay.go
-- (`Relay` is `hostRelay`, `receive` a round of `recvLoop`), DialBudget/Bucket.antt and Gate.antt
-- are netgate.go (`Bucket` is `tokenBucket`, `NetGate` is `netGate` with the node's fields), and
-- ListenPorts/Ports.antt is listenports.go (`System` is what the operating system answers).
-- Resolver/Lookup.antt is doh.go, and Friends/Lan.antt is `lanConfigFrom` of friendlan.go.
-- Tests.antt and the modules below it run the model at concrete inputs.
--
-- Conventions. A method that runs under its mutex is one function from the state to the state, with
-- the calls that it makes on others returned as a list. Peer ids, CIDs, channels and connection ids
-- are numbers: the code only compares them; an IPv4 address is its 32-bit number, or its four bytes
-- where packets are built. A Go map is an
-- association list, and a range over it follows the list: Go leaves the order open, and the
-- theorems hold for every list. Times and durations are numbers of nanoseconds on the monotonic
-- clock, with 0 for the zero time; an int that the code keeps from falling below zero is a natural
-- number, and a shift or a sum that can overflow has its wrap-around written out. Log lines are
-- left out. `evaluate`, which lets go of its lock to read the connections and to send, is one step.
--
-- Fuel. `grant_loop` (the loop of `grantLocked`) takes `slots - active` rounds: each round raises
-- `active`, so the loop's own test has failed by then. `fold_carries` (the loops over the carries
-- in packet4.go) has 3 rounds: two bring any 32-bit sum below 2 ^ 16, where its test fails.
-- `inbound_loop` has a round for each state of the service that it is given. `unpark` and `park`
-- (the loops of `setLimitLocked`) take a round for each parked token and for each token of the
-- channel: a round uses one up, and the loops' tests fail without. `shrink` (the merging loop of
-- `gatewayRanges`) and `closest` (its inner loop) have a round for each range: a round of the first
-- leaves one range fewer, a round of the second passes one.
-- `take_from` (the loop of the bucket) has a round for each look that it is given, with what the other
-- dials made of the bucket since the look before: a look after the deadline is its last. The bucket's floats are counted in units of 10 ^ -9 token, in which
-- the rate is exact. `free_port` makes its 16 probes, and stops at the first that finds a port.
--
-- Not modelled: libp2p, boxo, gvisor and quic-go are used through parameters where a theorem needs
-- them (`Messages` for boxo's messages, `Host` and `Wire` for the connections of the libp2p host,
-- `World` for the DHT provider and the datastore, and for the DNS endpoints, `json_string` for what
-- encoding/json writes for a string, `System` for the ports that the system picks and gives) and left out elsewhere;
-- the cgo surface (api*.go), the files and sockets, and the diagnostics. Nor are the fetch itself
-- (fetch.go but for the want pool), the attaching and detaching of the overlay's links, and the
-- queries on what is held (query.go, blocks.go).
pub mod Prelude
pub mod DialBudget
pub mod FailureLog
pub mod Friends
pub mod GatewayRanges
pub mod LinkMaintainer
pub mod ListenPorts
pub mod NetQueue
pub mod Overlay
pub mod Packet4
pub mod Providing
pub mod Quarantine
pub mod Reflector
pub mod Resolver
pub mod Resume
pub mod WantPool
pub mod Tests
