-- ===== src/Lib.antt =====
-- A model of pathweave, a library that sends messages between peers over several transports, with
-- mesh routing, gossip of keys and store-and-forward; and proofs about it.
--
-- The program's core is crates/pathweave-core/src. A `PathweaveNode` (node.rs) owns a `Router`
-- (router.rs), a `KeyRegistry` and a `PeerTable` (lib.rs) and a `DeduplicationCache` (node.rs). To
-- send, the node looks a peer's addresses up in the peer table and calls `Router::send`, which dials
-- the candidates in the order of their cost with `try_send`: handshake, exchange of addresses, framed
-- message, ACK. A node that receives a frame parses it with `dispatch_payload`: it delivers it, learns
-- a key from it, or relays it to its neighbours. What cannot be sent waits in a queue until a drain.
--
-- Which file models what:
--   Types: the data types of lib.rs.
--   KeyRegistry: `KeyRegistryState` of lib.rs. Its mutex makes each method one step.
--   Bytes, AddrExchange, KeyAnnouncement: the codecs of router.rs, over lists of bytes. Indexing and
--     slicing return `panic` out of range.
--   PeerTable: `PeerTable` of lib.rs and `upsert_peer_addresses` of router.rs.
--   Dedup: `DeduplicationCache` of node.rs.
--   Router: candidates and their order; Router.Dial: `try_send` and `try_connect`; Router.Send:
--     `Router::send` and `Router::connect`; Router.Health: `register_transport` and `health_monitor`;
--     Router.Discovery: `peer_stream`, all of router.rs.
--   Node.Dispatch: `dispatch_payload` and `spawn_relay_to_neighbors` of node.rs.
--   Node.Incoming: `handle_incoming` of node.rs; Node.Accept: `accept_loop` with many such sessions.
--   Node.Store: `send`, `send_routed`, `store_forward`, `store_forward_routed`,
--     `drain_direct_for_peer` and `drain_routed_all` of node.rs.
--   Node.Peers: `connect` and `add_peer` of node.rs.
--   Node.Sealed: `send_routed_sealed` of node.rs.
--   Node.Events: `PathweaveNode::new` of node.rs with its background task, and
--     `flood_key_announcement` of router.rs.
--   Session: session.rs, the handshakes, the encrypted channel and one-shot sealing.
--   Bundle: `BundleLayer` of bundle.rs.
--   Transport.Stream: the framing of `QuicConnection` of crates/pathweave-transport-quic/src/lib.rs,
--     which is also that of crates/pathweave-transport-wifi-direct/src/lib.rs.
--   Transport.Advertising: the broadcast medium of crates/pathweave-transport-ble/src/advertising.rs:
--     headers and short ids, and in Transport.Advertising.Medium the dispatcher and its connections.
--   Transport.Peripheral: `peripheral_loop` of crates/pathweave-transport-ble/src/lib.rs (Linux);
--     Transport.Gatt: `windows_peripheral_task` and `macos_peripheral_task` of the same file;
--     Transport.Scan: `discover` and `connect` of `BleTransport`, and what peripherals advertise.
--   Transport.Quic: `QuicTransport` of the QUIC crate and `detect_network_cost`; Transport.Mdns: the
--     bridge task of `QuicTransport::start`.
--   Transport.WifiDirect: linux.rs and windows.rs of crates/pathweave-transport-wifi-direct/src.
--   Base: tests, lists, maps; Tests: runs of the theorems on concrete data.
--
-- Conventions. A byte is a number; `PeerId` and keys are lists of bytes, whose length of 32 is a
-- hypothesis where it matters. A `HashMap` is an association list, whose order stands for the order
-- of iteration. Time is a number of nanoseconds, and each `Instant::now()` an argument. The
-- text in errors and the log are left out. That message ids fit in 64 bits and ports in 16 is a
-- hypothesis where it matters.
--
-- Parameters. `blake3::hash` is a function `hash`. The Noise library, the transports and the remote
-- node are a record `Answers` of what they answer to one connection, and an `Env` holds those of a
-- whole send with the availability of the transports at each attempt; the theorems hold for all of
-- them. Sealing and opening a message are functions `seal` and `unseal`, which Session gives on top of
-- the `snow` library, there a record `Noise`. The bundle layer takes the encoding of bp7 as `to_cbor`
-- and `try_from`, and the broadcast medium the hash of a payload as `hash_payload`.
--
-- Loops. Those over lists are structural. The retry loop of `send` counts the attempts that are left
-- down from MAX_SEND_ATTEMPTS, so no fuel is needed. The loop that fragments a message runs on
-- fuel, the length of the message, which Bundle.Reassembly shows to be enough. The sends that a
-- dispatch spawns are values in the node's state; the drains that `add_peer` spawns run at once. A
-- background task is a function of one event, and a run of it a list of events, so that theorems
-- about all lists are about all orders; the tasks of Router.Health stop at each `await`, and their
-- steps interleave, as do those of the sessions in Node.Accept. A task that waits for the next event of its list needs no fuel.
--
-- Not modelled: `register_transport` of node.rs, which only spawns the tasks that are modelled; the
-- waiting of `peer_stream` for its transport; the lag of event channels; the connections of quinn, the
-- setup of BLE services, the advertising bearers and the publisher of Wi-Fi Direct on Windows (calls
-- of platform and third-party libraries); the bindings and the example program.
pub mod Base
pub mod Types
pub mod KeyRegistry
pub mod Bytes
pub mod AddrExchange
pub mod Dedup
pub mod KeyAnnouncement
pub mod PeerTable
pub mod Router
pub mod Bundle
pub mod Transport
pub mod Session
pub mod Node
pub mod Tests
