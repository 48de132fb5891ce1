-- ===== src/Node.antt =====
-- `PathweaveNode` of node.rs: what it does with the frames that arrive, and with the messages that
-- it stores until a peer is reachable.
pub mod Dispatch
pub mod Incoming
pub mod Accept
pub mod Store
pub mod Peers
pub mod Sealed
pub mod Events
