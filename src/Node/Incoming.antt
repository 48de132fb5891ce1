-- ===== src/Node/Incoming.antt =====
-- `handle_incoming` of node.rs: a whole incoming session, from the handshake to its end.
pub mod Direct
pub mod Safety
use pathweave.Base.{
  ℕ, Bool, false, ◌&&◌, List, [], ◌∷◌, ◌++◌, Option, none, some, leb, ◌==◌, if◌then◌else◌, length,
}
use pathweave.Types.{
  peer_id_from_public_key, Bytes, PeerId, PublicKey, bytes_eq, Result, ok, err, PeerAddress,
  TransportEvent, key_learned,
}
use pathweave.Bytes.{Fault, ret, ◌>>=◌}
use pathweave.AddrExchange.{encode_addr_exchange, decode_addr_exchange}
use pathweave.PeerTable.{upsert_peer_addresses}
use pathweave.Node.Dispatch.{NodeState, dispatch_payload}
use pathweave.KeyRegistry

-- The node, the events fired, and the address frames handed to the session.
pub record Incoming : Type 0 where
  pub node : NodeState
  pub events : List TransportEvent
  pub address_frames : List Bytes

-- `first.len() >= 8 && first[0] == 0x00`.
unfoldable pub is_control : Bytes → Bool
is_control first = leb 8 (length first) && (elim first [ [] ↦ false | b ∷ rest ↦ b == 0x00 ])

-- A `match` on the decoded addresses, and the answer with the node's own.
unfoldable pub exchange :
    List PeerAddress → PeerId → Incoming → Option (List PeerAddress) → Incoming
exchange local_addresses sender i none = record i {
  address_frames = i.address_frames ++ encode_addr_exchange local_addresses ∷ [];
}
exchange local_addresses sender i (some addrs) = record i {
  node = record i.node { peers = upsert_peer_addresses i.node.peers sender addrs };
  address_frames = i.address_frames ++ encode_addr_exchange local_addresses ∷ [];
}

-- `insert_direct` of the key that the handshake showed.
unfoldable pub greet : NodeState → PeerId → PublicKey → Incoming
greet s sender key =
    let (registry, is_new_key) = KeyRegistry.insert_direct s.key_registry sender key in
    record {
      node = record s { key_registry = registry };
      events = if is_new_key then key_learned sender key ∷ [] else [];
      address_frames = [];
    }

module _ (hash : Bytes → Bytes) (unseal : PeerId → PublicKey → Bytes → Result Bytes) where
  -- The payloads that `recv` returns until it fails, each with the time at which it is dispatched.
  unfoldable pub serve : NodeState → PeerId → List (ℕ × Bytes) → Fault NodeState
  serve s sender [] = ret s
  serve s sender ((now, payload) ∷ arrivals) = do
    s1 ← dispatch_payload hash unseal s now sender payload
    serve s1 sender arrivals

  unfoldable pub serve_all : Incoming → PeerId → List (ℕ × Bytes) → Fault Incoming
  serve_all i sender arrivals = do s ← serve i.node sender arrivals; ret (record i { node = s })

  -- `handshake` is the answer of `Session::respond`, with the static key of the remote node.
  unfoldable pub handle_incoming :
      NodeState → List PeerAddress → Result PublicKey → List (ℕ × Bytes) → Fault Incoming
  handle_incoming s local_addresses (err e) arrivals =
      ret (record { node = s; events = []; address_frames = [] })
  handle_incoming s local_addresses (ok key) [] =
      ret (greet s (peer_id_from_public_key hash key) key)
  handle_incoming s local_addresses (ok key) ((now, first) ∷ arrivals) =
      let sender = peer_id_from_public_key hash key in
      let i = greet s sender key in
      if is_control first
      then (do
        addrs ← decode_addr_exchange first
        serve_all (exchange local_addresses sender i addrs) sender arrivals)
      else serve_all i sender ((now, first) ∷ arrivals)
