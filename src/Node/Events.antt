-- ===== src/Node/Events.antt =====
-- The background task that `PathweaveNode::new` spawns (node.rs), and `flood_key_announcement` of
-- router.rs: what a node does when discovery or a send tells it of a peer or a key. The sends of a
-- flood, which run concurrently, stand here one after the other.
pub mod Gossip
use pathweave.Base.{ℕ, List, [], ◌∷◌, Option}
use pathweave.Types.{
  Bytes, PeerId, PublicKey, bytes_eq, TransportEvent, transport_changed, peer_connected,
  peer_disconnected, store_failed, message_delivered, key_learned,
}
use pathweave.KeyRegistry
use pathweave.KeyAnnouncement.{encode_key_announcement}
use pathweave.Router.Send.{Env}
use pathweave.Node.Dispatch.{max_ttl, neighbors}
use pathweave.Node.Store.{Node, flood, drain_direct_for_peer, drain_routed_all}
use pathweave.Node.Peers.{KnownNode}

-- The node that `new` returns, with the bound of its registry. The handler and the deduplication
-- cache that it holds too stand in Node.Dispatch and Dedup, beside the code that reads them.
unfoldable pub new : Option ℕ → KnownNode
new max_key_registry_size = record {
  node = record {
    net = record {
      key_registry = KeyRegistry.new max_key_registry_size;
      peers = [];
      events = [];
      log = [];
    };
    pending_direct = [];
    pending_routed = [];
    sends = 0;
  };
  known_addrs = [];
}

-- An event of the channel, with what the task meets while it handles it: a new message id, and
-- the `Instant::now()` of the drains.
pub record Arriving : Type 0 where
  pub event : TransportEvent
  pub msg_id : ℕ
  pub now : ℕ
  pub clock : PeerId → ℕ

-- `env n` is what the n-th call of `Router::send` meets.
module _ (hash : Bytes → Bytes) (env : ℕ → Env) (local_peer_id : PeerId) where
  unfoldable pub flood_key_announcement : Node → ℕ → PeerId → PublicKey → Node
  flood_key_announcement s msg_id learned_peer_id learned_key =
      (flood hash env local_peer_id (neighbors s.net.peers learned_peer_id local_peer_id)
        (encode_key_announcement learned_peer_id learned_key max_ttl) msg_id s).0

  module _ (store_ttl : ℕ) where
    unfoldable pub handle_event : Node → Arriving → Node
    handle_event s e = elim e.event [
      | peer_connected peer_id ↦
          drain_routed_all hash env local_peer_id store_ttl
            (drain_direct_for_peer hash env local_peer_id store_ttl s e.now peer_id) e.clock
      | key_learned peer_id public_key ↦ flood_key_announcement s e.msg_id peer_id public_key
      | transport_changed from to ↦ s
      | peer_disconnected peer_id ↦ s
      | store_failed peer_id ↦ s
      | message_delivered peer_id via ↦ s
    ]

    -- The loop, over the events that the channel gives.
    unfoldable pub background : Node → List Arriving → Node
    background s [] = s
    background s (e ∷ events) = background (handle_event s e) events
