-- ===== src/Node/Peers.antt =====
-- `connect` and `add_peer` of node.rs: a peer becomes known, and what waits for it is drained.
pub mod Known
use pathweave.Base.{ℕ, List, [], ◌∷◌, ◌++◌, if◌then◌else◌, mem}
use pathweave.Types.{
  PeerAddress-eq, Bytes, PeerId, bytes_eq, Result, ok, err, PeerAddress, PeerAnnouncement,
}
use pathweave.PeerTable.{record_peer}
use pathweave.Router.Send.{Env}
use pathweave.Node.Store.{Node, drain_direct_for_peer, drain_routed_all}
use pathweave.Router.Send

-- The node with its `known_addrs`, a `HashSet`.
pub record KnownNode : Type 0 where
  pub node : Node
  pub known_addrs : List PeerAddress

-- The address goes into the set, and the announcement into the peer table.
unfoldable pub learn_peer : KnownNode → PeerId → PeerAnnouncement → KnownNode
learn_peer s peer_id announcement = record {
  node = record s.node {
    net = record s.node.net { peers = record_peer s.node.net.peers peer_id announcement };
  };
  known_addrs =
      if mem announcement.address s.known_addrs
      then s.known_addrs
      else s.known_addrs ++ announcement.address ∷ [];
}

-- `env n` is what the n-th call of `Router::send` meets, `at` what `Router::connect` meets.
module _ (hash : Bytes → Bytes) (env : ℕ → Env) (local_peer_id : PeerId) (store_ttl : ℕ) where
  -- Both drains, one after the other.
  unfoldable pub drain : KnownNode → ℕ → (PeerId → ℕ) → PeerId → KnownNode
  drain s now clock peer_id =
      let n = drain_direct_for_peer hash env local_peer_id store_ttl s.node now peer_id in
      record s { node = drain_routed_all hash env local_peer_id store_ttl n clock }

  unfoldable pub add_peer : KnownNode → ℕ → (PeerId → ℕ) → PeerId → PeerAnnouncement → KnownNode
  add_peer s now clock peer_id announcement =
      drain (learn_peer s peer_id announcement) now clock peer_id

  unfoldable pub connect :
      Env → KnownNode → ℕ → (PeerId → ℕ) → PeerAnnouncement → KnownNode × Result PeerId
  connect at s now clock announcement =
      let p = Send.connect hash at s.node.net (announcement ∷ []) in
      let s1 : KnownNode = record s { node = record s.node { net = p.net } } in
      elim p.result [
        | err e ↦ (s1, err e)
        | ok peer_id ↦ (add_peer s1 now clock peer_id announcement, ok peer_id)
      ]
