-- ===== src/Node/Sealed.antt =====
-- `send_routed_sealed` of node.rs: a payload that only its destination can read (ADR 023).
pub mod Delivery
use pathweave.Base.{ℕ, [], ◌∷◌, ◌++◌, none, some, if◌then◌else◌}
use pathweave.Types.{
  Bytes, PeerId, PublicKey, bytes_eq, no_transport_available, delivery_failed, key_unknown, Result,
  ok, err,
}
use pathweave.KeyRegistry
use pathweave.Router.Send.{Env}
use pathweave.Node.Dispatch.{max_ttl, routed_body, neighbors}
use pathweave.Node.Store.{Node, flood, other_peers}

-- The sender, then the sealed message.
unfoldable pub envelope : PeerId → Bytes → Bytes
envelope local_peer_id sealed = local_peer_id ++ sealed

unfoldable pub sealed_body : PeerId → PeerId → Bytes → Bytes
sealed_body local_peer_id dest_peer_id sealed =
    routed_body 0x03 dest_peer_id max_ttl (envelope local_peer_id sealed)

-- `seal` stands for `session::seal` with the node's identity. `env n` is what the n-th call of
-- `Router::send` meets; the message id is new.
module _ (hash : Bytes → Bytes) (seal : PublicKey → Bytes → Result Bytes) (env : ℕ → Env)
    (local_peer_id : PeerId) where
  unfoldable pub send_routed_sealed : Node → ℕ → PeerId → Bytes → Node × Result (Unit {0})
  send_routed_sealed s msg_id dest_peer_id payload =
      elim (KeyRegistry.get s.net.key_registry dest_peer_id) [
        | none ↦ (s, err (key_unknown dest_peer_id))
        | some dest_public_key ↦ elim (seal dest_public_key payload) [
          | err e ↦ (s, err e)
          | ok sealed ↦ elim (other_peers hash env local_peer_id s) [
            | [] ↦ (s, err no_transport_available)
            | neighbor ∷ neighbors ↦
                let (s1, any_ok) =
                  flood hash env local_peer_id (neighbor ∷ neighbors)
                    (sealed_body local_peer_id dest_peer_id sealed) msg_id s in
                (s1, if any_ok then ok tt else err delivery_failed)
          ]
        ]
      ]
