-- ===== src/Node/Dispatch/Registry.antt =====
-- What frames from the network can put into the key registry.
use pathweave.Base.{ℕ, suc, ◌≡◌, refl, ap, arith}
use pathweave.Types.{Bytes, PeerId, PublicKey, bytes_eq, Result}
use pathweave.Bytes.{ret}
use pathweave.KeyRegistry.Certified.{IsCertified, insert_gossip-IsCertified}
use pathweave.Node.Dispatch.{
  NodeState, on_message, spawn_relay_to_neighbors, send_ack, dispatch_payload,
}
use pathweave.Node.Dispatch.Effects.Payload.{dispatch_payload-keeps}

on_message-registry :
    (s : NodeState) (p : PeerId) (b : Bytes) → (on_message s p b).key_registry ≡ s.key_registry
unfolding on_message
on_message-registry s p b = ground arith

-- If every key in the registry belongs to its peer, then whatever bytes a peer sends, the node
-- handles them without a panic, answers one ACK, and every key in the registry still belongs to
-- its peer.
pub dispatch_payload-IsCertified :
    (hash : Bytes → Bytes) (unseal : PeerId → PublicKey → Bytes → Result Bytes) (s : NodeState)
    (now : ℕ) (sender : PeerId) (payload : Bytes)
    → IsCertified hash s.key_registry
    → (s' : NodeState) × (dispatch_payload hash unseal s now sender payload ≡ ret s')
      × IsCertified hash s'.key_registry
      × (s'.acks ≡ suc s.acks)
unfolding send_ack spawn_relay_to_neighbors on_message
dispatch_payload-IsCertified hash unseal s now sender payload c =
    let (s1, e, (c1, a)) =
      dispatch_payload-keeps hash unseal now sender payload
        {P = λ s1. IsCertified hash s1.key_registry × (s1.acks ≡ s.acks)}
        (record {
          seen = λ s1 cache h. h;
          handed = λ s1 p b h. (rw (on_message-registry s1 p b) h.0, ground arith);
          learned =
              λ s1 p k own h. (insert_gossip-IsCertified hash s1.key_registry p k h.0 own, h.1);
          relayed = λ s1 body msg_id r m h. h;
        })
        s (c, refl) in
    (send_ack s1, e, c1, ap suc a)
