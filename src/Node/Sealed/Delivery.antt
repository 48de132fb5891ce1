-- ===== src/Node/Sealed/Delivery.antt =====
-- A sealed message from end to end.
use pathweave.Base.{
  ℕ, ◌^◌, ◌<◌, min, true, false, ◌≡◌, refl, ap, ◌∙◌, [], ◌∷◌, ◌++◌, some, arith, inl, inr,
  List-cases, length, All,
}
use pathweave.Types.{Bytes, PeerId, PublicKey, bytes_eq, Result, ok, Result-cases}
use pathweave.Bytes.{ret}
use pathweave.KeyRegistry.{get}
use pathweave.Dedup.{check_and_insert_routed}
use pathweave.Router.Dial.{framed}
use pathweave.Router.Send.{Env}
use pathweave.Node.Dispatch.{
  max_ttl, NodeState, on_message, send_ack, dispatch_payload, open_sealed, neighbors,
}
use pathweave.Node.Dispatch.Delivery.{dispatch_payload-framed_sealed}
use pathweave.Node.Dispatch.Once.{route_home, once_routed_fresh}
use pathweave.Node.Store.{Node, other_peers}
use pathweave.Node.Store.Frames.{IsMessage, flood-IsMessage}
use pathweave.Node.Sealed.{envelope, sealed_body, send_routed_sealed}

-- `b` handles the message without a panic, and hands the payload of `from_peer` to its
-- application; it relays nothing.
abbrev pub Delivers :
    (Bytes → Bytes)
    → (PeerId → PublicKey → Bytes → Result Bytes)
    → NodeState
    → ℕ
    → PeerId
    → PeerId
    → Bytes
    → Bytes
    → Type 0
Delivers hash unseal b now sender from_peer payload message =
    (b' : NodeState) × (dispatch_payload hash unseal b now sender message ≡ ret b')
    × (b'.delivered ≡ b.delivered ++ (from_peer, payload) ∷ [])
    × (b'.relays ≡ b.relays)

module _ (hash : Bytes → Bytes) (unseal : PeerId → PublicKey → Bytes → Result Bytes) (b : NodeState)
    (now : ℕ) (sender : PeerId) (from_peer : PeerId) (key : PublicKey) (payload : Bytes)
    (msg_id : ℕ) where
  -- The destination opens what was sealed for it.
  sealed_body-Delivers :
      (sealed : Bytes)
      → msg_id < 2 ^ 64
      → length from_peer ≡ 32
      → length b.local_peer_id ≡ 32
      → get b.key_registry from_peer ≡ some key
      → unseal from_peer key sealed ≡ ok payload
      → b.has_handler ≡ true
      → (check_and_insert_routed b.dedup now msg_id).1 ≡ false
      → Delivers hash unseal b now sender from_peer payload
          (framed msg_id (sealed_body from_peer b.local_peer_id sealed))
  unfolding sealed_body envelope send_ack on_message open_sealed
  sealed_body-Delivers sealed w lf lb known opens handler fresh =
      let dest = b.local_peer_id in
      let b0 : NodeState = record b { dedup = (check_and_insert_routed b.dedup now msg_id).0 } in
      let here = open_sealed unseal from_peer sealed in
      let opened : here b0 ≡ on_message b0 from_peer payload =
        rw (open_sealed, known, opens) refl in
      (
        send_ack (on_message b0 from_peer payload),
        dispatch_payload-framed_sealed hash unseal b now sender msg_id max_ttl dest w lb from_peer
              sealed lf
            ∙ ap (λ r. ret (send_ack r))
                (route_home b now sender msg_id 0x03 dest (min max_ttl max_ttl)
                    (from_peer ++ sealed) here refl
                  ∙ once_routed_fresh b now msg_id here fresh
                  ∙ opened),
        ground arith,
        ground arith,
      )

-- A node A seals a payload for B, whose key it knows, and floods it. If B knows the key of A and
-- the Noise library opens with it what A sealed for B, then everything that A hands to its sessions
-- meanwhile, whatever becomes of the dials and retries, is an address exchange or a frame that B,
-- which has a handler and has not seen the 64-bit message id, hands to its application as A's
-- payload, no matter from which peer it gets it.
pub send_routed_sealed-Delivers :
    (hash : Bytes → Bytes) (seal : PublicKey → Bytes → Result Bytes) (env : ℕ → Env)
    (local_peer_id : PeerId) (s : Node) (msg_id : ℕ) (payload : Bytes)
    (unseal : PeerId → PublicKey → Bytes → Result Bytes) (b : NodeState) (now : ℕ) (sender : PeerId)
    (key_a key_b : PublicKey)
    → msg_id < 2 ^ 64
    → length local_peer_id ≡ 32
    → length b.local_peer_id ≡ 32
    → get s.net.key_registry b.local_peer_id ≡ some key_b
    → get b.key_registry local_peer_id ≡ some key_a
    → ((plain sealed : Bytes)
        → seal key_b plain ≡ ok sealed
        → unseal local_peer_id key_a sealed ≡ ok plain)
    → b.has_handler ≡ true
    → (check_and_insert_routed b.dedup now msg_id).1 ≡ false
    → s.net.log ≡ []
    → All
        (IsMessage (Delivers hash unseal b now sender local_peer_id payload))
        (send_routed_sealed hash seal env local_peer_id s msg_id b.local_peer_id payload).0.net.log
unfolding send_routed_sealed
send_routed_sealed-Delivers hash seal env local_peer_id s msg_id payload unseal b now sender key_a
      key_b w la lb knows_b knows_a opens handler fresh empty =
    let Good = Delivers hash unseal b now sender local_peer_id payload in
    let none_yet : All (IsMessage Good) s.net.log = rw empty tt in
    elim (Result-cases (seal key_b payload)) [
      | inl (e, f) ↦ rw (send_routed_sealed, knows_b, f) none_yet
      | inr (sealed, f) ↦ elim (List-cases (other_peers hash env local_peer_id s)) [
        | inl alone ↦ rw (send_routed_sealed, knows_b, f, alone) none_yet
        | inr (neighbor, neighbors, more) ↦
            rw (send_routed_sealed, knows_b, f, more)
              (flood-IsMessage hash env local_peer_id (neighbor ∷ neighbors)
                (sealed_body local_peer_id b.local_peer_id sealed) msg_id s Good empty
                (sealed_body-Delivers hash unseal b now sender local_peer_id key_a payload msg_id
                  sealed w la lb knows_a (opens payload sealed f) handler fresh))
      ]
    ]
