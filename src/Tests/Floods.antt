-- ===== src/Tests/Floods.antt =====
-- Examples from one node to another: a direct message, a sealed one, and a key.
use pathweave.Base.{◌≡◌, refl, sym, ap, [], ◌∷◌, ◌++◌, map, none, some, arith, take, All}
use pathweave.Base.{nat_eq, list_eqb}
use pathweave.Base.Map
use pathweave.Base.Map.{Map}
use pathweave.Types.{Bytes, PublicKey, bytes_eq, Result, ok, err}
use pathweave.Types.{peer_id_from_public_key}
use pathweave.KeyRegistry
use pathweave.KeyRegistry.{insert_direct, get, is_full}
use pathweave.Bytes.{ret}
use pathweave.PeerTable.{upsert_peer_addresses}
use pathweave.Dedup.{check_and_insert, retain, check, check_and_insert_routed}
use pathweave.AddrExchange.Entry.{received}
use pathweave.Router.Dial.{
  try_send, in_session, register, deliver, acknowledged, learn_addresses, write, learned,
}
use pathweave.Node.Incoming.{Incoming, handle_incoming}
use pathweave.Node.Incoming.Direct.{carried, try_send-handle_incoming}
use pathweave.Tests.Data.{
  free_quic, identity_hash, open_all, peer, node, registry, net, answers, env, message,
}
use pathweave.Node.Dispatch.{NodeState}
use pathweave.Node.Store.{Node}
use pathweave.Node.Store.Frames.{IsMessage}
use pathweave.Node.Sealed.{send_routed_sealed}
use pathweave.Node.Sealed.Delivery.{Delivers, send_routed_sealed-Delivers}
use pathweave.Node.Events.{flood_key_announcement}
use pathweave.Node.Events.Gossip.{Teaches, flood_key_announcement-Teaches}

abbrev seal_all : PublicKey → Bytes → Result Bytes
seal_all key payload = ok payload

-- Peer 1 knows the keys of the nodes 9 and 2, and the addresses of the peers 2 and 3.
abbrev sender_node : Node
sender_node = record {
  net = record net {
    key_registry = record {
      entries = (peer 9, peer 9) ∷ (peer 2, peer 2) ∷ [];
      gossip_order = [];
      max_size = none;
    };
  };
  pending_direct = [];
  pending_routed = [];
  sends = 0;
}

send_routed_sealed-Delivers_example :
    All
      (IsMessage (Delivers identity_hash open_all node 10 (peer 2) (peer 1) message))
      (send_routed_sealed identity_hash seal_all
        (λ n. env (answers (peer 2)))
        (peer 1)
        sender_node
        7
        (peer 9)
        message).0.net.log
unfolding KeyRegistry.get Map.get list_eqb check_and_insert_routed check retain
send_routed_sealed-Delivers_example =
    send_routed_sealed-Delivers identity_hash seal_all (λ n. env (answers (peer 2))) (peer 1)
      sender_node 7 message open_all node 10 (peer 2) (peer 1) (peer 9) (omega arith) refl refl refl
      refl (λ plain sealed e. sym e) refl refl refl

-- Node 9 with room for more keys.
abbrev roomy : NodeState
roomy = record node { key_registry = record registry { max_size = some 5 } }

flood_key_announcement-Teaches_example :
    All
      (IsMessage (Teaches identity_hash open_all roomy 10 (peer 2) (peer 4) (peer 4)))
      (flood_key_announcement identity_hash
        (λ n. env (answers (peer 2)))
        (peer 1)
        sender_node
        7
        (peer 4)
        (peer 4)).net.log
unfolding peer_id_from_public_key is_full check_and_insert_routed check retain Map.get
flood_key_announcement-Teaches_example =
    flood_key_announcement-Teaches identity_hash (λ n. env (answers (peer 2))) (peer 1) sender_node
      7 (peer 4) (peer 4) open_all roomy 10 (peer 2) (omega arith) refl refl refl refl refl refl

admits : (k k' : PublicKey) → (answers (peer 5)).handshake (some k) ≡ ok k' → k' ≡ k
admits k k' e = sym (ap (λ r. elim r [ ok x ↦ x | err x ↦ k ]) e)

try_send-handle_incoming_example :
    (i : Incoming) × (handle_incoming identity_hash open_all node [] (ok (peer 1)) (
        carried 10
          (try_send identity_hash sender_node.net
            (answers (peer 5))
            free_quic
            (0x00 ∷ message)
            7
            (peer 9)).0.log)
      ≡ ret i)
    × (i.node.delivered ≡ node.delivered ++ (peer 1, message) ∷ [])
    × (i.node.peers
        ≡ upsert_peer_addresses node.peers
            (peer 1)
            (map received (take 255 free_quic.local_addresses)))
    × (i.node.acks ≡ 1)
unfolding try_send in_session register deliver acknowledged learn_addresses write KeyRegistry.get
    KeyRegistry.insert_direct Map.get Map.insert list_eqb peer_id_from_public_key learned
    check_and_insert check retain
try_send-handle_incoming_example =
    try_send-handle_incoming identity_hash open_all sender_node.net (answers (peer 5)) free_quic
      message 7 node [] (peer 1) (peer 9) none 10 admits (refl, (refl, tt)) refl refl refl
      (omega arith) ((refl, omega arith), tt) refl refl
