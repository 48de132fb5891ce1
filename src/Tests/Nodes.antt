-- ===== src/Tests/Nodes.antt =====
-- Examples on a node that dispatches frames and stores messages.
use pathweave.Base.{
  ◌+◌, ◌-◌, ◌≤◌, min, not, ◌&&◌, ◌≡◌, ◌≢◌, refl, ap, List, [], ◌∷◌, ◌++◌, map, some, arith, length,
  keep_if, ◌=?◌, list_eqb,
}
use pathweave.Base.Map
use pathweave.Base.Map.{Map}
use pathweave.Types.{
  TransportEvent, peer_id_from_public_key, Bytes, PeerId, bytes_eq, PeerAddress-eq,
}
use pathweave.Bytes.{ret, index, slice, to_be_bytes, from_be_bytes}
use pathweave.Dedup.{retain, check, check_and_insert_routed}
use pathweave.Tests.Data.{
  identity_hash, open_all, peer, announced, table, at_home, node, answers, silent, env, store_node,
  message,
}
use pathweave.KeyRegistry.Certified.{IsCertified}
use pathweave.Node.Dispatch.{
  max_ttl, Relay, NodeState, neighbors, spawn_relay_to_neighbors, once_routed, routed_body, route,
  dispatch_routed, dispatch_flag, send_ack, dispatch_payload,
}
use pathweave.KeyAnnouncement.{encode_key_announcement}
use pathweave.Router.Dial.{framed}
use pathweave.Node.Dispatch.Registry.{dispatch_payload-IsCertified}
use pathweave.Node.Dispatch.Hops.{hops_left, Travels, start, hop, Travels-bound}
use pathweave.Node.Dispatch.Once.{dispatch_payload-delivers_once, dispatch_payload-passes_on_once}
use pathweave.Node.Store.{
  Node, drain_entries, router_send, queue_direct, is_empty, Pending, queue, store_forward, put_back,
  drain_direct_for_peer,
}
use pathweave.Router.{any_available}
use pathweave.Router.Send
use pathweave.Router.Send.{Env, send}
use pathweave.PeerTable.{announcements}
use pathweave.Node.Store.Drain.{IsDrained, settled_by}
use pathweave.Node.Store.Accounting.{drain_direct-settled, store_forward-settled}
use pathweave.Node.Store.Depth.{put_back-exceeds}

abbrev announcement : Bytes
announcement = framed 6 (encode_key_announcement (peer 3) (peer 3) 255)

abbrev routed : PeerId → Bytes
routed dest = framed 6 (routed_body 0x01 dest 255 message)

other : peer 4 ≢ peer 9
unfolding list_eqb
other e = cc (ap (λ p. p =? peer 9) e)

dispatch_payload-IsCertified_example :
    (s' : NodeState) × (dispatch_payload identity_hash open_all node 3 (peer 2) announcement
      ≡ ret s')
    × IsCertified identity_hash s'.key_registry
    × (s'.acks ≡ 1)
unfolding peer_id_from_public_key
dispatch_payload-IsCertified_example =
    dispatch_payload-IsCertified identity_hash open_all node 3 (peer 2) announcement
      (refl, (refl, tt))

dispatch_payload-delivers_once_example :
    (s1 s2 : NodeState) × (dispatch_payload identity_hash open_all node 3 (peer 2) (routed (peer 9))
      ≡ ret s1)
    × (dispatch_payload identity_hash open_all s1 4
          (peer 3)
          (framed 6 (routed_body 0x01 (peer 9) 2 message))
        ≡ ret s2)
    × (s2.delivered ≡ [] ++ (peer 2, message) ∷ [])
    × (s2.relays ≡ [])
unfolding check_and_insert_routed check retain Map.get
dispatch_payload-delivers_once_example =
    dispatch_payload-delivers_once identity_hash open_all node 3 4 (peer 2) (peer 3) 6 255 2 message
      message (omega arith) refl refl refl (omega arith) (omega arith)

dispatch_payload-passes_on_once_example :
    (s1 s2 : NodeState) × (dispatch_payload identity_hash open_all node 3 (peer 2) (routed (peer 4))
      ≡ ret s1)
    × (dispatch_payload identity_hash open_all s1 4
          (peer 3)
          (framed 6 (routed_body 0x01 (peer 4) 2 message))
        ≡ ret s2)
    × (s2.relays
        ≡ []
          ++ map
              (λ entry. record {
                to_peer = entry.0;
                announced = entry.1;
                message_id = 6;
                body = routed_body 0x01 (peer 4) (min 255 max_ttl - 1) message;
              })
              (keep_if (λ entry. not (entry.0 =? peer 2) && not (entry.0 =? peer 9)) table))
    × (s2.delivered ≡ [])
unfolding check_and_insert_routed check retain Map.get
dispatch_payload-passes_on_once_example =
    dispatch_payload-passes_on_once identity_hash open_all node 3 4 (peer 2) (peer 3) (peer 4) 6 255
      2 message message (omega arith) refl other (omega arith) (omega arith) refl (omega arith)
      (omega arith)

-- The frame for peer 4, relayed once by node 9 to peer 3.
abbrev relay : Relay
relay = record {
  to_peer = peer 3;
  announced = announced at_home ∷ [];
  message_id = 6;
  body = routed_body 0x01 (peer 4) 6 message;
}

abbrev first_hop : NodeState
first_hop = record node {
  dedup = record node.dedup { seen_routed = (6, 3) ∷ [] };
  relays = relay ∷ [];
  acks = 1;
}

one_hop : Travels identity_hash open_all 1 (framed 6 (routed_body 0x01 (peer 4) 6 message))
unfolding dispatch_payload dispatch_flag dispatch_routed route once_routed check_and_insert_routed
    check retain Map.get Map.insert spawn_relay_to_neighbors neighbors send_ack framed routed_body
    index slice to_be_bytes from_be_bytes list_eqb
one_hop = hop node first_hop 3 (peer 2) [] [] relay (start (routed (peer 4))) refl refl refl

Travels-bound_example : 1 + hops_left (framed 6 (routed_body 0x01 (peer 4) 6 message)) ≤ max_ttl
Travels-bound_example =
    Travels-bound identity_hash open_all 1 (framed 6 (routed_body 0x01 (peer 4) 6 message)) one_hop

store_forward-settled_example :
    settled_by (
        store_forward identity_hash
          (λ n. env silent)
          (peer 9)
          (some 2)
          store_node
          6
          8
          (peer 2)
          message)
      + length (
          queue
            (peer 2)
            (store_forward identity_hash
              (λ n. env silent)
              (peer 9)
              (some 2)
              store_node
              6
              8
              (peer 2)
              message).pending_direct)
    ≡ settled_by store_node + length (queue (peer 2) store_node.pending_direct) + 1
store_forward-settled_example =
    store_forward-settled identity_hash (λ n. env silent) (peer 9) (some 2) store_node 6 8 (peer 2)
      message

drain_direct-settled_example :
    let after =
      drain_direct_for_peer identity_hash
        (λ n. env (answers (peer 5)))
        (peer 9)
        60
        store_node
        6
        (peer 2) in
    (settled_by after + length (queue (peer 2) after.pending_direct)
      ≡ settled_by store_node + length (queue (peer 2) store_node.pending_direct))
    × ((events : List TransportEvent) × (after.net.events ≡ store_node.net.events ++ events)
        × IsDrained 60 6
            (peer 2)
            (queue (peer 2) store_node.pending_direct)
            (queue (peer 2) after.pending_direct)
            events)
drain_direct-settled_example =
    drain_direct-settled identity_hash (λ n. env (answers (peer 5))) (peer 9) 60 store_node 6
      (peer 2)

abbrev waiting : Pending
waiting = record { message_id = 7; app_payload = message; queued_at = 5 }

-- All transports are down.
abbrev down : Env
down = record { at_start = []; at_attempt = λ n. []; answers = λ n. silent }

put_back-exceeds_example :
    let announced = announcements (peer 2) store_node.net.peers in
    let taken : Node = record store_node {
      pending_direct = Map.remove (peer 2) store_node.pending_direct;
    } in
    let drained =
      drain_entries 60 6
        (peer 2)
        (not (is_empty announced))
        (λ entry t.
          router_send identity_hash
            (λ n. down)
            (peer 9)
            t
            announced
            (0x00 ∷ entry.app_payload)
            (peer 2)
            entry.message_id)
        (waiting ∷ [])
        taken in
    let stored = queue_direct (some 1) drained.0 (peer 2) waiting in
    let after = queue (peer 2) (put_back (peer 2) drained.1 stored.pending_direct) in
    (drain_direct_for_peer identity_hash (λ n. down) (peer 9) 60 store_node 6 (peer 2)
      ≡ record drained.0 { pending_direct = put_back (peer 2) drained.1 drained.0.pending_direct })
    × (after ≡ (waiting ∷ []) ++ waiting ∷ [])
    × (length after ≡ 2)
unfolding Map.get list_eqb Send.send router_send any_available
put_back-exceeds_example =
    put_back-exceeds identity_hash (λ n. down) (peer 9) 1 60 6 store_node (peer 2) (waiting ∷ [])
      waiting (omega arith) refl refl (omega arith, tt) (λ entry t. refl)
