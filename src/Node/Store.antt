-- ===== src/Node/Store.antt =====
-- Sending and store-and-forward of node.rs (ADR 021): `send`, `send_routed`, `store_forward`,
-- `store_forward_routed`, `drain_direct_for_peer`, `drain_routed_all`. The lock on a queue is taken
-- and given back where the code does; what runs between is one call after the other.
pub mod Drain
pub mod Accounting
pub mod Within
pub mod Depth
pub mod Frames
use pathweave.Base.{
  ℕ, suc, ◌-◌, Bool, true, false, not, ◌||◌, List, [], ◌∷◌, ◌++◌, Option, none, some, ltb, leb,
  if◌then◌else◌, length, keep_if, ◌=?◌,
}
use pathweave.Base.Map
use pathweave.Base.Map.{Map}
use pathweave.Base.Map.Keys.{keys}
use pathweave.Types.{
  Bytes, PeerId, bytes_eq, no_transport_available, delivery_failed, Result, ok, err,
  PeerAnnouncement, store_failed,
}
use pathweave.PeerTable.{announcements}
use pathweave.Router.Dial.{Net, deliver}
use pathweave.Router.Send.{Env, emit}
use pathweave.Router.Send
use pathweave.Node.Dispatch.{max_ttl, routed_body, neighbors}

-- An entry of a queue: `(u64, Vec<u8>, Instant)`.
pub record Pending : Type 0 where
  pub message_id : ℕ
  pub app_payload : Bytes
  pub queued_at : ℕ

-- The router's state and the two queues, with the number of calls of `Router::send` so far.
pub record Node : Type 0 where
  pub net : Net
  pub pending_direct : Map PeerId (List Pending)
  pub pending_routed : Map PeerId (List Pending)
  pub sends : ℕ

abbrev pub is_ok : Result (Unit {0}) → Bool
is_ok (ok u) = true
is_ok (err e) = false

-- `event_tx.send(StoreFailed)`.
unfoldable pub fail : Node → PeerId → Node
fail s peer_id = record s { net = emit s.net (store_failed peer_id ∷ []) }

-- `entry(peer_id).or_default()`.
unfoldable pub queue : PeerId → Map PeerId (List Pending) → List Pending
queue peer_id store = elim (Map.get peer_id store) [ none ↦ [] | some entries ↦ entries ]

unfoldable pub is_at_depth : Option ℕ → List Pending → Bool
is_at_depth none entries = false
is_at_depth (some max) entries = leb max (length entries)

-- The push onto a queue, or `true` where it is full.
unfoldable pub enqueue :
    Option ℕ → PeerId → Pending → Map PeerId (List Pending) → Map PeerId (List Pending) × Bool
enqueue max_queue_depth peer_id entry store =
    let deque = queue peer_id store in
    if is_at_depth max_queue_depth deque
    then (Map.insert peer_id deque store, true)
    else (Map.insert peer_id (deque ++ entry ∷ []) store, false)

unfoldable pub queue_direct : Option ℕ → Node → PeerId → Pending → Node
queue_direct max_queue_depth s peer_id entry =
    let (store, full) = enqueue max_queue_depth peer_id entry s.pending_direct in
    let s1 : Node = record s { pending_direct = store } in if full then fail s1 peer_id else s1

unfoldable pub queue_routed : Option ℕ → Node → PeerId → Pending → Node
queue_routed max_queue_depth s peer_id entry =
    let (store, full) = enqueue max_queue_depth peer_id entry s.pending_routed in
    let s1 : Node = record s { pending_routed = store } in if full then fail s1 peer_id else s1

-- `now.saturating_duration_since(queued_at) > store_ttl`.
unfoldable pub expired : ℕ → ℕ → Pending → Bool
expired store_ttl now entry = ltb store_ttl (now - entry.queued_at)

-- What a drain does with the entries of a queue: the node after it, and the failures in order.
-- `reachable` says whether there is anybody to send to, and `deliver` sends.
unfoldable pub drain_entries :
    ℕ
    → ℕ
    → PeerId
    → Bool
    → (Pending → Node → Node × Bool)
    → List Pending
    → Node
    → Node × List Pending
drain_entries store_ttl now peer_id reachable deliver [] s = (s, [])
drain_entries store_ttl now peer_id reachable deliver (entry ∷ entries) s =
    elim (expired store_ttl now entry) [
      | true ↦ drain_entries store_ttl now peer_id reachable deliver entries (fail s peer_id)
      | false ↦ elim reachable [
        | false ↦
            let (s1, failures) = drain_entries store_ttl now peer_id reachable deliver entries s in
            (s1, entry ∷ failures)
        | true ↦ elim ((deliver entry s).1) [
          | true ↦ drain_entries store_ttl now peer_id reachable deliver entries (deliver entry s).0
          | false ↦
              let (s1, failures) =
                drain_entries store_ttl now peer_id reachable deliver entries (deliver entry s).0 in
              (s1, entry ∷ failures)
        ]
      ]
    ]

-- The failures go back to the front of the queue.
unfoldable pub put_back :
    PeerId → List Pending → Map PeerId (List Pending) → Map PeerId (List Pending)
put_back peer_id [] store = store
put_back peer_id (entry ∷ failures) store =
    Map.insert peer_id (entry ∷ failures ++ queue peer_id store) store

abbrev pub is_empty {ℓ} : {A : Type ℓ} → List A → Bool
is_empty [] = true
is_empty (x ∷ xs) = false

-- `env n` is what the n-th call of `Router::send` meets.
module _ (hash : Bytes → Bytes) (env : ℕ → Env) (local_peer_id : PeerId) where
  unfoldable pub router_send : Node → List PeerAnnouncement → Bytes → PeerId → ℕ → Node × Bool
  router_send s announcements body peer_id msg_id =
      let p = Send.send hash (env s.sends) body msg_id peer_id s.net announcements in
      (record s { net = p.net; sends = suc s.sends }, is_ok p.result)

  -- `for (neighbor_id, anns) in &neighbors`, with whether any send succeeded.
  unfoldable pub flood : List (PeerId × List PeerAnnouncement) → Bytes → ℕ → Node → Node × Bool
  flood [] body msg_id s = (s, false)
  flood ((neighbor_id, anns) ∷ neighbors) body msg_id s =
      let (s1, here) = router_send s anns body neighbor_id msg_id in
      let (s2, there) = flood neighbors body msg_id s1 in (s2, here || there)

  unfoldable pub other_peers : Node → List (PeerId × List PeerAnnouncement)
  other_peers s = keep_if (λ entry. not (entry.0 =? local_peer_id)) s.net.peers

  unfoldable pub routed_frame : PeerId → Bytes → Bytes
  routed_frame dest_peer_id payload = routed_body 0x01 dest_peer_id max_ttl payload

  -- `send`: the message id is new.
  unfoldable pub send : Node → ℕ → PeerId → Bytes → Node × Result (Unit {0})
  send s msg_id peer_id payload = elim (Map.get peer_id s.net.peers) [
    | none ↦ (s, err no_transport_available)
    | some announcements ↦
        let p = Send.send hash (env s.sends) (0x00 ∷ payload) msg_id peer_id s.net announcements in
        (record s { net = p.net; sends = suc s.sends }, p.result)
  ]

  unfoldable pub send_routed : Node → ℕ → PeerId → Bytes → Node × Result (Unit {0})
  send_routed s msg_id dest_peer_id payload = elim (other_peers s) [
    | [] ↦ (s, err no_transport_available)
    | neighbor ∷ neighbors ↦
        let (s1, any_ok) =
          flood (neighbor ∷ neighbors) (routed_frame dest_peer_id payload) msg_id s in
        (s1, if any_ok then ok tt else err delivery_failed)
  ]

  -- The attempt to send at once.
  unfoldable pub send_now : Node → ℕ → PeerId → Bytes → Node × Bool
  send_now s msg_id peer_id payload =
      let announced = announcements peer_id s.net.peers in
      if is_empty announced
      then (s, false)
      else router_send s announced (0x00 ∷ payload) peer_id msg_id

  module _ (max_queue_depth : Option ℕ) where
    unfoldable pub store_forward : Node → ℕ → ℕ → PeerId → Bytes → Node
    store_forward s now msg_id peer_id payload =
        let (s1, done) = send_now s msg_id peer_id payload in
        if done
        then s1
        else queue_direct max_queue_depth s1 peer_id
            (record { message_id = msg_id; app_payload = payload; queued_at = now })

    unfoldable pub store_forward_routed : Node → ℕ → ℕ → PeerId → Bytes → Node
    store_forward_routed s now msg_id dest_peer_id payload =
        let (s1, any_ok) = flood (other_peers s) (routed_frame dest_peer_id payload) msg_id s in
        if any_ok
        then s1
        else queue_routed max_queue_depth s1 dest_peer_id
            (record { message_id = msg_id; app_payload = payload; queued_at = now })

  module _ (store_ttl : ℕ) where
    unfoldable pub drain_direct_for_peer : Node → ℕ → PeerId → Node
    drain_direct_for_peer s now peer_id = elim (Map.get peer_id s.pending_direct) [
      | none ↦ s
      | some entries ↦
          let s1 : Node = record s { pending_direct = Map.remove peer_id s.pending_direct } in
          let announced = announcements peer_id s.net.peers in
          let (s2, failures) =
            drain_entries store_ttl now peer_id (not (is_empty announced))
              (λ entry s.
                router_send s announced (0x00 ∷ entry.app_payload) peer_id entry.message_id)
              entries s1 in
          record s2 { pending_direct = put_back peer_id failures s2.pending_direct }
    ]

    -- One destination of `drain_routed_all`.
    unfoldable pub drain_routed : Node → ℕ → PeerId → Node
    drain_routed s now dest_peer_id = elim (Map.get dest_peer_id s.pending_routed) [
      | none ↦ s
      | some entries ↦
          let s1 : Node = record s { pending_routed = Map.remove dest_peer_id s.pending_routed } in
          let neighbors = other_peers s in
          let (s2, failures) =
            drain_entries store_ttl now dest_peer_id (not (is_empty neighbors))
              (λ entry s.
                flood neighbors (routed_frame dest_peer_id entry.app_payload) entry.message_id s)
              entries s1 in
          record s2 { pending_routed = put_back dest_peer_id failures s2.pending_routed }
    ]

    -- `clock` gives the `Instant::now()` of each destination's turn.
    unfoldable pub drain_each : List PeerId → (PeerId → ℕ) → Node → Node
    drain_each [] clock s = s
    drain_each (dest_peer_id ∷ dests) clock s =
        drain_each dests clock (drain_routed s (clock dest_peer_id) dest_peer_id)

    unfoldable pub drain_routed_all : Node → (PeerId → ℕ) → Node
    drain_routed_all s clock = drain_each (keys s.pending_routed) clock s
