-- ===== src/Node/Store/Accounting.antt =====
-- No stored message is lost without an event, and the order of a queue is kept.
use pathweave.Base.{
  ℕ, ◌+◌, Bool, true, false, not, ◌≡◌, ◌⊎◌, refl, sym, ap, ◌∙◌, List, [], ◌∷◌, ◌++◌, append-nil,
  Option, none, some, arith, inl, inr, Bool-cases, Option-cases, length, length-append, eqb_refl,
}
use pathweave.Base.Map
use pathweave.Base.Map.{Map, get-insert, get-remove}
use pathweave.Types.{
  TransportEvent, Bytes, PeerId, PublicKey, bytes_eq, TransportKind, PeerAnnouncement, store_failed,
}
use pathweave.PeerTable.{announcements}
use pathweave.Router.Send.{Env, emit}
use pathweave.Node.Store.{
  is_empty, Pending, Node, router_send, queue, fail, drain_entries, put_back, drain_direct_for_peer,
  is_at_depth, enqueue, store_forward, queue_direct, send_now,
}
use pathweave.Router.Send.Outcome.{send-Ends, told}
use pathweave.Node.Store.Drain.{
  IsDrained, settled, settled-append, settled_by, one_if, drain_entries-keeps,
  drain_entries-IsDrained, settled-IsDrained, settled-told,
}

pub queue-remove :
    (peer_id : PeerId) (store : Map PeerId (List Pending))
    → queue peer_id (Map.remove peer_id store) ≡ []
unfolding queue
queue-remove peer_id store = ground (arith, get-remove peer_id peer_id store, eqb_refl peer_id)

pub queue-insert :
    (peer_id : PeerId) (q : List Pending) (store : Map PeerId (List Pending))
    → queue peer_id (Map.insert peer_id q store) ≡ q
unfolding queue
queue-insert peer_id q store = ground (arith, get-insert peer_id peer_id q store, eqb_refl peer_id)

-- A queue behind a removal and a put back.
put_back-queue :
    (peer_id : PeerId) (failures : List Pending) (store : Map PeerId (List Pending))
    → queue peer_id (put_back peer_id failures (Map.remove peer_id store)) ≡ failures
unfolding put_back
put_back-queue peer_id [] store = queue-remove peer_id store
put_back-queue peer_id (entry ∷ failures) store =
    queue-insert peer_id (entry ∷ failures ++ queue peer_id (Map.remove peer_id store))
      (Map.remove peer_id store)
    ∙ ap (λ q. entry ∷ failures ++ q) (queue-remove peer_id store)
    ∙ append-nil (entry ∷ failures)

module _ (hash : Bytes → Bytes) (env : ℕ → Env) (local_peer_id : PeerId) where
  -- A send fires the events of one delivery if it succeeds, and none if it fails.
  pub router_send-delivers :
      (s : Node) (announced : List PeerAnnouncement) (body : Bytes) (peer_id : PeerId) (msg_id : ℕ)
      → let sent = router_send hash env local_peer_id s announced body peer_id msg_id in
        ((sent.1 ≡ true)
          × ((k : TransportKind) × (key : PublicKey) × (before : Option PublicKey)
              × (sent.0.net.events ≡ s.net.events ++ told peer_id k key before)))
        ⊎ ((sent.1 ≡ false) × (sent.0.net.events ≡ s.net.events))
  unfolding router_send
  router_send-delivers s announced body peer_id msg_id =
      elim (send-Ends hash (env s.sends) body msg_id peer_id announced s.net) [
        | inl (done, (t, ann, rest, j, m, key, f, d, shown, events), lt, le) ↦
            inl (rw done refl, (t.kind_of, key, _, events))
        | inr (inl (done, events, d)) ↦ inr (rw done refl, events)
        | inr (inr (done, events, d)) ↦ inr (rw done refl, events)
      ]

  -- A send fires one event that settles a message if it succeeds, and none if it fails.
  router_send-settled :
      (s : Node) (announced : List PeerAnnouncement) (body : Bytes) (peer_id : PeerId) (msg_id : ℕ)
      → settled_by (router_send hash env local_peer_id s announced body peer_id msg_id).0
        ≡ settled_by s
          + one_if (router_send hash env local_peer_id s announced body peer_id msg_id).1
  router_send-settled s announced body peer_id msg_id =
      elim (router_send-delivers s announced body peer_id msg_id) [
        | inl (went, (k, key, before, events)) ↦ rw went (
            ap settled events
            ∙ settled-append s.net.events (told peer_id k key before)
            ∙ ap (λ k. settled_by s + k) (settled-told peer_id k key before))
        | inr (lost, events) ↦ rw lost (ap settled events ∙ omega arith)
      ]

  module _ (store_ttl : ℕ) (s : Node) (now : ℕ) (peer_id : PeerId) where
    -- How a drain leaves a queue and the events.
    abbrev Leaves : List Pending → Node → Type 0
    Leaves entries after =
        (events : List TransportEvent) × (after.net.events ≡ s.net.events ++ events)
        × IsDrained store_ttl now peer_id entries (queue peer_id after.pending_direct) events

    drain_direct_known :
        (entries : List Pending)
        → Map.get peer_id s.pending_direct ≡ some entries
        → Leaves entries (drain_direct_for_peer hash env local_peer_id store_ttl s now peer_id)
    unfolding drain_direct_for_peer fail router_send
    drain_direct_known entries found =
        let announced = announcements peer_id s.net.peers in
        let s1 : Node = record s { pending_direct = Map.remove peer_id s.pending_direct } in
        let deliver : Pending → Node → Node × Bool = λ entry s.
          router_send hash env local_peer_id s announced (0x00 ∷ entry.app_payload) peer_id
            entry.message_id in
        let reachable = not (is_empty announced) in
        let drained = drain_entries store_ttl now peer_id reachable deliver entries s1 in
        let untouched =
          drain_entries-keeps store_ttl now peer_id reachable deliver
            (λ s2. s2.pending_direct ≡ Map.remove peer_id s.pending_direct) (λ s2 h. h)
            (λ entry s2 h. h) entries s1 refl in
        let left : queue peer_id (put_back peer_id drained.1 drained.0.pending_direct) ≡ drained.1 =
          ap (λ q. queue peer_id (put_back peer_id drained.1 q)) untouched
          ∙ put_back-queue peer_id drained.1 s.pending_direct in
        let (events, fired, d) =
          drain_entries-IsDrained store_ttl now peer_id reachable deliver
            (λ entry s2.
              router_send-delivers s2 announced (0x00 ∷ entry.app_payload) peer_id entry.message_id)
            entries s1 in
        rw (found, drain_direct_for_peer, left) (events, fired, d)

    drain_direct_unknown :
        Map.get peer_id s.pending_direct ≡ none
        → drain_direct_for_peer hash env local_peer_id store_ttl s now peer_id ≡ s
    unfolding drain_direct_for_peer
    drain_direct_unknown missing = ground (arith, missing)

  drain_direct-Leaves :
      (store_ttl : ℕ) (s : Node) (now : ℕ) (peer_id : PeerId)
      → Leaves store_ttl s now peer_id
          (queue peer_id s.pending_direct)
          (drain_direct_for_peer hash env local_peer_id store_ttl s now peer_id)
  drain_direct-Leaves store_ttl s now peer_id =
      elim (Option-cases (Map.get peer_id s.pending_direct)) [
        | inl missing ↦
            let empty : queue peer_id s.pending_direct ≡ [] =
              unfold queue in ground (arith, missing) in
            rw (drain_direct_unknown store_ttl s now peer_id missing, empty)
              ([], sym (append-nil s.net.events), IsDrained.done)
        | inr (entries, found) ↦
            let all : queue peer_id s.pending_direct ≡ entries =
              unfold queue in ground (arith, found) in
            rw all (drain_direct_known store_ttl s now peer_id entries found)
      ]

  -- A drain of a peer's direct queue accounts for each of its entries. In the order of the queue: one
  -- that has waited longer than `store_ttl` is dropped and fires `StoreFailed`; any other is
  -- delivered, and fires the events of one delivery, or stays; nothing else is fired, and those that
  -- stay keep their order. So the events that settle a message and the entries in the queue are
  -- together as many after the drain as before.
  pub drain_direct-settled :
      (store_ttl : ℕ) (s : Node) (now : ℕ) (peer_id : PeerId)
      → let after = drain_direct_for_peer hash env local_peer_id store_ttl s now peer_id in
        (settled_by after + length (queue peer_id after.pending_direct)
          ≡ settled_by s + length (queue peer_id s.pending_direct))
        × ((events : List TransportEvent) × (after.net.events ≡ s.net.events ++ events)
            × IsDrained store_ttl now peer_id
                (queue peer_id s.pending_direct)
                (queue peer_id after.pending_direct)
                events)
  drain_direct-settled store_ttl s now peer_id =
      let after = drain_direct_for_peer hash env local_peer_id store_ttl s now peer_id in
      let before = queue peer_id s.pending_direct in
      let left = queue peer_id after.pending_direct in
      let (events, fired, d) = drain_direct-Leaves store_ttl s now peer_id in
      let all = settled-IsDrained store_ttl now peer_id before left events d in
      let counted = ap settled fired ∙ settled-append s.net.events events in
      (omega arith, (events, fired, d))

  queue_direct-settled :
      (max_queue_depth : Option ℕ) (s : Node) (peer_id : PeerId) (entry : Pending)
      → settled_by (queue_direct max_queue_depth s peer_id entry)
          + length (queue peer_id (queue_direct max_queue_depth s peer_id entry).pending_direct)
        ≡ settled_by s + length (queue peer_id s.pending_direct) + 1
  unfolding queue_direct enqueue fail emit
  queue_direct-settled max_queue_depth s peer_id entry =
      let deque = queue peer_id s.pending_direct in
      elim (Bool-cases (is_at_depth max_queue_depth deque)) [
        | inl full ↦
            rw (full, queue-insert peer_id deque s.pending_direct)
              (let one = settled-append s.net.events (store_failed peer_id ∷ []) in
                let counted : settled (store_failed peer_id ∷ []) ≡ 1 = unfold settled in refl in
                omega arith)
        | inr room ↦
            rw (room, queue-insert peer_id (deque ++ entry ∷ []) s.pending_direct)
              (omega (arith, length-append deque (entry ∷ [])))
      ]

  send_now-settled :
      (s : Node) (msg_id : ℕ) (peer_id : PeerId) (payload : Bytes)
      → (settled_by (send_now hash env local_peer_id s msg_id peer_id payload).0
          ≡ settled_by s + one_if (send_now hash env local_peer_id s msg_id peer_id payload).1)
        × ((send_now hash env local_peer_id s msg_id peer_id payload).0.pending_direct
            ≡ s.pending_direct)
  unfolding send_now router_send
  send_now-settled s msg_id peer_id payload =
      let announced = announcements peer_id s.net.peers in
      elim (Bool-cases (is_empty announced)) [
        | inl nobody ↦ rw nobody (omega arith, refl)
        | inr somebody ↦
            rw somebody (router_send-settled s announced (0x00 ∷ payload) peer_id msg_id, refl)
      ]

  -- A `store_forward` accounts for its message: the events that settle a message, delivered or
  -- failed, and the entries in the direct queue of the peer are together exactly one more after
  -- it.
  pub store_forward-settled :
      (max_queue_depth : Option ℕ) (s : Node) (now msg_id : ℕ) (peer_id : PeerId) (payload : Bytes)
      → settled_by
            (store_forward hash env local_peer_id max_queue_depth s now msg_id peer_id payload)
          + length (
              queue peer_id
                (store_forward hash env local_peer_id max_queue_depth s now msg_id peer_id
                  payload).pending_direct)
        ≡ settled_by s + length (queue peer_id s.pending_direct) + 1
  unfolding store_forward
  store_forward-settled max_queue_depth s now msg_id peer_id payload =
      let tried = send_now hash env local_peer_id s msg_id peer_id payload in
      let (count, same) = send_now-settled s msg_id peer_id payload in
      let unchanged = ap (λ store. length (queue peer_id store)) same in
      let entry : Pending = record {
        message_id = msg_id;
        app_payload = payload;
        queued_at = now;
      } in
      let queued = queue_direct-settled max_queue_depth tried.0 peer_id entry in
      elim (Bool-cases tried.1) [
        | inl went ↦ rw went (let one = ap one_if went in omega arith)
        | inr lost ↦ rw lost (let none_sent = ap one_if lost in omega arith)
      ]
