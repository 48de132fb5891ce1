-- ===== src/Node/Store/Within.antt =====
-- What keeps a queue within the depth `max_queue_depth`.
use pathweave.Base.{
  ℕ, ◌≤◌, Bool, not, ◌≡◌, refl, sym, ap, ◌∙◌, subst, List, [], ◌∷◌, ◌++◌, append-nil, some, arith,
  inl, inr, leb, Bool-cases, Option-cases, length, All, length-append,
}
use pathweave.Base.Map
use pathweave.Base.Map.{Map}
use pathweave.Base.Map.Keys.{insert-All, remove-All, get-All}
use pathweave.Types.{Bytes, PeerId, bytes_eq}
use pathweave.PeerTable.{announcements}
use pathweave.Router.Send.{Env}
use pathweave.Node.Store.{
  Pending, Node, router_send, send_now, is_empty, queue, is_at_depth, enqueue, fail, store_forward,
  drain_entries, put_back, drain_direct_for_peer, queue_direct,
}
use pathweave.Node.Store.Drain.{length-IsDrained, drain_entries-keeps, drain_entries-IsDrained}
use pathweave.Node.Store.Accounting.{router_send-delivers, queue-remove}

-- No queue is longer than `max`.
abbrev pub IsWithin : ℕ → Map PeerId (List Pending) → Type 0
IsWithin max store = All (λ entry. length entry.1 ≤ max) store

queue-IsWithin :
    (max : ℕ) (peer_id : PeerId) (store : Map PeerId (List Pending))
    → IsWithin max store
    → length (queue peer_id store) ≤ max
unfolding queue
queue-IsWithin max peer_id store h = elim (Option-cases (Map.get peer_id store)) [
  | inl missing ↦ ground (arith, missing)
  | inr (entries, found) ↦
      let fits = get-All (λ entry. length entry.1 ≤ max) peer_id store h found in
      ground (arith, found)
]

enqueue-IsWithin :
    (max : ℕ) (peer_id : PeerId) (entry : Pending) (store : Map PeerId (List Pending))
    → IsWithin max store
    → IsWithin max (enqueue (some max) peer_id entry store).0
unfolding enqueue is_at_depth
enqueue-IsWithin max peer_id entry store h =
    let deque = queue peer_id store in
    let fits = queue-IsWithin max peer_id store h in
    elim (Bool-cases (leb max (length deque))) [
      | inl full ↦ rw full (insert-All (λ entry. length entry.1 ≤ max) peer_id deque store fits h)
      | inr room ↦ rw room (
          insert-All (λ entry. length entry.1 ≤ max) peer_id (deque ++ entry ∷ []) store
            (let more = length-append deque (entry ∷ []) in ground arith) h)
    ]

put_back-IsWithin :
    (max : ℕ) (peer_id : PeerId) (failures : List Pending) (store : Map PeerId (List Pending))
    → length failures ≤ max
    → IsWithin max store
    → IsWithin max (put_back peer_id failures (Map.remove peer_id store))
unfolding put_back
put_back-IsWithin max peer_id [] store fits h =
    remove-All (λ entry. length entry.1 ≤ max) peer_id store h
put_back-IsWithin max peer_id (entry ∷ failures) store fits h =
    let alone : entry ∷ failures ++ queue peer_id (Map.remove peer_id store) ≡ entry ∷ failures =
      ap (λ q. entry ∷ failures ++ q) (queue-remove peer_id store)
      ∙ append-nil (entry ∷ failures) in
    rw alone (
      insert-All (λ entry. length entry.1 ≤ max) peer_id (entry ∷ failures)
        (Map.remove peer_id store) fits
        (remove-All (λ entry. length entry.1 ≤ max) peer_id store h))

module _ (hash : Bytes → Bytes) (env : ℕ → Env) (local_peer_id : PeerId) (max : ℕ) where
  send_now-pending :
      (s : Node) (msg_id : ℕ) (peer_id : PeerId) (payload : Bytes)
      → (send_now hash env local_peer_id s msg_id peer_id payload).0.pending_direct
        ≡ s.pending_direct
  unfolding send_now router_send
  send_now-pending s msg_id peer_id payload = ground arith

  queue_direct-IsWithin :
      (s : Node) (peer_id : PeerId) (entry : Pending)
      → IsWithin max s.pending_direct
      → IsWithin max (queue_direct (some max) s peer_id entry).pending_direct
  unfolding queue_direct fail
  queue_direct-IsWithin s peer_id entry h =
      let r = enqueue-IsWithin max peer_id entry s.pending_direct h in
      elim (Bool-cases (enqueue (some max) peer_id entry s.pending_direct).1) [
        | inl full ↦ rw full r
        | inr room ↦ rw room r
      ]

  -- If no direct queue is longer than the configured depth, none is after a `store_forward`,
  -- whatever becomes of the send.
  pub store_forward-IsWithin :
      (s : Node) (now msg_id : ℕ) (peer_id : PeerId) (payload : Bytes)
      → IsWithin max s.pending_direct
      → IsWithin max
          (store_forward hash env local_peer_id
            (some max)
            s
            now
            msg_id
            peer_id
            payload).pending_direct
  unfolding store_forward
  store_forward-IsWithin s now msg_id peer_id payload h =
      let tried = send_now hash env local_peer_id s msg_id peer_id payload in
      let same = subst (IsWithin max) (sym (send_now-pending s msg_id peer_id payload)) h in
      let queued =
        queue_direct-IsWithin tried.0 peer_id
          (record { message_id = msg_id; app_payload = payload; queued_at = now }) same in
      elim (Bool-cases tried.1) [ inl went ↦ rw went same | inr lost ↦ rw lost queued ]

  -- If no direct queue is longer than some length, none is after a drain of a peer's queue that
  -- no other call comes between.
  pub drain_direct-IsWithin :
      (store_ttl : ℕ) (s : Node) (now : ℕ) (peer_id : PeerId)
      → IsWithin max s.pending_direct
      → IsWithin max
          (drain_direct_for_peer hash env local_peer_id store_ttl s now peer_id).pending_direct
  unfolding drain_direct_for_peer fail router_send
  drain_direct-IsWithin store_ttl s now peer_id h =
      elim (Option-cases (Map.get peer_id s.pending_direct)) [
        | inl missing ↦ rw (missing, drain_direct_for_peer) h
        | inr (entries, found) ↦
            let announced = announcements peer_id s.net.peers in
            let s1 : Node = record s { pending_direct = Map.remove peer_id s.pending_direct } in
            let deliver : Pending → Node → Node × Bool = λ entry s.
              router_send hash env local_peer_id s announced (0x00 ∷ entry.app_payload) peer_id
                entry.message_id in
            let reachable = not (is_empty announced) in
            let drained = drain_entries store_ttl now peer_id reachable deliver entries s1 in
            let untouched =
              drain_entries-keeps store_ttl now peer_id reachable deliver
                (λ s2. s2.pending_direct ≡ Map.remove peer_id s.pending_direct) (λ s2 h. h)
                (λ entry s2 h. h) entries s1 refl in
            let (events, fired, d) =
              drain_entries-IsDrained store_ttl now peer_id reachable deliver
                (λ entry s2.
                  router_send-delivers hash env local_peer_id s2 announced
                    (0x00 ∷ entry.app_payload) peer_id entry.message_id)
                entries s1 in
            let shorter = length-IsDrained store_ttl now peer_id entries drained.1 events d in
            let fits = get-All (λ entry. length entry.1 ≤ max) peer_id s.pending_direct h found in
            rw (found, drain_direct_for_peer)
              (subst (λ q. IsWithin max (put_back peer_id drained.1 q)) (sym untouched)
                (put_back-IsWithin max peer_id drained.1 s.pending_direct (omega arith) h))
      ]
