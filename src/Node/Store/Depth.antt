-- ===== src/Node/Store/Depth.antt =====
-- When a queue gets longer than its depth, `max_queue_depth`.
use pathweave.Base.{
  ℕ, suc, ◌-◌, ◌≤◌, ◌<◌, Bool, false, not, ◌≡◌, refl, ap, ap₂, ◌∙◌, List, [], ◌∷◌, ◌++◌, some,
  arith, inl, inr, leb, Bool-cases, length, All, length-append,
}
use pathweave.Base.Map
use pathweave.Base.Map.{Map}
use pathweave.Types.{Bytes, PeerId, bytes_eq}
use pathweave.PeerTable.{announcements}
use pathweave.Router.Send.{Env}
use pathweave.Node.Store.{
  expired, Pending, Node, router_send, is_empty, queue, is_at_depth, enqueue, fail, drain_entries,
  put_back, drain_direct_for_peer, queue_direct,
}
use pathweave.Node.Store.Drain.{drain_entries-keeps}
use pathweave.Node.Store.Accounting.{queue-remove, queue-insert}

-- An entry that has waited no longer than `store_ttl` and cannot be sent stays.
drain_entries-unsent :
    (store_ttl now : ℕ) (peer_id : PeerId) (reachable : Bool)
    (deliver : Pending → Node → Node × Bool)
    → ((entry : Pending) (s : Node) → (deliver entry s).1 ≡ false)
    → (entries : List Pending) (s : Node) → All (λ entry. now - entry.queued_at ≤ store_ttl) entries
    → (drain_entries store_ttl now peer_id reachable deliver entries s).1 ≡ entries
unfolding drain_entries expired
drain_entries-unsent store_ttl now peer_id reachable deliver lost [] s young = refl
drain_entries-unsent store_ttl now peer_id reachable deliver lost (entry ∷ entries) s young =
    let live : expired store_ttl now entry ≡ false = let y = young.0 in ground arith in
    let go = drain_entries-unsent store_ttl now peer_id reachable deliver lost entries in
    elim (Bool-cases reachable) [
      | inr nobody ↦ rw (live, nobody, drain_entries) (ap (λ l. entry ∷ l) (go s young.1))
      | inl up ↦
          rw (live, up, lost entry s, drain_entries)
            (ap (λ l. entry ∷ l) (go (deliver entry s).0 young.1))
    ]

-- What is put back stands in front of what the queue holds.
queue-put_back :
    (peer_id : PeerId) (failures : List Pending) (store : Map PeerId (List Pending))
    → queue peer_id (put_back peer_id failures store) ≡ failures ++ queue peer_id store
unfolding put_back
queue-put_back peer_id [] store = refl
queue-put_back peer_id (entry ∷ failures) store =
    queue-insert peer_id (entry ∷ failures ++ queue peer_id store) store

-- A message is stored while the queue of its peer has been taken out.
queue_direct-alone :
    (max : ℕ) (peer_id : PeerId) (late : Pending) (s : Node) (store : Map PeerId (List Pending))
    → 0 < max
    → s.pending_direct ≡ Map.remove peer_id store
    → queue peer_id (queue_direct (some max) s peer_id late).pending_direct ≡ late ∷ []
unfolding queue_direct enqueue is_at_depth fail
queue_direct-alone max peer_id late s store pos e =
    let taken : queue peer_id s.pending_direct ≡ [] =
      ap (queue peer_id) e ∙ queue-remove peer_id store in
    let room : leb max 0 ≡ false = ground arith in
    rw (taken, room) (queue-insert peer_id (late ∷ []) s.pending_direct)

-- A drain of a peer's direct queue takes the queue out, handles its entries and puts back those that
-- it could not send, and holds no lock in between. With a depth of at least one, when the queue
-- was full, no entry has expired and none can be sent, and another task stores a message meanwhile:
-- the entries go back in front of it, in their order, and the queue is longer than its depth.
pub put_back-exceeds :
    (hash : Bytes → Bytes) (env : ℕ → Env) (local_peer_id : PeerId) (max store_ttl now : ℕ)
    (s : Node) (peer_id : PeerId) (entries : List Pending) (late : Pending)
    → 0 < max
    → Map.get peer_id s.pending_direct ≡ some entries
    → length entries ≡ max
    → All (λ entry. now - entry.queued_at ≤ store_ttl) entries
    → ((entry : Pending) (t : Node)
        → (router_send hash env local_peer_id t
            (announcements peer_id s.net.peers)
            (0x00 ∷ entry.app_payload)
            peer_id
            entry.message_id).1
          ≡ false)
    → let announced = announcements peer_id s.net.peers in
      let taken : Node = record s { pending_direct = Map.remove peer_id s.pending_direct } in
      let drained =
        drain_entries store_ttl now peer_id
          (not (is_empty announced))
          (λ entry t.
            router_send hash env local_peer_id t announced
              (0x00 ∷ entry.app_payload)
              peer_id
              entry.message_id)
          entries
          taken in
      let stored = queue_direct (some max) drained.0 peer_id late in
      let after = queue peer_id (put_back peer_id drained.1 stored.pending_direct) in
      (drain_direct_for_peer hash env local_peer_id store_ttl s now peer_id
        ≡ record drained.0 { pending_direct = put_back peer_id drained.1 drained.0.pending_direct })
      × (after ≡ entries ++ late ∷ [])
      × (length after ≡ suc max)
unfolding drain_direct_for_peer fail router_send
put_back-exceeds hash env local_peer_id max store_ttl now s peer_id entries late pos found full
      young lost =
    let announced = announcements peer_id s.net.peers in
    let reachable = not (is_empty announced) in
    let taken : Node = record s { pending_direct = Map.remove peer_id s.pending_direct } in
    let deliver : Pending → Node → Node × Bool = λ entry t.
      router_send hash env local_peer_id t announced (0x00 ∷ entry.app_payload) peer_id
        entry.message_id in
    let drained = drain_entries store_ttl now peer_id reachable deliver entries taken in
    let untouched =
      drain_entries-keeps store_ttl now peer_id reachable deliver
        (λ t. t.pending_direct ≡ Map.remove peer_id s.pending_direct) (λ t h. h) (λ entry t h. h)
        entries taken refl in
    let stored = queue_direct (some max) drained.0 peer_id late in
    let back : queue peer_id (put_back peer_id drained.1 stored.pending_direct)
        ≡ entries ++ late ∷ [] =
      queue-put_back peer_id drained.1 stored.pending_direct
      ∙ ap₂ (λ l r. l ++ r)
          (drain_entries-unsent store_ttl now peer_id reachable deliver lost entries taken young)
          (queue_direct-alone max peer_id late drained.0 s.pending_direct pos untouched) in
    (
      rw (found, drain_direct_for_peer) refl,
      back,
      ap length back ∙ length-append entries (late ∷ []) ∙ omega arith,
    )
