-- ===== src/Node/Dispatch/Once.antt =====
-- Copies of a routed frame: it is delivered once at its destination, and passed on once elsewhere.
use pathweave.Base.{
  keep_if, not, ◌&&◌, nat_eq, ℕ, ◌+◌, ◌-◌, ◌^◌, ◌≤◌, ◌<◌, min, true, false, ◌≡◌, ◌≢◌, refl, ap, ◌∙◌,
  [], ◌∷◌, ◌++◌, map, arith, inl, inr, ◌==◌, Bool-cases, length, ◌=?◌, eqb_refl,
}
use pathweave.Types.{Bytes, PeerId, PublicKey, bytes_eq, Result}
use pathweave.Bytes.{ret}
use pathweave.Dedup.{DeduplicationCache, check_and_insert_routed}
use pathweave.Node.Dispatch.{
  max_ttl, NodeState, on_message, neighbors, spawn_relay_to_neighbors, once_routed, routed_body,
  route, send_ack, dispatch_payload,
}
use pathweave.Router.Dial.{framed}
use pathweave.Dedup.Repeat.{check-check}
use pathweave.Node.Dispatch.Delivery.{dispatch_payload-framed_routed}

module _ (s : NodeState) (now id : ℕ) (act : NodeState → NodeState) where
  pub once_routed_fresh :
      (check_and_insert_routed s.dedup now id).1 ≡ false
      → once_routed s now id act
        ≡ act (record s { dedup = (check_and_insert_routed s.dedup now id).0 })
  unfolding once_routed
  once_routed_fresh h = rw h refl

  once_routed_copy :
      (check_and_insert_routed s.dedup now id).1 ≡ true
      → once_routed s now id act ≡ record s { dedup = (check_and_insert_routed s.dedup now id).0 }
  unfolding once_routed
  once_routed_copy h = rw h refl

routed_copy :
    (c : DeduplicationCache) (now later id : ℕ)
    → now ≤ later
    → later < now + c.ttl
    → (check_and_insert_routed c now id).1 ≡ false
    → (check_and_insert_routed (check_and_insert_routed c now id).0 later id).1 ≡ true
unfolding check_and_insert_routed
routed_copy c now later id le lt fresh = check-check c.ttl now later id c.seen_routed le lt fresh

module _ (s : NodeState) (now : ℕ) (sender : PeerId) (id flag : ℕ) (dest : PeerId) (ttl : ℕ)
    (rest : Bytes) (here : NodeState → NodeState) where
  pub route_home :
      dest ≡ s.local_peer_id
      → route s now sender id flag dest ttl rest here ≡ once_routed s now id here
  unfolding route
  route_home e = rw (ap (λ p. p =? s.local_peer_id) e ∙ eqb_refl s.local_peer_id) refl

  route_on :
      (dest =? s.local_peer_id) ≡ false
      → 0 < ttl
      → route s now sender id flag dest ttl rest here
        ≡ once_routed s now id
            λ s1. spawn_relay_to_neighbors s1 (routed_body flag dest (ttl - 1) rest) id sender
  unfolding route
  route_on e pos = let z : (ttl == 0) ≡ false = ground arith in rw (e, z) refl

module _ (hash : Bytes → Bytes) (unseal : PeerId → PublicKey → Bytes → Result Bytes) where
  -- On a node with a handler and a 32-byte id, a routed frame for this node, under a 64-bit
  -- message id that is no duplicate, reaches the application, from the peer that handed it over
  -- and in full. A copy of it from whichever peer, with whatever hop count and content, that
  -- comes next and before the cache's time to live has passed, does not. Neither is relayed.
  pub dispatch_payload-delivers_once :
      (s : NodeState) (now later : ℕ) (sender sender' : PeerId) (id ttl ttl' : ℕ)
      (content content' : Bytes)
      → id < 2 ^ 64
      → length s.local_peer_id ≡ 32
      → s.has_handler ≡ true
      → (check_and_insert_routed s.dedup now id).1 ≡ false
      → now ≤ later
      → later < now + s.dedup.ttl
      → (s1 s2 : NodeState) × (dispatch_payload hash unseal s now sender
            (framed id (routed_body 0x01 s.local_peer_id ttl content))
          ≡ ret s1)
        × (dispatch_payload hash unseal s1 later sender'
              (framed id (routed_body 0x01 s.local_peer_id ttl' content'))
            ≡ ret s2)
        × (s2.delivered ≡ s.delivered ++ (sender, content) ∷ [])
        × (s2.relays ≡ s.relays)
  unfolding send_ack on_message
  dispatch_payload-delivers_once s now later sender sender' id ttl ttl' content content' w hl
        handler fresh le lt =
      let dest = s.local_peer_id in
      let cache = (check_and_insert_routed s.dedup now id).0 in
      let s0 : NodeState = record s { dedup = cache } in
      let s1 : NodeState = send_ack (on_message s0 sender content) in
      let first =
        dispatch_payload-framed_routed hash unseal s now sender id ttl dest w hl content
        ∙ ap (λ r. ret (send_ack r))
            (route_home s now sender id 0x01 dest (min ttl max_ttl) content
                (λ s1. on_message s1 sender content) refl
              ∙ once_routed_fresh s now id (λ s1. on_message s1 sender content) fresh) in
      let same_peer : dest ≡ s1.local_peer_id = ground arith in
      let same_dedup : s1.dedup ≡ cache = ground arith in
      let copy : (check_and_insert_routed s1.dedup later id).1 ≡ true =
        ap (λ c. (check_and_insert_routed c later id).1) same_dedup
        ∙ routed_copy s.dedup now later id le lt fresh in
      let second =
        dispatch_payload-framed_routed hash unseal s1 later sender' id ttl' dest w hl content'
        ∙ ap (λ r. ret (send_ack r))
            (route_home s1 later sender' id 0x01 dest (min ttl' max_ttl) content'
                (λ s1. on_message s1 sender' content') same_peer
              ∙ once_routed_copy s1 later id (λ s1. on_message s1 sender' content') copy) in
      (s1, _, first, second, ground arith, ground arith)

  -- A routed frame for another node with a 32-byte id, with hops left and under a 64-bit
  -- message id that is no duplicate, goes to every known peer but the sender and the node
  -- itself, in full, with one hop less than it had, capped at MAX_TTL. A copy of it with hops
  -- left that comes next and before the cache's time to live has passed goes to nobody. The
  -- application sees neither.
  pub dispatch_payload-passes_on_once :
      (s : NodeState) (now later : ℕ) (sender sender' dest : PeerId) (id ttl ttl' : ℕ)
      (content content' : Bytes)
      → id < 2 ^ 64
      → length dest ≡ 32
      → dest ≢ s.local_peer_id
      → 0 < ttl
      → 0 < ttl'
      → (check_and_insert_routed s.dedup now id).1 ≡ false
      → now ≤ later
      → later < now + s.dedup.ttl
      → (s1 s2 : NodeState) × (dispatch_payload hash unseal s now sender
            (framed id (routed_body 0x01 dest ttl content))
          ≡ ret s1)
        × (dispatch_payload hash unseal s1 later sender'
              (framed id (routed_body 0x01 dest ttl' content'))
            ≡ ret s2)
        × (s2.relays
            ≡ s.relays
              ++ map
                  (λ entry. record {
                    to_peer = entry.0;
                    announced = entry.1;
                    message_id = id;
                    body = routed_body 0x01 dest (min ttl max_ttl - 1) content;
                  })
                  (keep_if
                    (λ entry. not (entry.0 =? sender) && not (entry.0 =? s.local_peer_id))
                    s.peers))
        × (s2.delivered ≡ s.delivered)
  unfolding send_ack spawn_relay_to_neighbors neighbors
  dispatch_payload-passes_on_once s now later sender sender' dest id ttl ttl' content content' w hd
        other pos pos' fresh le lt =
      let cache = (check_and_insert_routed s.dedup now id).0 in
      let elsewhere : (dest =? s.local_peer_id) ≡ false =
        elim (Bool-cases (dest =? s.local_peer_id)) [
          | inl e ↦ absurd (other ((bytes_eq.eqb_iff dest s.local_peer_id).0 e))
          | inr e ↦ e
        ] in
      let pass : NodeState → NodeState = λ s1.
        spawn_relay_to_neighbors s1 (routed_body 0x01 dest (min ttl max_ttl - 1) content) id
          sender in
      let pass' : NodeState → NodeState = λ s1.
        spawn_relay_to_neighbors s1 (routed_body 0x01 dest (min ttl' max_ttl - 1) content') id
          sender' in
      let s0 : NodeState = record s { dedup = cache } in
      let s1 : NodeState = send_ack (pass s0) in
      let first =
        dispatch_payload-framed_routed hash unseal s now sender id ttl dest w hd content
        ∙ ap (λ r. ret (send_ack r))
            (route_on s now sender id 0x01 dest (min ttl max_ttl) content
                (λ s1. on_message s1 sender content) elsewhere (omega arith)
              ∙ once_routed_fresh s now id pass fresh) in
      let second =
        dispatch_payload-framed_routed hash unseal s1 later sender' id ttl' dest w hd content'
        ∙ ap (λ r. ret (send_ack r))
            (route_on s1 later sender' id 0x01 dest (min ttl' max_ttl) content'
                (λ s1. on_message s1 sender' content') elsewhere (omega arith)
              ∙ once_routed_copy s1 later id pass'
                  (routed_copy s.dedup now later id le lt fresh)) in
      (s1, _, first, second, refl, refl)
