-- ===== src/Node/Dispatch/Effects.antt =====
-- All that `dispatch_payload` can do to the node's state, as a rule: what its four effects keep,
-- it keeps.
pub mod Frames
pub mod Payload
use pathweave.Base.{
  ℕ, suc, min, ◌≡◌, ◌⊎◌, inl, inr, Bool-cases, length, take, ◌=?◌, ◌-◌, arith, ltb, ◌==◌, ltb→lt,
  ==_iff, Option-cases,
}
use pathweave.Types.{
  peer_id_from_public_key, Bytes, PeerId, PublicKey, bytes_eq, Result, Result-cases,
}
use pathweave.Bytes.{◌>>=◌, ret, index, slice, from_be_bytes, Fault}
use pathweave.Dedup.{DeduplicationCache, check_and_insert, check_and_insert_routed}
use pathweave.KeyAnnouncement.{encode_key_announcement}
use pathweave.KeyRegistry
use pathweave.KeyRegistry.{get, insert_gossip}
use pathweave.Node.Dispatch.{
  max_ttl, NodeState, on_message, spawn_relay_to_neighbors, once_routed, dispatch_direct,
  routed_body, route, learn_key, open_sealed,
}

-- What a node relays of a frame: the same, with one hop less than the frame had, capped at
-- MAX_TTL.
pub data IsRelayed (hash : Bytes → Bytes) (payload : Bytes) : Bytes → Type 0 where
  forwarded :
      {flag hops ttl : ℕ} {dest rest : Bytes}
      → (flag ≡ 0x01) ⊎ (flag ≡ 0x03)
      → index payload 8 ≡ ret flag
      → slice payload 9 41 ≡ ret dest
      → length dest ≡ 32
      → index payload 41 ≡ ret hops
      → suc ttl ≡ min hops max_ttl
      → slice payload 42 (length payload) ≡ ret rest
      → IsRelayed hash payload (routed_body flag dest ttl rest)
  announced :
      {hops ttl : ℕ} (peer_id key : Bytes)
      → index payload 8 ≡ ret 0x02
      → length peer_id ≡ 32
      → length key ≡ 32
      → length payload ≡ 74
      → index payload 73 ≡ ret hops
      → suc ttl ≡ min hops max_ttl
      → peer_id_from_public_key hash key ≡ peer_id
      → IsRelayed hash payload (encode_key_announcement peer_id key ttl)

-- The effects of a frame on the node's state, as those that keep P: a message id is seen, the
-- application is handed a message, a key that passed the hash test is learned, and the frame is
-- relayed.
pub record Keeps (hash : Bytes → Bytes) (sender : PeerId) (payload : Bytes) (P : NodeState → Type 0)
    : Type 0 where
  pub seen : (s : NodeState) (c : DeduplicationCache) → P s → P (record s { dedup = c })
  pub handed : (s : NodeState) (p : PeerId) (b : Bytes) → P s → P (on_message s p b)
  pub learned :
      (s : NodeState) (p : PeerId) (k : PublicKey)
      → peer_id_from_public_key hash k ≡ p
      → P s
      → P (record s { key_registry = KeyRegistry.insert_gossip s.key_registry p k })
  pub relayed :
      (s : NodeState) (body : Bytes) (msg_id : ℕ)
      → IsRelayed hash payload body
      → msg_id ≡ from_be_bytes 0 (take 8 payload)
      → P s
      → P (spawn_relay_to_neighbors s body msg_id sender)

-- The computation returns, in a state with P.
abbrev pub Kept : (NodeState → Type 0) → Fault NodeState → Type 0
Kept P r = (s' : NodeState) × (r ≡ ret s') × P s'

module _ (hash : Bytes → Bytes) (unseal : PeerId → PublicKey → Bytes → Result Bytes) (now : ℕ)
    (sender : PeerId) (payload : Bytes) {P : NodeState → Type 0}
    (keep : Keeps hash sender payload P) where
  pub once_routed-keeps :
      (s : NodeState) (msg_id : ℕ) (act : NodeState → NodeState)
      → ((s : NodeState) → P s → P (act s))
      → P s
      → P (once_routed s now msg_id act)
  unfolding once_routed
  once_routed-keeps s msg_id act acts h =
      let (cache, dup) = check_and_insert_routed s.dedup now msg_id in
      let h1 = keep.seen s cache h in
      let h2 = acts (record s { dedup = cache }) h1 in
      elim (Bool-cases dup) [ inl e ↦ rw e h1 | inr e ↦ rw e h2 ]

  pub dispatch_direct-keeps :
      (s : NodeState) (msg_id : ℕ) (content : Bytes)
      → P s
      → P (dispatch_direct s now sender msg_id content)
  unfolding dispatch_direct
  dispatch_direct-keeps s msg_id content h =
      let (cache, dup) = check_and_insert s.dedup now sender msg_id in
      let h1 = keep.seen s cache h in
      let h2 = keep.handed (record s { dedup = cache }) sender content h1 in
      elim (Bool-cases dup) [ inl e ↦ rw e h1 | inr e ↦ rw e h2 ]

  pub route-keeps :
      (s : NodeState) (msg_id flag : ℕ) (dest : PeerId) (ttl : ℕ) (rest : Bytes)
      (here : NodeState → NodeState)
      → ((s : NodeState) → P s → P (here s))
      → ((s : NodeState) (left : ℕ)
          → suc left ≡ ttl
          → P s
          → P (spawn_relay_to_neighbors s (routed_body flag dest left rest) msg_id sender))
      → P s
      → P (route s now sender msg_id flag dest ttl rest here)
  unfolding route
  route-keeps s msg_id flag dest ttl rest here at_home further h =
      let r = once_routed-keeps s msg_id here at_home h in
      elim (Bool-cases (dest =? s.local_peer_id)) [
        | inl e ↦ rw e r
        | inr e ↦ elim (Bool-cases (ttl == 0)) [
          | inl z ↦ rw (e, z) h
          | inr z ↦
              let some_left : suc (ttl - 1) ≡ ttl = ground (arith, ==_iff ttl 0) in
              rw (e, z)
                (once_routed-keeps s msg_id
                  (λ s1.
                    spawn_relay_to_neighbors s1 (routed_body flag dest (ttl - 1) rest) msg_id
                      sender)
                  (λ s1 k. further s1 (ttl - 1) some_left k) h)
        ]
      ]

  pub learn_key-keeps :
      (s : NodeState) (msg_id : ℕ) (p : PeerId) (k : PublicKey) (ttl : ℕ)
      → peer_id_from_public_key hash k ≡ p
      → ((s : NodeState) (left : ℕ)
          → suc left ≡ ttl
          → P s
          → P (spawn_relay_to_neighbors s (encode_key_announcement p k left) msg_id sender))
      → P s
      → P (learn_key sender msg_id p k ttl s)
  unfolding learn_key
  learn_key-keeps s msg_id p k ttl own further h =
      let s1 : NodeState = record s {
        key_registry = KeyRegistry.insert_gossip s.key_registry p k;
      } in
      let h1 = keep.learned s p k own h in
      elim (Bool-cases (ltb 0 ttl)) [
        | inl e ↦ rw e (further s1 (ttl - 1) (let q = ltb→lt 0 ttl e in omega arith) h1)
        | inr e ↦ rw e h1
      ]

  pub open_sealed-keeps :
      (s : NodeState) (p : PeerId) (m : Bytes) → P s → P (open_sealed unseal p m s)
  unfolding open_sealed
  open_sealed-keeps s p m h = elim (Option-cases (KeyRegistry.get s.key_registry p)) [
    | inl e ↦ rw (open_sealed, e) h
    | inr (key, e) ↦ elim (Result-cases (unseal p key m)) [
      | inl (x, f) ↦ rw (open_sealed, e, f) h
      | inr (plain, f) ↦ rw (open_sealed, e, f) (keep.handed s p plain h)
    ]
  ]
