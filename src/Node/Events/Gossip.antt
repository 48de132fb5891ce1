-- ===== src/Node/Events/Gossip.antt =====
-- What a node that learns a key teaches its neighbours.
use pathweave.Base.{
  ℕ, ◌+◌, ◌^◌, ◌<◌, min, false, ◌≡◌, refl, sym, ap, ◌∙◌, [], ◌∷◌, ◌++◌, append_assoc, some, arith,
  inl, inr, ge→ltb, Option-cases, length, All, length-append, eqb_refl,
}
use pathweave.Base.Map
use pathweave.Base.Map.{Map, get-insert}
use pathweave.Types.{Bytes, PeerId, PublicKey, bytes_eq, Result}
use pathweave.Types.{peer_id_from_public_key}
use pathweave.Bytes.{ret, index, slice, to_be_bytes}
use pathweave.Bytes.Laws.{
  slice_suffix, index_front, slice_prefix, from_be_bytes-to_be_bytes_eight, length-to_be_bytes,
}
use pathweave.KeyRegistry
use pathweave.KeyRegistry.{KeyRegistryState, get, insert_gossip, store_gossip, is_full}
use pathweave.Dedup.{check_and_insert_routed}
use pathweave.KeyAnnouncement.{encode_key_announcement, validate_key_announcement}
use pathweave.KeyAnnouncement.RoundTrip.{decode-encode_key}
use pathweave.Router.Dial.{framed}
use pathweave.Router.Send.{Env}
use pathweave.Node.Dispatch.{
  max_ttl, NodeState, send_ack, dispatch_payload, dispatch_flag, dispatch_key_announcement,
  once_routed, learn_key, spawn_relay_to_neighbors, neighbors,
}
use pathweave.Node.Dispatch.Once.{once_routed_fresh}
use pathweave.Node.Store.{Node}
use pathweave.Node.Store.Frames.{IsMessage, flood-IsMessage}
use pathweave.Node.Events.{flood_key_announcement}

-- There is room, or the key is there already: the lookup finds the key.
get-insert_gossip :
    (r : KeyRegistryState) (p : PeerId) (k : PublicKey)
    → is_full r ≡ false
    → get (insert_gossip r p k) p ≡ some k
unfolding get insert_gossip store_gossip
get-insert_gossip r p k room =
    let inserted = get-insert p p k r.entries in
    elim (Option-cases (Map.get p r.entries)) [
      | inl e ↦ rw (insert_gossip, e, room) (ground (arith, inserted, eqb_refl p))
      | inr (old, e) ↦ rw (insert_gossip, e) (ground (arith, inserted, eqb_refl p))
    ]

learn_key-registry :
    (sender : PeerId) (id : ℕ) (p : PeerId) (k : PublicKey) (ttl : ℕ) (s : NodeState)
    → (learn_key sender id p k ttl s).key_registry ≡ KeyRegistry.insert_gossip s.key_registry p k
unfolding learn_key spawn_relay_to_neighbors
learn_key-registry sender id p k ttl s = ground arith

-- `b` handles the message without a panic, and then knows the key of `p`.
abbrev pub Teaches :
    (Bytes → Bytes)
    → (PeerId → PublicKey → Bytes → Result Bytes)
    → NodeState
    → ℕ
    → PeerId
    → PeerId
    → PublicKey
    → Bytes
    → Type 0
Teaches hash unseal b now sender p k message =
    (b' : NodeState) × (dispatch_payload hash unseal b now sender message ≡ ret b')
    × (get b'.key_registry p ≡ some k)

module _ (hash : Bytes → Bytes) (unseal : PeerId → PublicKey → Bytes → Result Bytes) (b : NodeState)
    (now : ℕ) (sender : PeerId) (id : ℕ) (p : PeerId) (k : PublicKey) (ttl : ℕ) (w : id < 2 ^ 64)
    (lp : length p ≡ 32) (lk : length k ≡ 32) (own : peer_id_from_public_key hash k ≡ p) where
  -- An announcement that was framed is read back, and passes the hash test.
  dispatch_payload-framed_key :
      dispatch_payload hash unseal b now sender (framed id (encode_key_announcement p k ttl))
      ≡ ret (send_ack (once_routed b now id (learn_key sender id p k (min ttl max_ttl))))
  unfolding dispatch_payload dispatch_flag dispatch_key_announcement framed
      validate_key_announcement encode_key_announcement
  dispatch_payload-framed_key =
      let pre = to_be_bytes 8 id in
      let rest = p ++ (k ++ ttl ∷ []) in
      let payload = pre ++ 0x02 ∷ rest in
      let eight : length pre ≡ 8 = length-to_be_bytes 8 id in
      let size : length payload ≡ 9 + length rest =
        omega (arith, length-append pre (0x02 ∷ rest)) in
      let id_bytes : slice payload 0 8 ≡ ret pre = slice_prefix pre _ 8 eight in
      let flag : index payload 8 ≡ ret 0x02 =
        ap (index payload) (sym eight) ∙ index_front pre 0x02 rest in
      let content : slice payload 9 (length payload) ≡ ret rest =
        ap (λ q. slice q 9 (length q)) (sym (append_assoc pre (0x02 ∷ []) rest))
        ∙ slice_suffix (pre ++ 0x02 ∷ []) rest 9 (omega (arith, length-append pre (0x02 ∷ []))) in
      rw
        (
          ge→ltb (length payload) 9 (omega arith),
          id_bytes,
          flag,
          content,
          decode-encode_key p k ttl lp lk,
          from_be_bytes-to_be_bytes_eight id w,
          (bytes_eq.eqb_iff (peer_id_from_public_key hash k) p).1 own,
        )
        refl

  framed_key-Teaches :
      (check_and_insert_routed b.dedup now id).1 ≡ false
      → is_full b.key_registry ≡ false
      → Teaches hash unseal b now sender p k (framed id (encode_key_announcement p k ttl))
  unfolding send_ack
  framed_key-Teaches fresh room =
      let b0 : NodeState = record b { dedup = (check_and_insert_routed b.dedup now id).0 } in
      let act = learn_key sender id p k (min ttl max_ttl) in
      (
        send_ack (act b0),
        dispatch_payload-framed_key
            ∙ ap (λ r. ret (send_ack r)) (once_routed_fresh b now id act fresh),
        ap (λ r. get r p) (learn_key-registry sender id p k (min ttl max_ttl) b0)
            ∙ get-insert_gossip b.key_registry p k room,
      )

-- A node that floods the key of a peer, both of 32 bytes and the peer the hash of the key, hands
-- nothing to its sessions meanwhile, whatever becomes of the dials and retries, but address
-- exchanges and frames that teach the key to any node `b` which gets one of them: it handles the
-- frame without a panic and finds the key under the peer, if its registry is not full and it has
-- not seen the 64-bit message id, no matter from which peer the frame comes.
pub flood_key_announcement-Teaches :
    (hash : Bytes → Bytes) (env : ℕ → Env) (local_peer_id : PeerId) (s : Node) (msg_id : ℕ)
    (p : PeerId) (k : PublicKey) (unseal : PeerId → PublicKey → Bytes → Result Bytes)
    (b : NodeState) (now : ℕ) (sender : PeerId) (w : msg_id < 2 ^ 64) (lp : length p ≡ 32)
    (lk : length k ≡ 32) (own : peer_id_from_public_key hash k ≡ p)
    → (check_and_insert_routed b.dedup now msg_id).1 ≡ false
    → is_full b.key_registry ≡ false
    → s.net.log ≡ []
    → All
        (IsMessage (Teaches hash unseal b now sender p k))
        (flood_key_announcement hash env local_peer_id s msg_id p k).net.log
unfolding flood_key_announcement
flood_key_announcement-Teaches hash env local_peer_id s msg_id p k unseal b now sender w lp lk own
      fresh room empty =
    flood-IsMessage hash env local_peer_id (neighbors s.net.peers p local_peer_id)
      (encode_key_announcement p k max_ttl) msg_id s (Teaches hash unseal b now sender p k) empty
      (framed_key-Teaches hash unseal b now sender msg_id p k max_ttl w lp lk own fresh room)
