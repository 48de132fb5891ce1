-- ===== src/Node/Dispatch/Delivery.antt =====
-- What becomes of a frame that a peer framed: delivered at its destination, passed on elsewhere,
-- dropped as a duplicate.
use pathweave.Base.{
  ℕ, ◌+◌, ◌^◌, ◌<◌, min, ◌≡◌, refl, sym, ap, ap₂, ◌∙◌, [], ◌∷◌, ◌++◌, append_assoc, arith, ge→ltb,
  length, length-append,
}
use pathweave.Types.{Bytes, PeerId, PublicKey, bytes_eq, Result}
use pathweave.Bytes.{ret, index, slice, to_be_bytes}
use pathweave.Bytes.Laws.{
  slice_suffix, index_front, slice_prefix, slice_front, from_be_bytes-to_be_bytes_eight,
  length-to_be_bytes,
}
use pathweave.Node.Dispatch.{
  max_ttl, NodeState, on_message, routed_body, route, dispatch_routed, open_sealed, dispatch_sealed,
  dispatch_flag, send_ack, dispatch_payload,
}
use pathweave.Router.Dial.{framed}

-- The parts that a node reads in a routed frame: its length, the message id, the route flag, the
-- destination, the hop count and the rest.
abbrev pub IsRead : Bytes → ℕ → ℕ → PeerId → ℕ → Bytes → Type 0
IsRead payload id flag dest ttl content =
    (length payload ≡ 42 + length content)
    × (slice payload 0 8 ≡ ret (to_be_bytes 8 id))
    × (index payload 8 ≡ ret flag)
    × (slice payload 9 41 ≡ ret dest)
    × (index payload 41 ≡ ret ttl)
    × (slice payload 42 (length payload) ≡ ret content)

-- They are those that its sender framed.
pub framed_routed-IsRead :
    (id flag ttl : ℕ) (dest content : Bytes)
    → length dest ≡ 32
    → IsRead (framed id (routed_body flag dest ttl content)) id flag dest ttl content
unfolding framed routed_body
framed_routed-IsRead id flag ttl dest content hd =
    let pre = to_be_bytes 8 id in
    let head = pre ++ flag ∷ [] in
    let front = head ++ dest in
    let payload = pre ++ flag ∷ (dest ++ ttl ∷ content) in
    let eight : length pre ≡ 8 = length-to_be_bytes 8 id in
    let as_head : payload ≡ head ++ (dest ++ ttl ∷ content) =
      sym (append_assoc pre (flag ∷ []) (dest ++ ttl ∷ content)) in
    let nine : length head ≡ 9 = omega (arith, length-append pre (flag ∷ [])) in
    let as_front : payload ≡ front ++ ttl ∷ content =
      as_head ∙ sym (append_assoc head dest (ttl ∷ content)) in
    let forty_one : length front ≡ 41 = omega (arith, length-append head dest) in
    (
      omega (
        arith,
        length-append pre (flag ∷ (dest ++ ttl ∷ content)),
        length-append dest (ttl ∷ content),
      ),
      slice_prefix pre _ 8 eight,
      ap (index payload) (sym eight) ∙ index_front pre flag (dest ++ ttl ∷ content),
      ap (λ p. slice p 9 41) as_head
          ∙ ap₂ (slice (head ++ (dest ++ ttl ∷ content))) (sym nine)
              (let q : 41 ≡ length head + 32 = omega arith in q)
          ∙ slice_front head dest (ttl ∷ content) 32 hd,
      ap₂ index as_front (sym forty_one) ∙ index_front front ttl content,
      ap (λ p. slice p 42 (length p)) (as_front ∙ sym (append_assoc front (ttl ∷ []) content))
          ∙ slice_suffix (front ++ ttl ∷ []) content 42
              (omega (arith, length-append front (ttl ∷ []))),
    )

module _ (hash : Bytes → Bytes) (unseal : PeerId → PublicKey → Bytes → Result Bytes) (s : NodeState)
    (now : ℕ) (sender : PeerId) (id ttl : ℕ) (dest : Bytes) (w : id < 2 ^ 64)
    (hd : length dest ≡ 32) where
  -- A routed frame that was framed by its sender is read back in full by the node that it reaches.
  pub dispatch_payload-framed_routed :
      (content : Bytes)
      → dispatch_payload hash unseal s now sender (framed id (routed_body 0x01 dest ttl content))
        ≡ ret (
            send_ack (
              route s now sender id 0x01 dest
                (min ttl max_ttl)
                content
                (λ s1. on_message s1 sender content)))
  unfolding dispatch_payload dispatch_flag dispatch_routed
  dispatch_payload-framed_routed content =
      let payload = framed id (routed_body 0x01 dest ttl content) in
      let (total, id_bytes, flag, to, hops, rest) =
        framed_routed-IsRead id 0x01 ttl dest content hd in
      rw
        (
          ge→ltb (length payload) 9 (omega arith),
          id_bytes,
          flag,
          ge→ltb (length payload) 42 (omega arith),
          to,
          hops,
          rest,
          from_be_bytes-to_be_bytes_eight id w,
        )
        refl

  -- So is a sealed frame: the sender that its envelope names, and the sealed message.
  pub dispatch_payload-framed_sealed :
      (sealed_sender message : Bytes)
      → length sealed_sender ≡ 32
      → let content = sealed_sender ++ message in
        dispatch_payload hash unseal s now sender (framed id (routed_body 0x03 dest ttl content))
        ≡ ret (
            send_ack (
              route s now sender id 0x03 dest
                (min ttl max_ttl)
                content
                (open_sealed unseal sealed_sender message)))
  unfolding dispatch_payload dispatch_flag dispatch_sealed
  dispatch_payload-framed_sealed sealed_sender message hs =
      let content = sealed_sender ++ message in
      let payload = framed id (routed_body 0x03 dest ttl content) in
      let (total, id_bytes, flag, to, hops, rest) =
        framed_routed-IsRead id 0x03 ttl dest content hd in
      let size : length content ≡ 32 + length message =
        omega (arith, length-append sealed_sender message) in
      rw
        (
          ge→ltb (length payload) 9 (omega arith),
          id_bytes,
          flag,
          ge→ltb (length payload) 74 (omega arith),
          to,
          hops,
          rest,
          slice_prefix sealed_sender message 32 hs,
          slice_suffix sealed_sender message 32 hs,
          from_be_bytes-to_be_bytes_eight id w,
        )
        refl
