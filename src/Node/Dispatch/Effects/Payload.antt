-- ===== src/Node/Dispatch/Effects/Payload.antt =====
-- What whole payloads keep.
use pathweave.Base.{
  zero, sym, ap, ap₂, take_of_length-le, take-append-drop, ◌≤◌, ℕ, suc, min, ◌≡◌, refl, inl, inr,
  Bool-cases, length, take, ◌=?◌, ◌-◌, arith, ◌==◌, lt→ltb, ge→ltb, ==_iff, drop, length-take,
  length-drop, dec_lt, ◌+◌, ◌∙◌, if◌then◌else◌,
}
use pathweave.Types.{peer_id_from_public_key, Bytes, PeerId, PublicKey, bytes_eq, Result}
use pathweave.Bytes.Laws.{index-append, index-lt, slice-le}
use pathweave.Bytes.{◌>>=◌, ret, index, from_be_bytes}
use pathweave.KeyAnnouncement.{decode_key_announcement, validate_key_announcement}
use pathweave.Node.Dispatch.{
  max_ttl, NodeState, once_routed, dispatch_direct, learn_key, dispatch_key_announcement,
  dispatch_flag, send_ack, dispatch_payload,
}
use pathweave.Node.Dispatch.Effects.{
  announced, Keeps, Kept, once_routed-keeps, dispatch_direct-keeps, learn_key-keeps,
}
use pathweave.Node.Dispatch.Effects.Frames.{dispatch_routed-keeps, dispatch_sealed-keeps}

module _ (hash : Bytes → Bytes) (unseal : PeerId → PublicKey → Bytes → Result Bytes) (now : ℕ)
    (sender : PeerId) (payload : Bytes) {P : NodeState → Type 0}
    (keep : Keeps hash sender payload P) where
  -- Behind the first nine bytes.
  tail_is_drop : take (length payload - 9) (drop 9 payload) ≡ drop 9 payload
  tail_is_drop =
      take_of_length-le (length payload - 9) (drop 9 payload) (omega (arith, length-drop 9 payload))

  index_tail : (i : ℕ) → 9 ≤ length payload → index (drop 9 payload) i ≡ index payload (9 + i)
  index_tail i long =
      let front : length (take 9 payload) ≡ 9 = omega (arith, length-take 9 payload) in
      sym (index-append (take 9 payload) (drop 9 payload) i)
      ∙ ap₂ index (take-append-drop 9 payload) (ap (λ k. k + i) front)

  key_announced-keeps :
      (s : NodeState) (p k : Bytes) (hops : ℕ)
      → index payload 8 ≡ ret 0x02
      → length p ≡ 32
      → length k ≡ 32
      → length payload ≡ 74
      → index payload 73 ≡ ret hops
      → P s
      → P (
          if validate_key_announcement hash p k
          then once_routed s now
              (from_be_bytes 0 (take 8 payload))
              (learn_key sender (from_be_bytes 0 (take 8 payload)) p k (min hops max_ttl))
          else s)
  unfolding validate_key_announcement
  key_announced-keeps s p k hops flag lp lk len e h =
      elim (Bool-cases (peer_id_from_public_key hash k =? p)) [
        | inr bad ↦ rw bad h
        | inl good ↦
            let own = (bytes_eq.eqb_iff (peer_id_from_public_key hash k) p).0 good in
            rw good (
              once_routed-keeps hash unseal now sender payload keep s
                (from_be_bytes 0 (take 8 payload))
                (learn_key sender (from_be_bytes 0 (take 8 payload)) p k (min hops max_ttl))
                (λ s1 h1.
                  learn_key-keeps hash unseal now sender payload keep s1
                    (from_be_bytes 0 (take 8 payload)) p k (min hops max_ttl) own
                    (λ s2 left m h2.
                      keep.relayed s2 _ _ (announced p k flag lp lk len e m own) refl h2)
                    h1)
                h)
      ]

  dispatch_key_announcement-keeps :
      (s : NodeState)
      → 9 ≤ length payload
      → index payload 8 ≡ ret 0x02
      → P s
      → Kept P
          (dispatch_key_announcement hash s now sender (from_be_bytes 0 (take 8 payload)) payload)
  unfolding dispatch_key_announcement decode_key_announcement
  dispatch_key_announcement-keeps s long flag h =
      let content = slice-le payload 9 (length payload) long (omega arith) ∙ ap ret tail_is_drop in
      let size = length-drop 9 payload in
      elim (Bool-cases (length (drop 9 payload) == 65)) [
        | inr bad ↦ (s, rw (content, bad) refl, h)
        | inl good ↦
            let is65 : length (drop 9 payload) ≡ 65 =
              ground (arith, ==_iff (length (drop 9 payload)) 65) in
            let (hops, e) = index-lt payload 73 (omega arith) in
            let p = take 32 (drop 0 (drop 9 payload)) in
            let k = take 32 (drop 32 (drop 9 payload)) in
            (
              _,
              rw
                  (
                    content,
                    good,
                    slice-le (drop 9 payload) 0 32 (omega arith) (omega arith),
                    slice-le (drop 9 payload) 32 64 (omega arith) (omega arith),
                    index_tail 64 long ∙ e,
                  )
                  refl,
              key_announced-keeps s p k hops flag
                  (omega (
                    arith,
                    length-take 32 (drop 0 (drop 9 payload)),
                    length-drop 0 (drop 9 payload),
                  ))
                  (omega (
                    arith,
                    length-take 32 (drop 32 (drop 9 payload)),
                    length-drop 32 (drop 9 payload),
                  ))
                  (omega arith) e h,
            )
      ]

  dispatch_flag-keeps :
      (s : NodeState) (flag : ℕ)
      → 9 ≤ length payload
      → index payload 8 ≡ ret flag
      → P s
      → Kept P
          (dispatch_flag hash unseal s now sender (from_be_bytes 0 (take 8 payload)) flag payload)
  unfolding dispatch_flag
  dispatch_flag-keeps s zero long i h = (
    _,
    ap
        (λ r. r >>= λ content.
          ret (dispatch_direct s now sender (from_be_bytes 0 (take 8 payload)) content))
        (slice-le payload 9 (length payload) long (omega arith)),
    dispatch_direct-keeps hash unseal now sender payload keep s (from_be_bytes 0 (take 8 payload)) _
        h,
  )
  dispatch_flag-keeps s (suc zero) long i h =
      dispatch_routed-keeps hash unseal now sender payload keep s i h
  dispatch_flag-keeps s (suc (suc zero)) long i h = dispatch_key_announcement-keeps s long i h
  dispatch_flag-keeps s (suc (suc (suc zero))) long i h =
      dispatch_sealed-keeps hash unseal now sender payload keep s i h
  dispatch_flag-keeps s (suc (suc (suc (suc flag)))) long i h = (s, ground arith, h)

  -- Whatever bytes arrive, `dispatch_payload` returns without a panic, in a state that the effects
  -- reach, with one ACK more.
  pub dispatch_payload-keeps :
      (s : NodeState)
      → P s
      → (s' : NodeState) × (dispatch_payload hash unseal s now sender payload ≡ ret (send_ack s'))
        × P s'
  unfolding dispatch_payload
  dispatch_payload-keeps s h = elim (dec_lt (length payload) 9) [
    | yes short ↦ (s, rw (lt→ltb (length payload) 9 short) refl, h)
    | no long ↦
        let (flag, i) = index-lt payload 8 (omega arith) in
        let (s', e, h') = dispatch_flag-keeps s flag (omega arith) i h in
        (
          s',
          rw
              (
                ge→ltb (length payload) 9 (omega arith),
                slice-le payload 0 8 (omega arith) (omega arith),
                i,
                e,
              )
              refl,
          h',
        )
  ]
