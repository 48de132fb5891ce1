-- ===== src/Node/Dispatch/Effects/Frames.antt =====
-- What routed and sealed frames keep.
use pathweave.Base.{
  ◌≤◌, ℕ, min, ◌≡◌, ◌⊎◌, refl, inl, inr, length, take, ◌-◌, arith, lt→ltb, ge→ltb, drop,
  length-take, length-drop, dec_lt,
}
use pathweave.Types.{Bytes, PeerId, PublicKey, bytes_eq, Result}
use pathweave.Bytes.Laws.{index-lt, slice-le}
use pathweave.Bytes.{ret, index, from_be_bytes}
use pathweave.Node.Dispatch.{
  max_ttl, NodeState, on_message, route, dispatch_routed, open_sealed, dispatch_sealed,
}
use pathweave.Node.Dispatch.Effects.{forwarded, Keeps, Kept, route-keeps, open_sealed-keeps}

module _ (hash : Bytes → Bytes) (unseal : PeerId → PublicKey → Bytes → Result Bytes) (now : ℕ)
    (sender : PeerId) (payload : Bytes) {P : NodeState → Type 0}
    (keep : Keeps hash sender payload P) where
  -- What 0x01 and 0x03 frames that are long enough share.
  pub routed_frame-keeps :
      (s : NodeState) (flag hops : ℕ) (here : NodeState → NodeState)
      → 42 ≤ length payload
      → (flag ≡ 0x01) ⊎ (flag ≡ 0x03)
      → index payload 8 ≡ ret flag
      → index payload 41 ≡ ret hops
      → ((s : NodeState) → P s → P (here s))
      → P s
      → P (
          route s now sender
            (from_be_bytes 0 (take 8 payload))
            flag
            (take 32 (drop 9 payload))
            (min hops max_ttl)
            (take (length payload - 42) (drop 42 payload))
            here)
  routed_frame-keeps s flag hops here long f i e at_home h =
      let dest = slice-le payload 9 41 (omega arith) (omega arith) in
      let rest = slice-le payload 42 (length payload) (omega arith) (omega arith) in
      let size : length (take 32 (drop 9 payload)) ≡ 32 =
        omega (arith, length-take 32 (drop 9 payload), length-drop 9 payload) in
      route-keeps hash unseal now sender payload keep s (from_be_bytes 0 (take 8 payload)) flag
        (take 32 (drop 9 payload)) (min hops max_ttl) (take (length payload - 42) (drop 42 payload))
        here at_home
        (λ s1 left m h1. keep.relayed s1 _ _ (forwarded f i dest size e m rest) refl h1) h

  pub dispatch_routed-keeps :
      (s : NodeState)
      → index payload 8 ≡ ret 0x01
      → P s
      → Kept P (dispatch_routed s now sender (from_be_bytes 0 (take 8 payload)) payload)
  unfolding dispatch_routed
  dispatch_routed-keeps s flag h = elim (dec_lt (length payload) 42) [
    | yes short ↦ (s, rw (lt→ltb (length payload) 42 short) refl, h)
    | no long ↦
        let (hops, e) = index-lt payload 41 (omega arith) in
        let content = take (length payload - 42) (drop 42 payload) in
        (
          route s now sender (from_be_bytes 0 (take 8 payload)) 0x01 (take 32 (drop 9 payload))
              (min hops max_ttl) content (λ s1. on_message s1 sender content),
          rw
              (
                ge→ltb (length payload) 42 (omega arith),
                slice-le payload 9 41 (omega arith) (omega arith),
                e,
                slice-le payload 42 (length payload) (omega arith) (omega arith),
              )
              refl,
          routed_frame-keeps s 0x01 hops (λ s1. on_message s1 sender content) (omega arith)
              (inl refl) flag e (λ s1 h1. keep.handed s1 sender content h1) h,
        )
  ]

  pub dispatch_sealed-keeps :
      (s : NodeState)
      → index payload 8 ≡ ret 0x03
      → P s
      → Kept P (dispatch_sealed unseal s now sender (from_be_bytes 0 (take 8 payload)) payload)
  unfolding dispatch_sealed
  dispatch_sealed-keeps s flag h = elim (dec_lt (length payload) 74) [
    | yes short ↦ (s, rw (lt→ltb (length payload) 74 short) refl, h)
    | no long ↦
        let (hops, e) = index-lt payload 41 (omega arith) in
        let envelope = take (length payload - 42) (drop 42 payload) in
        let size : length envelope ≡ length payload - 42 =
          omega
            (arith, length-take (length payload - 42) (drop 42 payload), length-drop 42 payload) in
        let from = take 32 (drop 0 envelope) in
        let message = take (length envelope - 32) (drop 32 envelope) in
        (
          route s now sender (from_be_bytes 0 (take 8 payload)) 0x03 (take 32 (drop 9 payload))
              (min hops max_ttl) envelope (open_sealed unseal from message),
          rw
              (
                ge→ltb (length payload) 74 (omega arith),
                slice-le payload 9 41 (omega arith) (omega arith),
                e,
                slice-le payload 42 (length payload) (omega arith) (omega arith),
                slice-le envelope 0 32 (omega arith) (omega arith),
                slice-le envelope 32 (length envelope) (omega arith) (omega arith),
              )
              refl,
          routed_frame-keeps s 0x03 hops (open_sealed unseal from message) (omega arith) (inr refl)
              flag e
              (λ s1 h1. open_sealed-keeps hash unseal now sender payload keep s1 from message h1) h,
        )
  ]
