-- ===== src/Node/Incoming/Safety.antt =====
-- What a whole session with a peer can do to the registry.
use pathweave.Base.{
  ℕ, suc, ◌+◌, ◌≡◌, refl, List, [], ◌∷◌, Option, none, some, arith, inl, inr, if◌then◌else◌,
  Bool-cases, length,
}
use pathweave.Types.{Bytes, PeerId, PublicKey, bytes_eq, Result, ok, err, PeerAddress}
use pathweave.Bytes.{Fault, ret}
use pathweave.Node.Dispatch.{NodeState}
use pathweave.KeyRegistry.Certified.{IsCertified, insert_direct-IsCertified}
use pathweave.Node.Incoming.{
  serve_all, peer_id_from_public_key, Incoming, is_control, serve, exchange, greet, handle_incoming,
}
use pathweave.AddrExchange.Safety.{decode_addr_exchange-Returns}
use pathweave.Node.Dispatch.Registry.{dispatch_payload-IsCertified}

module _ (hash : Bytes → Bytes) (unseal : PeerId → PublicKey → Bytes → Result Bytes) where
  serve-IsCertified :
      (s : NodeState) (sender : PeerId) (arrivals : List (ℕ × Bytes))
      → IsCertified hash s.key_registry
      → (s' : NodeState) × (serve hash unseal s sender arrivals ≡ ret s')
        × IsCertified hash s'.key_registry
        × (s'.acks ≡ s.acks + length arrivals)
  unfolding serve
  serve-IsCertified s sender [] c = (s, refl, c, omega arith)
  serve-IsCertified s sender ((now, payload) ∷ arrivals) c =
      let (s1, e, c1, a) = dispatch_payload-IsCertified hash unseal s now sender payload c in
      let (s2, f, c2, b) = serve-IsCertified s1 sender arrivals c1 in (s2, rw e f, c2, omega arith)

  -- The session ends without a panic, in a certified registry, with one ACK for each of `n` payloads.
  abbrev Ended : NodeState → ℕ → Fault Incoming → Type 0
  Ended s n r =
      (i : Incoming) × (r ≡ ret i)
      × IsCertified hash i.node.key_registry
      × (i.node.acks ≡ s.acks + n)

  serve_all-Ended :
      (s : NodeState) (i : Incoming) (sender : PeerId) (arrivals : List (ℕ × Bytes))
      → IsCertified hash i.node.key_registry
      → i.node.acks ≡ s.acks
      → Ended s (length arrivals) (serve_all hash unseal i sender arrivals)
  unfolding serve_all
  serve_all-Ended s i sender arrivals c a =
      let (s1, e, c1, b) = serve-IsCertified i.node sender arrivals c in
      (record i { node = s1 }, rw e refl, c1, omega arith)

  greet-IsCertified :
      (s : NodeState) (key : PublicKey)
      → IsCertified hash s.key_registry
      → IsCertified hash (greet s (peer_id_from_public_key hash key) key).node.key_registry
  unfolding greet
  greet-IsCertified s key c =
      insert_direct-IsCertified hash s.key_registry (peer_id_from_public_key hash key) key c refl

  greet-acks :
      (s : NodeState) (sender : PeerId) (key : PublicKey) → (greet s sender key).node.acks ≡ s.acks
  unfolding greet
  greet-acks s sender key = refl

  -- The frames of a session that are dispatched: all but an address exchange at the start.
  abbrev pub dispatched : Result PublicKey → List (ℕ × Bytes) → ℕ
  dispatched (err e) arrivals = 0
  dispatched (ok key) [] = 0
  dispatched (ok key) ((now, first) ∷ arrivals) =
      if is_control first then length arrivals else suc (length arrivals)

  exchange-Ended :
      (s : NodeState) (local_addresses : List PeerAddress) (i : Incoming) (sender : PeerId)
      (addrs : Option (List PeerAddress)) (arrivals : List (ℕ × Bytes))
      → IsCertified hash i.node.key_registry
      → i.node.acks ≡ s.acks
      → Ended s
          (length arrivals)
          (serve_all hash unseal (exchange local_addresses sender i addrs) sender arrivals)
  unfolding exchange
  exchange-Ended s local_addresses i sender none arrivals c a =
      serve_all-Ended s (exchange local_addresses sender i none) sender arrivals c a
  exchange-Ended s local_addresses i sender (some addrs) arrivals c a =
      serve_all-Ended s (exchange local_addresses sender i (some addrs)) sender arrivals c a

  -- Whatever a remote node does in a session, from the handshake to the end, however many frames it
  -- sends and whatever bytes are in them: if every key in the registry belongs to its peer, the node
  -- does not panic, every key still belongs to its peer, and one ACK was answered to each frame but
  -- an address exchange at the start.
  pub handle_incoming-IsCertified :
      (s : NodeState) (local_addresses : List PeerAddress) (handshake : Result PublicKey)
      (arrivals : List (ℕ × Bytes))
      → IsCertified hash s.key_registry
      → (i : Incoming) × (handle_incoming hash unseal s local_addresses handshake arrivals ≡ ret i)
        × IsCertified hash i.node.key_registry
        × (i.node.acks ≡ s.acks + dispatched handshake arrivals)
  unfolding handle_incoming
  handle_incoming-IsCertified s local_addresses (err e) arrivals c = (_, refl, c, omega arith)
  handle_incoming-IsCertified s local_addresses (ok key) [] c = (
    _,
    refl,
    greet-IsCertified s key c,
    let same = greet-acks s (peer_id_from_public_key hash key) key in omega arith,
  )
  handle_incoming-IsCertified s local_addresses (ok key) ((now, first) ∷ arrivals) c =
      let sender = peer_id_from_public_key hash key in
      let i = greet s sender key in
      let c1 = greet-IsCertified s key c in
      let same = greet-acks s sender key in
      elim (Bool-cases (is_control first)) [
        | inr plain ↦ rw plain (serve_all-Ended s i sender ((now, first) ∷ arrivals) c1 same)
        | inl control ↦ elim (decode_addr_exchange-Returns first) [
          | inl rejected ↦
              rw (control, rejected)
                (exchange-Ended s local_addresses i sender none arrivals c1 same)
          | inr (addrs, accepted, count) ↦
              rw (control, accepted)
                (exchange-Ended s local_addresses i sender (some addrs) arrivals c1 same)
        ]
      ]
