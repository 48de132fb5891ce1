-- ===== src/Node/Accept/Sessions.antt =====
-- What any number of sessions together can do to the node.
use pathweave.Base.{
  ℕ, ◌≡◌, refl, sym, subst, List, [], ◌∷◌, Option, none, some, arith, inl, inr, Bool-cases,
  Option-cases, nat_eq,
}
use pathweave.Base.Map
use pathweave.Base.Map.{Map}
use pathweave.Types.{
  Bytes, PeerId, PublicKey, bytes_eq, Result, ok, err, PeerAddress, peer_id_from_public_key,
}
use pathweave.Bytes.{Fault, ret}
use pathweave.AddrExchange.Safety.{decode_addr_exchange-Returns}
use pathweave.KeyRegistry.Certified.{IsCertified, insert_direct-IsCertified}
use pathweave.Node.Dispatch.Registry.{dispatch_payload-IsCertified}
use pathweave.Node.Incoming.{Incoming, is_control, exchange, greet}
use pathweave.Node.Accept.{
  Waiting, handshake, first, later, Server, Event, starts, accepts, accept_fails, pause_ends,
  shakes, frame, fails, accept_loop, waits, ends, greeted, respond, dispatched, on_frame, step, run,
}

module _ (hash : Bytes → Bytes) (unseal : PeerId → PublicKey → Bytes → Result Bytes)
    (local_addresses : List PeerAddress) where
  -- The node has handled an event without a panic.
  abbrev Handled : Fault Server → Type 0
  Handled r = (s : Server) × (r ≡ ret s) × IsCertified hash s.incoming.node.key_registry

  accept_loop-incoming : (s : Server) (event : Event) → (accept_loop s event).incoming ≡ s.incoming
  unfolding accept_loop
  accept_loop-incoming s starts = ground arith
  accept_loop-incoming s accepts = ground arith
  accept_loop-incoming s accept_fails = ground arith
  accept_loop-incoming s pause_ends = ground arith
  accept_loop-incoming s (shakes id r) = refl
  accept_loop-incoming s (frame id now payload) = refl
  accept_loop-incoming s (fails id) = refl

  dispatched-Handled :
      (s : Server) (id : ℕ) (sender : PeerId) (now : ℕ) (payload : Bytes)
      → IsCertified hash s.incoming.node.key_registry
      → Handled (dispatched hash unseal local_addresses s id sender now payload)
  unfolding dispatched waits
  dispatched-Handled s id sender now payload c =
      let (node, e, c1, a) =
        dispatch_payload-IsCertified hash unseal s.incoming.node now sender payload c in
      rw e (_, refl, c1)

  exchange-IsCertified :
      (sender : PeerId) (i : Incoming) (addrs : Option (List PeerAddress))
      → IsCertified hash i.node.key_registry
      → IsCertified hash (exchange local_addresses sender i addrs).node.key_registry
  unfolding exchange
  exchange-IsCertified sender i none c = c
  exchange-IsCertified sender i (some addrs) c = c

  on_frame-Handled :
      (s : Server) (id now : ℕ) (payload : Bytes) (w : Waiting)
      → IsCertified hash s.incoming.node.key_registry
      → Handled (on_frame hash unseal local_addresses s id now payload w)
  unfolding on_frame waits
  on_frame-Handled s id now payload handshake c = (s, refl, c)
  on_frame-Handled s id now payload (first sender) c = elim (Bool-cases (is_control payload)) [
    | inr plain ↦ rw plain (dispatched-Handled s id sender now payload c)
    | inl control ↦ elim (decode_addr_exchange-Returns payload) [
      | inl rejected ↦
          rw (control, rejected) (_, refl, exchange-IsCertified sender s.incoming none c)
      | inr (addrs, accepted, count) ↦
          rw (control, accepted) (_, refl, exchange-IsCertified sender s.incoming (some addrs) c)
    ]
  ]
  on_frame-Handled s id now payload (later sender) c = dispatched-Handled s id sender now payload c

  respond-IsCertified :
      (s : Server) (id : ℕ) (result : Result PublicKey)
      → IsCertified hash s.incoming.node.key_registry
      → IsCertified hash
          (respond s id result (peer_id_from_public_key hash)).incoming.node.key_registry
  unfolding respond greeted greet waits ends
  respond-IsCertified s id (err e) c = c
  respond-IsCertified s id (ok key) c =
      insert_direct-IsCertified hash s.incoming.node.key_registry (peer_id_from_public_key hash key)
        key c refl

  step-Handled :
      (s : Server) (event : Event)
      → IsCertified hash s.incoming.node.key_registry
      → Handled (step hash unseal local_addresses s event)
  unfolding step ends
  step-Handled s (shakes id result) c = elim (Option-cases (Map.get id s.tasks)) [
    | inl e ↦ rw (step, e) (s, refl, c)
    | inr (handshake, e) ↦ rw (step, e) (_, refl, respond-IsCertified s id result c)
    | inr (first p, e) ↦ rw (step, e) (s, refl, c)
    | inr (later p, e) ↦ rw (step, e) (s, refl, c)
  ]
  step-Handled s (frame id now payload) c = elim (Option-cases (Map.get id s.tasks)) [
    | inl e ↦ rw (step, e) (s, refl, c)
    | inr (w, e) ↦ rw (step, e) (on_frame-Handled s id now payload w c)
  ]
  step-Handled s (fails id) c = (_, refl, c)
  step-Handled s starts c = (
    _,
    refl,
    subst (λ i. IsCertified hash i.node.key_registry) (sym (accept_loop-incoming s starts)) c,
  )
  step-Handled s accepts c = (
    _,
    refl,
    subst (λ i. IsCertified hash i.node.key_registry) (sym (accept_loop-incoming s accepts)) c,
  )
  step-Handled s accept_fails c = (
    _,
    refl,
    subst (λ i. IsCertified hash i.node.key_registry) (sym (accept_loop-incoming s accept_fails)) c,
  )
  step-Handled s pause_ends c = (
    _,
    refl,
    subst (λ i. IsCertified hash i.node.key_registry) (sym (accept_loop-incoming s pause_ends)) c,
  )

  -- Whatever happens on however many connections, in whatever order the sessions interleave, and
  -- whatever bytes the remote nodes send: if every key in the registry belongs to its peer, the node
  -- does not panic, and every key still belongs to its peer.
  pub run-IsCertified :
      (s : Server) (events : List Event)
      → IsCertified hash s.incoming.node.key_registry
      → (s' : Server) × (run hash unseal local_addresses s events ≡ ret s')
        × IsCertified hash s'.incoming.node.key_registry
  unfolding run
  run-IsCertified s [] c = (s, refl, c)
  run-IsCertified s (event ∷ events) c =
      let (s1, e, c1) = step-Handled s event c in
      let (s2, f, c2) = run-IsCertified s1 events c1 in (s2, rw e f, c2)
