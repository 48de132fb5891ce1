-- ===== src/Router/Dial/Identity.antt =====
-- Whom a message reaches, and which keys are learned on the way.
use pathweave.Base.{
  ℕ, ◌≡◌, ◌⊎◌, refl, sym, ap, ◌∙◌, [], ◌∷◌, ◌++◌, Option, none, some, arith, inl, inr, eqb_refl,
}
use pathweave.Base.Map.{get-remove}
use pathweave.Types.{
  Bytes, PeerId, PublicKey, bytes_eq, PathweaveError, ok, err, Result-cases,
  peer_id_from_public_key,
}
use pathweave.Router.{Transport}
use pathweave.Router.Dial.{
  Answers, sent, Net, write, framed, register, deliver, evict, in_session, try_send,
}
use pathweave.AddrExchange.{encode_addr_exchange}
use pathweave.KeyRegistry
use pathweave.KeyRegistry.{get, remove}
use pathweave.KeyRegistry.Certified.{
  IsCertified, insert_direct-IsCertified, remove-IsCertified, get-IsOwn,
}
use pathweave.Router.Dial.Steps.{
  learn_addresses-events, in_session-registry, in_session-log, in_session-result,
  in_session-learned, try_send_unreachable, try_send_refused, try_send_established,
}

module _ (hash : Bytes → Bytes) where
  evict-IsCertified :
      (n : Net) (peer_id : PeerId) (used : Option PublicKey)
      → IsCertified hash n.key_registry
      → IsCertified hash (evict hash n peer_id used).key_registry
  unfolding evict
  evict-IsCertified n peer_id none c = c
  evict-IsCertified n peer_id (some key) c = remove-IsCertified hash n.key_registry peer_id c

  -- A registry in which every key belongs to its peer stays one through a `try_send`, whatever the
  -- network and the remote node answer.
  pub try_send-IsCertified :
      (n : Net) (a : Answers) (t : Transport) (payload : Bytes) (message_id : ℕ) (peer_id : PeerId)
      → IsCertified hash n.key_registry
      → IsCertified hash (try_send hash n a t payload message_id peer_id).0.key_registry
  try_send-IsCertified n a t payload message_id peer_id c = elim (Result-cases a.connects) [
    | inl (e, h) ↦ rw (try_send_unreachable hash n a t payload message_id peer_id e h) c
    | inr (u, h) ↦ elim (Result-cases (a.handshake (KeyRegistry.get n.key_registry peer_id))) [
      | inl (e, k) ↦
          rw (try_send_refused hash n a t payload message_id peer_id u e h k)
            (evict-IsCertified n peer_id (KeyRegistry.get n.key_registry peer_id) c)
      | inr (key, k) ↦ rw (try_send_established hash n a t payload message_id peer_id u key h k) (
          rw (in_session-registry hash n a t key peer_id (framed message_id payload)) (
            insert_direct-IsCertified hash n.key_registry (peer_id_from_public_key hash key) key c
              refl))
    ]
  ]

  -- When the transport connects and the handshake with a known key fails, `try_send` returns
  -- the handshake's error, hands nothing to a session, and the peer's key is forgotten.
  pub try_send-evicts :
      (n : Net) (a : Answers) (t : Transport) (payload : Bytes) (message_id : ℕ) (peer_id : PeerId)
      (u : Unit {0}) (e : PathweaveError) (key : PublicKey)
      → a.connects ≡ ok u
      → KeyRegistry.get n.key_registry peer_id ≡ some key
      → a.handshake (some key) ≡ err e
      → (KeyRegistry.get (try_send hash n a t payload message_id peer_id).0.key_registry peer_id
          ≡ none)
        × ((try_send hash n a t payload message_id peer_id).1 ≡ err e)
        × ((try_send hash n a t payload message_id peer_id).0.log ≡ n.log)
  unfolding evict KeyRegistry.get KeyRegistry.remove
  try_send-evicts n a t payload message_id peer_id u e key h g k =
      let refused =
        try_send_refused hash n a t payload message_id peer_id u e h (ap a.handshake g ∙ k) in
      ground (arith, refused, get-remove peer_id peer_id n.key_registry.entries, eqb_refl peer_id)

  -- With a known key, in a registry where every key belongs to its peer, a `try_send` that
  -- succeeds hands out an address exchange and the framed message, both to the peer that was
  -- asked for and nobody else, if a Noise_XK handshake succeeds only with the owner of the key
  -- that it was given.
  pub try_send-reaches_peer :
      (n : Net) (a : Answers) (t : Transport) (payload : Bytes) (message_id : ℕ) (peer_id : PeerId)
      (known : PublicKey) (result : Option PublicKey)
      → ((k k' : PublicKey) → a.handshake (some k) ≡ ok k' → k' ≡ k)
      → IsCertified hash n.key_registry
      → KeyRegistry.get n.key_registry peer_id ≡ some known
      → (try_send hash n a t payload message_id peer_id).1 ≡ ok result
      → (try_send hash n a t payload message_id peer_id).0.log
        ≡ (n.log ++ sent peer_id (encode_addr_exchange t.local_addresses) ∷ [])
          ++ sent peer_id (framed message_id payload) ∷ []
  try_send-reaches_peer n a t payload message_id peer_id known result xk c g done =
      elim (Result-cases a.connects) [
        | inl (e, h) ↦ cc (try_send_unreachable hash n a t payload message_id peer_id e h)
        | inr (u, h) ↦ elim (Result-cases (a.handshake (KeyRegistry.get n.key_registry peer_id))) [
          | inl (e, k) ↦ cc (try_send_refused hash n a t payload message_id peer_id u e h k)
          | inr (key, k) ↦
              let owner : peer_id_from_public_key hash key ≡ peer_id =
                ap (peer_id_from_public_key hash) (xk known key (ap a.handshake (sym g) ∙ k))
                ∙ get-IsOwn hash n.key_registry peer_id c g in
              ap (λ r. r.0.log)
                (try_send_established hash n a t payload message_id peer_id u key h k)
              ∙ in_session-log hash n a t key peer_id (framed message_id payload)
              ∙ ap
                  (λ p.
                    (n.log ++ sent p (encode_addr_exchange t.local_addresses) ∷ [])
                    ++ sent p (framed message_id payload) ∷ [])
                  owner
        ]
      ]

  -- A send to `peer_id`, whose key is not known, that succeeds has handed both its messages to
  -- whichever node the handshake showed, whether that is `peer_id` or not: for any other peer without
  -- a known key, the same send under the same answers succeeds as well, with the same result, and
  -- hands the same messages to the same node.
  pub try_send-unknown_key :
      (n : Net) (a : Answers) (t : Transport) (payload : Bytes) (message_id : ℕ)
      (peer_id other : PeerId) (result : Option PublicKey)
      → KeyRegistry.get n.key_registry peer_id ≡ none
      → KeyRegistry.get n.key_registry other ≡ none
      → (try_send hash n a t payload message_id peer_id).1 ≡ ok result
      → (key : PublicKey) × (a.handshake none ≡ ok key)
        × ((try_send hash n a t payload message_id other).1 ≡ ok result)
        × ((try_send hash n a t payload message_id peer_id).0.log
            ≡ (n.log ++ sent (hash key) (encode_addr_exchange t.local_addresses) ∷ [])
              ++ sent (hash key) (framed message_id payload) ∷ [])
        × ((try_send hash n a t payload message_id other).0.log
            ≡ (try_send hash n a t payload message_id peer_id).0.log)
  unfolding peer_id_from_public_key
  try_send-unknown_key n a t payload message_id peer_id other result g g' done =
      elim (Result-cases a.connects) [
        | inl (e, h) ↦ absurd (cc (try_send_unreachable hash n a t payload message_id peer_id e h))
        | inr (u, h) ↦ elim (Result-cases (a.handshake none)) [
          | inl (e, k) ↦ absurd (
              cc (
                try_send_refused hash n a t payload message_id peer_id u e h
                  (ap a.handshake g ∙ k)))
          | inr (key, k) ↦
              let message = framed message_id payload in
              let here =
                try_send_established hash n a t payload message_id peer_id u key h
                  (ap a.handshake g ∙ k) in
              let there =
                try_send_established hash n a t payload message_id other u key h
                  (ap a.handshake g' ∙ k) in
              let log = in_session-log hash n a t key peer_id message in
              (
                key,
                k,
                ap (λ r. r.1) there
                    ∙ in_session-result hash n a t key other message
                    ∙ sym (in_session-result hash n a t key peer_id message)
                    ∙ sym (ap (λ r. r.1) here)
                    ∙ done,
                ap (λ r. r.0.log) here ∙ log,
                ap (λ r. r.0.log) there
                    ∙ in_session-log hash n a t key other message
                    ∙ sym (ap (λ r. r.0.log) here ∙ log),
              )
        ]
      ]

  -- What a `try_send` that succeeds returns: the key that the handshake showed, if there was none
  -- for the node that it belongs to.
  pub try_send-learned :
      (n : Net) (a : Answers) (t : Transport) (payload : Bytes) (message_id : ℕ) (peer_id : PeerId)
      (result : Option PublicKey)
      → (try_send hash n a t payload message_id peer_id).1 ≡ ok result
      → (key : PublicKey) × (a.handshake (KeyRegistry.get n.key_registry peer_id) ≡ ok key)
        × (result ≡ (elim (KeyRegistry.get n.key_registry (hash key)) [
          | none ↦ some key
          | some old ↦ none
        ]))
  try_send-learned n a t payload message_id peer_id result done = elim (Result-cases a.connects) [
    | inl (e, h) ↦ absurd (cc (try_send_unreachable hash n a t payload message_id peer_id e h))
    | inr (u, h) ↦ elim (Result-cases (a.handshake (KeyRegistry.get n.key_registry peer_id))) [
      | inl (e, k) ↦ absurd (cc (try_send_refused hash n a t payload message_id peer_id u e h k))
      | inr (key, k) ↦
          let came : (in_session hash n a t key peer_id (framed message_id payload)).1 ≡ ok result =
            sym
              (ap (λ r. r.1) (try_send_established hash n a t payload message_id peer_id u key h k))
            ∙ done in
          (
            key,
            k,
            in_session-learned hash n a t key peer_id (framed message_id payload) result came,
          )
    ]
  ]

  -- A `try_send` fires no event itself: its caller does.
  pub try_send-events :
      (n : Net) (a : Answers) (t : Transport) (payload : Bytes) (message_id : ℕ) (peer_id : PeerId)
      → (try_send hash n a t payload message_id peer_id).0.events ≡ n.events
  try_send-events n a t payload message_id peer_id = elim (Result-cases a.connects) [
    | inl (e, h) ↦ rw (try_send_unreachable hash n a t payload message_id peer_id e h) refl
    | inr (u, h) ↦ elim (Result-cases (a.handshake (KeyRegistry.get n.key_registry peer_id))) [
      | inl (e, k) ↦
          rw (try_send_refused hash n a t payload message_id peer_id u e h k)
            (unfold evict in ground arith)
      | inr (key, k) ↦ rw (try_send_established hash n a t payload message_id peer_id u key h k) (
          unfold in_session deliver register write in
          ground (
            arith,
            learn_addresses-events
                (write (register hash n key).0 (peer_id_from_public_key hash key)
                  (encode_addr_exchange t.local_addresses))
                peer_id a.exchange,
          ))
    ]
  ]

  -- What a `try_send` adds to what was handed to sessions: nothing, or an address exchange and the
  -- framed payload, to the node that the handshake showed.
  pub try_send-log :
      (n : Net) (a : Answers) (t : Transport) (payload : Bytes) (message_id : ℕ) (peer_id : PeerId)
      → ((try_send hash n a t payload message_id peer_id).0.log ≡ n.log)
        ⊎ ((remote : PeerId) × ((try_send hash n a t payload message_id peer_id).0.log
              ≡ (n.log ++ sent remote (encode_addr_exchange t.local_addresses) ∷ [])
                ++ sent remote (framed message_id payload) ∷ []))
  try_send-log n a t payload message_id peer_id = elim (Result-cases a.connects) [
    | inl (e, h) ↦ inl (rw (try_send_unreachable hash n a t payload message_id peer_id e h) refl)
    | inr (u, h) ↦ elim (Result-cases (a.handshake (KeyRegistry.get n.key_registry peer_id))) [
      | inl (e, k) ↦ inl (
          rw (try_send_refused hash n a t payload message_id peer_id u e h k)
            (unfold evict in ground arith))
      | inr (key, k) ↦ inr (
        peer_id_from_public_key hash key,
        ap (λ r. r.0.log) (try_send_established hash n a t payload message_id peer_id u key h k)
            ∙ in_session-log hash n a t key peer_id (framed message_id payload),
      )
    ]
  ]
