-- ===== src/Router/Dial/Steps.antt =====
-- What `try_send` and `try_connect` come to on each of their ways.
use pathweave.Base.{ℕ, ◌≡◌, sym, ◌∙◌, [], ◌∷◌, ◌++◌, Option, none, some, arith}
use pathweave.Types.{
  Bytes, PeerId, PublicKey, bytes_eq, PathweaveError, ok, err, peer_id_from_public_key,
}
use pathweave.Router.{Transport}
use pathweave.Router.Dial.{
  learned, Received, Answers, sent, Net, learn_addresses, write, framed, acknowledged, register,
  deliver, evict, in_session, try_send,
}
use pathweave.AddrExchange.{encode_addr_exchange}
use pathweave.KeyRegistry
use pathweave.KeyRegistry.{get, insert_direct}

learn_addresses-registry :
    (n : Net) (p : PeerId) (r : Received) → (learn_addresses n p r).key_registry ≡ n.key_registry
unfolding learn_addresses
learn_addresses-registry n p r = ground arith

learn_addresses-log : (n : Net) (p : PeerId) (r : Received) → (learn_addresses n p r).log ≡ n.log
unfolding learn_addresses
learn_addresses-log n p r = ground arith

pub learn_addresses-events :
    (n : Net) (p : PeerId) (r : Received) → (learn_addresses n p r).events ≡ n.events
unfolding learn_addresses
learn_addresses-events n p r = ground arith

module _ (hash : Bytes → Bytes) where
  module _ (n : Net) (a : Answers) (t : Transport) (key : PublicKey) (peer_id : PeerId)
      (message : Bytes) where
    pub in_session-registry :
        (in_session hash n a t key peer_id message).0.key_registry
        ≡ (KeyRegistry.insert_direct n.key_registry (peer_id_from_public_key hash key) key).0
    unfolding in_session deliver register write
    in_session-registry = ground (
      arith,
      learn_addresses-registry
          (write (register hash n key).0 (peer_id_from_public_key hash key)
            (encode_addr_exchange t.local_addresses))
          peer_id a.exchange,
    )

    pub in_session-log :
        (in_session hash n a t key peer_id message).0.log
        ≡ (n.log
            ++ sent (peer_id_from_public_key hash key) (encode_addr_exchange t.local_addresses)
              ∷ [])
          ++ sent (peer_id_from_public_key hash key) message ∷ []
    unfolding in_session deliver register write
    in_session-log = ground (
      arith,
      learn_addresses-log
          (write (register hash n key).0 (peer_id_from_public_key hash key)
            (encode_addr_exchange t.local_addresses))
          peer_id a.exchange,
    )

    pub in_session-result :
        (in_session hash n a t key peer_id message).1 ≡ (elim (a.accepts message) [
          | err e ↦ err e
          | ok _ ↦ acknowledged (register hash n key).1 a.ack
        ])
    unfolding in_session deliver register write
    in_session-result = ground arith

    pub in_session-learned :
        (result : Option PublicKey)
        → (in_session hash n a t key peer_id message).1 ≡ ok result
        → result
          ≡ (elim (KeyRegistry.get n.key_registry (hash key)) [ none ↦ some key | some old ↦ none ])
    unfolding acknowledged register learned peer_id_from_public_key KeyRegistry.get
        KeyRegistry.insert_direct
    in_session-learned result done = ground (arith, sym in_session-result ∙ done)

  module _ (n : Net) (a : Answers) (t : Transport) (payload : Bytes) (message_id : ℕ)
      (peer_id : PeerId) where
    pub try_send_unreachable :
        (e : PathweaveError)
        → a.connects ≡ err e
        → try_send hash n a t payload message_id peer_id ≡ (n, err e)
    unfolding try_send
    try_send_unreachable e h = ground arith

    pub try_send_refused :
        (u : Unit {0}) (e : PathweaveError)
        → a.connects ≡ ok u
        → a.handshake (KeyRegistry.get n.key_registry peer_id) ≡ err e
        → try_send hash n a t payload message_id peer_id
          ≡ (evict hash n peer_id (KeyRegistry.get n.key_registry peer_id), err e)
    unfolding try_send
    try_send_refused u e h k = ground arith

    pub try_send_established :
        (u : Unit {0}) (key : PublicKey)
        → a.connects ≡ ok u
        → a.handshake (KeyRegistry.get n.key_registry peer_id) ≡ ok key
        → try_send hash n a t payload message_id peer_id
          ≡ in_session hash n a t key peer_id (framed message_id payload)
    unfolding try_send
    try_send_established u key h k = ground arith
