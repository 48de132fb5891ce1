-- ===== src/Router/Dial.antt =====
-- `try_send` and `try_connect` of router.rs. What the network, the remote node and the Noise
-- library answer is an argument, `Answers`; the node's own state is `Net`.
pub mod Steps
pub mod Identity
use pathweave.Base.{ℕ, Bool, List, [], ◌∷◌, ◌++◌, Option, none, some, if◌then◌else◌}
use pathweave.Types.{
  Bytes, PeerId, PublicKey, bytes_eq, PathweaveError, transport, Result, ok, err, PeerAddress,
  TransportEvent,
}
use pathweave.Bytes.{Fault, panic, ret, to_be_bytes}
use pathweave.PeerTable.{PeerTable, upsert_peer_addresses}
use pathweave.Router.{Transport, local_addresses}
use pathweave.KeyRegistry
use pathweave.KeyRegistry.{KeyRegistryState, get, remove, insert_direct}
use pathweave.AddrExchange.{encode_addr_exchange, decode_addr_exchange}
use pathweave.Types.{peer_id_from_public_key}

-- `timeout(…, session.recv())`.
pub data Received : Type 0 where
  arrived : Bytes → Received
  failed : PathweaveError → Received
  timed_out : Received

-- The answers to one dialled connection, in the order in which the code waits for them: the
-- transport's `connect`; `Session::initiate`, given the remote key of Noise_XK or none for Noise_XX,
-- with the static key of the remote node; the address exchange; the send of the framed message;
-- and the delivery ACK.
pub record Answers : Type 0 where
  pub connects : Result (Unit {0})
  pub handshake : Option PublicKey → Result PublicKey
  pub exchange : Received
  pub accepts : Bytes → Result (Unit {0})
  pub ack : Received

-- What was handed to `Session::send`: the node at the other end, and the plaintext.
pub data Sent : Type 0 where
  sent : PeerId → Bytes → Sent

pub record Net : Type 0 where
  pub key_registry : KeyRegistryState
  pub peers : PeerTable
  pub events : List TransportEvent
  pub log : List Sent

-- The decoder never panics, see `AddrExchange.Safety`.
unfoldable pub decoded : Fault (Option (List PeerAddress)) → Option (List PeerAddress)
decoded panic = none
decoded (ret addrs) = addrs

-- The `match` on the answer to the address exchange.
unfoldable pub learn_addresses : Net → PeerId → Received → Net
learn_addresses n peer_id (arrived bytes) = elim (decoded (decode_addr_exchange bytes)) [
  | none ↦ n
  | some addrs ↦ record n { peers = upsert_peer_addresses n.peers peer_id addrs }
]
learn_addresses n peer_id _ = n

unfoldable pub write : Net → PeerId → Bytes → Net
write n remote message = record n { log = n.log ++ sent remote message ∷ [] }

-- The message id in front of the payload.
unfoldable pub framed : ℕ → Bytes → Bytes
framed message_id payload = to_be_bytes 8 message_id ++ payload

-- The last `match` of `try_send`.
unfoldable pub acknowledged : Option PublicKey → Received → Result (Option PublicKey)
acknowledged learned_key (arrived bytes) = ok learned_key
acknowledged learned_key (failed e) = err e
acknowledged learned_key timed_out = err transport

unfoldable pub learned : Bool → PublicKey → Option PublicKey
learned is_new_key key = if is_new_key then some key else none

-- `hash` stands for `blake3::hash`.
module _ (hash : Bytes → Bytes) where
  -- An established session: the key is registered under the remote node's own identity.
  unfoldable pub register : Net → PublicKey → Net × Option PublicKey
  register n key =
      let (registry, is_new_key) =
        KeyRegistry.insert_direct n.key_registry (peer_id_from_public_key hash key) key in
      (record n { key_registry = registry }, learned is_new_key key)

  -- The framed message and its ACK.
  unfoldable pub deliver :
      Net → Answers → Option PublicKey → PeerId → Bytes → Net × Result (Option PublicKey)
  deliver n a learned_key remote message = elim (a.accepts message) [
    | err e ↦ (write n remote message, err e)
    | ok _ ↦ (write n remote message, acknowledged learned_key a.ack)
  ]

  -- The handshake failed: a key that was used is stale.
  unfoldable pub evict : Net → PeerId → Option PublicKey → Net
  evict n peer_id none = n
  evict n peer_id (some key) = record n {
    key_registry = (KeyRegistry.remove n.key_registry peer_id).0;
  }

  unfoldable pub in_session :
      Net → Answers → Transport → PublicKey → PeerId → Bytes → Net × Result (Option PublicKey)
  in_session n a t key peer_id message =
      let remote = peer_id_from_public_key hash key in
      let (n1, learned_key) = register n key in
      let n2 = write n1 remote (encode_addr_exchange t.local_addresses) in
      deliver (learn_addresses n2 peer_id a.exchange) a learned_key remote message

  unfoldable pub try_send :
      Net → Answers → Transport → Bytes → ℕ → PeerId → Net × Result (Option PublicKey)
  try_send n a t payload message_id peer_id =
      let remote_key = KeyRegistry.get n.key_registry peer_id in
      elim a.connects [
        | err e ↦ (n, err e)
        | ok _ ↦ elim (a.handshake remote_key) [
          | err e ↦ (evict n peer_id remote_key, err e)
          | ok key ↦ in_session n a t key peer_id (framed message_id payload)
        ]
      ]

  -- Always Noise_XX: the remote node tells who it is.
  unfoldable pub try_connect : Net → Answers → Transport → Net × Result (PeerId × Option PublicKey)
  try_connect n a t = elim a.connects [
    | err e ↦ (n, err e)
    | ok _ ↦ elim (a.handshake none) [
      | err e ↦ (n, err e)
      | ok key ↦
          let remote = peer_id_from_public_key hash key in
          let (n1, learned_key) = register n key in
          let n2 = write n1 remote (encode_addr_exchange t.local_addresses) in
          (learn_addresses n2 remote a.exchange, ok (remote, learned_key))
    ]
  ]
