-- ===== src/Node/Dispatch.antt =====
-- `dispatch_payload` and `spawn_relay_to_neighbors` of node.rs: what a node does with one
-- application frame that a session delivered.
pub mod Effects
pub mod Registry
pub mod Relays
pub mod Hops
pub mod Delivery
pub mod Once
use pathweave.Base.{
  ℕ, suc, ◌-◌, min, Bool, not, ◌&&◌, List, [], ◌∷◌, ◌++◌, map, none, some, ltb, ◌==◌, if◌then◌else◌,
  length, keep_if, ◌=?◌,
}
use pathweave.Types.{Bytes, PeerId, PublicKey, bytes_eq, Result, ok, err, PeerAnnouncement}
use pathweave.Bytes.{◌>>=◌, Fault, ret, index, slice, from_be_bytes}
use pathweave.PeerTable.{PeerTable}
use pathweave.Dedup.{DeduplicationCache, check_and_insert, check_and_insert_routed}
use pathweave.KeyAnnouncement.{
  encode_key_announcement, decode_key_announcement, validate_key_announcement,
}
use pathweave.KeyRegistry
use pathweave.KeyRegistry.{KeyRegistryState, get, insert_gossip}

-- MAX_TTL.
abbrev pub max_ttl : ℕ
max_ttl = 7

-- A background send that was spawned: `Router::send` of `body` under `message_id`.
pub record Relay : Type 0 where
  pub to_peer : PeerId
  pub announced : List PeerAnnouncement
  pub message_id : ℕ
  pub body : Bytes

-- The shared state behind the node's mutexes, with what it did to the outside: the calls of the
-- application's handler, the sends spawned, and the ACKs handed to the session.
pub record NodeState : Type 0 where
  pub local_peer_id : PeerId
  pub key_registry : KeyRegistryState
  pub peers : PeerTable
  pub dedup : DeduplicationCache
  pub has_handler : Bool
  pub delivered : List (PeerId × Bytes)
  pub relays : List Relay
  pub acks : ℕ

unfoldable pub on_message : NodeState → PeerId → Bytes → NodeState
on_message s from_peer content =
    if s.has_handler then record s { delivered = s.delivered ++ (from_peer, content) ∷ [] } else s

-- The neighbours of a relay: neither the sender nor the node itself.
unfoldable pub neighbors : PeerTable → PeerId → PeerId → List (PeerId × List PeerAnnouncement)
neighbors peers sender local_peer_id =
    keep_if (λ entry. not (entry.0 =? sender) && not (entry.0 =? local_peer_id)) peers

unfoldable pub spawn_relay_to_neighbors : NodeState → Bytes → ℕ → PeerId → NodeState
spawn_relay_to_neighbors s body msg_id sender = record s {
  relays =
      s.relays
      ++ map
          (λ entry. record {
            to_peer = entry.0;
            announced = entry.1;
            message_id = msg_id;
            body = body;
          })
          (neighbors s.peers sender s.local_peer_id);
}

-- `dedup.lock()…check_and_insert_routed(msg_id)`, and what follows where it is no duplicate.
unfoldable pub once_routed : NodeState → ℕ → ℕ → (NodeState → NodeState) → NodeState
once_routed s now msg_id act =
    let (cache, is_dup) = check_and_insert_routed s.dedup now msg_id in
    let s1 : NodeState = record s { dedup = cache } in if is_dup then s1 else act s1

-- Route flag 0x00.
unfoldable pub dispatch_direct : NodeState → ℕ → PeerId → ℕ → Bytes → NodeState
dispatch_direct s now sender msg_id content =
    let (cache, is_dup) = check_and_insert s.dedup now sender msg_id in
    let s1 : NodeState = record s { dedup = cache } in
    if is_dup then s1 else on_message s1 sender content

-- `relay_body`, of routed (0x01) and of sealed (0x03) frames.
unfoldable pub routed_body : ℕ → PeerId → ℕ → Bytes → Bytes
routed_body flag dest ttl rest = flag ∷ (dest ++ ttl ∷ rest)

-- The three branches on the destination and the hop count, for 0x01 and 0x03 alike: `here` is what
-- the destination does.
unfoldable pub route :
    NodeState → ℕ → PeerId → ℕ → ℕ → PeerId → ℕ → Bytes → (NodeState → NodeState) → NodeState
route s now sender msg_id flag dest ttl rest here =
    if dest =? s.local_peer_id
    then once_routed s now msg_id here
    else if ttl == 0
    then s
    else once_routed s now msg_id
        λ s1. spawn_relay_to_neighbors s1 (routed_body flag dest (ttl - 1) rest) msg_id sender

-- Route flag 0x01.
unfoldable pub dispatch_routed : NodeState → ℕ → PeerId → ℕ → Bytes → Fault NodeState
dispatch_routed s now sender msg_id payload = if ltb (length payload) 42 then ret s else do
  dest ← slice payload 9 41
  hops ← index payload 41
  app_payload ← slice payload 42 (length payload)
  ret (
      route s now sender msg_id 0x01 dest (min hops max_ttl) app_payload
        λ s1. on_message s1 sender app_payload)

-- An announcement that passed the hash test and is no duplicate.
unfoldable pub learn_key : PeerId → ℕ → PeerId → PublicKey → ℕ → NodeState → NodeState
learn_key sender msg_id announced public_key ttl s =
    let s1 : NodeState = record s {
      key_registry = KeyRegistry.insert_gossip s.key_registry announced public_key;
    } in
    if ltb 0 ttl
    then spawn_relay_to_neighbors s1 (encode_key_announcement announced public_key (ttl - 1)) msg_id
        sender
    else s1

-- `session.send(b"")`.
unfoldable pub send_ack : NodeState → NodeState
send_ack s = record s { acks = suc s.acks }

-- `hash` stands for `blake3::hash`, and `unseal` for `session::unseal` with the node's identity.
module _ (hash : Bytes → Bytes) where
  -- Route flag 0x02.
  unfoldable pub dispatch_key_announcement : NodeState → ℕ → PeerId → ℕ → Bytes → Fault NodeState
  dispatch_key_announcement s now sender msg_id payload = do
    content ← slice payload 9 (length payload)
    parsed ← decode_key_announcement content
    ret (elim parsed [
      | none ↦ s
      | some (announced, public_key, ttl) ↦
          if validate_key_announcement hash announced public_key
          then once_routed s now msg_id
              (learn_key sender msg_id announced public_key (min ttl max_ttl))
          else s
    ])

module _ (unseal : PeerId → PublicKey → Bytes → Result Bytes) where
  -- The destination of a sealed frame opens it with the key of the sender that the envelope names.
  unfoldable pub open_sealed : PeerId → Bytes → NodeState → NodeState
  open_sealed sealed_sender noise_k_message s =
      elim (KeyRegistry.get s.key_registry sealed_sender) [
        | none ↦ s
        | some sender_key ↦ elim (unseal sealed_sender sender_key noise_k_message) [
          | err e ↦ s
          | ok plaintext ↦ on_message s sealed_sender plaintext
        ]
      ]

  -- Route flag 0x03.
  unfoldable pub dispatch_sealed : NodeState → ℕ → PeerId → ℕ → Bytes → Fault NodeState
  dispatch_sealed s now sender msg_id payload = if ltb (length payload) 74 then ret s else do
    dest ← slice payload 9 41
    hops ← index payload 41
    envelope ← slice payload 42 (length payload)
    sealed_sender ← slice envelope 0 32
    noise_k_message ← slice envelope 32 (length envelope)
    ret (
        route s now sender msg_id 0x03 dest (min hops max_ttl) envelope
          (open_sealed sealed_sender noise_k_message))

module _ (hash : Bytes → Bytes) (unseal : PeerId → PublicKey → Bytes → Result Bytes) where
  -- The `match` on the route flag.
  unfoldable pub dispatch_flag : NodeState → ℕ → PeerId → ℕ → ℕ → Bytes → Fault NodeState
  dispatch_flag s now sender msg_id route_flag payload =
      if route_flag == 0x00
      then (do
        content ← slice payload 9 (length payload)
        ret (dispatch_direct s now sender msg_id content))
      else if route_flag == 0x01
      then dispatch_routed s now sender msg_id payload
      else if route_flag == 0x02
      then dispatch_key_announcement hash s now sender msg_id payload
      else if route_flag == 0x03
      then dispatch_sealed unseal s now sender msg_id payload
      else ret s

  unfoldable pub dispatch_payload : NodeState → ℕ → PeerId → Bytes → Fault NodeState
  dispatch_payload s now sender payload = if ltb (length payload) 9 then ret (send_ack s) else do
    id ← slice payload 0 8
    route_flag ← index payload 8
    s1 ← dispatch_flag s now sender (from_be_bytes 0 id) route_flag payload
    ret (send_ack s1)
