-- ===== src/Transport/Advertising/Medium.antt =====
-- `BleAdvertisingTransport`, `BroadcastConnection` and `dispatch_loop` of
-- crates/pathweave-transport-ble/src/advertising.rs: virtual connections over a medium that everybody
-- hears. An `mpsc` channel is a number; its queue is there while its receiver is. The dispatcher
-- handles one packet at a time.
pub mod Arrival
pub mod Reconnect
use pathweave.Base.{
  ℕ, suc, ◌-◌, List, [], ◌∷◌, ◌++◌, Option, none, some, ltb, if◌then◌else◌, take, keep_if, ◌=?◌,
}
use pathweave.Base.{nat_eq, pair_eq}
use pathweave.Base.Map
use pathweave.Base.Map.{Map, contains}
use pathweave.Types.{
  wifi_direct, ble, quic, ble_advertising, Bytes, PeerId, bytes_eq, transport, Result, ok, err,
  PeerAddress, PeerAnnouncement,
}
use pathweave.Bytes.{Fault, ret, panic, ◌>>=◌}
use pathweave.Transport.Advertising.{encode_header, decode_header, short_id_to_hex, hex_to_short_id}

-- DEDUP_TTL, 2 seconds.
abbrev pub dedup_ttl : ℕ
dedup_ttl = 2_000_000_000

pub record BroadcastConnection : Type 0 where
  pub local_short_id : Bytes
  pub peer_short_id : Bytes
  pub inbound_rx : ℕ

-- The transport, with the `recent` of its dispatcher. `queues` are the channels whose receiver is
-- alive, `next_channel` the one to be made next; `announced` is what `discover` gives.
pub record Medium : Type 0 where
  pub local_short_id : Option Bytes
  pub connections : Map Bytes ℕ
  pub queues : Map ℕ (List Bytes)
  pub next_channel : ℕ
  pub incoming : List BroadcastConnection
  pub announced : List PeerAnnouncement
  pub recent : Map (Bytes × ℕ) ℕ

-- `with_bearer`.
unfoldable pub with_bearer : Medium
with_bearer = record {
  local_short_id = none;
  connections = [];
  queues = [];
  next_channel = 0;
  incoming = [];
  announced = [];
  recent = [];
}

-- `start`: a dispatcher with nothing in its `recent`.
unfoldable pub start : Medium → PeerId → Medium
start s peer_id = record s { local_short_id = some (take 8 peer_id); recent = [] }

-- `stop`: the senders of the map go.
unfoldable pub stop : Medium → Medium
stop s = record s { local_short_id = none; connections = [] }

unfoldable pub local_addresses : Medium → List PeerAddress
local_addresses s = elim s.local_short_id [
  | none ↦ []
  | some id ↦ ble_advertising (short_id_to_hex id) ∷ []
]

-- `tx.send`: nothing happens where the receiver is gone.
unfoldable pub tx_send : Medium → ℕ → Bytes → Medium
tx_send s channel payload = elim (Map.get channel s.queues) [
  | none ↦ s
  | some queue ↦ record s { queues = Map.insert channel (queue ++ payload ∷ []) s.queues }
]

-- `mpsc::unbounded_channel`, whose sender goes into the map.
unfoldable pub open_channel : Medium → Bytes → Medium
open_channel s peer_short_id = record s {
  connections = Map.insert peer_short_id s.next_channel s.connections;
  queues = Map.insert s.next_channel [] s.queues;
  next_channel = suc s.next_channel;
}

-- A connection is dropped, and its receiver with it.
unfoldable pub drop_connection : Medium → BroadcastConnection → Medium
drop_connection s conn = record s { queues = Map.remove conn.inbound_rx s.queues }

-- `connect`, to a short id that was parsed.
unfoldable pub connect_to : Medium → Bytes → Medium × Result BroadcastConnection
connect_to s peer_short_id = elim s.local_short_id [
  | none ↦ (s, err transport)
  | some local_short_id ↦ (
    open_channel s peer_short_id,
    ok (record {
      local_short_id = local_short_id;
      peer_short_id = peer_short_id;
      inbound_rx = s.next_channel;
    }),
  )
]

unfoldable pub connect_hex :
    Medium → Fault (Option Bytes) → Fault (Medium × Result BroadcastConnection)
connect_hex s panic = panic
connect_hex s (ret none) = ret (s, err transport)
connect_hex s (ret (some peer_short_id)) = ret (connect_to s peer_short_id)

unfoldable pub connect : Medium → PeerAnnouncement → Fault (Medium × Result BroadcastConnection)
connect s peer = elim peer.address [
  | ble_advertising hex_id ↦ connect_hex s (hex_to_short_id hex_id)
  | quic a ↦ ret (s, err transport)
  | ble a ↦ ret (s, err transport)
  | wifi_direct a ↦ ret (s, err transport)
]

-- The packet that `send_bytes` hands to the bearer.
unfoldable pub packet : BroadcastConnection → Bytes → Bytes
packet conn bytes = encode_header conn.peer_short_id conn.local_short_id ++ bytes

-- The next message of a connection; none is there while the queue is empty or the senders are gone.
unfoldable pub recv_bytes : Medium → BroadcastConnection → Medium × Option Bytes
recv_bytes s conn = elim (Map.get conn.inbound_rx s.queues) [
  | none ↦ (s, none)
  | some [] ↦ (s, none)
  | some (message ∷ queue) ↦
      (record s { queues = Map.insert conn.inbound_rx queue s.queues }, some message)
]

unfoldable pub accept : Medium → Medium × Option BroadcastConnection
accept s = elim s.incoming [
  | [] ↦ (s, none)
  | conn ∷ incoming ↦ (record s { incoming = incoming }, some conn)
]

-- A packet for this node: into the channel of its source, or into a new one that `accept` gives out.
unfoldable pub surface : Medium → Bytes → Bytes → Bytes → Medium
surface s local_short_id source payload = elim (Map.get source s.connections) [
  | some channel ↦ tx_send s channel payload
  | none ↦
      let s1 : Medium = tx_send (open_channel s source) s.next_channel payload in
      record s1 {
        incoming =
            s1.incoming
            ++ record {
              local_short_id = local_short_id;
              peer_short_id = source;
              inbound_rx = s.next_channel;
            }
              ∷ [];
      }
]

-- `hash_payload` is a parameter.
module _ (hash_payload : Bytes → ℕ) where
  -- The entries of `recent` that are not too old.
  unfoldable pub live : Medium → ℕ → Map (Bytes × ℕ) ℕ
  live s now = keep_if (λ entry. ltb (now - entry.1) dedup_ttl) s.recent

  -- A packet that was not heard just before: it is remembered, and its source announced.
  unfoldable pub note : Medium → ℕ → Bytes → Bytes → Medium
  note s now source payload = record s {
    recent = Map.insert (source, hash_payload payload) now (live s now);
    announced =
        s.announced
        ++ record { address = ble_advertising (short_id_to_hex source); short_id = some source }
          ∷ [];
  }

  -- The body of `dispatch_loop` behind the header, on a node that is started.
  unfoldable pub observe : Medium → ℕ → Bytes → Bytes → Bytes → Bytes → Medium
  observe s now local_short_id dest source payload =
      if source =? local_short_id
      then s
      else if contains (source, hash_payload payload) (live s now)
      then record s { recent = live s now }
      else if dest =? local_short_id
      then surface (note s now source payload) local_short_id source payload
      else note s now source payload

  unfoldable pub on_header :
      Medium → ℕ → Bytes → Fault (Option (Bytes × Bytes × Bytes)) → Fault Medium
  on_header s now local_short_id panic = panic
  on_header s now local_short_id (ret none) = ret s
  on_header s now local_short_id (ret (some (dest, source, payload))) =
      ret (observe s now local_short_id dest source payload)

  -- One turn of `dispatch_loop`, while the transport is started.
  unfoldable pub dispatch : Medium → ℕ → Bytes → Fault Medium
  dispatch s now bytes = elim s.local_short_id [
    | none ↦ ret s
    | some local_short_id ↦ on_header s now local_short_id (decode_header bytes)
  ]

  -- The packets that the scan gives, each with its time.
  unfoldable pub dispatch_loop : Medium → List (ℕ × Bytes) → Fault Medium
  dispatch_loop s [] = ret s
  dispatch_loop s ((now, bytes) ∷ packets) = do s1 ← dispatch s now bytes; dispatch_loop s1 packets
