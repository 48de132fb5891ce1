-- ===== src/Transport/Peripheral.antt =====
-- `peripheral_loop` of crates/pathweave-transport-ble/src/lib.rs (Linux), which owns the GATT
-- characteristic of a peripheral, and `BlePeripheralConnection`, the connection it hands out. A
-- channel is a number; its queue is there while its receiver is. Subscribers are numbers too.
pub mod Writes
use pathweave.Base.{ℕ, suc, Bool, false, List, [], ◌∷◌, ◌++◌, Option, none, some, if◌then◌else◌}
use pathweave.Base.{nat_eq}
use pathweave.Base.Map
use pathweave.Base.Map.{Map, contains}
use pathweave.Types.{Bytes, bytes_eq}

-- The variables of the loop, with the connections handed to `conn_tx`, the replies that wait in
-- `reply_rx`, and what was written to which subscriber.
pub record Peripheral : Type 0 where
  pub writer : Option ℕ
  pub active_write_tx : Option ℕ
  pub queues : Map ℕ (List Bytes)
  pub next_channel : ℕ
  pub accepted : List ℕ
  pub replies : List Bytes
  pub written : List (ℕ × Bytes)

unfoldable pub new : Peripheral
new = record {
  writer = none;
  active_write_tx = none;
  queues = [];
  next_channel = 0;
  accepted = [];
  replies = [];
  written = [];
}

-- What the loop and its connections may do next, in any order: a subscriber comes; a write arrives,
-- `none` where it cannot be read; a reply is taken, with whether `write_all` succeeds; a connection
-- sends, receives, or is dropped.
pub data Event : Type 0 where
  subscribed : ℕ → Event
  wrote : Option Bytes → Event
  replied : Bool → Event
  sends : Bytes → Event
  received dropped : ℕ → Event

-- `active_write_tx.as_ref().is_some_and(|tx| !tx.is_closed())`.
unfoldable pub is_active : Peripheral → Bool
is_active s = elim s.active_write_tx [ none ↦ false | some channel ↦ contains channel s.queues ]

unfoldable pub on_notify : Peripheral → ℕ → Peripheral
on_notify s w = if is_active s then s else record s {
  writer = some w;
  active_write_tx = some s.next_channel;
  queues = Map.insert s.next_channel [] s.queues;
  next_channel = suc s.next_channel;
  accepted = s.accepted ++ s.next_channel ∷ [];
}

-- `tx.send`, which fails where the receiver is gone.
unfoldable pub push_write : Peripheral → ℕ → Bytes → Peripheral
push_write s channel bytes = elim (Map.get channel s.queues) [
  | none ↦ record s { active_write_tx = none }
  | some queue ↦ record s { queues = Map.insert channel (queue ++ bytes ∷ []) s.queues }
]

unfoldable pub on_write : Peripheral → Option Bytes → Peripheral
on_write s none = s
on_write s (some bytes) = elim s.active_write_tx [
  | none ↦ s
  | some channel ↦ push_write s channel bytes
]

-- The branch is disabled while there is no writer.
unfoldable pub on_reply : Peripheral → Bool → Peripheral
on_reply s is_ok = elim s.writer [
  | none ↦ s
  | some w ↦ elim s.replies [
    | [] ↦ s
    | bytes ∷ replies ↦
        if is_ok
        then record s { replies = replies; written = s.written ++ (w, bytes) ∷ [] }
        else record s { replies = replies; writer = none; active_write_tx = none }
  ]
]

-- `recv_bytes` of a connection, which takes the first message where there is one.
unfoldable pub recv_bytes : Peripheral → ℕ → Peripheral × Option Bytes
recv_bytes s channel = elim (Map.get channel s.queues) [
  | none ↦ (s, none)
  | some [] ↦ (s, none)
  | some (bytes ∷ queue) ↦ (record s { queues = Map.insert channel queue s.queues }, some bytes)
]

unfoldable pub step : Peripheral → Event → Peripheral
step s (subscribed w) = on_notify s w
step s (wrote bytes) = on_write s bytes
step s (replied is_ok) = on_reply s is_ok
step s (sends bytes) = record s { replies = s.replies ++ bytes ∷ [] }
step s (received channel) = (recv_bytes s channel).0
step s (dropped channel) = record s { queues = Map.remove channel s.queues }

unfoldable pub peripheral_loop : Peripheral → List Event → Peripheral
peripheral_loop s [] = s
peripheral_loop s (event ∷ events) = peripheral_loop (step s event) events
