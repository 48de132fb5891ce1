-- ===== src/Transport/Gatt.antt =====
-- `windows_peripheral_task` and `macos_peripheral_task` of crates/pathweave-transport-ble/src/lib.rs,
-- which do the same, with the callbacks that feed them (those that `start_peripheral` registers on
-- Windows, `MacosPeripheralDelegate` on macOS) and the connections that they hand out. A channel is
-- a number; its queue is there while its connection is, which holds its sender of replies too.
pub mod Replies
pub mod Stuck
pub mod Frees
use pathweave.Base.{
  ℕ, zero, suc, Bool, true, false, List, [], ◌∷◌, ◌++◌, Option, none, some, ltb, ◌==◌,
  if◌then◌else◌,
}
use pathweave.Base.{nat_eq}
use pathweave.Base.Map
use pathweave.Base.Map.{Map, contains}
use pathweave.Types.{Bytes, bytes_eq, Result, ok, err, transport}

-- Where the task is: it waits for a subscriber, serves the connection of a channel, or is over.
pub data Phase : Type 0 where
  waiting ended : Phase
  serving : ℕ → Phase

-- The variables of the task and what it shares: the signals in `subscribe_rx`, the channel whose
-- `write_tx` is in `write_forward`, the messages in the channels and in `reply_rx`, whether the
-- receiver of `conn_tx` is there and the connections handed to it; and, by channel, what the
-- connections sent with success and what was taken to notify the subscribers.
pub record Task : Type 0 where
  pub phase : Phase
  pub subscriptions : ℕ
  pub write_forward : Option ℕ
  pub queues : Map ℕ (List Bytes)
  pub replies : List Bytes
  pub next_channel : ℕ
  pub is_accepting : Bool
  pub accepted : List ℕ
  pub sent : List (ℕ × Bytes)
  pub notified : List (ℕ × Bytes)

unfoldable pub new : Task
new = record {
  phase = waiting;
  subscriptions = 0;
  write_forward = none;
  queues = [];
  replies = [];
  next_channel = 0;
  is_accepting = true;
  accepted = [];
  sent = [];
  notified = [];
}

-- What may happen next, in any order. Callbacks of Windows: the number of subscribers has changed, a
-- write has come, each `none` where it cannot be read. Callbacks of macOS: a subscriber, a batch of
-- writes. Branches of the task: it takes a signal, a reply, or the stop. The receiver of `conn_tx` is
-- dropped; a connection sends, receives, or is dropped.
pub data Event : Type 0 where
  clients_changed : Option ℕ → Event
  write_requested : Option Bytes → Event
  subscribed : Event
  writes_received : List (Option Bytes) → Event
  takes_signal takes_reply stops closes : Event
  sends : ℕ → Bytes → Event
  receives drops : ℕ → Event

-- `SubscribedClientsChanged`: a signal while there is a subscriber; the sender is dropped otherwise.
unfoldable pub subscribed_clients_changed : Task → Option ℕ → Task
subscribed_clients_changed s none = s
subscribed_clients_changed s (some size) =
    if ltb 0 size
    then record s { subscriptions = suc s.subscriptions }
    else record s { write_forward = none }

unfoldable pub did_subscribe : Task → Task
did_subscribe s = record s { subscriptions = suc s.subscriptions }

-- `tx.send`, whose failure is ignored.
unfoldable pub push_write : Task → ℕ → Bytes → Task
push_write s channel bytes = elim (Map.get channel s.queues) [
  | none ↦ s
  | some queue ↦ record s { queues = Map.insert channel (queue ++ bytes ∷ []) s.queues }
]

-- A write without an active connection is discarded.
unfoldable pub forward : Task → Option Bytes → Task
forward s none = s
forward s (some bytes) = elim s.write_forward [
  | none ↦ s
  | some channel ↦ push_write s channel bytes
]

unfoldable pub did_receive_writes : Task → List (Option Bytes) → Task
did_receive_writes s [] = s
did_receive_writes s (request ∷ requests) = did_receive_writes (forward s request) requests

-- A new pair of channels. Where `conn_tx.send` fails the connection is dropped at once.
unfoldable pub open_connection : Task → Task
open_connection s = record s {
  phase = serving s.next_channel;
  write_forward = some s.next_channel;
  queues = if s.is_accepting then Map.insert s.next_channel [] s.queues else s.queues;
  replies = [];
  next_channel = suc s.next_channel;
  accepted = if s.is_accepting then s.accepted ++ s.next_channel ∷ [] else s.accepted;
}

-- `subscribe_rx.recv()`, which waits where there is no signal. Its sender lives as long as the task.
unfoldable pub take_signal : Task → Phase → ℕ → Task
take_signal s phase zero = s
take_signal s waiting (suc n) = open_connection (record s { subscriptions = n })
take_signal s (serving channel) (suc n) = record s { subscriptions = n }
take_signal s ended (suc n) = s

-- `reply_rx.recv()`, which returns `None` once the connection is gone and its replies are taken.
unfoldable pub take_reply : Task → Phase → List Bytes → Task
take_reply s waiting replies = s
take_reply s ended replies = s
take_reply s (serving channel) (bytes ∷ replies) = record s {
  replies = replies;
  notified = s.notified ++ (channel, bytes) ∷ [];
}
take_reply s (serving channel) [] =
    if contains channel s.queues then s else record s { phase = waiting; write_forward = none }

-- The receivers of the task are dropped, and with them what they hold.
unfoldable pub stop : Task → Task
stop s = record s { phase = ended; write_forward = none; replies = [] }

unfoldable pub is_served : Phase → ℕ → Bool
is_served (serving channel) other = channel == other
is_served waiting other = false
is_served ended other = false

-- `send_bytes` of a connection that is there: the task has the receiver of the one it serves.
unfoldable pub send_bytes : Task → ℕ → Bytes → Task × Result (Unit {0})
send_bytes s channel bytes =
    if is_served s.phase channel
    then (
      record s { replies = s.replies ++ bytes ∷ []; sent = s.sent ++ (channel, bytes) ∷ [] },
      ok tt,
    )
    else (s, err transport)

unfoldable pub has_sender : Option ℕ → ℕ → Bool
has_sender none channel = false
has_sender (some active) channel = active == channel

-- `recv_bytes` of a connection: the first message, else an error once the sender is gone. It waits
-- with `none`, and also stands for a connection that is not there.
unfoldable pub recv_bytes : Task → ℕ → Task × Option (Result Bytes)
recv_bytes s channel = elim (Map.get channel s.queues) [
  | none ↦ (s, none)
  | some [] ↦ (s, if has_sender s.write_forward channel then none else some (err transport))
  | some (bytes ∷ queue) ↦
      (record s { queues = Map.insert channel queue s.queues }, some (ok bytes))
]

unfoldable pub step : Task → Event → Task
step s (clients_changed size) = subscribed_clients_changed s size
step s (write_requested bytes) = forward s bytes
step s subscribed = did_subscribe s
step s (writes_received requests) = did_receive_writes s requests
step s takes_signal = take_signal s s.phase s.subscriptions
step s takes_reply = take_reply s s.phase s.replies
step s stops = stop s
step s closes = record s { is_accepting = false }
step s (sends channel bytes) =
    if contains channel s.queues then (send_bytes s channel bytes).0 else s
step s (receives channel) = (recv_bytes s channel).0
step s (drops channel) = record s { queues = Map.remove channel s.queues }

unfoldable pub run : Task → List Event → Task
run s [] = s
run s (event ∷ events) = run (step s event) events
