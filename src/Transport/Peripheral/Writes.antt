-- ===== src/Transport/Peripheral/Writes.antt =====
-- What reaches the connection of a subscriber.
use pathweave.Base.{
  ℕ, suc, true, false, ◌≡◌, refl, sym, ◌∙◌, List, [], ◌∷◌, ◌++◌, append_assoc, append-nil, none,
  some, arith, inl, inr, ◌==◌, Option-cases, List-cases, All,
}
use pathweave.Base.{nat_eq}
use pathweave.Base.Map
use pathweave.Base.Map.{Map, get-insert_same, get-insert, get-remove}
use pathweave.Types.{Bytes, bytes_eq}
use pathweave.Transport.Peripheral.{
  Event, subscribed, wrote, replied, received, dropped, sends, Peripheral, is_active, on_notify,
  push_write, on_write, on_reply, step, peripheral_loop,
}
use pathweave.Transport.Peripheral.{recv_bytes}

-- The connection of the channel neither receives nor is dropped, and no reply fails.
abbrev pub IsQuiet : ℕ → Event → Type 0
IsQuiet channel (replied is_ok) = is_ok ≡ true
IsQuiet channel (received other) = (other == channel) ≡ false
IsQuiet channel (dropped other) = (other == channel) ≡ false
IsQuiet channel _ = Unit

-- The writes that can be read.
abbrev pub read_of : Event → List Bytes
read_of (wrote (some bytes)) = bytes ∷ []
read_of _ = []

abbrev pub writes : List Event → List Bytes
writes [] = []
writes (event ∷ events) = read_of event ++ writes events

-- The channel is that of the active connection and holds a queue; these connections were handed out.
abbrev pub Holds : ℕ → List Bytes → List ℕ → Peripheral → Type 0
Holds channel queue accepted s =
    (s.active_write_tx ≡ some channel)
    × (Map.get channel s.queues ≡ some queue)
    × (s.accepted ≡ accepted)

module _ (channel : ℕ) (accepted : List ℕ) where
  is_active_of :
      (s : Peripheral) (queue : List Bytes) → Holds channel queue accepted s → is_active s ≡ true
  unfolding is_active
  is_active_of s queue (a, q, c) = rw (is_active, a) (ground (arith, q))

  on_notify-Holds :
      (s : Peripheral) (w : ℕ) (queue : List Bytes)
      → Holds channel queue accepted s
      → Holds channel queue accepted (on_notify s w)
  unfolding on_notify
  on_notify-Holds s w queue h = rw (is_active_of s queue h) h

  on_write-Holds :
      (s : Peripheral) (bytes : Bytes) (queue : List Bytes)
      → Holds channel queue accepted s
      → Holds channel (queue ++ bytes ∷ []) accepted (on_write s (some bytes))
  unfolding on_write push_write
  on_write-Holds s bytes queue (a, q, c) =
      rw (on_write, a, push_write, q) (a, get-insert_same channel (queue ++ bytes ∷ []) s.queues, c)

  on_reply-Holds :
      (s : Peripheral) (queue : List Bytes)
      → Holds channel queue accepted s
      → Holds channel queue accepted (on_reply s true)
  unfolding on_reply
  on_reply-Holds s queue h = elim (Option-cases s.writer) [
    | inl e ↦ rw (on_reply, e) h
    | inr (w, e) ↦ elim (List-cases s.replies) [
      | inl f ↦ rw (on_reply, e, f) h
      | inr (b, replies, f) ↦ rw (on_reply, e, f) h
    ]
  ]

  recv_bytes-Holds :
      (s : Peripheral) (other : ℕ) (queue : List Bytes)
      → (other == channel) ≡ false
      → Holds channel queue accepted s
      → Holds channel queue accepted (recv_bytes s other).0
  unfolding recv_bytes
  recv_bytes-Holds s other queue d (a, q, c) = elim (Option-cases (Map.get other s.queues)) [
    | inl e ↦ rw (recv_bytes, e) (a, q, c)
    | inr (messages, e) ↦ elim (List-cases messages) [
      | inl f ↦ rw (recv_bytes, e, f) (a, q, c)
      | inr (b, rest, f) ↦
          rw (recv_bytes, e, f) (a, get-insert other channel rest s.queues ∙ rw d q, c)
    ]
  ]

  step-Holds :
      (s : Peripheral) (event : Event) (queue : List Bytes)
      → IsQuiet channel event
      → Holds channel queue accepted s
      → Holds channel (queue ++ read_of event) accepted (step s event)
  unfolding step on_write
  step-Holds s (subscribed w) queue q h = rw (append-nil queue) (on_notify-Holds s w queue h)
  step-Holds s (wrote none) queue q h = rw (append-nil queue) h
  step-Holds s (wrote (some bytes)) queue q h = on_write-Holds s bytes queue h
  step-Holds s (replied is_ok) queue q h = rw (append-nil queue, q) (on_reply-Holds s queue h)
  step-Holds s (sends bytes) queue q h = rw (append-nil queue) h
  step-Holds s (received other) queue q h =
      rw (append-nil queue) (recv_bytes-Holds s other queue q h)
  step-Holds s (dropped other) queue q (a, g, c) =
      rw (append-nil queue) (a, get-remove other channel s.queues ∙ rw q g, c)

  peripheral_loop-Holds :
      (s : Peripheral) (events : List Event) (queue : List Bytes)
      → All (IsQuiet channel) events
      → Holds channel queue accepted s
      → Holds channel (queue ++ writes events) accepted (peripheral_loop s events)
  unfolding peripheral_loop
  peripheral_loop-Holds s [] queue q h = rw (append-nil queue) h
  peripheral_loop-Holds s (event ∷ events) queue q h =
      rw (sym (append_assoc queue (read_of event) (writes events))) (
        peripheral_loop-Holds (step s event) events (queue ++ read_of event) q.1
          (step-Holds s event queue q.0 h))

-- The state after the first subscriber.
abbrev first : Peripheral → ℕ → Peripheral
first s w = record s {
  writer = some w;
  active_write_tx = some s.next_channel;
  queues = Map.insert s.next_channel [] s.queues;
  next_channel = suc s.next_channel;
  accepted = s.accepted ++ s.next_channel ∷ [];
}

on_notify-first : (s : Peripheral) (w : ℕ) → is_active s ≡ false → on_notify s w ≡ first s w
unfolding on_notify
on_notify-first s w idle = rw (on_notify, idle) refl

-- A subscriber comes while no connection is active, and the peripheral hands out one connection for
-- it. Whatever else happens then, in whatever order: as long as that connection does not yet
-- receive and is not dropped, and no reply fails to be written, it holds exactly the writes that
-- can be read, in their order; no other connection is handed out, however many subscribers come.
pub peripheral_loop-writes :
    (s : Peripheral) (w : ℕ) (events : List Event)
    → is_active s ≡ false
    → All (IsQuiet s.next_channel) events
    → let s' = peripheral_loop s (subscribed w ∷ events) in
      (Map.get s.next_channel s'.queues ≡ some (writes events))
      × (s'.accepted ≡ s.accepted ++ s.next_channel ∷ [])
      × (s'.active_write_tx ≡ some s.next_channel)
unfolding peripheral_loop step
peripheral_loop-writes s w events idle quiet =
    let opened = on_notify s w in
    let e : opened ≡ first s w = on_notify-first s w idle in
    let (a, q, c) =
      peripheral_loop-Holds s.next_channel (s.accepted ++ s.next_channel ∷ []) opened events []
        quiet (rw e (refl, get-insert_same s.next_channel [] s.queues, refl)) in
    (q, c, a)
