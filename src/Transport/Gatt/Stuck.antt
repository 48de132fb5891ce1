-- ===== src/Transport/Gatt/Stuck.antt =====
-- How long the task keeps a connection whose subscriber may be gone: on macOS no callback tells it,
-- on Windows only a count of zero does.
use pathweave.Base.{
  ℕ, zero, suc, false, ◌≡◌, ◌≢◌, ◌⊎◌, refl, sym, ◌∙◌, subst, List, [], ◌∷◌, ◌++◌, Option, none,
  some, arith, inl, inr, ◌==◌, ==_iff, Bool-cases, Option-cases, List-cases, All, true, ltb,
}
use pathweave.Base.{nat_eq}
use pathweave.Base.Map
use pathweave.Base.Map.{Map, contains, get-insert_same, get-insert, get-remove}
use pathweave.Types.{Bytes, bytes_eq, ok, err, PathweaveError}
use pathweave.Transport.Gatt.{
  subscribed_clients_changed, serving, Task, Event, clients_changed, write_requested, subscribed,
  writes_received, takes_signal, takes_reply, stops, closes, sends, receives, drops, did_subscribe,
  push_write, forward, did_receive_writes, take_signal, take_reply, is_served, send_bytes,
  has_sender, recv_bytes, step, run,
}

-- The event neither stops the task, nor drops the connection, nor reports that no subscriber is left.
abbrev pub IsHeld : ℕ → Event → Type 0
IsHeld channel (clients_changed (some size)) = ltb 0 size ≡ true
IsHeld channel stops = ⊥
IsHeld channel (drops other) = (other == channel) ≡ false
IsHeld channel _ = Unit

-- The task serves the connection and feeds it, and these connections were handed out.
abbrev pub Serves : ℕ → List ℕ → Task → Type 0
Serves channel accepted s =
    (s.phase ≡ serving channel)
    × (s.write_forward ≡ some channel)
    × (s.accepted ≡ accepted)
    × ((queue : List Bytes) × (Map.get channel s.queues ≡ some queue))

module _ (channel : ℕ) (accepted : List ℕ) where
  forward-Serves :
      (s : Task) (request : Option Bytes)
      → Serves channel accepted s
      → Serves channel accepted (forward s request)
  unfolding forward push_write
  forward-Serves s none h = h
  forward-Serves s (some bytes) (p, w, a, (queue, q)) =
      rw (forward, w, push_write, q)
        (p, w, a, (queue ++ bytes ∷ [], get-insert_same channel (queue ++ bytes ∷ []) s.queues))

  did_receive_writes-Serves :
      (s : Task) (requests : List (Option Bytes))
      → Serves channel accepted s
      → Serves channel accepted (did_receive_writes s requests)
  unfolding did_receive_writes
  did_receive_writes-Serves s [] h = h
  did_receive_writes-Serves s (request ∷ requests) h =
      did_receive_writes-Serves (forward s request) requests (forward-Serves s request h)

  take_signal-Serves :
      (s : Task) (n : ℕ)
      → Serves channel accepted s
      → Serves channel accepted (take_signal s (serving channel) n)
  unfolding take_signal
  take_signal-Serves s zero h = h
  take_signal-Serves s (suc n) h = h

  take_reply-Serves :
      (s : Task) (replies : List Bytes)
      → Serves channel accepted s
      → Serves channel accepted (take_reply s (serving channel) replies)
  unfolding take_reply
  take_reply-Serves s [] (p, w, a, (queue, q)) = rw (take_reply, contains, q) (p, w, a, (queue, q))
  take_reply-Serves s (bytes ∷ replies) h = h

  receives-Serves :
      (s : Task) (other : ℕ)
      → Serves channel accepted s
      → Serves channel accepted (recv_bytes s other).0
  unfolding recv_bytes
  receives-Serves s other (p, w, a, (queue, q)) = elim (Option-cases (Map.get other s.queues)) [
    | inl e ↦ rw (recv_bytes, e) (p, w, a, (queue, q))
    | inr (messages, e) ↦ elim (List-cases messages) [
      | inl f ↦ rw (recv_bytes, e, f) (p, w, a, (queue, q))
      | inr (bytes, rest, f) ↦
          let g = get-insert other channel rest s.queues in
          rw (recv_bytes, e, f)
            (
              p,
              w,
              a,
              elim (Bool-cases (other == channel)) [
                | inl d ↦ (rest, g ∙ rw d refl)
                | inr d ↦ (queue, g ∙ rw d q)
              ],
            )
    ]
  ]

  sends-Serves :
      (s : Task) (other : ℕ) (bytes : Bytes)
      → Serves channel accepted s
      → Serves channel accepted (send_bytes s other bytes).0
  unfolding send_bytes
  sends-Serves s other bytes h = elim (Bool-cases (is_served s.phase other)) [
    | inl e ↦ rw (send_bytes, e) h
    | inr e ↦ rw (send_bytes, e) h
  ]

  step-Serves :
      (s : Task) (event : Event)
      → IsHeld channel event
      → Serves channel accepted s
      → Serves channel accepted (step s event)
  unfolding step did_subscribe subscribed_clients_changed send_bytes
  step-Serves s (clients_changed none) m h = h
  step-Serves s (clients_changed (some size)) m h = rw m h
  step-Serves s (write_requested bytes) m h = forward-Serves s bytes h
  step-Serves s stops m h = elim m [ ]
  step-Serves s subscribed m h = h
  step-Serves s (writes_received requests) m h = did_receive_writes-Serves s requests h
  step-Serves s takes_signal m h =
      subst (λ q. Serves channel accepted (take_signal s q s.subscriptions)) (sym h.0)
        (take_signal-Serves s s.subscriptions h)
  step-Serves s takes_reply m h =
      subst (λ q. Serves channel accepted (take_reply s q s.replies)) (sym h.0)
        (take_reply-Serves s s.replies h)
  step-Serves s closes m h = h
  step-Serves s (sends other bytes) m h = elim (Bool-cases (contains other s.queues)) [
    | inl e ↦ rw e (sends-Serves s other bytes h)
    | inr e ↦ rw e h
  ]
  step-Serves s (receives other) m h = receives-Serves s other h
  step-Serves s (drops other) m (p, w, a, (queue, q)) =
      (p, w, a, (queue, get-remove other channel s.queues ∙ rw m q))

  run-Serves :
      (s : Task) (events : List Event)
      → All (IsHeld channel) events
      → Serves channel accepted s
      → Serves channel accepted (run s events)
  unfolding run
  run-Serves s [] m h = h
  run-Serves s (event ∷ events) m h =
      run-Serves (step s event) events m.1 (step-Serves s event m.0 h)

  recv_bytes_of :
      (s : Task)
      → Serves channel accepted s
      → ((recv_bytes s channel).1 ≡ none)
        ⊎ ((bytes : Bytes) × ((recv_bytes s channel).1 ≡ some (ok bytes)))
  unfolding recv_bytes has_sender
  recv_bytes_of s (p, w, a, (queue, q)) = elim (List-cases queue) [
    | inl f ↦ inl (rw (recv_bytes, q, f, w) (rw ((==_iff channel channel).1 refl) refl))
    | inr (bytes, rest, f) ↦ inr (bytes, rw (recv_bytes, q, f) refl)
  ]

  recv_bytes-no_error :
      (s : Task) (e : PathweaveError)
      → Serves channel accepted s
      → (recv_bytes s channel).1 ≢ some (err e)
  recv_bytes-no_error s e h f = elim (recv_bytes_of s h) [
    | inl g ↦ ground (arith, sym g ∙ f)
    | inr (bytes, g) ↦ ground (arith, sym g ∙ f)
  ]

-- While the task serves a connection and feeds it: whatever callbacks and steps of the task and of its
-- connections come, as long as the task is not stopped, the connection is not dropped and no count of
-- zero subscribers is reported (on macOS none ever is), no other connection is handed out, so that
-- every later subscriber is ignored; and the connection never gets the error that would end its
-- session, also when its subscriber is gone.
pub run-ignores_subscribers :
    (s : Task) (channel : ℕ) (queue : List Bytes) (events : List Event) (e : PathweaveError)
    → s.phase ≡ serving channel
    → s.write_forward ≡ some channel
    → Map.get channel s.queues ≡ some queue
    → All (IsHeld channel) events
    → let s' = run s events in
      (s'.phase ≡ serving channel)
      × (s'.accepted ≡ s.accepted)
      × ((recv_bytes s' channel).1 ≢ some (err e))
run-ignores_subscribers s channel queue events e p w q m =
    let h = run-Serves channel s.accepted s events m (p, w, refl, (queue, q)) in
    (h.0, h.2, recv_bytes-no_error channel s.accepted (run s events) e h)
