-- ===== src/Tests/Subscribers.antt =====
-- Examples on the peripheral tasks of Windows and macOS.
use pathweave.Base.{true, ◌≡◌, ◌≢◌, refl, List, [], ◌∷◌, none, some, nat_eq}
use pathweave.Types.{ok, bytes_eq, err, transport}
use pathweave.Transport.Gatt
use pathweave.Base.Map
use pathweave.Transport.Gatt.{
  serving, Task, Event, clients_changed, subscribed, writes_received, takes_signal, takes_reply,
  sends, receives, drops, recv_bytes, step, run,
}
use pathweave.Transport.Gatt.Replies.{IsConsistent, run-IsConsistent}
use pathweave.Transport.Gatt.Stuck.{run-ignores_subscribers}
use pathweave.Transport.Gatt.Frees.{IsFree, receive_each, run-frees}

-- A connection is served, with a write that it has not received and a reply that is not notified.
abbrev served : Task
served = record {
  phase = serving 0;
  subscriptions = 0;
  write_forward = some 0;
  queues = (0, (7 ∷ []) ∷ []) ∷ [];
  replies = (9 ∷ []) ∷ [];
  next_channel = 1;
  is_accepting = true;
  accepted = 0 ∷ [];
  sent = (0, 9 ∷ []) ∷ [];
  notified = [];
}

-- A session of macOS, and a second one after it.
abbrev two_sessions : List Event
two_sessions =
    subscribed
    ∷ takes_signal
    ∷ writes_received (some (1 ∷ []) ∷ none ∷ [])
    ∷ receives 0
    ∷ sends 0 (2 ∷ [])
    ∷ drops 0
    ∷ takes_reply
    ∷ takes_reply
    ∷ subscribed
    ∷ takes_signal
    ∷ sends 1 (3 ∷ [])
    ∷ []

notified_twice :
    let s = run Gatt.new two_sessions in
    (s.notified ≡ (0, 2 ∷ []) ∷ []) × (s.phase ≡ serving 1) × (s.replies ≡ (3 ∷ []) ∷ [])
unfolding Gatt.new run step recv_bytes Map.get Map.insert Map.remove Gatt.take_reply
    Gatt.take_signal Gatt.did_subscribe Gatt.did_receive_writes Gatt.forward Gatt.push_write
    Gatt.open_connection Gatt.send_bytes Gatt.is_served
notified_twice = (refl, refl, refl)

run-IsConsistent_example : IsConsistent (run Gatt.new two_sessions)
run-IsConsistent_example = run-IsConsistent two_sessions

run-frees_example :
    let left = step served (clients_changed (some 0)) in
    let gone = (receive_each left 0 1).0 in
    let freed = run gone (drops 0 ∷ takes_reply ∷ takes_reply ∷ []) in
    ((receive_each left 0 1).1 ≡ some (ok (7 ∷ [])) ∷ [])
    × ((recv_bytes gone 0).1 ≡ some (err transport))
    × IsFree 0 freed
unfolding Map.get
run-frees_example = run-frees served 0 ((7 ∷ []) ∷ []) refl refl

run-ignores_subscribers_example :
    let s = run served (subscribed ∷ takes_signal ∷ writes_received (some (8 ∷ []) ∷ []) ∷ []) in
    (s.phase ≡ serving 0) × (s.accepted ≡ 0 ∷ []) × ((recv_bytes s 0).1 ≢ some (err transport))
unfolding Map.get
run-ignores_subscribers_example =
    run-ignores_subscribers served 0 ((7 ∷ []) ∷ [])
      (subscribed ∷ takes_signal ∷ writes_received (some (8 ∷ []) ∷ []) ∷ []) transport refl refl
      refl (tt, (tt, (tt, tt)))
