-- ===== src/Transport/Gatt/Frees.antt =====
-- How the task of Windows gets free again once no subscriber is left, and what it then has lost.
use pathweave.Base.{
  ℕ, zero, suc, ◌≡◌, refl, sym, ap, ap₂, ◌∙◌, subst, List, [], ◌∷◌, ◌++◌, map, Option, none, some,
  arith, ==_iff, length, replicate, nat_eq,
}
use pathweave.Base.Map
use pathweave.Base.Map.{Map, contains, get-insert_same, get-remove}
use pathweave.Types.{ok, Result, Bytes, bytes_eq, err, transport}
use pathweave.Transport.Gatt.{
  push_write, takes_signal, drops, write_requested, take_signal, clients_changed,
  subscribed_clients_changed, forward, waiting, serving, Task, Event, takes_reply, take_reply,
  has_sender, recv_bytes, step, run,
}

run-append :
    (s : Task) (events more : List Event) → run s (events ++ more) ≡ run (run s events) more
unfolding run
run-append s [] more = refl
run-append s (event ∷ events) more = run-append (step s event) events more

-- The task waits for a subscriber, with so many signals.
abbrev pub IsFree : ℕ → Task → Type 0
IsFree n s = (s.phase ≡ waiting) × (s.write_forward ≡ none) × (s.subscriptions ≡ n)

-- A write is discarded then.
writes-IsFree :
    (s : Task) (n : ℕ) (writes : List Bytes)
    → IsFree n s
    → run s (map (λ bytes. write_requested (some bytes)) writes) ≡ s
unfolding run step forward
writes-IsFree s n [] h = refl
writes-IsFree s n (bytes ∷ writes) (p, w, e) =
    subst (λ t. run t (map (λ b. write_requested (some b)) writes) ≡ s)
      (sym (ap (λ f. elim f [ none ↦ s | some c ↦ push_write s c bytes ]) w))
      (writes-IsFree s n writes (p, w, e))

-- A connection receives so many times, one after the other.
unfoldable pub receive_each : Task → ℕ → ℕ → Task × List (Option (Result Bytes))
receive_each s channel zero = (s, [])
receive_each s channel (suc n) =
    let (s1, result) = recv_bytes s channel in
    let (s2, results) = receive_each s1 channel n in (s2, result ∷ results)

module _ (channel : ℕ) where
  -- The connection has this queue and is fed no more.
  abbrev Unfed : List Bytes → List Bytes → Task → Type 0
  Unfed queue replies s =
      (s.phase ≡ serving channel)
      × (s.write_forward ≡ none)
      × (s.replies ≡ replies)
      × (Map.get channel s.queues ≡ some queue)

  receive_each-subscriptions :
      (s : Task) (n : ℕ) → (receive_each s channel n).0.subscriptions ≡ s.subscriptions
  unfolding receive_each recv_bytes
  receive_each-subscriptions s zero = refl
  receive_each-subscriptions s (suc n) =
      receive_each-subscriptions (recv_bytes s channel).0 n ∙ ground arith

  -- It receives each message of the queue in order.
  receive_each-Unfed :
      (s : Task) (queue replies : List Bytes)
      → Unfed queue replies s
      → Unfed [] replies (receive_each s channel (length queue)).0
        × ((receive_each s channel (length queue)).1 ≡ map (λ bytes. some (ok bytes)) queue)
  unfolding receive_each recv_bytes
  receive_each-Unfed s [] replies h = (h, refl)
  receive_each-Unfed s (bytes ∷ queue) replies (p, w, r, q) =
      let first = recv_bytes s channel in
      let taken : first.1 ≡ some (ok bytes) = rw (recv_bytes, q) refl in
      let (h, all) =
        receive_each-Unfed first.0 queue replies
          (rw (recv_bytes, q) (p, w, r, get-insert_same channel queue s.queues)) in
      (h, ap₂ (λ x xs. x ∷ xs) taken all)

  recv_bytes-Unfed :
      (s : Task) (replies : List Bytes)
      → Unfed [] replies s
      → (recv_bytes s channel).1 ≡ some (err transport)
  unfolding recv_bytes has_sender
  recv_bytes-Unfed s replies (p, w, r, q) = rw (recv_bytes, q, w) refl

  -- The connection is gone, with these replies left.
  abbrev Gone : List Bytes → ℕ → Task → Type 0
  Gone replies subscriptions s =
      (s.phase ≡ serving channel)
      × (s.replies ≡ replies)
      × (Map.get channel s.queues ≡ none)
      × (s.subscriptions ≡ subscriptions)

  step-takes_reply :
      (s : Task) (replies : List Bytes) (n : ℕ)
      → Gone replies n s
      → step s takes_reply ≡ take_reply s (serving channel) replies
  unfolding step
  step-takes_reply s replies n (p, r, q, e) = ap₂ (λ x y. take_reply s x y) p r

  -- The task takes the replies that are left, and then waits for the next signal.
  takes_reply-frees :
      (s : Task) (replies : List Bytes) (n : ℕ)
      → Gone replies n s
      → IsFree n (run s (replicate (suc (length replies)) takes_reply))
  unfolding run take_reply
  takes_reply-frees s [] n h =
      let (p, r, q, e) = h in
      rw (step-takes_reply s [] n h, take_reply, contains, q) (refl, refl, e)
  takes_reply-frees s (bytes ∷ replies) n h =
      let (p, r, q, e) = h in
      subst (λ t. IsFree n (run t (replicate (suc (length replies)) takes_reply)))
        (sym (step-takes_reply s (bytes ∷ replies) n h))
        (takes_reply-frees (take_reply s (serving channel) (bytes ∷ replies)) replies n
          (p, refl, q, e))

get-removed :
    (channel : ℕ) (queues : Map ℕ (List Bytes)) → Map.get channel (Map.remove channel queues) ≡ none
get-removed channel queues =
    get-remove channel channel queues ∙ rw ((==_iff channel channel).1 refl) refl

-- The last subscriber goes while the task of Windows serves a connection: the connection still
-- receives every write that has come, in order, and then the error that ends its session; and once
-- it is dropped and its replies are taken, the task waits for the next subscriber, with the signals
-- that were there.
pub run-frees :
    (s : Task) (channel : ℕ) (queue : List Bytes)
    → s.phase ≡ serving channel
    → Map.get channel s.queues ≡ some queue
    → let left = step s (clients_changed (some 0)) in
      let gone = (receive_each left channel (length queue)).0 in
      let freed = run gone (drops channel ∷ replicate (suc (length s.replies)) takes_reply) in
      ((receive_each left channel (length queue)).1 ≡ map (λ bytes. some (ok bytes)) queue)
      × ((recv_bytes gone channel).1 ≡ some (err transport))
      × IsFree s.subscriptions freed
unfolding run step subscribed_clients_changed
run-frees s channel queue p q =
    let left : Task = record s { write_forward = none } in
    let gone : Task = (receive_each left channel (length queue)).0 in
    let (h, all) = receive_each-Unfed channel left queue s.replies (p, refl, refl, q) in
    let same = receive_each-subscriptions channel left (length queue) in
    let dropped : Task = record gone { queues = Map.remove channel gone.queues } in
    (
      all,
      recv_bytes-Unfed channel gone s.replies h,
      takes_reply-frees channel dropped s.replies s.subscriptions
          (h.0, h.2, get-removed channel gone.queues, same),
    )

-- A peer leaves the task of Windows and comes back before its old session has ended: its signal is
-- taken while the task still serves the old connection, so that afterwards the task waits with no
-- more signals than before the peer came back, and discards what it writes.
pub run-loses_subscriber :
    (s : Task) (channel : ℕ) (writes : List Bytes)
    → s.phase ≡ serving channel
    → let left = run s (
        clients_changed (some 0)
        ∷ clients_changed (some 1)
        ∷ takes_signal
        ∷ drops channel
        ∷ replicate (suc (length s.replies)) takes_reply) in
      IsFree s.subscriptions left
      × (run left (map (λ bytes. write_requested (some bytes)) writes) ≡ left)
unfolding run step subscribed_clients_changed take_signal
run-loses_subscriber s channel writes p =
    let signalled : Task = record s { write_forward = none; subscriptions = suc s.subscriptions } in
    let dropped : Task = record s { write_forward = none; queues = Map.remove channel s.queues } in
    let n = s.subscriptions in
    let left : Task = run dropped (replicate (suc (length s.replies)) takes_reply) in
    let h : IsFree n left =
      takes_reply-frees channel dropped s.replies n (p, refl, get-removed channel s.queues, refl) in
    subst
      (λ t.
        let u = run (step t (drops channel)) (replicate (suc (length s.replies)) takes_reply) in
        IsFree n u × (run u (map (λ bytes. write_requested (some bytes)) writes) ≡ u))
      (sym (ap (λ q. take_signal signalled q (suc n)) p)) (h, writes-IsFree left n writes h)
