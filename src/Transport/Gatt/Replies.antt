-- ===== src/Transport/Gatt/Replies.antt =====
-- What the tasks of Windows and macOS notify is what their connections sent.
use pathweave.Base.{
  ℕ, zero, suc, true, ◌≡◌, ◌⊎◌, refl, sym, ap, ◌∙◌, subst, List, [], ◌∷◌, ◌++◌, append_assoc,
  append-nil, Option, none, some, arith, inl, inr, ltb, ==_iff, Bool-cases, Option-cases,
  List-cases,
}
use pathweave.Base.{nat_eq}
use pathweave.Base.Map
use pathweave.Base.Map.{Map, contains}
use pathweave.Types.{Bytes, bytes_eq}
use pathweave.Transport.Gatt.{
  Phase, waiting, ended, serving, Task, Event, clients_changed, write_requested, subscribed,
  writes_received, takes_signal, takes_reply, stops, closes, sends, receives, drops, new,
  open_connection, subscribed_clients_changed, did_subscribe, push_write, forward,
  did_receive_writes, take_signal, take_reply, stop, is_served, send_bytes, recv_bytes, step, run,
}

abbrev pub tagged : ℕ → List Bytes → List (ℕ × Bytes)
tagged channel [] = []
tagged channel (bytes ∷ replies) = (channel, bytes) ∷ tagged channel replies

-- Replies wait only while a connection is served, and then they are its own; writes go only to it.
abbrev pub IsOrderly : Phase → Option ℕ → List Bytes → List (ℕ × Bytes) → List (ℕ × Bytes) → Type 0
IsOrderly waiting forwards replies sent notified =
    (forwards ≡ none) × (replies ≡ []) × (sent ≡ notified)
IsOrderly (serving channel) forwards replies sent notified =
    ((forwards ≡ none) ⊎ (forwards ≡ some channel)) × (sent ≡ notified ++ tagged channel replies)
IsOrderly ended forwards replies sent notified =
    (forwards ≡ none) × ((lost : List (ℕ × Bytes)) × (sent ≡ notified ++ lost))

abbrev pub IsConsistent : Task → Type 0
IsConsistent s = IsOrderly s.phase s.write_forward s.replies s.sent s.notified

-- What the invariant reads of a task.
abbrev pub SameReplies : Task → Task → Type 0
SameReplies s t =
    (t.phase ≡ s.phase)
    × (t.write_forward ≡ s.write_forward)
    × (t.replies ≡ s.replies)
    × (t.sent ≡ s.sent)
    × (t.notified ≡ s.notified)

same-IsConsistent : (s t : Task) → SameReplies s t → IsConsistent s → IsConsistent t
same-IsConsistent s t (p, w, r, e, n) c = rw (p, w, r, e, n) c

unheard :
    (phase : Phase) (forwards : Option ℕ) (replies : List Bytes) (sent notified : List (ℕ × Bytes))
    → IsOrderly phase forwards replies sent notified
    → IsOrderly phase none replies sent notified
unheard waiting forwards replies sent notified (w, r, e) = (refl, r, e)
unheard (serving channel) forwards replies sent notified (w, e) = (inl refl, e)
unheard ended forwards replies sent notified (w, e) = (refl, e)

stop-IsOrderly :
    (phase : Phase) (forwards : Option ℕ) (replies : List Bytes) (sent notified : List (ℕ × Bytes))
    → IsOrderly phase forwards replies sent notified
    → IsOrderly ended none [] sent notified
stop-IsOrderly waiting forwards replies sent notified (w, r, e) =
    (refl, ([], e ∙ sym (append-nil notified)))
stop-IsOrderly (serving channel) forwards replies sent notified (w, e) =
    (refl, (tagged channel replies, e))
stop-IsOrderly ended forwards replies sent notified (w, e) = (refl, e)

tagged-append :
    (channel : ℕ) (replies : List Bytes) (bytes : Bytes)
    → tagged channel (replies ++ bytes ∷ []) ≡ tagged channel replies ++ (channel, bytes) ∷ []
tagged-append channel [] bytes = refl
tagged-append channel (reply ∷ replies) bytes =
    ap (λ l. (channel, reply) ∷ l) (tagged-append channel replies bytes)

abbrev Keeps : (Task → Task) → Type 0
Keeps f = (s : Task) → IsConsistent s → IsConsistent (f s)

clients_changed-IsConsistent :
    (s : Task) (size : Option ℕ) → IsConsistent s → IsConsistent (subscribed_clients_changed s size)
unfolding subscribed_clients_changed
clients_changed-IsConsistent s none c = c
clients_changed-IsConsistent s (some size) c = elim (Bool-cases (ltb 0 size)) [
  | inl e ↦ rw (subscribed_clients_changed, e) c
  | inr e ↦
      rw (subscribed_clients_changed, e)
        (unheard s.phase s.write_forward s.replies s.sent s.notified c)
]

forward-IsConsistent :
    (s : Task) (request : Option Bytes) → IsConsistent s → IsConsistent (forward s request)
unfolding forward push_write
forward-IsConsistent s none c = c
forward-IsConsistent s (some bytes) c = elim (Option-cases s.write_forward) [
  | inl e ↦ rw (forward, e) c
  | inr (channel, e) ↦ elim (Option-cases (Map.get channel s.queues)) [
    | inl f ↦ rw (forward, e, push_write, f) c
    | inr (queue, f) ↦ rw (forward, e, push_write, f) c
  ]
]

did_receive_writes-IsConsistent :
    (s : Task) (requests : List (Option Bytes))
    → IsConsistent s
    → IsConsistent (did_receive_writes s requests)
unfolding did_receive_writes
did_receive_writes-IsConsistent s [] c = c
did_receive_writes-IsConsistent s (request ∷ requests) c =
    did_receive_writes-IsConsistent (forward s request) requests (forward-IsConsistent s request c)

-- The invariant, read at what the phase and the replies are known to be.
at :
    (s : Task) (phase : Phase) (replies : List Bytes)
    → s.phase ≡ phase
    → s.replies ≡ replies
    → IsConsistent s
    → IsOrderly phase s.write_forward replies s.sent s.notified
at s phase replies p r c =
    subst (λ q. IsOrderly phase s.write_forward q s.sent s.notified) r
      (subst (λ q. IsOrderly q s.write_forward s.replies s.sent s.notified) p c)

take_signal-IsConsistent :
    (s : Task) (phase : Phase) (n : ℕ)
    → s.phase ≡ phase
    → IsConsistent s
    → IsConsistent (take_signal s phase n)
unfolding take_signal open_connection
take_signal-IsConsistent s phase zero p c = c
take_signal-IsConsistent s waiting (suc n) p c =
    let (w, r, e) = at s waiting s.replies p refl c in (inr refl, e ∙ sym (append-nil s.notified))
take_signal-IsConsistent s (serving channel) (suc n) p c = c
take_signal-IsConsistent s ended (suc n) p c = c

take_reply-IsConsistent :
    (s : Task) (phase : Phase) (replies : List Bytes)
    → s.phase ≡ phase
    → s.replies ≡ replies
    → IsConsistent s
    → IsConsistent (take_reply s phase replies)
unfolding take_reply
take_reply-IsConsistent s waiting replies p r c = c
take_reply-IsConsistent s ended replies p r c = c
take_reply-IsConsistent s (serving channel) (bytes ∷ replies) p r c =
    let (w, e) = at s (serving channel) (bytes ∷ replies) p r c in
    rw p (w, e ∙ sym (append_assoc s.notified ((channel, bytes) ∷ []) (tagged channel replies)))
take_reply-IsConsistent s (serving channel) [] p r c =
    let (w, f) = at s (serving channel) [] p r c in
    elim (Bool-cases (contains channel s.queues)) [
      | inl e ↦ rw e c
      | inr e ↦ rw e (refl, r, f ∙ append-nil s.notified)
    ]

is_served-serving :
    (phase : Phase) (channel : ℕ) → is_served phase channel ≡ true → phase ≡ serving channel
unfolding is_served
is_served-serving waiting channel e = ground (arith, e)
is_served-serving ended channel e = ground (arith, e)
is_served-serving (serving active) channel e = ap serving ((==_iff active channel).0 e)

sends-IsConsistent :
    (s : Task) (channel : ℕ) (bytes : Bytes)
    → IsConsistent s
    → IsConsistent (send_bytes s channel bytes).0
unfolding send_bytes
sends-IsConsistent s channel bytes c = elim (Bool-cases (is_served s.phase channel)) [
  | inl e ↦
      let p = is_served-serving s.phase channel e in
      let (w, f) = at s (serving channel) s.replies p refl c in
      let reply = (channel, bytes) ∷ [] in
      rw (send_bytes, e, p)
        (
          w,
          ap (λ l. l ++ reply) f
              ∙ append_assoc s.notified (tagged channel s.replies) reply
              ∙ ap (λ l. s.notified ++ l) (sym (tagged-append channel s.replies bytes)),
        )
  | inr e ↦ rw (send_bytes, e) c
]

receives-IsConsistent :
    (s : Task) (channel : ℕ) → IsConsistent s → IsConsistent (recv_bytes s channel).0
unfolding recv_bytes
receives-IsConsistent s channel c = elim (Option-cases (Map.get channel s.queues)) [
  | inl e ↦ rw (recv_bytes, e) c
  | inr (queue, e) ↦ elim (List-cases queue) [
    | inl f ↦ rw (recv_bytes, e, f) c
    | inr (bytes, rest, f) ↦ rw (recv_bytes, e, f) c
  ]
]

step-IsConsistent : (s : Task) (event : Event) → IsConsistent s → IsConsistent (step s event)
unfolding step stop did_subscribe
step-IsConsistent s (clients_changed size) c = clients_changed-IsConsistent s size c
step-IsConsistent s (write_requested bytes) c = forward-IsConsistent s bytes c
step-IsConsistent s subscribed c = c
step-IsConsistent s (writes_received requests) c = did_receive_writes-IsConsistent s requests c
step-IsConsistent s takes_signal c = take_signal-IsConsistent s s.phase s.subscriptions refl c
step-IsConsistent s takes_reply c = take_reply-IsConsistent s s.phase s.replies refl refl c
step-IsConsistent s stops c = stop-IsOrderly s.phase s.write_forward s.replies s.sent s.notified c
step-IsConsistent s closes c = c
step-IsConsistent s (sends channel bytes) c = elim (Bool-cases (contains channel s.queues)) [
  | inl e ↦ rw e (sends-IsConsistent s channel bytes c)
  | inr e ↦ rw e c
]
step-IsConsistent s (receives channel) c = receives-IsConsistent s channel c
step-IsConsistent s (drops channel) c = c

run-IsConsistent_of :
    (s : Task) (events : List Event) → IsConsistent s → IsConsistent (run s events)
unfolding run
run-IsConsistent_of s [] c = c
run-IsConsistent_of s (event ∷ events) c =
    run-IsConsistent_of (step s event) events (step-IsConsistent s event c)

-- Whatever happens to the task of Windows or macOS, in whatever order: what it has taken to notify
-- is, in order, what its connections have sent with success. While it waits for a subscriber nothing
-- is left over and no connection is fed; while it serves one, what is left over was sent by that
-- one, and writes are fed to no other; after the stop, replies may be lost and none is fed.
pub run-IsConsistent : (events : List Event) → IsConsistent (run new events)
unfolding new
run-IsConsistent events = run-IsConsistent_of new events (refl, refl, refl)
