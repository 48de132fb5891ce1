-- ===== src/Router/Send/Outcome.antt =====
-- What a send returns, how many connections it dials, and which events it fires.
use pathweave.Base.{
  ℕ, zero, suc, ◌+◌, ◌≤◌, ◌<◌, Bool, true, false, ◌≡◌, ◌⊎◌, refl, ap, ◌∙◌, List, [], ◌∷◌, ◌++◌,
  Option, none, some, arith, inl, inr, Bool-cases, List-cases, length,
}
use pathweave.KeyRegistry
use pathweave.Types.{
  PathweaveError, TransportKind, TransportEvent, message_delivered, key_learned, Bytes, PeerId,
  PublicKey, bytes_eq, no_transport_available, delivery_failed, Result, ok, err, PeerAnnouncement,
  Result-cases,
}
use pathweave.Router.{Transport, Candidate, candidates, any_available}
use pathweave.Router.Dial.{Net, try_send}
use pathweave.Router.Send.{
  Env, Progress, emit, delivery, try_all, attempts, max_send_attempts, send,
}
use pathweave.Router.Dial.Identity.{try_send-events, try_send-learned}

-- The events of a success: the delivery, and the key of the node at the other end if there was none.
abbrev pub told : PeerId → TransportKind → PublicKey → Option PublicKey → List TransportEvent
told peer_id k key none = message_delivered peer_id k ∷ key_learned peer_id key ∷ []
told peer_id k key (some old) = message_delivered peer_id k ∷ []

delivery-told :
    (peer_id : PeerId) (k : TransportKind) (key : PublicKey) (before learned_key : Option PublicKey)
    → learned_key ≡ (elim before [ none ↦ some key | some old ↦ none ])
    → delivery peer_id k learned_key ≡ told peer_id k key before
delivery-told peer_id k key none learned_key e = ap (delivery peer_id k) e
delivery-told peer_id k key (some old) learned_key e = ap (delivery peer_id k) e

module _ (hash : Bytes → Bytes) (env : Env) (payload : Bytes) (message_id : ℕ) (peer_id : PeerId)
    (peers : List PeerAnnouncement) where
  -- From the candidates of an attempt that are left to the candidates left later, by dials that
  -- failed: each takes the first candidate, and with none left the next attempt looks for its own.
  pub data Failures : ℕ → ℕ → Net → List Candidate → ℕ → Net → List Candidate → Type 0 where
    here : {attempt k : ℕ} {n : Net} {cs : List Candidate} → Failures attempt k n cs k n cs
    failed :
        {attempt k j : ℕ} {n m : Net} {cs rest : List Candidate} (t : Transport)
        (ann : PeerAnnouncement) (e : PathweaveError)
        → (try_send hash n (env.answers k) t payload message_id peer_id).1 ≡ err e
        → Failures attempt
            (suc k)
            (try_send hash n (env.answers k) t payload message_id peer_id).0
            cs
            j
            m
            rest
        → Failures attempt k n ((t, ann) ∷ cs) j m rest
    again :
        {attempt k j : ℕ} {n m : Net} {rest : List Candidate}
        → Failures (suc attempt) k n (candidates (env.at_attempt (suc attempt)) peers) j m rest
        → Failures attempt k n [] j m rest

  -- Dials that failed lead to a candidate, whose dial is the last one; its handshake shows a key, and
  -- what was fired is the delivery by its transport, with that key if there was none before.
  abbrev pub IsDelivered : ℕ → ℕ → Net → List Candidate → ℕ → Net → Type 0
  IsDelivered attempt k n cs dials after =
      (t : Transport) × (ann : PeerAnnouncement) × (rest : List Candidate) × (j : ℕ) × (m : Net)
      × (key : PublicKey) × Failures attempt k n cs j m ((t, ann) ∷ rest)
      × (dials ≡ suc j)
      × ((env.answers j).handshake (KeyRegistry.get m.key_registry peer_id) ≡ ok key)
      × (after.events
          ≡ n.events ++ told peer_id t.kind_of key (KeyRegistry.get m.key_registry (hash key)))

  -- A round of dials: on success one delivery is announced, on failure nothing is and every
  -- candidate was dialled.
  abbrev Round : ℕ → Net → ℕ → List Candidate → Progress Bool → Type 0
  Round attempt n k cs p =
      ((p.result ≡ true)
        × IsDelivered attempt k n cs p.dials p.net
        × (k < p.dials)
        × (p.dials ≤ k + length cs))
      ⊎ ((p.result ≡ false)
          × (p.net.events ≡ n.events)
          × (p.dials ≡ k + length cs)
          × ((j : ℕ) (m : Net) (rest : List Candidate)
              → Failures attempt p.dials p.net [] j m rest
              → Failures attempt k n cs j m rest))

  failed_first :
      (attempt : ℕ) (t : Transport) (ann : PeerAnnouncement) (cs : List Candidate) (k : ℕ) (n : Net)
      (e : PathweaveError) (p : Progress Bool)
      → (try_send hash n (env.answers k) t payload message_id peer_id).1 ≡ err e
      → Round attempt (try_send hash n (env.answers k) t payload message_id peer_id).0 (suc k) cs p
      → Round attempt n k ((t, ann) ∷ cs) p
  failed_first attempt t ann cs k n e p h
        (inl (done, (t', a', r, j, m, key, f, d, s, ev), lt, le)) =
      let quiet = try_send-events hash n (env.answers k) t payload message_id peer_id in
      inl (
        done,
        (
          t',
          a',
          r,
          j,
          m,
          key,
          failed t ann e h f,
          d,
          s,
          ev
              ∙ ap
                  (λ l.
                    l ++ told peer_id t'.kind_of key (KeyRegistry.get m.key_registry (hash key)))
                  quiet,
        ),
        omega arith,
        omega arith,
      )
  failed_first attempt t ann cs k n e p h (inr (done, ev, d, f)) =
      let quiet = try_send-events hash n (env.answers k) t payload message_id peer_id in
      inr (done, ev ∙ quiet, omega arith, λ i m rest g. failed t ann e h (f i m rest g))

  try_all-Round :
      (attempt : ℕ) (cs : List Candidate) (k : ℕ) (n : Net)
      → Round attempt n k cs (try_all hash env payload message_id peer_id cs k n)
  unfolding try_all emit
  try_all-Round attempt [] k n = inr (refl, refl, omega arith, λ i m rest g. g)
  try_all-Round attempt ((t, ann) ∷ cs) k n =
      let sending = try_send hash n (env.answers k) t payload message_id peer_id in
      let quiet = try_send-events hash n (env.answers k) t payload message_id peer_id in
      elim (Result-cases sending.1) [
        | inl (e, h) ↦
            rw (h, try_all)
              (failed_first attempt t ann cs k n e
                (try_all hash env payload message_id peer_id cs (suc k) sending.0) h
                (try_all-Round attempt cs (suc k) sending.0))
        | inr (learned_key, h) ↦
            let (key, shown, new) =
              try_send-learned hash n (env.answers k) t payload message_id peer_id learned_key h in
            let events =
              ap (λ l. l ++ delivery peer_id t.kind_of learned_key) quiet
              ∙ ap (λ l. n.events ++ l)
                  (delivery-told peer_id t.kind_of key (KeyRegistry.get n.key_registry (hash key))
                    learned_key new) in
            rw (h, try_all)
              (inl (
                refl,
                (t, ann, cs, k, n, key, here, refl, shown, events),
                omega arith,
                omega arith,
              ))
      ]

  -- The candidates that the attempts to come will find.
  abbrev pub budget : ℕ → ℕ → ℕ
  budget zero attempt = 0
  budget (suc left) attempt =
      length (candidates (env.at_attempt attempt) peers) + budget left (suc attempt)

  -- The three ways in which a send ends.
  abbrev pub Ends : ℕ → Net → ℕ → List Candidate → ℕ → Progress (Result (Unit {0})) → Type 0
  Ends attempt n k cs total p =
      ((p.result ≡ ok tt)
        × IsDelivered attempt k n cs p.dials p.net
        × (k < p.dials)
        × (p.dials ≤ k + total))
      ⊎ (((p.result ≡ err no_transport_available)
            × (p.net.events ≡ n.events)
            × (p.dials ≤ k + total))
          ⊎ ((p.result ≡ err delivery_failed) × (p.net.events ≡ n.events) × (p.dials ≡ k + total)))

  -- A round that failed comes before the rest.
  later :
      (attempt : ℕ) (n n1 : Net) (k j : ℕ) (cs : List Candidate) (total : ℕ)
      (p : Progress (Result (Unit {0})))
      → n1.events ≡ n.events
      → j ≡ k + length cs
      → ((i : ℕ) (m : Net) (rest : List Candidate)
          → Failures attempt j n1 [] i m rest
          → Failures attempt k n cs i m rest)
      → Ends (suc attempt) n1 j (candidates (env.at_attempt (suc attempt)) peers) total p
      → Ends attempt n k cs (length cs + total) p
  later attempt n n1 k j cs total p quiet size join
        (inl (done, (t, ann, rest, i, m, key, f, d, s, ev), lt, le)) =
      inl (
        done,
        (
          t,
          ann,
          rest,
          i,
          m,
          key,
          join i m ((t, ann) ∷ rest) (again f),
          d,
          s,
          ev
              ∙ ap
                  (λ l. l ++ told peer_id t.kind_of key (KeyRegistry.get m.key_registry (hash key)))
                  quiet,
        ),
        omega arith,
        omega arith,
      )
  later attempt n n1 k j cs total p quiet size join (inr (inl (done, ev, d))) =
      inr (inl (done, ev ∙ quiet, omega arith))
  later attempt n n1 k j cs total p quiet size join (inr (inr (done, ev, d))) =
      inr (inr (done, ev ∙ quiet, omega arith))

  attempts-Ends :
      (left attempt k : ℕ) (n : Net)
      → Ends attempt n k
          (candidates (env.at_attempt attempt) peers)
          (budget left attempt)
          (attempts hash env payload message_id peer_id peers left attempt k n)
  unfolding attempts
  attempts-Ends zero attempt k n = inr (inr (refl, refl, omega arith))
  attempts-Ends (suc left) attempt k n =
      let found = candidates (env.at_attempt attempt) peers in
      elim (List-cases found) [
        | inl e ↦ rw (e, attempts) (inr (inl (refl, refl, omega arith)))
        | inr (c, cs, e) ↦
            let p = try_all hash env payload message_id peer_id (c ∷ cs) k n in
            let total = budget left (suc attempt) in
            let next =
              attempts hash env payload message_id peer_id peers left (suc attempt) p.dials p.net in
            let rest = attempts-Ends left (suc attempt) p.dials p.net in
            elim (try_all-Round attempt (c ∷ cs) k n) [
              | inl (done, ev, lt, le) ↦ rw (e, attempts, done) (inl (refl, ev, lt, omega arith))
              | inr (done, ev, d, join) ↦
                  rw (e, attempts, done)
                    (later attempt n p.net k p.dials (c ∷ cs) total next ev d join rest)
            ]
      ]

  -- A send returns, and in one of three ways. `Ok`: after dials that failed, of the candidates of each
  -- attempt in their order, the dial of the next candidate showed a key in its handshake, and exactly
  -- one delivery was announced, by the transport of that candidate, and that key with it if none was
  -- registered for its owner before. `NoTransportAvailable`: no event. `DeliveryFailed`: no event,
  -- and every candidate of all three attempts was dialled. No send dials more connections than its
  -- attempts have candidates.
  pub send-Ends :
      (n : Net)
      → Ends 0 n 0
          (candidates (env.at_attempt 0) peers)
          (budget max_send_attempts 0)
          (send hash env payload message_id peer_id n peers)
  unfolding send
  send-Ends n = elim (Bool-cases (any_available env.at_start)) [
    | inl up ↦ rw (up, send) (attempts-Ends max_send_attempts 0 0 n)
    | inr down ↦ rw (down, send) (inr (inl (refl, refl, omega arith)))
  ]
