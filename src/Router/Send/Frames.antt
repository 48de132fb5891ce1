-- ===== src/Router/Send/Frames.antt =====
-- What a send hands to its sessions, over all its retries.
use pathweave.Base.{
  ℕ, zero, suc, ◌≡◌, ◌⊎◌, refl, List, [], ◌∷◌, inl, inr, Bool-cases, List-cases, All, All-append,
}
use pathweave.Types.{
  Bytes, PeerId, bytes_eq, PeerAddress, PeerAnnouncement, TransportEvent, Result-cases,
}
use pathweave.Router.{Transport, Candidate, any_available, candidates}
use pathweave.Router.Dial.{Answers, Sent, sent, Net, framed, try_send}
use pathweave.Router.Send.{Env, max_send_attempts, emit, delivery, try_all, attempts, send}
use pathweave.AddrExchange.{encode_addr_exchange}
use pathweave.KeyRegistry.Certified.{IsCertified}
use pathweave.Router.Dial.Identity.{try_send-IsCertified, try_send-log}

-- The messages of a send: address exchanges, and the payload under one message id.
abbrev pub IsFrame : ℕ → Bytes → Sent → Type 0
IsFrame message_id payload (sent p message) =
    (message ≡ framed message_id payload)
    ⊎ ((addrs : List PeerAddress) × (message ≡ encode_addr_exchange addrs))

module _ (hash : Bytes → Bytes) (env : Env) (payload : Bytes) (message_id : ℕ)
    (peer_id : PeerId) where
  -- What holds of the state through a round and through all attempts, if it holds through each
  -- `try_send` and does not depend on the events.
  module _ {P : Net → Type 0}
      (dial : (n : Net) (a : Answers) (t : Transport)
        → P n
        → P (try_send hash n a t payload message_id peer_id).0)
      (event : (n : Net) (events : List TransportEvent) → P n → P (emit n events)) where
    try_all_keeps :
        (cs : List Candidate) (k : ℕ) (n : Net)
        → P n
        → P (try_all hash env payload message_id peer_id cs k n).net
    unfolding try_all
    try_all_keeps [] k n h = h
    try_all_keeps ((t, ann) ∷ cs) k n h =
        let (n1, r) = try_send hash n (env.answers k) t payload message_id peer_id in
        let h1 = dial n (env.answers k) t h in
        let rest = try_all_keeps cs (suc k) n1 h1 in
        elim (Result-cases r) [
          | inl (e, f) ↦ rw (f, try_all) rest
          | inr (learned_key, f) ↦
              rw (f, try_all) (event n1 (delivery peer_id t.kind_of learned_key) h1)
        ]

    attempts_keep :
        (peers : List PeerAnnouncement) (left attempt k : ℕ) (n : Net)
        → P n
        → P (attempts hash env payload message_id peer_id peers left attempt k n).net
    unfolding attempts
    attempts_keep peers zero attempt k n h = h
    attempts_keep peers (suc left) attempt k n h =
        elim (List-cases (candidates (env.at_attempt attempt) peers)) [
          | inl e ↦ rw (e, attempts) h
          | inr (c, cs, e) ↦
              let p = try_all hash env payload message_id peer_id (c ∷ cs) k n in
              let h1 = try_all_keeps (c ∷ cs) k n h in
              let rest = attempts_keep peers left (suc attempt) p.dials p.net h1 in
              elim (Bool-cases p.result) [
                | inl done ↦ rw (e, attempts, done) h1
                | inr done ↦ rw (e, attempts, done) rest
              ]
        ]

    send_keeps :
        (n : Net) (peers : List PeerAnnouncement)
        → P n
        → P (send hash env payload message_id peer_id n peers).net
    unfolding send
    send_keeps n peers h = elim (Bool-cases (any_available env.at_start)) [
      | inl up ↦ rw (up, send) (attempts_keep peers max_send_attempts 0 0 n h)
      | inr down ↦ rw (down, send) h
    ]

  -- A registry in which every key belongs to its peer stays one through a send.
  send-IsCertified :
      (n : Net) (peers : List PeerAnnouncement)
      → IsCertified hash n.key_registry
      → IsCertified hash (send hash env payload message_id peer_id n peers).net.key_registry
  unfolding emit
  send-IsCertified =
      send_keeps {P = λ n. IsCertified hash n.key_registry}
        (λ n a t. try_send-IsCertified hash n a t payload message_id peer_id) (λ n events h. h)

  -- All that a send hands to sessions, over all candidates and attempts, are address exchanges
  -- and copies of one and the same frame, the payload under the one message id of the call, if
  -- that holds of what was handed over before.
  pub send-IsFrame :
      (n : Net) (peers : List PeerAnnouncement)
      → All (IsFrame message_id payload) n.log
      → All (IsFrame message_id payload) (send hash env payload message_id peer_id n peers).net.log
  unfolding emit
  send-IsFrame =
      send_keeps {P = λ n. All (IsFrame message_id payload) n.log}
        (λ n a t h. elim (try_send-log hash n a t payload message_id peer_id) [
          | inl e ↦ rw e h
          | inr (remote, e) ↦ rw e (
              All-append (IsFrame message_id payload) _
                (sent remote (framed message_id payload) ∷ [])
                (All-append (IsFrame message_id payload) n.log _ h
                  (inr (t.local_addresses, refl), tt))
                (inl refl, tt))
        ])
        (λ n events h. h)
