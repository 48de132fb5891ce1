-- ===== src/Router/Send.antt =====
-- `Router::send` and `Router::connect`: the candidates in cost order, up to three attempts.
pub mod Outcome
pub mod Frames
use pathweave.Base.{
  ℕ, zero, suc, Bool, true, false, not, List, [], ◌∷◌, ◌++◌, Option, none, some, if◌then◌else◌,
}
use pathweave.Types.{
  Bytes, PeerId, PublicKey, bytes_eq, no_transport_available, delivery_failed, Result, ok, err,
  TransportKind, PeerAnnouncement, TransportEvent, message_delivered, key_learned,
}
use pathweave.Router.{TransportEntry, Candidate, any_available, candidates}
use pathweave.Router.Dial.{Answers, Net, try_send, try_connect}

-- MAX_SEND_ATTEMPTS.
abbrev pub max_send_attempts : ℕ
max_send_attempts = 3

-- What changes outside the router while a send runs: the registered transports and their
-- availability at the start and at each attempt, and the answers to the connections dialled, the
-- n-th dial of the whole send by the n-th.
pub record Env : Type 0 where
  pub at_start : List TransportEntry
  pub at_attempt : ℕ → List TransportEntry
  pub answers : ℕ → Answers

-- A result with the number of connections dialled so far.
pub record Progress {ℓ} (A : Type ℓ) : Type ℓ where
  pub net : Net
  pub dials : ℕ
  pub result : A

unfoldable pub emit : Net → List TransportEvent → Net
emit n events = record n { events = n.events ++ events }

-- The events of a successful `try_send`.
abbrev pub delivery : PeerId → TransportKind → Option PublicKey → List TransportEvent
delivery peer_id k none = message_delivered peer_id k ∷ []
delivery peer_id k (some public_key) =
    message_delivered peer_id k ∷ key_learned peer_id public_key ∷ []

module _ (hash : Bytes → Bytes) (env : Env) (payload : Bytes) (message_id : ℕ)
    (peer_id : PeerId) where
  -- `for (transport, ann) in &candidates`; `true` where it returns `Ok(())`.
  unfoldable pub try_all : List Candidate → ℕ → Net → Progress Bool
  try_all [] k n = record { net = n; dials = k; result = false }
  try_all ((t, ann) ∷ cs) k n =
      let (n1, r) = try_send hash n (env.answers k) t payload message_id peer_id in
      elim r [
        | ok learned_key ↦ record {
          net = emit n1 (delivery peer_id t.kind_of learned_key);
          dials = suc k;
          result = true;
        }
        | err e ↦ try_all cs (suc k) n1
      ]

  -- `for attempt in 0..MAX_SEND_ATTEMPTS`, with `left` attempts to go.
  unfoldable pub attempts : List PeerAnnouncement → ℕ → ℕ → ℕ → Net → Progress (Result (Unit {0}))
  attempts peers zero attempt k n = record { net = n; dials = k; result = err delivery_failed }
  attempts peers (suc left) attempt k n = elim (candidates (env.at_attempt attempt) peers) [
    | [] ↦ record { net = n; dials = k; result = err no_transport_available }
    | c ∷ cs ↦
        let round = try_all (c ∷ cs) k n in
        elim round.result [
          | true ↦ record { net = round.net; dials = round.dials; result = ok tt }
          | false ↦ attempts peers left (suc attempt) round.dials round.net
        ]
  ]

  unfoldable pub send : Net → List PeerAnnouncement → Progress (Result (Unit {0}))
  send n peers =
      if not (any_available env.at_start)
      then record { net = n; dials = 0; result = err no_transport_available }
      else attempts peers max_send_attempts 0 0 n

-- The events of a `connect` that learned a key.
abbrev pub learning : PeerId → Option PublicKey → List TransportEvent
learning peer_id none = []
learning peer_id (some public_key) = key_learned peer_id public_key ∷ []

module _ (hash : Bytes → Bytes) (env : Env) where
  unfoldable pub connect_all : List Candidate → ℕ → Net → Progress (Result PeerId)
  connect_all [] k n = record { net = n; dials = k; result = err no_transport_available }
  connect_all ((t, ann) ∷ cs) k n =
      let (n1, r) = try_connect hash n (env.answers k) t in
      elim r [
        | ok (peer_id, learned_key) ↦ record {
          net = emit n1 (learning peer_id learned_key);
          dials = suc k;
          result = ok peer_id;
        }
        | err e ↦ connect_all cs (suc k) n1
      ]

  -- `Router::connect`.
  unfoldable pub connect : Net → List PeerAnnouncement → Progress (Result PeerId)
  connect n peers = connect_all (candidates env.at_start peers) 0 n
