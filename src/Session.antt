-- ===== src/Session.antt =====
-- The Noise session of crates/pathweave-core/src/session.rs: the handshakes of Noise_XX and
-- Noise_XK, the encrypted channel, and one-shot sealing with Noise_K. The `snow` library is a
-- parameter; its errors become `PathweaveError::Session`.
pub mod Channel
pub mod Handshake
use pathweave.Base.{ℕ, suc, List, [], ◌∷◌, ◌++◌, Option, none, some, ◌==◌, if◌then◌else◌}
use pathweave.Types.{Bytes, PeerId, PublicKey, bytes_eq, session, Result, ok, err}
use pathweave.Types.{peer_id_from_public_key}

-- The patterns of NOISE_PARAMS, NOISE_XK_PARAMS and NOISE_K_PARAMS.
pub data Pattern : Type 0 where
  xx xk one_shot : Pattern

-- What the code uses of `snow`: builders of the two sides of a handshake, given the own private key
-- and the key of the remote node where it is known; the messages; the static key of the remote node,
-- always 32 bytes long; and the transport state with its messages.
pub record Noise (State Channel : Type 0) : Type 0 where
  pub build_initiator : Pattern → Bytes → Option PublicKey → Option State
  pub build_responder : Pattern → Bytes → Option PublicKey → Option State
  pub write_message : State → Bytes → Option (State × Bytes)
  pub read_message : State → Bytes → Option (State × Bytes)
  pub get_remote_static : State → Option PublicKey
  pub into_transport_mode : State → Option Channel
  pub encrypt : Channel → Bytes → Option (Channel × Bytes)
  pub decrypt : Channel → Bytes → Option (Channel × Bytes)

-- How far a connection has come: what was sent, and the number of messages received.
pub record Position : Type 0 where
  pub sent : List Bytes
  pub received : ℕ

-- A `Connection`: whether it takes a message, and what arrives.
pub record Connection : Type 0 where
  pub takes : Position → Bytes → Result (Unit {0})
  pub arrives : Position → Result Bytes

-- Code that uses a connection and returns early on an error.
abbrev pub Wire : Type 0 → Type 0
Wire A = Position → Position × Result A

abbrev pub continue : {A B : Type 0} → (A → Wire B) → Position × Result A → Position × Result B
continue f (p, err e) = (p, err e)
continue f (p, ok a) = f a p

infixl 10 ◌>>=◌
abbrev pub ◌>>=◌ : {A B : Type 0} → Wire A → (A → Wire B) → Wire B
(m >>= f) p = continue f (m p)

abbrev pub pure : {A : Type 0} → A → Wire A
pure a p = (p, ok a)

-- `.map_err(…)?` and `ok_or_else(…)?`.
abbrev pub or_session : {A : Type 0} → Option A → Wire A
or_session none p = (p, err session)
or_session (some a) p = (p, ok a)

abbrev pub refuse : {A : Type 0} → Wire A
refuse p = (p, err session)

-- The position after a message was handed over, and after one was waited for.
abbrev pub handed : Bytes → Position → Result (Unit {0}) → Position × Result (Unit {0})
handed message p (err e) = (p, err e)
handed message p (ok u) = (record p { sent = p.sent ++ message ∷ [] }, ok tt)

abbrev pub awaited : Position → Result Bytes → Position × Result Bytes
awaited p (err e) = (p, err e)
awaited p (ok message) = (record p { received = suc p.received }, ok message)

abbrev pub send_bytes : Connection → Bytes → Wire (Unit {0})
send_bytes conn message p = handed message p (conn.takes p message)

abbrev pub recv_bytes : Connection → Wire Bytes
recv_bytes conn p = awaited p (conn.arrives p)

-- `Session`, with its connection apart.
pub record Session (Channel : Type 0) : Type 0 where
  pub peer_id : PeerId
  pub remote_static_key : PublicKey
  pub state : Channel

-- The `match` on the prefix.
unfoldable pub pattern_of : ℕ → Option Pattern
pattern_of prefix = if prefix == 0x00 then some xx else if prefix == 0x01 then some xk else none

abbrev pub first : Bytes → Option ℕ
first [] = none
first (b ∷ bs) = some b

-- The pattern and its prefix, PROTO_XX or PROTO_XK, for a remote key that is known or not.
unfoldable pub pattern_for : Option PublicKey → Pattern
pattern_for none = xx
pattern_for (some key) = xk

abbrev pub proto_for : Option PublicKey → ℕ
proto_for none = 0x00
proto_for (some key) = 0x01

-- `hash` stands for `blake3::hash`.
module _ {State Channel : Type 0} (hash : Bytes → Bytes) (noise : Noise State Channel) where
  unfoldable pub finish : State → Wire (Session Channel)
  finish state = do
    raw ← or_session (noise.get_remote_static state)
    channel ← or_session (noise.into_transport_mode state)
    pure (record {
      peer_id = peer_id_from_public_key hash raw;
      remote_static_key = raw;
      state = channel;
    })

  unfoldable pub initiate : Bytes → Connection → Option PublicKey → Wire (Session Channel)
  initiate private_key conn remote_key = do
    state ← or_session (noise.build_initiator (pattern_for remote_key) private_key remote_key)
    sent ← send_bytes conn (proto_for remote_key ∷ [])
    one ← or_session (noise.write_message state [])
    sent ← send_bytes conn one.1
    msg ← recv_bytes conn
    two ← or_session (noise.read_message one.0 msg)
    three ← or_session (noise.write_message two.0 [])
    sent ← send_bytes conn three.1
    finish three.0

  unfoldable pub respond : Bytes → Connection → Wire (Session Channel)
  respond private_key conn = do
    prefix_msg ← recv_bytes conn
    prefix ← or_session (first prefix_msg)
    params ← or_session (pattern_of prefix)
    state ← or_session (noise.build_responder params private_key none)
    msg ← recv_bytes conn
    one ← or_session (noise.read_message state msg)
    two ← or_session (noise.write_message one.0 [])
    sent ← send_bytes conn two.1
    msg ← recv_bytes conn
    three ← or_session (noise.read_message two.0 msg)
    finish three.0

  -- `Session::send` and `Session::recv`.
  unfoldable pub send : Session Channel → Connection → Bytes → Wire (Session Channel)
  send s conn plaintext = do
    ciphertext ← or_session (noise.encrypt s.state plaintext)
    sent ← send_bytes conn ciphertext.1
    pure (record s { state = ciphertext.0 })

  unfoldable pub recv : Session Channel → Connection → Wire (Session Channel × Bytes)
  recv s conn = do
    ciphertext ← recv_bytes conn
    plaintext ← or_session (noise.decrypt s.state ciphertext)
    pure (record s { state = plaintext.0 }, plaintext.1)

-- The message that a handshake state writes or reads first, with its errors.
abbrev pub only_message : {State : Type 0} → Option (State × Bytes) → Result Bytes
only_message none = err session
only_message (some (state, message)) = ok message

module _ {State Channel : Type 0} (noise : Noise State Channel) where
  unfoldable pub seal : Bytes → PublicKey → Bytes → Result Bytes
  seal private_key dest_public_key payload =
      elim (noise.build_initiator one_shot private_key (some dest_public_key)) [
        | none ↦ err session
        | some state ↦ only_message (noise.write_message state payload)
      ]

  -- The sender's id only stands in the text of an error.
  unfoldable pub unseal : Bytes → PeerId → PublicKey → Bytes → Result Bytes
  unseal private_key sender_peer_id sender_public_key sealed =
      elim (noise.build_responder one_shot private_key (some sender_public_key)) [
        | none ↦ err session
        | some state ↦ only_message (noise.read_message state sealed)
      ]
