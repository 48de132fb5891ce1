-- ===== src/Session/Handshake.antt =====
-- The two sides of a handshake against one another.
use pathweave.Base.{ℕ, ◌≡◌, refl, List, [], ◌∷◌, Option, none, some, get_elem?, ap, ◌∙◌}
use pathweave.Types.{Bytes, PublicKey, bytes_eq, io, Result, ok, err}
use pathweave.Session.{
  peer_id_from_public_key, Noise, Position, Connection, Session, pattern_of, pattern_for, proto_for,
  finish, initiate, respond,
}

abbrev pub start : Position
start = record { sent = []; received = 0 }

-- The next of some messages; when they are used up, the connection is closed.
unfoldable pub next : List Bytes → ℕ → Result Bytes
next messages n = elim (get_elem? messages n) [ none ↦ err io | some message ↦ ok message ]

-- A connection over which these messages arrive.
unfoldable pub inbox : List Bytes → Connection
inbox messages = record { takes = λ p message. ok tt; arrives = λ p. next messages p.received }

module _ {State Channel : Type 0} (noise : Noise State Channel) where
  -- The three messages of a handshake, empty but for what the pattern puts in them, go through
  -- between the two sides, and then each knows the key of the other.
  pub record Completes (si sr : State) (key_i key_r : PublicKey) (ci cr : Channel) : Type 0 where
    pub i1 : State
    pub i2 : State
    pub i3 : State
    pub r1 : State
    pub r2 : State
    pub r3 : State
    pub m1 : Bytes
    pub m2 : Bytes
    pub m3 : Bytes
    pub p1 : Bytes
    pub p2 : Bytes
    pub p3 : Bytes
    pub write_one : noise.write_message si [] ≡ some (i1, m1)
    pub read_one : noise.read_message sr m1 ≡ some (r1, p1)
    pub write_two : noise.write_message r1 [] ≡ some (r2, m2)
    pub read_two : noise.read_message i1 m2 ≡ some (i2, p2)
    pub write_three : noise.write_message i2 [] ≡ some (i3, m3)
    pub read_three : noise.read_message r2 m3 ≡ some (r3, p3)
    pub static_i : noise.get_remote_static i3 ≡ some key_r
    pub static_r : noise.get_remote_static r3 ≡ some key_i
    pub transport_i : noise.into_transport_mode i3 ≡ some ci
    pub transport_r : noise.into_transport_mode r3 ≡ some cr

-- A session with the node of a static key.
abbrev pub established :
    {Channel : Type 0} → (Bytes → Bytes) → PublicKey → Channel → Session Channel
established hash key channel = record {
  peer_id = peer_id_from_public_key hash key;
  remote_static_key = key;
  state = channel;
}

module _ {State Channel : Type 0} (hash : Bytes → Bytes) (noise : Noise State Channel)
    (private_r : Bytes) where
  -- The connection of an initiator to a node that responds: what arrives is what the other side
  -- sends on what was sent to it so far.
  unfoldable pub responder : Connection
  responder = record {
    takes = λ p message. ok tt;
    arrives = λ p. next (respond hash noise private_r (inbox p.sent) start).0.sent p.received;
  }

  pattern_of-proto_for :
      (remote_key : Option PublicKey)
      → pattern_of (proto_for remote_key) ≡ some (pattern_for remote_key)
  unfolding pattern_of pattern_for
  pattern_of-proto_for none = refl
  pattern_of-proto_for (some key) = refl

  module _ (remote_key : Option PublicKey) (sr : State)
      (build_r : noise.build_responder (pattern_for remote_key) private_r none ≡ some sr) where
    respond-second :
        {si : State} {key_i key_r : PublicKey} {ci cr : Channel}
        (c : Completes noise si sr key_i key_r ci cr)
        → (respond hash noise private_r
            (inbox ((proto_for remote_key ∷ []) ∷ c.m1 ∷ []))
            start).0.sent
          ≡ c.m2 ∷ []
    unfolding respond inbox next
    respond-second c =
        rw (respond, pattern_of-proto_for remote_key, build_r, c.read_one, c.write_two) refl

    -- With all three messages, the responder has a session.
    respond-third :
        {si : State} {key_i key_r : PublicKey} {ci cr : Channel}
        (c : Completes noise si sr key_i key_r ci cr)
        → (respond hash noise private_r
            (inbox ((proto_for remote_key ∷ []) ∷ c.m1 ∷ c.m3 ∷ []))
            start).1
          ≡ ok (established hash key_i cr)
    unfolding respond inbox next finish
    respond-third c =
        rw
          (
            respond,
            pattern_of-proto_for remote_key,
            build_r,
            c.read_one,
            c.write_two,
            c.read_three,
            c.static_r,
            c.transport_r,
          )
          refl

    reply :
        {si : State} {key_i key_r : PublicKey} {ci cr : Channel}
        (c : Completes noise si sr key_i key_r ci cr)
        → next
            (respond hash noise private_r
              (inbox ((proto_for remote_key ∷ []) ∷ c.m1 ∷ []))
              start).0.sent
            0
          ≡ ok c.m2
    unfolding next
    reply c = ap (λ messages. next messages 0) (respond-second c)

    initiate-over :
        (private_i : Bytes) (conn : Connection) {si : State} {key_i key_r : PublicKey}
        {ci cr : Channel} (c : Completes noise si sr key_i key_r ci cr)
        → noise.build_initiator (pattern_for remote_key) private_i remote_key ≡ some si
        → ((p : Position) (message : Bytes) → conn.takes p message ≡ ok tt)
        → conn.arrives (record { sent = (proto_for remote_key ∷ []) ∷ c.m1 ∷ []; received = 0 })
          ≡ ok c.m2
        → initiate hash noise private_i conn remote_key start ≡ (
          record { sent = (proto_for remote_key ∷ []) ∷ c.m1 ∷ c.m3 ∷ []; received = 1 },
          ok (established hash key_r ci),
        )
    unfolding initiate finish
    initiate-over private_i conn c build_i takes arrives =
        let prefix = proto_for remote_key ∷ [] in
        rw
          (
            initiate,
            build_i,
            takes start prefix,
            c.write_one,
            takes (record { sent = prefix ∷ []; received = 0 }) c.m1,
            arrives,
            c.read_two,
            c.write_three,
            takes (record { sent = prefix ∷ c.m1 ∷ []; received = 1 }) c.m3,
            c.static_i,
            c.transport_i,
          )
          refl

    initiate-all :
        (private_i : Bytes) {si : State} {key_i key_r : PublicKey} {ci cr : Channel}
        (c : Completes noise si sr key_i key_r ci cr)
        → noise.build_initiator (pattern_for remote_key) private_i remote_key ≡ some si
        → initiate hash noise private_i responder remote_key start ≡ (
          record { sent = (proto_for remote_key ∷ []) ∷ c.m1 ∷ c.m3 ∷ []; received = 1 },
          ok (established hash key_r ci),
        )
    unfolding responder
    initiate-all private_i c build_i =
        initiate-over private_i responder c build_i (λ p message. refl) (reply c)

-- A node that dials another with the key that it knows of it, or with none, picks Noise_XK or
-- Noise_XX, and the other follows. If the Noise library completes a handshake of that pattern
-- between the two, and their messages arrive, then both sides end with a session: each under the
-- other's static key, and with the hash of that key as the peer's id.
pub initiate-respond :
    {State Channel : Type 0} (hash : Bytes → Bytes) (noise : Noise State Channel)
    (private_i private_r : Bytes) (remote_key : Option PublicKey) (si sr : State)
    (key_i key_r : PublicKey) (ci cr : Channel)
    → noise.build_initiator (pattern_for remote_key) private_i remote_key ≡ some si
    → noise.build_responder (pattern_for remote_key) private_r none ≡ some sr
    → Completes noise si sr key_i key_r ci cr
    → let (pi, ri) =
        initiate hash noise private_i (responder hash noise private_r) remote_key start in
      (ri ≡ ok (established hash key_r ci))
      × ((respond hash noise private_r (inbox pi.sent) start).1 ≡ ok (established hash key_i cr))
initiate-respond hash noise private_i private_r remote_key si sr key_i key_r ci cr build_i build_r
      c =
    let e = initiate-all hash noise private_r remote_key sr build_r private_i c build_i in
    (
      ap (λ x. x.1) e,
      ap (λ x. (respond hash noise private_r (inbox x.0.sent) start).1) e
          ∙ respond-third hash noise private_r remote_key sr build_r c,
    )
