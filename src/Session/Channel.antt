-- ===== src/Session/Channel.antt =====
-- A session in use: the messages that one side sends with `Session::send` and the other side
-- receives with `Session::recv` (crates/pathweave-core/src/session.rs).
use pathweave.Base.{
  ℕ, zero, suc, ◌+◌, ◌≤◌, ◌≡◌, refl, sym, ap, ◌∙◌, List, [], ◌∷◌, ◌++◌, append_assoc, append-nil,
  some, length, length-append, All, arith,
}
use pathweave.Types.{Bytes, bytes_eq, Result, ok, err}
use pathweave.Session.{
  Noise, Position, Connection, Session, Wire, continue, pure, ◌>>=◌, send, recv,
}
use pathweave.Session.Handshake.{start, next, inbox}

-- NOISE_MSG_MAX, the longest message of Noise, with the tag of ChaChaPoly that `send` adds.
unfoldable pub Fits : Bytes → Type 0
Fits plaintext = length plaintext + 16 ≤ 65535

module _ {State Channel : Type 0} (hash : Bytes → Bytes) (noise : Noise State Channel) where
  -- The messages of a sender, one after the other.
  unfoldable pub send_each : Session Channel → Connection → List Bytes → Wire (Session Channel)
  send_each s conn [] = pure s
  send_each s conn (m ∷ ms) = do s1 ← send hash noise s conn m; send_each s1 conn ms

  -- A receiver that waits for some number of messages.
  unfoldable pub recv_each : Session Channel → Connection → ℕ → Wire (Session Channel × List Bytes)
  recv_each s conn zero = pure (s, [])
  recv_each s conn (suc n) = do
    one ← recv hash noise s conn
    rest ← recv_each one.0 conn n
    pure (rest.0, one.1 ∷ rest.1)

module _ {State Channel : Type 0} (noise : Noise State Channel) where
  -- What the Noise library promises of two channels that a handshake left in step: a message that
  -- fits is encrypted, the other channel decrypts it, and they are in step again.
  pub record InStep (Paired : Channel → Channel → Type 0) : Type 0 where
    pub next_sender : (c d : Channel) → Paired c d → Bytes → Channel
    pub next_receiver : (c d : Channel) → Paired c d → Bytes → Channel
    pub ciphertext : (c d : Channel) → Paired c d → Bytes → Bytes
    pub encrypts :
        (c d : Channel) (p : Paired c d) (m : Bytes)
        → Fits m
        → noise.encrypt c m ≡ some (next_sender c d p m, ciphertext c d p m)
    pub decrypts :
        (c d : Channel) (p : Paired c d) (m : Bytes)
        → Fits m
        → noise.decrypt d (ciphertext c d p m) ≡ some (next_receiver c d p m, m)
    pub stays :
        (c d : Channel) (p : Paired c d) (m : Bytes)
        → Fits m
        → Paired (next_sender c d p m) (next_receiver c d p m)

next-append :
    (before : List Bytes) (m : Bytes) (ms : List Bytes)
    → next (before ++ m ∷ ms) (length before) ≡ ok m
unfolding next
next-append [] m ms = refl
next-append (b ∷ bs) m ms = next-append bs m ms

length-append_one :
    (before : List Bytes) (m : Bytes) → length (before ++ m ∷ []) ≡ suc (length before)
length-append_one before m = ground (arith, length-append before (m ∷ []))

abbrev map_ok : {A B : Type 0} → (A → B) → Result A → Result B
map_ok f (err e) = err e
map_ok f (ok a) = ok (f a)

continue-pure :
    {A B : Type 0} (f : A → B) (x : Position × Result A)
    → (continue (λ a. pure (f a)) x).1 ≡ map_ok f x.1
continue-pure f (p, err e) = refl
continue-pure f (p, ok a) = refl

module _ {State Channel : Type 0} (hash : Bytes → Bytes) (noise : Noise State Channel) where
  send_each-next :
      (s : Session Channel) (conn : Connection) (m ct : Bytes) (c : Channel) (ms : List Bytes)
      (p : Position)
      → noise.encrypt s.state m ≡ some (c, ct)
      → conn.takes p ct ≡ ok tt
      → send_each hash noise s conn (m ∷ ms) p
        ≡ send_each hash noise
            (record s { state = c })
            conn
            ms
            (record p { sent = p.sent ++ ct ∷ [] })
  unfolding send_each send
  send_each-next s conn m ct c ms p e takes = rw (e, takes) refl

  recv_each-next :
      (r : Session Channel) (cts : List Bytes) (ct m : Bytes) (d : Channel) (count : ℕ)
      (q : Position)
      → next cts q.received ≡ ok ct
      → noise.decrypt r.state ct ≡ some (d, m)
      → (rs : Session Channel) (ms : List Bytes)
      → (recv_each hash noise
          (record r { state = d })
          (inbox cts)
          count
          (record q { received = suc q.received })).1
        ≡ ok (rs, ms)
      → (recv_each hash noise r (inbox cts) (suc count) q).1 ≡ ok (rs, m ∷ ms)
  unfolding recv_each recv inbox
  recv_each-next r cts ct m d count q at e rs ms rest =
      rw (at, e)
        (continue-pure (λ rest. (rest.0, m ∷ rest.1))
            (recv_each hash noise (record r { state = d }) (inbox cts) count
              (record q { received = suc q.received }))
          ∙ ap (map_ok (λ rest. (rest.0, m ∷ rest.1))) rest)

module _ {State Channel : Type 0} (hash : Bytes → Bytes) (noise : Noise State Channel)
    (Paired : Channel → Channel → Type 0) where
  -- What becomes of some messages: the ciphertexts, which the receiver gets at whatever position of
  -- its connection, and the two sessions afterwards.
  record Carried (s r : Session Channel) (ms : List Bytes) : Type 0 where
    ciphertexts : List Bytes
    sender : Session Channel
    receiver : Session Channel
    sends :
        (conn : Connection) (p : Position)
        → ((p : Position) (message : Bytes) → conn.takes p message ≡ ok tt)
        → send_each hash noise s conn ms p ≡ (record p { sent = p.sent ++ ciphertexts }, ok sender)
    receives :
        (before : List Bytes) (q : Position)
        → q.received ≡ length before
        → (recv_each hash noise r (inbox (before ++ ciphertexts)) (length ms) q).1
          ≡ ok (receiver, ms)
    paired : Paired sender.state receiver.state
    sender_peer : sender.peer_id ≡ s.peer_id
    receiver_peer : receiver.peer_id ≡ r.peer_id

  module _ (n : InStep noise Paired) where
    carry :
        (s r : Session Channel) (ms : List Bytes)
        → All Fits ms
        → Paired s.state r.state
        → Carried s r ms
    unfolding send_each recv_each
    carry s r [] fits p = record {
      ciphertexts = [];
      sender = s;
      receiver = r;
      sends = λ conn q takes. ap (λ l. (record q { sent = l }, ok s)) (sym (append-nil q.sent));
      receives = λ before q e. refl;
      paired = p;
      sender_peer = refl;
      receiver_peer = refl;
    }
    carry s r (m ∷ ms) fits p =
        let s1 = record s { state = n.next_sender s.state r.state p m } in
        let r1 = record r { state = n.next_receiver s.state r.state p m } in
        let ct = n.ciphertext s.state r.state p m in
        let rest = carry s1 r1 ms fits.1 (n.stays s.state r.state p m fits.0) in
        record {
          ciphertexts = ct ∷ rest.ciphertexts;
          sender = rest.sender;
          receiver = rest.receiver;
          sends = λ conn q takes.
              send_each-next hash noise s conn m ct s1.state ms q
                (n.encrypts s.state r.state p m fits.0) (takes q ct)
              ∙ rest.sends conn (record q { sent = q.sent ++ ct ∷ [] }) takes
              ∙ ap (λ l. (record q { sent = l }, ok rest.sender))
                  (append_assoc q.sent (ct ∷ []) rest.ciphertexts);
          receives = λ before q e.
              recv_each-next hash noise r (before ++ ct ∷ rest.ciphertexts) ct m r1.state
                (length ms) q
                (ap (next (before ++ ct ∷ rest.ciphertexts)) e
                  ∙ next-append before ct rest.ciphertexts)
                (n.decrypts s.state r.state p m fits.0) rest.receiver ms
                (ap
                    (λ cts.
                      (recv_each hash noise r1 (inbox cts) (length ms)
                        (record q { received = suc q.received })).1)
                    (sym (append_assoc before (ct ∷ []) rest.ciphertexts))
                  ∙ rest.receives (before ++ ct ∷ []) (record q { received = suc q.received })
                      (ap suc e ∙ sym (length-append_one before ct)));
          paired = rest.paired;
          sender_peer = rest.sender_peer;
          receiver_peer = rest.receiver_peer;
        }

-- Two sessions whose channels the handshake left in step: the messages that one side sends, however
-- many, are what the other side receives, one by one and in their order, if the connection takes
-- and delivers what is handed to it and each message fits into one of Noise. The channels are in
-- step again, and each side still knows the other under the same id.
pub recv_each-send_each :
    {State Channel : Type 0} (hash : Bytes → Bytes) (noise : Noise State Channel)
    (Paired : Channel → Channel → Type 0)
    → InStep noise Paired
    → (s r : Session Channel) (conn : Connection) (ms : List Bytes)
    → ((p : Position) (message : Bytes) → conn.takes p message ≡ ok tt)
    → All Fits ms
    → Paired s.state r.state
    → (s1 : Session Channel) × (r1 : Session Channel) × ((send_each hash noise s conn ms start).1
        ≡ ok s1)
      × ((recv_each hash noise r
            (inbox (send_each hash noise s conn ms start).0.sent)
            (length ms)
            start).1
          ≡ ok (r1, ms))
      × Paired s1.state r1.state
      × (s1.peer_id ≡ s.peer_id)
      × (r1.peer_id ≡ r.peer_id)
recv_each-send_each hash noise Paired n s r conn ms takes fits p =
    let c = carry hash noise Paired n s r ms fits p in
    let sent = c.sends conn start takes in
    (
      c.sender,
      c.receiver,
      ap (λ x. x.1) sent,
      ap (λ x. (recv_each hash noise r (inbox x.0.sent) (length ms) start).1) sent
          ∙ c.receives [] start refl,
      c.paired,
      c.sender_peer,
      c.receiver_peer,
    )
