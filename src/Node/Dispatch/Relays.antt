-- ===== src/Node/Dispatch/Relays.antt =====
-- What a node relays, and to whom.
use pathweave.Base.{
  ℕ, Bool, true, not, ◌&&◌, ◌≡◌, ◌≢◌, refl, sym, ap, ◌∙◌, List, [], ◌∷◌, ◌++◌, map, append_assoc,
  append-nil, arith, inl, inr, Bool-cases, take, keep_if, All, All-append, All-mono, ◌=?◌, eqb_refl,
}
use pathweave.Types.{Bytes, PeerId, PublicKey, bytes_eq, Result, PeerAnnouncement}
use pathweave.Bytes.{ret, from_be_bytes}
use pathweave.PeerTable.{PeerTable}
use pathweave.KeyRegistry.{new}
use pathweave.Node.Dispatch.{
  Relay, NodeState, on_message, neighbors, spawn_relay_to_neighbors, send_ack, dispatch_payload,
}
use pathweave.Node.Dispatch.Effects.{IsRelayed}
use pathweave.Node.Dispatch.Effects.Payload.{dispatch_payload-keeps}

module _ {ℓ μ} {A : Type ℓ} where
  All-keep_if-true :
      (P : A → Type μ) (p : A → Bool) (xs : List A)
      → ((x : A) → p x ≡ true → P x)
      → All P (keep_if p xs)
  All-keep_if-true P p [] f = tt
  All-keep_if-true P p (x ∷ xs) f =
      let rest = All-keep_if-true P p xs f in
      elim (Bool-cases (p x)) [ inl e ↦ let here = f x e in ground arith | inr e ↦ ground arith ]

not_equal : (p q : PeerId) → not (p =? q) ≡ true → p ≢ q
not_equal p q e h = cc (e, ap not (ap (λ x. x =? q) h ∙ eqb_refl q))

and_true : (a b : Bool) → (a && b) ≡ true → (a ≡ true) × (b ≡ true)
and_true a b e = ground arith

neighbors-others :
    (peers : PeerTable) (sender local_peer_id : PeerId)
    → All
        (λ entry. (entry.0 ≢ sender) × (entry.0 ≢ local_peer_id))
        (neighbors peers sender local_peer_id)
unfolding neighbors
neighbors-others peers sender local_peer_id = All-keep_if-true _ _ peers λ entry e.
    let (a, b) = and_true (not (entry.0 =? sender)) (not (entry.0 =? local_peer_id)) e in
    (not_equal entry.0 sender a, not_equal entry.0 local_peer_id b)

-- A relay that a frame may cause: to another node than the sender of the frame and the node itself,
-- under the frame's message id, of the same content with a hop less.
abbrev pub IsRelayOf : (Bytes → Bytes) → PeerId → PeerId → Bytes → Relay → Type 0
IsRelayOf hash sender local_peer_id payload r =
    (r.to_peer ≢ sender)
    × (r.to_peer ≢ local_peer_id)
    × (r.message_id ≡ from_be_bytes 0 (take 8 payload))
    × IsRelayed hash payload r.body

module _ {ℓ κ μ} {A : Type ℓ} {B : Type κ} where
  All-map : (P : B → Type μ) (f : A → B) (xs : List A) → All (λ x. P (f x)) xs → All P (map f xs)
  All-map P f [] h = tt
  All-map P f (x ∷ xs) h = (h.0, All-map P f xs h.1)

module _ (hash : Bytes → Bytes) (sender : PeerId) (payload : Bytes) (s : NodeState) where
  -- The relays so far are those of `s` and some that the frame may cause.
  abbrev Grows : NodeState → Type 0
  Grows s1 =
      (s1.local_peer_id ≡ s.local_peer_id)
      × ((new : List Relay) × (s1.relays ≡ s.relays ++ new)
          × All (IsRelayOf hash sender s.local_peer_id payload) new)

  on_message-Grows :
      (s1 : NodeState) (p : PeerId) (b : Bytes) → Grows s1 → Grows (on_message s1 p b)
  unfolding on_message
  on_message-Grows s1 p b h = elim (Bool-cases s1.has_handler) [ inl e ↦ rw e h | inr e ↦ rw e h ]

  spawn-Grows :
      (s1 : NodeState) (body : Bytes) (msg_id : ℕ)
      → IsRelayed hash payload body
      → msg_id ≡ from_be_bytes 0 (take 8 payload)
      → Grows s1
      → Grows (spawn_relay_to_neighbors s1 body msg_id sender)
  unfolding spawn_relay_to_neighbors
  spawn-Grows s1 body msg_id r m (e, (new, f, h)) =
      let relay : PeerId × List PeerAnnouncement → Relay = λ entry. record {
        to_peer = entry.0;
        announced = entry.1;
        message_id = msg_id;
        body = body;
      } in
      let others = neighbors-others s1.peers sender s1.local_peer_id in
      let spawned = map relay (neighbors s1.peers sender s1.local_peer_id) in
      (
        e,
        (
          new ++ spawned,
          ap (λ r. r ++ spawned) f ∙ append_assoc s.relays new spawned,
          All-append _ new spawned h (
              All-map _ relay (neighbors s1.peers sender s1.local_peer_id) (
                All-mono _ _ (neighbors s1.peers sender s1.local_peer_id)
                  (λ entry o. (o.0, (λ q. o.1 (q ∙ sym e)), m, r)) others)),
        ),
      )

-- Whatever bytes a peer sends, all that the node spawns for them are relays of the frame, with one
-- hop less, under the frame's message id, to nodes other than the sender and itself.
pub dispatch_payload-relays :
    (hash : Bytes → Bytes) (unseal : PeerId → PublicKey → Bytes → Result Bytes) (s : NodeState)
    (now : ℕ) (sender : PeerId) (payload : Bytes)
    → (s' : NodeState) × (new : List Relay) × (dispatch_payload hash unseal s now sender payload
        ≡ ret s')
      × (s'.relays ≡ s.relays ++ new)
      × All (IsRelayOf hash sender s.local_peer_id payload) new
unfolding send_ack
dispatch_payload-relays hash unseal s now sender payload =
    let (s1, e, (f, (new, g, h))) =
      dispatch_payload-keeps hash unseal now sender payload {P = Grows hash sender payload s}
        (record {
          seen = λ s1 cache h. h;
          handed = on_message-Grows hash sender payload s;
          learned = λ s1 p k own h. h;
          relayed = spawn-Grows hash sender payload s;
        })
        s (refl, ([], sym (append-nil s.relays), tt)) in
    (send_ack s1, new, e, g, h)
