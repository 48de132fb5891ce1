-- ===== src/Router/Discovery/Copies.antt =====
-- What a peer that comes and goes leaves in the peer table.
use pathweave.Base.{
  ℕ, zero, suc, true, false, not, ◌≡◌, refl, sym, ap, ◌∙◌, List, [], ◌∷◌, ◌++◌, append_assoc,
  append-nil, none, some, arith, inl, inr, Bool-cases, replicate, ◌=?◌, eqb_refl, mem,
}
use pathweave.Base.Map
use pathweave.Base.Map.{Map, get-insert}
use pathweave.Base.Map.Keys.{mem-keep_if}
use pathweave.Types.{Bytes, PeerId, PublicKey, bytes_eq, ok, PeerAddress, PeerAnnouncement}
use pathweave.Types.{PeerAddress-eq, peer_id_from_public_key}
use pathweave.PeerTable.{PeerTable, has_address, announcements}
use pathweave.Router.Send.{emit}
use pathweave.Router.{Transport}
use pathweave.Router.Dial.{Answers, Net, timed_out, try_connect, learn_addresses, write, register}
use pathweave.Router.Discovery.{
  PeerEvent, arrival, departure, Discovery, owner, connected, arrive, depart, peer_event,
  peer_stream, forget, push_announcement, dial,
}

announcements-push :
    (peers : PeerTable) (p : PeerId) (ann : PeerAnnouncement)
    → announcements p (push_announcement peers p ann) ≡ announcements p peers ++ ann ∷ []
unfolding push_announcement
announcements-push peers p ann =
    let before = announcements p peers ++ ann ∷ [] in
    unfold announcements in ground (arith, get-insert p p before peers, eqb_refl p)

has_address-append :
    (anns : List PeerAnnouncement) (ann : PeerAnnouncement)
    → has_address ann.address (anns ++ ann ∷ []) ≡ true
unfolding has_address
has_address-append [] ann = ground (arith, eqb_refl ann.address)
has_address-append (a ∷ anns) ann = ground (arith, has_address-append anns ann)

-- A peer that is in the table with an address makes somebody its owner.
owner-some :
    (addr : PeerAddress) (p : PeerId) (peers : PeerTable)
    → has_address addr (announcements p peers) ≡ true
    → (q : PeerId) × (owner addr peers ≡ some q)
unfolding owner announcements Map.get has_address
owner-some addr p [] h = absurd (ground arith)
owner-some addr p ((q, anns) ∷ peers) h = elim (Bool-cases (has_address addr anns)) [
  | inl here ↦ rw here (q, refl)
  | inr there ↦ rw there (owner-some addr p peers (ground (arith, h, there)))
]

mem-forget_same :
    (addr : PeerAddress) (known : List PeerAddress) → mem addr (forget addr known) ≡ false
unfolding forget
mem-forget_same addr known =
    ground (arith, mem-keep_if (λ a. not (a =? addr)) addr known, eqb_refl addr)

module _ (hash : Bytes → Bytes) (local_peer_id : PeerId) (t : Transport) (a : Answers)
    (key : PublicKey) where
  abbrev remote : PeerId
  remote = peer_id_from_public_key hash key

  -- The dial reaches a node with this key, not this one itself, and no exchange of addresses comes.
  abbrev pub Reaches : Type 0
  Reaches =
      (a.connects ≡ ok tt)
      × (a.handshake none ≡ ok key)
      × (a.exchange ≡ timed_out)
      × ((remote =? local_peer_id) ≡ false)

  try_connect-reaches :
      (n : Net)
      → Reaches
      → let (n1, r) = try_connect hash n a t in
        (r ≡ ok (remote, (register hash n key).1)) × (n1.peers ≡ n.peers)
  unfolding try_connect register write learn_addresses
  try_connect-reaches n (c, h, x, other) =
      (rw (try_connect, c, h) refl, rw (try_connect, c, h, x) refl)

  arrive-copies :
      (s : Discovery) (ann : PeerAnnouncement)
      → Reaches
      → mem ann.address s.known_addrs ≡ false
      → announcements remote (arrive hash local_peer_id t s a ann).net.peers
        ≡ announcements remote s.net.peers ++ ann ∷ []
  unfolding arrive dial connected emit
  arrive-copies s ann r new =
      let s1 : Discovery = record s {
        known_addrs = s.known_addrs ++ ann.address ∷ [];
        dialled = s.dialled ++ ann.address ∷ [];
      } in
      let (e, same) = try_connect-reaches s.net r in
      rw (arrive, new, dial, e, r.3)
        (announcements-push (try_connect hash s.net a t).0.peers remote ann
          ∙ ap (λ peers. announcements remote peers ++ ann ∷ []) same)

  module _ (ann : PeerAnnouncement) where
    -- The peer departs and comes back, n times.
    abbrev pub returns : ℕ → List (Answers × PeerEvent)
    returns zero = []
    returns (suc n) = (a, departure ann.address) ∷ (a, arrival ann) ∷ returns n

    depart-forgets :
        (s : Discovery)
        → has_address ann.address (announcements remote s.net.peers) ≡ true
        → let s1 = depart s ann.address in
          (mem ann.address s1.known_addrs ≡ false) × (s1.net.peers ≡ s.net.peers)
    unfolding depart emit
    depart-forgets s h =
        let (q, e) = owner-some ann.address remote s.net.peers h in
        rw (depart, e) (mem-forget_same ann.address s.known_addrs, refl)

    returns-copies :
        (n : ℕ) (s : Discovery)
        → Reaches
        → has_address ann.address (announcements remote s.net.peers) ≡ true
        → announcements remote (peer_stream hash local_peer_id t s (returns n)).net.peers
          ≡ announcements remote s.net.peers ++ replicate n ann
    unfolding peer_stream peer_event
    returns-copies zero s r h = sym (append-nil (announcements remote s.net.peers))
    returns-copies (suc n) s r h =
        let before = announcements remote s.net.peers in
        let s1 = depart s ann.address in
        let s2 = arrive hash local_peer_id t s1 a ann in
        let (new, same) = depart-forgets s h in
        let e : announcements remote s2.net.peers ≡ before ++ ann ∷ [] =
          arrive-copies s1 ann r new ∙ ap (λ peers. announcements remote peers ++ ann ∷ []) same in
        returns-copies n s2 r (rw e (has_address-append before ann))
        ∙ ap (λ l. l ++ replicate n ann) e
        ∙ append_assoc before (ann ∷ []) (replicate n ann)

-- A peer at an address that is not known, which the dials reach, arrives, departs and comes back n
-- times: its entry in the peer table has the same announcement n + 1 times more.
pub peer_stream-copies :
    (hash : Bytes → Bytes) (local_peer_id : PeerId) (t : Transport) (a : Answers) (key : PublicKey)
    (s : Discovery) (ann : PeerAnnouncement) (n : ℕ)
    → Reaches hash local_peer_id t a key
    → mem ann.address s.known_addrs ≡ false
    → let remote = peer_id_from_public_key hash key in
      let s' =
        peer_stream hash local_peer_id t s
          ((a, arrival ann) ∷ returns hash local_peer_id t a key ann n) in
      announcements remote s'.net.peers ≡ announcements remote s.net.peers ++ replicate (suc n) ann
unfolding peer_stream peer_event
peer_stream-copies hash local_peer_id t a key s ann n r new =
    let remote = peer_id_from_public_key hash key in
    let before = announcements remote s.net.peers in
    let e = arrive-copies hash local_peer_id t a key s ann r new in
    returns-copies hash local_peer_id t a key ann n (arrive hash local_peer_id t s a ann) r
      (rw e (has_address-append before ann))
    ∙ ap (λ l. l ++ replicate n ann) e
    ∙ append_assoc before (ann ∷ []) (replicate n ann)
