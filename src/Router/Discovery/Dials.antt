-- ===== src/Router/Discovery/Dials.antt =====
-- Which addresses the discovery dials.
use pathweave.Base.{
  true, false, not, ◌≡◌, refl, ap, ◌∙◌, List, [], ◌∷◌, ◌++◌, arith, inl, inr, Bool-cases,
  Option-cases, keep_if, All, ◌=?◌, mem,
}
use pathweave.Types.{Bytes, PeerId, bytes_eq, PeerAddress, PeerAnnouncement, Result-cases}
use pathweave.Types.{PeerAddress-eq}
use pathweave.Base.Map.Keys.{mem-keep_if}
use pathweave.Router.{Transport}
use pathweave.Router.Dial.{Answers, try_connect}
use pathweave.Router.Discovery.{
  PeerEvent, arrival, departure, Discovery, owner, arrive, depart, peer_event, peer_stream, forget,
  dial,
}

-- The dials of one address.
abbrev pub dials_of : PeerAddress → Discovery → List PeerAddress
dials_of addr s = keep_if (λ a. a =? addr) s.dialled

-- Nothing says that the address departed.
abbrev pub Stays : PeerAddress → Answers × PeerEvent → Type 0
Stays addr (a, arrival ann) = Unit
Stays addr (a, departure gone) = (addr =? gone) ≡ false

mem-forget :
    (addr gone : PeerAddress) (known : List PeerAddress)
    → (addr =? gone) ≡ false
    → mem addr known ≡ true
    → mem addr (forget gone known) ≡ true
unfolding forget
mem-forget addr gone known other h =
    ground (arith, mem-keep_if (λ a. not (a =? gone)) addr known, other, h)

mem-append_left :
    (a b : PeerAddress) (known : List PeerAddress)
    → mem a known ≡ true
    → mem a (known ++ b ∷ []) ≡ true
mem-append_left a b [] h = absurd (ground arith)
mem-append_left a b (c ∷ known) h = ground (arith, mem-append_left a b known)

dials_of-append :
    (addr other : PeerAddress) (dialled : List PeerAddress)
    → (addr =? other) ≡ false
    → keep_if (λ a. a =? addr) (dialled ++ other ∷ []) ≡ keep_if (λ a. a =? addr) dialled
dials_of-append addr other [] h =
    ground (arith, PeerAddress-eq.eqb_iff other addr, PeerAddress-eq.eqb_iff addr other, h)
dials_of-append addr other (a ∷ dialled) h = ground (arith, dials_of-append addr other dialled h)

-- A known address is known, and is not the one that is dialled.
abbrev Keeps : PeerAddress → List PeerAddress → Discovery → Type 0
Keeps addr before s = (mem addr s.known_addrs ≡ true) × (dials_of addr s ≡ before)

distinct_of_mem :
    (a b : PeerAddress) (known : List PeerAddress)
    → mem a known ≡ true
    → mem b known ≡ false
    → (a =? b) ≡ false
distinct_of_mem a b known h g = elim (Bool-cases (a =? b)) [
  | inl same ↦ absurd (ground (arith, ap (λ x. mem x known) ((PeerAddress-eq.eqb_iff a b).0 same)))
  | inr other ↦ other
]

module _ (hash : Bytes → Bytes) (local_peer_id : PeerId) (t : Transport) (addr : PeerAddress)
    (before : List PeerAddress) where
  dial-Keeps :
      (s : Discovery) (a : Answers) (ann : PeerAnnouncement)
      → (addr =? ann.address) ≡ false
      → Keeps addr before s
      → Keeps addr before (dial hash local_peer_id t s a ann)
  unfolding dial
  dial-Keeps s a ann other k = elim (Result-cases (try_connect hash s.net a t).1) [
    | inl (e, r) ↦ rw (dial, r) (mem-forget addr ann.address s.known_addrs other k.0, k.1)
    | inr ((peer_id, learned_key), r) ↦
        rw (dial, r)
          (elim (Bool-cases (peer_id =? local_peer_id)) [
            | inl self ↦ rw self k
            | inr peer ↦ rw peer k
          ])
  ]

  peer_event-Keeps :
      (s : Discovery) (a : Answers) (event : PeerEvent)
      → Stays addr (a, event)
      → Keeps addr before s
      → Keeps addr before (peer_event hash local_peer_id t s a event)
  unfolding peer_event arrive depart
  peer_event-Keeps s a (arrival ann) h k = elim (Bool-cases (mem ann.address s.known_addrs)) [
    | inl old ↦ rw old k
    | inr new ↦
        let other = distinct_of_mem addr ann.address s.known_addrs k.0 new in
        rw new (
          dial-Keeps _ a ann other (
            mem-append_left addr ann.address s.known_addrs k.0,
            dials_of-append addr ann.address s.dialled other ∙ k.1,
          ))
  ]
  peer_event-Keeps s a (departure gone) h k = elim (Option-cases (owner gone s.net.peers)) [
    | inl e ↦ rw (depart, e) k
    | inr (p, e) ↦ rw (depart, e) (mem-forget addr gone s.known_addrs h k.0, k.1)
  ]

  peer_stream-Keeps :
      (s : Discovery) (events : List (Answers × PeerEvent))
      → All (Stays addr) events
      → Keeps addr before s
      → Keeps addr before (peer_stream hash local_peer_id t s events)
  unfolding peer_stream
  peer_stream-Keeps s [] h k = k
  peer_stream-Keeps s ((a, event) ∷ events) h k =
      peer_stream-Keeps (peer_event hash local_peer_id t s a event) events h.1
        (peer_event-Keeps s a event h.0 k)

-- While an address is known and is not said to have departed, whatever else arrives and departs, and
-- however often the address itself is announced again, it stays known and is never dialled.
pub peer_stream-dials :
    (hash : Bytes → Bytes) (local_peer_id : PeerId) (t : Transport) (s : Discovery)
    (addr : PeerAddress) (events : List (Answers × PeerEvent))
    → mem addr s.known_addrs ≡ true
    → All (Stays addr) events
    → let s' = peer_stream hash local_peer_id t s events in
      (mem addr s'.known_addrs ≡ true) × (dials_of addr s' ≡ dials_of addr s)
peer_stream-dials hash local_peer_id t s addr events known h =
    peer_stream-Keeps hash local_peer_id t addr (dials_of addr s) s events h (known, refl)
