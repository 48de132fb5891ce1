-- ===== src/Node/Peers/Known.antt =====
-- What becomes known of a peer.
use pathweave.Base.{
  true, false, ◌≡◌, ◌⊎◌, refl, List, [], ◌∷◌, ◌++◌, arith, inl, inr, Bool-cases, ◌=?◌, eqb_refl,
  mem,
}
use pathweave.Base.Map
use pathweave.Base.Map.{Map, get-insert}
use pathweave.Types.{PeerAddress-eq, PeerId, bytes_eq, PeerAddress, PeerAnnouncement}
use pathweave.PeerTable.{has_address, push_new, announcements, record_peer}
use pathweave.Node.Peers.{KnownNode, learn_peer}

has_address-append_one :
    (entry : List PeerAnnouncement) (ann : PeerAnnouncement)
    → has_address ann.address (entry ++ ann ∷ []) ≡ true
unfolding has_address
has_address-append_one [] ann = ground (arith, eqb_refl ann.address)
has_address-append_one (a ∷ entry) ann = ground (arith, has_address-append_one entry ann)

mem-append_one : (a : PeerAddress) (known : List PeerAddress) → mem a (known ++ a ∷ []) ≡ true
mem-append_one a [] = ground (arith, eqb_refl a)
mem-append_one a (b ∷ known) = ground (arith, mem-append_one a known)

push_new_cases :
    (entry : List PeerAnnouncement) (ann : PeerAnnouncement)
    → ((push_new entry ann ≡ entry) ⊎ (push_new entry ann ≡ entry ++ ann ∷ []))
      × (has_address ann.address (push_new entry ann) ≡ true)
unfolding push_new
push_new_cases entry ann = elim (Bool-cases (has_address ann.address entry)) [
  | inl old ↦ rw old (inl refl, old)
  | inr new ↦ rw new (inr refl, has_address-append_one entry ann)
]

-- A peer that is recorded keeps the announcements that it had at the front of its entry, has the
-- address and, whatever was known of it before, at most one announcement more; no other peer is
-- touched; the address is known.
pub learn_peer_lem :
    (s : KnownNode) (p : PeerId) (ann : PeerAnnouncement)
    → let before = announcements p s.node.net.peers in
      let after = (learn_peer s p ann).node.net.peers in
      ((announcements p after ≡ before) ⊎ (announcements p after ≡ before ++ ann ∷ []))
      × (has_address ann.address (announcements p after) ≡ true)
      × ((q : PeerId) → (p =? q) ≡ false → announcements q after ≡ announcements q s.node.net.peers)
      × (mem ann.address (learn_peer s p ann).known_addrs ≡ true)
unfolding learn_peer record_peer
learn_peer_lem s p ann =
    let before = announcements p s.node.net.peers in
    let here : announcements p (Map.insert p (push_new before ann) s.node.net.peers)
        ≡ push_new before ann =
      unfold announcements in
      ground (arith, get-insert p p (push_new before ann) s.node.net.peers, eqb_refl p) in
    let (entry, there) = push_new_cases before ann in
    (
      rw here entry,
      rw here there,
      (λ q other.
          unfold announcements in
          ground (arith, get-insert p q (push_new before ann) s.node.net.peers)),
      (elim (Bool-cases (mem ann.address s.known_addrs)) [
        | inl old ↦ rw old old
        | inr new ↦ rw new (mem-append_one ann.address s.known_addrs)
      ]),
    )
