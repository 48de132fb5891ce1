-- ===== src/PeerTable/Laws.antt =====
-- What an upsert leaves in the table.
use pathweave.Base.{
  true, false, ◌≡◌, refl, sym, ap, ◌∙◌, List, [], ◌∷◌, ◌++◌, map, append_assoc, append-nil, none,
  arith, inl, inr, if◌then◌else◌, Bool-cases, Option-cases, All, ◌=?◌, eqb_refl, mem,
}
use mathlib.Core.List.{map-append}
use pathweave.Base.Map
use pathweave.Base.Map.{Map, get-insert}
use pathweave.Base.Map.Keys.{Distinct, mem-append, Distinct-append_one, insert-All, get-All}
use pathweave.Types.{PeerId, bytes_eq, PeerAddress, PeerAnnouncement}
use pathweave.Types.{PeerAddress-eq}
use pathweave.PeerTable.{
  PeerTable, has_address, push_new, announcements, push_all, upsert_peer_addresses,
}

abbrev pub addresses : List PeerAnnouncement → List PeerAddress
addresses = map (λ a. a.address)

has_address-mem :
    (addr : PeerAddress) (entry : List PeerAnnouncement)
    → has_address addr entry ≡ mem addr (addresses entry)
unfolding has_address
has_address-mem addr [] = refl
has_address-mem addr (a ∷ entry) = ground (arith, has_address-mem addr entry)

addresses-push_new :
    (entry : List PeerAnnouncement) (ann : PeerAnnouncement)
    → addresses (push_new entry ann) ≡ (
        if mem ann.address (addresses entry)
        then addresses entry
        else addresses entry ++ ann.address ∷ [])
unfolding push_new
addresses-push_new entry ann = ground (
  arith,
  has_address-mem ann.address entry,
  map-append (λ (a : PeerAnnouncement). a.address) entry (ann ∷ []),
)

pub push_new-Distinct :
    (entry : List PeerAnnouncement) (ann : PeerAnnouncement)
    → Distinct (addresses entry)
    → Distinct (addresses (push_new entry ann))
push_new-Distinct entry ann d =
    rw (addresses-push_new entry ann)
      (ground (arith, Distinct-append_one ann.address (addresses entry), d))

push_new-mem :
    (entry : List PeerAnnouncement) (ann : PeerAnnouncement) (addr : PeerAddress)
    → mem addr (addresses (push_new entry ann))
      ≡ (if mem addr (addresses entry) then true else ann.address =? addr)
push_new-mem entry ann addr = rw (addresses-push_new entry ann) (
    ground (
      arith,
      mem-append addr (addresses entry) (ann.address ∷ []),
      PeerAddress-eq.eqb_iff ann.address addr,
    ))

push_all-Distinct :
    (entry : List PeerAnnouncement) (addrs : List PeerAddress)
    → Distinct (addresses entry)
    → Distinct (addresses (push_all entry addrs))
unfolding push_all
push_all-Distinct entry [] d = d
push_all-Distinct entry (addr ∷ addrs) d =
    push_all-Distinct (push_new entry (record { address = addr; short_id = none })) addrs
      (push_new-Distinct entry (record { address = addr; short_id = none }) d)

push_all-mem :
    (entry : List PeerAnnouncement) (addrs : List PeerAddress) (addr : PeerAddress)
    → mem addr (addresses (push_all entry addrs))
      ≡ (if mem addr (addresses entry) then true else mem addr addrs)
unfolding push_all
push_all-mem entry [] addr = ground arith
push_all-mem entry (a ∷ addrs) addr =
    let ann : PeerAnnouncement = record { address = a; short_id = none } in
    ground (arith, push_all-mem (push_new entry ann) addrs addr, push_new-mem entry ann addr)

-- What an announcement list was stays its front.
push_new-front :
    (entry : List PeerAnnouncement) (ann : PeerAnnouncement)
    → (more : List PeerAnnouncement) × (push_new entry ann ≡ entry ++ more)
unfolding push_new
push_new-front entry ann = elim (Bool-cases (has_address ann.address entry)) [
  | inl old ↦ ([], rw old (sym (append-nil entry)))
  | inr new ↦ (ann ∷ [], rw new refl)
]

push_all-front :
    (entry : List PeerAnnouncement) (addrs : List PeerAddress)
    → (more : List PeerAnnouncement) × (push_all entry addrs ≡ entry ++ more)
unfolding push_all
push_all-front entry [] = ([], sym (append-nil entry))
push_all-front entry (addr ∷ addrs) =
    let ann : PeerAnnouncement = record { address = addr; short_id = none } in
    let (m, e) = push_new-front entry ann in
    let (n, f) = push_all-front (push_new entry ann) addrs in
    (m ++ n, f ∙ ap (λ l. l ++ n) e ∙ append_assoc entry m n)

-- Every entry of the table lists an address once.
abbrev pub IsValid : PeerTable → Type 0
IsValid = All (λ entry. Distinct (addresses entry.1))

announcements-Distinct :
    (p : PeerId) (peers : PeerTable) → IsValid peers → Distinct (addresses (announcements p peers))
unfolding announcements
announcements-Distinct p peers v = elim (Option-cases (Map.get p peers)) [
  | inl e ↦ rw (e, announcements) tt
  | inr (anns, e) ↦
      rw (e, announcements) (get-All (λ entry. Distinct (addresses entry.1)) p peers v e)
]

-- An upsert keeps a table in which no peer has an address twice that way; afterwards the peer has
-- its old announcements unchanged at the front, and exactly the addresses that it had or that were
-- given; no other peer is touched.
pub upsert_peer_addresses_lem :
    (peers : PeerTable) (p : PeerId) (addrs : List PeerAddress)
    → IsValid peers
    → let after = upsert_peer_addresses peers p addrs in
      IsValid after
      × ((more : List PeerAnnouncement) × (announcements p after ≡ announcements p peers ++ more))
      × ((addr : PeerAddress)
          → mem addr (addresses (announcements p after))
            ≡ (if mem addr (addresses (announcements p peers)) then true else mem addr addrs))
      × ((q : PeerId) → (p =? q) ≡ false → announcements q after ≡ announcements q peers)
unfolding upsert_peer_addresses
upsert_peer_addresses_lem peers p addrs v =
    let entry = announcements p peers in
    let new = push_all entry addrs in
    let here : announcements p (Map.insert p new peers) ≡ new =
      unfold announcements in ground (arith, get-insert p p new peers, eqb_refl p) in
    (
      insert-All (λ e. Distinct (addresses e.1)) p new peers
          (push_all-Distinct entry addrs (announcements-Distinct p peers v)) v,
      (let (more, e) = push_all-front entry addrs in (more, here ∙ e)),
      (λ addr. ap (λ l. mem addr (addresses l)) here ∙ push_all-mem entry addrs addr),
      λ q ne. unfold announcements in ground (arith, get-insert p q new peers),
    )
