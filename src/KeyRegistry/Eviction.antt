-- ===== src/KeyRegistry/Eviction.antt =====
-- Who is evicted: the oldest gossip entry, and never a key learned by a handshake.
use pathweave.Base.{
  true, false, ◌≡◌, refl, subst, List, [], ◌∷◌, ◌++◌, map, none, some, arith, inl, inr, Bool-cases,
  Option-cases, any, ◌=?◌, eqb_refl, mem,
}
use pathweave.Base.Map
use pathweave.Base.Map.{Map, contains, get-insert, get-remove}
use pathweave.Base.Map.Keys.{mem-append}
use pathweave.Types.{PeerId, PublicKey, bytes_eq}
use pathweave.KeyRegistry.{
  KeyRegistryState, get, store_gossip, evict_then_store, is_full, insert_gossip, Call, gossip, step,
  run,
}

-- A key that a direct handshake put there: an entry that is not tracked as gossip.
abbrev pub IsDirect : KeyRegistryState → PeerId → Type 0
IsDirect s q = (contains q s.entries ≡ true) × (mem q s.gossip_order ≡ false)

store_gossip-keeps :
    (s : KeyRegistryState) (p q : PeerId) (k : PublicKey)
    → (p =? q) ≡ false
    → IsDirect s q
    → IsDirect (store_gossip s p k) q × (get (store_gossip s p k) q ≡ get s q)
unfolding store_gossip get
store_gossip-keeps s p q k ne (there, unlisted) =
    ground (arith, get-insert p q k s.entries, mem-append q s.gossip_order (p ∷ []))

evict_then_store-keeps :
    (s : KeyRegistryState) (order : List PeerId) (p q : PeerId) (k : PublicKey)
    → s.gossip_order ≡ order
    → (p =? q) ≡ false
    → IsDirect s q
    → IsDirect (evict_then_store s order p k) q × (get (evict_then_store s order p k) q ≡ get s q)
unfolding evict_then_store get
evict_then_store-keeps s [] p q k e ne d = (d, refl)
evict_then_store-keeps s (oldest ∷ rest) p q k e ne (there, unlisted) =
    let gone = subst (λ o. mem q o ≡ false) e unlisted in
    let s' : KeyRegistryState = record s {
      entries = Map.remove oldest s.entries;
      gossip_order = rest;
    } in
    let kept = get-remove oldest q s.entries in
    let d : IsDirect s' q = (ground arith, ground arith) in
    let (d', same) = store_gossip-keeps s' p q k ne d in (d', ground arith)

insert_gossip-keeps :
    (s : KeyRegistryState) (p q : PeerId) (k : PublicKey)
    → IsDirect s q
    → IsDirect (insert_gossip s p k) q × ((p =? q) ≡ false → get (insert_gossip s p k) q ≡ get s q)
unfolding insert_gossip get
insert_gossip-keeps s p q k d = elim (Option-cases (Map.get p s.entries)) [
  | inl a ↦
      let ne : (p =? q) ≡ false = ground (arith, bytes_eq.eqb_iff p q, d.0) in
      elim (Bool-cases (is_full s)) [
        | inl full ↦
            let (d', same) = evict_then_store-keeps s s.gossip_order p q k refl ne d in
            rw (a, insert_gossip, full) (d', λ _. same)
        | inr room ↦
            let (d', same) = store_gossip-keeps s p q k ne d in
            rw (a, insert_gossip, room) (d', λ _. same)
      ]
  | inr (old, a) ↦
      rw (a, insert_gossip)
        (
          (ground (arith, get-insert p q k s.entries, d.0), d.1),
          λ ne. ground (arith, get-insert p q k s.entries),
        )
]

-- A history of key announcements.
abbrev pub gossips : List (PeerId × PublicKey) → List Call
gossips = map (λ a. gossip a.0 a.1)

-- Whatever announcements arrive, a key learned by a handshake keeps its entry, and is still not up
-- for eviction; where no announcement names the peer, its key is unchanged.
pub run_gossip-keeps_IsDirect :
    (s : KeyRegistryState) (anns : List (PeerId × PublicKey)) (q : PeerId)
    → IsDirect s q
    → IsDirect (run s (gossips anns)) q
      × (any (λ a. a.0 =? q) anns ≡ false → get (run s (gossips anns)) q ≡ get s q)
unfolding run step
run_gossip-keeps_IsDirect s [] q d = (d, λ _. refl)
run_gossip-keeps_IsDirect s ((p, k) ∷ anns) q d =
    let (d1, same1) = insert_gossip-keeps s p q k d in
    let (d2, same2) = run_gossip-keeps_IsDirect (insert_gossip s p k) anns q d1 in
    (d2, λ none_for. ground arith)

-- The registry once the oldest gossip entry has made room.
abbrev evicted : KeyRegistryState → PeerId → List PeerId → KeyRegistryState
evicted s oldest rest = record s { entries = Map.remove oldest s.entries; gossip_order = rest }

insert_gossip_full :
    (s : KeyRegistryState) (p oldest : PeerId) (rest : List PeerId) (k : PublicKey)
    → is_full s ≡ true
    → contains p s.entries ≡ false
    → s.gossip_order ≡ oldest ∷ rest
    → insert_gossip s p k ≡ store_gossip (evicted s oldest rest) p k
unfolding insert_gossip evict_then_store
insert_gossip_full s p oldest rest k full new_key order = ground arith

-- At capacity an announcement of a peer without an entry, other than the oldest in the gossip
-- order, evicts that oldest, whose key is gone, and takes its place as the newest; every other
-- peer keeps its key.
pub insert_gossip-evicts_oldest :
    (s : KeyRegistryState) (p oldest : PeerId) (rest : List PeerId) (k : PublicKey)
    → is_full s ≡ true
    → contains p s.entries ≡ false
    → s.gossip_order ≡ oldest ∷ rest
    → (oldest =? p) ≡ false
    → ((insert_gossip s p k).gossip_order ≡ rest ++ p ∷ [])
      × (get (insert_gossip s p k) oldest ≡ none)
      × (get (insert_gossip s p k) p ≡ some k)
      × ((q : PeerId)
          → (oldest =? q) ≡ false
          → (p =? q) ≡ false
          → get (insert_gossip s p k) q ≡ get s q)
unfolding insert_gossip evict_then_store store_gossip get
insert_gossip-evicts_oldest s p oldest rest k full new_key order ne =
    let e = insert_gossip_full s p oldest rest k full new_key order in
    let at = λ (q : PeerId). get-insert p q k (Map.remove oldest s.entries) in
    rw e (
      refl,
      ground (
        arith,
        at oldest,
        get-remove oldest oldest s.entries,
        eqb_refl oldest,
        bytes_eq.eqb_iff p oldest,
        bytes_eq.eqb_iff oldest p,
      ),
      ground (arith, at p, eqb_refl p),
      λ q other known. ground (arith, at q, get-remove oldest q s.entries),
    )
