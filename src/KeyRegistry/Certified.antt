-- ===== src/KeyRegistry/Certified.antt =====
-- A `PeerId` is the hash of its key (ADR 020): what keeps that true of every entry.
use pathweave.Base.{◌≡◌, List, [], ◌∷◌, some, inl, inr, Bool-cases, Option-cases, All}
use pathweave.Base.Map
use pathweave.Base.Map.{Map}
use pathweave.Base.Map.Keys.{insert-All, remove-All, get-All}
use pathweave.Types.{peer_id_from_public_key, Bytes, PeerId, PublicKey, bytes_eq}
use pathweave.KeyRegistry.{
  KeyRegistryState, get, remove, insert_direct, store_gossip, evict_then_store, is_full,
  insert_gossip,
}

-- `hash` stands for `blake3::hash`.
module _ (hash : Bytes → Bytes) where
  abbrev pub IsOwn : PeerId × PublicKey → Type 0
  IsOwn (p, k) = peer_id_from_public_key hash k ≡ p

  -- Every entry binds a peer to a key whose hash is the peer.
  abbrev pub IsCertified : KeyRegistryState → Type 0
  IsCertified s = All IsOwn s.entries

  store_gossip-IsCertified :
      (s : KeyRegistryState) (p : PeerId) (k : PublicKey)
      → IsCertified s
      → IsOwn (p, k)
      → IsCertified (store_gossip s p k)
  unfolding store_gossip
  store_gossip-IsCertified s p k c own = insert-All IsOwn p k s.entries own c

  evict_then_store-IsCertified :
      (s : KeyRegistryState) (order : List PeerId) (p : PeerId) (k : PublicKey)
      → IsCertified s
      → IsOwn (p, k)
      → IsCertified (evict_then_store s order p k)
  unfolding evict_then_store
  evict_then_store-IsCertified s [] p k c own = c
  evict_then_store-IsCertified s (oldest ∷ rest) p k c own =
      store_gossip-IsCertified
        (record s { entries = Map.remove oldest s.entries; gossip_order = rest }) p k
        (remove-All IsOwn oldest s.entries c) own

  pub insert_gossip-IsCertified :
      (s : KeyRegistryState) (p : PeerId) (k : PublicKey)
      → IsCertified s
      → IsOwn (p, k)
      → IsCertified (insert_gossip s p k)
  unfolding insert_gossip
  insert_gossip-IsCertified s p k c own = elim (Option-cases (Map.get p s.entries)) [
    | inl a ↦ elim (Bool-cases (is_full s)) [
      | inl full ↦
          rw (a, insert_gossip, full) (evict_then_store-IsCertified s s.gossip_order p k c own)
      | inr room ↦ rw (a, insert_gossip, room) (store_gossip-IsCertified s p k c own)
    ]
    | inr (old, a) ↦ rw (a, insert_gossip) (insert-All IsOwn p k s.entries own c)
  ]

  pub insert_direct-IsCertified :
      (s : KeyRegistryState) (p : PeerId) (k : PublicKey)
      → IsCertified s
      → IsOwn (p, k)
      → IsCertified (insert_direct s p k).0
  unfolding insert_direct
  insert_direct-IsCertified s p k c own = insert-All IsOwn p k s.entries own c

  pub remove-IsCertified :
      (s : KeyRegistryState) (p : PeerId) → IsCertified s → IsCertified (remove s p).0
  unfolding remove
  remove-IsCertified s p c = remove-All IsOwn p s.entries c

  -- A lookup in a certified registry finds the owner's key.
  pub get-IsOwn :
      (s : KeyRegistryState) (p : PeerId) {k : PublicKey}
      → IsCertified s
      → get s p ≡ some k
      → peer_id_from_public_key hash k ≡ p
  unfolding get
  get-IsOwn s p c e = get-All IsOwn p s.entries c e
