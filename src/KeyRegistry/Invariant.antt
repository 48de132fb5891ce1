-- ===== src/KeyRegistry/Invariant.antt =====
-- The bookkeeping of the registry: what is tracked as gossip is there, and is tracked once.
use pathweave.Base.{
  true, false, ◌≡◌, refl, List, [], ◌∷◌, ◌++◌, Option, none, arith, All, mem, inl, inr, Bool-cases,
  Option-cases, ℕ, All-append, All-keep_if, eqb_refl, subst,
}
use pathweave.Base.Map
use pathweave.Base.Map.{Map, contains, get-insert, get-remove}
use pathweave.Base.Map.Keys.{
  Distinct, keys, insert-Distinct, remove-Distinct, Distinct-keep_if, Distinct-append_one,
}
use pathweave.Types.{PeerId, PublicKey, bytes_eq}
use pathweave.KeyRegistry.{
  KeyRegistryState, new, remove, untrack, insert_direct, store_gossip, evict_then_store, is_full,
  insert_gossip, Call, direct, gossip, removal, step, run,
}

-- Each of the listed peers has an entry.
abbrev pub Tracked : List PeerId → Map PeerId PublicKey → Type 0
Tracked order m = All (λ p. contains p m ≡ true) order

pub record IsValid (s : KeyRegistryState) : Type 0 where
  pub one_entry : Distinct (keys s.entries)
  pub once : Distinct s.gossip_order
  pub tracked : Tracked s.gossip_order s.entries

Tracked-insert :
    (k : PeerId) (v : PublicKey) (order : List PeerId) (m : Map PeerId PublicKey)
    → Tracked order m
    → Tracked order (Map.insert k v m)
Tracked-insert k v [] m h = tt
Tracked-insert k v (p ∷ order) m h =
    ground (arith, get-insert k p v m, Tracked-insert k v order m h.1)

Tracked-untrack :
    (k : PeerId) (order : List PeerId) (m : Map PeerId PublicKey)
    → Tracked order m
    → Tracked (untrack k order) (Map.remove k m)
Tracked-untrack k [] m h = tt
Tracked-untrack k (p ∷ order) m h = ground (
  arith,
  get-remove k p m,
  Tracked-untrack k order m h.1,
  bytes_eq.eqb_iff k p,
  bytes_eq.eqb_iff p k,
)

Tracked-remove :
    (k : PeerId) (order : List PeerId) (m : Map PeerId PublicKey)
    → mem k order ≡ false
    → Tracked order m
    → Tracked order (Map.remove k m)
Tracked-remove k [] m a h = tt
Tracked-remove k (p ∷ order) m a h =
    ground (
      arith,
      get-remove k p m,
      Tracked-remove k order m,
      bytes_eq.eqb_iff k p,
      bytes_eq.eqb_iff p k,
    )

Tracked-append_one :
    (k : PeerId) (order : List PeerId) (m : Map PeerId PublicKey)
    → contains k m ≡ true
    → Tracked order m
    → Tracked (order ++ k ∷ []) m
Tracked-append_one k order m c h = All-append (λ p. contains p m ≡ true) order (k ∷ []) h (c, tt)

-- A tracked peer has an entry, so a peer without one is not tracked.
not-Tracked :
    (k : PeerId) (order : List PeerId) (m : Map PeerId PublicKey)
    → Tracked order m
    → Map.get k m ≡ none
    → mem k order ≡ false
not-Tracked k [] m h a = refl
not-Tracked k (p ∷ order) m h a = ground (arith, not-Tracked k order m h.1, bytes_eq.eqb_iff p k)

pub new-IsValid : (max : Option ℕ) → IsValid (new max)
unfolding new
new-IsValid max = record { one_entry = tt; once = tt; tracked = tt }

pub remove-IsValid : (s : KeyRegistryState) (k : PeerId) → IsValid s → IsValid (remove s k).0
unfolding remove
remove-IsValid s k v = record {
  one_entry = remove-Distinct k s.entries v.one_entry;
  once = Distinct-keep_if _ s.gossip_order v.once;
  tracked = Tracked-untrack k s.gossip_order s.entries v.tracked;
}

Tracked-untrack-insert :
    (k : PeerId) (v : PublicKey) (order : List PeerId) (m : Map PeerId PublicKey)
    → Tracked order m
    → Tracked (untrack k order) (Map.insert k v m)
Tracked-untrack-insert k v order m h =
    All-keep_if (λ p. contains p (Map.insert k v m) ≡ true) _ order (Tracked-insert k v order m h)

pub insert_direct-IsValid :
    (s : KeyRegistryState) (k : PeerId) (v : PublicKey)
    → IsValid s
    → IsValid (insert_direct s k v).0
unfolding insert_direct
insert_direct-IsValid s k v h = record {
  one_entry = insert-Distinct k v s.entries h.one_entry;
  once = Distinct-keep_if _ s.gossip_order h.once;
  tracked = Tracked-untrack-insert k v s.gossip_order s.entries h.tracked;
}

store_gossip-IsValid :
    (s : KeyRegistryState) (k : PeerId) (v : PublicKey)
    → IsValid s
    → Map.get k s.entries ≡ none
    → IsValid (store_gossip s k v)
unfolding store_gossip
store_gossip-IsValid s k v h a = record {
  one_entry = insert-Distinct k v s.entries h.one_entry;
  once =
      Distinct-append_one k s.gossip_order (not-Tracked k s.gossip_order s.entries h.tracked a)
        h.once;
  tracked =
      Tracked-append_one k s.gossip_order (Map.insert k v s.entries)
        (ground (arith, get-insert k k v s.entries, eqb_refl k))
        (Tracked-insert k v s.gossip_order s.entries h.tracked);
}

evict_then_store-IsValid :
    (s : KeyRegistryState) (order : List PeerId) (k : PeerId) (v : PublicKey)
    → s.gossip_order ≡ order
    → IsValid s
    → Map.get k s.entries ≡ none
    → IsValid (evict_then_store s order k v)
unfolding evict_then_store
evict_then_store-IsValid s [] k v e h a = h
evict_then_store-IsValid s (oldest ∷ rest) k v e h a =
    store_gossip-IsValid _ k v
      (record {
        one_entry = remove-Distinct oldest s.entries h.one_entry;
        once = (subst Distinct e h.once).1;
        tracked =
            Tracked-remove oldest rest s.entries (subst Distinct e h.once).0
              (subst (λ o. Tracked o s.entries) e h.tracked).1;
      })
      (ground (arith, get-remove oldest k s.entries))

pub insert_gossip-IsValid :
    (s : KeyRegistryState) (k : PeerId) (v : PublicKey) → IsValid s → IsValid (insert_gossip s k v)
unfolding insert_gossip
insert_gossip-IsValid s k v h = elim (Option-cases (Map.get k s.entries)) [
  | inl a ↦ elim (Bool-cases (is_full s)) [
    | inl full ↦
        rw (a, insert_gossip, full) (evict_then_store-IsValid s s.gossip_order k v refl h a)
    | inr room ↦ rw (a, insert_gossip, room) (store_gossip-IsValid s k v h a)
  ]
  | inr (old, a) ↦
      rw (a, insert_gossip)
        (record {
          one_entry = insert-Distinct k v s.entries h.one_entry;
          once = h.once;
          tracked = Tracked-insert k v s.gossip_order s.entries h.tracked;
        })
]

pub step-IsValid : (s : KeyRegistryState) (c : Call) → IsValid s → IsValid (step s c)
unfolding step
step-IsValid s (direct k v) h = insert_direct-IsValid s k v h
step-IsValid s (gossip k v) h = insert_gossip-IsValid s k v h
step-IsValid s (removal k) h = remove-IsValid s k h

pub run-IsValid : (s : KeyRegistryState) (cs : List Call) → IsValid s → IsValid (run s cs)
unfolding run
run-IsValid s [] h = h
run-IsValid s (c ∷ cs) h = run-IsValid (step s c) cs (step-IsValid s c h)

-- After any history of calls on a new registry, with or without a bound, no peer has two entries,
-- no peer is in the gossip order twice, and each peer in the gossip order has an entry.
pub run-new-IsValid : (max : Option ℕ) (cs : List Call) → IsValid (run (new max) cs)
run-new-IsValid max cs = run-IsValid (new max) cs (new-IsValid max)
