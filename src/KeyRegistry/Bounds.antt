-- ===== src/KeyRegistry/Bounds.antt =====
-- The size bound of the registry (`max_size`): only direct handshakes pass it.
use pathweave.Base.{
  ℕ, suc, ◌+◌, ◌≤◌, true, ◌≡◌, refl, ◌∙◌, subst, List, [], ◌∷◌, some, arith, inl, inr, Option-cases,
  length, All,
}
use pathweave.Base.Map
use pathweave.Base.Map.{Map, contains, length-remove-le, length-remove, length-insert}
use pathweave.Types.{PeerId, PublicKey, bytes_eq}
use pathweave.KeyRegistry.{
  KeyRegistryState, new, remove, insert_direct, store_gossip, evict_then_store, is_full,
  insert_gossip, Call, direct, gossip, removal, step, run,
}
use pathweave.KeyRegistry.Invariant.{IsValid, step-IsValid, new-IsValid}

store_gossip-size :
    (s : KeyRegistryState) (k : PeerId) (v : PublicKey)
    → length (store_gossip s k v).entries ≤ suc (length s.entries)
unfolding store_gossip
store_gossip-size s k v = ground (arith, length-insert k v s.entries)

evict_then_store-size :
    (s : KeyRegistryState) (order : List PeerId) (k : PeerId) (v : PublicKey)
    → s.gossip_order ≡ order
    → IsValid s
    → length (evict_then_store s order k v).entries ≤ length s.entries
unfolding evict_then_store
evict_then_store-size s [] k v e h = omega arith
evict_then_store-size s (oldest ∷ rest) k v e h =
    let there = (subst (λ o. All (λ p. contains p s.entries ≡ true) o) e h.tracked).0 in
    omega (
      arith,
      length-remove oldest s.entries there,
      store_gossip-size (record s { entries = Map.remove oldest s.entries; gossip_order = rest }) k
          v,
    )

-- A gossiped key never makes a valid registry larger than it was, or than its bound allows.
pub insert_gossip-size :
    (s : KeyRegistryState) (k : PeerId) (v : PublicKey) (max n : ℕ)
    → IsValid s
    → s.max_size ≡ some max
    → max ≤ n
    → length s.entries ≤ n
    → length (insert_gossip s k v).entries ≤ n
unfolding insert_gossip is_full
insert_gossip-size s k v max n h e le size = elim (Option-cases (Map.get k s.entries)) [
  | inl a ↦
      rw (a, insert_gossip, e)
        (ground (arith, evict_then_store-size s s.gossip_order k v refl h, store_gossip-size s k v))
  | inr (old, a) ↦ rw (a, insert_gossip) (ground (arith, length-insert k v s.entries))
]

-- How many calls of a history are direct handshakes.
abbrev pub direct_calls : List Call → ℕ
direct_calls [] = 0
direct_calls (direct k v ∷ cs) = suc (direct_calls cs)
direct_calls (_ ∷ cs) = direct_calls cs

max_size-step : (s : KeyRegistryState) (c : Call) → (step s c).max_size ≡ s.max_size
unfolding step insert_direct insert_gossip remove
max_size-step s (direct k v) = refl
max_size-step s (gossip k v) = ground arith
max_size-step s (removal k) = refl

step-size :
    (s : KeyRegistryState) (c : Call) (max n : ℕ)
    → IsValid s
    → s.max_size ≡ some max
    → max ≤ n
    → length s.entries ≤ n
    → length (step s c).entries ≤ n + direct_calls (c ∷ [])
unfolding step insert_direct remove
step-size s (direct k v) max n h e le size = ground (arith, length-insert k v s.entries)
step-size s (gossip k v) max n h e le size =
    omega (arith, insert_gossip-size s k v max n h e le size)
step-size s (removal k) max n h e le size = omega (arith, length-remove-le k s.entries)

direct_calls-cons :
    (c : Call) (cs : List Call) → direct_calls (c ∷ cs) ≡ direct_calls (c ∷ []) + direct_calls cs
direct_calls-cons (direct k v) cs = omega arith
direct_calls-cons (gossip k v) cs = omega arith
direct_calls-cons (removal k) cs = omega arith

run-size :
    (s : KeyRegistryState) (cs : List Call) (max n : ℕ)
    → IsValid s
    → s.max_size ≡ some max
    → max ≤ n
    → length s.entries ≤ n
    → length (run s cs).entries ≤ n + direct_calls cs
unfolding run
run-size s [] max n h e le size = omega arith
run-size s (c ∷ cs) max n h e le size = omega (
  arith,
  direct_calls-cons c cs,
  run-size (step s c) cs max (n + direct_calls (c ∷ [])) (step-IsValid s c h)
      (max_size-step s c ∙ e) (omega arith) (step-size s c max n h e le size),
)

-- After any history of calls on a new registry with bound `max`, the registry has at most as many
-- entries as the bound and the direct handshakes of the history together: gossip alone never
-- passes the bound.
pub run-new-size :
    (max : ℕ) (cs : List Call) → length (run (new (some max)) cs).entries ≤ max + direct_calls cs
run-new-size max cs =
    run-size (new (some max)) cs max max (new-IsValid (some max)) (unfold new in refl) (omega arith)
      (unfold new in omega arith)
