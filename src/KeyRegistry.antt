-- ===== src/KeyRegistry.antt =====
-- `KeyRegistryState` of crates/pathweave-core/src/lib.rs: which static key belongs to which peer.
-- A `HashMap` is a `Map`, the `VecDeque` a list with its front first; the mutex around the state
-- makes every method one step. A method that mutates returns the new state.
pub mod Invariant
pub mod Bounds
pub mod Eviction
pub mod Certified
use pathweave.Base.{
  ℕ, Bool, false, not, List, [], ◌∷◌, ◌++◌, Option, none, some, leb, if◌then◌else◌, length, keep_if,
  ◌=?◌,
}
use pathweave.Base.Map
use pathweave.Base.Map.{Map, contains}
use pathweave.Types.{PeerId, PublicKey, bytes_eq}

pub record KeyRegistryState : Type 0 where
  pub entries : Map PeerId PublicKey
  pub gossip_order : List PeerId
  pub max_size : Option ℕ

unfoldable pub new : Option ℕ → KeyRegistryState
new max_size = record { entries = []; gossip_order = []; max_size = max_size }

unfoldable pub get : KeyRegistryState → PeerId → Option PublicKey
get s peer_id = Map.get peer_id s.entries

-- `retain(|p| p != peer_id)`.
abbrev pub untrack : PeerId → List PeerId → List PeerId
untrack peer_id = keep_if (λ p. not (p =? peer_id))

unfoldable pub remove : KeyRegistryState → PeerId → KeyRegistryState × Option PublicKey
remove s peer_id = (
  record s {
    entries = Map.remove peer_id s.entries;
    gossip_order = untrack peer_id s.gossip_order;
  },
  Map.get peer_id s.entries,
)

unfoldable pub insert_direct : KeyRegistryState → PeerId → PublicKey → KeyRegistryState × Bool
insert_direct s peer_id public_key = (
  record s {
    entries = Map.insert peer_id public_key s.entries;
    gossip_order = untrack peer_id s.gossip_order;
  },
  not (contains peer_id s.entries),
)

-- The last two lines of `insert_gossip`.
unfoldable pub store_gossip : KeyRegistryState → PeerId → PublicKey → KeyRegistryState
store_gossip s peer_id public_key = record s {
  entries = Map.insert peer_id public_key s.entries;
  gossip_order = s.gossip_order ++ peer_id ∷ [];
}

-- At capacity: `pop_front`, or the early return that drops the new key.
unfoldable pub evict_then_store :
    KeyRegistryState → List PeerId → PeerId → PublicKey → KeyRegistryState
unfolding store_gossip
evict_then_store s [] peer_id public_key = s
evict_then_store s (oldest ∷ rest) peer_id public_key =
    store_gossip (record s { entries = Map.remove oldest s.entries; gossip_order = rest }) peer_id
      public_key

unfoldable pub is_full : KeyRegistryState → Bool
is_full s = elim s.max_size [ none ↦ false | some max ↦ leb max (length s.entries) ]

unfoldable pub insert_gossip : KeyRegistryState → PeerId → PublicKey → KeyRegistryState
unfolding evict_then_store store_gossip is_full
insert_gossip s peer_id public_key = elim (Map.get peer_id s.entries) [
  | some existing ↦ record s { entries = Map.insert peer_id public_key s.entries }
  | none ↦
      if is_full s
      then evict_then_store s s.gossip_order peer_id public_key
      else store_gossip s peer_id public_key
]

-- The calls that change a registry, and what a history of them leaves.
pub data Call : Type 0 where
  direct gossip : PeerId → PublicKey → Call
  removal : PeerId → Call

unfoldable pub step : KeyRegistryState → Call → KeyRegistryState
step s (direct peer_id public_key) = (insert_direct s peer_id public_key).0
step s (gossip peer_id public_key) = insert_gossip s peer_id public_key
step s (removal peer_id) = (remove s peer_id).0

unfoldable pub run : KeyRegistryState → List Call → KeyRegistryState
run s [] = s
run s (c ∷ cs) = run (step s c) cs
