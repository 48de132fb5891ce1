-- ===== src/PeerTable.antt =====
-- The peer table of crates/pathweave-core: `PeerTable` (lib.rs) and `upsert_peer_addresses`
-- (router.rs). The `push` of an address that is new is also that of `add_peer` and `connect`
-- (node.rs).
pub mod Laws
use pathweave.Base.{Bool, List, [], ◌∷◌, ◌++◌, none, some, if◌then◌else◌, any, ◌=?◌}
use pathweave.Base.Map
use pathweave.Base.Map.{Map}
use pathweave.Types.{PeerId, bytes_eq, PeerAddress, PeerAnnouncement}
use pathweave.Types.{PeerAddress-eq}

abbrev pub PeerTable : Type 0
PeerTable = Map PeerId (List PeerAnnouncement)

-- `entry.iter().any(|a| a.address == address)`.
unfoldable pub has_address : PeerAddress → List PeerAnnouncement → Bool
has_address address = any (λ a. a.address =? address)

unfoldable pub push_new : List PeerAnnouncement → PeerAnnouncement → List PeerAnnouncement
push_new entry ann = if has_address ann.address entry then entry else entry ++ ann ∷ []

-- `get(peer_id).cloned().unwrap_or_default()`.
unfoldable pub announcements : PeerId → PeerTable → List PeerAnnouncement
announcements peer_id peers = elim (Map.get peer_id peers) [ none ↦ [] | some anns ↦ anns ]

unfoldable pub push_all : List PeerAnnouncement → List PeerAddress → List PeerAnnouncement
push_all entry [] = entry
push_all entry (addr ∷ addrs) =
    push_all (push_new entry (record { address = addr; short_id = none })) addrs

unfoldable pub upsert_peer_addresses : PeerTable → PeerId → List PeerAddress → PeerTable
upsert_peer_addresses peers peer_id addrs =
    Map.insert peer_id (push_all (announcements peer_id peers) addrs) peers

-- `entry(peer_id).or_default()` and the push of `add_peer` and `connect`.
unfoldable pub record_peer : PeerTable → PeerId → PeerAnnouncement → PeerTable
record_peer peers peer_id ann =
    Map.insert peer_id (push_new (announcements peer_id peers) ann) peers
