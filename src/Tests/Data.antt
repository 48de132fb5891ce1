-- ===== src/Tests/Data.antt =====
-- The peers, registries, nodes and networks of the examples.
use pathweave.Base.{ℕ, true, [], ◌∷◌, none, some, replicate}
use pathweave.Types.{
  Bytes, PeerId, PublicKey, bytes_eq, transport, session, Result, ok, err, v4, PeerAddress, free,
  metered, TransportKind, PeerAnnouncement,
}
use pathweave.PeerTable.{PeerTable}
use pathweave.KeyRegistry.{KeyRegistryState}
use pathweave.Router.{Transport, TransportEntry}
use pathweave.Router.Dial.{arrived, timed_out, Answers, Net}
use pathweave.Router.Send.{Env}
use pathweave.Node.Store.{Node}
use pathweave.Dedup.{dedup_ttl}
use pathweave.Node.Dispatch.{NodeState}

-- A hash and a seal to try things with: a peer is its own key, and a sealed message its plaintext.
abbrev pub identity_hash : Bytes → Bytes
identity_hash key = key

abbrev pub open_all : PeerId → PublicKey → Bytes → Result Bytes
open_all sender key sealed = ok sealed

abbrev pub peer : ℕ → PeerId
peer n = replicate 32 n

abbrev pub at_home : PeerAddress
at_home = PeerAddress.quic (v4 (192 ∷ 168 ∷ 1 ∷ 7 ∷ []) 4433)

abbrev pub announced : PeerAddress → PeerAnnouncement
announced a = record { address = a; short_id = none }

abbrev pub free_quic : Transport
free_quic = record {
  id = 1;
  kind_of = TransportKind.quic;
  cost = free;
  local_addresses = at_home ∷ [];
}

abbrev pub metered_ble : Transport
metered_ble = record { id = 2; kind_of = TransportKind.ble; cost = metered; local_addresses = [] }

abbrev pub entry : Transport → TransportEntry
entry t = record { transport = t; available = true }

abbrev pub message : Bytes
message = 104 ∷ 105 ∷ []

-- Two keys, the one of peer 2 from an announcement.
abbrev pub registry : KeyRegistryState
registry = record {
  entries = (peer 1, peer 1) ∷ (peer 2, peer 2) ∷ [];
  gossip_order = peer 2 ∷ [];
  max_size = some 2;
}

abbrev pub table : PeerTable
table = (peer 2, announced at_home ∷ []) ∷ (peer 3, announced at_home ∷ []) ∷ []

-- Node 9, which knows the peers 2 and 3.
abbrev pub node : NodeState
node = record {
  local_peer_id = peer 9;
  key_registry = registry;
  peers = table;
  dedup = record { seen = []; seen_routed = []; ttl = dedup_ttl };
  has_handler = true;
  delivered = [];
  relays = [];
  acks = 0;
}

abbrev pub net : Net
net = record { key_registry = registry; peers = table; events = []; log = [] }

-- Everything works, and the node at the other end is the one whose key was given, or `stranger`.
abbrev pub answers : PublicKey → Answers
answers stranger = record {
  connects = ok tt;
  handshake = λ key. elim key [ none ↦ ok stranger | some k ↦ ok k ];
  exchange = timed_out;
  accepts = λ m. ok tt;
  ack = arrived [];
}

-- Nobody answers the handshake.
abbrev pub silent : Answers
silent = record {
  connects = ok tt;
  handshake = λ key. err session;
  exchange = timed_out;
  accepts = λ m. err transport;
  ack = timed_out;
}

abbrev pub env : Answers → Env
env a = record {
  at_start = entry free_quic ∷ entry metered_ble ∷ [];
  at_attempt = λ n. entry free_quic ∷ entry metered_ble ∷ [];
  answers = λ n. a;
}

-- A message for peer 2 waits.
abbrev pub store_node : Node
store_node = record {
  net = net;
  pending_direct =
      (peer 2, record { message_id = 7; app_payload = message; queued_at = 5 } ∷ []) ∷ [];
  pending_routed = [];
  sends = 0;
}
