-- ===== src/Router/Discovery.antt =====
-- `peer_stream` of router.rs: what the discovery of one transport does with each address that
-- arrives and each that departs. The events come in the order of the combined stream; the locks are
-- taken for one event at a time.
pub mod Dials
pub mod Copies
use pathweave.Base.{not, List, [], ◌∷◌, ◌++◌, Option, none, some, if◌then◌else◌, keep_if, ◌=?◌, mem}
use pathweave.Base.Map
use pathweave.Base.Map.{Map}
use pathweave.Types.{
  Bytes, PeerId, PublicKey, bytes_eq, ok, err, PeerAddress, PeerAnnouncement, peer_connected,
  peer_disconnected,
}
use pathweave.Types.{PeerAddress-eq}
use pathweave.PeerTable.{PeerTable, has_address, announcements}
use pathweave.Router.{Transport}
use pathweave.Router.Dial.{Answers, Net, try_connect}
use pathweave.Router.Send.{emit, learning}

pub data PeerEvent : Type 0 where
  arrival : PeerAnnouncement → PeerEvent
  departure : PeerAddress → PeerEvent

-- The state shared with the node: the router's, and `known_addrs`, a `HashSet`. `dialled` records
-- the addresses handed to `try_connect`, in order.
pub record Discovery : Type 0 where
  pub net : Net
  pub known_addrs : List PeerAddress
  pub dialled : List PeerAddress

-- `find_map` over the peer table: the first peer that has the address.
unfoldable pub owner : PeerAddress → PeerTable → Option PeerId
owner addr [] = none
owner addr ((peer_id, anns) ∷ peers) =
    let rest = owner addr peers in if has_address addr anns then some peer_id else rest

-- `known_addrs.remove(&addr)`.
unfoldable pub forget : PeerAddress → List PeerAddress → List PeerAddress
forget addr = keep_if (λ a. not (a =? addr))

-- `entry(peer_id).or_default().push(announcement)`.
unfoldable pub push_announcement : PeerTable → PeerId → PeerAnnouncement → PeerTable
push_announcement peers peer_id ann =
    Map.insert peer_id (announcements peer_id peers ++ ann ∷ []) peers

-- The handshake succeeded, with another node than this one.
unfoldable pub connected : Net → PeerId → Option PublicKey → PeerAnnouncement → Net
connected n peer_id learned_key ann =
    emit (record n { peers = push_announcement n.peers peer_id ann })
      (learning peer_id learned_key ++ peer_connected peer_id ∷ [])

unfoldable pub depart : Discovery → PeerAddress → Discovery
depart s addr = elim (owner addr s.net.peers) [
  | none ↦ s
  | some peer_id ↦ record s {
    net = emit s.net (peer_disconnected peer_id ∷ []);
    known_addrs = forget addr s.known_addrs;
  }
]

module _ (hash : Bytes → Bytes) (local_peer_id : PeerId) (t : Transport) where
  -- The `match` on `try_connect`, with `a` for what the dial meets.
  unfoldable pub dial : Discovery → Answers → PeerAnnouncement → Discovery
  dial s a ann =
      let (n, r) = try_connect hash s.net a t in
      elim r [
        | err e ↦ record s { net = n; known_addrs = forget ann.address s.known_addrs }
        | ok (peer_id, learned_key) ↦
            if peer_id =? local_peer_id
            then record s { net = n }
            else record s { net = connected n peer_id learned_key ann }
      ]

  unfoldable pub arrive : Discovery → Answers → PeerAnnouncement → Discovery
  arrive s a ann =
      if mem ann.address s.known_addrs
      then s
      else dial
          (record s {
            known_addrs = s.known_addrs ++ ann.address ∷ [];
            dialled = s.dialled ++ ann.address ∷ [];
          })
          a ann

  unfoldable pub peer_event : Discovery → Answers → PeerEvent → Discovery
  peer_event s a (arrival ann) = arrive s a ann
  peer_event s a (departure addr) = depart s addr

  -- The events, each with what a dial would meet.
  unfoldable pub peer_stream : Discovery → List (Answers × PeerEvent) → Discovery
  peer_stream s [] = s
  peer_stream s ((a, event) ∷ events) = peer_stream (peer_event s a event) events
