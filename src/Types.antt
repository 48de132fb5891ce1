-- ===== src/Types.antt =====
-- The shared types of crates/pathweave-core/src/lib.rs: errors, peer identities, addresses,
-- transports and events.
-- Bytes are numbers; a Rust `String` is its list of UTF-8 bytes, and `[u8; N]` a list of N bytes.
use pathweave.Base.{
  ◌≡◌, ◌⊎◌, inl, inr, refl, ℕ, List, Option, Eq, eq_of_discrete, list_eq, nat_eq, ℕ_discrete,
}

abbrev pub Bytes : Type 0
Bytes = List ℕ

-- `PeerId([u8; 32])`, and the static Curve25519 keys `[u8; 32]`.
abbrev pub PeerId : Type 0
PeerId = Bytes

abbrev pub PublicKey : Type 0
PublicKey = Bytes

instance abbrev pub bytes_eq : Eq Bytes
bytes_eq = list_eq

-- The texts inside the errors only reach the log.
pub data PathweaveError : Type 0 where
  no_transport_available delivery_failed transport session bundle invalid_key io : PathweaveError
  key_unknown : PeerId → PathweaveError

pub data Result {ℓ} (A : Type ℓ) : Type ℓ where
  ok : A → Result A
  err : PathweaveError → Result A

-- `std::net::SocketAddr`: the octets and the port; for IPv6 the flow information and the scope too.
pub data SocketAddr : Type 0 where
  v4 : Bytes → ℕ → SocketAddr
  v6 : Bytes → ℕ → ℕ → ℕ → SocketAddr

pub data PeerAddress : Type 0 where
  quic : SocketAddr → PeerAddress
  ble wifi_direct ble_advertising : Bytes → PeerAddress

pub data TransportCost : Type 0 where
  free metered unknown : TransportCost

pub data TransportKind : Type 0 where
  quic ble wifi_direct ble_advertising : TransportKind

pub record PeerAnnouncement : Type 0 where
  pub address : PeerAddress
  pub short_id : Option Bytes

pub data TransportEvent : Type 0 where
  transport_changed : Option TransportKind → TransportKind → TransportEvent
  peer_connected peer_disconnected store_failed : PeerId → TransportEvent
  message_delivered : PeerId → TransportKind → TransportEvent
  key_learned : PeerId → PublicKey → TransportEvent

unfoldable pub SocketAddr-discrete : Discrete SocketAddr
SocketAddr-discrete = hlevel ℕ_discrete

unfoldable pub PeerAddress-discrete : Discrete PeerAddress
unfolding SocketAddr-discrete
PeerAddress-discrete = hlevel (ℕ_discrete, SocketAddr-discrete)

unfoldable pub TransportKind-discrete : Discrete TransportKind
TransportKind-discrete = hlevel

instance abbrev pub SocketAddr-eq : Eq SocketAddr
SocketAddr-eq = eq_of_discrete SocketAddr-discrete

instance abbrev pub PeerAddress-eq : Eq PeerAddress
PeerAddress-eq = eq_of_discrete PeerAddress-discrete

instance abbrev pub TransportKind-eq : Eq TransportKind
TransportKind-eq = eq_of_discrete TransportKind-discrete

-- `PeerAddress::kind`.
unfoldable pub kind : PeerAddress → TransportKind
kind (quic a) = quic
kind (ble s) = ble
kind (wifi_direct s) = wifi_direct
kind (ble_advertising s) = ble_advertising

-- `hash` stands for `blake3::hash`.
unfoldable pub peer_id_from_public_key : (Bytes → Bytes) → PublicKey → PeerId
peer_id_from_public_key hash public_key = hash public_key

pub Result-cases {ℓ} :
    {A : Type ℓ} (r : Result A) → ((e : PathweaveError) × (r ≡ err e)) ⊎ ((a : A) × (r ≡ ok a))
Result-cases (ok a) = inr (a, refl)
Result-cases (err e) = inl (e, refl)
