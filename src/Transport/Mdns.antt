-- ===== src/Transport/Mdns.antt =====
-- The bridge task of `QuicTransport::start` (crates/pathweave-transport-quic/src/lib.rs): it turns
-- the events of the mDNS daemon into announcements and departures of addresses.
pub mod Ledger
pub mod Stale
use pathweave.Base.{ℕ, Bool, true, false, List, [], ◌∷◌, ◌++◌, none, some, if◌then◌else◌}
use pathweave.Base.Map
use pathweave.Base.Map.{Map}
use pathweave.Types.{Bytes, bytes_eq, SocketAddr, v4}

-- `ServiceEvent`: a service with its full name, port and IPv4 addresses is resolved; one is removed;
-- the others are of no interest.
pub data ServiceEvent : Type 0 where
  service_resolved : Bytes → ℕ → List Bytes → ServiceEvent
  service_removed : Bytes → ServiceEvent
  other_event : ServiceEvent

-- Whether the receivers of the two channels still exist.
pub record Receivers : Type 0 where
  pub announcing : Bool
  pub departing : Bool

-- The task: its map, what it has sent over the two channels, and whether it has not returned.
pub record Bridge : Type 0 where
  pub resolved : Map Bytes (List SocketAddr)
  pub announced : List SocketAddr
  pub departed : List SocketAddr
  pub running : Bool

-- `SocketAddr::new(IpAddr::V4(*ip), port)` of each address.
unfoldable pub socket_addrs : ℕ → List Bytes → List SocketAddr
socket_addrs port [] = []
socket_addrs port (ip ∷ ips) = v4 ip port ∷ socket_addrs port ips

-- A loop that sends each address over a channel: what was sent, and whether it got to the end.
unfoldable pub send_each : Bool → List SocketAddr → List SocketAddr × Bool
send_each is_open [] = ([], true)
send_each is_open (addr ∷ addrs) =
    let (sent, ended) = send_each is_open addrs in
    if is_open then (addr ∷ sent, ended) else ([], false)

unfoldable pub bridge_event : Bridge → Receivers → ServiceEvent → Bridge
bridge_event s rx (service_resolved fullname port ips) =
    let addrs = socket_addrs port ips in
    let (sent, ended) = send_each rx.announcing addrs in
    if ended
    then record s {
      resolved = Map.insert fullname addrs s.resolved;
      announced = s.announced ++ sent;
    }
    else record s { announced = s.announced ++ sent; running = false }
bridge_event s rx (service_removed fullname) = elim (Map.get fullname s.resolved) [
  | none ↦ s
  | some addrs ↦
      let (sent, ended) = send_each rx.departing addrs in
      record s {
        resolved = Map.remove fullname s.resolved;
        departed = s.departed ++ sent;
        running = ended;
      }
]
bridge_event s rx other_event = s

-- The task on a list of events, each with the receivers at its time.
unfoldable pub bridge : Bridge → List (Receivers × ServiceEvent) → Bridge
bridge s [] = s
bridge s ((rx, event) ∷ events) =
    let rest = bridge (bridge_event s rx event) events in if s.running then rest else s

unfoldable pub new : Bridge
new = record { resolved = []; announced = []; departed = []; running = true }
