-- ===== src/Transport/Quic.antt =====
-- The state of `QuicTransport` of crates/pathweave-transport-quic/src/lib.rs: `start`, `stop`,
-- `accept`, `connect` and what the transport tells of itself. The endpoint is the address it is bound
-- to; what the quinn and mDNS libraries answer is an argument.
pub mod Lifecycle
pub mod Cost
use pathweave.Base.{ℕ, Bool, true, false, List, [], ◌∷◌, Option, none, some, ◌==◌, if◌then◌else◌}
use pathweave.Types.{
  ble_advertising, wifi_direct, ble, quic, PeerAddress, SocketAddr, Result, ok, err, transport,
  TransportCost, free, metered, unknown, bytes_eq,
}

-- `MdnsState`: whether the receivers of the bridge are still there to be taken.
pub record MdnsState : Type 0 where
  pub announce_rx : Bool
  pub departure_rx : Bool

pub record QuicTransport : Type 0 where
  pub endpoint : Option SocketAddr
  pub mdns : Option MdnsState
  pub cost : ℕ
  pub started_addr : Option SocketAddr

unfoldable pub new : QuicTransport
new = record { endpoint = none; mdns = none; cost = 2; started_addr = none }

-- What a start meets: the address that the endpoint is bound to, or the error of a call up to
-- there; the first error of the calls that set mDNS up; and the cost of the network.
pub record Setup : Type 0 where
  pub binds : Result SocketAddr
  pub advertises : Result (Unit {0})
  pub detected : TransportCost

unfoldable pub cost_code : TransportCost → ℕ
cost_code free = 0
cost_code metered = 1
cost_code unknown = 2

unfoldable pub start : QuicTransport → Setup → QuicTransport × Result (Unit {0})
start s setup = elim setup.binds [
  | err e ↦ (s, err e)
  | ok addr ↦
      let bound : QuicTransport = record s { endpoint = some addr; started_addr = some addr } in
      elim setup.advertises [
        | err e ↦ (bound, err e)
        | ok u ↦ (
          record bound {
            mdns = some (record { announce_rx = true; departure_rx = true });
            cost = cost_code setup.detected;
          },
          ok tt,
        )
      ]
]

unfoldable pub stop : QuicTransport → QuicTransport
stop s = record s { started_addr = none; endpoint = none; mdns = none }

-- Whether the stream that is returned is that of the bridge; else it is empty.
unfoldable pub discover : QuicTransport → QuicTransport × Bool
discover s = elim s.mdns [
  | none ↦ (s, false)
  | some state ↦
      (record s { mdns = some (record state { announce_rx = false }) }, state.announce_rx)
]

unfoldable pub departures : QuicTransport → QuicTransport × Bool
departures s = elim s.mdns [
  | none ↦ (s, false)
  | some state ↦
      (record s { mdns = some (record state { departure_rx = false }) }, state.departure_rx)
]

-- `answer` is what a bound endpoint gives.
unfoldable pub accept {ℓ} : {A : Type ℓ} → QuicTransport → (SocketAddr → Result A) → Result A
accept s answer = elim s.endpoint [ none ↦ err transport | some addr ↦ answer addr ]

unfoldable pub connect {ℓ} : {A : Type ℓ} → (SocketAddr → Result A) → PeerAddress → Result A
connect dial (quic addr) = dial addr
connect dial (ble id) = err transport
connect dial (wifi_direct id) = err transport
connect dial (ble_advertising id) = err transport

unfoldable pub cost : QuicTransport → TransportCost
cost s = if s.cost == 0 then free else if s.cost == 1 then metered else unknown

unfoldable pub local_addresses : QuicTransport → List PeerAddress
local_addresses s = elim s.started_addr [ none ↦ [] | some addr ↦ quic addr ∷ [] ]

pub data Call : Type 0 where
  starts : Setup → Call
  stops discovers takes_departures : Call

unfoldable pub step : QuicTransport → Call → QuicTransport
step s (starts setup) = (start s setup).0
step s stops = stop s
step s discovers = (discover s).0
step s takes_departures = (departures s).0

unfoldable pub run : QuicTransport → List Call → QuicTransport
run s [] = s
run s (call ∷ calls) = run (step s call) calls
