-- ===== src/Transport/Scan.antt =====
-- Scanning and dialling of `BleTransport` (crates/pathweave-transport-ble/src/lib.rs), and the service
-- data that its peripherals advertise. The Bluetooth stack is an argument: the events of a scan and
-- the answers to a dial, in which PATHWEAVE_SERVICE_UUID has been looked up.
pub mod Sightings
use pathweave.Base.{
  ℕ, Bool, true, false, not, List, [], ◌∷◌, Option, none, some, ltb, ◌==◌, if◌then◌else◌, length,
  mem,
}
use pathweave.Types.{
  Bytes, PeerId, bytes_eq, transport, Result, ok, err, PeerAddress, PeerAnnouncement,
}
use pathweave.Bytes.{Fault, ret, ◌>>=◌, index, slice}

-- ADVERTISEMENT_VERSION.
abbrev pub advertisement_version : ℕ
advertisement_version = 0x01

-- The payload that `start_peripheral` advertises as service data: version and short id.
unfoldable pub service_payload : PeerId → Fault Bytes
service_payload peer_id = do short_id ← slice peer_id 0 8; ret (advertisement_version ∷ short_id)

-- The short id in service data that is long enough and of this version.
unfoldable pub read_payload : Bytes → Fault (Option Bytes)
read_payload payload = if ltb (length payload) 9 then ret none else do
  version ← index payload 0
  (if not (version == advertisement_version)
      then ret none
      else (do short_id ← slice payload 1 9; ret (some short_id)))

-- The properties of a peripheral: its service data under the UUID, and whether it lists the service.
pub record Properties : Type 0 where
  pub service_data : Option Bytes
  pub lists_service : Bool

-- `CentralEvent`, with the properties that the adapter gives for a discovered device, if it does.
pub data CentralEvent : Type 0 where
  device_discovered : Bytes → Option Properties → CentralEvent
  service_data_advertisement : Bytes → Option Bytes → CentralEvent
  services_advertisement : Bytes → Bool → CentralEvent
  other_event : CentralEvent

abbrev pub announcement : Bytes → Option Bytes → PeerAnnouncement
announcement id short_id = record { address = PeerAddress.ble id; short_id = short_id }

-- Service data is announced only if it can be read.
unfoldable pub with_payload : Bytes → Bytes → Fault (Option PeerAnnouncement)
with_payload id payload = do
  short_id ← read_payload payload
  ret (elim short_id [ none ↦ none | some s ↦ some (announcement id (some s)) ])

unfoldable pub without_payload : Bytes → Bool → Fault (Option PeerAnnouncement)
without_payload id lists_service = ret (if lists_service then some (announcement id none) else none)

-- The announcement to which one event leads.
unfoldable pub on_event : CentralEvent → Fault (Option PeerAnnouncement)
on_event (device_discovered id none) = ret none
on_event (device_discovered id (some props)) = elim props.service_data [
  | some payload ↦ with_payload id payload
  | none ↦ without_payload id props.lists_service
]
on_event (service_data_advertisement id none) = ret none
on_event (service_data_advertisement id (some payload)) = with_payload id payload
on_event (services_advertisement id lists_service) = without_payload id lists_service
on_event other_event = ret none

-- The loop of `discover` on the events, each with whether the stream of announcements is still read.
unfoldable pub discover : List (Bool × CentralEvent) → Fault (List PeerAnnouncement)
discover [] = ret []
discover ((is_open, event) ∷ events) =
    let rest = discover events in
    on_event event >>= λ found. elim found [
      | none ↦ rest
      | some ann ↦ if is_open then (do anns ← rest; ret (ann ∷ anns)) else ret []
    ]

-- What a dial meets: the ids of the peripherals that the adapter knows, the answers up to the list
-- of services, whether the two characteristics are among them, and the subscription.
pub record Central : Type 0 where
  pub peripherals : Result (List Bytes)
  pub connects : Bytes → Result (Unit {0})
  pub write_char : Bytes → Bool
  pub notify_char : Bytes → Bool
  pub subscribes : Bytes → Result (Unit {0})

abbrev pub and_then : {A B : Type 0} → Result A → (A → Result B) → Result B
and_then (err e) f = err e
and_then (ok a) f = f a

abbrev pub guard : Bool → Result (Unit {0})
guard true = ok tt
guard false = err transport

unfoldable pub ble_id : PeerAddress → Result Bytes
ble_id (PeerAddress.ble id) = ok id
ble_id (PeerAddress.quic addr) = err transport
ble_id (PeerAddress.wifi_direct id) = err transport
ble_id (PeerAddress.ble_advertising id) = err transport

-- `connect`, with the adapter if the transport was started: the peripheral of the connection.
unfoldable pub connect : Option Central → PeerAnnouncement → Result Bytes
connect adapter peer = and_then (ble_id peer.address) λ id_str. elim adapter [
  | none ↦ err transport
  | some central ↦ and_then central.peripherals λ ids. and_then (guard (mem id_str ids)) λ found.
      and_then (central.connects id_str) λ connected.
        and_then (guard (central.write_char id_str)) λ write_char.
          and_then (guard (central.notify_char id_str))
            λ notify_char. and_then (central.subscribes id_str) λ subscribed. ok id_str
]
