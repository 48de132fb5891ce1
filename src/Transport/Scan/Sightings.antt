-- ===== src/Transport/Scan/Sightings.antt =====
-- What a scan makes of the peripherals in range.
use pathweave.Base.{
  Bool, true, false, ◌&&◌, ◌≡◌, refl, ap, ◌∙◌, List, [], ◌∷◌, Option, none, some, arith, inl, inr,
  leb, ◌==◌, if◌then◌else◌, length, take, All, length-take, take_of_length-le,
}
use pathweave.Types.{Bytes, PeerId, bytes_eq, PeerAnnouncement}
use pathweave.Bytes.{Fault-cases, Fault, ret, ◌>>=◌, index, slice}
use pathweave.Transport.Scan.{
  without_payload, with_payload, discover, on_event, advertisement_version, service_payload,
  read_payload, CentralEvent, device_discovered, service_data_advertisement, services_advertisement,
  announcement,
}

-- A device in range: a node whose platform advertises service data, with its PeerId; one whose
-- platform advertises the service alone; a device without the service; or any device with whatever
-- service data under the UUID, of another version or not of this program at all.
pub data Device : Type 0 where
  with_data : Bytes → PeerId → Device
  service_only : Bytes → Device
  foreign : Bytes → Device
  any_data : Bytes → Bytes → Device

-- Whether the stack reports the device as new or one of its advertisements.
pub data Report : Type 0 where
  as_new as_advertisement : Report

-- The event in which the stack reports a device that advertises `payload`.
unfoldable pub report : Report → Bytes → Option Bytes → Bool → CentralEvent
report as_new id payload lists_service =
    device_discovered id (some (record { service_data = payload; lists_service = lists_service }))
report as_advertisement id (some payload) lists_service =
    service_data_advertisement id (some payload)
report as_advertisement id none lists_service = services_advertisement id lists_service

unfoldable pub sighting : Report → Device → Fault (Bool × CentralEvent)
sighting r (with_data id peer_id) = do
  payload ← service_payload peer_id
  ret (true, report r id (some payload) true)
sighting r (service_only id) = ret (true, report r id none true)
sighting r (foreign id) = ret (true, report r id none false)
sighting r (any_data id payload) = ret (true, report r id (some payload) true)

unfoldable pub sightings : List (Report × Device) → Fault (List (Bool × CentralEvent))
sightings [] = ret []
sightings ((r, device) ∷ devices) = do
  event ← sighting r device
  events ← sightings devices
  ret (event ∷ events)

-- The short id in service data: behind the version 1, the 8 bytes that must follow.
abbrev pub short_id_in : Bytes → Option Bytes
short_id_in [] = none
short_id_in (version ∷ rest) =
    if version == 1 && leb 8 (length rest) then some (take 8 rest) else none

abbrev pub noted : Bytes → Option Bytes → List PeerAnnouncement → List PeerAnnouncement
noted id none anns = anns
noted id (some short_id) anns = announcement id (some short_id) ∷ anns

-- What the node is to learn of the devices.
abbrev pub expected : List (Report × Device) → List PeerAnnouncement
expected [] = []
expected ((r, with_data id peer_id) ∷ devices) =
    announcement id (some (take 8 peer_id)) ∷ expected devices
expected ((r, service_only id) ∷ devices) = announcement id none ∷ expected devices
expected ((r, foreign id) ∷ devices) = expected devices
expected ((r, any_data id payload) ∷ devices) = noted id (short_id_in payload) (expected devices)

-- The PeerIds have 32 bytes.
abbrev pub IsWhole : Report × Device → Type 0
IsWhole (r, with_data id peer_id) = length peer_id ≡ 32
IsWhole (r, service_only id) = Unit
IsWhole (r, foreign id) = Unit
IsWhole (r, any_data id payload) = Unit

payload_back :
    (peer_id : PeerId)
    → length peer_id ≡ 32
    → (service_payload peer_id ≡ ret (advertisement_version ∷ take 8 peer_id))
      × (read_payload (advertisement_version ∷ take 8 peer_id) ≡ ret (some (take 8 peer_id)))
unfolding service_payload read_payload slice index
payload_back peer_id e =
    let short = length-take 8 peer_id in
    let whole = take_of_length-le 8 (take 8 peer_id) (omega (arith, length-take 8 peer_id)) in
    (ground (arith, short), ground (arith, short, whole))

read_payload-short_id_in : (payload : Bytes) → read_payload payload ≡ ret (short_id_in payload)
unfolding read_payload slice index
read_payload-short_id_in [] = refl
read_payload-short_id_in (version ∷ rest) = ground arith

noted_lem :
    (id : Bytes) (short_id : Option Bytes) (anns : List PeerAnnouncement)
    → let found : Option PeerAnnouncement = elim short_id [
      | none ↦ none
      | some s ↦ some (announcement id (some s))
    ] in
      (elim found [ none ↦ anns | some a ↦ a ∷ anns ]) ≡ noted id short_id anns
noted_lem id none anns = refl
noted_lem id (some short_id) anns = refl

-- One device: its event, and what that leads to.
sighting-on_event :
    (r : Report) (device : Device)
    → IsWhole (r, device)
    → (event : CentralEvent) × (ann : Option PeerAnnouncement) × (sighting r device
        ≡ ret (true, event))
      × (on_event event ≡ ret ann)
      × ((devices : List (Report × Device))
          → (elim ann [ none ↦ expected devices | some a ↦ a ∷ expected devices ])
            ≡ expected ((r, device) ∷ devices))
unfolding sighting report on_event with_payload without_payload
sighting-on_event as_new (with_data id peer_id) e =
    let (sent, back) = payload_back peer_id e in
    let short_id = take 8 peer_id in
    (
      report as_new id (some (advertisement_version ∷ short_id)) true,
      some (announcement id (some short_id)),
      rw sent refl,
      rw back refl,
      λ rest. refl,
    )
sighting-on_event as_advertisement (with_data id peer_id) e =
    let (sent, back) = payload_back peer_id e in
    let short_id = take 8 peer_id in
    (
      report as_advertisement id (some (advertisement_version ∷ short_id)) true,
      some (announcement id (some short_id)),
      rw sent refl,
      rw back refl,
      λ rest. refl,
    )
sighting-on_event as_new (service_only id) e = (_, _, refl, refl, λ rest. refl)
sighting-on_event as_advertisement (service_only id) e = (_, _, refl, refl, λ rest. refl)
sighting-on_event as_new (foreign id) e = (_, _, refl, refl, λ rest. refl)
sighting-on_event as_advertisement (foreign id) e = (_, _, refl, refl, λ rest. refl)
sighting-on_event as_new (any_data id payload) e =
    let back = read_payload-short_id_in payload in
    (_, _, refl, rw back refl, λ devices. noted_lem id (short_id_in payload) (expected devices))
sighting-on_event as_advertisement (any_data id payload) e =
    let back = read_payload-short_id_in payload in
    (_, _, refl, rw back refl, λ devices. noted_lem id (short_id_in payload) (expected devices))

discover-next :
    (event : CentralEvent) (ann : Option PeerAnnouncement) (events : List (Bool × CentralEvent))
    (anns : List PeerAnnouncement)
    → on_event event ≡ ret ann
    → discover events ≡ ret anns
    → discover ((true, event) ∷ events) ≡ ret (elim ann [ none ↦ anns | some a ↦ a ∷ anns ])
unfolding discover
discover-next event none events anns e h = rw (discover, e, h) refl
discover-next event (some ann) events anns e h = rw (discover, e, h) refl

pub discover-sightings :
    (devices : List (Report × Device))
    → All IsWhole devices
    → (sightings devices >>= discover) ≡ ret (expected devices)
unfolding sightings
discover-sightings [] h = unfold discover in refl
discover-sightings ((r, device) ∷ devices) h =
    let (event, ann, seen, found, joins) = sighting-on_event r device h.0 in
    elim (Fault-cases (sightings devices)) [
      | inl broken ↦ absurd (let ih = discover-sightings devices h.1 in cc)
      | inr (events, e) ↦
          let ih = discover-sightings devices h.1 in
          let rest : discover events ≡ ret (expected devices) = rw e at ih in
          rw (seen, e)
            (discover-next event ann events (expected devices) found rest
              ∙ ap (λ l. ret l) (joins devices))
    ]
