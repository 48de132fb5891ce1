-- ===== src/Transport/Mdns/Stale.antt =====
-- A service that is resolved anew with other addresses: what becomes of those that it had.
use pathweave.Base.{
  ℕ, Bool, true, false, ◌≡◌, refl, sym, ap, ◌∙◌, subst, List, [], ◌∷◌, map, arith, inl, inr,
  if◌then◌else◌, Bool-cases, Option-cases, All, ◌=?◌, mem,
}
use pathweave.Base.Map
use pathweave.Base.Map.{Map}
use pathweave.Base.Map.Keys.{Distinct, mem-append, keys, insert-All, remove-All, get-All}
use pathweave.Types.{
  PeerAddress-eq, Bytes, PeerId, bytes_eq, SocketAddr, PeerAddress, SocketAddr-eq,
}
use pathweave.Router.Dial.{Answers}
use pathweave.Router.{Transport}
use pathweave.Router.Discovery.{PeerEvent, arrival, departure, Discovery, peer_stream}
use pathweave.Router.Discovery.Dials.{dials_of, Stays, peer_stream-dials}
use pathweave.Transport.Mdns.{
  ServiceEvent, service_resolved, service_removed, other_event, Receivers, Bridge, socket_addrs,
  send_each, bridge_event, bridge,
}
use pathweave.Transport.Mdns.Ledger.{send_each_open, mem-none, bridge-next}

-- No service is resolved with the address.
abbrev pub Avoids : SocketAddr → Receivers × ServiceEvent → Type 0
Avoids addr (rx, service_resolved name port ips) = mem addr (socket_addrs port ips) ≡ false
Avoids addr (rx, service_removed name) = Unit
Avoids addr (rx, other_event) = Unit

-- An entry of the map without the address.
abbrev pub Lacks : SocketAddr → Bytes × List SocketAddr → Type 0
Lacks addr entry = mem addr entry.1 ≡ false

record IsGone (addr : SocketAddr) (s : Bridge) : Type 0 where
  stays : mem addr s.departed ≡ false
  nobody : All (Lacks addr) s.resolved

mem-send_each :
    (is_open : Bool) (addr : SocketAddr) (addrs : List SocketAddr)
    → mem addr addrs ≡ false
    → mem addr (send_each is_open addrs).0 ≡ false
unfolding send_each
mem-send_each is_open addr [] h = refl
mem-send_each is_open addr (a ∷ addrs) h = ground (arith, mem-send_each is_open addr addrs)

bridge_event-IsGone :
    (addr : SocketAddr) (s : Bridge) (rx : Receivers) (event : ServiceEvent)
    → Avoids addr (rx, event)
    → IsGone addr s
    → IsGone addr (bridge_event s rx event)
unfolding bridge_event
bridge_event-IsGone addr s rx (service_resolved name port ips) h g =
    let addrs = socket_addrs port ips in
    elim (Bool-cases (send_each rx.announcing addrs).1) [
      | inl ended ↦ rw ended (record {
        stays = g.stays;
        nobody = insert-All (Lacks addr) name addrs s.resolved h g.nobody;
      })
      | inr broken ↦ rw broken (record { stays = g.stays; nobody = g.nobody })
    ]
bridge_event-IsGone addr s rx (service_removed name) h g =
    elim (Option-cases (Map.get name s.resolved)) [
      | inl e ↦ rw (bridge_event, e) g
      | inr (addrs, e) ↦
          let lacks = get-All (Lacks addr) name s.resolved g.nobody e in
          rw (bridge_event, e)
            (record {
              stays = ground (
                arith,
                mem-append addr s.departed (send_each rx.departing addrs).0,
                mem-send_each rx.departing addr addrs lacks,
                g.stays,
              );
              nobody = remove-All (Lacks addr) name s.resolved g.nobody;
            })
    ]
bridge_event-IsGone addr s rx other_event h g = g

bridge-stopped :
    (s : Bridge) (rx : Receivers) (event : ServiceEvent) (events : List (Receivers × ServiceEvent))
    → s.running ≡ false
    → bridge s ((rx, event) ∷ events) ≡ s
unfolding bridge
bridge-stopped s rx event events e =
    ap (λ b. if b then bridge (bridge_event s rx event) events else s) e

bridge-IsGone :
    (addr : SocketAddr) (s : Bridge) (events : List (Receivers × ServiceEvent))
    → All (Avoids addr) events
    → IsGone addr s
    → IsGone addr (bridge s events)
bridge-IsGone addr s [] h g = unfold bridge in g
bridge-IsGone addr s ((rx, event) ∷ events) h g =
    let next =
      bridge-IsGone addr (bridge_event s rx event) events h.1
        (bridge_event-IsGone addr s rx event h.0 g) in
    elim (Bool-cases s.running) [
      | inl runs ↦ subst (IsGone addr) (sym (bridge-next s rx event events runs)) next
      | inr ended ↦ subst (IsGone addr) (sym (bridge-stopped s rx event events ended)) g
    ]

insert-All_rest :
    (addr : SocketAddr) (name : Bytes) (addrs : List SocketAddr) (m : Map Bytes (List SocketAddr))
    → mem addr addrs ≡ false
    → All (Lacks addr) (Map.remove name m)
    → Distinct (keys m)
    → All (Lacks addr) (Map.insert name addrs m)
unfolding Map.insert Map.remove
insert-All_rest addr name addrs [] h rest d = (h, tt)
insert-All_rest addr name addrs ((other, old) ∷ m) h rest d = elim (Bool-cases (other =? name)) [
  | inl same ↦
      let others : All (Lacks addr) (Map.remove name m) = rw same at rest in
      let gone =
        mem-none name m
          (ap (λ n. mem n (keys m)) (sym ((bytes_eq.eqb_iff other name).0 same)) ∙ d.0) in
      rw same (h, subst (All (Lacks addr)) gone others)
  | inr differs ↦
      let others : All (Lacks addr) ((other, old) ∷ Map.remove name m) = rw differs at rest in
      rw differs (others.0, insert-All_rest addr name addrs m h others.1 d.1)
]

resolved-IsGone :
    (addr : SocketAddr) (s : Bridge) (rx : Receivers) (name : Bytes) (port : ℕ) (ips : List Bytes)
    → rx.announcing ≡ true
    → Distinct (keys s.resolved)
    → All (Lacks addr) (Map.remove name s.resolved)
    → mem addr s.departed ≡ false
    → mem addr (socket_addrs port ips) ≡ false
    → IsGone addr (bridge_event s rx (service_resolved name port ips))
unfolding bridge_event
resolved-IsGone addr s rx name port ips listens distinct others stays without =
    let addrs = socket_addrs port ips in
    rw (listens, send_each_open addrs)
      (record {
        stays = stays;
        nobody = insert-All_rest addr name addrs s.resolved without others distinct;
      })

-- The departures among the events of a stream.
abbrev pub departures_of : List (Answers × PeerEvent) → List PeerAddress
departures_of [] = []
departures_of ((a, arrival ann) ∷ events) = departures_of events
departures_of ((a, departure addr) ∷ events) = addr ∷ departures_of events

mem-quic :
    (addr : SocketAddr) (addrs : List SocketAddr)
    → mem addr addrs ≡ false
    → mem (PeerAddress.quic addr) (map (λ a. PeerAddress.quic a) addrs) ≡ false
mem-quic addr [] h = refl
mem-quic addr (a ∷ addrs) h = ground (
  arith,
  mem-quic addr addrs,
  PeerAddress-eq.eqb_iff (PeerAddress.quic a) (PeerAddress.quic addr),
  SocketAddr-eq.eqb_iff a addr,
)

mem-Stays :
    (addr : PeerAddress) (events : List (Answers × PeerEvent))
    → mem addr (departures_of events) ≡ false
    → All (Stays addr) events
mem-Stays addr [] h = tt
mem-Stays addr ((a, arrival ann) ∷ events) h = (tt, mem-Stays addr events h)
mem-Stays addr ((a, departure gone) ∷ events) h = (
  ground (arith, PeerAddress-eq.eqb_iff gone addr, PeerAddress-eq.eqb_iff addr gone),
  mem-Stays addr events (ground arith),
)

-- A service is resolved anew without an address that it had and that no other service has. Unless a
-- service is resolved with it again, the address never departs, also when the service is removed: in
-- whatever order the router meets these departures among any announcements, an address that it knows
-- stays known and is not dialled.
pub bridge-loses_departure :
    (hash : Bytes → Bytes) (local_peer_id : PeerId) (t : Transport) (s : Bridge) (rx : Receivers)
    (name : Bytes) (port : ℕ) (ips : List Bytes) (addr : SocketAddr)
    (events : List (Receivers × ServiceEvent)) (d : Discovery) (stream : List (Answers × PeerEvent))
    → s.running ≡ true
    → rx.announcing ≡ true
    → Distinct (keys s.resolved)
    → All (Lacks addr) (Map.remove name s.resolved)
    → mem addr s.departed ≡ false
    → mem addr (socket_addrs port ips) ≡ false
    → All (Avoids addr) events
    → departures_of stream
      ≡ map
          (λ a. PeerAddress.quic a)
          (bridge s ((rx, service_resolved name port ips) ∷ events)).departed
    → mem (PeerAddress.quic addr) d.known_addrs ≡ true
    → let d' = peer_stream hash local_peer_id t d stream in
      (mem (PeerAddress.quic addr) d'.known_addrs ≡ true)
      × (dials_of (PeerAddress.quic addr) d' ≡ dials_of (PeerAddress.quic addr) d)
bridge-loses_departure hash local_peer_id t s rx name port ips addr events d stream runs listens
      distinct others stays without avoids all_sent known =
    let anew = service_resolved name port ips in
    let gone : IsGone addr (bridge s ((rx, anew) ∷ events)) =
      subst (IsGone addr) (sym (bridge-next s rx anew events runs)) (
        bridge-IsGone addr (bridge_event s rx anew) events avoids
          (resolved-IsGone addr s rx name port ips listens distinct others stays without)) in
    peer_stream-dials hash local_peer_id t d (PeerAddress.quic addr) stream known (
      mem-Stays (PeerAddress.quic addr) stream
        (ap (mem (PeerAddress.quic addr)) all_sent ∙ mem-quic addr _ gone.stays))
