-- ===== src/Tests/Links.antt =====
-- Examples on mDNS, Wi-Fi Direct and the scan.
use pathweave.Base.{
  ℕ_discrete, list_eqb, decides, ◌+◌, true, ◌≡◌, refl, List, [], ◌∷◌, mem, nat_eq, Option, ◌≢◌,
  false, arith, ◌⊎◌, some, replicate,
}
use pathweave.Types.{
  PeerAddress-eq, SocketAddr-eq, SocketAddr-discrete, PeerAddress-discrete, Bytes, bytes_eq, v4,
  PeerAddress, Result, ok, err, transport, SocketAddr,
}
use pathweave.Base.Map
use pathweave.Base.Map.{Map}
use pathweave.Router.Discovery.{departure, Discovery, peer_stream}
use pathweave.Router.Discovery.Dials.{dials_of}
use pathweave.Transport.Mdns
use pathweave.Transport.Mdns.{
  ServiceEvent, service_resolved, service_removed, Receivers, Bridge, bridge, bridge_event,
  socket_addrs, send_each,
}
use pathweave.Transport.Mdns.Ledger.{count, held, bridge-balance}
use pathweave.Transport.Mdns.Stale.{bridge-loses_departure}
use pathweave.Tests.Data.{identity_hash, peer, free_quic, at_home, net, answers}
use pathweave.Bytes.{ret, ◌>>=◌}
use pathweave.Transport.WifiDirect.{peer_announcement, windows_connect, and_then, or_transport}
use pathweave.Transport.WifiDirect.Groups.{windows_connect-one_dials}
use pathweave.Transport.WifiDirect.Shutdown.{
  Link, Run, IsWaiting, waits, uncalled, returned, stop_begins, stop_ends, group_started,
  listener_accepts, accept_gets, begins, done, then_, stop-waits, locking,
}
use pathweave.Transport.Scan
use pathweave.Transport.Scan.Sightings.{
  Report, as_new, as_advertisement, Device, with_data, service_only, foreign, any_data, sightings,
  expected, discover-sightings,
}

abbrev listening : Receivers
listening = record { announcing = true; departing = true }

abbrev home_ip : Bytes
home_ip = 192 ∷ 168 ∷ 1 ∷ 7 ∷ []

abbrev other_ip : Bytes
other_ip = 192 ∷ 168 ∷ 1 ∷ 8 ∷ []

-- Two services come, and the first of them goes.
abbrev services : List (Receivers × ServiceEvent)
services =
    (listening, service_resolved (1 ∷ []) 4433 (home_ip ∷ other_ip ∷ []))
    ∷ (listening, service_resolved (2 ∷ []) 4433 (home_ip ∷ []))
    ∷ (listening, service_removed (1 ∷ []))
    ∷ []

bridge-balance_example :
    let s = bridge Mdns.new services in
    count (v4 home_ip 4433) s.departed + count (v4 home_ip 4433) (held s.resolved)
    ≡ count (v4 home_ip 4433) s.announced
unfolding Mdns.new bridge_event send_each socket_addrs Map.get Map.insert list_eqb
bridge-balance_example =
    bridge-balance services (v4 home_ip 4433) ((refl, refl), ((refl, refl), (refl, tt)))

-- A service is known at one address, of which the router knows.
abbrev known : Bridge
known = record {
  resolved = (1 ∷ [], v4 home_ip 4433 ∷ []) ∷ [];
  announced = v4 home_ip 4433 ∷ [];
  departed = [];
  running = true;
}

abbrev knowing : Discovery
knowing = record { net = net; known_addrs = at_home ∷ []; dialled = at_home ∷ [] }

bridge-loses_departure_example :
    let d' =
      peer_stream identity_hash
        (peer 9)
        free_quic
        knowing
        ((answers (peer 5), departure (PeerAddress.quic (v4 other_ip 4433))) ∷ []) in
    (mem at_home d'.known_addrs ≡ true) × (dials_of at_home d' ≡ dials_of at_home knowing)
unfolding bridge bridge_event send_each socket_addrs Map.get Map.insert Map.remove decides list_eqb
    SocketAddr-discrete PeerAddress-discrete ℕ_discrete
bridge-loses_departure_example =
    bridge-loses_departure identity_hash (peer 9) free_quic known listening (1 ∷ []) 4433
      (other_ip ∷ []) (v4 home_ip 4433) ((listening, service_removed (1 ∷ [])) ∷ []) knowing
      ((answers (peer 5), departure (PeerAddress.quic (v4 other_ip 4433))) ∷ []) refl refl
      (refl, tt) tt refl refl (tt, tt) refl refl

abbrev at_port : Bytes → Option SocketAddr
at_port ip = some (v4 ip 47808)

windows_connect-one_dials_example :
    let from_a =
      windows_connect at_port
        (some (1 ∷ 2 ∷ []))
        (peer_announcement (7 ∷ []) (some (1 ∷ 3 ∷ [])))
        (ok other_ip)
        (λ addr. ok tt) in
    let from_b =
      windows_connect at_port
        (some (1 ∷ 3 ∷ []))
        (peer_announcement (6 ∷ []) (some (1 ∷ 2 ∷ [])))
        (ok home_ip)
        (λ addr. ok tt) in
    let dials = λ (ip : Result Bytes) (tcp : SocketAddr → Result (Unit {0})). and_then ip λ text.
      and_then (or_transport (at_port text)) λ addr. and_then (tcp addr) λ stream. ok addr in
    ((from_a ≡ err transport) × (from_b ≡ dials (ok home_ip) (λ addr. ok tt)))
    ⊎ ((from_a ≡ dials (ok other_ip) (λ addr. ok tt)) × (from_b ≡ err transport))
windows_connect-one_dials_example =
    windows_connect-one_dials at_port (1 ∷ 2 ∷ []) (1 ∷ 3 ∷ []) (6 ∷ []) (7 ∷ []) (ok home_ip)
      (ok other_ip) (λ addr. ok tt) (λ addr. ok tt) refl (λ e. ground arith)

-- The transport runs, and `accept` waits.
abbrev running : Link
running = record {
  state = true;
  conn_rx = true;
  listening = true;
  listeners = 0;
  queued = 0;
  acceptor = waits;
  stopper = uncalled;
}

running-IsWaiting : IsWaiting running
running-IsWaiting = record { listens = refl; alone = refl; empty = refl; holds = refl }

stop-waits_example :
    ((let t : Link = record running { state = false; stopper = locking } in t.stopper) ≢ returned)
    × ((u : Link) × Run
          (stop_begins ∷ group_started ∷ listener_accepts ∷ accept_gets ∷ stop_ends ∷ [])
          running
          u
        × (u.stopper ≡ returned))
stop-waits_example =
    stop-waits running (record running { state = false; stopper = locking }) (stop_begins ∷ [])
      running-IsWaiting refl refl (then_ (begins running refl) done) ((λ e. cc e, λ e. cc e), tt)

abbrev in_range : List (Report × Device)
in_range =
    (as_new, with_data (1 ∷ []) (peer 4))
    ∷ (as_advertisement, foreign (2 ∷ []))
    ∷ (as_advertisement, service_only (3 ∷ []))
    ∷ (as_new, any_data (4 ∷ []) (1 ∷ 2 ∷ []))
    ∷ (as_advertisement, any_data (5 ∷ []) (2 ∷ replicate 8 7))
    ∷ []

discover-sightings_example : (sightings in_range >>= Scan.discover) ≡ ret (expected in_range)
discover-sightings_example = discover-sightings in_range (refl, (tt, (tt, (tt, (tt, tt)))))
