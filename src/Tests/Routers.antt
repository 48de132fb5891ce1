-- ===== src/Tests/Routers.antt =====
-- Examples on the background tasks of the router: the health of transports, and discovery.
use pathweave.Base.{eqb_refl, true, false, ◌≡◌, refl, List, [], ◌∷◌, ◌++◌, none, All, mem, arith}
use pathweave.Base.{nat_eq, list_eqb, decides}
use pathweave.Base.Map
use pathweave.Base.Map.{Map}
use pathweave.Types.{
  bytes_eq, PeerAddress, TransportKind, TransportEvent, transport_changed, PeerAddress-discrete,
  SocketAddr-discrete,
}
use pathweave.Types.{PeerAddress-eq}
use pathweave.Router.Dial.{Answers}
use pathweave.Router.Health.{
  sleeping, Monitor, launch, on_start, Call, register, wakes, start_returns, step, run, put,
}
use pathweave.Router.Discovery.{PeerEvent, arrival, departure, Discovery, peer_stream}
use pathweave.Router.Health.{no_transports}
use pathweave.Router.Health.Consistent.{IsConsistent}
use pathweave.Router.Health.Announces.{IsTrue, run-announces}
use pathweave.Router.Health.Recovery.{failures, retry, IsUp, run-recovers}
use pathweave.Router.Discovery.Dials.{dials_of, peer_stream-dials}
use pathweave.Tests.Data.{
  identity_hash, peer, free_quic, metered_ble, announced, at_home, net, answers,
}

-- Two transports that are up.
abbrev both_up : List Call
both_up =
    register free_quic ((10 ∷ []) ∷ [])
    ∷ register metered_ble []
    ∷ start_returns 0 true
    ∷ start_returns 1 true
    ∷ []

-- The machine loses its address: the first transport goes down, the second is fallen back to.
run-announces_example :
    let s = run no_transports both_up in
    let s' = step s (wakes 0 []) in
    All IsConsistent s'.monitors
    × ((new : List TransportEvent) × (s'.events ≡ s.events ++ new) × All (IsTrue s'.monitors) new)
run-announces_example = run-announces both_up (wakes 0 [])

-- The first start fails, so does the next one, and the third succeeds.
abbrev never_up : List Call
never_up = register free_quic [] ∷ start_returns 0 false ∷ []

abbrev down : Monitor
down = record {
  transport = free_quic;
  available = false;
  started = false;
  prev_addrs = [];
  phase = sleeping true;
}

run-recovers_example :
    let s = run no_transports never_up in
    let s' = run s (failures 0 ([] ∷ []) ++ retry 0 ((10 ∷ []) ∷ []) true) in
    IsUp s' 0 free_quic ((10 ∷ []) ∷ [])
    × (s'.events ≡ s.events ++ transport_changed none TransportKind.quic ∷ [])
unfolding run step put launch on_start Map.insert Map.get
run-recovers_example = run-recovers never_up 0 down ([] ∷ []) ((10 ∷ []) ∷ []) refl refl

abbrev elsewhere : PeerAddress
elsewhere = PeerAddress.ble (7 ∷ [])

abbrev discovery : Discovery
discovery = record { net = net; known_addrs = at_home ∷ []; dialled = at_home ∷ [] }

-- The address at home is announced again, another one comes and goes.
abbrev comings : List (Answers × PeerEvent)
comings =
    (answers (peer 5), arrival (announced at_home))
    ∷ (answers (peer 6), arrival (announced elsewhere))
    ∷ (answers (peer 6), departure elsewhere)
    ∷ []

peer_stream-dials_example :
    let s' = peer_stream identity_hash (peer 9) free_quic discovery comings in
    (mem at_home s'.known_addrs ≡ true) × (dials_of at_home s' ≡ dials_of at_home discovery)
unfolding decides list_eqb SocketAddr-discrete PeerAddress-discrete
peer_stream-dials_example =
    peer_stream-dials identity_hash (peer 9) free_quic discovery at_home comings
      (ground (arith, eqb_refl at_home)) (tt, (tt, (refl, tt)))
