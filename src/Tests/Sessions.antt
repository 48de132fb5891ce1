-- ===== src/Tests/Sessions.antt =====
-- Examples on the sessions that a node accepts, and on fragments.
use pathweave.Base.{◌+◌, ◌≡◌, refl, List, [], ◌∷◌, nat_eq, ◌*◌, ◌<◌, All, length, replicate, arith}
use pathweave.Types.{PeerAddress-eq, SocketAddr-eq, bytes_eq, ok, peer_id_from_public_key}
use pathweave.Tests.Data.{identity_hash, peer, at_home, open_all, node, message}
use pathweave.Bytes.{ret}
use pathweave.KeyRegistry.Certified.{IsCertified}
use pathweave.Node.Accept.{Server, Event, accepts, shakes, frame, fails, accepting, run}
use pathweave.Node.Accept.Sessions.{run-IsCertified}
use pathweave.Bundle.{fragments}
use pathweave.Bundle.Fragments.{carried, IsWithin, fragments-ends}

-- A server that two peers dial.
abbrev server : Server
server = record {
  incoming = record { node = node; events = []; address_frames = [] };
  loop = accepting;
  tasks = [];
  next_task = 0;
}

abbrev happenings : List Event
happenings =
    accepts
    ∷ accepts
    ∷ shakes 1 (ok (peer 2))
    ∷ shakes 0 (ok (peer 3))
    ∷ frame 1 5 message
    ∷ frame 0 6 (0 ∷ [])
    ∷ fails 1
    ∷ []

run-IsCertified_example :
    (s' : Server) × (run identity_hash open_all (at_home ∷ []) server happenings ≡ ret s')
    × IsCertified identity_hash s'.incoming.node.key_registry
unfolding peer_id_from_public_key
run-IsCertified_example =
    run-IsCertified identity_hash open_all (at_home ∷ []) server happenings (refl, (refl, tt))

fragments-ends_example :
    let bundles = fragments 40 4 1 10 0 (replicate 10 7) in
    (bundles ≡ fragments 10 4 1 10 0 (replicate 10 7))
    × (carried bundles ≡ replicate 10 7)
    × All (IsWithin 4) bundles
    × (length bundles * 4 < 10 + 4)
fragments-ends_example = fragments-ends 40 4 1 10 0 (replicate 10 7) (omega arith) (omega arith)
