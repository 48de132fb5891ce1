-- ===== src/Tests/Keys.antt =====
-- Examples on the key registry, the deduplication cache and the peer table.
use pathweave.Base.{
  list_eqb, nat_eq, pair_eq, ◌+◌, ◌≤◌, false, ◌≡◌, refl, List, [], ◌∷◌, some, arith, length, any,
  ◌=?◌,
}
use pathweave.Base.Map
use pathweave.Base.Map.{Map}
use pathweave.Types.{PeerAddress-eq, PeerId, PublicKey, bytes_eq, PeerAddress}
use pathweave.Tests.Data.{peer, free_quic, metered_ble, announced, at_home, registry, message}
use pathweave.KeyRegistry.{new, get, Call, direct, gossip, removal, run}
use pathweave.KeyRegistry.Invariant
use pathweave.KeyRegistry.Invariant.{run-new-IsValid}
use pathweave.KeyRegistry.Bounds.{run-new-size, direct_calls}
use pathweave.KeyRegistry.Eviction.{IsDirect, gossips, run_gossip-keeps_IsDirect}
use pathweave.Dedup.{check_and_insert, dedup_ttl}
use pathweave.Dedup.Timers.{is_duplicate}
use pathweave.Dedup.History.{cache, directs, check_and_insert-is_duplicate}
use pathweave.Dedup.History
use pathweave.Router.{Candidate}

abbrev calls : List Call
calls =
    direct (peer 1) (peer 1)
    ∷ gossip (peer 2) (peer 2)
    ∷ gossip (peer 3) (peer 3)
    ∷ removal (peer 1)
    ∷ []

run-new-IsValid_example : Invariant.IsValid (run (new (some 2)) calls)
run-new-IsValid_example = run-new-IsValid (some 2) calls

run-new-size_example : length (run (new (some 2)) calls).entries ≤ 2 + direct_calls calls
run-new-size_example = run-new-size 2 calls

run_gossip-keeps_IsDirect_example :
    IsDirect (run registry (gossips ((peer 3, peer 3) ∷ (peer 4, peer 4) ∷ []))) (peer 1)
    × (any (λ (a : PeerId × PublicKey). a.0 =? peer 1) ((peer 3, peer 3) ∷ (peer 4, peer 4) ∷ [])
          ≡ false
        → get (run registry (gossips ((peer 3, peer 3) ∷ (peer 4, peer 4) ∷ []))) (peer 1)
          ≡ get registry (peer 1))
unfolding Map.get list_eqb
run_gossip-keeps_IsDirect_example =
    run_gossip-keeps_IsDirect registry ((peer 3, peer 3) ∷ (peer 4, peer 4) ∷ []) (peer 1)
      (refl, refl)

abbrev past : List History.Call
past = History.routed 3 8 ∷ History.direct 2 (peer 2) 7 ∷ []

check_and_insert-is_duplicate_example :
    (check_and_insert (cache past) 4 (peer 2) 7).1
    ≡ is_duplicate dedup_ttl 4 (peer 2, 7) (directs past)
check_and_insert-is_duplicate_example =
    check_and_insert-is_duplicate past 4 (peer 2) 7 ((omega arith, tt), (tt, tt))
      (omega arith, (omega arith, tt))

abbrev two : List Candidate
two = (metered_ble, announced (PeerAddress.ble message)) ∷ (free_quic, announced at_home) ∷ []
