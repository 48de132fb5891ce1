-- ===== src/Router/Health/Recovery.antt =====
-- How a transport comes back.
use pathweave.Base.{
  ℕ, Bool, true, false, ◌≡◌, refl, ap, ◌∙◌, List, [], ◌∷◌, ◌++◌, append-nil, none, some,
}
use pathweave.Base.{nat_eq}
use pathweave.Base.Map
use pathweave.Base.Map.{Map, get-insert_same}
use pathweave.Base.Map.Keys.{get-All}
use pathweave.Types.{Bytes, bytes_eq, transport_changed}
use pathweave.Router.{Transport}
use pathweave.Router.Health.{
  sleeping, restarting, Monitor, Health, poll, on_start, settle, Call, wakes, start_returns, step,
  run, put,
}
use pathweave.Router.Health.{no_transports}
use pathweave.Router.Health.Consistent.{run-new-IsConsistent, IsConsistent, is_up}

-- One round of recovery: the task wakes up, and its `start` returns.
abbrev pub retry : ℕ → List Bytes → Bool → List Call
retry id addrs is_ok = wakes id addrs ∷ start_returns id is_ok ∷ []

abbrev pub failures : ℕ → List (List Bytes) → List Call
failures id [] = []
failures id (addrs ∷ rounds) = retry id addrs false ++ failures id rounds

run-append : (s : Health) (xs ys : List Call) → run s (xs ++ ys) ≡ run (run s xs) ys
unfolding run
run-append s [] ys = refl
run-append s (x ∷ xs) ys = run-append (step s x) xs ys

-- The task of `t` sleeps in recovery.
abbrev pub IsDown : Health → ℕ → Transport → List Bytes → Type 0
IsDown s id t addrs =
    Map.get id s.monitors
    ≡ some (record {
      transport = t;
      available = false;
      started = false;
      prev_addrs = addrs;
      phase = sleeping true;
    })

abbrev pub IsUp : Health → ℕ → Transport → List Bytes → Type 0
IsUp s id t addrs =
    Map.get id s.monitors
    ≡ some (record {
      transport = t;
      available = true;
      started = true;
      prev_addrs = addrs;
      phase = sleeping false;
    })

module _ (s : Health) (id : ℕ) (t : Transport) (prev addrs : List Bytes) where
  abbrev woken : Monitor
  woken = record {
    transport = t;
    available = false;
    started = false;
    prev_addrs = prev;
    phase = restarting addrs;
  }

  step-wakes : IsDown s id t prev → step s (wakes id addrs) ≡ put s id (woken, [])
  unfolding step poll
  step-wakes d = rw (step, d) refl

  step-start_returns :
      (is_ok : Bool)
      → step (put s id (woken, [])) (start_returns id is_ok)
        ≡ put (put s id (woken, [])) id (on_start woken is_ok)
  unfolding step put
  step-start_returns is_ok = rw (step, get-insert_same id woken s.monitors) refl

  retry-fails :
      IsDown s id t prev
      → let s' = run s (retry id addrs false) in IsDown s' id t prev × (s'.events ≡ s.events)
  unfolding run put on_start
  retry-fails d =
      rw (step-wakes d, step-start_returns false)
        (
          get-insert_same id _ (Map.insert id woken s.monitors),
          append-nil (s.events ++ []) ∙ append-nil s.events,
        )

  retry-succeeds :
      IsDown s id t prev
      → let s' = run s (retry id addrs true) in
        IsUp s' id t addrs × (s'.events ≡ s.events ++ transport_changed none t.kind_of ∷ [])
  unfolding run put on_start settle
  retry-succeeds d =
      rw (step-wakes d, step-start_returns true)
        (
          get-insert_same id _ (Map.insert id woken s.monitors),
          ap (λ e. e ++ transport_changed none t.kind_of ∷ []) (append-nil s.events),
        )

-- However often `start` fails, nothing is said of it; the first success brings the transport back.
recovers :
    (rounds : List (List Bytes)) (s : Health) (id : ℕ) (t : Transport) (prev addrs : List Bytes)
    → IsDown s id t prev
    → let s' = run s (failures id rounds ++ retry id addrs true) in
      IsUp s' id t addrs × (s'.events ≡ s.events ++ transport_changed none t.kind_of ∷ [])
unfolding run
recovers [] s id t prev addrs d = retry-succeeds s id t prev addrs d
recovers (round ∷ rounds) s id t prev addrs d =
    let (d1, e) = retry-fails s id t prev round d in
    let (up, f) = recovers rounds (run s (retry id round false)) id t prev addrs d1 in
    (up, f ∙ ap (λ l. l ++ transport_changed none t.kind_of ∷ []) e)

is_down :
    (m : Monitor)
    → m.available ≡ false
    → m.started ≡ false
    → m.phase ≡ sleeping true
    → m ≡ record m { available = false; started = false; phase = sleeping true }
is_down m a b p = cc

-- A transport whose task sleeps in recovery, in any state that the tasks can bring about, is started
-- again by the first `start` that succeeds, after any number of failures and whatever addresses the
-- machine had: it is available, its watch channel says so, the addresses of the last poll are those
-- it will compare with, and the only event of all these rounds is one `TransportChanged` to it.
pub run-recovers :
    (calls : List Call) (id : ℕ) (m : Monitor) (rounds : List (List Bytes)) (addrs : List Bytes)
    → Map.get id (run no_transports calls).monitors ≡ some m
    → m.phase ≡ sleeping true
    → let s = run no_transports calls in
      let s' = run s (failures id rounds ++ retry id addrs true) in
      IsUp s' id m.transport addrs
      × (s'.events ≡ s.events ++ transport_changed none m.transport.kind_of ∷ [])
run-recovers calls id m rounds addrs e p =
    let s = run no_transports calls in
    let c = get-All IsConsistent id s.monitors (run-new-IsConsistent calls) e in
    let down : IsDown s id m.transport m.prev_addrs =
      e ∙ ap some (is_down m (c.0 ∙ ap is_up p) (c.1 ∙ ap is_up p) p) in
    recovers rounds s id m.transport m.prev_addrs addrs down
