-- ===== src/Router/Health.antt =====
-- `health_monitor` and `register_transport` of router.rs: the tasks that start the transports and
-- start them again when the addresses of the machine change. A task runs from one `await` that
-- waits for time or for the transport to the next; in between the others run.
pub mod Consistent
pub mod Announces
pub mod Recovery
use pathweave.Base.{
  ℕ, Bool, true, false, not, ◌&&◌, List, [], ◌∷◌, ◌++◌, Option, none, some, if◌then◌else◌, length,
  mem,
}
use pathweave.Base.{nat_eq}
use pathweave.Base.Map
use pathweave.Base.Map.{Map}
use pathweave.Types.{Bytes, bytes_eq, transport, TransportKind, TransportEvent, transport_changed}
use pathweave.Router.{Transport, TransportEntry, next_best_transport}

-- The `await` a task stands at: the first `start`, the sleep between two polls with its
-- `in_recovery`, and the `start` of a restart with the addresses that the poll saw.
pub data Phase : Type 0 where
  starting : Phase
  sleeping : Bool → Phase
  restarting : List Bytes → Phase

-- One transport with its flag, its watch channel and its task.
pub record Monitor : Type 0 where
  pub transport : Transport
  pub available : Bool
  pub started : Bool
  pub prev_addrs : List Bytes
  pub phase : Phase

-- The registered transports, keyed by the identity of their `Arc`, and the events sent.
pub record Health : Type 0 where
  pub monitors : Map ℕ Monitor
  pub events : List TransportEvent

-- Equality of two `HashSet<Ipv4Addr>`.
unfoldable pub all_in : List Bytes → List Bytes → Bool
all_in [] ys = true
all_in (x ∷ xs) ys = mem x ys && all_in xs ys

unfoldable pub same_set : List Bytes → List Bytes → Bool
same_set xs ys = all_in xs ys && all_in ys xs

-- The router's own view of the transports.
unfoldable pub entries : Map ℕ Monitor → List TransportEntry
entries [] = []
entries ((id, m) ∷ ms) =
    record { transport = record m.transport { id = id }; available = m.available } ∷ entries ms

-- `register_transport`, and the task up to its first `start`.
unfoldable pub launch : Transport → List Bytes → Monitor
launch t addrs = record {
  transport = t;
  available = false;
  started = false;
  prev_addrs = addrs;
  phase = starting;
}

-- `TransportChanged { from: None, to: kind }`.
abbrev pub changed : Monitor → TransportEvent
changed m = transport_changed none m.transport.kind_of

-- `start` succeeded: `available` and `started` are set.
unfoldable pub settle : Monitor → List Bytes → Monitor × List TransportEvent
settle m addrs = (
  record m { available = true; started = true; prev_addrs = addrs; phase = sleeping false },
  changed m ∷ [],
)

-- `start` returns.
unfoldable pub on_start : Monitor → Bool → Monitor × List TransportEvent
on_start m is_ok = elim m.phase [
  | starting ↦ if is_ok then settle m m.prev_addrs else (record m { phase = sleeping true }, [])
  | sleeping in_recovery ↦ (m, [])
  | restarting curr_addrs ↦
      if is_ok then settle m curr_addrs else (record m { phase = sleeping true }, [])
]

-- The event of a transport that is given up for another.
unfoldable pub fallback : TransportKind → Option TransportKind → List TransportEvent
fallback own none = []
fallback own (some next_kind) = transport_changed (some own) next_kind ∷ []

-- The poll after a sleep, up to the `start` that it may come to. `next` is the transport to fall
-- back to.
unfoldable pub poll : Option TransportKind → Monitor → List Bytes → Monitor × List TransportEvent
poll next m curr_addrs = elim m.phase [
  | starting ↦ (m, [])
  | restarting addrs ↦ (m, [])
  | sleeping in_recovery ↦
      if not in_recovery && same_set curr_addrs m.prev_addrs then (m, []) else (
        record m { available = false; started = false; phase = restarting curr_addrs },
        if m.available then fallback m.transport.kind_of next else [],
      )
]

-- What happens next: a transport is registered while the machine has some addresses, a task wakes
-- up and polls them, or `start` returns to a task.
pub data Call : Type 0 where
  register : Transport → List Bytes → Call
  wakes : ℕ → List Bytes → Call
  start_returns : ℕ → Bool → Call

unfoldable pub put : Health → ℕ → Monitor × List TransportEvent → Health
put s id (m, events) = record { monitors = Map.insert id m s.monitors; events = s.events ++ events }

unfoldable pub step : Health → Call → Health
step s (register t addrs) = put s (length s.monitors) (launch t addrs, [])
step s (wakes id curr_addrs) = elim (Map.get id s.monitors) [
  | none ↦ s
  | some m ↦ put s id (poll (next_best_transport (entries s.monitors) id) m curr_addrs)
]
step s (start_returns id is_ok) = elim (Map.get id s.monitors) [
  | none ↦ s
  | some m ↦ put s id (on_start m is_ok)
]

unfoldable pub run : Health → List Call → Health
run s [] = s
run s (call ∷ calls) = run (step s call) calls

-- `Router::new`.
abbrev pub no_transports : Health
no_transports = record { monitors = []; events = [] }
