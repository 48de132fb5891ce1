-- ===== src/Node/Accept.antt =====
-- `accept_loop` of node.rs and the tasks of `handle_incoming` that it spawns, one for each connection.
-- A task runs from one `await` on its connection to the next; in between the others run.
pub mod Sessions
use pathweave.Base.{ℕ, suc, List, [], ◌∷◌, ◌++◌, none, some, if◌then◌else◌, nat_eq}
use pathweave.Base.Map
use pathweave.Base.Map.{Map}
use pathweave.Types.{
  peer_id_from_public_key, Bytes, PeerId, PublicKey, bytes_eq, Result, ok, err, PeerAddress,
}
use pathweave.Bytes.{Fault, ret, ◌>>=◌}
use pathweave.AddrExchange.{decode_addr_exchange}
use pathweave.Node.Dispatch.{dispatch_payload}
use pathweave.Node.Incoming.{Incoming, is_control, exchange, greet}

-- What a task of `handle_incoming` waits for: the end of the handshake, the first frame of the peer,
-- or a later one.
pub data Waiting : Type 0 where
  handshake : Waiting
  first later : PeerId → Waiting

-- What the loop waits for: the start of the transport, a connection, or the end of the pause of 5
-- seconds after an error.
pub data Loop : Type 0 where
  until_started accepting pausing : Loop

-- The node with its loop and the tasks by their number.
pub record Server : Type 0 where
  pub incoming : Incoming
  pub loop : Loop
  pub tasks : Map ℕ Waiting
  pub next_task : ℕ

-- What happens next. `shakes` is the answer of `Session::respond`, `frame` what `recv` returns, with
-- the time at which it is dispatched, and `fails` an error of `recv`.
pub data Event : Type 0 where
  starts accepts accept_fails pause_ends : Event
  shakes : ℕ → Result PublicKey → Event
  frame : ℕ → ℕ → Bytes → Event
  fails : ℕ → Event

unfoldable pub accept_loop : Server → Event → Server
accept_loop s starts = elim s.loop [ until_started ↦ record s { loop = accepting } | _ ↦ s ]
accept_loop s accepts = elim s.loop [
  | accepting ↦ record s {
    tasks = Map.insert s.next_task handshake s.tasks;
    next_task = suc s.next_task;
  }
  | _ ↦ s
]
accept_loop s accept_fails = elim s.loop [ accepting ↦ record s { loop = pausing } | _ ↦ s ]
accept_loop s pause_ends = elim s.loop [ pausing ↦ record s { loop = accepting } | _ ↦ s ]
accept_loop s event = s

-- The task waits for something else, or has ended.
unfoldable pub waits : Server → ℕ → Waiting → Server
waits s id w = record s { tasks = Map.insert id w s.tasks }

unfoldable pub ends : Server → ℕ → Server
ends s id = record s { tasks = Map.remove id s.tasks }

-- `insert_direct` of the key that the handshake showed, in a node whose other events stay.
unfoldable pub greeted : Incoming → PeerId → PublicKey → Incoming
greeted i sender key =
    let g = greet i.node sender key in record i { node = g.node; events = i.events ++ g.events }

unfoldable pub respond : Server → ℕ → Result PublicKey → (PublicKey → PeerId) → Server
respond s id (err e) peer_id_of = ends s id
respond s id (ok key) peer_id_of =
    waits (record s { incoming = greeted s.incoming (peer_id_of key) key }) id
      (first (peer_id_of key))

module _ (hash : Bytes → Bytes) (unseal : PeerId → PublicKey → Bytes → Result Bytes)
    (local_addresses : List PeerAddress) where
  unfoldable pub dispatched : Server → ℕ → PeerId → ℕ → Bytes → Fault Server
  dispatched s id sender now payload = do
    node ← dispatch_payload hash unseal s.incoming.node now sender payload
    ret (waits (record s { incoming = record s.incoming { node = node } }) id (later sender))

  unfoldable pub on_frame : Server → ℕ → ℕ → Bytes → Waiting → Fault Server
  on_frame s id now payload handshake = ret s
  on_frame s id now payload (first sender) =
      if is_control payload
      then (do
        addrs ← decode_addr_exchange payload
        ret (
            waits (record s { incoming = exchange local_addresses sender s.incoming addrs }) id
              (later sender)))
      else dispatched s id sender now payload
  on_frame s id now payload (later sender) = dispatched s id sender now payload

  unfoldable pub step : Server → Event → Fault Server
  step s (shakes id result) = elim (Map.get id s.tasks) [
    | some handshake ↦ ret (respond s id result (peer_id_from_public_key hash))
    | _ ↦ ret s
  ]
  step s (frame id now payload) = elim (Map.get id s.tasks) [
    | none ↦ ret s
    | some w ↦ on_frame s id now payload w
  ]
  step s (fails id) = ret (ends s id)
  step s event = ret (accept_loop s event)

  unfoldable pub run : Server → List Event → Fault Server
  run s [] = ret s
  run s (event ∷ events) = do s1 ← step s event; run s1 events
