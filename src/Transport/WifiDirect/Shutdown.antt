-- ===== src/Transport/WifiDirect/Shutdown.antt =====
-- The tasks of linux.rs that share `conn_rx`: `accept`, which the node calls in a loop and which keeps
-- the lock while it waits for a connection, `stop`, `accept_loop` and the listeners that it spawns.
-- A clone of the D-Bus connection keeps it open, and `accept_loop` has one; so its signals end only
-- when the bus itself goes away.
use pathweave.Base.{ℕ, suc, Bool, true, false, ◌≡◌, ◌≢◌, refl, List, [], ◌∷◌, All, arith}

-- `accept` is not running, or waits in `recv` with the lock.
pub data Acceptor : Type 0 where
  away waits : Acceptor

-- `stop` was not called, it has dropped the state and wants the lock, or it has returned.
pub data Stopper : Type 0 where
  uncalled locking returned : Stopper

-- `Inner` and its tasks: whether `state` and `conn_rx` are set, whether `accept_loop` runs with its
-- `conn_tx`, how many listeners have a clone of it, and how many connections are in the channel.
pub record Link : Type 0 where
  pub state : Bool
  pub conn_rx : Bool
  pub listening : Bool
  pub listeners : ℕ
  pub queued : ℕ
  pub acceptor : Acceptor
  pub stopper : Stopper

pub data Label : Type 0 where
  accept_takes accept_waits accept_gets accept_fails stop_begins stop_ends : Label
  group_started listener_accepts listener_fails bus_closes : Label

pub data Step : Label → Link → Link → Type 0 where
  -- `try_recv` finds a connection.
  takes :
      (s : Link) (n : ℕ)
      → s.acceptor ≡ away
      → s.conn_rx ≡ true
      → s.queued ≡ suc n
      → Step accept_takes s (record s { queued = n })
  -- It finds none, and `accept` takes the lock again to wait.
  blocks :
      (s : Link)
      → s.acceptor ≡ away
      → s.conn_rx ≡ true
      → Step accept_waits s (record s { acceptor = waits })
  -- `recv` returns a connection, and the lock is released.
  gets :
      (s : Link) (n : ℕ)
      → s.acceptor ≡ waits
      → s.queued ≡ suc n
      → Step accept_gets s (record s { acceptor = away; queued = n })
  -- Every sender is gone: `recv` returns `None`.
  fails :
      (s : Link)
      → s.acceptor ≡ waits
      → s.queued ≡ 0
      → s.listening ≡ false
      → s.listeners ≡ 0
      → Step accept_fails s (record s { acceptor = away })
  -- `conn_rx` is not set.
  not_started : (s : Link) → s.acceptor ≡ away → s.conn_rx ≡ false → Step accept_fails s s
  begins :
      (s : Link)
      → s.stopper ≡ uncalled
      → Step stop_begins s (record s { state = false; stopper = locking })
  -- `stop` gets the lock and drops the receiver.
  ends :
      (s : Link)
      → s.stopper ≡ locking
      → s.acceptor ≡ away
      → Step stop_ends s (record s { conn_rx = false; queued = 0; stopper = returned })
  -- A group that this node owns: a listener is spawned.
  group :
      (s : Link)
      → s.listening ≡ true
      → Step group_started s (record s { listeners = suc s.listeners })
  -- The other node connects to a listener, which sends the connection and ends.
  connects :
      (s : Link) (n : ℕ)
      → s.listeners ≡ suc n
      → s.conn_rx ≡ true
      → Step listener_accepts s (record s { listeners = n; queued = suc s.queued })
  -- It cannot listen, or the receiver is gone.
  gives_up :
      (s : Link) (n : ℕ) → s.listeners ≡ suc n → Step listener_fails s (record s { listeners = n })
  bus_ends : (s : Link) → s.listening ≡ true → Step bus_closes s (record s { listening = false })

pub data Run : List Label → Link → Link → Type 0 where
  done : {s : Link} → Run [] s s
  then_ : {l : Label} {ls : List Label} {s t u : Link} → Step l s t → Run ls t u → Run (l ∷ ls) s u

-- Nothing comes from outside: no group is formed, and the bus does not go away.
abbrev pub IsQuiet : Label → Type 0
IsQuiet l = (l ≢ group_started) × (l ≢ bus_closes)

-- The transport is started and `accept` waits for a connection; none is on its way.
pub record IsWaiting (s : Link) : Type 0 where
  pub listens : s.listening ≡ true
  pub alone : s.listeners ≡ 0
  pub empty : s.queued ≡ 0
  pub holds : s.acceptor ≡ waits

Step-IsWaiting :
    {l : Label} {s t : Link}
    → Step l s t
    → IsQuiet l
    → IsWaiting s
    → s.stopper ≢ returned
    → IsWaiting t × (t.stopper ≢ returned)
Step-IsWaiting (takes s n a r q) h w e = absurd (cc (w.holds, a))
Step-IsWaiting (blocks s a r) h w e = absurd (cc (w.holds, a))
Step-IsWaiting (gets s n a q) h w e = absurd (let z = w.empty in omega (arith, q))
Step-IsWaiting (fails s a q l n) h w e = absurd (cc (w.listens, l))
Step-IsWaiting (not_started s a r) h w e = absurd (cc (w.holds, a))
Step-IsWaiting (begins s a) h w e =
    (record { listens = w.listens; alone = w.alone; empty = w.empty; holds = w.holds }, λ p. cc p)
Step-IsWaiting (ends s l a) h w e = absurd (cc (w.holds, a))
Step-IsWaiting (group s l) h w e = absurd (h.0 refl)
Step-IsWaiting (connects s n l r) h w e = absurd (let z = w.alone in omega (arith, l))
Step-IsWaiting (gives_up s n l) h w e = absurd (let z = w.alone in omega (arith, l))
Step-IsWaiting (bus_ends s l) h w e = absurd (h.1 refl)

Run-IsWaiting :
    {ls : List Label} {s t : Link}
    → Run ls s t
    → All IsQuiet ls
    → IsWaiting s
    → s.stopper ≢ returned
    → t.stopper ≢ returned
Run-IsWaiting done h w e = e
Run-IsWaiting (then_ st run) h w e =
    let (w1, e1) = Step-IsWaiting st h.0 w e in Run-IsWaiting run h.1 w1 e1

-- While `accept` waits for a connection and none is on its way, no call of `stop` returns, whatever the
-- tasks do and for however long, unless a group is formed or the bus goes away. If instead, after
-- the call, a group is formed and the other node connects, the call can return.
pub stop-waits :
    (s t : Link) (ls : List Label)
    → IsWaiting s
    → s.conn_rx ≡ true
    → s.stopper ≡ uncalled
    → Run ls s t
    → All IsQuiet ls
    → (t.stopper ≢ returned)
      × ((u : Link) × Run
            (stop_begins ∷ group_started ∷ listener_accepts ∷ accept_gets ∷ stop_ends ∷ [])
            s
            u
          × (u.stopper ≡ returned))
stop-waits s t ls w r l run quiet = (
  Run-IsWaiting run quiet w (λ e. cc (l, e)),
  (
    _,
    then_ (begins s l) (
        then_ (group _ w.listens) (
          then_ (connects _ 0 (let z = w.alone in omega arith) r) (
            then_ (gets _ 0 w.holds (let z = w.empty in omega arith))
              (then_ (ends _ refl refl) done)))),
    refl,
  ),
)
