-- ===== src/Router/Health/Consistent.antt =====
-- What holds of the transports whatever the order in which their tasks run.
use pathweave.Base.{
  ℕ, Bool, false, not, ◌≡◌, ◌⊎◌, refl, List, [], ◌∷◌, Option, arith, inl, inr, Option-cases, length,
  All,
}
use pathweave.Base.{nat_eq}
use pathweave.Base.Map
use pathweave.Base.Map.{Map}
use pathweave.Base.Map.Keys.{insert-All, get-All}
use pathweave.Types.{Bytes, bytes_eq, TransportKind}
use pathweave.Router.{next_best_transport}
use pathweave.Router.Health.{
  no_transports, Phase, starting, sleeping, restarting, Monitor, Health, entries, launch, poll,
  on_start, settle, Call, register, wakes, start_returns, step, run, put,
}

abbrev pub is_up : Phase → Bool
is_up starting = false
is_up (sleeping in_recovery) = not in_recovery
is_up (restarting addrs) = false

-- The flag and the watch channel agree, and are set just while the task sleeps out of recovery.
abbrev pub IsConsistent : ℕ × Monitor → Type 0
IsConsistent (id, m) = (m.available ≡ is_up m.phase) × (m.started ≡ is_up m.phase)

pub Phase-cases :
    (p : Phase)
    → (p ≡ starting) ⊎ ((r : Bool) × (p ≡ sleeping r)) ⊎ ((a : List Bytes) × (p ≡ restarting a))
Phase-cases starting = inl refl
Phase-cases (sleeping r) = inr (inl (r, refl))
Phase-cases (restarting a) = inr (inr (a, refl))

on_start-IsConsistent :
    (id : ℕ) (m : Monitor) (is_ok : Bool)
    → IsConsistent (id, m)
    → IsConsistent (id, (on_start m is_ok).0)
unfolding on_start settle
on_start-IsConsistent id m is_ok c = elim (Phase-cases m.phase) [
  | inl e ↦ ground (arith, e)
  | inr (inl (r, e)) ↦ ground (arith, e)
  | inr (inr (a, e)) ↦ ground (arith, e)
]

poll-IsConsistent :
    (id : ℕ) (next : Option TransportKind) (m : Monitor) (addrs : List Bytes)
    → IsConsistent (id, m)
    → IsConsistent (id, (poll next m addrs).0)
unfolding poll
poll-IsConsistent id next m addrs c = elim (Phase-cases m.phase) [
  | inl e ↦ ground (arith, e)
  | inr (inl (r, e)) ↦ ground (arith, e)
  | inr (inr (a, e)) ↦ ground (arith, e)
]

pub step-IsConsistent :
    (s : Health) (call : Call)
    → All IsConsistent s.monitors
    → All IsConsistent (step s call).monitors
unfolding step put
step-IsConsistent s (register t addrs) c =
    unfold launch in
    insert-All IsConsistent (length s.monitors) (launch t addrs) s.monitors (refl, refl) c
step-IsConsistent s (wakes id addrs) c = elim (Option-cases (Map.get id s.monitors)) [
  | inl e ↦ rw (e, step) c
  | inr (m, e) ↦
      rw (e, step)
        (insert-All IsConsistent id _ s.monitors
          (poll-IsConsistent id (next_best_transport (entries s.monitors) id) m addrs
            (get-All IsConsistent id s.monitors c e))
          c)
]
step-IsConsistent s (start_returns id is_ok) c = elim (Option-cases (Map.get id s.monitors)) [
  | inl e ↦ rw (e, step) c
  | inr (m, e) ↦
      rw (e, step)
        (insert-All IsConsistent id _ s.monitors
          (on_start-IsConsistent id m is_ok (get-All IsConsistent id s.monitors c e)) c)
]

run-IsConsistent :
    (s : Health) (calls : List Call)
    → All IsConsistent s.monitors
    → All IsConsistent (run s calls).monitors
unfolding run
run-IsConsistent s [] c = c
run-IsConsistent s (call ∷ calls) c =
    run-IsConsistent (step s call) calls (step-IsConsistent s call c)

-- Whatever order the tasks run in, whatever addresses they see and however often `start` fails: a
-- transport is flagged as available just when its task sleeps out of recovery, and then, and only
-- then, its watch channel says that it is started.
pub run-new-IsConsistent : (calls : List Call) → All IsConsistent (run no_transports calls).monitors
run-new-IsConsistent calls = run-IsConsistent no_transports calls tt
