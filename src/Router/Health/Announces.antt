-- ===== src/Router/Health/Announces.antt =====
-- What the events about transports promise.
use pathweave.Base.{
  ℕ, Bool, true, not, ◌&&◌, ◌≡◌, ◌⊎◌, List, [], ◌∷◌, Option, none, some, arith, inl, inr, ◌==◌, any,
  keep_if, ◌=?◌, eqb_refl, false, refl, sym, ◌++◌, append-nil, Bool-cases, Option-cases, All,
}
use pathweave.Base.{nat_eq}
use pathweave.Base.Map
use pathweave.Base.Map.{Map}
use pathweave.Types.{bytes_eq, TransportKind, TransportEvent, transport_changed, Bytes}
use pathweave.Types.{TransportKind-eq}
use pathweave.Router.{TransportEntry, cheaper, cheapest, next_best_transport}
use pathweave.Router.Health.Consistent.{
  Phase-cases, IsConsistent, step-IsConsistent, run-new-IsConsistent,
}
use pathweave.Router.Health.{
  no_transports, fallback, Monitor, entries, Health, same_set, poll, on_start, settle, Call,
  register, wakes, start_returns, step, changed, put, run,
}

abbrev offers : TransportKind → TransportEntry → Bool
offers k e = e.available && (e.transport.kind_of =? k)

-- Some transport of a kind is available.
abbrev pub is_available : TransportKind → Map ℕ Monitor → Bool
is_available k ms = any (offers k) (entries ms)

-- The event names a transport that is available at that moment.
abbrev pub IsTrue : Map ℕ Monitor → TransportEvent → Type 0
IsTrue ms (transport_changed from to) = is_available to ms ≡ true
IsTrue ms _ = Unit

any-cheaper :
    (q : TransportEntry → Bool) (e : TransportEntry) (o : Option TransportEntry)
    (best : TransportEntry)
    → cheaper e o ≡ some best
    → q best ≡ true
    → (q e ≡ true) ⊎ (o ≡ some best)
unfolding cheaper
any-cheaper q e none best h t = ground (arith, h, t)
any-cheaper q e (some b) best h t = ground (arith, h, t)

cheapest-any :
    (q : TransportEntry → Bool) (es : List TransportEntry) (best : TransportEntry)
    → cheapest es ≡ some best
    → q best ≡ true
    → any q es ≡ true
unfolding cheapest
cheapest-any q [] best h t = absurd (ground arith)
cheapest-any q (e ∷ es) best h t = elim (any-cheaper q e (cheapest es) best h t) [
  | inl here ↦ ground (arith, here)
  | inr later ↦ ground (arith, cheapest-any q es best later t)
]

any-keep_if :
    (p q : TransportEntry → Bool) (es : List TransportEntry)
    → any q (keep_if p es) ≡ true
    → any (λ e. p e && q e) es ≡ true
any-keep_if p q [] h = h
any-keep_if p q (e ∷ es) h = ground (arith, any-keep_if p q es)

-- An entry other than the transport's own that offers a kind.
abbrev others : ℕ → TransportKind → TransportEntry → Bool
others id k e = (not (e.transport.id == id) && e.available) && (e.transport.kind_of =? k)

others-offers :
    (id : ℕ) (k : TransportKind) (es : List TransportEntry)
    → any (others id k) es ≡ true
    → any (offers k) es ≡ true
others-offers id k [] h = h
others-offers id k (e ∷ es) h = ground (arith, others-offers id k es)

-- Another transport stays as it is.
others-insert :
    (id : ℕ) (k : TransportKind) (m : Monitor) (ms : Map ℕ Monitor)
    → any (others id k) (entries ms) ≡ true
    → is_available k (Map.insert id m ms) ≡ true
unfolding entries Map.insert
others-insert id k m [] h = absurd (ground arith)
others-insert id k m ((j, old) ∷ ms) h = elim (Bool-cases (j == id)) [
  | inl own ↦ rw own (ground (arith, own, others-offers id k (entries ms)))
  | inr other ↦ rw other (ground (arith, other, others-insert id k m ms))
]

insert-available :
    (id : ℕ) (m : Monitor) (ms : Map ℕ Monitor)
    → m.available ≡ true
    → is_available m.transport.kind_of (Map.insert id m ms) ≡ true
unfolding entries Map.insert
insert-available id m [] h = ground (arith, eqb_refl m.transport.kind_of)
insert-available id m ((j, old) ∷ ms) h =
    let later = insert-available id m ms h in
    elim (Bool-cases (j == id)) [
      | inl own ↦ rw own (ground (arith, eqb_refl m.transport.kind_of))
      | inr other ↦ rw other (ground (arith, later))
    ]

next_best-others :
    (es : List TransportEntry) (id : ℕ) (k : TransportKind)
    → next_best_transport es id ≡ some k
    → any (others id k) es ≡ true
unfolding next_best_transport
next_best-others es id k h =
    let rest = keep_if (λ e. not (e.transport.id == id) && e.available) es in
    elim (Option-cases (cheapest rest)) [
      | inl e ↦ absurd (ground (arith, h, e))
      | inr (best, e) ↦
          any-keep_if (λ e. not (e.transport.id == id) && e.available)
            (λ e. e.transport.kind_of =? k) es
            (cheapest-any (λ e. e.transport.kind_of =? k) rest best e
              (ground (arith, h, e, eqb_refl k)))
    ]

fallback-IsTrue :
    (id : ℕ) (own : TransportKind) (ms : Map ℕ Monitor) (next : Option TransportKind)
    → next_best_transport (entries ms) id ≡ next
    → (m' : Monitor) → All (IsTrue (Map.insert id m' ms)) (fallback own next)
unfolding fallback
fallback-IsTrue id own ms none e m' = tt
fallback-IsTrue id own ms (some k) e m' =
    (others-insert id k m' ms (next_best-others (entries ms) id k e), tt)

on_start-IsTrue :
    (id : ℕ) (m : Monitor) (ms : Map ℕ Monitor) (is_ok : Bool)
    → let (m', events) = on_start m is_ok in All (IsTrue (Map.insert id m' ms)) events
unfolding on_start settle
on_start-IsTrue id m ms true = elim (Phase-cases m.phase) [
  | inl e ↦ rw e (insert-available id (settle m m.prev_addrs).0 ms refl, tt)
  | inr (inl (r, e)) ↦ rw e tt
  | inr (inr (a, e)) ↦ rw e (insert-available id (settle m a).0 ms refl, tt)
]
on_start-IsTrue id m ms false = elim (Phase-cases m.phase) [
  | inl e ↦ rw e tt
  | inr (inl (r, e)) ↦ rw e tt
  | inr (inr (a, e)) ↦ rw e tt
]

poll-IsTrue :
    (id : ℕ) (m : Monitor) (ms : Map ℕ Monitor) (addrs : List Bytes)
    → let (m', events) = poll (next_best_transport (entries ms) id) m addrs in
      All (IsTrue (Map.insert id m' ms)) events
unfolding poll
poll-IsTrue id m ms addrs = elim (Phase-cases m.phase) [
  | inl e ↦ rw e tt
  | inr (inr (a, e)) ↦ rw e tt
  | inr (inl (r, e)) ↦ rw e (elim (Bool-cases (not r && same_set addrs m.prev_addrs)) [
    | inl same ↦ rw same tt
    | inr changed ↦ rw changed (elim (Bool-cases m.available) [
      | inl up ↦
          rw up
            (fallback-IsTrue id m.transport.kind_of ms (next_best_transport (entries ms) id) refl _)
      | inr down ↦ rw down tt
    ])
  ])
]

step-announces :
    (s : Health) (call : Call)
    → (new : List TransportEvent) × ((step s call).events ≡ s.events ++ new)
      × All (IsTrue (step s call).monitors) new
unfolding step put
step-announces s (register t addrs) = ([], refl, tt)
step-announces s (wakes id addrs) = elim (Option-cases (Map.get id s.monitors)) [
  | inl e ↦ ([], rw (e, step) (sym (append-nil s.events)), tt)
  | inr (m, e) ↦ rw (step, e) (_, refl, poll-IsTrue id m s.monitors addrs)
]
step-announces s (start_returns id is_ok) = elim (Option-cases (Map.get id s.monitors)) [
  | inl e ↦ ([], rw (e, step) (sym (append-nil s.events)), tt)
  | inr (m, e) ↦ rw (step, e) (_, refl, on_start-IsTrue id m s.monitors is_ok)
]

-- Whatever order the tasks run in, whatever addresses they see and however often `start` fails: a
-- transport is flagged as available, and its watch channel says that it is started, just when its
-- task sleeps out of recovery; and every `TransportChanged` of the last step, of a transport that
-- has come up or of the one fallen back to, names a kind of which a transport is available then.
pub run-announces :
    (calls : List Call) (call : Call)
    → let s = run no_transports calls in
      let s' = step s call in
      All IsConsistent s'.monitors
      × ((new : List TransportEvent) × (s'.events ≡ s.events ++ new) × All (IsTrue s'.monitors) new)
run-announces calls call =
    let s = run no_transports calls in
    (step-IsConsistent s call (run-new-IsConsistent calls), step-announces s call)
