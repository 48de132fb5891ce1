-- ===== src/Transport/Mdns/Ledger.antt =====
-- What the bridge announces against what departs and what it still holds.
use pathweave.Base.{
  ℕ, suc, ◌+◌, true, false, ◌≡◌, refl, sym, ap, ◌∙◌, List, [], ◌∷◌, ◌++◌, Option, none, some, arith,
  inl, inr, if◌then◌else◌, Bool-cases, Option-cases, ◌=?◌, mem,
}
use pathweave.Base.Map
use pathweave.Base.Map.{Map}
use pathweave.Base.Map.Keys.{Distinct, keys, insert-Distinct, remove-Distinct}
use pathweave.Types.{Bytes, bytes_eq, SocketAddr, SocketAddr-eq}
use pathweave.Transport.Mdns.{
  ServiceEvent, service_resolved, service_removed, other_event, Receivers, Bridge, socket_addrs,
  send_each, bridge_event, bridge, new,
}

-- How often an address is in a list.
abbrev pub count : SocketAddr → List SocketAddr → ℕ
count a [] = 0
count a (x ∷ xs) = if x =? a then suc (count a xs) else count a xs

-- The addresses of all the services that are resolved.
abbrev pub held : Map Bytes (List SocketAddr) → List SocketAddr
held [] = []
held ((name, addrs) ∷ m) = addrs ++ held m

pub count-append :
    (a : SocketAddr) (xs ys : List SocketAddr) → count a (xs ++ ys) ≡ count a xs + count a ys
count-append a [] ys = omega arith
count-append a (x ∷ xs) ys = ground (arith, count-append a xs ys)

-- The addresses of one service.
abbrev pub of_service : Option (List SocketAddr) → List SocketAddr
of_service none = []
of_service (some addrs) = addrs

count-insert :
    (a : SocketAddr) (name : Bytes) (addrs : List SocketAddr) (m : Map Bytes (List SocketAddr))
    → count a (held (Map.insert name addrs m)) + count a (of_service (Map.get name m))
      ≡ count a (held m) + count a addrs
unfolding Map.insert Map.get
count-insert a name addrs [] = omega (arith, count-append a addrs [])
count-insert a name addrs ((other, old) ∷ m) = elim (Bool-cases (other =? name)) [
  | inl same ↦ rw same (omega (arith, count-append a addrs (held m), count-append a old (held m)))
  | inr differs ↦ rw differs (
      omega (
        arith,
        count-append a old (held m),
        count-append a old (held (Map.insert name addrs m)),
        count-insert a name addrs m,
      ))
]

pub mem-none :
    (name : Bytes) (m : Map Bytes (List SocketAddr))
    → mem name (keys m) ≡ false
    → Map.remove name m ≡ m
unfolding Map.remove
mem-none name [] h = refl
mem-none name ((other, old) ∷ m) h = ground (arith, mem-none name m)

count-remove :
    (a : SocketAddr) (name : Bytes) (m : Map Bytes (List SocketAddr))
    → Distinct (keys m)
    → count a (held (Map.remove name m)) + count a (of_service (Map.get name m)) ≡ count a (held m)
unfolding Map.remove Map.get
count-remove a name [] d = refl
count-remove a name ((other, old) ∷ m) d = elim (Bool-cases (other =? name)) [
  | inl same ↦ rw same (
      rw
        (mem-none name m
          (ap (λ n. mem n (keys m)) (sym ((bytes_eq.eqb_iff other name).0 same)) ∙ d.0))
        (omega (arith, count-append a old (held m))))
  | inr differs ↦ rw differs (
      omega (
        arith,
        count-append a old (held m),
        count-append a old (held (Map.remove name m)),
        count-remove a name m d.1,
      ))
]

-- A step of the list that the run of the bridge meets: the receiver is there, and a service that is
-- resolved is not held yet.
abbrev pub IsOrderly : Bridge → Receivers × ServiceEvent → Type 0
IsOrderly s (rx, service_resolved name port ips) =
    (rx.announcing ≡ true) × (Map.get name s.resolved ≡ none)
IsOrderly s (rx, service_removed name) = rx.departing ≡ true
IsOrderly s (rx, other_event) = Unit

abbrev pub Orderly : Bridge → List (Receivers × ServiceEvent) → Type 0
Orderly s [] = Unit
Orderly s ((rx, event) ∷ events) =
    IsOrderly s (rx, event) × Orderly (bridge_event s rx event) events

pub send_each_open : (addrs : List SocketAddr) → send_each true addrs ≡ (addrs, true)
unfolding send_each
send_each_open [] = refl
send_each_open (addr ∷ addrs) = rw (send_each_open addrs) refl

record IsBalanced (s : Bridge) : Type 0 where
  runs : s.running ≡ true
  names : Distinct (keys s.resolved)
  balance : (a : SocketAddr) → count a s.departed + count a (held s.resolved) ≡ count a s.announced

bridge_event-IsBalanced :
    (s : Bridge) (rx : Receivers) (event : ServiceEvent)
    → IsOrderly s (rx, event)
    → IsBalanced s
    → IsBalanced (bridge_event s rx event)
unfolding bridge_event
bridge_event-IsBalanced s rx (service_resolved name port ips) (listens, fresh) b =
    let addrs = socket_addrs port ips in
    rw (listens, send_each_open addrs)
      (record {
        runs = b.runs;
        names = insert-Distinct name addrs s.resolved b.names;
        balance = λ a. omega (
          arith,
          b.balance a,
          count-append a s.announced addrs,
          count-insert a name addrs s.resolved,
          ap (λ o. count a (of_service o)) fresh,
        );
      })
bridge_event-IsBalanced s rx (service_removed name) listens b =
    elim (Option-cases (Map.get name s.resolved)) [
      | inl e ↦ rw (bridge_event, e) b
      | inr (addrs, e) ↦
          rw (bridge_event, e, listens, send_each_open addrs)
            (record {
              runs = refl;
              names = remove-Distinct name s.resolved b.names;
              balance = λ a. omega (
                arith,
                b.balance a,
                count-append a s.departed addrs,
                count-remove a name s.resolved b.names,
                ap (λ o. count a (of_service o)) e,
              );
            })
    ]
bridge_event-IsBalanced s rx other_event h b = b

pub bridge-next :
    (s : Bridge) (rx : Receivers) (event : ServiceEvent) (events : List (Receivers × ServiceEvent))
    → s.running ≡ true
    → bridge s ((rx, event) ∷ events) ≡ bridge (bridge_event s rx event) events
unfolding bridge
bridge-next s rx event events e =
    ap (λ b. if b then bridge (bridge_event s rx event) events else s) e

bridge-IsBalanced :
    (s : Bridge) (events : List (Receivers × ServiceEvent))
    → Orderly s events
    → IsBalanced s
    → IsBalanced (bridge s events)
bridge-IsBalanced s [] h b = unfold bridge in b
bridge-IsBalanced s ((rx, event) ∷ events) h b = rw (bridge-next s rx event events b.runs) (
    bridge-IsBalanced (bridge_event s rx event) events h.1
      (bridge_event-IsBalanced s rx event h.0 b))

-- From the start of the bridge, while the receivers are there and no service is resolved anew before
-- it was removed, each address was announced exactly as often as it has departed and is held by a
-- service now, together.
pub bridge-balance :
    (events : List (Receivers × ServiceEvent)) (a : SocketAddr)
    → Orderly new events
    → let s = bridge new events in
      count a s.departed + count a (held s.resolved) ≡ count a s.announced
unfolding new
bridge-balance events a h =
    (bridge-IsBalanced new events h
        (record { runs = refl; names = tt; balance = λ x. refl })).balance
      a
