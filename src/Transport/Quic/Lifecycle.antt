-- ===== src/Transport/Quic/Lifecycle.antt =====
-- What the state of the QUIC transport agrees on.
use pathweave.Base.{
  ◌≡◌, refl, sym, ◌∙◌, List, [], ◌∷◌, none, arith, inl, inr, ◌==◌, if◌then◌else◌, Option-cases,
}
use pathweave.Types.{
  PeerAddress, SocketAddr, Result, ok, err, transport, TransportCost, free, metered, unknown,
  Result-cases, bytes_eq,
}
use pathweave.Transport.Quic.{
  quic, QuicTransport, Setup, new, cost_code, start, stop, discover, departures, accept, cost,
  local_addresses, Call, starts, stops, discovers, takes_departures, step, run,
}

-- The address that is told is that of the endpoint, and mDNS runs only with an endpoint.
abbrev IsStarted : QuicTransport → Type 0
IsStarted s = (s.started_addr ≡ s.endpoint) × (s.endpoint ≡ none → s.mdns ≡ none)

start-IsStarted : (s : QuicTransport) (setup : Setup) → IsStarted s → IsStarted (start s setup).0
unfolding start
start-IsStarted s setup (a, m) = elim (Result-cases setup.binds) [
  | inl (e, f) ↦ rw (start, f) (a, m)
  | inr (addr, f) ↦ elim (Result-cases setup.advertises) [
    | inl (e, g) ↦ rw (start, f, g) (refl, λ h. ground (arith, h))
    | inr (u, g) ↦ rw (start, f, g) (refl, λ h. ground (arith, h))
  ]
]

step-IsStarted : (s : QuicTransport) (call : Call) → IsStarted s → IsStarted (step s call)
unfolding step stop discover departures
step-IsStarted s (starts setup) h = start-IsStarted s setup h
step-IsStarted s stops h = (refl, λ e. refl)
step-IsStarted s discovers (a, m) = elim (Option-cases s.mdns) [
  | inl e ↦ rw (discover, e) (a, λ h. refl)
  | inr (state, e) ↦ rw (discover, e) (a, λ h. ground (arith, sym e ∙ m h))
]
step-IsStarted s takes_departures (a, m) = elim (Option-cases s.mdns) [
  | inl e ↦ rw (departures, e) (a, λ h. refl)
  | inr (state, e) ↦ rw (departures, e) (a, λ h. ground (arith, sym e ∙ m h))
]

run-IsStarted : (s : QuicTransport) (calls : List Call) → IsStarted s → IsStarted (run s calls)
unfolding run
run-IsStarted s [] h = h
run-IsStarted s (call ∷ calls) h = run-IsStarted (step s call) calls (step-IsStarted s call h)

-- What an accept gives at the addresses that the transport tells.
abbrev pub at_told {ℓ} : {A : Type ℓ} → List PeerAddress → (SocketAddr → Result A) → Result A
at_told (quic addr ∷ []) answer = answer addr
at_told _ answer = err transport

accepts_of {ℓ} :
    {A : Type ℓ} (s : QuicTransport) (answer : SocketAddr → Result A)
    → IsStarted s
    → (accept s answer ≡ at_told (local_addresses s) answer)
      × (local_addresses s ≡ [] → s.mdns ≡ none)
unfolding accept local_addresses
accepts_of s answer (a, m) = elim (Option-cases s.endpoint) [
  | inl e ↦ (rw (accept, local_addresses, a, e) refl, λ l. m e)
  | inr (addr, e) ↦ (
    rw (accept, local_addresses, a, e) refl,
    λ l.
        let told : local_addresses s ≡ quic addr ∷ [] = rw (local_addresses, a, e) refl in
        ground (arith, sym told ∙ l),
  )
]

-- After any history of starts, successful or not, stops and streams taken, the transport accepts
-- exactly at the address that it tells, and where it tells none, it says that it is not started; and
-- then mDNS does not run either.
pub run-accepts {ℓ} :
    {A : Type ℓ} (calls : List Call) (answer : SocketAddr → Result A)
    → let s = run new calls in
      (accept s answer ≡ at_told (local_addresses s) answer)
      × (local_addresses s ≡ [] → s.mdns ≡ none)
unfolding new
run-accepts calls answer =
    accepts_of (run new calls) answer (run-IsStarted new calls (refl, λ e. refl))

cost-cost_code :
    (c : TransportCost)
    → (if cost_code c == 0 then free else if cost_code c == 1 then metered else unknown) ≡ c
unfolding cost_code
cost-cost_code free = refl
cost-cost_code metered = refl
cost-cost_code unknown = refl

-- A start that succeeds tells the cost that it has detected.
cost-start :
    (s : QuicTransport) (setup : Setup) (addr : SocketAddr)
    → setup.binds ≡ ok addr
    → setup.advertises ≡ ok tt
    → cost (start s setup).0 ≡ setup.detected
unfolding start cost cost_code
cost-start s setup addr f g = rw (start, f, g) (cost-cost_code setup.detected)
