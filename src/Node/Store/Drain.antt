-- ===== src/Node/Store/Drain.antt =====
-- What a drain does with the entries of a queue.
use pathweave.Base.{
  ℕ, suc, ◌+◌, ◌-◌, ◌≤◌, ◌<◌, Bool, true, false, ◌≡◌, ◌⊎◌, refl, sym, ap, ◌∙◌, List, [], ◌∷◌, ◌++◌,
  append_assoc, append-nil, Option, none, some, arith, inl, inr, ltb→lt, ltb→ge, Bool-cases, length,
}
use pathweave.Router.Send.Outcome.{told}
use pathweave.Types.{
  PublicKey, TransportKind, PeerId, bytes_eq, TransportEvent, transport_changed, peer_connected,
  peer_disconnected, store_failed, message_delivered, key_learned,
}
use pathweave.Router.Send.{emit}
use pathweave.Node.Store.{Pending, Node, fail, expired, drain_entries}

-- What a drain makes of a queue: what is left of it, in the order that it was, and the events fired.
-- An entry that has waited longer than `store_ttl` is dropped with `StoreFailed`; any other is
-- delivered, with the events of one delivery, or left.
pub data IsDrained (store_ttl now : ℕ) (peer_id : PeerId)
    : List Pending → List Pending → List TransportEvent → Type 0 where
  done : IsDrained store_ttl now peer_id [] [] []
  too_old :
      {entries rest : List Pending} {events : List TransportEvent} (entry : Pending)
      → store_ttl < now - entry.queued_at
      → IsDrained store_ttl now peer_id entries rest events
      → IsDrained store_ttl now peer_id (entry ∷ entries) rest (store_failed peer_id ∷ events)
  delivered :
      {entries rest : List Pending} {events : List TransportEvent} (entry : Pending)
      (k : TransportKind) (key : PublicKey) (before : Option PublicKey)
      → now - entry.queued_at ≤ store_ttl
      → IsDrained store_ttl now peer_id entries rest events
      → IsDrained store_ttl now peer_id (entry ∷ entries) rest (told peer_id k key before ++ events)
  kept :
      {entries rest : List Pending} {events : List TransportEvent} (entry : Pending)
      → now - entry.queued_at ≤ store_ttl
      → IsDrained store_ttl now peer_id entries rest events
      → IsDrained store_ttl now peer_id (entry ∷ entries) (entry ∷ rest) events

-- Events that settle a message for good.
unfoldable pub settled : List TransportEvent → ℕ
settled [] = 0
settled (message_delivered peer_id k ∷ events) = suc (settled events)
settled (store_failed peer_id ∷ events) = suc (settled events)
settled (event ∷ events) = settled events

pub settled-append : (xs ys : List TransportEvent) → settled (xs ++ ys) ≡ settled xs + settled ys
unfolding settled
settled-append [] ys = omega arith
settled-append (transport_changed p k ∷ xs) ys = settled-append xs ys
settled-append (peer_connected p ∷ xs) ys = settled-append xs ys
settled-append (peer_disconnected p ∷ xs) ys = settled-append xs ys
settled-append (store_failed p ∷ xs) ys = let rest = settled-append xs ys in omega arith
settled-append (message_delivered p k ∷ xs) ys = let rest = settled-append xs ys in omega arith
settled-append (key_learned p k ∷ xs) ys = settled-append xs ys

abbrev pub settled_by : Node → ℕ
settled_by s = settled s.net.events

pub settled-told :
    (peer_id : PeerId) (k : TransportKind) (key : PublicKey) (before : Option PublicKey)
    → settled (told peer_id k key before) ≡ 1
unfolding settled
settled-told peer_id k key none = refl
settled-told peer_id k key (some old) = refl

-- Every entry is settled by one event or left.
pub settled-IsDrained :
    (store_ttl now : ℕ) (peer_id : PeerId) (entries rest : List Pending)
    (events : List TransportEvent)
    → IsDrained store_ttl now peer_id entries rest events
    → settled events + length rest ≡ length entries
unfolding settled
settled-IsDrained store_ttl now peer_id _ _ _ done = refl
settled-IsDrained store_ttl now peer_id _ _ _ (too_old {entries} {rest} {events} entry old d) =
    let others = settled-IsDrained store_ttl now peer_id entries rest events d in omega arith
settled-IsDrained store_ttl now peer_id _ _ _
      (delivered {entries} {rest} {events} entry k key before live d) =
    let others = settled-IsDrained store_ttl now peer_id entries rest events d in
    let one = settled-told peer_id k key before in
    let both = settled-append (told peer_id k key before) events in omega arith
settled-IsDrained store_ttl now peer_id _ _ _ (kept {entries} {rest} {events} entry live d) =
    let others = settled-IsDrained store_ttl now peer_id entries rest events d in omega arith

pub length-IsDrained :
    (store_ttl now : ℕ) (peer_id : PeerId) (entries rest : List Pending)
    (events : List TransportEvent)
    → IsDrained store_ttl now peer_id entries rest events
    → length rest ≤ length entries
length-IsDrained store_ttl now peer_id entries rest events d =
    let all = settled-IsDrained store_ttl now peer_id entries rest events d in omega arith

pub fail-settled : (s : Node) (peer_id : PeerId) → settled_by (fail s peer_id) ≡ settled_by s + 1
unfolding fail emit
fail-settled s peer_id =
    settled-append s.net.events (store_failed peer_id ∷ []) ∙ unfold settled in refl

fail-events :
    (s : Node) (peer_id : PeerId) (events : List TransportEvent)
    → (fail s peer_id).net.events ++ events ≡ s.net.events ++ store_failed peer_id ∷ events
unfolding fail emit
fail-events s peer_id events = append_assoc s.net.events (store_failed peer_id ∷ []) events

abbrev pub one_if : Bool → ℕ
one_if true = 1
one_if false = 0

module _ (store_ttl now : ℕ) (peer_id : PeerId) (reachable : Bool)
    (deliver : Pending → Node → Node × Bool) where
  -- What failing and sending keep, a drain keeps.
  pub drain_entries-keeps :
      (P : Node → Type 0)
      → ((s : Node) → P s → P (fail s peer_id))
      → ((entry : Pending) (s : Node) → P s → P (deliver entry s).0)
      → (entries : List Pending) (s : Node) → P s
      → P (drain_entries store_ttl now peer_id reachable deliver entries s).0
  unfolding drain_entries
  drain_entries-keeps P f d [] s h = h
  drain_entries-keeps P f d (entry ∷ entries) s h =
      let go = drain_entries-keeps P f d entries in
      elim (Bool-cases (expired store_ttl now entry)) [
        | inl old ↦ rw (old, drain_entries) (go (fail s peer_id) (f s h))
        | inr live ↦ elim (Bool-cases reachable) [
          | inr nobody ↦ rw (live, nobody, drain_entries) (go s h)
          | inl up ↦ elim (Bool-cases (deliver entry s).1) [
            | inl went ↦ rw (live, up, went, drain_entries) (go (deliver entry s).0 (d entry s h))
            | inr lost ↦ rw (live, up, lost, drain_entries) (go (deliver entry s).0 (d entry s h))
          ]
        ]
      ]

  -- One attempt to deliver: the events of one delivery, or none.
  abbrev pub Attempts : Type 0
  Attempts =
      (entry : Pending) (s : Node)
      → (((deliver entry s).1 ≡ true)
          × ((k : TransportKind) × (key : PublicKey) × (before : Option PublicKey) × ((deliver entry
                  s).0.net.events
                ≡ s.net.events ++ told peer_id k key before)))
        ⊎ (((deliver entry s).1 ≡ false) × ((deliver entry s).0.net.events ≡ s.net.events))

  -- The events of a drain that ended so, and what it makes of the queue.
  abbrev Drains : List Pending → Node → Node × List Pending → Type 0
  Drains entries s after =
      (events : List TransportEvent) × (after.0.net.events ≡ s.net.events ++ events)
      × IsDrained store_ttl now peer_id entries after.1 events

  pub drain_entries-IsDrained :
      Attempts
      → (entries : List Pending) (s : Node)
      → Drains entries s (drain_entries store_ttl now peer_id reachable deliver entries s)
  unfolding drain_entries
  drain_entries-IsDrained d [] s = ([], sym (append-nil s.net.events), done)
  drain_entries-IsDrained d (entry ∷ entries) s =
      let go = drain_entries-IsDrained d entries in
      elim (Bool-cases (expired store_ttl now entry)) [
        | inl old ↦
            let (events, e, r) = go (fail s peer_id) in
            rw (old, drain_entries)
              (
                store_failed peer_id ∷ events,
                e ∙ fail-events s peer_id events,
                too_old entry (unfold expired in ltb→lt store_ttl (now - entry.queued_at) old) r,
              )
        | inr live ↦
            let young : now - entry.queued_at ≤ store_ttl =
              unfold expired in ltb→ge store_ttl (now - entry.queued_at) live in
            elim (Bool-cases reachable) [
              | inr nobody ↦
                  let (events, e, r) = go s in
                  rw (live, nobody, drain_entries) (events, e, kept entry young r)
              | inl up ↦
                  let (events, e, r) = go (deliver entry s).0 in
                  elim (d entry s) [
                    | inl (went, (k, key, before, h)) ↦
                        let fired = told peer_id k key before in
                        rw (live, up, went, drain_entries)
                          (
                            fired ++ events,
                            e ∙ ap (λ l. l ++ events) h ∙ append_assoc s.net.events fired events,
                            delivered entry k key before young r,
                          )
                    | inr (lost, h) ↦
                        rw (live, up, lost, drain_entries)
                          (events, e ∙ ap (λ l. l ++ events) h, kept entry young r)
                  ]
            ]
      ]
