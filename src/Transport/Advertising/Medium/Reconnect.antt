-- ===== src/Transport/Advertising/Medium/Reconnect.antt =====
-- What the dispatcher does with the packets of a peer whose connection was dropped.
use pathweave.Base.{
  ℕ, ◌-◌, ◌<◌, false, ◌≡◌, ◌≢◌, ◌⊎◌, refl, sym, ap, ◌∙◌, List, [], ◌∷◌, ◌++◌, append_assoc,
  append-nil, none, some, arith, inl, inr, ltb, ltb→ge, ==_iff, Bool-cases, Option-cases, length,
  take, drop, All, All-append, ◌=?◌,
}
use pathweave.Base.{nat_eq, pair_eq}
use pathweave.Base.Map
use pathweave.Base.Map.{Map, contains, get-insert, get-remove}
use pathweave.Types.{Bytes, bytes_eq}
use pathweave.Bytes.{ret}
use pathweave.Bytes.Laws.{slice-le}
use pathweave.Transport.Advertising.{decode_header, header_len}
use pathweave.Transport.Advertising.Medium.{
  live, note, Medium, BroadcastConnection, tx_send, open_channel, drop_connection, surface, observe,
  on_header, dispatch, dispatch_loop,
}

pub decode_header-Returns :
    (bytes : Bytes)
    → (decode_header bytes ≡ ret none)
      ⊎ ((h : Bytes × Bytes × Bytes) × (decode_header bytes ≡ ret (some h)))
unfolding decode_header
decode_header-Returns bytes = elim (Bool-cases (ltb (length bytes) header_len)) [
  | inl short ↦ inl (rw short refl)
  | inr long ↦
      let e = ltb→ge (length bytes) header_len long in
      inr (
        (take 8 (drop 0 bytes), take 8 (drop 8 bytes), take (length bytes - 16) (drop 16 bytes)),
        rw
            (
              long,
              slice-le bytes 0 8 (omega arith) (omega arith),
              slice-le bytes 8 16 (omega arith) (omega arith),
              slice-le bytes 16 (length bytes) (omega arith) (omega arith),
            )
            refl,
      )
]

module _ (peer : Bytes) (channel : ℕ) (before : List BroadcastConnection) where
  -- The sender of the peer is still there, its receiver is not, and no connection of it came since.
  abbrev IsDeaf : Medium → Type 0
  IsDeaf s =
      (Map.get peer s.connections ≡ some channel)
      × (Map.get channel s.queues ≡ none)
      × (channel < s.next_channel)
      × ((new : List BroadcastConnection) × (s.incoming ≡ before ++ new)
          × All (λ c. c.peer_short_id ≢ peer) new)

  not_mapped :
      (connections : Map Bytes ℕ) (source : Bytes)
      → Map.get source connections ≡ none
      → Map.get peer connections ≡ some channel
      → (source =? peer) ≡ false
  not_mapped connections source e d = elim (Bool-cases (source =? peer)) [
    | inr other ↦ other
    | inl same ↦ absurd (
        ground
          (arith, ap (λ x. Map.get x connections) ((bytes_eq.eqb_iff source peer).0 same), e, d))
  ]

  distinct : (source : Bytes) → (source =? peer) ≡ false → source ≢ peer
  distinct source other same = ground (arith, (bytes_eq.eqb_iff source peer).1 same, other)

  tx_send-IsDeaf : (s : Medium) (n : ℕ) (payload : Bytes) → IsDeaf s → IsDeaf (tx_send s n payload)
  unfolding tx_send
  tx_send-IsDeaf s n payload (c, q, l, i) = elim (Option-cases (Map.get n s.queues)) [
    | inl gone ↦ rw (tx_send, gone) (c, q, l, i)
    | inr (queue, e) ↦
        rw (tx_send, e)
          (
            c,
            ground (
              arith,
              get-insert n channel (queue ++ payload ∷ []) s.queues,
              ==_iff n channel,
              e,
              q,
            ),
            l,
            i,
          )
  ]

  open_channel-IsDeaf :
      (s : Medium) (source : Bytes)
      → (source =? peer) ≡ false
      → IsDeaf s
      → IsDeaf (open_channel s source)
  unfolding open_channel
  open_channel-IsDeaf s source other (c, q, l, i) = (
    ground (arith, get-insert source peer s.next_channel s.connections, other, c),
    ground (arith, get-insert s.next_channel channel [] s.queues, q, l),
    omega arith,
    i,
  )

  surface-IsDeaf :
      (s : Medium) (local_short_id source payload : Bytes)
      → IsDeaf s
      → IsDeaf (surface s local_short_id source payload)
  unfolding surface
  surface-IsDeaf s local_short_id source payload d =
      elim (Option-cases (Map.get source s.connections)) [
        | inr (n, e) ↦ rw (surface, e) (tx_send-IsDeaf s n payload d)
        | inl e ↦
            let other : (source =? peer) ≡ false = not_mapped s.connections source e d.0 in
            let conn : BroadcastConnection = record {
              local_short_id = local_short_id;
              peer_short_id = source;
              inbound_rx = s.next_channel;
            } in
            let (c, q, l, (new, f, h)) =
              tx_send-IsDeaf (open_channel s source) s.next_channel payload
                (open_channel-IsDeaf s source other d) in
            rw (surface, e)
              (
                c,
                q,
                l,
                (
                  new ++ conn ∷ [],
                  ap (λ x. x ++ conn ∷ []) f ∙ append_assoc before new (conn ∷ []),
                  All-append (λ c. c.peer_short_id ≢ peer) new (conn ∷ []) h
                      (distinct source other, tt),
                ),
              )
      ]

  module _ (hash_payload : Bytes → ℕ) where
    observe-IsDeaf :
        (s : Medium) (now : ℕ) (local_short_id dest source payload : Bytes)
        → IsDeaf s
        → IsDeaf (observe hash_payload s now local_short_id dest source payload)
    unfolding observe note
    observe-IsDeaf s now local_short_id dest source payload d =
        elim (Bool-cases (source =? local_short_id)) [
          | inl own ↦ rw own d
          | inr other ↦
              rw other
                (elim (Bool-cases
                  (contains (source, hash_payload payload) (live hash_payload s now))) [
                    | inl again ↦ rw again d
                    | inr new ↦ rw new (elim (Bool-cases (dest =? local_short_id)) [
                      | inl mine ↦ rw mine (
                          surface-IsDeaf (note hash_payload s now source payload) local_short_id
                            source payload d)
                      | inr theirs ↦ rw theirs d
                    ])
                  ])
        ]

    dispatch_started :
        (s : Medium) (now : ℕ) (bytes id : Bytes)
        → s.local_short_id ≡ some id
        → dispatch hash_payload s now bytes ≡ on_header hash_payload s now id (decode_header bytes)
    unfolding dispatch
    dispatch_started s now bytes id e =
        ap
          (λ o. elim o [
            | none ↦ ret s
            | some id ↦ on_header hash_payload s now id (decode_header bytes)
          ])
          e

    dispatch-IsDeaf :
        (s : Medium) (now : ℕ) (bytes : Bytes)
        → IsDeaf s
        → (s' : Medium) × (dispatch hash_payload s now bytes ≡ ret s') × IsDeaf s'
    unfolding dispatch on_header
    dispatch-IsDeaf s now bytes d = elim (Option-cases s.local_short_id) [
      | inl stopped ↦ (
        s,
        ap
            (λ o. elim o [
              | none ↦ ret s
              | some id ↦ on_header hash_payload s now id (decode_header bytes)
            ])
            stopped,
        d,
      )
      | inr (id, e) ↦ elim (decode_header-Returns bytes) [
        | inl f ↦ (s, dispatch_started s now bytes id e ∙ ap (on_header hash_payload s now id) f, d)
        | inr ((dest, source, payload), f) ↦ (
          _,
          dispatch_started s now bytes id e ∙ ap (on_header hash_payload s now id) f,
          observe-IsDeaf s now id dest source payload d,
        )
      ]
    ]

    dispatch_loop-IsDeaf :
        (s : Medium) (packets : List (ℕ × Bytes))
        → IsDeaf s
        → (s' : Medium) × (dispatch_loop hash_payload s packets ≡ ret s') × IsDeaf s'
    unfolding dispatch_loop
    dispatch_loop-IsDeaf s [] d = (s, refl, d)
    dispatch_loop-IsDeaf s ((now, bytes) ∷ packets) d =
        let (s1, e, d1) = dispatch-IsDeaf s now bytes d in
        let (s2, f, d2) = dispatch_loop-IsDeaf s1 packets d1 in (s2, rw e f, d2)

-- The connection of a peer to which its sender in the map leads is dropped. Whatever packets are
-- heard from then on, from whomever, before the node dials the peer or restarts: the dispatcher does
-- not panic, the map still leads to the channel without a receiver, so that what the peer sends is
-- lost, and no connection of the peer is ever handed to `accept` again.
pub dispatch_loop-loses_peer :
    (hash_payload : Bytes → ℕ) (s : Medium) (conn : BroadcastConnection)
    (packets : List (ℕ × Bytes))
    → Map.get conn.peer_short_id s.connections ≡ some conn.inbound_rx
    → conn.inbound_rx < s.next_channel
    → (s' : Medium) × (dispatch_loop hash_payload (drop_connection s conn) packets ≡ ret s')
      × (Map.get conn.peer_short_id s'.connections ≡ some conn.inbound_rx)
      × (Map.get conn.inbound_rx s'.queues ≡ none)
      × ((new : List BroadcastConnection) × (s'.incoming ≡ s.incoming ++ new)
          × All (λ c. c.peer_short_id ≢ conn.peer_short_id) new)
unfolding drop_connection
dispatch_loop-loses_peer hash_payload s conn packets known old =
    let gone = get-remove conn.inbound_rx conn.inbound_rx s.queues in
    let (s', e, (c, q, l, i)) =
      dispatch_loop-IsDeaf conn.peer_short_id conn.inbound_rx s.incoming hash_payload
        (drop_connection s conn) packets
        (known, ground (arith, gone), old, ([], sym (append-nil s.incoming), tt)) in
    (s', e, c, q, i)
