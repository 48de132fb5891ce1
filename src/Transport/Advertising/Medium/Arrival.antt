-- ===== src/Transport/Advertising/Medium/Arrival.antt =====
-- A message and its answer over the broadcast medium.
use pathweave.Base.{
  ℕ, false, ◌≡◌, refl, ap, ◌∙◌, List, [], ◌∷◌, ◌++◌, none, some, length, ◌=?◌, eqb_refl, ◌<◌, ◌≢◌,
  sym, Option, inl, inr, Bool-cases, All,
}
use pathweave.Base.{nat_eq, pair_eq}
use pathweave.Base.Map
use pathweave.Base.Map.{Map, contains, get-insert_same}
use pathweave.Types.{Bytes, bytes_eq, transport, ok, err, PeerAddress}
use pathweave.Bytes.{ret}
use pathweave.Transport.Advertising.{decode_header, short_id_to_hex}
use pathweave.Transport.Advertising.Codec.{address_back, header_back}
use pathweave.Transport.Advertising.Medium.{
  local_addresses, connect_hex, connect_to, live, note, Medium, BroadcastConnection, tx_send,
  open_channel, packet, recv_bytes, surface, observe, on_header, dispatch, connect,
}

tx_send-empty :
    (s : Medium) (channel : ℕ) (bytes : Bytes)
    → Map.get channel s.queues ≡ some []
    → (Map.get channel (tx_send s channel bytes).queues ≡ some (bytes ∷ []))
      × ((tx_send s channel bytes).incoming ≡ s.incoming)
unfolding tx_send
tx_send-empty s channel bytes e =
    rw (tx_send, e) (get-insert_same channel (bytes ∷ []) s.queues, refl)

recv_bytes-front :
    (s : Medium) (conn : BroadcastConnection) (bytes : Bytes) (queue : List Bytes)
    → Map.get conn.inbound_rx s.queues ≡ some (bytes ∷ queue)
    → (recv_bytes s conn).1 ≡ some bytes
unfolding recv_bytes
recv_bytes-front s conn bytes queue e = rw (recv_bytes, e) refl

module _ (hash_payload : Bytes → ℕ) where
  -- No packet of a source with this content was heard within the last two seconds.
  abbrev pub IsFresh : Medium → ℕ → Bytes → Bytes → Type 0
  IsFresh s now source payload =
      contains (source, hash_payload payload) (live hash_payload s now) ≡ false

  -- A fresh packet for this node comes through to its source's channel.
  dispatch-packet :
      (s : Medium) (now : ℕ) (conn : BroadcastConnection) (bytes : Bytes)
      → s.local_short_id ≡ some conn.peer_short_id
      → length conn.peer_short_id ≡ 8
      → length conn.local_short_id ≡ 8
      → (conn.local_short_id =? conn.peer_short_id) ≡ false
      → IsFresh s now conn.local_short_id bytes
      → dispatch hash_payload s now (packet conn bytes)
        ≡ ret (
            surface
              (note hash_payload s now conn.local_short_id bytes)
              conn.peer_short_id
              conn.local_short_id
              bytes)
  unfolding dispatch on_header observe packet
  dispatch-packet s now conn bytes local l8 r8 other fresh =
      ap
        (λ o. elim o [
          | none ↦ ret s
          | some id ↦ on_header hash_payload s now id (decode_header (packet conn bytes))
        ])
        local
      ∙ rw
          (
            header_back conn.peer_short_id conn.local_short_id bytes l8 r8,
            other,
            fresh,
            eqb_refl conn.peer_short_id,
          )
          refl

  -- The first packet of a source that has no channel: a connection that holds it is surfaced.
  surface-new :
      (s : Medium) (local_short_id source bytes : Bytes)
      → Map.get source s.connections ≡ none
      → let conn : BroadcastConnection = record {
        local_short_id = local_short_id;
        peer_short_id = source;
        inbound_rx = s.next_channel;
      } in
        let s' = surface s local_short_id source bytes in
        (s'.incoming ≡ s.incoming ++ conn ∷ []) × ((recv_bytes s' conn).1 ≡ some bytes)
  unfolding surface open_channel
  surface-new s local_short_id source bytes missing =
      let s1 = open_channel s source in
      let conn : BroadcastConnection = record {
        local_short_id = local_short_id;
        peer_short_id = source;
        inbound_rx = s.next_channel;
      } in
      let (queue, same) =
        tx_send-empty s1 s.next_channel bytes (get-insert_same s.next_channel [] s.queues) in
      rw (surface, missing) (ap (λ l. l ++ conn ∷ []) same, recv_bytes-front _ conn bytes [] queue)

  -- A packet of a source whose channel is empty and has its receiver.
  surface-known :
      (s : Medium) (conn : BroadcastConnection) (local_short_id bytes : Bytes)
      → Map.get conn.peer_short_id s.connections ≡ some conn.inbound_rx
      → Map.get conn.inbound_rx s.queues ≡ some []
      → (recv_bytes (surface s local_short_id conn.peer_short_id bytes) conn).1 ≡ some bytes
  unfolding surface
  surface-known s conn local_short_id bytes mapped alive =
      recv_bytes-front _ conn bytes []
        (rw (surface, mapped) (tx_send-empty s conn.inbound_rx bytes alive).0)

distinct_eqb : (a b : Bytes) → a ≢ b → (a =? b) ≡ false
distinct_eqb a b h = elim (Bool-cases (a =? b)) [
  | inl same ↦ absurd (h ((bytes_eq.eqb_iff a b).0 same))
  | inr other ↦ other
]

connect_to_started :
    (s : Medium) (id peer_short_id : Bytes)
    → s.local_short_id ≡ some id
    → connect_to s peer_short_id ≡ (
      open_channel s peer_short_id,
      ok (record {
        local_short_id = id;
        peer_short_id = peer_short_id;
        inbound_rx = s.next_channel;
      }),
    )
unfolding connect_to
connect_to_started s id peer_short_id e =
    ap
      (λ o. elim o [
        | none ↦ (s, err transport)
        | some local_short_id ↦ (
          open_channel s peer_short_id,
          ok (record {
            local_short_id = local_short_id;
            peer_short_id = peer_short_id;
            inbound_rx = s.next_channel;
          }),
        )
      ])
      e

-- A started node dials the address of another, which has no channel for it, and sends a request: the
-- other node's dispatcher surfaces a connection that holds the request, and what is answered on it
-- reaches the connection that was dialled; if the short ids differ, have 8 bytes, and neither
-- message was heard from its sender within the last two seconds.
pub connect-arrives :
    (hash_payload : Bytes → ℕ) (a b : Medium) (ia ib request answer : Bytes) (short : Option Bytes)
    (now later : ℕ)
    → length ia ≡ 8
    → length ib ≡ 8
    → All (λ x. x < 256) ib
    → ia ≢ ib
    → a.local_short_id ≡ some ia
    → b.local_short_id ≡ some ib
    → Map.get ia b.connections ≡ none
    → IsFresh hash_payload b now ia request
    → IsFresh hash_payload a later ib answer
    → let there = PeerAddress.ble_advertising (short_id_to_hex ib) in
      let a1 = open_channel a ib in
      let conn_a : BroadcastConnection = record {
        local_short_id = ia;
        peer_short_id = ib;
        inbound_rx = a.next_channel;
      } in
      let conn_b : BroadcastConnection = record {
        local_short_id = ib;
        peer_short_id = ia;
        inbound_rx = b.next_channel;
      } in
      (local_addresses b ≡ there ∷ [])
      × (connect a (record { address = there; short_id = short }) ≡ ret (a1, ok conn_a))
      × ((b1 : Medium) × (dispatch hash_payload b now (packet conn_a request) ≡ ret b1)
          × (b1.incoming ≡ b.incoming ++ conn_b ∷ [])
          × ((recv_bytes b1 conn_b).1 ≡ some request))
      × ((a2 : Medium) × (dispatch hash_payload a1 later (packet conn_b answer) ≡ ret a2)
          × ((recv_bytes a2 conn_a).1 ≡ some answer))
unfolding local_addresses connect connect_hex connect_to open_channel note live
connect-arrives hash_payload a b ia ib request answer short now later la lb bytes other at_a at_b
      absent fresh_b fresh_a =
    let conn_a : BroadcastConnection = record {
      local_short_id = ia;
      peer_short_id = ib;
      inbound_rx = a.next_channel;
    } in
    let conn_b : BroadcastConnection = record {
      local_short_id = ib;
      peer_short_id = ia;
      inbound_rx = b.next_channel;
    } in
    let a1 = open_channel a ib in
    let there : (ia =? ib) ≡ false = distinct_eqb ia ib other in
    let (surfaced, holds) =
      surface-new hash_payload (note hash_payload b now ia request) ib ia request absent in
    let back : (ib =? ia) ≡ false = distinct_eqb ib ia (λ e. other (sym e)) in
    (
      ap
          (λ o. elim o [
            | none ↦ []
            | some id ↦ PeerAddress.ble_advertising (short_id_to_hex id) ∷ []
          ])
          at_b,
      ap (connect_hex a) (address_back ib lb bytes)
          ∙ ap (λ r. ret r) (connect_to_started a ia ib at_a),
      (
        surface (note hash_payload b now ia request) ib ia request,
        dispatch-packet hash_payload b now conn_a request at_b lb la there fresh_b,
        surfaced,
        holds,
      ),
      (
        surface (note hash_payload a1 later ib answer) ia ib answer,
        dispatch-packet hash_payload a1 later conn_b answer at_a la lb back fresh_a,
        surface-known hash_payload (note hash_payload a1 later ib answer) conn_a ia answer
            (get-insert_same ib a.next_channel a.connections)
            (get-insert_same a.next_channel [] a.queues),
      ),
    )
