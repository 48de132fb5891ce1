-- ===== src/Node/Incoming/Direct.antt =====
-- A direct message from the node that sends it to the application of the node that it is for.
use pathweave.Base.{
  ℕ, suc, ◌+◌, ◌^◌, ◌<◌, true, false, ◌≡◌, refl, sym, ap, ◌∙◌, List, [], ◌∷◌, ◌++◌, map,
  append_assoc, Option, some, arith, ge→ltb, length, take, All, length-append,
}
use pathweave.Types.{Bytes, PeerId, PublicKey, bytes_eq, Result, ok, PeerAddress}
use pathweave.Types.{peer_id_from_public_key}
use pathweave.Bytes.{ret, index, slice, to_be_bytes}
use pathweave.Bytes.Laws.{
  slice_suffix, index_front, slice_prefix, from_be_bytes-to_be_bytes_eight, length-to_be_bytes,
}
use pathweave.KeyRegistry
use pathweave.KeyRegistry.{get, direct}
use pathweave.KeyRegistry.Certified.{IsCertified}
use pathweave.Dedup.{check_and_insert}
use pathweave.PeerTable.{upsert_peer_addresses}
use pathweave.AddrExchange.{encode_addr_exchange, addr_exchange_ctrl}
use pathweave.AddrExchange.Entry.{IsWire, received}
use pathweave.AddrExchange.RoundTrip.{decode-encode}
use pathweave.Router.{Transport, local_addresses}
use pathweave.Router.Dial.{Answers, Net, Sent, sent, framed, try_send}
use pathweave.Router.Dial.Identity.{try_send-reaches_peer}
use pathweave.Node.Dispatch.{
  NodeState, on_message, send_ack, dispatch_payload, dispatch_flag, dispatch_direct,
}
use pathweave.Node.Incoming.{
  Incoming, is_control, serve, serve_all, exchange, greet, handle_incoming,
}

-- What a session carries, message by message, all handled at one time.
abbrev pub carried : ℕ → List Sent → List (ℕ × Bytes)
carried now [] = []
carried now (sent to message ∷ log) = (now, message) ∷ carried now log

is_control-exchange : (addrs : List PeerAddress) → is_control (encode_addr_exchange addrs) ≡ true
unfolding is_control encode_addr_exchange addr_exchange_ctrl
is_control-exchange addrs = ground arith

module _ (hash : Bytes → Bytes) (unseal : PeerId → PublicKey → Bytes → Result Bytes) where
  -- A direct frame is read back, and its content is new.
  dispatch_payload-framed_direct :
      (s : NodeState) (now : ℕ) (sender : PeerId) (id : ℕ) (content : Bytes)
      → id < 2 ^ 64
      → dispatch_payload hash unseal s now sender (framed id (0x00 ∷ content))
        ≡ ret (send_ack (dispatch_direct s now sender id content))
  unfolding dispatch_payload dispatch_flag framed
  dispatch_payload-framed_direct s now sender id content w =
      let pre = to_be_bytes 8 id in
      let payload = pre ++ 0x00 ∷ content in
      let eight : length pre ≡ 8 = length-to_be_bytes 8 id in
      let size : length payload ≡ 9 + length content =
        omega (arith, length-append pre (0x00 ∷ content)) in
      let id_bytes : slice payload 0 8 ≡ ret pre = slice_prefix pre _ 8 eight in
      let flag : index payload 8 ≡ ret 0x00 =
        ap (index payload) (sym eight) ∙ index_front pre 0x00 content in
      let rest : slice payload 9 (length payload) ≡ ret content =
        ap (λ q. slice q 9 (length q)) (sym (append_assoc pre (0x00 ∷ []) content))
        ∙ slice_suffix (pre ++ 0x00 ∷ []) content 9
            (omega (arith, length-append pre (0x00 ∷ []))) in
      rw
        (
          ge→ltb (length payload) 9 (omega arith),
          id_bytes,
          flag,
          rest,
          from_be_bytes-to_be_bytes_eight id w,
        )
        refl

  dispatch_direct-fresh :
      (s : NodeState) (now : ℕ) (sender : PeerId) (id : ℕ) (content : Bytes)
      → s.has_handler ≡ true
      → (check_and_insert s.dedup now sender id).1 ≡ false
      → let s' = dispatch_direct s now sender id content in
        (s'.delivered ≡ s.delivered ++ (sender, content) ∷ [])
        × (s'.peers ≡ s.peers)
        × (s'.acks ≡ s.acks)
  unfolding dispatch_direct on_message
  dispatch_direct-fresh s now sender id content handler fresh =
      (ground arith, ground arith, ground arith)

  -- A session that carries an address exchange and a direct frame that is new.
  handle_incoming-direct :
      (s : NodeState) (local_addresses addrs : List PeerAddress) (key : PublicKey) (now id : ℕ)
      (content : Bytes)
      → id < 2 ^ 64
      → All IsWire (take 255 addrs)
      → s.has_handler ≡ true
      → let sender = peer_id_from_public_key hash key in
        (check_and_insert s.dedup now sender id).1 ≡ false
        → (i : Incoming) × (handle_incoming hash unseal s local_addresses
              (ok key)
              ((now, encode_addr_exchange addrs) ∷ (now, framed id (0x00 ∷ content)) ∷ [])
            ≡ ret i)
          × (i.node.delivered ≡ s.delivered ++ (sender, content) ∷ [])
          × (i.node.peers ≡ upsert_peer_addresses s.peers sender (map received (take 255 addrs)))
          × (i.node.acks ≡ suc s.acks)
  unfolding handle_incoming serve_all serve exchange greet send_ack
  handle_incoming-direct s local_addresses addrs key now id content w wire handler fresh =
      let sender = peer_id_from_public_key hash key in
      let i1 =
        exchange local_addresses sender (greet s sender key)
          (some (map received (take 255 addrs))) in
      let direct = dispatch_direct i1.node now sender id content in
      let (d, p, a) = dispatch_direct-fresh i1.node now sender id content handler fresh in
      (
        record i1 { node = send_ack direct },
        rw
            (
              is_control-exchange addrs,
              decode-encode addrs wire,
              dispatch_payload-framed_direct i1.node now sender id content w,
            )
            refl,
        d,
        p,
        ap suc a,
      )

-- A node sends a direct message to a peer whose key it knows, and the send succeeds. If each
-- key in its registry belongs to its peer and the handshake admits nobody but the owner of a key that
-- it is given, then that peer, handling the session with all that it carried, does not panic: it
-- hands the content to its application as the sender's, answers one ACK, and adds the addresses of
-- the sender to its peer table, as they are received; if it has a handler, the 64-bit message id
-- is no duplicate, and the sender's addresses can be encoded.
pub try_send-handle_incoming :
    (hash : Bytes → Bytes) (unseal : PeerId → PublicKey → Bytes → Result Bytes) (n : Net)
    (a : Answers) (t : Transport) (content : Bytes) (id : ℕ) (b : NodeState)
    (local_addresses : List PeerAddress) (own known : PublicKey) (result : Option PublicKey)
    (now : ℕ)
    → ((k k' : PublicKey) → a.handshake (some k) ≡ ok k' → k' ≡ k)
    → IsCertified hash n.key_registry
    → KeyRegistry.get n.key_registry b.local_peer_id ≡ some known
    → (try_send hash n a t (0x00 ∷ content) id b.local_peer_id).1 ≡ ok result
    → n.log ≡ []
    → id < 2 ^ 64
    → All IsWire (take 255 t.local_addresses)
    → b.has_handler ≡ true
    → (check_and_insert b.dedup now (peer_id_from_public_key hash own) id).1 ≡ false
    → (i : Incoming) × (handle_incoming hash unseal b local_addresses
          (ok own)
          (carried now (try_send hash n a t (0x00 ∷ content) id b.local_peer_id).0.log)
        ≡ ret i)
      × (i.node.delivered ≡ b.delivered ++ (peer_id_from_public_key hash own, content) ∷ [])
      × (i.node.peers
          ≡ upsert_peer_addresses b.peers
              (peer_id_from_public_key hash own)
              (map received (take 255 t.local_addresses)))
      × (i.node.acks ≡ suc b.acks)
try_send-handle_incoming hash unseal n a t content id b local_addresses own known result now admits
      certified knows done empty w wire handler fresh =
    let address_frame = sent b.local_peer_id (encode_addr_exchange t.local_addresses) in
    let message = sent b.local_peer_id (framed id (0x00 ∷ content)) in
    let log =
      try_send-reaches_peer hash n a t (0x00 ∷ content) id b.local_peer_id known result admits
        certified knows done
      ∙ ap (λ l. (l ++ address_frame ∷ []) ++ message ∷ []) empty in
    rw log (
      handle_incoming-direct hash unseal b local_addresses t.local_addresses own now id content w
        wire handler fresh)
