-- ===== src/Tests/Sends.antt =====
-- Examples on the router: one dial, and whole sends.
use pathweave.Base.{◌≡◌, refl, sym, ap, [], ◌∷◌, ◌++◌, none, some, list_eqb}
use pathweave.Base.Map
use pathweave.Base.Map.{Map}
use pathweave.Types.{peer_id_from_public_key, PublicKey, bytes_eq, ok, err}
use pathweave.Tests.Data.{
  identity_hash, peer, free_quic, announced, at_home, net, answers, silent, env, message,
}
use pathweave.Router.Dial.{
  learned, sent, learn_addresses, write, framed, acknowledged, register, deliver, in_session,
  try_send,
}
use pathweave.Router.{candidates}
use pathweave.Router.Send.{max_send_attempts, send}
use pathweave.KeyRegistry
use pathweave.KeyRegistry.{get, insert_direct}
use pathweave.AddrExchange.{encode_addr_exchange}
use pathweave.Router.Dial.Identity.{try_send-reaches_peer, try_send-unknown_key}
use pathweave.Router.Send.Outcome.{Ends, budget, send-Ends}

own : (k k' : PublicKey) → (answers (peer 5)).handshake (some k) ≡ ok k' → k' ≡ k
own k k' e = sym (ap (λ r. elim r [ ok x ↦ x | err x ↦ k ]) e)

try_send-reaches_peer_example :
    (try_send identity_hash net (answers (peer 5)) free_quic message 7 (peer 2)).0.log
    ≡ ([] ++ sent (peer 2) (encode_addr_exchange (at_home ∷ [])) ∷ [])
      ++ sent (peer 2) (framed 7 message) ∷ []
unfolding try_send in_session register deliver acknowledged learn_addresses write KeyRegistry.get
    KeyRegistry.insert_direct Map.get Map.insert list_eqb peer_id_from_public_key learned
try_send-reaches_peer_example =
    try_send-reaches_peer identity_hash net (answers (peer 5)) free_quic message 7 (peer 2) (peer 2)
      none own (refl, (refl, tt)) refl refl

-- Peer 4 or peer 6 was asked for, peer 5 gets the message.
try_send-unknown_key_example :
    (key : PublicKey) × ((answers (peer 5)).handshake none ≡ ok key)
    × ((try_send identity_hash net (answers (peer 5)) free_quic message 7 (peer 6)).1
        ≡ ok (some (peer 5)))
    × ((try_send identity_hash net (answers (peer 5)) free_quic message 7 (peer 4)).0.log
        ≡ ([] ++ sent (identity_hash key) (encode_addr_exchange (at_home ∷ [])) ∷ [])
          ++ sent (identity_hash key) (framed 7 message) ∷ [])
    × ((try_send identity_hash net (answers (peer 5)) free_quic message 7 (peer 6)).0.log
        ≡ (try_send identity_hash net (answers (peer 5)) free_quic message 7 (peer 4)).0.log)
unfolding try_send in_session register deliver acknowledged learn_addresses write KeyRegistry.get
    KeyRegistry.insert_direct Map.get Map.insert list_eqb peer_id_from_public_key learned
try_send-unknown_key_example =
    try_send-unknown_key identity_hash net (answers (peer 5)) free_quic message 7 (peer 4) (peer 6)
      (some (peer 5)) refl refl refl

send-Ends_example :
    Ends identity_hash
      (env silent)
      message
      7
      (peer 2)
      (announced at_home ∷ [])
      0
      net
      0
      (candidates ((env silent).at_attempt 0) (announced at_home ∷ []))
      (budget identity_hash
        (env silent)
        message
        7
        (peer 2)
        (announced at_home ∷ [])
        max_send_attempts
        0)
      (send identity_hash (env silent) message 7 (peer 2) net (announced at_home ∷ []))
send-Ends_example =
    send-Ends identity_hash (env silent) message 7 (peer 2) (announced at_home ∷ []) net
