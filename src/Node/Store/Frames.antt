-- ===== src/Node/Store/Frames.antt =====
-- What a flood hands to its sessions.
use pathweave.Base.{All-mono, inl, inr, ◌⊎◌, ℕ, List, [], ◌∷◌, All, ◌≡◌}
use pathweave.Types.{PeerAddress, Bytes, PeerId, bytes_eq, PeerAnnouncement}
use pathweave.AddrExchange.{encode_addr_exchange}
use pathweave.Router.Dial.{Sent, sent, framed}
use pathweave.Router.Send.{Env}
use pathweave.Router.Send.Frames.{IsFrame, send-IsFrame}
use pathweave.Node.Store.{Node, router_send, flood}

-- Address exchanges, and copies of one and the same frame under one message id.
flood-IsFrame :
    (hash : Bytes → Bytes) (env : ℕ → Env) (local_peer_id : PeerId)
    (neighbors : List (PeerId × List PeerAnnouncement)) (body : Bytes) (msg_id : ℕ) (s : Node)
    → All (IsFrame msg_id body) s.net.log
    → All (IsFrame msg_id body) (flood hash env local_peer_id neighbors body msg_id s).0.net.log
unfolding flood router_send
flood-IsFrame hash env local_peer_id [] body msg_id s h = h
flood-IsFrame hash env local_peer_id ((neighbor_id, anns) ∷ neighbors) body msg_id s h =
    flood-IsFrame hash env local_peer_id neighbors body msg_id
      (router_send hash env local_peer_id s anns body neighbor_id msg_id).0
      (send-IsFrame hash (env s.sends) body msg_id neighbor_id s.net anns h)

-- What a session was handed: an address exchange, or a message of which P holds.
abbrev pub IsMessage : (Bytes → Type 0) → Sent → Type 0
IsMessage P (sent to message) =
    P message ⊎ ((addrs : List PeerAddress) × (message ≡ encode_addr_exchange addrs))

frame-IsMessage :
    (P : Bytes → Type 0) (msg_id : ℕ) (body : Bytes) (m : Sent)
    → P (framed msg_id body)
    → IsFrame msg_id body m
    → IsMessage P m
frame-IsMessage P msg_id body (sent to message) h (inl e) = inl (rw e h)
frame-IsMessage P msg_id body (sent to message) h (inr x) = inr x

-- So what holds of the frame holds of all that a flood hands over but address exchanges.
pub flood-IsMessage :
    (hash : Bytes → Bytes) (env : ℕ → Env) (local_peer_id : PeerId)
    (neighbors : List (PeerId × List PeerAnnouncement)) (body : Bytes) (msg_id : ℕ) (s : Node)
    (P : Bytes → Type 0)
    → s.net.log ≡ []
    → P (framed msg_id body)
    → All (IsMessage P) (flood hash env local_peer_id neighbors body msg_id s).0.net.log
flood-IsMessage hash env local_peer_id neighbors body msg_id s P empty h =
    All-mono (IsFrame msg_id body) (IsMessage P) _ (λ m f. frame-IsMessage P msg_id body m h f)
      (flood-IsFrame hash env local_peer_id neighbors body msg_id s (rw empty tt))
