-- ===== src/KeyAnnouncement.antt =====
-- The key announcement of crates/pathweave-core/src/router.rs (ADR 020): `encode_key_announcement`,
-- `decode_key_announcement`, `validate_key_announcement`.
pub mod RoundTrip
use pathweave.Base.{
  ℕ, Bool, not, [], ◌∷◌, ◌++◌, Option, none, some, ◌==◌, if◌then◌else◌, length, ◌=?◌,
}
use pathweave.Types.{Bytes, PeerId, PublicKey, bytes_eq}
use pathweave.Bytes.{◌>>=◌, Fault, ret, index, slice}
use pathweave.Types.{peer_id_from_public_key}

unfoldable pub encode_key_announcement : PeerId → PublicKey → ℕ → Bytes
encode_key_announcement peer_id public_key ttl = 0x02 ∷ (peer_id ++ (public_key ++ ttl ∷ []))

-- The payload is what follows the message id and the route flag.
unfoldable pub decode_key_announcement : Bytes → Fault (Option (PeerId × PublicKey × ℕ))
decode_key_announcement payload = if not (length payload == 65) then ret none else do
  peer_id_bytes ← slice payload 0 32
  public_key ← slice payload 32 64
  ttl ← index payload 64
  ret (some (peer_id_bytes, public_key, ttl))

unfoldable pub validate_key_announcement : (Bytes → Bytes) → PeerId → PublicKey → Bool
validate_key_announcement hash peer_id public_key =
    peer_id_from_public_key hash public_key =? peer_id
