-- ===== src/KeyAnnouncement/RoundTrip.antt =====
-- The announcement and its encoding determine one another.
use pathweave.Base.{
  ℕ, ◌+◌, ◌≡◌, sym, ap₂, ◌∙◌, [], ◌∷◌, ◌++◌, append_assoc, some, arith, length, drop, length-append,
}
use pathweave.Types.{Bytes, PeerId, PublicKey, bytes_eq}
use pathweave.Bytes.{ret, index, slice}
use pathweave.Bytes.Laws.{index_front, slice_prefix, slice_front}
use pathweave.KeyAnnouncement.{encode_key_announcement, decode_key_announcement}

slice_middle :
    (xs ys zs : Bytes) → length xs ≡ 32 → length ys ≡ 32 → slice (xs ++ (ys ++ zs)) 32 64 ≡ ret ys
slice_middle xs ys zs hx hy =
    ap₂ (slice (xs ++ (ys ++ zs))) (sym hx) (let e : 64 ≡ length xs + 32 = omega arith in e)
    ∙ slice_front xs ys zs 32 hy

-- The receiver decodes the peer, the key and the hop count that were announced, if peer and key
-- have 32 bytes.
pub decode-encode_key :
    (peer_id : PeerId) (public_key : PublicKey) (ttl : ℕ)
    → length peer_id ≡ 32
    → length public_key ≡ 32
    → decode_key_announcement (drop 1 (encode_key_announcement peer_id public_key ttl))
      ≡ ret (some (peer_id, public_key, ttl))
unfolding decode_key_announcement encode_key_announcement
decode-encode_key peer_id public_key ttl hp hk =
    let body = peer_id ++ (public_key ++ ttl ∷ []) in
    let last : index body 64 ≡ ret ttl =
      ap₂ index (sym (append_assoc peer_id public_key (ttl ∷ []))) (
        let e : 64 ≡ length (peer_id ++ public_key) =
          omega (arith, length-append peer_id public_key) in
        e)
      ∙ index_front (peer_id ++ public_key) ttl [] in
    ground (
      arith,
      length-append peer_id (public_key ++ ttl ∷ []),
      length-append public_key (ttl ∷ []),
      slice_prefix peer_id (public_key ++ ttl ∷ []) 32 hp,
      slice_middle peer_id public_key (ttl ∷ []) hp hk,
      last,
    )
