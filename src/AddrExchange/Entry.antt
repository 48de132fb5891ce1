-- ===== src/AddrExchange/Entry.antt =====
-- The decoder reads back one entry behind any prefix.
use native.Mathlib.Nat.{add_assoc}
use pathweave.Base.{
  ℕ, ◌+◌, true, ◌≡◌, refl, ap, ◌∙◌, [], ◌∷◌, ◌++◌, some, arith, length, length-append, drop-append,
  ◌<◌, min, sym, ap₂, append_assoc, take, length-take, take_of_length-le, dec_le, false, none,
}
use pathweave.Types.{Bytes, bytes_eq, v4, v6, PeerAddress}
use pathweave.Bytes.{ret, index, slice, from_be_bytes}
use pathweave.Bytes.Utf8.{is_utf8, from_utf8}
use pathweave.Bytes.Laws.{drop-append_add, index-append, slice-append, index_front, slice_front}
use pathweave.AddrExchange.{decode_v4, decode_v6, decode_id, encode_id, decode_tagged, decode_entry}

module _ (pre : Bytes) where
  pub decode_v4_lem :
      (a b c d high low : ℕ) (rest : Bytes)
      → decode_v4 (pre ++ a ∷ b ∷ c ∷ d ∷ high ∷ low ∷ rest) (length pre)
        ≡ ret (
            some (
              PeerAddress.quic (v4 (a ∷ b ∷ c ∷ d ∷ []) (from_be_bytes 0 (high ∷ low ∷ []))),
              length pre + 6,
            ))
  unfolding decode_v4 index
  decode_v4_lem a b c d high low rest =
      let xs : Bytes = a ∷ b ∷ c ∷ d ∷ high ∷ low ∷ rest in
      ground (
        arith,
        length-append pre xs,
        index_front pre a (b ∷ c ∷ d ∷ high ∷ low ∷ rest),
        index-append pre xs 1,
        index-append pre xs 2,
        index-append pre xs 3,
        index-append pre xs 4,
        index-append pre xs 5,
      )

  pub decode_v6_lem :
      (octets : Bytes) (high low : ℕ) (rest : Bytes)
      → length octets ≡ 16
      → decode_v6 (pre ++ (octets ++ high ∷ low ∷ rest)) (length pre)
        ≡ ret (
            some (
              PeerAddress.quic (v6 octets (from_be_bytes 0 (high ∷ low ∷ [])) 0 0),
              length pre + 18,
            ))
  unfolding decode_v6 index
  decode_v6_lem octets high low rest e =
      let xs : Bytes = octets ++ high ∷ low ∷ rest in
      ground (
        arith,
        length-append pre xs,
        length-append octets (high ∷ low ∷ rest),
        slice_front pre octets (high ∷ low ∷ rest) 16 e,
        index-append pre xs 16,
        index-append pre xs 17,
        drop-append 16 octets (high ∷ low ∷ rest) e,
        drop-append_add octets (high ∷ low ∷ rest) 1,
      )

  -- The slice behind the length byte.
  slice_at_one :
      (x : ℕ) (id rest : Bytes)
      → slice (pre ++ x ∷ (id ++ rest)) (length pre + 1) (length pre + 1 + length id) ≡ ret id
  slice_at_one x id rest =
      ap (slice (pre ++ x ∷ (id ++ rest)) (length pre + 1)) (add_assoc (length pre) 1 (length id))
      ∙ slice-append pre (x ∷ (id ++ rest)) 1 (1 + length id)
      ∙ slice_front (x ∷ []) id rest (length id) refl

  pub decode_id_lem :
      (mk : Bytes → PeerAddress) (id rest : Bytes)
      → is_utf8 id ≡ true
      → decode_id mk (pre ++ length id ∷ (id ++ rest)) (length pre)
        ≡ ret (some (mk id, length pre + 1 + length id))
  unfolding decode_id from_utf8
  decode_id_lem mk id rest u =
      let n = length id in
      let xs : Bytes = n ∷ (id ++ rest) in
      ground (
        arith,
        length-append pre xs,
        length-append id rest,
        index_front pre n (id ++ rest),
        slice_at_one n id rest,
        u,
      )

  -- Bytes that are no text end the decoding.
  pub decode_id_fail :
      (mk : Bytes → PeerAddress) (id rest : Bytes)
      → is_utf8 id ≡ false
      → decode_id mk (pre ++ length id ∷ (id ++ rest)) (length pre) ≡ ret none
  unfolding decode_id from_utf8
  decode_id_fail mk id rest u =
      let n = length id in
      let xs : Bytes = n ∷ (id ++ rest) in
      ground (
        arith,
        length-append pre xs,
        length-append id rest,
        index_front pre n (id ++ rest),
        slice_at_one n id rest,
        u,
      )

-- Addresses that the wire format can carry: as many octets as the family has, a 16-bit port, and
-- an identifier whose first 255 bytes are UTF-8.
abbrev pub IsWire : PeerAddress → Type 0
IsWire (PeerAddress.quic (v4 octets port)) = (length octets ≡ 4) × (port < 65536)
IsWire (PeerAddress.quic (v6 octets port flowinfo scope_id)) = (length octets ≡ 16) × (port < 65536)
IsWire (PeerAddress.ble id) = is_utf8 (take 255 id) ≡ true
IsWire (PeerAddress.wifi_direct id) = is_utf8 (take 255 id) ≡ true
IsWire (PeerAddress.ble_advertising id) = is_utf8 (take 255 id) ≡ true

-- What arrives: identifiers are cut at 255 bytes, and an IPv6 address loses its flow information
-- and its scope.
abbrev pub received : PeerAddress → PeerAddress
received (PeerAddress.quic (v4 octets port)) = PeerAddress.quic (v4 octets port)
received (PeerAddress.quic (v6 octets port flowinfo scope_id)) =
    PeerAddress.quic (v6 octets port 0 0)
received (PeerAddress.ble id) = PeerAddress.ble (take 255 id)
received (PeerAddress.wifi_direct id) = PeerAddress.wifi_direct (take 255 id)
received (PeerAddress.ble_advertising id) = PeerAddress.ble_advertising (take 255 id)

take-min : (id : Bytes) → take (min (length id) 255) id ≡ take 255 id
take-min id = elim (dec_le (length id) 255) [
  | yes short ↦
      ap (λ n. take n id) (let e : min (length id) 255 ≡ length id = omega arith in e)
      ∙ take_of_length-le (length id) id (omega arith)
      ∙ sym (take_of_length-le 255 id short)
  | no long ↦ ap (λ n. take n id) (let e : min (length id) 255 ≡ 255 = omega arith in e)
]

pub encode_id_lem :
    (tag : ℕ) (id : Bytes) → encode_id tag id ≡ tag ∷ length (take 255 id) ∷ take 255 id
unfolding encode_id
encode_id_lem tag id =
    let e : min (length id) 255 ≡ length (take 255 id) = omega (arith, length-take 255 id) in
    ap₂ (λ n t. tag ∷ n ∷ t) e (take-min id)

-- The turn of a tag goes on behind it.
pub decode_entry_tagged :
    (pre : Bytes) (tag : ℕ) (xs : Bytes)
    → decode_entry (pre ++ tag ∷ xs) (length pre)
      ≡ decode_tagged tag ((pre ++ tag ∷ []) ++ xs) (length (pre ++ tag ∷ []))
unfolding decode_entry
decode_entry_tagged pre tag xs = ground (
  arith,
  index_front pre tag xs,
  length-append pre (tag ∷ xs),
  ap₂ (decode_tagged tag) (append_assoc pre (tag ∷ []) xs) (length-append pre (tag ∷ [])),
)
