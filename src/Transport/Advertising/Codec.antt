-- ===== src/Transport/Advertising/Codec.antt =====
-- Addresses and headers of the broadcast medium.
use pathweave.Base.{
  ℕ, ◌+◌, ◌*◌, ◌/◌, ◌%◌, ◌≤◌, ◌<◌, true, false, ◌≡◌, refl, sym, ap, ap₂, ◌∙◌, [], ◌∷◌, ◌++◌,
  append_assoc, some, arith, ◌==◌, ge→ltb, length, take, All, length-append, take_of_length-le,
}
use pathweave.Types.{Bytes, bytes_eq, PeerAddress}
use pathweave.Bytes.{panic, ret, slice}
use pathweave.Bytes.Utf8.{is_utf8}
use pathweave.AddrExchange.{encode_addr_exchange, decode_addr_exchange}
use pathweave.AddrExchange.RoundTrip.{decode-encode}
use pathweave.Bytes.Laws.{slice_prefix, slice_front, slice_suffix}
use pathweave.Transport.Advertising.{
  encode_header, decode_header, hex_digit, short_id_to_hex, digit_value, from_str_radix,
  is_char_boundary, hex_pairs, hex_to_short_id,
}

digit_value-hex_digit : (d : ℕ) → d < 16 → digit_value (hex_digit d) ≡ some d
unfolding digit_value hex_digit
digit_value-hex_digit d h = ground arith

-- A hexadecimal digit is no plus sign and begins a character.
hex_digit-is_plain : (d : ℕ) → d < 16 → (hex_digit d < 128) × ((hex_digit d == 43) ≡ false)
unfolding hex_digit
hex_digit-is_plain d h = ground arith

from_str_radix-hex :
    (b : ℕ) → b < 256 → from_str_radix (hex_digit (b / 16)) (hex_digit (b % 16)) ≡ some b
unfolding from_str_radix
from_str_radix-hex b h =
    let high = digit_value-hex_digit (b / 16) (omega arith) in
    let low = digit_value-hex_digit (b % 16) (omega arith) in
    let plain = (hex_digit-is_plain (b / 16) (omega arith)).1 in
    rw (plain, high, low) (ap some (omega arith))

boundary-hex : (id : Bytes) → All (λ b. b < 256) id → is_char_boundary (short_id_to_hex id) ≡ true
unfolding is_char_boundary short_id_to_hex
boundary-hex [] h = refl
boundary-hex (b ∷ id) h =
    let p = hex_digit-is_plain (b / 16) (let q = h.0 in omega arith) in ground arith

length-short_id_to_hex : (id : Bytes) → length (short_id_to_hex id) ≡ 2 * length id
unfolding short_id_to_hex
length-short_id_to_hex [] = refl
length-short_id_to_hex (b ∷ id) = omega (arith, length-short_id_to_hex id)

hex_pairs-short_id_to_hex :
    (id : Bytes)
    → All (λ b. b < 256) id
    → hex_pairs (length id) (short_id_to_hex id) ≡ ret (some id)
unfolding hex_pairs short_id_to_hex
hex_pairs-short_id_to_hex [] h = refl
hex_pairs-short_id_to_hex (b ∷ id) h =
    let here : is_char_boundary (hex_digit (b / 16) ∷ hex_digit (b % 16) ∷ short_id_to_hex id)
        ≡ true =
      unfold short_id_to_hex in boundary-hex (b ∷ id) h in
    rw (here, boundary-hex id h.1, from_str_radix-hex b h.0, hex_pairs-short_id_to_hex id h.1) refl

pub address_back :
    (source : Bytes)
    → length source ≡ 8
    → All (λ b. b < 256) source
    → hex_to_short_id (short_id_to_hex source) ≡ ret (some source)
unfolding hex_to_short_id
address_back source hs bytes =
    let pairs : hex_pairs 8 (short_id_to_hex source) ≡ ret (some source) =
      ap (λ n. hex_pairs n (short_id_to_hex source)) (sym hs)
      ∙ hex_pairs-short_id_to_hex source bytes in
    ground (arith, length-short_id_to_hex source, pairs)

pub header_back :
    (dest source payload : Bytes)
    → length dest ≡ 8
    → length source ≡ 8
    → decode_header (encode_header dest source ++ payload) ≡ ret (some (dest, source, payload))
unfolding decode_header encode_header
header_back dest source payload hd hs =
    let packet = (dest ++ source) ++ payload in
    let split : packet ≡ dest ++ (source ++ payload) = append_assoc dest source payload in
    let first : slice packet 0 8 ≡ ret dest =
      ap (λ p. slice p 0 8) split ∙ slice_prefix dest (source ++ payload) 8 hd in
    let second : slice packet 8 16 ≡ ret source =
      ap (λ p. slice p 8 16) split
      ∙ ap₂ (slice (dest ++ (source ++ payload))) (sym hd)
          (let q : 16 ≡ length dest + 8 = omega arith in q)
      ∙ slice_front dest source payload 8 hs in
    let both : length (dest ++ source) ≡ 16 = omega (arith, length-append dest source) in
    let third : slice packet 16 (length packet) ≡ ret payload =
      slice_suffix (dest ++ source) payload 16 both in
    let long = length-append (dest ++ source) payload in
    rw (ge→ltb (length packet) 16 (omega arith), first, second, third) refl

-- A peer can announce an address that no node can dial: 16 bytes of UTF-8 whose third byte is
-- inside a character. The receiver of the exchange accepts it, and dialling it panics.
pub hex_to_short_id-panics :
    (a b c : ℕ) (rest : Bytes)
    → length rest ≡ 13
    → is_utf8 (a ∷ b ∷ c ∷ rest) ≡ true
    → 128 ≤ c
    → c < 192
    → let id = a ∷ b ∷ c ∷ rest in
      (decode_addr_exchange (encode_addr_exchange (PeerAddress.ble_advertising id ∷ []))
        ≡ ret (some (PeerAddress.ble_advertising id ∷ [])))
      × (hex_to_short_id id ≡ panic)
unfolding hex_to_short_id hex_pairs is_char_boundary
hex_to_short_id-panics a b c rest e u low high =
    let id = a ∷ b ∷ c ∷ rest in
    let whole : take 255 id ≡ id = take_of_length-le 255 id (omega arith) in
    (
      decode-encode (PeerAddress.ble_advertising id ∷ []) (ap is_utf8 whole ∙ u, tt)
          ∙ ap (λ i. ret (some (PeerAddress.ble_advertising i ∷ []))) whole,
      ground arith,
    )
