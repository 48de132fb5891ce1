-- ===== src/Transport/Advertising.antt =====
-- crates/pathweave-transport-ble/src/advertising.rs: packets of a broadcast medium, addressed by
-- short ids, and the virtual connections over it. `hash_payload` is a parameter.
pub mod Codec
pub mod Medium
use mathlib.Core.Option
use pathweave.Base.{
  ℕ, zero, suc, ◌+◌, ◌-◌, ◌*◌, ◌/◌, ◌%◌, Bool, true, not, ◌&&◌, [], ◌∷◌, ◌++◌, map, Option, none,
  some, ltb, leb, ◌==◌, if◌then◌else◌, length,
}
use pathweave.Types.{Bytes, bytes_eq}
use pathweave.Bytes.{Fault, panic, ret, ◌>>=◌, slice}
use pathweave.Types.{PeerAddress-eq}

abbrev pub header_len : ℕ
header_len = 16

unfoldable pub encode_header : Bytes → Bytes → Bytes
encode_header dest source = dest ++ source

unfoldable pub decode_header : Bytes → Fault (Option (Bytes × Bytes × Bytes))
decode_header bytes = if ltb (length bytes) header_len then ret none else do
  dest ← slice bytes 0 8
  source ← slice bytes 8 16
  rest ← slice bytes header_len (length bytes)
  ret (some (dest, source, rest))

-- One lower-case hexadecimal digit, and `{:02x}` of a byte.
unfoldable pub hex_digit : ℕ → ℕ
hex_digit d = if ltb d 10 then 48 + d else 87 + d

unfoldable pub short_id_to_hex : Bytes → Bytes
short_id_to_hex [] = []
short_id_to_hex (b ∷ id) = hex_digit (b / 16) ∷ hex_digit (b % 16) ∷ short_id_to_hex id

-- `char::to_digit(16)`.
unfoldable pub digit_value : ℕ → Option ℕ
digit_value c =
    if leb 48 c && leb c 57
    then some (c - 48)
    else if leb 97 c && leb c 102
    then some (c - 87)
    else if leb 65 c && leb c 70
    then some (c - 55)
    else none

-- `u8::from_str_radix(_, 16)` of two bytes: two digits, or a plus sign and one.
unfoldable pub from_str_radix : ℕ → ℕ → Option ℕ
from_str_radix high low = if high == 43 then digit_value low else elim (digit_value high) [
  | none ↦ none
  | some h ↦ elim (digit_value low) [ none ↦ none | some l ↦ some (16 * h + l) ]
]

-- Whether `text` may be cut in front of `rest`: a `str` index inside a character panics.
unfoldable pub is_char_boundary : Bytes → Bool
is_char_boundary [] = true
is_char_boundary (b ∷ rest) = not (leb 128 b && ltb b 192)

-- The loop over the pairs of `hex`, with `n` pairs to go.
unfoldable pub hex_pairs : ℕ → Bytes → Fault (Option Bytes)
hex_pairs zero rest = ret (some [])
hex_pairs (suc n) (high ∷ low ∷ rest) =
    if is_char_boundary (high ∷ low ∷ rest) && is_char_boundary rest
    then elim (from_str_radix high low) [
      | none ↦ ret none
      | some byte ↦ do bytes ← hex_pairs n rest; ret (Option.map (λ bs. byte ∷ bs) bytes)
    ]
    else panic
hex_pairs (suc n) _ = panic

unfoldable pub hex_to_short_id : Bytes → Fault (Option Bytes)
hex_to_short_id hex = if not (length hex == 16) then ret none else hex_pairs 8 hex
