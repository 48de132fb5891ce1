-- ===== src/AddrExchange.antt =====
-- The address exchange frame of crates/pathweave-core/src/router.rs (ADR 017):
-- `encode_addr_exchange`, `decode_addr_exchange`.
-- The decoder keeps the source's position and its reads, which panic out of range.
pub mod Entry
pub mod RoundTrip
pub mod Cut
pub mod Safety
use mathlib.Core.Option
use pathweave.Base.{
  ℕ, zero, suc, ◌+◌, min, List, [], ◌∷◌, ◌++◌, map, Option, none, some, ltb, leb, ◌==◌,
  if◌then◌else◌, length, take, ◌=?◌,
}
use pathweave.Types.{Bytes, bytes_eq, v4, v6, PeerAddress}
use pathweave.Bytes.{Fault, ret, ◌>>=◌, index, slice, to_be_bytes, from_be_bytes}
use pathweave.Bytes.Utf8.{from_utf8}

abbrev pub addr_exchange_ctrl : Bytes
addr_exchange_ctrl = 0 ∷ 0 ∷ 0 ∷ 0 ∷ 0 ∷ 0 ∷ 0 ∷ 1 ∷ []

-- `len` is `bytes.len().min(255) as u8`.
unfoldable pub encode_id : ℕ → Bytes → Bytes
encode_id tag id = let len = min (length id) 255 in tag ∷ len ∷ take len id

unfoldable pub encode_addr : PeerAddress → Bytes
encode_addr (PeerAddress.quic (v4 octets port)) = 0x00 ∷ octets ++ to_be_bytes 2 port
encode_addr (PeerAddress.quic (v6 octets port flowinfo scope_id)) =
    0x01 ∷ octets ++ to_be_bytes 2 port
encode_addr (PeerAddress.ble id) = encode_id 0x02 id
encode_addr (PeerAddress.wifi_direct id) = encode_id 0x03 id
encode_addr (PeerAddress.ble_advertising id) = encode_id 0x04 id

unfoldable pub encode_addrs : List PeerAddress → Bytes
encode_addrs [] = []
encode_addrs (a ∷ addrs) = encode_addr a ++ encode_addrs addrs

unfoldable pub encode_addr_exchange : List PeerAddress → Bytes
encode_addr_exchange addrs =
    addr_exchange_ctrl ++ min (length addrs) 255 ∷ encode_addrs (take 255 addrs)

-- One turn of the decoder's loop: `none` where it returns `None`, else the address and the new
-- position.
abbrev pub Turn : Type 0
Turn = Fault (Option (PeerAddress × ℕ))

-- `pos` is behind the tag.
unfoldable pub decode_v4 : Bytes → ℕ → Turn
decode_v4 bytes pos = if ltb (length bytes) (pos + 6) then ret none else do
  a ← index bytes pos
  b ← index bytes (pos + 1)
  c ← index bytes (pos + 2)
  d ← index bytes (pos + 3)
  high ← index bytes (pos + 4)
  low ← index bytes (pos + 5)
  ret (
      some
        (PeerAddress.quic (v4 (a ∷ b ∷ c ∷ d ∷ []) (from_be_bytes 0 (high ∷ low ∷ []))), pos + 6))

unfoldable pub decode_v6 : Bytes → ℕ → Turn
decode_v6 bytes pos = if ltb (length bytes) (pos + 18) then ret none else do
  ip_bytes ← slice bytes pos (pos + 16)
  high ← index bytes (pos + 16)
  low ← index bytes (pos + 17)
  ret (some (PeerAddress.quic (v6 ip_bytes (from_be_bytes 0 (high ∷ low ∷ [])) 0 0), pos + 18))

unfoldable pub decode_id : (Bytes → PeerAddress) → Bytes → ℕ → Turn
decode_id mk bytes pos = if leb (length bytes) pos then ret none else do
  len ← index bytes pos
  if ltb (length bytes) (pos + 1 + len) then ret none else do
    raw ← slice bytes (pos + 1) (pos + 1 + len)
    ret (Option.map (λ id. (mk id, pos + 1 + len)) (from_utf8 raw))

-- The `match` on the tag.
unfoldable pub decode_tagged : ℕ → Bytes → ℕ → Turn
decode_tagged tag bytes pos =
    if tag == 0x00
    then decode_v4 bytes pos
    else if tag == 0x01
    then decode_v6 bytes pos
    else if tag == 0x02
    then decode_id PeerAddress.ble bytes pos
    else if tag == 0x03
    then decode_id PeerAddress.wifi_direct bytes pos
    else if tag == 0x04
    then decode_id PeerAddress.ble_advertising bytes pos
    else ret none

unfoldable pub decode_entry : Bytes → ℕ → Turn
decode_entry bytes pos =
    if leb (length bytes) pos
    then ret none
    else do tag ← index bytes pos; decode_tagged tag bytes (pos + 1)

-- `for _ in 0..count`, with the addresses pushed so far.
unfoldable pub decode_loop : ℕ → Bytes → ℕ → List PeerAddress → Fault (Option (List PeerAddress))
decode_loop zero bytes pos addrs = ret (some addrs)
decode_loop (suc count) bytes pos addrs = decode_entry bytes pos >>= elim [
  | none ↦ ret none
  | some (addr, pos') ↦ decode_loop count bytes pos' (addrs ++ addr ∷ [])
]

unfoldable pub decode_addr_exchange : Bytes → Fault (Option (List PeerAddress))
decode_addr_exchange bytes = if ltb (length bytes) 9 then ret none else do
  ctrl ← slice bytes 0 8
  if ctrl =? addr_exchange_ctrl
      then (do count ← index bytes 8; decode_loop count bytes 9 [])
      else ret none
