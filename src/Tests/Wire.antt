-- ===== src/Tests/Wire.antt =====
-- Examples on frames and their decoding.
use pathweave.Base.{
  ◌≡◌, ◌⊎◌, refl, List, [], ◌∷◌, ◌++◌, map, none, some, arith, length, take, replicate,
}
use pathweave.Types.{Bytes, bytes_eq, PeerAddress}
use pathweave.Bytes.{ret, index}
use pathweave.Bytes.Utf8.{is_utf8, followers}
use pathweave.AddrExchange.{addr_exchange_ctrl, encode_addr_exchange, decode_addr_exchange}
use pathweave.Tests.Data.{at_home, message}
use pathweave.AddrExchange.Entry.{received}
use pathweave.AddrExchange.RoundTrip.{decode-encode}
use pathweave.AddrExchange.Cut.{cut_id-loses_frame}
use pathweave.AddrExchange.Safety.{decode_addr_exchange-Returns}

abbrev addrs : List PeerAddress
addrs = at_home ∷ PeerAddress.ble message ∷ []

decode-encode_example :
    decode_addr_exchange (encode_addr_exchange addrs) ≡ ret (some (map received (take 255 addrs)))
unfolding is_utf8 followers
decode-encode_example = decode-encode addrs ((refl, omega arith), (refl, tt))

-- 254 letters and an `é`.
abbrev long_id : Bytes
long_id = replicate 254 97 ++ 0xC3 ∷ 0xA9 ∷ []

cut_id-loses_frame_example :
    decode_addr_exchange (encode_addr_exchange (addrs ++ PeerAddress.ble long_id ∷ [])) ≡ ret none
unfolding is_utf8 followers
cut_id-loses_frame_example =
    cut_id-loses_frame addrs (PeerAddress.ble long_id) [] ((refl, omega arith), (refl, tt)) refl
      (omega arith)

decode_addr_exchange-Returns_example :
    (decode_addr_exchange (addr_exchange_ctrl ++ 1 ∷ 2 ∷ 200 ∷ []) ≡ ret none)
    ⊎ ((addrs : List PeerAddress) × (decode_addr_exchange (addr_exchange_ctrl ++ 1 ∷ 2 ∷ 200 ∷ [])
          ≡ ret (some addrs))
        × (index (addr_exchange_ctrl ++ 1 ∷ 2 ∷ 200 ∷ []) 8 ≡ ret (length addrs)))
decode_addr_exchange-Returns_example =
    decode_addr_exchange-Returns (addr_exchange_ctrl ++ 1 ∷ 2 ∷ 200 ∷ [])
