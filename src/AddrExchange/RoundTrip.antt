-- ===== src/AddrExchange/RoundTrip.antt =====
-- `decode_addr_exchange` reads what `encode_addr_exchange` wrote.
use pathweave.Base.{
  ℕ, ◌/◌, ◌%◌, ◌^◌, ◌<◌, true, ◌≡◌, refl, sym, ap, ap₂, ◌∙◌, List, [], ◌∷◌, ◌++◌, map, append_assoc,
  append-nil, some, arith, length, take, All, length-append, suc, ◌+◌, min, length-take, eqb_refl,
}
use pathweave.Types.{Bytes, bytes_eq, v4, v6, PeerAddress}
use pathweave.Bytes.{ret, to_be_bytes}
use pathweave.Bytes.Utf8.{is_utf8}
use pathweave.Bytes.Laws.{from_be_bytes-to_be_bytes_two, index_front, slice_prefix}
use pathweave.AddrExchange.{
  encode_id, encode_addr, encode_addrs, Turn, decode_id, decode_tagged, decode_entry, decode_loop,
  addr_exchange_ctrl, decode_addr_exchange, encode_addr_exchange,
}
use pathweave.AddrExchange.Entry.{
  IsWire, received, encode_id_lem, decode_entry_tagged, decode_v4_lem, decode_v6_lem, decode_id_lem,
}

-- An entry as the decoder leaves it: the address, and the position behind it.
abbrev reads : Bytes → PeerAddress → Turn
reads behind a = ret (some (a, length behind))

id_entry :
    (mk : Bytes → PeerAddress) (pre : Bytes) (tag : ℕ) (id rest : Bytes)
    → ((bytes : Bytes) (pos : ℕ) → decode_tagged tag bytes pos ≡ decode_id mk bytes pos)
    → is_utf8 (take 255 id) ≡ true
    → decode_entry (pre ++ (encode_id tag id ++ rest)) (length pre)
      ≡ reads (pre ++ encode_id tag id) (mk (take 255 id))
id_entry mk pre tag id rest tagged u =
    let t = take 255 id in
    rw (encode_id_lem tag id) (
      decode_entry_tagged pre tag (length t ∷ (t ++ rest))
      ∙ tagged _ _
      ∙ decode_id_lem (pre ++ tag ∷ []) mk t rest u
      ∙ ap (λ n. ret (some (mk t, n)))
          (omega (arith, length-append pre (tag ∷ []), length-append pre (tag ∷ length t ∷ t))))

v4_entry :
    (pre octets : Bytes) (port : ℕ) (rest : Bytes)
    → length octets ≡ 4
    → port < 65536
    → decode_entry (pre ++ (encode_addr (PeerAddress.quic (v4 octets port)) ++ rest)) (length pre)
      ≡ reads
          (pre ++ encode_addr (PeerAddress.quic (v4 octets port)))
          (PeerAddress.quic (v4 octets port))
unfolding encode_addr decode_tagged to_be_bytes
v4_entry pre (a ∷ b ∷ c ∷ d ∷ []) port rest e p =
    let high = port / 256 ^ 1 % 256 in
    let low = port / 256 ^ 0 % 256 in
    decode_entry_tagged pre 0x00 (a ∷ b ∷ c ∷ d ∷ high ∷ low ∷ rest)
    ∙ decode_v4_lem (pre ++ 0x00 ∷ []) a b c d high low rest
    ∙ ap₂ (λ q n. ret (some (PeerAddress.quic (v4 (a ∷ b ∷ c ∷ d ∷ []) q), n)))
        (unfold to_be_bytes in from_be_bytes-to_be_bytes_two port p)
        (omega (
          arith,
          length-append pre (0x00 ∷ []),
          length-append pre (0x00 ∷ a ∷ b ∷ c ∷ d ∷ high ∷ low ∷ []),
        ))
v4_entry pre octets port rest e p = absurd (omega arith)

v6_entry :
    (pre octets : Bytes) (port flowinfo scope_id : ℕ) (rest : Bytes)
    → length octets ≡ 16
    → port < 65536
    → decode_entry
        (pre ++ (encode_addr (PeerAddress.quic (v6 octets port flowinfo scope_id)) ++ rest))
        (length pre)
      ≡ reads
          (pre ++ encode_addr (PeerAddress.quic (v6 octets port flowinfo scope_id)))
          (PeerAddress.quic (v6 octets port 0 0))
unfolding encode_addr decode_tagged to_be_bytes
v6_entry pre octets port flowinfo scope_id rest e p =
    let high = port / 256 ^ 1 % 256 in
    let low = port / 256 ^ 0 % 256 in
    ap (λ l. decode_entry (pre ++ 0x01 ∷ l) (length pre))
      (append_assoc octets (high ∷ low ∷ []) rest)
    ∙ decode_entry_tagged pre 0x01 (octets ++ high ∷ low ∷ rest)
    ∙ decode_v6_lem (pre ++ 0x01 ∷ []) octets high low rest e
    ∙ ap₂ (λ q n. ret (some (PeerAddress.quic (v6 octets q 0 0), n)))
        (unfold to_be_bytes in from_be_bytes-to_be_bytes_two port p)
        (omega (
          arith,
          length-append pre (0x01 ∷ []),
          length-append pre (0x01 ∷ (octets ++ high ∷ low ∷ [])),
          length-append octets (high ∷ low ∷ []),
        ))

entry :
    (pre : Bytes) (a : PeerAddress) (rest : Bytes)
    → IsWire a
    → decode_entry (pre ++ (encode_addr a ++ rest)) (length pre)
      ≡ reads (pre ++ encode_addr a) (received a)
unfolding encode_addr decode_tagged
entry pre (PeerAddress.quic (v4 octets port)) rest w = v4_entry pre octets port rest w.0 w.1
entry pre (PeerAddress.quic (v6 octets port flowinfo scope_id)) rest w =
    v6_entry pre octets port flowinfo scope_id rest w.0 w.1
entry pre (PeerAddress.ble id) rest w = id_entry PeerAddress.ble pre 0x02 id rest (λ _ _. refl) w
entry pre (PeerAddress.wifi_direct id) rest w =
    id_entry PeerAddress.wifi_direct pre 0x03 id rest (λ _ _. refl) w
entry pre (PeerAddress.ble_advertising id) rest w =
    id_entry PeerAddress.ble_advertising pre 0x04 id rest (λ _ _. refl) w

one :
    (count : ℕ) (pre : Bytes) (a : PeerAddress) (rest : Bytes) (done : List PeerAddress)
    → IsWire a
    → decode_loop (suc count) (pre ++ (encode_addr a ++ rest)) (length pre) done
      ≡ decode_loop count
          ((pre ++ encode_addr a) ++ rest)
          (length (pre ++ encode_addr a))
          (done ++ received a ∷ [])
unfolding decode_loop
one count pre a rest done w = rw (entry pre a rest w) (
    ap (λ l. decode_loop count l (length (pre ++ encode_addr a)) (done ++ received a ∷ []))
      (sym (append_assoc pre (encode_addr a) rest)))

-- After the entries `addrs` the loop goes on with what follows them.
pub loop :
    (pre rest : Bytes) (addrs done : List PeerAddress) (n : ℕ)
    → All IsWire addrs
    → decode_loop (length addrs + n) (pre ++ (encode_addrs addrs ++ rest)) (length pre) done
      ≡ decode_loop n
          ((pre ++ encode_addrs addrs) ++ rest)
          (length (pre ++ encode_addrs addrs))
          (done ++ map received addrs)
unfolding encode_addrs
loop pre rest [] done n w =
    let e : 0 + n ≡ n = omega arith in
    rw (append-nil pre, append-nil done) (ap (λ k. decode_loop k (pre ++ rest) (length pre) done) e)
loop pre rest (a ∷ addrs) done n w =
    let e : length (a ∷ addrs) + n ≡ suc (length addrs + n) = omega arith in
    let behind = pre ++ encode_addr a in
    let more = encode_addrs addrs in
    ap₂ (λ k l. decode_loop k (pre ++ l) (length pre) done) e
      (append_assoc (encode_addr a) more rest)
    ∙ one (length addrs + n) pre a (more ++ rest) done w.0
    ∙ loop behind rest addrs (done ++ received a ∷ []) n w.1
    ∙ ap₂ (λ l d. decode_loop n (l ++ rest) (length l) d) (append_assoc pre (encode_addr a) more)
        (append_assoc done (received a ∷ []) (map received addrs))

-- The frame in the form that the loop reads: control bytes and count, then the entries.
pub header : ℕ → Bytes
header count = addr_exchange_ctrl ++ count ∷ []

pub decode_frame :
    (count : ℕ) (body : Bytes)
    → decode_addr_exchange (addr_exchange_ctrl ++ count ∷ body)
      ≡ decode_loop count (header count ++ body) (length (header count)) []
unfolding decode_addr_exchange header
decode_frame count body = ground (
  arith,
  slice_prefix addr_exchange_ctrl (count ∷ body) 8 refl,
  index_front addr_exchange_ctrl count body,
  eqb_refl addr_exchange_ctrl,
)

-- A receiver decodes the frame that a sender encoded to the sender's first 255 addresses, with
-- identifiers cut at 255 bytes and without the flow information and scope of IPv6 addresses, if
-- those addresses have the octets of their family, a 16-bit port and identifiers that are UTF-8 up
-- to the cut.
pub decode-encode :
    (addrs : List PeerAddress)
    → All IsWire (take 255 addrs)
    → decode_addr_exchange (encode_addr_exchange addrs) ≡ ret (some (map received (take 255 addrs)))
unfolding encode_addr_exchange
decode-encode addrs w =
    let sent = take 255 addrs in
    let front = header (min (length addrs) 255) in
    let n : min (length addrs) 255 ≡ length sent + 0 = omega (arith, length-take 255 addrs) in
    decode_frame (min (length addrs) 255) (encode_addrs sent)
    ∙ ap₂ (λ k l. decode_loop k (front ++ l) (length front) []) n
        (sym (append-nil (encode_addrs sent)))
    ∙ loop front [] sent [] 0 w
    ∙ unfold decode_loop in refl
