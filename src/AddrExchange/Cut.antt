-- ===== src/AddrExchange/Cut.antt =====
-- What a cut inside a character does to the frame.
use pathweave.Base.{
  ℕ, suc, ◌+◌, ◌-◌, ◌<◌, min, false, ◌≡◌, refl, sym, ap, ap₂, ◌∙◌, List, [], ◌∷◌, ◌++◌, map,
  append_assoc, none, arith, length, take, All, length-append, take-append_lt,
}
use pathweave.Types.{Bytes, bytes_eq, PeerAddress}
use pathweave.Bytes.{ret}
use pathweave.Bytes.Utf8.{is_utf8}
use pathweave.AddrExchange.{
  addr_exchange_ctrl, encode_id, encode_addr, encode_addrs, encode_addr_exchange, decode_id,
  decode_tagged, decode_entry, decode_loop, decode_addr_exchange,
}
use pathweave.AddrExchange.Entry.{
  IsWire, received, encode_id_lem, decode_entry_tagged, decode_id_fail,
}
use pathweave.AddrExchange.RoundTrip.{loop, header, decode_frame}

-- An identifier that is not UTF-8 when it is cut at 255 bytes.
abbrev pub IsCut : PeerAddress → Type 0
IsCut (PeerAddress.quic a) = ⊥
IsCut (PeerAddress.ble id) = is_utf8 (take 255 id) ≡ false
IsCut (PeerAddress.wifi_direct id) = is_utf8 (take 255 id) ≡ false
IsCut (PeerAddress.ble_advertising id) = is_utf8 (take 255 id) ≡ false

cut_id_entry :
    (mk : Bytes → PeerAddress) (pre : Bytes) (tag : ℕ) (id rest : Bytes)
    → ((bytes : Bytes) (pos : ℕ) → decode_tagged tag bytes pos ≡ decode_id mk bytes pos)
    → is_utf8 (take 255 id) ≡ false
    → decode_entry (pre ++ (encode_id tag id ++ rest)) (length pre) ≡ ret none
cut_id_entry mk pre tag id rest tagged u =
    let t = take 255 id in
    rw (encode_id_lem tag id) (
      decode_entry_tagged pre tag (length t ∷ (t ++ rest))
      ∙ tagged _ _
      ∙ decode_id_fail (pre ++ tag ∷ []) mk t rest u)

cut_entry :
    (pre : Bytes) (a : PeerAddress) (rest : Bytes)
    → IsCut a
    → decode_entry (pre ++ (encode_addr a ++ rest)) (length pre) ≡ ret none
unfolding encode_addr decode_tagged
cut_entry pre (PeerAddress.quic a) rest c = absurd c
cut_entry pre (PeerAddress.ble id) rest c =
    cut_id_entry PeerAddress.ble pre 0x02 id rest (λ _ _. refl) c
cut_entry pre (PeerAddress.wifi_direct id) rest c =
    cut_id_entry PeerAddress.wifi_direct pre 0x03 id rest (λ _ _. refl) c
cut_entry pre (PeerAddress.ble_advertising id) rest c =
    cut_id_entry PeerAddress.ble_advertising pre 0x04 id rest (λ _ _. refl) c

encode_addrs-append :
    (xs ys : List PeerAddress) → encode_addrs (xs ++ ys) ≡ encode_addrs xs ++ encode_addrs ys
unfolding encode_addrs
encode_addrs-append [] ys = refl
encode_addrs-append (x ∷ xs) ys =
    ap (◌++◌ (encode_addr x)) (encode_addrs-append xs ys)
    ∙ sym (append_assoc (encode_addr x) (encode_addrs xs) (encode_addrs ys))

-- The loop reads the entries before the cut one, and ends there.
cut_loop :
    (pre : Bytes) (before : List PeerAddress) (a : PeerAddress) (after : List PeerAddress) (n : ℕ)
    → All IsWire before
    → IsCut a
    → length before < n
    → decode_loop n (pre ++ encode_addrs (before ++ a ∷ after)) (length pre) [] ≡ ret none
cut_loop pre before a after n w c short =
    let e : n ≡ length before + suc (n - length before - 1) = omega arith in
    ap₂ (λ k l. decode_loop k (pre ++ l) (length pre) []) e (encode_addrs-append before (a ∷ after))
    ∙ loop pre (encode_addrs (a ∷ after)) before [] (suc (n - length before - 1)) w
    ∙ stops (n - length before - 1) (pre ++ encode_addrs before) (map received before)
  where
    stops :
        (k : ℕ) (front : Bytes) (done : List PeerAddress)
        → decode_loop (suc k) (front ++ encode_addrs (a ∷ after)) (length front) done ≡ ret none
    stops k front done =
        unfold decode_loop encode_addrs in rw (cut_entry front a (encode_addrs after) c)

-- One address among the first 255 whose identifier is cut inside a character makes the receiver
-- reject the frame, whatever comes behind it, if the addresses before it could all be decoded: it
-- learns none of them.
pub cut_id-loses_frame :
    (before : List PeerAddress) (a : PeerAddress) (behind : List PeerAddress)
    → All IsWire before
    → IsCut a
    → length before < 255
    → decode_addr_exchange (encode_addr_exchange (before ++ a ∷ behind)) ≡ ret none
unfolding encode_addr_exchange
cut_id-loses_frame before a behind w c short =
    let n = min (length (before ++ a ∷ behind)) 255 in
    let after = take (254 - length before) behind in
    ap (λ l. decode_addr_exchange (addr_exchange_ctrl ++ n ∷ encode_addrs l))
      (take-append_lt 255 before a behind short)
    ∙ decode_frame n (encode_addrs (before ++ a ∷ after))
    ∙ cut_loop (header n) before a after n w c (omega (arith, length-append before (a ∷ behind)))
