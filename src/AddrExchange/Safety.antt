-- ===== src/AddrExchange/Safety.antt =====
-- The decoder never reads out of range, whatever bytes arrive.
use pathweave.Base.{
  ℕ, zero, suc, ◌+◌, ◌≤◌, ◌≡◌, ◌⊎◌, refl, sym, ap, ◌∙◌, subst, List, [], ◌∷◌, ◌++◌, Option, none,
  some, arith, inl, inr, lt→ltb, ge→ltb, Bool-cases, length, take, length-append, ◌=?◌, dec_lt,
}
use pathweave.Types.{Bytes, bytes_eq, PeerAddress}
use pathweave.Bytes.{Fault, panic, ret, index}
use pathweave.Bytes.Utf8.{from_utf8}
use pathweave.Bytes.Laws.{index-lt, slice-le}
use pathweave.AddrExchange.{
  addr_exchange_ctrl, Turn, decode_v4, decode_v6, decode_id, decode_tagged, decode_entry,
  decode_loop, decode_addr_exchange,
}

-- A turn that does not panic, and leaves the position between two bounds.
abbrev pub Lands : ℕ → ℕ → Turn → Type 0
Lands lo hi panic = ⊥
Lands lo hi (ret none) = Unit
Lands lo hi (ret (some (a, pos))) = (lo ≤ pos) × (pos ≤ hi)

Lands-cases :
    (lo hi : ℕ) (t : Turn)
    → Lands lo hi t
    → (t ≡ ret none) ⊎ ((a : PeerAddress) × (pos : ℕ) × (t ≡ ret (some (a, pos))))
Lands-cases lo hi panic l = absurd l
Lands-cases lo hi (ret none) l = inl refl
Lands-cases lo hi (ret (some (a, pos))) l = inr (a, pos, refl)

module _ (bytes : Bytes) where
  decode_v4-Lands : (pos : ℕ) → Lands pos (length bytes) (decode_v4 bytes pos)
  unfolding decode_v4
  decode_v4-Lands pos = elim (dec_lt (length bytes) (pos + 6)) [
    | yes short ↦ rw (lt→ltb (length bytes) (pos + 6) short) tt
    | no long ↦
        let r0 = index-lt bytes pos (omega arith) in
        let r1 = index-lt bytes (pos + 1) (omega arith) in
        let r2 = index-lt bytes (pos + 2) (omega arith) in
        let r3 = index-lt bytes (pos + 3) (omega arith) in
        let r4 = index-lt bytes (pos + 4) (omega arith) in
        let r5 = index-lt bytes (pos + 5) (omega arith) in
        rw (ge→ltb (length bytes) (pos + 6) (omega arith), r0.1, r1.1, r2.1, r3.1, r4.1, r5.1)
          (omega arith, omega arith)
  ]

  decode_v6-Lands : (pos : ℕ) → Lands pos (length bytes) (decode_v6 bytes pos)
  unfolding decode_v6
  decode_v6-Lands pos = elim (dec_lt (length bytes) (pos + 18)) [
    | yes short ↦ rw (lt→ltb (length bytes) (pos + 18) short) tt
    | no long ↦
        let r = slice-le bytes pos (pos + 16) (omega arith) (omega arith) in
        let r0 = index-lt bytes (pos + 16) (omega arith) in
        let r1 = index-lt bytes (pos + 17) (omega arith) in
        rw (ge→ltb (length bytes) (pos + 18) (omega arith), r, r0.1, r1.1)
          (omega arith, omega arith)
  ]

  decode_id-Lands :
      (mk : Bytes → PeerAddress) (pos : ℕ) → Lands pos (length bytes) (decode_id mk bytes pos)
  unfolding decode_id from_utf8
  decode_id-Lands mk pos = elim (dec_lt pos (length bytes)) [
    | no past ↦ ground arith
    | yes inside ↦
        let (len, e) = index-lt bytes pos inside in
        ground (arith, e, slice-le bytes (pos + 1) (pos + 1 + len))
  ]

  decode_tagged-Lands : (tag pos : ℕ) → Lands pos (length bytes) (decode_tagged tag bytes pos)
  unfolding decode_tagged
  decode_tagged-Lands tag pos = ground (
    arith,
    decode_v4-Lands pos,
    decode_v6-Lands pos,
    decode_id-Lands PeerAddress.ble pos,
    decode_id-Lands PeerAddress.wifi_direct pos,
    decode_id-Lands PeerAddress.ble_advertising pos,
  )

  decode_entry-Lands : (pos : ℕ) → Lands (pos + 1) (length bytes) (decode_entry bytes pos)
  unfolding decode_entry
  decode_entry-Lands pos = elim (dec_lt pos (length bytes)) [
    | no past ↦ ground arith
    | yes inside ↦
        let (tag, e) = index-lt bytes pos inside in
        let tagged = decode_tagged-Lands tag (pos + 1) in ground (arith, e)
  ]

  -- With `n` rounds to go the loop returns, and pushes exactly `n` more addresses or rejects.
  abbrev Returns : ℕ → Fault (Option (List PeerAddress)) → Type 0
  Returns n panic = ⊥
  Returns n (ret none) = Unit
  Returns n (ret (some addrs)) = length addrs ≡ n

  decode_loop-Returns :
      (n pos : ℕ) (done : List PeerAddress)
      → Returns (length done + n) (decode_loop n bytes pos done)
  unfolding decode_loop
  decode_loop-Returns zero pos done = omega arith
  decode_loop-Returns (suc n) pos done =
      elim (Lands-cases (pos + 1) (length bytes) (decode_entry bytes pos)
        (decode_entry-Lands pos)) [
          | inl e ↦ rw e tt
          | inr (a, pos', e) ↦
              let total : length (done ++ a ∷ []) + n ≡ length done + suc n =
                omega (arith, length-append done (a ∷ [])) in
              rw e (
                subst (λ k. Returns k (decode_loop n bytes pos' (done ++ a ∷ []))) total
                  (decode_loop-Returns n pos' (done ++ a ∷ [])))
        ]

  loop_cases :
      (n pos : ℕ)
      → (decode_loop n bytes pos [] ≡ ret none)
        ⊎ ((addrs : List PeerAddress) × (decode_loop n bytes pos [] ≡ ret (some addrs))
            × (length addrs ≡ n))
  loop_cases n pos = go (decode_loop n bytes pos []) (decode_loop-Returns n pos [])
    where
      go :
          (r : Fault (Option (List PeerAddress)))
          → Returns (0 + n) r
          → (r ≡ ret none)
            ⊎ ((addrs : List PeerAddress) × (r ≡ ret (some addrs)) × (length addrs ≡ n))
      go panic h = absurd h
      go (ret none) h = inl refl
      go (ret (some addrs)) h = inr (addrs, refl, omega arith)

  frame_cases :
      (count : ℕ)
      → 9 ≤ length bytes
      → index bytes 8 ≡ ret count
      → (decode_addr_exchange bytes ≡ ret none)
        ⊎ (decode_addr_exchange bytes ≡ decode_loop count bytes 9 [])
  unfolding decode_addr_exchange
  frame_cases count long e =
      ground (arith, e, slice-le bytes 0 8, Bool-cases (take 8 bytes =? addr_exchange_ctrl))

-- Whatever bytes arrive, the decoder reads none out of range: it returns, and either rejects the
-- frame or yields exactly as many addresses as the count byte at position 8 says.
pub decode_addr_exchange-Returns :
    (bytes : Bytes)
    → (decode_addr_exchange bytes ≡ ret none)
      ⊎ ((addrs : List PeerAddress) × (decode_addr_exchange bytes ≡ ret (some addrs))
          × (index bytes 8 ≡ ret (length addrs)))
decode_addr_exchange-Returns bytes = elim (dec_lt (length bytes) 9) [
  | yes short ↦ inl (unfold decode_addr_exchange in rw (lt→ltb (length bytes) 9 short) refl)
  | no long ↦
      let (count, e) = index-lt bytes 8 (omega arith) in
      elim (frame_cases bytes count (omega arith) e) [
        | inl rejected ↦ inl rejected
        | inr goes_on ↦ elim (loop_cases bytes count 9) [
          | inl rejected ↦ inl (goes_on ∙ rejected)
          | inr (addrs, r, n) ↦ inr (addrs, goes_on ∙ r, e ∙ ap ret (sym n))
        ]
      ]
]
