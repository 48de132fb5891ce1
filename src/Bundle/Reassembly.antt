-- ===== src/Bundle/Reassembly.antt =====
-- The receiver puts together what the sender took apart.
use pathweave.Base.{
  ◌||◌, ◌==◌, leb, ◌⊎◌, nat_eq, ℕ, ◌+◌, ◌≤◌, ◌<◌, false, ◌≡◌, refl, sym, ap, ◌∙◌, List, [], ◌∷◌,
  ◌++◌, append_assoc, append-nil, none, some, arith, length, All, zero, suc, map, Option, inl, inr,
  List-cases, take, drop, length-take, length-drop, take-append-drop, ◌-◌, Bool-cases,
}
use pathweave.Base.Map
use pathweave.Base.Map.{Map}
use pathweave.Types.{Bytes, bytes_eq, ok, Result}
use pathweave.Bundle.{
  received, joined, PendingBundle, or_insert, accept, Bpv7, fragment, fragments, recv_one,
  recv_bytes, send_each, fragment_header_overhead, unfragmented, send_bytes,
}
use pathweave.Bundle.Collect.{
  joined_last, Collects, or_insert-insert, amount, accept_last, accept_more, All-below,
}

module _ (to_cbor : Bpv7 → Bytes) (try_from : Bytes → Option Bpv7)
    (decodes : (b : Bpv7) → try_from (to_cbor b) ≡ some b) where
  recv_fragment :
      (pending : Map ℕ PendingBundle) (seq total offset : ℕ) (chunk : Bytes)
      → recv_one to_cbor try_from pending (to_cbor (fragment seq total offset chunk))
        ≡ accept pending seq offset total chunk
  unfolding recv_one fragment
  recv_fragment pending seq total offset chunk =
      ground (arith, decodes (fragment seq total offset chunk))

  recv_stop :
      (pending : Map ℕ PendingBundle) (raw : Bytes) (raws : List Bytes) (r : Result Bytes)
      → (recv_one to_cbor try_from pending raw).1 ≡ some r
      → (recv_bytes to_cbor try_from pending (raw ∷ raws)).1 ≡ some r
  unfolding recv_bytes
  recv_stop pending raw raws r e = rw (recv_bytes, e) refl

  recv_go :
      (pending next : Map ℕ PendingBundle) (raw : Bytes) (raws : List Bytes)
      → recv_one to_cbor try_from pending raw ≡ (next, none)
      → recv_bytes to_cbor try_from pending (raw ∷ raws) ≡ recv_bytes to_cbor try_from next raws
  unfolding recv_bytes
  recv_go pending next raw raws e = ground (arith, e)

  recv_fragments :
      (fuel max seq total offset : ℕ) (b : ℕ) (rest : Bytes) (pending : Map ℕ PendingBundle)
      (done : List (ℕ × Bytes))
      → 0 < max
      → length (b ∷ rest) ≤ fuel
      → total ≡ offset + length (b ∷ rest)
      → Collects seq total done pending
      → All (λ f. f.0 < offset) done
      → received done ≡ offset
      → (recv_bytes to_cbor try_from pending
          (map to_cbor (fragments fuel max seq total offset (b ∷ rest)))).1
        ≡ some (ok (joined done ++ b ∷ rest))
  unfolding fragments
  recv_fragments (suc fuel) zero seq total offset b rest pending done pos enough t c below so_far =
      absurd (omega arith)
  recv_fragments zero max seq total offset b rest pending done pos fuel t c below so_far =
      absurd (omega arith)
  recv_fragments (suc fuel) (suc max) seq total offset b rest pending done pos enough t c below
        so_far =
      let chunk = take (suc max) (b ∷ rest) in
      let left = drop (suc max) (b ∷ rest) in
      let size = length-drop (suc max) (b ∷ rest) in
      let cut = length-take (suc max) (b ∷ rest) in
      let whole = take-append-drop (suc max) (b ∷ rest) in
      elim (List-cases left) [
        | inl nothing ↦
            let empty = ap length nothing in
            let all : chunk ≡ b ∷ rest =
              sym (append-nil chunk) ∙ ap (λ l. chunk ++ l) (sym nothing) ∙ whole in
            recv_stop pending (to_cbor (fragment seq total offset chunk)) _
              (ok (joined done ++ b ∷ rest))
              (ap (λ r. r.1) (recv_fragment pending seq total offset chunk)
                ∙ accept_last seq total pending done offset chunk c below so_far (omega arith)
                ∙ ap (λ l. some (ok (joined done ++ l))) all)
        | inr (d, ds, more) ↦
            let some_left = ap length more in
            let done' = done ++ (offset, chunk) ∷ [] in
            let next : Map ℕ PendingBundle =
              Map.insert seq (record { total_data_length = total; fragments = done' }) pending in
            let go =
              recv_fragments fuel (suc max) seq total (offset + length chunk) d ds next done' pos
                (omega arith) (omega arith)
                (or_insert-insert seq total
                  (record { total_data_length = total; fragments = done' }) pending)
                (All-below offset (offset + length chunk) chunk done (omega arith) below)
                (amount seq total pending done offset chunk c below so_far) in
            let text : joined done' ++ d ∷ ds ≡ joined done ++ b ∷ rest =
              ap (λ l. l ++ d ∷ ds) (joined_last done offset chunk)
              ∙ append_assoc (joined done) chunk (d ∷ ds)
              ∙ ap (λ l. joined done ++ (chunk ++ l)) (sym more)
              ∙ ap (λ l. joined done ++ l) whole in
            ap (λ r. r.1)
              (recv_go pending next (to_cbor (fragment seq total offset chunk)) _ (
                recv_fragment pending seq total offset chunk
                ∙ accept_more seq total pending done offset chunk c below so_far (omega arith)))
            ∙ ap
                (λ l.
                  (recv_bytes to_cbor try_from next
                    (map to_cbor (fragments fuel (suc max) seq total (offset + length chunk) l))).1)
                more
            ∙ go
            ∙ ap (λ l. some (ok l)) text
      ]

  send_all :
      (accepts : Bytes → Result (Unit {0})) (frames : List Bytes)
      → ((frame : Bytes) → accepts frame ≡ ok tt)
      → send_each accepts frames ≡ (frames, ok tt)
  unfolding send_each
  send_all accepts [] h = refl
  send_all accepts (frame ∷ frames) h =
      let rest = send_all accepts frames h in ground (arith, h frame)

  recv_whole :
      (pending : Map ℕ PendingBundle) (seq : ℕ) (bytes : Bytes)
      → (recv_one to_cbor try_from pending (to_cbor (unfragmented seq bytes))).1 ≡ some (ok bytes)
  unfolding recv_one unfragmented
  recv_whole pending seq bytes = ground (arith, decodes (unfragmented seq bytes))

  -- What a sender hands over for `bytes`, whole or in fragments, and whatever the MTU, makes the
  -- receiver return `bytes`, where the connection accepts every frame, the bundles are decoded as
  -- they were encoded, the receiver holds no fragments under the sequence number, there is
  -- something to send, and the MTU is unlimited or leaves room for a byte of payload in a fragment.
  pub recv_bytes-send_bytes :
      (accepts : Bytes → Result (Unit {0})) (mtu seq : ℕ) (bytes : Bytes)
      (pending : Map ℕ PendingBundle)
      → ((frame : Bytes) → accepts frame ≡ ok tt)
      → Map.get seq pending ≡ none
      → (mtu ≡ 0) ⊎ (fragment_header_overhead to_cbor try_from seq (length bytes) < mtu)
      → 0 < length bytes
      → ((send_bytes to_cbor try_from accepts mtu seq bytes).1.1 ≡ ok tt)
        × ((recv_bytes to_cbor try_from pending
              (send_bytes to_cbor try_from accepts mtu seq bytes).1.0).1
            ≡ some (ok bytes))
  unfolding send_bytes
  recv_bytes-send_bytes accepts mtu seq [] pending h g room some_bytes = absurd (omega arith)
  recv_bytes-send_bytes accepts mtu seq (b ∷ rest) pending h g room some_bytes =
      let bytes = b ∷ rest in
      let cbor = to_cbor (unfragmented seq bytes) in
      let overhead = fragment_header_overhead to_cbor try_from seq (length bytes) in
      let frames =
        map to_cbor (fragments (length bytes) (mtu - overhead) seq (length bytes) 0 bytes) in
      elim (Bool-cases (mtu == 0 || leb (length cbor) mtu)) [
        | inl fits ↦
            rw (fits, send_all accepts (cbor ∷ []) h)
              (refl, recv_stop pending cbor [] (ok bytes) (recv_whole pending seq bytes))
        | inr large ↦
            let pos : 0 < mtu - overhead = ground (arith, room, large) in
            let not_zero : (mtu - overhead == 0) ≡ false = ground (arith, pos) in
            let fresh : or_insert seq (length bytes) pending
                ≡ record { total_data_length = length bytes; fragments = [] } =
              unfold or_insert in ground (arith, g) in
            let none_yet : received [] ≡ 0 = unfold received in refl in
            let nothing : joined [] ≡ [] = unfold joined in refl in
            rw (large, not_zero, send_all accepts frames h)
              (
                refl,
                recv_fragments (length bytes) (mtu - overhead) seq (length bytes) 0 b rest pending
                      [] pos (omega arith) (omega arith) fresh tt none_yet
                    ∙ ap (λ l. some (ok (l ++ b ∷ rest))) nothing,
              )
      ]
