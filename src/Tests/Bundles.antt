-- ===== src/Tests/Bundles.antt =====
-- An example of fragments, with an encoding to try it with.
use pathweave.Base.{
  ℕ, Bool, true, false, ◌≡◌, refl, ap₂, [], ◌∷◌, Option, none, some, arith, inr, ◌==◌,
}
use pathweave.Base.Map
use pathweave.Base.Map.{Map}
use pathweave.Types.{Bytes, bytes_eq, Result, ok}
use pathweave.Bundle.{Bpv7, fragment, fragment_header_overhead, send_bytes, recv_bytes}
use pathweave.Bundle.Reassembly.{recv_bytes-send_bytes}

abbrev flag : Bool → ℕ
flag true = 1
flag false = 0

abbrev body : Option Bytes → Bytes
body none = []
body (some p) = 1 ∷ p

-- One number for each field, then the payload.
abbrev to_cbor : Bpv7 → Bytes
to_cbor b =
    flag b.is_fragment ∷ b.seqno ∷ b.fragmentation_offset ∷ b.total_data_length ∷ body b.payload

abbrev opened : Bytes → Option Bytes
opened [] = none
opened (b ∷ p) = some p

abbrev try_from : Bytes → Option Bpv7
try_from (f ∷ seq ∷ offset ∷ total ∷ rest) = some (record {
  is_fragment = f == 1;
  seqno = seq;
  fragmentation_offset = offset;
  total_data_length = total;
  payload = opened rest;
})
try_from _ = none

opened-body : (p : Option Bytes) → opened (body p) ≡ p
opened-body none = refl
opened-body (some p) = refl

flag_back : (b : Bool) → (flag b == 1) ≡ b
flag_back true = refl
flag_back false = refl

decodes : (b : Bpv7) → try_from (to_cbor b) ≡ some b
decodes b =
    ap₂ (λ f p. let c : Bpv7 = record b { is_fragment = f; payload = p } in some c)
      (flag_back b.is_fragment) (opened-body b.payload)

-- Everything is accepted.
abbrev accepts : Bytes → Result (Unit {0})
accepts frame = ok tt

abbrev text : Bytes
text = 1 ∷ 2 ∷ 3 ∷ 4 ∷ 5 ∷ 6 ∷ 7 ∷ 8 ∷ []

-- An MTU of 8 leaves room for three bytes in a fragment.
recv_bytes-send_bytes_example :
    ((send_bytes to_cbor try_from accepts 8 4 text).1.1 ≡ ok tt)
    × ((recv_bytes to_cbor try_from [] (send_bytes to_cbor try_from accepts 8 4 text).1.0).1
        ≡ some (ok text))
unfolding fragment_header_overhead fragment Map.get
recv_bytes-send_bytes_example =
    recv_bytes-send_bytes to_cbor try_from decodes accepts 8 4 text [] (λ frame. refl) refl
      (inr (omega arith)) (omega arith)
