-- ===== src/Transport/Stream/RoundTrip.antt =====
-- Messages keep their bounds on a byte stream.
use pathweave.Base.{
  ℕ, ◌%◌, ◌^◌, ◌<◌, Bool, false, ◌≡◌, refl, sym, ap, ◌∙◌, List, [], ◌∷◌, ◌++◌, append_assoc,
  append-nil, arith, length, All, length-append, take-append, drop-append,
}
use pathweave.Types.{Bytes, bytes_eq, ok}
use pathweave.Bytes.{to_be_bytes, from_be_bytes}
use pathweave.Bytes.Laws.{length-to_be_bytes}
use pathweave.Transport.Stream.{write_all, read_exact, send_bytes, recv_bytes, send_all, recv_n}

from_be_bytes-to_be_bytes_four : (v : ℕ) → v < 2 ^ 32 → from_be_bytes 0 (to_be_bytes 4 v) ≡ v
unfolding from_be_bytes to_be_bytes
from_be_bytes-to_be_bytes_four v h = omega arith

read_exact-append : (xs ys : Bytes) (n : ℕ) → length xs ≡ n → read_exact (xs ++ ys) n ≡ (ys, ok xs)
unfolding read_exact
read_exact-append xs ys n e =
    ground (arith, length-append xs ys, take-append n xs ys e, drop-append n xs ys e)

-- What one `send_bytes` puts on the stream.
abbrev frame : Bytes → Bytes
frame m = to_be_bytes 4 (length m % 2 ^ 32) ++ m

recv_bytes-frame :
    (m rest : Bytes) → length m < 2 ^ 32 → recv_bytes (frame m ++ rest) ≡ (rest, ok m)
unfolding recv_bytes
recv_bytes-frame m rest h =
    let prefix = to_be_bytes 4 (length m % 2 ^ 32) in
    let first : read_exact (frame m ++ rest) 4 ≡ (m ++ rest, ok prefix) =
      ap (λ s. read_exact s 4) (append_assoc prefix m rest)
      ∙ read_exact-append prefix (m ++ rest) 4 (length-to_be_bytes 4 (length m % 2 ^ 32)) in
    let size : from_be_bytes 0 prefix ≡ length m =
      from_be_bytes-to_be_bytes_four (length m % 2 ^ 32) (omega arith) ∙ omega arith in
    ground (arith, first, size, read_exact-append m rest (length m) refl)

abbrev frames : List Bytes → Bytes
frames [] = []
frames (m ∷ ms) = frame m ++ frames ms

send_all-frames :
    (fails : Bytes → Bool) (stream : Bytes) (ms : List Bytes)
    → ((b : Bytes) → fails b ≡ false)
    → send_all fails stream ms ≡ (stream ++ frames ms, ok tt)
unfolding send_all send_bytes write_all
send_all-frames fails stream [] h = ground (arith, append-nil stream)
send_all-frames fails stream (m ∷ ms) h =
    let prefix = to_be_bytes 4 (length m % 2 ^ 32) in
    let rest = send_all-frames fails ((stream ++ prefix) ++ m) ms h in
    let moved : ((stream ++ prefix) ++ m) ++ frames ms ≡ stream ++ frames (m ∷ ms) =
      append_assoc (stream ++ prefix) m (frames ms)
      ∙ append_assoc stream prefix (m ++ frames ms)
      ∙ ap (λ l. stream ++ l) (sym (append_assoc prefix m (frames ms))) in
    ground (arith, h prefix, h m, rest, moved)

recv_n-frames :
    (ms : List Bytes) (rest : Bytes)
    → All (λ m. length m < 2 ^ 32) ms
    → recv_n (length ms) (frames ms ++ rest) ≡ (rest, ok ms)
unfolding recv_n
recv_n-frames [] rest b = refl
recv_n-frames (m ∷ ms) rest b =
    let one : recv_bytes (frames (m ∷ ms) ++ rest) ≡ (frames ms ++ rest, ok m) =
      ap recv_bytes (append_assoc (frame m) (frames ms) rest)
      ∙ recv_bytes-frame m (frames ms ++ rest) b.0 in
    ground (arith, one, recv_n-frames ms rest b.1)

-- The receiver of a byte stream gets the messages that the sender put on it, one by one, in their
-- order, with their bounds, and leaves what comes after them, if the connection takes all that is
-- written and every message is shorter than 2 ^ 32 bytes.
pub recv_n-send_all :
    (fails : Bytes → Bool) (ms : List Bytes) (rest : Bytes)
    → ((b : Bytes) → fails b ≡ false)
    → All (λ m. length m < 2 ^ 32) ms
    → recv_n (length ms) ((send_all fails [] ms).0 ++ rest) ≡ (rest, ok ms)
recv_n-send_all fails ms rest h bounds =
    ap (λ r. recv_n (length ms) (r.0 ++ rest)) (send_all-frames fails [] ms h)
    ∙ recv_n-frames ms rest bounds
