-- ===== src/Transport/Stream.antt =====
-- The length prefix that `QuicConnection` (crates/pathweave-transport-quic/src/lib.rs) and
-- `WifiDirectConnection` (crates/pathweave-transport-wifi-direct/src/lib.rs) put before each message
-- on a byte stream. Both have the same code.
pub mod RoundTrip
use pathweave.Base.{
  ℕ, zero, suc, ◌%◌, ◌^◌, Bool, List, [], ◌∷◌, ◌++◌, ltb, if◌then◌else◌, length, take, drop,
}
use pathweave.Types.{Bytes, bytes_eq, transport, Result, ok, err}
use pathweave.Bytes.{◌>>=◌, to_be_bytes, from_be_bytes}

-- `write_all`: the bytes on the stream, or the error with what was written before it. `fails` says
-- which bytes the connection refuses.
unfoldable pub write_all : (Bytes → Bool) → Bytes → Bytes → Bytes × Result (Unit {0})
write_all fails stream bytes =
    if fails bytes then (stream, err transport) else (stream ++ bytes, ok tt)

-- `send_bytes`; `as u32` wraps.
unfoldable pub send_bytes : (Bytes → Bool) → Bytes → Bytes → Bytes × Result (Unit {0})
send_bytes fails stream bytes =
    let (stream1, r) = write_all fails stream (to_be_bytes 4 (length bytes % 2 ^ 32)) in
    elim r [ err e ↦ (stream1, err e) | ok u ↦ write_all fails stream1 bytes ]

-- `read_exact` on what has arrived until the stream ends.
unfoldable pub read_exact : Bytes → ℕ → Bytes × Result Bytes
read_exact stream n =
    if ltb (length stream) n then ([], err transport) else (drop n stream, ok (take n stream))

unfoldable pub recv_bytes : Bytes → Bytes × Result Bytes
recv_bytes stream =
    let (stream1, r) = read_exact stream 4 in
    elim r [ err e ↦ (stream1, err e) | ok len_buf ↦ read_exact stream1 (from_be_bytes 0 len_buf) ]

-- Messages one after the other.
unfoldable pub send_all : (Bytes → Bool) → Bytes → List Bytes → Bytes × Result (Unit {0})
send_all fails stream [] = (stream, ok tt)
send_all fails stream (m ∷ ms) =
    let (stream1, r) = send_bytes fails stream m in
    elim r [ err e ↦ (stream1, err e) | ok u ↦ send_all fails stream1 ms ]

unfoldable pub recv_n : ℕ → Bytes → Bytes × Result (List Bytes)
recv_n zero stream = (stream, ok [])
recv_n (suc n) stream =
    let (stream1, r) = recv_bytes stream in
    elim r [
      | err e ↦ (stream1, err e)
      | ok m ↦
          let (stream2, rest) = recv_n n stream1 in
          elim rest [ err e ↦ (stream2, err e) | ok ms ↦ (stream2, ok (m ∷ ms)) ]
    ]
