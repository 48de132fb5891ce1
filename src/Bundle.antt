-- ===== src/Bundle.antt =====
-- `BundleLayer` of crates/pathweave-core/src/bundle.rs: fragments and their reassembly. The BPv7
-- library bp7 is a parameter, `to_cbor` and `try_from`; of a bundle, what the layer sets and reads.
pub mod Collect
pub mod Fragments
pub mod Reassembly
use pathweave.Base.{
  nat_eq, ℕ, zero, suc, ◌+◌, ◌-◌, ◌%◌, ◌^◌, Bool, true, false, ◌||◌, List, [], ◌∷◌, ◌++◌, map,
  Option, none, some, ltb, leb, ◌==◌, if◌then◌else◌, length, take, drop,
}
use pathweave.Base.Map
use pathweave.Base.Map.{Map}
use pathweave.Types.{Bytes, bytes_eq, bundle, Result, ok, err}

pub record Bpv7 : Type 0 where
  pub is_fragment : Bool
  pub seqno : ℕ
  pub fragmentation_offset : ℕ
  pub total_data_length : ℕ
  pub payload : Option Bytes

-- The `BTreeMap` is a list in the order of its keys.
pub record PendingBundle : Type 0 where
  pub total_data_length : ℕ
  pub fragments : List (ℕ × Bytes)

unfoldable pub received : List (ℕ × Bytes) → ℕ
received [] = 0
received ((offset, chunk) ∷ fragments) = length chunk + received fragments

unfoldable pub received_len : PendingBundle → ℕ
received_len p = received p.fragments

unfoldable pub is_complete : PendingBundle → Bool
is_complete p = leb p.total_data_length (received_len p)

unfoldable pub joined : List (ℕ × Bytes) → Bytes
joined [] = []
joined ((offset, chunk) ∷ fragments) = chunk ++ joined fragments

unfoldable pub reassemble : PendingBundle → Bytes
reassemble p = joined p.fragments

unfoldable pub btree_insert : ℕ → Bytes → List (ℕ × Bytes) → List (ℕ × Bytes)
btree_insert offset chunk [] = (offset, chunk) ∷ []
btree_insert offset chunk ((o, c) ∷ fragments) =
    let rest = btree_insert offset chunk fragments in
    if ltb offset o
    then (offset, chunk) ∷ (o, c) ∷ fragments
    else if offset == o
    then (offset, chunk) ∷ fragments
    else (o, c) ∷ rest

unfoldable pub fragment : ℕ → ℕ → ℕ → Bytes → Bpv7
fragment seq total_len offset chunk = record {
  is_fragment = true;
  seqno = seq;
  fragmentation_offset = offset;
  total_data_length = total_len;
  payload = some chunk;
}

unfoldable pub unfragmented : ℕ → Bytes → Bpv7
unfragmented seq bytes = record {
  is_fragment = false;
  seqno = seq;
  fragmentation_offset = 0;
  total_data_length = 0;
  payload = some bytes;
}

-- `while offset < bytes.len()`: `rest` is `bytes[offset..]`, and its length is fuel enough, see
-- `Bundle.Reassembly`.
unfoldable pub fragments : ℕ → ℕ → ℕ → ℕ → ℕ → Bytes → List Bpv7
fragments zero max_payload seq total_len offset rest = []
fragments (suc fuel) max_payload seq total_len offset [] = []
fragments (suc fuel) max_payload seq total_len offset (b ∷ rest) =
    let chunk = take max_payload (b ∷ rest) in
    fragment seq total_len offset chunk
    ∷ fragments fuel max_payload seq total_len (offset + length chunk) (drop max_payload (b ∷ rest))

-- The calls `inner.send_bytes(…)?`: what was handed over, and the result.
unfoldable pub send_each : (Bytes → Result (Unit {0})) → List Bytes → List Bytes × Result (Unit {0})
send_each accepts [] = ([], ok tt)
send_each accepts (frame ∷ frames) = elim (accepts frame) [
  | err e ↦ (frame ∷ [], err e)
  | ok u ↦ (frame ∷ (send_each accepts frames).0, (send_each accepts frames).1)
]

-- `entry(seq).or_insert_with(…)`.
unfoldable pub or_insert : ℕ → ℕ → Map ℕ PendingBundle → PendingBundle
or_insert seq total_len pending = elim (Map.get seq pending) [
  | none ↦ record { total_data_length = total_len; fragments = [] }
  | some p ↦ p
]

-- What follows the insertion of a fragment: `none` where the loop goes on.
unfoldable pub conclude :
    Map ℕ PendingBundle → ℕ → PendingBundle → Map ℕ PendingBundle × Option (Result Bytes)
conclude pending seq p =
    if is_complete p
    then (Map.remove seq (Map.insert seq p pending), some (ok (reassemble p)))
    else (Map.insert seq p pending, none)

unfoldable pub add : ℕ → Bytes → PendingBundle → PendingBundle
add offset chunk p = record p { fragments = btree_insert offset chunk p.fragments }

unfoldable pub accept :
    Map ℕ PendingBundle → ℕ → ℕ → ℕ → Bytes → Map ℕ PendingBundle × Option (Result Bytes)
accept pending seq offset total_len chunk =
    conclude pending seq (add offset chunk (or_insert seq total_len pending))

module _ (to_cbor : Bpv7 → Bytes) (try_from : Bytes → Option Bpv7) where
  unfoldable pub fragment_header_overhead : ℕ → ℕ → ℕ
  fragment_header_overhead seq total_len = length (to_cbor (fragment seq total_len total_len []))

  -- `send_bytes`: the next sequence number, what was handed to the connection, and the result.
  unfoldable pub send_bytes :
      (Bytes → Result (Unit {0})) → ℕ → ℕ → Bytes → ℕ × (List Bytes × Result (Unit {0}))
  send_bytes accepts mtu seq bytes =
      let next = (seq + 1) % 2 ^ 64 in
      let cbor = to_cbor (unfragmented seq bytes) in
      let max_payload = mtu - fragment_header_overhead seq (length bytes) in
      if mtu == 0 || leb (length cbor) mtu
      then (next, send_each accepts (cbor ∷ []))
      else if max_payload == 0
      then (next, ([], err bundle))
      else (
        next,
        send_each accepts
            (map to_cbor (fragments (length bytes) max_payload seq (length bytes) 0 bytes)),
      )

  -- One turn of the loop of `recv_bytes`.
  unfoldable pub recv_one :
      Map ℕ PendingBundle → Bytes → Map ℕ PendingBundle × Option (Result Bytes)
  recv_one pending raw = elim (try_from raw) [
    | none ↦ (pending, some (err bundle))
    | some b ↦ elim b.payload [
      | none ↦ (pending, some (err bundle))
      | some chunk ↦
          if b.is_fragment
          then accept pending b.seqno b.fragmentation_offset b.total_data_length chunk
          else (pending, some (ok chunk))
    ]
  ]

  -- `recv_bytes` on the frames that arrive: the first result, or `none` where it still waits.
  unfoldable pub recv_bytes :
      Map ℕ PendingBundle → List Bytes → Map ℕ PendingBundle × Option (Result Bytes)
  recv_bytes pending [] = (pending, none)
  recv_bytes pending (raw ∷ raws) = elim ((recv_one pending raw).1) [
    | some r ↦ ((recv_one pending raw).0, some r)
    | none ↦ recv_bytes (recv_one pending raw).0 raws
  ]
