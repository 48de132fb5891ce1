-- ===== src/Dedup.antt =====
-- `DeduplicationCache` of crates/pathweave-core/src/node.rs. An `Instant` is a number of
-- nanoseconds, and the call's `Instant::now()` is an argument.
pub mod Timers
pub mod History
pub mod Repeat
use pathweave.Base.{
  nat_eq, pair_eq, ℕ, ◌-◌, Bool, true, false, [], ltb, leb, if◌then◌else◌, keep_if, Eq,
}
use pathweave.Base.Map
use pathweave.Base.Map.{Map, contains}
use pathweave.Types.{PeerId, bytes_eq}

pub record DeduplicationCache : Type 0 where
  pub seen : Map (PeerId × ℕ) ℕ
  pub seen_routed : Map ℕ ℕ
  pub ttl : ℕ

-- DEDUP_TTL, 60 seconds.
abbrev pub dedup_ttl : ℕ
dedup_ttl = 60_000_000_000

unfoldable pub new : DeduplicationCache
new = record { seen = []; seen_routed = []; ttl = dedup_ttl }

-- `now.checked_duration_since(inserted_at).map(|age| age < ttl).unwrap_or(true)`.
unfoldable pub is_live : ℕ → ℕ → ℕ → Bool
is_live ttl now inserted_at = if leb inserted_at now then ltb (now - inserted_at) ttl else true

module _ {ℓ} {K : Type ℓ} ⦃e : Eq K⦄ where
  unfoldable pub retain : ℕ → ℕ → Map K ℕ → Map K ℕ
  retain ttl now = keep_if (λ entry. is_live ttl now entry.1)

  -- What the two methods do, each to its own map: evict, test, and record what is new.
  unfoldable pub check : ℕ → ℕ → K → Map K ℕ → Map K ℕ × Bool
  check ttl now key seen =
      let live = retain ttl now seen in
      if contains key live then (live, true) else (Map.insert key now live, false)

unfoldable pub check_and_insert : DeduplicationCache → ℕ → PeerId → ℕ → DeduplicationCache × Bool
check_and_insert c now peer_id message_id =
    let (seen, dup) = check c.ttl now (peer_id, message_id) c.seen in
    (record c { seen = seen }, dup)

unfoldable pub check_and_insert_routed : DeduplicationCache → ℕ → ℕ → DeduplicationCache × Bool
check_and_insert_routed c now message_id =
    let (seen, dup) = check c.ttl now message_id c.seen_routed in
    (record c { seen_routed = seen }, dup)
