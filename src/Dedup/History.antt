-- ===== src/Dedup/History.antt =====
-- The whole cache under a history of calls of both kinds: the maps do not disturb one another.
use pathweave.Base.{
  nat_eq, pair_eq, ℕ, ◌≤◌, ◌≡◌, refl, ap₂, ◌∙◌, List, [], ◌∷◌, arith, All, ◌+◌, ◌<◌, true, false,
  sym, ap, ◌++◌,
}
use pathweave.Types.{PeerId, bytes_eq}
use pathweave.Dedup
use pathweave.Dedup.{
  DeduplicationCache, dedup_ttl, check, check_and_insert, check_and_insert_routed,
}
use pathweave.Dedup.Timers.{copies_suppressed, is_duplicate, InOrder, run, check-is_duplicate}

-- A call, with its `Instant::now()`.
pub data Call : Type 0 where
  direct : ℕ → PeerId → ℕ → Call
  routed : ℕ → ℕ → Call

abbrev pub time : Call → ℕ
time (direct now peer_id message_id) = now
time (routed now message_id) = now

unfoldable pub after : DeduplicationCache → Call → DeduplicationCache
after c (direct now peer_id message_id) = (check_and_insert c now peer_id message_id).0
after c (routed now message_id) = (check_and_insert_routed c now message_id).0

-- A new cache after a history of calls, the newest first.
unfoldable pub cache : List Call → DeduplicationCache
cache [] = Dedup.new
cache (c ∷ past) = after (cache past) c

-- The messages of each kind, with their times.
abbrev pub directs : List Call → List (ℕ × (PeerId × ℕ))
directs [] = []
directs (direct now peer_id message_id ∷ past) = (now, (peer_id, message_id)) ∷ directs past
directs (routed now message_id ∷ past) = directs past

abbrev pub routeds : List Call → List (ℕ × ℕ)
routeds [] = []
routeds (direct now peer_id message_id ∷ past) = routeds past
routeds (routed now message_id ∷ past) = (now, message_id) ∷ routeds past

-- The clock does not go back.
abbrev pub IsMonotone : List Call → Type 0
IsMonotone [] = Unit
IsMonotone (c ∷ past) = All (λ d. time d ≤ time c) past × IsMonotone past

seen-cache :
    (past : List Call)
    → ((cache past).seen ≡ run dedup_ttl (directs past))
      × ((cache past).seen_routed ≡ run dedup_ttl (routeds past))
      × ((cache past).ttl ≡ dedup_ttl)
unfolding cache after run check_and_insert check_and_insert_routed Dedup.new
seen-cache [] = (refl, refl, refl)
seen-cache (direct now peer_id message_id ∷ past) = ground (arith, seen-cache past)
seen-cache (routed now message_id ∷ past) = ground (arith, seen-cache past)

All-directs :
    (now : ℕ) (past : List Call)
    → All (λ c. time c ≤ now) past
    → All (λ c. c.0 ≤ now) (directs past)
All-directs now [] h = tt
All-directs now (direct t peer_id message_id ∷ past) h = (h.0, All-directs now past h.1)
All-directs now (routed t message_id ∷ past) h = All-directs now past h.1

All-routeds :
    (now : ℕ) (past : List Call)
    → All (λ c. time c ≤ now) past
    → All (λ c. c.0 ≤ now) (routeds past)
All-routeds now [] h = tt
All-routeds now (direct t peer_id message_id ∷ past) h = All-routeds now past h.1
All-routeds now (routed t message_id ∷ past) h = (h.0, All-routeds now past h.1)

routeds-InOrder : (past : List Call) → IsMonotone past → InOrder dedup_ttl (routeds past)
routeds-InOrder [] m = tt
routeds-InOrder (direct now peer_id message_id ∷ past) m = routeds-InOrder past m.1
routeds-InOrder (routed now message_id ∷ past) m =
    (All-routeds now past m.0, routeds-InOrder past m.1)

directs-InOrder : (past : List Call) → IsMonotone past → InOrder dedup_ttl (directs past)
directs-InOrder [] m = tt
directs-InOrder (direct now peer_id message_id ∷ past) m =
    (All-directs now past m.0, directs-InOrder past m.1)
directs-InOrder (routed now message_id ∷ past) m = directs-InOrder past m.1

-- At a time when the clock has not gone back since any call of the history, the cache calls a
-- direct message a duplicate exactly if the timer of its sender and id runs, whatever routed
-- messages came between; a timer is started by a message that is no duplicate, and runs 60 seconds, in
-- nanoseconds.
pub check_and_insert-is_duplicate :
    (past : List Call) (now : ℕ) (peer_id : PeerId) (message_id : ℕ)
    → IsMonotone past
    → All (λ c. time c ≤ now) past
    → (check_and_insert (cache past) now peer_id message_id).1
      ≡ is_duplicate 60_000_000_000 now (peer_id, message_id) (directs past)
unfolding check_and_insert
check_and_insert-is_duplicate past now peer_id message_id m h =
    let (s, r, t) = seen-cache past in
    ap₂ (λ ttl m. (check ttl now (peer_id, message_id) m).1) t s
    ∙ check-is_duplicate dedup_ttl (directs past) now (peer_id, message_id) (directs-InOrder past m)
        (All-directs now past h)

-- At a time when the clock has not gone back since any call of the history, the cache calls a
-- routed message a duplicate exactly if the timer of its id runs, whatever direct messages came
-- between; a timer is started by a message that is no duplicate, and runs 60 seconds.
pub check_and_insert_routed-is_duplicate :
    (past : List Call) (now message_id : ℕ)
    → IsMonotone past
    → All (λ c. time c ≤ now) past
    → (check_and_insert_routed (cache past) now message_id).1
      ≡ is_duplicate 60_000_000_000 now message_id (routeds past)
unfolding check_and_insert_routed
check_and_insert_routed-is_duplicate past now message_id m h =
    let (s, r, t) = seen-cache past in
    ap₂ (λ ttl m. (check ttl now message_id m).1) t r
    ∙ check-is_duplicate dedup_ttl (routeds past) now message_id (routeds-InOrder past m)
        (All-routeds now past h)

directs-append : (xs ys : List Call) → directs (xs ++ ys) ≡ directs xs ++ directs ys
directs-append [] ys = refl
directs-append (direct now peer_id message_id ∷ xs) ys =
    ap (◌∷◌ (now, (peer_id, message_id))) (directs-append xs ys)
directs-append (routed now message_id ∷ xs) ys = directs-append xs ys

-- What comes after a call comes at its time or later, and the clock was right before it.
since :
    (later : List Call) (c : Call) (past : List Call) (limit : ℕ)
    → IsMonotone (later ++ c ∷ past)
    → All (λ d. time d < limit) (later ++ c ∷ past)
    → All (λ d. (time c ≤ d.0) × (d.0 < limit)) (directs later) × IsMonotone (c ∷ past)
since [] c past limit m h = (tt, m)
since (routed now message_id ∷ later) c past limit m h = since later c past limit m.1 h.1
since (direct now peer_id message_id ∷ later) c past limit m h =
    let (rest, before) = since later c past limit m.1 h.1 in
    (((All-middle (λ d. time d ≤ now) later c past m.0, h.0), rest), before)
  where
    All-middle :
        (P : Call → Type 0) (xs : List Call) (c : Call) (ys : List Call)
        → All P (xs ++ c ∷ ys)
        → P c
    All-middle P [] c ys h = h.0
    All-middle P (x ∷ xs) c ys h = All-middle P xs c ys h.1

-- At most once: when a direct message was no duplicate, every copy of it that arrives less than 60
-- seconds later is one, whatever other messages, direct or routed, arrive in between.
pub check_and_insert-copies :
    (past later : List Call) (start now : ℕ) (peer_id : PeerId) (message_id : ℕ)
    → IsMonotone (later ++ direct start peer_id message_id ∷ past)
    → All (λ c. time c ≤ now) (later ++ direct start peer_id message_id ∷ past)
    → (check_and_insert (cache past) start peer_id message_id).1 ≡ false
    → start ≤ now
    → now < start + dedup_ttl
    → (check_and_insert
        (cache (later ++ direct start peer_id message_id ∷ past))
        now
        peer_id
        message_id).1
      ≡ true
check_and_insert-copies past later start now peer_id message_id m h fresh le lt =
    let c = direct start peer_id message_id in
    let (rest, before) = since later c past (start + dedup_ttl) m (below (later ++ c ∷ past) h) in
    check_and_insert-is_duplicate (later ++ c ∷ past) now peer_id message_id m h
    ∙ ap (is_duplicate dedup_ttl now (peer_id, message_id)) (directs-append later (c ∷ past))
    ∙ copies_suppressed dedup_ttl (peer_id, message_id) start now (directs later) (directs past)
        (sym (check_and_insert-is_duplicate past start peer_id message_id before.1 before.0)
          ∙ fresh)
        rest le lt
  where
    below : (cs : List Call) → All (λ c. time c ≤ now) cs → All (λ c. time c < start + dedup_ttl) cs
    below [] h = tt
    below (c ∷ cs) h = (omega arith, below cs h.1)
