-- ===== src/Dedup/Timers.antt =====
-- The cache against its specification: each key has a timer of its own, started by a message that
-- is no duplicate, which runs for `ttl`, and a message is a duplicate exactly while the timer of its
-- key runs.
use pathweave.Base.{
  ltb, ℕ, ◌≤◌, Bool, true, false, List, [], ◌∷◌, Option, none, some, arith, if◌then◌else◌, All, Eq,
  ◌=?◌, ◌≡◌, refl, ap, ◌∙◌, inl, inr, Bool-cases, ◌+◌, ◌<◌, ◌++◌, eqb_refl,
}
use pathweave.Base.Map
use pathweave.Base.Map.{Map, get-insert}
use pathweave.Base.Map.Keys.{Distinct, keys, insert-Distinct, keep_if-Distinct, get-keep_if}
use pathweave.Types.{bytes_eq}
use pathweave.Dedup.{is_live, retain, check}

-- The running timer, if there is one: it runs until `ttl` after its start.
abbrev pub running : ℕ → ℕ → Option ℕ → Option ℕ
running ttl now none = none
running ttl now (some start) = if ltb now (start + ttl) then some start else none

-- The code's test of an age says whether a timer of `ttl` runs.
is_live-ltb : (ttl now start : ℕ) → is_live ttl now start ≡ ltb now (start + ttl)
unfolding is_live
is_live-ltb ttl now start = ground arith

abbrev pub is_some : Option ℕ → Bool
is_some none = false
is_some (some t) = true

-- A timer that has run out by `t` has run out later.
running-running :
    (ttl t now : ℕ) (o : Option ℕ) → t ≤ now → running ttl now (running ttl t o) ≡ running ttl now o
running-running ttl t now none h = refl
running-running ttl t now (some start) h = ground arith

module _ {ℓ} {K : Type ℓ} ⦃e : Eq K⦄ (ttl : ℕ) where
  -- When the timer of `key` was started last, by a history with the newest message first.
  abbrev pub timer : K → List (ℕ × K) → Option ℕ
  timer key [] = none
  timer key ((now, k) ∷ past) =
      let before = timer key past in
      if k =? key then (if is_some (running ttl now before) then before else some now) else before

  abbrev pub is_duplicate : ℕ → K → List (ℕ × K) → Bool
  is_duplicate now key past = is_some (running ttl now (timer key past))

  -- The cache after a history, the newest message first.
  unfoldable pub run : List (ℕ × K) → Map K ℕ
  run [] = []
  run ((now, key) ∷ past) = (check ttl now key (run past)).0

  -- No message is older than one that came before it.
  abbrev pub InOrder : List (ℕ × K) → Type ℓ
  InOrder [] = Unit
  InOrder ((now, key) ∷ past) = All (λ c. c.0 ≤ now) past × InOrder past

  run-Distinct : (past : List (ℕ × K)) → Distinct (keys (run past))
  unfolding run check retain
  run-Distinct [] = tt
  run-Distinct ((now, key) ∷ past) =
      let live = keep_if-Distinct (is_live ttl now) (run past) (run-Distinct past) in
      ground (arith, live, insert-Distinct key now (retain ttl now (run past)) live)

  get-retain :
      (now : ℕ) (key : K) (m : Map K ℕ)
      → Distinct (keys m)
      → Map.get key (retain ttl now m) ≡ running ttl now (Map.get key m)
  unfolding retain
  get-retain now key m d = get-keep_if (is_live ttl now) key m d ∙ go (Map.get key m)
    where
      go :
          (o : Option ℕ)
          → (elim o [ none ↦ none | some v ↦ if is_live ttl now v then some v else none ])
            ≡ running ttl now o
      go none = refl
      go (some v) = rw (is_live-ltb ttl now v) refl

  get-retain-retain :
      (now t : ℕ) (key : K) (m : Map K ℕ) (before : Option ℕ)
      → Distinct (keys m)
      → t ≤ now
      → running ttl t (Map.get key m) ≡ running ttl t before
      → running ttl now (Map.get key (retain ttl t m)) ≡ running ttl now before
  get-retain-retain now t key m before d h same =
      ap (running ttl now) (get-retain t key m d ∙ same) ∙ running-running ttl t now before h

  same_key :
      (now t : ℕ) (k key : K) (m : Map K ℕ) (before : Option ℕ)
      → Distinct (keys m)
      → t ≤ now
      → running ttl t (Map.get key m) ≡ running ttl t before
      → running ttl now (Map.get key (retain ttl t m)) ≡ running ttl now before
      → k ≡ key
      → (k =? key) ≡ true
      → running ttl now (Map.get key (check ttl t k m).0)
        ≡ running ttl now (
            if k =? key
            then (if is_some (running ttl t before) then before else some t)
            else before)
  unfolding check
  same_key now t k key m before d h same kept path hit =
      let live = retain ttl t m in
      let test = get-retain t k m d ∙ ap (λ j. running ttl t (Map.get j m)) path ∙ same in
      rw hit (ground (arith, kept, get-insert k key t live, hit, test))

  step :
      (now t : ℕ) (k key : K) (m : Map K ℕ) (before : Option ℕ)
      → Distinct (keys m)
      → t ≤ now
      → running ttl t (Map.get key m) ≡ running ttl t before
      → running ttl now (Map.get key (check ttl t k m).0)
        ≡ running ttl now (
            if k =? key
            then (if is_some (running ttl t before) then before else some t)
            else before)
  unfolding check
  step now t k key m before d h same =
      let live = retain ttl t m in
      let kept = get-retain-retain now t key m before d h same in
      elim (Bool-cases (k =? key)) [
        | inl hit ↦ same_key now t k key m before d h same kept ((e.eqb_iff k key).0 hit) hit
        | inr miss ↦ rw miss (ground (arith, kept, get-insert k key t live, miss))
      ]

  -- The cache and the timers agree on what runs now.
  running-run :
      (past : List (ℕ × K)) (now : ℕ) (key : K)
      → InOrder past
      → All (λ c. c.0 ≤ now) past
      → running ttl now (Map.get key (run past)) ≡ running ttl now (timer key past)
  unfolding run Map.get
  running-run [] now key o h = refl
  running-run ((t, k) ∷ past) now key o h =
      step now t k key (run past) (timer key past) (run-Distinct past) h.0
        (running-run past t key o.1 o.0)

  -- The answer of the cache is that of the timers.
  pub check-is_duplicate :
      (past : List (ℕ × K)) (now : ℕ) (key : K)
      → InOrder past
      → All (λ c. c.0 ≤ now) past
      → (check ttl now key (run past)).1 ≡ is_duplicate now key past
  unfolding check
  check-is_duplicate past now key o h =
      ground
        (arith, get-retain now key (run past) (run-Distinct past), running-run past now key o h)

  -- A timer is not restarted while it runs.
  timer_kept :
      (key : K) (start : ℕ) (later past : List (ℕ × K))
      → is_duplicate start key past ≡ false
      → All (λ c. (start ≤ c.0) × (c.0 < start + ttl)) later
      → timer key (later ++ (start, key) ∷ past) ≡ some start
  timer_kept key start [] past fresh h = ground (arith, eqb_refl key)
  timer_kept key start ((t, k) ∷ later) past fresh h =
      ground (arith, timer_kept key start later past fresh h.1)

  -- A message that was no duplicate makes every copy a duplicate until `ttl` has passed.
  pub copies_suppressed :
      (key : K) (start now : ℕ) (later past : List (ℕ × K))
      → is_duplicate start key past ≡ false
      → All (λ c. (start ≤ c.0) × (c.0 < start + ttl)) later
      → start ≤ now
      → now < start + ttl
      → is_duplicate now key (later ++ (start, key) ∷ past) ≡ true
  copies_suppressed key start now later past fresh h le lt =
      ground (arith, timer_kept key start later past fresh h)
