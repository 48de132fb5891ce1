-- ===== src/Base/Map/Keys.antt =====
-- Predicates that hold of every entry of a map, and the keys of a map, each there once.
use mathlib.Core.Path.{◌≡◌, ap, refl, subst₂}
use mathlib.Core.Logic.{inl, inr}
use mathlib.Core.Bool.{Bool, true, false}
use mathlib.Core.List.{List, [], ◌∷◌, ◌++◌, map}
use mathlib.Core.Option.{none, some}
use native.Mathlib.Omega.{arith}
use pathweave.Base.Tests.{if◌then◌else◌, Bool-cases}
use pathweave.Base.Equality.{Eq, ◌=?◌, mem, eqb_refl}
use pathweave.Base.Lists.{All, keep_if}
use pathweave.Base.Map.{Map, get, insert, remove, contains}

module _ {ℓ} {K : Type ℓ} ⦃e : Eq K⦄ where
  -- No element twice.
  abbrev pub Distinct : List K → Type 0
  Distinct [] = Unit
  Distinct (x ∷ xs) = (mem x xs ≡ false) × Distinct xs

  pub mem-append :
      (k : K) (xs ys : List K) → mem k (xs ++ ys) ≡ (if mem k xs then true else mem k ys)
  mem-append k [] ys = refl
  mem-append k (x ∷ xs) ys = ground (arith, mem-append k xs ys)

  pub Distinct-append_one :
      (k : K) (xs : List K) → mem k xs ≡ false → Distinct xs → Distinct (xs ++ k ∷ [])
  Distinct-append_one k [] h d = (refl, tt)
  Distinct-append_one k (x ∷ xs) h d =
      ground
        (arith, mem-append x xs (k ∷ []), Distinct-append_one k xs, e.eqb_iff x k, e.eqb_iff k x)

  pub mem-keep_if-false :
      (p : K → Bool) (k : K) (xs : List K) → mem k xs ≡ false → mem k (keep_if p xs) ≡ false
  mem-keep_if-false p k [] h = refl
  mem-keep_if-false p k (x ∷ xs) h = ground (arith, mem-keep_if-false p k xs)

  pub Distinct-keep_if : (p : K → Bool) (xs : List K) → Distinct xs → Distinct (keep_if p xs)
  Distinct-keep_if p [] d = tt
  Distinct-keep_if p (x ∷ xs) d =
      ground (arith, Distinct-keep_if p xs d.1, mem-keep_if-false p x xs d.0)

  -- What a filter keeps.
  pub mem-keep_if :
      (p : K → Bool) (k : K) (xs : List K)
      → mem k (keep_if p xs) ≡ (if p k then mem k xs else false)
  mem-keep_if p k [] = ground arith
  mem-keep_if p k (x ∷ xs) = elim (Bool-cases (x =? k)) [
    | inl same ↦ rw ((e.eqb_iff x k).0 same) (ground (arith, mem-keep_if p k xs, eqb_refl k))
    | inr other ↦ ground (arith, mem-keep_if p k xs)
  ]

module _ {ℓ κ} {K : Type ℓ} {V : Type κ} ⦃e : Eq K⦄ where
  abbrev pub keys : Map K V → List K
  keys = map (λ entry. entry.0)

  pub mem-keys : (k : K) (m : Map K V) → mem k (keys m) ≡ contains k m
  unfolding get
  mem-keys k [] = refl
  mem-keys k ((j, w) ∷ m) = ground (arith, mem-keys k m)

  mem-keys-insert :
      (k j : K) (v : V) (m : Map K V)
      → mem j (keys (insert k v m)) ≡ (if k =? j then true else mem j (keys m))
  unfolding insert
  mem-keys-insert k j v [] = ground arith
  mem-keys-insert k j v ((i, w) ∷ m) =
      ground (arith, mem-keys-insert k j v m, e.eqb_iff k j, e.eqb_iff i k, e.eqb_iff i j)

  mem-keys-remove-false :
      (k j : K) (m : Map K V) → mem j (keys m) ≡ false → mem j (keys (remove k m)) ≡ false
  unfolding remove
  mem-keys-remove-false k j [] h = refl
  mem-keys-remove-false k j ((i, w) ∷ m) h = ground (arith, mem-keys-remove-false k j m)

  pub insert-Distinct :
      (k : K) (v : V) (m : Map K V) → Distinct (keys m) → Distinct (keys (insert k v m))
  unfolding insert
  insert-Distinct k v [] d = (refl, tt)
  insert-Distinct k v ((i, w) ∷ m) d = elim (Bool-cases (i =? k)) [
    | inl same ↦ rw same (rw (← (e.eqb_iff i k).0 same) d)
    | inr other ↦ rw other (
        ground
          (arith, mem-keys-insert k i v m, insert-Distinct k v m d.1, e.eqb_iff k i, e.eqb_iff i k))
  ]

  pub remove-Distinct : (k : K) (m : Map K V) → Distinct (keys m) → Distinct (keys (remove k m))
  unfolding remove
  remove-Distinct k [] d = tt
  remove-Distinct k ((i, w) ∷ m) d =
      ground (arith, remove-Distinct k m d.1, mem-keys-remove-false k i m d.0)

  pub insert-All {μ} :
      (P : K × V → Type μ) (k : K) (v : V) (m : Map K V) → P (k, v) → All P m → All P (insert k v m)
  unfolding insert
  insert-All P k v [] p h = (p, tt)
  insert-All P k v ((i, w) ∷ m) p h = ground (arith, insert-All P k v m p h.1)

  pub remove-All {μ} : (P : K × V → Type μ) (k : K) (m : Map K V) → All P m → All P (remove k m)
  unfolding remove
  remove-All P k [] h = h
  remove-All P k ((i, w) ∷ m) h = ground (arith, remove-All P k m h.1)

  -- The entry that a lookup finds has what every entry has.
  pub get-All {μ} :
      (P : K × V → Type μ) (k : K) {v : V} (m : Map K V) → All P m → get k m ≡ some v → P (k, v)
  unfolding get
  get-All P k [] h p = cc
  get-All P k {v} ((i, w) ∷ m) h p = elim (Bool-cases (i =? k)) [
    | inl same ↦ subst₂ (λ a b. P (a, b)) ((e.eqb_iff i k).0 same) (ground arith) h.0
    | inr other ↦ get-All P k m h.1 (ground arith)
  ]

  -- What a filter on the values leaves of a lookup, where no key is there twice.
  pub get-keep_if :
      (p : V → Bool) (k : K) (m : Map K V)
      → Distinct (keys m)
      → get k (keep_if (λ entry. p entry.1) m)
        ≡ (elim (get k m) [ none ↦ none | some v ↦ if p v then some v else none ])
  unfolding get
  get-keep_if p k [] d = refl
  get-keep_if p k ((j, v) ∷ m) d = ground (
    arith,
    get-keep_if p k m d.1,
    mem-keys j m,
    e.eqb_iff j k,
    d.0,
    ap (λ i. get i m) {x = j} {y = k},
  )

  pub keep_if-Distinct :
      (p : V → Bool) (m : Map K V)
      → Distinct (keys m)
      → Distinct (keys (keep_if (λ entry. p entry.1) m))
  keep_if-Distinct p [] d = tt
  keep_if-Distinct p ((j, v) ∷ m) d = ground (
    arith,
    keep_if-Distinct p m d.1,
    mem-keys j m,
    mem-keys j (keep_if (λ entry. p entry.1) m),
    get-keep_if p j m d.1,
    d.0,
  )
