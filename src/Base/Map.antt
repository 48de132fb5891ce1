-- ===== src/Base/Map.antt =====
-- `HashMap` as an association list. The order of the entries stands for the order in which the
-- map iterates, which Rust leaves open; a key that is new goes to the end.
pub mod Keys
use mathlib.Core.Path.{◌≡◌, refl}
use mathlib.Core.Bool.{Bool, true, false}
use mathlib.Core.List.{List, [], ◌∷◌}
use mathlib.Core.Option.{Option, none, some}
use Prim.Native.Nat.{suc, ◌+◌, ◌≤◌}
use native.Mathlib.Omega.{arith}
use pathweave.Base.Tests.{if◌then◌else◌}
use pathweave.Base.Equality.{Eq, ◌=?◌}
use pathweave.Base.Lists.{length}

abbrev pub Map {ℓ κ} : Type ℓ → Type κ → Type (ℓ ⊔ κ)
Map K V = List (K × V)

module _ {ℓ κ} {K : Type ℓ} {V : Type κ} ⦃e : Eq K⦄ where
  unfoldable pub get : K → Map K V → Option V
  get k [] = none
  get k ((j, v) ∷ m) = if j =? k then some v else get k m

  unfoldable pub insert : K → V → Map K V → Map K V
  insert k v [] = (k, v) ∷ []
  insert k v ((j, w) ∷ m) = let rest = insert k v m in if j =? k then (k, v) ∷ m else (j, w) ∷ rest

  unfoldable pub remove : K → Map K V → Map K V
  remove k [] = []
  remove k ((j, w) ∷ m) = let rest = remove k m in if j =? k then rest else (j, w) ∷ rest

  abbrev pub contains : K → Map K V → Bool
  contains k m = elim (get k m) [ none ↦ false | some v ↦ true ]

  pub get-insert :
      (k j : K) (v : V) (m : Map K V) → get j (insert k v m) ≡ (if k =? j then some v else get j m)
  unfolding get insert
  get-insert k j v [] = refl
  get-insert k j v ((i, w) ∷ m) =
      ground (arith, e.eqb_iff k j, e.eqb_iff i k, e.eqb_iff i j, get-insert k j v m)

  pub get-insert_same : (k : K) (v : V) (m : Map K V) → get k (insert k v m) ≡ some v
  unfolding get insert
  get-insert_same k v [] = ground (arith, (e.eqb_iff k k).1 refl)
  get-insert_same k v ((i, w) ∷ m) =
      ground (arith, (e.eqb_iff k k).1 refl, e.eqb_iff i k, get-insert_same k v m)

  pub get-remove : (k j : K) (m : Map K V) → get j (remove k m) ≡ (if k =? j then none else get j m)
  unfolding get remove
  get-remove k j [] = ground arith
  get-remove k j ((i, w) ∷ m) =
      ground (arith, e.eqb_iff k j, e.eqb_iff i k, e.eqb_iff i j, get-remove k j m)

  pub length-remove-le : (k : K) (m : Map K V) → length (remove k m) ≤ length m
  unfolding remove
  length-remove-le k [] = omega arith
  length-remove-le k ((j, w) ∷ m) = ground (arith, length-remove-le k m)

  -- Removing a key that is there frees a place.
  pub length-remove :
      (k : K) (m : Map K V) → contains k m ≡ true → length (remove k m) + 1 ≤ length m
  unfolding get remove
  length-remove k [] h = absurd (ground arith)
  length-remove k ((j, w) ∷ m) h = ground (arith, length-remove k m, length-remove-le k m)

  pub length-insert :
      (k : K) (v : V) (m : Map K V)
      → length (insert k v m) ≡ (if contains k m then length m else suc (length m))
  unfolding get insert
  length-insert k v [] = refl
  length-insert k v ((j, w) ∷ m) = ground (arith, length-insert k v m)
