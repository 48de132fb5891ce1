-- ===== src/Base/Equality.antt =====
-- `PartialEq`: a Boolean test of equality that decides the paths.
use mathlib.Core.Path.{◌≡◌, refl}
use mathlib.Core.Logic.{◌↔◌}
use mathlib.Core.Bool.{Bool, true, false, ◌&&◌}
use mathlib.Core.List.{List, [], ◌∷◌}
use Prim.Native.Nat.{ℕ}
use native.Mathlib.Omega.{arith}
use pathweave.Base.Tests.{◌==◌, ==_iff}

pub record Eq {ℓ} (A : Type ℓ) : Type ℓ where
  pub eqb : A → A → Bool
  pub eqb_iff : (a b : A) → (eqb a b ≡ true) ↔ (a ≡ b)

infix 50 ◌=?◌
abbrev pub ◌=?◌ {ℓ} : {A : Type ℓ} ⦃e : Eq A⦄ → A → A → Bool
◌=?◌ ⦃e⦄ = e.eqb

module _ {ℓ} {A : Type ℓ} ⦃e : Eq A⦄ where
  pub eqb_refl : (a : A) → (a =? a) ≡ true
  eqb_refl a = (e.eqb_iff a a).1 refl

  abbrev pub mem : A → List A → Bool
  mem a [] = false
  mem a (x ∷ xs) = elim (x =? a) [ true ↦ true | false ↦ mem a xs ]

instance abbrev pub nat_eq : Eq ℕ
nat_eq = record { eqb = ◌==◌; eqb_iff = ==_iff }

module _ {ℓ} {A : Type ℓ} ⦃e : Eq A⦄ where
  unfoldable pub list_eqb : List A → List A → Bool
  list_eqb [] [] = true
  list_eqb [] (y ∷ ys) = false
  list_eqb (x ∷ xs) [] = false
  list_eqb (x ∷ xs) (y ∷ ys) = (x =? y) && list_eqb xs ys

  pub list_eqb_iff : (xs ys : List A) → (list_eqb xs ys ≡ true) ↔ (xs ≡ ys)
  unfolding list_eqb
  list_eqb_iff [] [] = ground arith
  list_eqb_iff [] (y ∷ ys) = ground arith
  list_eqb_iff (x ∷ xs) [] = ground arith
  list_eqb_iff (x ∷ xs) (y ∷ ys) = ground (arith, e.eqb_iff x y, list_eqb_iff xs ys)

instance abbrev pub list_eq {ℓ} : {A : Type ℓ} ⦃e : Eq A⦄ → Eq (List A)
list_eq = record { eqb = list_eqb; eqb_iff = list_eqb_iff }

module _ {ℓ κ} {A : Type ℓ} {B : Type κ} ⦃e : Eq A⦄ ⦃f : Eq B⦄ where
  unfoldable pub pair_eqb : A × B → A × B → Bool
  pair_eqb (a, b) (c, d) = (a =? c) && (b =? d)

  pub pair_eqb_iff : (p q : A × B) → (pair_eqb p q ≡ true) ↔ (p ≡ q)
  unfolding pair_eqb
  pair_eqb_iff (a, b) (c, d) = ground (arith, e.eqb_iff a c, f.eqb_iff b d)

instance abbrev pub pair_eq {ℓ κ} : {A : Type ℓ} {B : Type κ} ⦃e : Eq A⦄ ⦃f : Eq B⦄ → Eq (A × B)
pair_eq = record { eqb = pair_eqb; eqb_iff = pair_eqb_iff }

-- Derived equality: a decision of equality as a Boolean test.
unfoldable pub decides {ℓ} : {A : Type ℓ} → Discrete A → A → A → Bool
decides d a b = elim (d a b) [ yes p ↦ true | no p ↦ false ]

pub decides_iff {ℓ} : {A : Type ℓ} (d : Discrete A) (a b : A) → (decides d a b ≡ true) ↔ (a ≡ b)
unfolding decides
decides_iff d a b = ground arith

abbrev pub eq_of_discrete {ℓ} : {A : Type ℓ} → Discrete A → Eq A
eq_of_discrete d = record { eqb = decides d; eqb_iff = decides_iff d }
