-- ===== src/Bundle/Fragments.antt =====
-- The loop of `send_bytes` that cuts a message into fragments.
use pathweave.Base.{
  ℕ, zero, suc, ◌+◌, ◌-◌, ◌*◌, ◌≤◌, ◌<◌, ◌≡◌, refl, ap, ◌∙◌, List, [], ◌∷◌, ◌++◌, none, some, arith,
  length, take, drop, All, length-take, length-drop, take-append-drop,
}
use pathweave.Types.{Bytes, bytes_eq}
use pathweave.Bundle.{Bpv7, fragment, fragments}

-- The bytes that the fragments carry, one after the other.
abbrev pub carried : List Bpv7 → Bytes
carried [] = []
carried (b ∷ bundles) = elim b.payload [
  | none ↦ carried bundles
  | some chunk ↦ chunk ++ carried bundles
]

-- A payload of at least one byte and at most `max`.
abbrev pub IsWithin : ℕ → Bpv7 → Type 0
IsWithin max b =
    (chunk : Bytes) × (b.payload ≡ some chunk) × (0 < length chunk) × (length chunk ≤ max)

fragments-fuel :
    (f g max_payload seq total_len offset : ℕ) (rest : Bytes)
    → 0 < max_payload
    → length rest ≤ f
    → length rest ≤ g
    → fragments f max_payload seq total_len offset rest
      ≡ fragments g max_payload seq total_len offset rest
unfolding fragments
fragments-fuel zero zero max seq total offset [] pos h k = refl
fragments-fuel zero (suc g) max seq total offset [] pos h k = refl
fragments-fuel (suc f) zero max seq total offset [] pos h k = refl
fragments-fuel (suc f) (suc g) max seq total offset [] pos h k = refl
fragments-fuel zero g max seq total offset (b ∷ rest) pos h k = absurd (omega arith)
fragments-fuel (suc f) zero max seq total offset (b ∷ rest) pos h k = absurd (omega arith)
fragments-fuel (suc f) (suc g) max seq total offset (b ∷ rest) pos h k =
    let chunk = take max (b ∷ rest) in
    let left = drop max (b ∷ rest) in
    let shorter = length-drop max (b ∷ rest) in
    ap (λ l. fragment seq total offset chunk ∷ l)
      (fragments-fuel f g max seq total (offset + length chunk) left pos (omega (arith, shorter))
        (omega (arith, shorter)))

one_more :
    (n max left size : ℕ)
    → 0 < max
    → 0 < size
    → left ≡ size - max
    → n * max < left + max
    → suc n * max < size + max
one_more zero max left size pos some_left e few = grind arith
one_more (suc n) max left size pos some_left e few = grind arith

fragments-carry :
    (fuel max_payload seq total_len offset : ℕ) (rest : Bytes)
    → 0 < max_payload
    → length rest ≤ fuel
    → let bundles = fragments fuel max_payload seq total_len offset rest in
      (carried bundles ≡ rest)
      × All (IsWithin max_payload) bundles
      × (length bundles * max_payload < length rest + max_payload)
unfolding fragments fragment
fragments-carry zero max seq total offset [] pos h = (refl, tt, omega arith)
fragments-carry (suc fuel) max seq total offset [] pos h = (refl, tt, omega arith)
fragments-carry zero max seq total offset (b ∷ rest) pos h = absurd (omega arith)
fragments-carry (suc fuel) max seq total offset (b ∷ rest) pos h =
    let chunk = take max (b ∷ rest) in
    let left = drop max (b ∷ rest) in
    let shorter = length-drop max (b ∷ rest) in
    let (all, within, few) =
      fragments-carry fuel max seq total (offset + length chunk) left pos
        (omega (arith, shorter)) in
    let size = length-take max (b ∷ rest) in
    (
      ap (λ l. chunk ++ l) all ∙ take-append-drop max (b ∷ rest),
      ((chunk, refl, omega (arith, size), omega (arith, size)), within),
      one_more (length (fragments fuel max seq total (offset + length chunk) left)) max
          (length left) (suc (length rest)) pos (omega arith) shorter few,
    )

-- The loop ends: after at most as many rounds as the message has bytes nothing is left, and more rounds
-- would add nothing. Its fragments carry the message, each between one byte and `max_payload` of it,
-- and are no more than needed, if there is room for a byte in a fragment.
pub fragments-ends :
    (fuel max_payload seq total_len offset : ℕ) (rest : Bytes)
    → 0 < max_payload
    → length rest ≤ fuel
    → let bundles = fragments fuel max_payload seq total_len offset rest in
      (bundles ≡ fragments (length rest) max_payload seq total_len offset rest)
      × (carried bundles ≡ rest)
      × All (IsWithin max_payload) bundles
      × (length bundles * max_payload < length rest + max_payload)
fragments-ends fuel max_payload seq total_len offset rest pos h =
    let parts = fragments-carry fuel max_payload seq total_len offset rest pos h in
    (
      fragments-fuel fuel (length rest) max_payload seq total_len offset rest pos h (omega arith),
      parts.0,
      parts.1,
      parts.2,
    )
