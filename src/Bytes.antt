-- ===== src/Bytes.antt =====
-- Byte slices as the source reads them: indexing and slicing that panic out of range, big-endian
-- integers (`to_be_bytes`, `from_be_bytes`), and `std::str::from_utf8`.
pub mod Laws
pub mod Utf8
use pathweave.Base.{
  ℕ, zero, suc, ◌+◌, ◌-◌, ◌*◌, ◌/◌, ◌%◌, ◌^◌, ◌<◌, ◌&&◌, ◌≡◌, ◌⊎◌, inl, inr, refl, [], ◌∷◌, leb,
  if◌then◌else◌, length, take, drop,
}
use pathweave.Types.{Bytes, bytes_eq}

-- What a function that may panic returns.
pub data Fault {ℓ} (A : Type ℓ) : Type ℓ where
  panic : Fault A
  ret : A → Fault A

infixl 5 ◌>>=◌
abbrev pub ◌>>=◌ {ℓ κ} : {A : Type ℓ} {B : Type κ} → Fault A → (A → Fault B) → Fault B
panic >>= f = panic
ret a >>= f = f a

pub Fault-cases {ℓ} : {A : Type ℓ} (r : Fault A) → (r ≡ panic) ⊎ ((a : A) × (r ≡ ret a))
Fault-cases panic = inl refl
Fault-cases (ret a) = inr (a, refl)

-- `bytes[i]`.
unfoldable pub index : Bytes → ℕ → Fault ℕ
index bytes i = elim (drop i bytes) [ [] ↦ panic | b ∷ rest ↦ ret b ]

-- `&bytes[from..to]`.
unfoldable pub slice : Bytes → ℕ → ℕ → Fault Bytes
slice bytes from to =
    if leb from to && leb to (length bytes) then ret (take (to - from) (drop from bytes)) else panic

-- `to_be_bytes` and `from_be_bytes`, for the given number of bytes.
unfoldable pub to_be_bytes : ℕ → ℕ → Bytes
to_be_bytes zero v = []
to_be_bytes (suc n) v = (v / 256 ^ n % 256) ∷ to_be_bytes n v

unfoldable pub from_be_bytes : ℕ → Bytes → ℕ
from_be_bytes acc [] = acc
from_be_bytes acc (b ∷ bs) = from_be_bytes (acc * 256 + b) bs

abbrev pub IsByte : ℕ → Type 0
IsByte b = b < 256
