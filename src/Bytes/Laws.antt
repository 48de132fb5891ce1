-- ===== src/Bytes/Laws.antt =====
-- Reading behind a prefix and in range, and the round trip of big-endian integers.
use pathweave.Base.{
  append-nil, ℕ, zero, suc, ◌+◌, ◌-◌, ◌^◌, ◌<◌, ◌≡◌, refl, ap, ◌∙◌, List, [], ◌∷◌, ◌++◌, arith,
  length, take, drop, length-append, take-append, ◌≤◌, sym, ap₂,
}
use pathweave.Types.{Bytes, bytes_eq}
use pathweave.Bytes.{index, slice, to_be_bytes, from_be_bytes, ret}

module _ {ℓ} {A : Type ℓ} where
  -- Behind a prefix, positions count from its end.
  pub drop-append_add : (pre xs : List A) (n : ℕ) → drop (length pre + n) (pre ++ xs) ≡ drop n xs
  drop-append_add [] xs n = ap (λ k. drop k xs) (let e : 0 + n ≡ n = omega arith in e)
  drop-append_add (x ∷ pre) xs n =
      ap (λ k. drop k (x ∷ pre ++ xs))
        (let e : length (x ∷ pre) + n ≡ suc (length pre + n) = omega arith in e)
      ∙ drop-append_add pre xs n

pub index-append : (pre xs : Bytes) (i : ℕ) → index (pre ++ xs) (length pre + i) ≡ index xs i
unfolding index
index-append pre xs i = ground (arith, drop-append_add pre xs i)

pub slice-append :
    (pre xs : Bytes) (i j : ℕ) → slice (pre ++ xs) (length pre + i) (length pre + j) ≡ slice xs i j
unfolding slice
slice-append pre xs i j = rw (drop-append_add pre xs i) (ground (arith, length-append pre xs))

-- The byte, and the slice, at the end of a prefix.
pub index_front : (pre : Bytes) (x : ℕ) (xs : Bytes) → index (pre ++ x ∷ xs) (length pre) ≡ ret x
index_front pre x xs =
    ap (index (pre ++ x ∷ xs)) (let e : length pre ≡ length pre + 0 = omega arith in e)
    ∙ index-append pre (x ∷ xs) 0
    ∙ unfold index in refl

pub slice_prefix : (ys xs : Bytes) (n : ℕ) → length ys ≡ n → slice (ys ++ xs) 0 n ≡ ret ys
unfolding slice
slice_prefix ys xs n e =
    let m : n - 0 ≡ n = omega arith in
    ground (arith, length-append ys xs, take-append n ys xs e, ap (λ k. take k (ys ++ xs)) m)

pub slice_front :
    (pre ys xs : Bytes) (n : ℕ)
    → length ys ≡ n
    → slice (pre ++ (ys ++ xs)) (length pre) (length pre + n) ≡ ret ys
slice_front pre ys xs n e =
    ap (λ k. slice (pre ++ (ys ++ xs)) k (length pre + n))
      (let e : length pre ≡ length pre + 0 = omega arith in e)
    ∙ slice-append pre (ys ++ xs) 0 n
    ∙ slice_prefix ys xs n e

-- Two and eight bytes hold a number of 16 and of 64 bits.
pub from_be_bytes-to_be_bytes_two : (v : ℕ) → v < 65536 → from_be_bytes 0 (to_be_bytes 2 v) ≡ v
unfolding from_be_bytes to_be_bytes
from_be_bytes-to_be_bytes_two v h = omega arith

pub from_be_bytes-to_be_bytes_eight : (v : ℕ) → v < 2 ^ 64 → from_be_bytes 0 (to_be_bytes 8 v) ≡ v
unfolding from_be_bytes to_be_bytes
from_be_bytes-to_be_bytes_eight v h = omega arith

pub length-to_be_bytes : (n v : ℕ) → length (to_be_bytes n v) ≡ n
unfolding to_be_bytes
length-to_be_bytes zero v = refl
length-to_be_bytes (suc n) v = ap suc (length-to_be_bytes n v)

-- In range, indexing and slicing return.
pub index-lt : (bytes : Bytes) (i : ℕ) → i < length bytes → (b : ℕ) × (index bytes i ≡ ret b)
unfolding index
index-lt [] i h = absurd (omega arith)
index-lt (b ∷ bytes) zero h = (b, refl)
index-lt (b ∷ bytes) (suc i) h = index-lt bytes i (omega arith)

pub slice-le :
    (bytes : Bytes) (from to : ℕ)
    → from ≤ to
    → to ≤ length bytes
    → slice bytes from to ≡ ret (take (to - from) (drop from bytes))
unfolding slice
slice-le bytes from to h k = ground arith

pub slice_suffix :
    (pre xs : Bytes) (n : ℕ) → length pre ≡ n → slice (pre ++ xs) n (length (pre ++ xs)) ≡ ret xs
slice_suffix pre xs n e =
    ap₂ (λ i j. slice (pre ++ xs) i j) (sym e) (length-append pre xs)
    ∙ ap (λ r. slice (pre ++ r) (length pre) (length pre + length xs)) (sym (append-nil xs))
    ∙ slice_front pre xs [] (length xs) refl
