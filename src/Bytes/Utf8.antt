-- ===== src/Bytes/Utf8.antt =====
-- `std::str::from_utf8` (the table of well-formed sequences, Unicode 3.9): a lead byte determines
-- the ranges of the bytes that must follow it.
use pathweave.Base.{
  ℕ, Bool, true, false, ◌&&◌, List, [], ◌∷◌, Option, none, some, ltb, leb, ◌==◌, if◌then◌else◌,
}
use pathweave.Types.{Bytes, bytes_eq}

abbrev within : ℕ → ℕ → ℕ → Bool
within lo hi b = leb lo b && leb b hi

-- The ranges of the bytes after the lead byte; `none` where no sequence begins so.
unfoldable pub followers : ℕ → Option (List (ℕ × ℕ))
followers b =
    if ltb b 0x80
    then some []
    else if within 0xC2 0xDF b
    then some ((0x80, 0xBF) ∷ [])
    else if b == 0xE0
    then some ((0xA0, 0xBF) ∷ (0x80, 0xBF) ∷ [])
    else if b == 0xED
    then some ((0x80, 0x9F) ∷ (0x80, 0xBF) ∷ [])
    else if within 0xE1 0xEF b
    then some ((0x80, 0xBF) ∷ (0x80, 0xBF) ∷ [])
    else if b == 0xF0
    then some ((0x90, 0xBF) ∷ (0x80, 0xBF) ∷ (0x80, 0xBF) ∷ [])
    else if within 0xF1 0xF3 b
    then some ((0x80, 0xBF) ∷ (0x80, 0xBF) ∷ (0x80, 0xBF) ∷ [])
    else if b == 0xF4
    then some ((0x80, 0x8F) ∷ (0x80, 0xBF) ∷ (0x80, 0xBF) ∷ [])
    else none

unfoldable pub check_utf8 : List (ℕ × ℕ) → Bytes → Bool
check_utf8 [] [] = true
check_utf8 (r ∷ rs) [] = false
check_utf8 [] (b ∷ bs) = elim (followers b) [ none ↦ false | some rs ↦ check_utf8 rs bs ]
check_utf8 ((lo, hi) ∷ rs) (b ∷ bs) = let rest = check_utf8 rs bs in within lo hi b && rest

unfoldable pub is_utf8 : Bytes → Bool
unfolding check_utf8 followers
is_utf8 bytes = check_utf8 [] bytes

-- `from_utf8(bytes).ok()`; a `String` is the list of its bytes.
unfoldable pub from_utf8 : Bytes → Option Bytes
from_utf8 bytes = if is_utf8 bytes then some bytes else none
