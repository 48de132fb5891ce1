-- ===== src/Bundle/Collect.antt =====
-- What the receiver collects of one sequence of fragments, and when it is complete.
use pathweave.Base.{
  nat_eq, ℕ, ◌+◌, ◌≤◌, ◌<◌, true, false, ◌≡◌, refl, sym, ap, ◌∙◌, List, [], ◌∷◌, ◌++◌, append_assoc,
  append-nil, none, some, arith, length, All, eqb_refl, All-append, All-mono,
}
use pathweave.Base.Map
use pathweave.Base.Map.{Map, get-insert}
use pathweave.Types.{Bytes, bytes_eq, ok}
use pathweave.Bundle.{
  conclude, add, received, joined, PendingBundle, received_len, is_complete, reassemble,
  btree_insert, or_insert, accept,
}

received-append : (xs ys : List (ℕ × Bytes)) → received (xs ++ ys) ≡ received xs + received ys
unfolding received
received-append [] ys = omega arith
received-append ((o, c) ∷ xs) ys = let rest = received-append xs ys in omega arith

joined-append : (xs ys : List (ℕ × Bytes)) → joined (xs ++ ys) ≡ joined xs ++ joined ys
unfolding joined
joined-append [] ys = refl
joined-append ((o, c) ∷ xs) ys =
    ap (λ l. c ++ l) (joined-append xs ys) ∙ sym (append_assoc c (joined xs) (joined ys))

pub joined_last :
    (done : List (ℕ × Bytes)) (offset : ℕ) (chunk : Bytes)
    → joined (done ++ (offset, chunk) ∷ []) ≡ joined done ++ chunk
joined_last done offset chunk =
    let one : joined ((offset, chunk) ∷ []) ≡ chunk = unfold joined in append-nil chunk in
    joined-append done ((offset, chunk) ∷ []) ∙ ap (λ l. joined done ++ l) one

-- A fragment behind all others goes to the end.
btree_insert_last :
    (offset : ℕ) (chunk : Bytes) (done : List (ℕ × Bytes))
    → All (λ f. f.0 < offset) done
    → btree_insert offset chunk done ≡ done ++ (offset, chunk) ∷ []
unfolding btree_insert
btree_insert_last offset chunk [] h = refl
btree_insert_last offset chunk ((o, c) ∷ done) h =
    let below = h.0 in let rest = btree_insert_last offset chunk done h.1 in ground (arith, rest)

-- The bundle that collects `seq`.
abbrev pub Collects : ℕ → ℕ → List (ℕ × Bytes) → Map ℕ PendingBundle → Type 0
Collects seq total done pending =
    or_insert seq total pending ≡ record { total_data_length = total; fragments = done }

pub or_insert-insert :
    (seq total : ℕ) (p : PendingBundle) (pending : Map ℕ PendingBundle)
    → or_insert seq total (Map.insert seq p pending) ≡ p
unfolding or_insert
or_insert-insert seq total p pending = ground (arith, get-insert seq seq p pending, eqb_refl seq)

module _ (seq total : ℕ) (pending : Map ℕ PendingBundle) (done : List (ℕ × Bytes)) (offset : ℕ)
    (chunk : Bytes) (collects : Collects seq total done pending)
    (below : All (λ f. f.0 < offset) done) (so_far : received done ≡ offset) where
  abbrev with_chunk : PendingBundle
  with_chunk = record { total_data_length = total; fragments = done ++ (offset, chunk) ∷ [] }

  collected : add offset chunk (or_insert seq total pending) ≡ with_chunk
  unfolding add
  collected =
      ap (add offset chunk) collects
      ∙ ap (λ fs. let p : PendingBundle = record { total_data_length = total; fragments = fs } in p)
          (btree_insert_last offset chunk done below)

  pub amount : received (done ++ (offset, chunk) ∷ []) ≡ offset + length chunk
  amount =
      let last : received ((offset, chunk) ∷ []) ≡ length chunk + 0 = unfold received in refl in
      omega (arith, received-append done ((offset, chunk) ∷ []))

  pub accept_last :
      total ≤ offset + length chunk
      → (accept pending seq offset total chunk).1 ≡ some (ok (joined done ++ chunk))
  unfolding accept
  accept_last full =
      let text = joined_last done offset chunk in
      let all : is_complete with_chunk ≡ true =
        unfold is_complete received_len in let a = amount in ground arith in
      let now : (conclude pending seq with_chunk).1
          ≡ some (ok (joined (done ++ (offset, chunk) ∷ []))) =
        unfold conclude reassemble in rw all refl in
      ap (λ p. (conclude pending seq p).1) collected ∙ now ∙ ap (λ t. some (ok t)) text

  pub accept_more :
      offset + length chunk < total
      → accept pending seq offset total chunk ≡ (Map.insert seq with_chunk pending, none)
  unfolding accept
  accept_more missing =
      let some_left : is_complete with_chunk ≡ false =
        unfold is_complete received_len in let a = amount in ground arith in
      ap (conclude pending seq) collected ∙ (unfold conclude in rw some_left refl)

pub All-below :
    (offset more : ℕ) (chunk : Bytes) (done : List (ℕ × Bytes))
    → offset < more
    → All (λ f. f.0 < offset) done
    → All (λ f. f.0 < more) (done ++ (offset, chunk) ∷ [])
All-below offset more chunk done lt h =
    All-append (λ f. f.0 < more) done ((offset, chunk) ∷ [])
      (All-mono (λ f. f.0 < offset) (λ f. f.0 < more) done (λ f below. omega arith) h) (lt, tt)
