-- ===== src/Router/Candidates.antt =====
-- Which candidates a send tries, and in which order.
use pathweave.Base.{
  ℕ, ◌≤◌, ◌<◌, ◌≡◌, refl, ap, ◌∙◌, List, [], ◌∷◌, ◌++◌, arith, ◌==◌, keep_if, All, All-append,
  All-mono,
}
use pathweave.Types.{bytes_eq, TransportCost, free, metered, unknown}
use pathweave.Router.{rank, Candidate, sort_insert, sort_by_cost}
use pathweave.Types.{TransportKind-eq}

-- The candidates of one cost, in the order of registration.
abbrev pub of_rank : ℕ → List Candidate → List Candidate
of_rank n = keep_if (λ c. rank c.0.cost == n)

rank-le : (c : TransportCost) → rank c ≤ 2
unfolding rank
rank-le free = omega arith
rank-le metered = omega arith
rank-le unknown = omega arith

abbrev pub by_cost : List Candidate → List Candidate
by_cost cs = of_rank 0 cs ++ (of_rank 1 cs ++ of_rank 2 cs)

sort_insert-front :
    (c : Candidate) (xs ys : List Candidate)
    → All (λ d. rank d.0.cost < rank c.0.cost) xs
    → sort_insert c (xs ++ ys) ≡ xs ++ sort_insert c ys
unfolding sort_insert
sort_insert-front c [] ys h = refl
sort_insert-front c (x ∷ xs) ys h = ground (arith, sort_insert-front c xs ys h.1)

sort_insert-here :
    (c : Candidate) (ys : List Candidate)
    → All (λ d. rank c.0.cost ≤ rank d.0.cost) ys
    → sort_insert c ys ≡ c ∷ ys
unfolding sort_insert
sort_insert-here c [] h = refl
sort_insert-here c (y ∷ ys) h = ground arith

of_rank-All : (n : ℕ) (cs : List Candidate) → All (λ c. rank c.0.cost ≡ n) (of_rank n cs)
of_rank-All n [] = tt
of_rank-All n (c ∷ cs) = ground (arith, of_rank-All n cs)

below : (n m : ℕ) (cs : List Candidate) → n < m → All (λ c. rank c.0.cost < m) (of_rank n cs)
below n m cs h = All-mono _ _ (of_rank n cs) (λ c e. omega arith) (of_rank-All n cs)

above : (n m : ℕ) (cs : List Candidate) → m ≤ n → All (λ c. m ≤ rank c.0.cost) (of_rank n cs)
above n m cs h = All-mono _ _ (of_rank n cs) (λ c e. omega arith) (of_rank-All n cs)

module _ (c : Candidate) (cs : List Candidate) where
  at_least :
      (m : ℕ) (xs : List Candidate)
      → rank c.0.cost ≡ m
      → All (λ d. m ≤ rank d.0.cost) xs
      → All (λ d. rank c.0.cost ≤ rank d.0.cost) xs
  at_least m xs r = All-mono _ _ xs (λ d h. omega arith)

  more_than :
      (m : ℕ) (xs : List Candidate)
      → rank c.0.cost ≡ m
      → All (λ d. rank d.0.cost < m) xs
      → All (λ d. rank d.0.cost < rank c.0.cost) xs
  more_than m xs r = All-mono _ _ xs (λ d h. omega arith)

  dear : (m : ℕ) → m ≤ 1 → All (λ d. m ≤ rank d.0.cost) (of_rank 1 cs ++ of_rank 2 cs)
  dear m h =
      All-append _ (of_rank 1 cs) (of_rank 2 cs) (above 1 m cs h) (above 2 m cs (omega arith))

  -- The sort puts a candidate behind the cheaper ones and before the others.
  place : (cost : TransportCost) → c.0.cost ≡ cost → sort_insert c (by_cost cs) ≡ by_cost (c ∷ cs)
  place free e =
      let r : rank c.0.cost ≡ 0 = ap rank e ∙ unfold rank in refl in
      sort_insert-here c (by_cost cs) (
        at_least 0 (by_cost cs) r
          (All-append _ (of_rank 0 cs) _ (above 0 0 cs (omega arith)) (dear 0 (omega arith))))
      ∙ ground (arith, r)
  place metered e =
      let r : rank c.0.cost ≡ 1 = ap rank e ∙ unfold rank in refl in
      let rest = of_rank 1 cs ++ of_rank 2 cs in
      sort_insert-front c (of_rank 0 cs) rest
        (more_than 1 (of_rank 0 cs) r (below 0 1 cs (omega arith)))
      ∙ ap (◌++◌ (of_rank 0 cs))
          (sort_insert-here c rest (at_least 1 rest r (dear 1 (omega arith))))
      ∙ ground (arith, r)
  place unknown e =
      let r : rank c.0.cost ≡ 2 = ap rank e ∙ unfold rank in refl in
      let rest = of_rank 2 cs in
      sort_insert-front c (of_rank 0 cs) (of_rank 1 cs ++ rest)
        (more_than 2 (of_rank 0 cs) r (below 0 2 cs (omega arith)))
      ∙ ap (◌++◌ (of_rank 0 cs)) (
          sort_insert-front c (of_rank 1 cs) rest
            (more_than 2 (of_rank 1 cs) r (below 1 2 cs (omega arith)))
          ∙ ap (◌++◌ (of_rank 1 cs))
              (sort_insert-here c rest (at_least 2 rest r (above 2 2 cs (omega arith)))))
      ∙ ground (arith, r)

-- The stable sort lists the free candidates first, then the metered, then the unknown, each group
-- in the order in which it was before.
pub sort_by_cost-by_cost : (cs : List Candidate) → sort_by_cost cs ≡ by_cost cs
unfolding sort_by_cost
sort_by_cost-by_cost [] = refl
sort_by_cost-by_cost (c ∷ cs) =
    ap (sort_insert c) (sort_by_cost-by_cost cs) ∙ place c cs c.0.cost refl
