-- ===== src/Dedup/Repeat.antt =====
-- The second of two copies of a message.
use pathweave.Base.{
  ℕ, ◌+◌, ◌≤◌, ◌<◌, Bool, true, false, ◌≡◌, refl, ◌∙◌, [], ◌∷◌, some, arith, inl, inr, Bool-cases,
  keep_if, Eq, eqb_refl,
}
use pathweave.Base.Map
use pathweave.Base.Map.{Map, contains, get-insert}
use pathweave.Dedup.{is_live, retain, check}

module _ {ℓ κ} {K : Type ℓ} {V : Type κ} ⦃e : Eq K⦄ where
  -- A filter that keeps what a lookup finds keeps the key.
  contains-keep_if :
      (p : V → Bool) (k : K) (m : Map K V) (v : V)
      → Map.get k m ≡ some v
      → p v ≡ true
      → contains k (keep_if (λ entry. p entry.1) m) ≡ true
  unfolding Map.get
  contains-keep_if p k [] v g h = absurd (ground arith)
  contains-keep_if p k ((j, u) ∷ m) v g h = ground (arith, contains-keep_if p k m v)

module _ {ℓ} {K : Type ℓ} ⦃e : Eq K⦄ where
  -- A key that was no duplicate is one until its `ttl` has passed.
  pub check-check :
      (ttl now later : ℕ) (key : K) (seen : Map K ℕ)
      → now ≤ later
      → later < now + ttl
      → (check ttl now key seen).1 ≡ false
      → (check ttl later key (check ttl now key seen).0).1 ≡ true
  unfolding check retain
  check-check ttl now later key seen le lt fresh =
      let live = retain ttl now seen in
      let hit : Map.get key (Map.insert key now live) ≡ some now =
        get-insert key key now live ∙ rw (eqb_refl key) refl in
      let kept =
        contains-keep_if (is_live ttl later) key (Map.insert key now live) now hit
          (unfold is_live in ground arith) in
      elim (Bool-cases (contains key live)) [
        | inl old ↦ absurd (ground arith)
        | inr new ↦ rw new (ground (arith, kept))
      ]
