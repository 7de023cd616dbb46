-- ===== src/Table/Entries.antt =====
-- Two listings of the same table differ only in order, so that sums over them agree.
use axeno_relay.Prelude.{
  ℕ, ◌≡◌, refl, none, some, [], ◌∷◌, arith, Text, text_eq_iff, text_eq_refl, sum_by,
}
use axeno_relay.Table.Rows.{
  Assoc, lookup, without, Distinct, lookup-without, without-Distinct, sum_by-without,
}

module _ {V : Type 0} where
  -- Both listings give every key the same value.
  abbrev pub SameEntries : Assoc V → Assoc V → Type 0
  SameEntries xs ys = (k : Text) → lookup k xs ≡ lookup k ys

  lookup-head : (k : Text) (v : V) (xs : Assoc V) → lookup k ((k, v) ∷ xs) ≡ some v
  unfolding lookup
  lookup-head k v xs = ground (arith, text_eq_refl k)

  pub SameEntries-tail :
      (k : Text) (v : V) (xs ys : Assoc V)
      → lookup k xs ≡ none
      → SameEntries ((k, v) ∷ xs) ys
      → SameEntries xs (without k ys)
  unfolding lookup
  SameEntries-tail k v xs ys fresh same =
      λ j. ground (arith, lookup-without k j ys, same j, text_eq_iff k j)

  pub SameEntries-nil : (ys : Assoc V) → SameEntries [] ys → ys ≡ []
  unfolding lookup
  SameEntries-nil [] same = refl
  SameEntries-nil ((k, v) ∷ ys) same = ground (arith, same k, text_eq_refl k)

  -- A sum over the entries does not depend on the order in which they are visited.
  pub sum_by-SameEntries :
      (f : (Text × V) → ℕ) (xs ys : Assoc V)
      → Distinct xs
      → Distinct ys
      → SameEntries xs ys
      → sum_by f xs ≡ sum_by f ys
  unfolding sum_by
  sum_by-SameEntries f [] ys dx dy same = rw (SameEntries-nil ys same) refl
  sum_by-SameEntries f ((k, v) ∷ xs) ys dx dy same = ground (
    arith,
    sum_by-SameEntries f xs (without k ys) dx.1 (without-Distinct k ys dy)
        (SameEntries-tail k v xs ys dx.0 same),
    sum_by-without f k ys dy,
    same k,
    lookup-head k v xs,
  )
