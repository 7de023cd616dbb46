-- ===== src/Table/Rows.antt =====
-- Association lists with byte-string keys: what iterating over a table yields.
use axeno_relay.Prelude.{
  ℕ, ◌+◌, ◌≡◌, refl, Option, none, some, List, [], ◌∷◌, arith, Text, text_eq, text_eq_iff,
  if◌then◌else◌, sum_by,
}

abbrev pub Assoc : Type 0 → Type 0
Assoc V = List (Text × V)

module _ {V : Type 0} where
  unfoldable pub lookup : Text → Assoc V → Option V
  lookup k [] = none
  lookup k ((j, v) ∷ l) = if text_eq j k then some v else lookup k l

  unfoldable pub without : Text → Assoc V → Assoc V
  without k [] = []
  without k ((j, v) ∷ l) = let rest = without k l in if text_eq j k then rest else (j, v) ∷ rest

  -- No key stands twice.
  abbrev pub Distinct : Assoc V → Type 0
  Distinct [] = Unit {0}
  Distinct ((j, v) ∷ l) = (lookup j l ≡ none) × Distinct l

  pub lookup-without :
      (k j : Text) (l : Assoc V)
      → lookup j (without k l) ≡ (if text_eq k j then none else lookup j l)
  unfolding lookup without
  lookup-without k j [] = ground arith
  lookup-without k j ((i, v) ∷ l) =
      ground (arith, lookup-without k j l, text_eq_iff i k, text_eq_iff i j, text_eq_iff k j)

  pub without-Distinct : (k : Text) (l : Assoc V) → Distinct l → Distinct (without k l)
  unfolding without
  without-Distinct k [] d = tt
  without-Distinct k ((i, v) ∷ l) d = ground (arith, without-Distinct k l d.1, lookup-without k i l)

  pub without_absent : (k : Text) (l : Assoc V) → lookup k l ≡ none → without k l ≡ l
  unfolding lookup without
  without_absent k [] h = refl
  without_absent k ((i, v) ∷ l) h = ground (arith, without_absent k l)

  -- What a key contributes to a sum over the entries.
  abbrev pub share : ((Text × V) → ℕ) → Text → Option V → ℕ
  share f k none = 0
  share f k (some v) = f (k, v)

  pub sum_by-without :
      (f : (Text × V) → ℕ) (k : Text) (l : Assoc V)
      → Distinct l
      → sum_by f (without k l) + share f k (lookup k l) ≡ sum_by f l
  unfolding lookup without sum_by
  sum_by-without f k [] d = omega arith
  sum_by-without f k ((i, v) ∷ l) d =
      ground (arith, text_eq_iff i k, sum_by-without f k l d.1, without_absent k l)
