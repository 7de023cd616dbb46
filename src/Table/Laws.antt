-- ===== src/Table/Laws.antt =====
-- The interface of a table, and how sums over its entries follow its operations.
use axeno_relay.Prelude.{
  ℕ, ◌+◌, ◌≡◌, Option, none, some, ◌∷◌, arith, Text, text_eq, text_eq_iff, if◌then◌else◌, sum_by,
}
use axeno_relay.Table.Rows.{
  Assoc, lookup, without, Distinct, lookup-without, without-Distinct, share, sum_by-without,
}
use axeno_relay.Table.Entries.{SameEntries, sum_by-SameEntries}

-- A table from byte-string keys to values of `V`.
pub record TableApi (V : Type 0) : Type 1 where
  pub Table : Type 0
  pub empty : Table
  pub get : Table → Text → Option V
  pub insert : Table → Text → V → Table
  pub remove : Table → Text → Table
  -- All the entries, in the order in which the table iterates over them.
  pub entries : Table → Assoc V
  pub get-empty : (k : Text) → get empty k ≡ none
  pub get-insert :
      (t : Table) (k j : Text) (v : V)
      → get (insert t k v) j ≡ (if text_eq k j then some v else get t j)
  pub get-remove :
      (t : Table) (k j : Text) → get (remove t k) j ≡ (if text_eq k j then none else get t j)
  pub lookup-entries : (t : Table) (k : Text) → lookup k (entries t) ≡ get t k
  pub entries-Distinct : (t : Table) → Distinct (entries t)

module _ {V : Type 0} (T : TableApi V) where
  open T use {
    Table, empty, get, insert, remove, entries, get-empty, get-insert, get-remove, lookup-entries,
    entries-Distinct,
  }

  -- The sum of a measure over all entries.
  unfoldable pub total : ((Text × V) → ℕ) → Table → ℕ
  total f t = sum_by f (entries t)

  SameEntries-remove :
      (t : Table) (k : Text) → SameEntries (entries (remove t k)) (without k (entries t))
  SameEntries-remove t k = λ j. ground (
    arith,
    lookup-entries (remove t k) j,
    lookup-entries t j,
    get-remove t k j,
    lookup-without k j (entries t),
  )

  pub total-remove :
      (f : (Text × V) → ℕ) (t : Table) (k : Text)
      → total f (remove t k) + share f k (get t k) ≡ total f t
  unfolding total
  total-remove f t k = ground (
    arith,
    sum_by-SameEntries f (entries (remove t k)) (without k (entries t))
        (entries-Distinct (remove t k)) (without-Distinct k (entries t) (entries-Distinct t))
        (SameEntries-remove t k),
    sum_by-without f k (entries t) (entries-Distinct t),
    lookup-entries t k,
  )

  SameEntries-insert :
      (t : Table) (k : Text) (v : V)
      → SameEntries (entries (insert t k v)) ((k, v) ∷ without k (entries t))
  unfolding lookup
  SameEntries-insert t k v = λ j. ground (
    arith,
    lookup-entries (insert t k v) j,
    lookup-entries t j,
    get-insert t k j v,
    lookup-without k j (entries t),
    text_eq_iff k j,
  )

  insert-Distinct : (t : Table) (k : Text) (v : V) → Distinct ((k, v) ∷ without k (entries t))
  insert-Distinct t k v = ground (
    arith,
    lookup-without k k (entries t),
    text_eq_iff k k,
    without-Distinct k (entries t) (entries-Distinct t),
  )

  pub total-insert :
      (f : (Text × V) → ℕ) (t : Table) (k : Text) (v : V)
      → total f (insert t k v) + share f k (get t k) ≡ total f t + f (k, v)
  unfolding total sum_by
  total-insert f t k v = ground (
    arith,
    sum_by-SameEntries f (entries (insert t k v)) ((k, v) ∷ without k (entries t))
        (entries-Distinct (insert t k v)) (insert-Distinct t k v) (SameEntries-insert t k v),
    sum_by-without f k (entries t) (entries-Distinct t),
    lookup-entries t k,
  )
