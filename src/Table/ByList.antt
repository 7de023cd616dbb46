-- ===== src/Table/ByList.antt =====
-- A table that meets the interface: an association list without repeated keys.
use axeno_relay.Prelude.{
  ◌≡◌, refl, none, some, [], ◌∷◌, arith, Text, text_eq, text_eq_iff, if◌then◌else◌,
}
use axeno_relay.Table.Rows.{Assoc, lookup, without, Distinct, lookup-without, without-Distinct}
use axeno_relay.Table.Laws.{TableApi}

pub record ListTable (V : Type 0) : Type 0 where
  pub items : Assoc V
  pub distinct : Distinct items

module _ {V : Type 0} where
  pub lookup-without_self : (k : Text) (l : Assoc V) → lookup k (without k l) ≡ none
  lookup-without_self k l = ground (arith, lookup-without k k l, text_eq_iff k k)

  unfoldable pub insert : ListTable V → Text → V → ListTable V
  insert t k v = record {
    items = (k, v) ∷ without k t.items;
    distinct = (lookup-without_self k t.items, without-Distinct k t.items t.distinct);
  }

  unfoldable pub remove : ListTable V → Text → ListTable V
  remove t k = record {
    items = without k t.items;
    distinct = without-Distinct k t.items t.distinct;
  }

  pub lookup-insert :
      (t : ListTable V) (k j : Text) (v : V)
      → lookup j (insert t k v).items ≡ (if text_eq k j then some v else lookup j t.items)
  unfolding insert lookup
  lookup-insert t k j v = ground (arith, lookup-without k j t.items)

  pub lookup-remove :
      (t : ListTable V) (k j : Text)
      → lookup j (remove t k).items ≡ (if text_eq k j then none else lookup j t.items)
  unfolding remove
  lookup-remove t k j = lookup-without k j t.items

  pub nothing_inside : (k : Text) → lookup {V = V} k [] ≡ none
  unfolding lookup
  nothing_inside k = refl

abbrev pub list_table : (V : Type 0) → TableApi V
list_table V = record {
  Table = ListTable V;
  empty = record { items = []; distinct = tt };
  get = λ t k. lookup k t.items;
  insert = insert;
  remove = remove;
  entries = λ t. t.items;
  get-empty = nothing_inside;
  get-insert = lookup-insert;
  get-remove = lookup-remove;
  lookup-entries = λ t k. refl;
  entries-Distinct = λ t. t.distinct;
}
