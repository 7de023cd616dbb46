-- ===== src/QueueStore/Order.antt =====
-- A mailbox's listing is determined: rising sequences, rows of the table, and the right sums make
-- it the list that a read returns.
use axeno_relay.Prelude.{
  ℕ, ◌+◌, ◌<◌, ◌≡◌, refl, sym, ap, ◌∙◌, List, [], ◌∷◌, arith, Bool-cases, inl, inr, Text, IsFreeOf,
  sum_by, map, All, ltb, ◌==◌, if◌then◌else◌,
}
use axeno_relay.Table.{total}
use axeno_relay.QueueStore.{QueueApi, StoredValue, mailbox_rows}
use axeno_relay.QueueStore.Invariant.{AllRows, UniqueSeqs, weigh_in}
use axeno_relay.QueueStore.Keys.{key_for_injective}
use axeno_relay.QueueStore.Sorting.{Entry, Rising}
use axeno_relay.QueueStore.Reading.{
  Stored, mailbox_rows-Rising, mailbox_rows-Stored, sum_by-mailbox_rows,
}

-- The measure that counts one sequence.
abbrev has_seq : ℕ → StoredValue → ℕ
has_seq n v = if v.s == n then 1 else 0

module _ (api : QueueApi) where
  open api use {Uuid, from_slice}
  open api.db use {Table as Envelopes, get as get_row}

  count_seq : ℕ → List (Entry api) → ℕ
  count_seq n = sum_by (λ p. has_seq n p.1)

  count_seq-above : (n : ℕ) (l : List (Entry api)) → All (λ y. n < y.1.s) l → count_seq n l ≡ 0
  unfolding count_seq sum_by
  count_seq-above n [] h = refl
  count_seq-above n (y ∷ l) h = ground (arith, count_seq-above n l h.1)

  above-All :
      (n : ℕ) (x : Entry api) (l : List (Entry api))
      → n < x.1.s
      → All (λ y. x.1.s < y.1.s) l
      → All (λ y. n < y.1.s) l
  above-All n x [] h r = tt
  above-All n x (y ∷ l) h r = (omega arith, above-All n x l h r.1)

  -- A sequence below the head of a rising list does not occur.
  count_seq-below_head :
      (n : ℕ) (x : Entry api) (l : List (Entry api))
      → n < x.1.s
      → Rising api (x ∷ l)
      → count_seq n (x ∷ l) ≡ 0
  count_seq-below_head n x l h r = count_seq-above n (x ∷ l) (h, above-All n x l h r.0)

  count_seq-head :
      (x : Entry api) (l : List (Entry api)) → count_seq x.1.s (x ∷ l) ≡ 1 + count_seq x.1.s l
  unfolding count_seq sum_by
  count_seq-head x l = ground arith

  abbrev pub seqs : List (Entry api) → List ℕ
  seqs = map (λ p. p.1.s)

  same_heads :
      (x y : Entry api) (xs ys : List (Entry api))
      → Rising api (x ∷ xs)
      → Rising api (y ∷ ys)
      → ((n : ℕ) → count_seq n (x ∷ xs) ≡ count_seq n (y ∷ ys))
      → x.1.s ≡ y.1.s
  same_heads x y xs ys rx ry h = elim (Bool-cases (ltb x.1.s y.1.s)) [
    | inl lt ↦ absurd (
        omega
          (arith, count_seq-below_head x.1.s y ys (ground arith) ry, count_seq-head x xs, h x.1.s))
    | inr ge ↦ elim (Bool-cases (ltb y.1.s x.1.s)) [
      | inl lt ↦ absurd (
          omega (
            arith,
            count_seq-below_head y.1.s x xs (ground arith) rx,
            count_seq-head y ys,
            h y.1.s,
          ))
      | inr ge' ↦ ground arith
    ]
  ]

  same_tails :
      (x y : Entry api) (xs ys : List (Entry api))
      → x.1.s ≡ y.1.s
      → ((n : ℕ) → count_seq n (x ∷ xs) ≡ count_seq n (y ∷ ys))
      → (n : ℕ) → count_seq n xs ≡ count_seq n ys
  unfolding count_seq sum_by
  same_tails x y xs ys e h n = ground (arith, h n, e)

  -- Rising lists in which every sequence occurs equally often have the same sequences.
  seqs_determined :
      (xs ys : List (Entry api))
      → Rising api xs
      → Rising api ys
      → ((n : ℕ) → count_seq n xs ≡ count_seq n ys)
      → seqs xs ≡ seqs ys
  seqs_determined [] [] rx ry h = refl
  seqs_determined [] (y ∷ ys) rx ry h =
      absurd (omega (arith, count_seq-head y ys, h y.1.s, count_seq-above y.1.s [] tt))
  seqs_determined (x ∷ xs) [] rx ry h =
      absurd (omega (arith, count_seq-head x xs, h x.1.s, count_seq-above x.1.s [] tt))
  seqs_determined (x ∷ xs) (y ∷ ys) rx ry h =
      let head = same_heads x y xs ys rx ry h in
      let tail = seqs_determined xs ys rx.1 ry.1 (same_tails x y xs ys head h) in cc

  module _ (mailbox : Text) (free : IsFreeOf b':' mailbox) (n : ℕ) (db : Envelopes)
      (rows : AllRows api n db) (unique : UniqueSeqs api db) where
    -- A sequence names one row.
    Stored-determined :
        (x y : Entry api)
        → Stored api db mailbox x
        → Stored api db mailbox y
        → x.1.s ≡ y.1.s
        → x ≡ y
    Stored-determined x y (b, gx, dx) (c, gy, dy) e =
        let key = unique _ _ b c x.1 y.1 gx gy dx dy e in
        let ids = (key_for_injective api mailbox mailbox x.0 y.0 free free key).1 in
        let values : x.1 ≡ y.1 = ground (arith, ap (get_row db) key, gx, gy, dx, dy) in
        λ i. (ids i, values i)

    All-determined :
        (xs ys : List (Entry api))
        → All (Stored api db mailbox) xs
        → All (Stored api db mailbox) ys
        → seqs xs ≡ seqs ys
        → xs ≡ ys
    All-determined [] [] hx hy e = refl
    All-determined [] (y ∷ ys) hx hy e = cc
    All-determined (x ∷ xs) [] hx hy e = cc
    All-determined (x ∷ xs) (y ∷ ys) hx hy e =
        let head = Stored-determined x y hx.0 hy.0 (ground arith) in
        let tail = All-determined xs ys hx.1 hy.1 (ground arith) in cc

    -- The list that a read returns is the only one like it.
    pub mailbox_rows_determined :
        (xs : List (Entry api))
        → Rising api xs
        → All (Stored api db mailbox) xs
        → ((f : StoredValue → ℕ)
            → sum_by (λ p. f p.1) xs ≡ total api.db (weigh_in api mailbox f) db)
        → mailbox_rows api db mailbox ≡ xs
    unfolding count_seq
    mailbox_rows_determined xs rising stored sums =
        All-determined (mailbox_rows api db mailbox) xs
          (mailbox_rows-Stored api mailbox free n db rows) stored
          (seqs_determined (mailbox_rows api db mailbox) xs
            (mailbox_rows-Rising api mailbox free n db unique rows) rising
            (λ k.
              sum_by-mailbox_rows api mailbox free n db (has_seq k) rows ∙ sym (sums (has_seq k))))
