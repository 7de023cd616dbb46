-- ===== src/QueueStore/Sorting.antt =====
-- The stable sort of `read_mailbox`: it keeps every entry, and puts sequences in order.
use axeno_relay.Prelude.{
  ℕ, ◌+◌, ◌<◌, ◌≡◌, ◌≢◌, refl, List, [], ◌∷◌, arith, leb, All, sum_by, Bool-cases, inl, inr,
}
use axeno_relay.QueueStore.{QueueApi, StoredValue, place, sort_by_seq}

module _ (api : QueueApi) where
  open api use {Uuid}

  abbrev pub Entry : Type 0
  Entry = Uuid × StoredValue

  -- Sequences strictly rise along the list.
  abbrev pub Rising : List Entry → Type 0
  Rising [] = Unit {0}
  Rising (x ∷ xs) = All (λ y. x.1.s < y.1.s) xs × Rising xs

  -- No sequence stands twice.
  abbrev pub Apart : List Entry → Type 0
  Apart [] = Unit {0}
  Apart (x ∷ xs) = All (λ y. x.1.s ≢ y.1.s) xs × Apart xs

  pub place-All :
      (P : Entry → Type 0) (x : Entry) (l : List Entry) → P x → All P l → All P (place api x l)
  unfolding place
  place-All P x [] h k = (h, tt)
  place-All P x (y ∷ ys) h k = elim (Bool-cases (leb x.1.s y.1.s)) [
    | inl e ↦ rw e (h, k)
    | inr e ↦ rw e (k.0, place-All P x ys h k.1)
  ]

  pub sort-All : (P : Entry → Type 0) (l : List Entry) → All P l → All P (sort_by_seq api l)
  unfolding sort_by_seq
  sort-All P [] h = tt
  sort-All P (x ∷ xs) h = place-All P x (sort_by_seq api xs) h.0 (sort-All P xs h.1)

  pub sum_by-place :
      (f : Entry → ℕ) (x : Entry) (l : List Entry) → sum_by f (place api x l) ≡ f x + sum_by f l
  unfolding place sum_by
  sum_by-place f x [] = refl
  sum_by-place f x (y ∷ ys) = ground (arith, sum_by-place f x ys)

  pub sum_by-sort : (f : Entry → ℕ) (l : List Entry) → sum_by f (sort_by_seq api l) ≡ sum_by f l
  unfolding sort_by_seq sum_by
  sum_by-sort f [] = refl
  sum_by-sort f (x ∷ xs) = ground (arith, sum_by-place f x (sort_by_seq api xs), sum_by-sort f xs)

  below-All :
      (n : ℕ) (x : Entry) (l : List Entry)
      → n < x.1.s
      → All (λ y. x.1.s < y.1.s) l
      → All (λ y. n < y.1.s) l
  below-All n x [] h k = tt
  below-All n x (y ∷ ys) h k = (omega arith, below-All n x ys h k.1)

  pub place-Rising :
      (x : Entry) (l : List Entry) → All (λ y. x.1.s ≢ y.1.s) l → Rising l → Rising (place api x l)
  unfolding place
  place-Rising x [] d r = (tt, tt)
  place-Rising x (y ∷ ys) d r = elim (Bool-cases (leb x.1.s y.1.s)) [
    | inl e ↦ let h : x.1.s < y.1.s = ground arith in rw e ((h, below-All x.1.s y ys h r.0), r)
    | inr e ↦
        let h : y.1.s < x.1.s = ground arith in
        rw e (place-All (λ z. y.1.s < z.1.s) x ys h r.0, place-Rising x ys d.1 r.1)
  ]

  pub sort-Rising : (l : List Entry) → Apart l → Rising (sort_by_seq api l)
  unfolding sort_by_seq
  sort-Rising [] d = tt
  sort-Rising (x ∷ xs) d =
      place-Rising x (sort_by_seq api xs) (sort-All (λ y. x.1.s ≢ y.1.s) xs d.0)
        (sort-Rising xs d.1)
