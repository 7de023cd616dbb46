-- ===== src/QueueStore/Eviction.antt =====
-- The eviction of `enqueue`: the shortest run of oldest entries whose removal makes room, and what
-- its removal does to the sums over the rows.
use axeno_relay.Prelude.{
  ℕ, zero, suc, ◌+◌, ◌<◌, ◌≤◌, ◌≡◌, ◌⊎◌, refl, ap, Bool, true, false, List, [], ◌∷◌, arith, sum_by,
  Bool-cases, inl, inr, length, take, drop, u64_mod, wrap_add-eq_of_lt, wrap_sub-eq_of_le,
  saturating_add-eq_of_lt, map, ltb, ◌||◌, wrap_add, wrap_sub, saturating_add,
}
use axeno_relay.Config.{max_queue_per_recipient, per_mailbox_queue_bytes}
use axeno_relay.QueueStore.{QueueApi, StoredValue, evict_loop, sum_bytes}
use axeno_relay.QueueStore.Sorting.{Entry}

module _ (api : QueueApi) where
  open api use {Uuid, from_slice}
  open api.db use {Table as Envelopes, get as get_row, remove as remove_at, get-remove}

  abbrev pub entry_bytes : List (Entry api) → ℕ
  entry_bytes = sum_by (λ p. length p.1.c)

  -- Both caps hold after one more envelope of `incoming` bytes.
  pub record HasRoom (incoming : ℕ) (l : List (Entry api)) : Type 0 where
    pub count : length l + 1 ≤ max_queue_per_recipient
    pub bytes : entry_bytes l + incoming ≤ per_mailbox_queue_bytes

  -- The result of the loop: the ids and the bytes of the first `n` entries.
  pub record Evicts (incoming evict_bytes : ℕ) (l : List (Entry api)) (r : List Uuid × ℕ)
      : Type 0 where
    pub n : ℕ
    pub within : n ≤ length l
    pub ids : r.0 ≡ map (λ p. p.0) (take n l)
    pub freed : r.1 ≡ evict_bytes + entry_bytes (take n l)
    pub room : (n ≡ length l) ⊎ HasRoom incoming (drop n l)
    pub needed : (k : ℕ) → k < n → ¬ HasRoom incoming (drop k l)

  pub sum_bytes_lem :
      (l : List (Entry api)) → entry_bytes l < u64_mod → sum_bytes api l ≡ entry_bytes l
  unfolding sum_bytes sum_by
  sum_bytes_lem [] h = refl
  sum_bytes_lem ((id, v) ∷ l) h =
      let ih = sum_bytes_lem l (omega arith) in
      rw ih (wrap_add-eq_of_lt (length v.c) (entry_bytes l) h)

  -- The loop's test.
  abbrev is_over : ℕ → ℕ → ℕ → Bool
  is_over incoming count bytes =
      ltb max_queue_per_recipient (wrap_add count 1)
      || ltb per_mailbox_queue_bytes (wrap_add bytes incoming)

  module _ (incoming count bytes : ℕ) (id : Uuid) (v : StoredValue) (l : List (Entry api))
      (c : count ≡ length ((id, v) ∷ l)) (b : bytes ≡ entry_bytes ((id, v) ∷ l))
      (h1 : count + 1 < u64_mod) (h2 : bytes + incoming < u64_mod) where
    over_no_room : is_over incoming count bytes ≡ true → ¬ HasRoom incoming ((id, v) ∷ l)
    over_no_room over room = ground (
      arith,
      wrap_add-eq_of_lt count 1 h1,
      wrap_add-eq_of_lt bytes incoming h2,
      room.count,
      room.bytes,
    )

    fits_room : is_over incoming count bytes ≡ false → HasRoom incoming ((id, v) ∷ l)
    fits_room fits = record {
      count = ground (arith, wrap_add-eq_of_lt count 1 h1, wrap_add-eq_of_lt bytes incoming h2);
      bytes = ground (arith, wrap_add-eq_of_lt count 1 h1, wrap_add-eq_of_lt bytes incoming h2);
    }

  module _ (incoming : ℕ) (id : Uuid) (v : StoredValue) (l : List (Entry api)) (n : ℕ) where
    room_cons :
        (n ≡ length l) ⊎ HasRoom incoming (drop n l)
        → (suc n ≡ length ((id, v) ∷ l)) ⊎ HasRoom incoming (drop (suc n) ((id, v) ∷ l))
    room_cons (inl e) = inl (ap suc e)
    room_cons (inr h) = inr h

    needed_cons :
        ¬ HasRoom incoming ((id, v) ∷ l)
        → ((k : ℕ) → k < n → ¬ HasRoom incoming (drop k l))
        → (k : ℕ) → k < suc n
        → ¬ HasRoom incoming (drop k ((id, v) ∷ l))
    needed_cons here later zero h = here
    needed_cons here later (suc k) h = later k (omega arith)

  -- Where no sum overflows, the loop evicts the shortest run of oldest entries that makes room, or
  -- all of them.
  pub evict_loop-Evicts :
      (incoming count bytes evict_bytes : ℕ) (l : List (Entry api))
      → count ≡ length l
      → bytes ≡ entry_bytes l
      → count + 1 < u64_mod
      → bytes + incoming < u64_mod
      → evict_bytes + bytes < u64_mod
      → Evicts incoming evict_bytes l (evict_loop api incoming count bytes evict_bytes l)
  unfolding evict_loop sum_by take
  evict_loop-Evicts incoming count bytes evict_bytes [] c b h1 h2 h3 = record {
    n = 0;
    within = omega arith;
    ids = refl;
    freed = omega arith;
    room = inl refl;
    needed = λ k h. absurd (omega arith);
  }
  evict_loop-Evicts incoming count bytes evict_bytes ((id, v) ∷ l) c b h1 h2 h3 =
      let count' = wrap_sub-eq_of_le count 1 (omega arith) (omega arith) in
      let bytes' = wrap_sub-eq_of_le bytes (length v.c) (omega arith) (omega arith) in
      let freed' = saturating_add-eq_of_lt evict_bytes (length v.c) (omega arith) in
      let ih =
        evict_loop-Evicts incoming (wrap_sub count 1) (wrap_sub bytes (length v.c))
          (saturating_add evict_bytes (length v.c)) l (omega arith) (omega arith) (omega arith)
          (omega arith) (omega arith) in
      elim (Bool-cases (is_over incoming count bytes)) [
        | inl over ↦ rw over (record {
          n = suc ih.n;
          within = omega (arith, ih.within);
          ids = ap (◌∷◌ id) ih.ids;
          freed = omega (arith, ih.freed);
          room = room_cons incoming id v l ih.n ih.room;
          needed =
              needed_cons incoming id v l ih.n
                (over_no_room incoming count bytes id v l c b h1 h2 over) ih.needed;
        })
        | inr fits ↦ rw fits (record {
          n = 0;
          within = omega arith;
          ids = refl;
          freed = omega arith;
          room = inr (fits_room incoming count bytes id v l c b h1 h2 fits);
          needed = λ k h. absurd (omega arith);
        })
      ]
