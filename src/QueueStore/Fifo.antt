-- ===== src/QueueStore/Fifo.antt =====
-- What a mailbox holds after an enqueue: the oldest entries that had to go are gone, the new one is
-- last, and every other mailbox is as it was.
use mathlib.Core.Path.{subst}
use axeno_relay.Prelude.{
  ℕ, zero, suc, ◌<◌, ◌≡◌, sym, ap, ◌∙◌, none, some, List, [], ◌∷◌, ◌++◌, arith, length, Text,
  text_eq_iff, IsFreeOf, sum_by, map, All, drop, take, Bytes, sum_by-append, sum_by-take-drop,
  text_eq_refl,
}
use axeno_relay.Protocol.{StoredEnvelope}
use axeno_relay.Table.{total}
use axeno_relay.QueueStore.{
  QueueApi, QueueStore, StoredValue, key_for, mailbox_rows, account_enqueue,
}
use axeno_relay.QueueStore.Invariant.{IsConsistent, weigh_in}
use axeno_relay.QueueStore.Sorting.{Entry, Rising}
use axeno_relay.QueueStore.Reading.{
  Stored, mailbox_rows-Rising, mailbox_rows-Stored, sum_by-mailbox_rows,
}
use axeno_relay.QueueStore.Removing.{remove_all, Stored-remove}
use axeno_relay.QueueStore.Order.{mailbox_rows_determined}
use axeno_relay.QueueStore.Planning.{Fits, Planned}
use axeno_relay.QueueStore.Enqueue.{
  key_is_left_free, decoded_value, total_in_after, after-rows, after_unique, left,
}

module _ (api : QueueApi) where
  open api use {Uuid, from_slice}
  open api.db use {
    Table as Envelopes, get as get_row, insert as insert_at, remove as remove_at, get-insert,
    get-remove,
  }

  All-drop : (P : Entry api → Type 0) (n : ℕ) (l : List (Entry api)) → All P l → All P (drop n l)
  All-drop P zero l h = h
  All-drop P (suc n) [] h = tt
  All-drop P (suc n) (x ∷ l) h = All-drop P n l h.1

  Rising-drop : (n : ℕ) (l : List (Entry api)) → Rising api l → Rising api (drop n l)
  Rising-drop zero l h = h
  Rising-drop (suc n) [] h = tt
  Rising-drop (suc n) (x ∷ l) h = Rising-drop n l h.1

  All-append :
      (P : Entry api → Type 0) (l r : List (Entry api)) → All P l → All P r → All P (l ++ r)
  All-append P [] r h k = k
  All-append P (x ∷ l) r h k = (h.0, All-append P l r h.1 k)

  Rising-append :
      (l : List (Entry api)) (y : Entry api)
      → Rising api l
      → All (λ x. x.1.s < y.1.s) l
      → Rising api (l ++ y ∷ [])
  Rising-append [] y r h = (tt, tt)
  Rising-append (x ∷ l) y r h =
      (All-append (λ z. x.1.s < z.1.s) l (y ∷ []) r.0 (h.0, tt), Rising-append l y r.1 h.1)

  -- What the removal of the first entries leaves of the others.
  Stored-remove_all :
      (mailbox : Text) (free : IsFreeOf b':' mailbox) (n : ℕ) (db : Envelopes)
      (l : List (Entry api))
      → All (Stored api db mailbox) l
      → Rising api l
      → All (Stored api (remove_all api mailbox (map (λ p. p.0) (take n l)) db) mailbox) (drop n l)
  unfolding remove_all take
  Stored-remove_all mailbox free zero db l h r = h
  Stored-remove_all mailbox free (suc n) db [] h r = tt
  Stored-remove_all mailbox free (suc n) db (p ∷ l) h r =
      Stored-remove_all mailbox free n (remove_at db (key_for api mailbox p.0)) l
        (Stored-remove api mailbox free db p l h.0 r.0 h.1) r.1

  -- A new row under a free key hides none of the others.
  pub Stored-insert :
      (mailbox : Text) (db : Envelopes) (k : Text) (b : Bytes) (l : List (Entry api))
      → get_row db k ≡ none
      → All (Stored api db mailbox) l
      → All (Stored api (insert_at db k b) mailbox) l
  Stored-insert mailbox db k b [] e h = tt
  Stored-insert mailbox db k b (p ∷ l) e h =
      let (c, at, decoded) = h.0 in
      (
        (
          c,
          ground (
            arith,
            at,
            e,
            get-insert db k (key_for api mailbox p.0) b,
            text_eq_iff k (key_for api mailbox p.0),
          ),
          decoded,
        ),
        Stored-insert mailbox db k b l e h.1,
      )

  get-insert_self : (db : Envelopes) (k : Text) (b : Bytes) → get_row (insert_at db k b) k ≡ some b
  get-insert_self db k b = ground (arith, get-insert db k k b, text_eq_refl k)

  -- Sequences in the table are below the next one.
  Stored-seq :
      (mailbox : Text) (s : QueueStore api) (v : IsConsistent api s) (l : List (Entry api))
      → All (Stored api s.db mailbox) l
      → All (λ x. x.1.s < s.next_seq) l
  Stored-seq mailbox s v [] h = tt
  Stored-seq mailbox s v (p ∷ l) h =
      let (b, at, decoded) = h.0 in
      let r = v.rows (key_for api mailbox p.0) b at in
      (ground (arith, r.decoded, r.before, decoded), Stored-seq mailbox s v l h.1)

  module _ (now : ℕ) (mailbox : Text) (free : IsFreeOf b':' mailbox) (env : StoredEnvelope Uuid)
      (s : QueueStore api) (v : IsConsistent api s)
      (fresh : get_row s.db (key_for api mailbox env.id) ≡ none)
      (fits : Fits api s (length env.ciphertext)) where
    abbrev new_entry : Entry api
    new_entry =
        (env.id, record { t = env.envelope_type; c = env.ciphertext; q = now; s = s.next_seq })

    abbrev before : List (Entry api)
    before = mailbox_rows api s.db mailbox

    module _ (ids : List Uuid) (freed : ℕ) (db : Envelopes)
        (plan : Planned api s mailbox env now ids freed db) where
      abbrev kept : List (Entry api)
      kept = drop plan.chosen.n before

      kept-Stored : All (Stored api db mailbox) kept
      kept-Stored =
          subst (λ d. All (Stored api d mailbox) kept) (sym plan.rows)
            (Stored-insert mailbox (left api now mailbox free env s v fresh fits ids freed db plan)
              (key_for api mailbox env.id) plan.bytes kept
              (key_is_left_free api now mailbox free env s v fresh fits ids freed db plan)
              (subst (λ i. All (Stored api (remove_all api mailbox i s.db) mailbox) kept)
                (sym plan.chosen.ids)
                (Stored-remove_all mailbox free plan.chosen.n s.db before
                  (mailbox_rows-Stored api mailbox free s.next_seq s.db v.rows)
                  (mailbox_rows-Rising api mailbox free s.next_seq s.db v.unique v.rows))))

      new-Stored : Stored api db mailbox new_entry
      new-Stored = (
        plan.bytes,
        ap (λ d. get_row d (key_for api mailbox env.id)) plan.rows
            ∙ get-insert_self _ (key_for api mailbox env.id) plan.bytes,
        decoded_value api now mailbox free env s v fresh fits ids freed db plan,
      )

      sums :
          (f : StoredValue → ℕ)
          → sum_by (λ p. f p.1) (kept ++ new_entry ∷ []) ≡ total api.db (weigh_in api mailbox f) db
      unfolding sum_by
      sums f =
          let whole =
            total_in_after api now mailbox free env s v fresh fits ids freed db plan mailbox f in
          let same = text_eq_refl mailbox in
          let parts = sum_by-take-drop (λ (p : Entry api). f p.1) plan.chosen.n before in
          let all = sum_by-mailbox_rows api mailbox free s.next_seq s.db f v.rows in
          let joined = sum_by-append (λ (p : Entry api). f p.1) kept (new_entry ∷ []) in
          ground arith

      pub listing : mailbox_rows api db mailbox ≡ kept ++ new_entry ∷ []
      unfolding account_enqueue
      listing =
          mailbox_rows_determined api mailbox free _ db
            (after-rows api now mailbox free env s v fresh fits ids freed db plan)
            (after_unique api now mailbox free env s v fresh fits ids freed db plan)
            (kept ++ new_entry ∷ [])
            (Rising-append kept new_entry
              (Rising-drop plan.chosen.n before
                (mailbox_rows-Rising api mailbox free s.next_seq s.db v.unique v.rows))
              (All-drop (λ x. x.1.s < s.next_seq) plan.chosen.n before
                (Stored-seq mailbox s v before
                  (mailbox_rows-Stored api mailbox free s.next_seq s.db v.rows))))
            (All-append (Stored api db mailbox) kept (new_entry ∷ []) kept-Stored (new-Stored, tt))
            sums
