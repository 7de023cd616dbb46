-- ===== src/QueueStore/Committed.antt =====
-- What the committed transaction of an enqueue leaves in its mailbox and in the others.
use mathlib.Core.Path.{subst}
use axeno_relay.Prelude.{
  ℕ, ◌≤◌, ◌≡◌, ◌≢◌, sym, ◌∙◌, none, List, [], ◌∷◌, ◌++◌, arith, inl, inr, length, Text, text_eq_iff,
  IsFreeOf, sum_by, All, drop, length-append, sum_by-append, drop-length,
}
use axeno_relay.Config.{max_queue_per_recipient, per_mailbox_queue_bytes}
use axeno_relay.Protocol.{StoredEnvelope}
use axeno_relay.QueueStore.{QueueApi, QueueStore, key_for, mailbox_rows, account_enqueue}
use axeno_relay.QueueStore.Invariant.{IsConsistent}
use axeno_relay.QueueStore.Keys.{key_for_injective}
use axeno_relay.QueueStore.Sorting.{Entry}
use axeno_relay.QueueStore.Reading.{
  Stored, mailbox_rows-Rising, mailbox_rows-Stored, sum_by-mailbox_rows,
}
use axeno_relay.QueueStore.Removing.{remove_all, get-remove_ne}
use axeno_relay.QueueStore.Eviction.{HasRoom, entry_bytes}
use axeno_relay.QueueStore.Order.{mailbox_rows_determined}
use axeno_relay.QueueStore.Planning.{Fits, Planned}
use axeno_relay.QueueStore.Enqueue.{
  total_in_after, after-rows, after_unique, length-ids, key_is_left_free,
}
use axeno_relay.QueueStore.Fifo.{listing, Stored-insert}

module _ (api : QueueApi) where
  open api use {Uuid, to_vec}
  open api.db use {
    Table as Envelopes, get as get_row, insert as insert_at, remove as remove_at, get-insert,
  }

  unfoldable pub new_entry : ℕ → StoredEnvelope Uuid → QueueStore api → Entry api
  new_entry now env s =
      (env.id, record { t = env.envelope_type; c = env.ciphertext; q = now; s = s.next_seq })

  -- The row that an enqueue of the envelope adds to its mailbox.
  module _ (now : ℕ) (mailbox : Text) (free : IsFreeOf b':' mailbox) (env : StoredEnvelope Uuid)
      (s : QueueStore api) (v : IsConsistent api s)
      (fresh : get_row s.db (key_for api mailbox env.id) ≡ none)
      (fits : Fits api s (length env.ciphertext)) (ids : List Uuid) (freed : ℕ) (db : Envelopes)
      (plan : Planned api s mailbox env now ids freed db) where
    pub number : length ids ≡ plan.chosen.n
    number = length-ids api now mailbox free env s v fresh fits ids freed db plan

    appended :
        mailbox_rows api db mailbox
        ≡ drop (length ids) (mailbox_rows api s.db mailbox) ++ new_entry now env s ∷ []
    unfolding new_entry
    appended = rw number (listing api now mailbox free env s v fresh fits ids freed db plan)

    room_left :
        length env.ciphertext ≤ per_mailbox_queue_bytes
        → HasRoom api (length env.ciphertext) (drop (length ids) (mailbox_rows api s.db mailbox))
    unfolding sum_by
    room_left small = rw number (elim plan.chosen.room [
      | inr h ↦ h
      | inl e ↦
          rw (e, drop-length (mailbox_rows api s.db mailbox))
            (record { count = omega arith; bytes = omega arith })
    ])

    pub appended_in_caps :
        length env.ciphertext ≤ per_mailbox_queue_bytes
        → (mailbox_rows api db mailbox
            ≡ drop (length ids) (mailbox_rows api s.db mailbox) ++ new_entry now env s ∷ [])
          × (length ids ≤ length (mailbox_rows api s.db mailbox))
          × (length (mailbox_rows api db mailbox) ≤ max_queue_per_recipient)
          × (entry_bytes api (mailbox_rows api db mailbox) ≤ per_mailbox_queue_bytes)
    unfolding sum_by new_entry
    appended_in_caps small =
        let kept = drop (length ids) (mailbox_rows api s.db mailbox) in
        let room = room_left small in
        let n = number in
        let within = plan.chosen.within in
        let counted = length-append kept (new_entry now env s ∷ []) in
        let weighed =
          sum_by-append (λ (p : Entry api). length p.1.c) kept (new_entry now env s ∷ []) in
        (
          appended,
          omega arith,
          rw appended (omega (arith, room.count)),
          rw appended (omega (arith, room.bytes)),
        )

    module _ (m : Text) (free_m : IsFreeOf b':' m) (other : mailbox ≢ m) where
      survive_one :
          (l : List (Entry api)) (i : Uuid) (d : Envelopes)
          → All (Stored api d m) l
          → All (Stored api (remove_at d (key_for api mailbox i)) m) l
      survive_one [] i d h = tt
      survive_one (p ∷ l) i d h =
          let (b, at, decoded) = h.0 in
          (
            (
              b,
              get-remove_ne api d (key_for api mailbox i) (key_for api m p.0)
                    (λ e. other (key_for_injective api mailbox m i p.0 free free_m e).0)
                  ∙ at,
              decoded,
            ),
            survive_one l i d h.1,
          )

      survive :
          (l : List (Entry api)) (is : List Uuid) (d : Envelopes)
          → All (Stored api d m) l
          → All (Stored api (remove_all api mailbox is d) m) l
      unfolding remove_all
      survive l [] d h = h
      survive l (i ∷ is) d h =
          survive l is (remove_at d (key_for api mailbox i)) (survive_one l i d h)

    -- The transaction leaves the other mailboxes as they were.
    pub untouched :
        (m : Text) → IsFreeOf b':' m → mailbox ≢ m → mailbox_rows api db m ≡ mailbox_rows api s.db m
    unfolding account_enqueue
    untouched m free_m other =
        let l = mailbox_rows api s.db m in
        mailbox_rows_determined api m free_m _ db
          (after-rows api now mailbox free env s v fresh fits ids freed db plan)
          (after_unique api now mailbox free env s v fresh fits ids freed db plan) l
          (mailbox_rows-Rising api m free_m s.next_seq s.db v.unique v.rows)
          (subst (λ d. All (Stored api d m) l) (sym plan.rows)
            (Stored-insert api m (remove_all api mailbox ids s.db) (key_for api mailbox env.id)
              plan.bytes l
              (key_is_left_free api now mailbox free env s v fresh fits ids freed db plan)
              (survive m free_m other l ids s.db
                (mailbox_rows-Stored api m free_m s.next_seq s.db v.rows))))
          (λ f.
            let sums =
              total_in_after api now mailbox free env s v fresh fits ids freed db plan m f in
            let whole = sum_by-mailbox_rows api m free_m s.next_seq s.db f v.rows in
            ground (arith, text_eq_iff mailbox m))
