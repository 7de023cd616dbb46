-- ===== src/QueueStore/Delivery.antt =====
-- What `enqueue` does to the mailboxes: its own and the others, when it succeeds and when it fails.
use mathlib.Core.Path.{subst}
use axeno_relay.Prelude.{
  ℕ, ◌≤◌, ◌≡◌, ◌≢◌, refl, Option, none, some, List, [], ◌∷◌, ◌++◌, arith, Bool-cases, Result-cases,
  inl, inr, length, Text, IsFreeOf, ltb, drop, Bytes, ok, err, DbCall, AnyhowError, anyhow,
  wrap_add, ◌⊎◌, Option-cases,
}
use axeno_relay.Config.{max_queue_per_recipient, per_mailbox_queue_bytes}
use axeno_relay.Protocol.{StoredEnvelope}
use axeno_relay.QueueStore.{
  QueueApi, QueueStore, key_for, mailbox_rows, enqueue_plan, enqueue, account_enqueue,
  choose_evicted, evict_loop, sum_bytes, needs_eviction, read_mailbox, write_envelope,
}
use axeno_relay.QueueStore.Invariant.{IsConsistent}
use axeno_relay.QueueStore.Removing.{remove_all, remove_ids-none}
use axeno_relay.QueueStore.Eviction.{HasRoom, entry_bytes}
use axeno_relay.QueueStore.Planning.{Fits, Planned, enqueue_plan-Planned}
use axeno_relay.QueueStore.Committed.{new_entry, number, appended_in_caps, untouched}

module _ (api : QueueApi) where
  open api use {Uuid, to_vec}
  open api.db use {
    Table as Envelopes, get as get_row, insert as insert_at, remove as remove_at, get-insert,
  }

  module _ (fault : Option DbCall) (now : ℕ) (mailbox : Text) (env : StoredEnvelope Uuid)
      (s : QueueStore api) (free : IsFreeOf b':' mailbox) (v : IsConsistent api s)
      (fresh : get_row s.db (key_for api mailbox env.id) ≡ none)
      (fits : Fits api s (length env.ciphertext)) where
    -- A successful enqueue, seen through its plan.
    with_plan :
        (P : ℕ → QueueStore api → Type 0)
        → ((ids : List Uuid) (freed : ℕ) (db : Envelopes)
            → (plan : Planned api s mailbox env now ids freed db)
            → P (length ids) (
                account_enqueue api
                  (record s { next_seq = wrap_add s.next_seq 1; db = db })
                  mailbox
                  (length env.ciphertext)
                  ids
                  freed))
        → (count : ℕ) → (enqueue api fault now mailbox env s).0 ≡ ok count
        → P count (enqueue api fault now mailbox env s).1
    unfolding enqueue
    with_plan P h count = elim (Result-cases (enqueue_plan api fault now mailbox env s)) [
      | inl (e, failed) ↦ rw (failed, enqueue) (λ done. absurd cc)
      | inr ((ids, freed, db), planned) ↦
          rw (planned, enqueue)
            (λ done.
              subst
                (λ n. P n (
                  account_enqueue api (record s { next_seq = wrap_add s.next_seq 1; db = db })
                    mailbox (length env.ciphertext) ids freed))
                (ground (arith, done))
                (h ids freed db
                  (enqueue_plan-Planned api fault now mailbox env s v free fits planned)))
    ]

    -- From a consistent store whose sums fit in 64 bits, under an id that is new to a mailbox
    -- without a colon: when an enqueue reports that it evicted `count` envelopes, its
    -- mailbox holds what it held, less the `count` oldest, and the new envelope last; and neither
    -- cap of the mailbox is passed, given that the envelope alone is within the byte cap.
    pub enqueue-appends :
        (count : ℕ)
        → (enqueue api fault now mailbox env s).0 ≡ ok count
        → length env.ciphertext ≤ per_mailbox_queue_bytes
        → (mailbox_rows api (enqueue api fault now mailbox env s).1.db mailbox
            ≡ drop count (mailbox_rows api s.db mailbox) ++ new_entry api now env s ∷ [])
          × (count ≤ length (mailbox_rows api s.db mailbox))
          × (length (mailbox_rows api (enqueue api fault now mailbox env s).1.db mailbox)
              ≤ max_queue_per_recipient)
          × (entry_bytes api (mailbox_rows api (enqueue api fault now mailbox env s).1.db mailbox)
              ≤ per_mailbox_queue_bytes)
    unfolding account_enqueue
    enqueue-appends count done small =
        with_plan
          (λ n r.
            (mailbox_rows api r.db mailbox
              ≡ drop n (mailbox_rows api s.db mailbox) ++ new_entry api now env s ∷ [])
            × (n ≤ length (mailbox_rows api s.db mailbox))
            × (length (mailbox_rows api r.db mailbox) ≤ max_queue_per_recipient)
            × (entry_bytes api (mailbox_rows api r.db mailbox) ≤ per_mailbox_queue_bytes))
          (λ ids freed db plan.
            appended_in_caps api now mailbox free env s v fresh fits ids freed db plan small)
          count done

    -- In a consistent store whose sums fit in 64 bits, for an id that is new to a mailbox without a
    -- colon, no envelope is evicted without need: where the removal of the `k` oldest
    -- makes room for the new envelope under both caps, an enqueue that succeeds evicts `k` at most.
    pub enqueue-evicts_least :
        (count : ℕ)
        → (enqueue api fault now mailbox env s).0 ≡ ok count
        → (k : ℕ) → HasRoom api (length env.ciphertext) (drop k (mailbox_rows api s.db mailbox))
        → count ≤ k
    enqueue-evicts_least count done =
        with_plan
          (λ n r.
            (k : ℕ)
            → HasRoom api (length env.ciphertext) (drop k (mailbox_rows api s.db mailbox))
            → n ≤ k)
          (λ ids freed db plan k room. elim (Bool-cases (ltb k (length ids))) [
            | inl lt ↦
                let e = number api now mailbox free env s v fresh fits ids freed db plan in
                absurd (plan.chosen.needed k (ground (arith, e)) room)
            | inr ge ↦ ground arith
          ])
          count done

    -- Whether it succeeds or fails, an enqueue of a fresh envelope into a consistent store changes
    -- nothing in the other mailboxes, for names without a colon.
    pub enqueue-other :
        (m : Text)
        → IsFreeOf b':' m
        → mailbox ≢ m
        → mailbox_rows api (enqueue api fault now mailbox env s).1.db m ≡ mailbox_rows api s.db m
    unfolding enqueue account_enqueue
    enqueue-other m free_m other = elim (Result-cases (enqueue_plan api fault now mailbox env s)) [
      | inl (e, failed) ↦ rw (failed, enqueue) refl
      | inr ((ids, freed, db), planned) ↦
          rw (planned, enqueue)
            (untouched api now mailbox free env s v fresh fits ids freed db
              (enqueue_plan-Planned api fault now mailbox env s v free fits planned) m free_m other)
    ]

  choose_evicted-none :
      (s : QueueStore api) (mailbox : Text) (incoming : ℕ)
      → (r : List Uuid × ℕ) × (choose_evicted api none s mailbox incoming ≡ ok r)
  unfolding choose_evicted read_mailbox
  choose_evicted-none s mailbox incoming =
      let existing = mailbox_rows api s.db mailbox in
      elim (Bool-cases (needs_eviction api s mailbox incoming)) [
        | inl full ↦ (
          evict_loop api incoming (length existing) (sum_bytes api existing) 0 existing,
          rw full refl,
        )
        | inr room ↦ (([], 0), rw room refl)
      ]

  write_envelope-none :
      (mailbox : Text) (ids : List Uuid) (id : Uuid) (b : Bytes) (db : Envelopes)
      → write_envelope api none mailbox ids id b db
        ≡ ok (insert_at (remove_all api mailbox ids db) (key_for api mailbox id) b)
  unfolding write_envelope
  write_envelope-none mailbox ids id b db = rw (remove_ids-none api mailbox ids db) refl

  enqueue_plan-none :
      (now : ℕ) (mailbox : Text) (env : StoredEnvelope Uuid) (s : QueueStore api) (b : Bytes)
      → to_vec (new_entry api now env s).1 ≡ some b
      → (r : List Uuid × ℕ × Envelopes) × (enqueue_plan api none now mailbox env s ≡ ok r)
  unfolding enqueue_plan new_entry
  enqueue_plan-none now mailbox env s b e =
      let (r, chosen) = choose_evicted-none s mailbox (length env.ciphertext) in
      let db = insert_at (remove_all api mailbox r.0 s.db) (key_for api mailbox env.id) b in
      ((r.0, r.1, db), rw (e, chosen, write_envelope-none mailbox r.0 env.id b s.db) refl)

  -- What makes the part of an enqueue that can fail do so.
  enqueue_plan-err :
      (fault : Option DbCall) (now : ℕ) (mailbox : Text) (env : StoredEnvelope Uuid)
      (s : QueueStore api) {e : AnyhowError}
      → enqueue_plan api fault now mailbox env s ≡ err e
      → ((call : DbCall) × (fault ≡ some call)) ⊎ (to_vec (new_entry api now env s).1 ≡ none)
  enqueue_plan-err (some call) now mailbox env s failed = inl (call, refl)
  enqueue_plan-err none now mailbox env s failed =
      elim (Option-cases (to_vec (new_entry api now env s).1)) [
        | inl no_bytes ↦ inr no_bytes
        | inr (b, encoded) ↦
            let (r, planned) = enqueue_plan-none now mailbox env s b encoded in absurd cc
      ]

  -- Into a consistent store whose sums fit in 64 bits, under an id that the mailbox does not hold,
  -- with a ciphertext within the byte cap, for a mailbox without a colon: an enqueue succeeds, and
  -- the mailbox holds what it held, less the oldest that it reports as evicted, and the new envelope
  -- last; or it fails, no row and no counter has changed, only a sequence was taken, and this
  -- happens only where a database call fails or the envelope cannot be encoded.
  pub enqueue-all_or_nothing :
      (fault : Option DbCall) (now : ℕ) (mailbox : Text) (env : StoredEnvelope Uuid)
      (s : QueueStore api)
      → IsFreeOf b':' mailbox
      → IsConsistent api s
      → get_row s.db (key_for api mailbox env.id) ≡ none
      → Fits api s (length env.ciphertext)
      → length env.ciphertext ≤ per_mailbox_queue_bytes
      → ((count : ℕ) × ((enqueue api fault now mailbox env s).0 ≡ ok count)
          × (mailbox_rows api (enqueue api fault now mailbox env s).1.db mailbox
              ≡ drop count (mailbox_rows api s.db mailbox) ++ new_entry api now env s ∷ []))
        ⊎ ((enqueue api fault now mailbox env s).0 ≡ err anyhow)
          × ((enqueue api fault now mailbox env s).1
              ≡ record s { next_seq = wrap_add s.next_seq 1 })
          × (((call : DbCall) × (fault ≡ some call)) ⊎ (to_vec (new_entry api now env s).1 ≡ none))
  unfolding enqueue
  enqueue-all_or_nothing fault now mailbox env s free v fresh fits small =
      elim (Result-cases (enqueue_plan api fault now mailbox env s)) [
        | inl (anyhow, failed) ↦ inr (
          rw (failed, enqueue) refl,
          rw (failed, enqueue) refl,
          enqueue_plan-err fault now mailbox env s failed,
        )
        | inr ((ids, freed, db), planned) ↦
            let done : (enqueue api fault now mailbox env s).0 ≡ ok (length ids) =
              rw (planned, enqueue) refl in
            let appended =
              enqueue-appends fault now mailbox env s free v fresh fits (length ids) done small in
            inl (length ids, done, appended.0)
      ]
