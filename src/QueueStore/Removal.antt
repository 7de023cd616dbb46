-- ===== src/QueueStore/Removal.antt =====
-- The operations of src/queue_store.rs that hand envelopes out and remove them.
use axeno_relay.Prelude.{
  ℕ, Bool, true, false, Option, none, some, List, [], ◌∷◌, map, ltb, if◌then◌else◌, length, Bytes,
  Text, text_eq, Result, ok, err, ◌>>=◌, ◌>>◌, AnyhowError, anyhow, DbCall, begin_read, begin_write,
  open_table, read_row, iterate, remove_row, commit, db_call, wrap_add, saturating_add,
  saturating_sub,
}
use axeno_relay.Config.{queue_ttl_ms}
use axeno_relay.Protocol.{StoredEnvelope}
use axeno_relay.Table.{Assoc}
use axeno_relay.Util.{atomic_sub_saturating}
use axeno_relay.QueueStore.{
  QueueApi, QueueStore, StoredValue, key_for, mailbox_lo, mailbox_hi, parse_mailbox, read_mailbox,
}

module _ (api : QueueApi) where
  open api use {Uuid, from_slice, range}
  open api.db use {Table as Envelopes, get as get_row, remove as remove_at, entries as rows}
  open api.index use {Table as Index, get as get_entry, insert as set_entry, remove as remove_entry}

  abbrev Outcome : Type 0 → Type 0
  Outcome A = Result AnyhowError A × QueueStore api

  abbrev call : Option DbCall → DbCall → Result AnyhowError (Unit {0})
  call fault kind = db_call fault anyhow kind

  abbrev pub envelope : Text → Uuid × StoredValue → StoredEnvelope Uuid
  envelope mailbox (id, v) = record { id = id; to = mailbox; envelope_type = v.t; ciphertext = v.c }

  -- All queued envelopes, oldest first. Nothing is deleted: the receiver acknowledges.
  unfoldable pub flush :
      Option DbCall → Text → QueueStore api → Result AnyhowError (List (StoredEnvelope Uuid))
  flush fault mailbox s = do
    entries ← read_mailbox api fault s.db mailbox
    ok (map (envelope mailbox) entries)

  abbrev is_nil : {A : Type 0} → List A → Bool
  is_nil [] = true
  is_nil (x ∷ xs) = false

  unfoldable pub is_empty : Option DbCall → Text → QueueStore api → Result AnyhowError Bool
  is_empty fault mailbox s = do
    call fault begin_read
    call fault open_table
    call fault iterate
    ok (is_nil (range s.db (mailbox_lo mailbox) (mailbox_hi mailbox)))

  -- The ciphertext bytes of a stored row; a row that cannot be read counts for nothing.
  unfoldable pub row_bytes : Bytes → ℕ
  row_bytes bytes = elim (from_slice bytes) [ none ↦ 0 | some val ↦ length val.c ]

  -- The index entry after rows of the mailbox were removed; a missing entry stays missing.
  unfoldable pub shrink_index : Index → Text → ℕ → ℕ → Index
  shrink_index index mailbox count bytes = elim (get_entry index mailbox) [
    | none ↦ index
    | some e ↦ set_entry index mailbox (saturating_sub e.0 count, saturating_sub e.1 bytes)
  ]

  -- What the loop of `ack` has done: bytes freed, rows removed, and the rows that are left.
  pub record Acked : Type 0 where
    pub freed : ℕ
    pub removed : ℕ
    pub db : Envelopes

  unfoldable pub ack_row : Acked → Text → Acked
  unfolding row_bytes
  ack_row acc key = elim (get_row acc.db key) [
    | none ↦ record acc { db = remove_at acc.db key }
    | some bytes ↦ record {
      freed = saturating_add acc.freed (row_bytes bytes);
      removed = wrap_add acc.removed 1;
      db = remove_at acc.db key;
    }
  ]

  unfoldable pub ack_rows : Option DbCall → Text → List Uuid → Acked → Result AnyhowError Acked
  unfolding ack_row
  ack_rows fault mailbox [] acc = ok acc
  ack_rows fault mailbox (id ∷ ids) acc =
      let rest = ack_rows fault mailbox ids (ack_row acc (key_for api mailbox id)) in
      call fault read_row >> call fault remove_row >> rest

  unfoldable pub ack_txn : Option DbCall → Text → List Uuid → Envelopes → Result AnyhowError Acked
  unfolding ack_rows
  ack_txn fault mailbox ids db = do
    call fault begin_write
    call fault open_table
    acked ← ack_rows fault mailbox ids (record { freed = 0; removed = 0; db = db })
    call fault commit
    ok acked

  unfoldable pub account_ack : Text → Acked → QueueStore api → QueueStore api
  unfolding shrink_index
  account_ack mailbox acked s = record {
    db = acked.db;
    total_bytes = atomic_sub_saturating [] s.total_bytes acked.freed;
    next_seq = s.next_seq;
    index =
        if ltb 0 acked.removed
        then shrink_index s.index mailbox acked.removed acked.freed
        else s.index;
  }

  unfoldable pub ack : Option DbCall → Text → List Uuid → QueueStore api → Outcome ℕ
  unfolding ack_txn account_ack
  ack fault mailbox [] s = (ok 0, s)
  ack fault mailbox (id ∷ ids) s = elim (ack_txn fault mailbox (id ∷ ids) s.db) [
    | err e ↦ (err e, s)
    | ok acked ↦ (ok acked.removed, account_ack mailbox acked s)
  ]

  abbrev pub keys_of : Assoc Bytes → List Text
  keys_of = map (λ e. e.0)

  unfoldable pub freed_by : ℕ → Assoc Bytes → ℕ
  unfolding row_bytes
  freed_by freed [] = freed
  freed_by freed ((key, bytes) ∷ rest) = freed_by (saturating_add freed (row_bytes bytes)) rest

  unfoldable pub remove_keys : Option DbCall → List Text → Envelopes → Result AnyhowError Envelopes
  remove_keys fault [] db = ok db
  remove_keys fault (key ∷ keys) db =
      let rest = remove_keys fault keys (remove_at db key) in call fault remove_row >> rest

  -- A write transaction that removes rows.
  unfoldable pub remove_txn : Option DbCall → List Text → Envelopes → Result AnyhowError Envelopes
  unfolding remove_keys
  remove_txn fault keys db = do
    call fault begin_write
    call fault open_table
    call fault iterate
    db' ← remove_keys fault keys db
    call fault commit
    ok db'

  unfoldable pub purge_mailbox : Option DbCall → Text → QueueStore api → Outcome ℕ
  unfolding remove_txn freed_by
  purge_mailbox fault mailbox s =
      let found = range s.db (mailbox_lo mailbox) (mailbox_hi mailbox) in
      elim (remove_txn fault (keys_of found) s.db) [
        | err e ↦ (err e, s)
        | ok db' ↦ (
          ok (length (keys_of found)),
          record s {
            db = db';
            total_bytes = atomic_sub_saturating [] s.total_bytes (freed_by 0 found);
            index = remove_entry s.index mailbox;
          },
        )
      ]

  -- The rows that the sweep takes: readable, and queued before the cutoff.
  unfoldable pub is_expired : ℕ → Bytes → Bool
  is_expired cutoff bytes = elim (from_slice bytes) [ none ↦ false | some val ↦ ltb val.q cutoff ]

  unfoldable pub expired_rows : ℕ → Assoc Bytes → Assoc Bytes
  expired_rows cutoff [] = []
  expired_rows cutoff ((key, bytes) ∷ rest) =
      let later = expired_rows cutoff rest in
      if is_expired cutoff bytes then (key, bytes) ∷ later else later

  -- `per_mailbox.entry(mailbox).or_insert((0, 0))`, then one row more, in a `HashMap`.
  unfoldable pub tally : List (Text × ℕ × ℕ) → Text → ℕ → List (Text × ℕ × ℕ)
  tally [] mailbox bytes = (mailbox, wrap_add 0 1, saturating_add 0 bytes) ∷ []
  tally ((m, count, sum) ∷ rest) mailbox bytes =
      let later = (m, count, sum) ∷ tally rest mailbox bytes in
      if text_eq m mailbox then (m, wrap_add count 1, saturating_add sum bytes) ∷ rest else later

  unfoldable pub tally_row : List (Text × ℕ × ℕ) → Text × Bytes → List (Text × ℕ × ℕ)
  unfolding tally row_bytes
  tally_row acc (key, bytes) = elim (parse_mailbox key) [
    | none ↦ acc
    | some mailbox ↦ tally acc mailbox (row_bytes bytes)
  ]

  unfoldable pub tally_rows : List (Text × ℕ × ℕ) → Assoc Bytes → List (Text × ℕ × ℕ)
  unfolding tally_row
  tally_rows acc [] = acc
  tally_rows acc (row ∷ rest) = tally_rows (tally_row acc row) rest

  unfoldable pub shrink_all : Index → List (Text × ℕ × ℕ) → Index
  unfolding shrink_index
  shrink_all index [] = index
  shrink_all index ((mailbox, count, bytes) ∷ rest) =
      shrink_all (shrink_index index mailbox count bytes) rest

  unfoldable pub sweep_expired : Option DbCall → ℕ → QueueStore api → Outcome ℕ
  unfolding remove_txn freed_by expired_rows is_expired tally_rows shrink_all
  sweep_expired fault now s =
      let found = expired_rows (saturating_sub now queue_ttl_ms) (rows s.db) in
      elim (remove_txn fault (keys_of found) s.db) [
        | err e ↦ (err e, s)
        | ok db' ↦ (
          ok (length (keys_of found)),
          record s {
            db = db';
            total_bytes = atomic_sub_saturating [] s.total_bytes (freed_by 0 found);
            index = shrink_all s.index (tally_rows [] found);
          },
        )
      ]
