-- ===== src/QueueStore.antt =====
-- src/queue_store.rs: the durable per-mailbox message queues. The state is the redb table and the
-- three counters that the store keeps in memory; each operation takes the database call that fails
-- in it, if one does, and the clock's reading. A write transaction commits all of its changes or
-- none.
pub mod Removal
pub mod Invariant
pub mod Keys
pub mod Reading
pub mod Sorting
pub mod Removing
pub mod Eviction
pub mod Order
pub mod Planning
pub mod Enqueue
pub mod Fifo
pub mod Committed
pub mod Delivery
pub mod Acknowledgement
pub mod Shrinking
pub mod Purging
use axeno_relay.Prelude.{
  ℕ, zero, suc, ◌+◌, ◌-◌, ◌≡◌, Bool, true, false, not, ◌&&◌, ◌||◌, Option, none, some, List, [],
  ◌∷◌, ◌++◌, map, ltb, leb, if◌then◌else◌, length, is_some, Bytes, Text, text_eq, text_lt,
  split_once, Result, ok, err, ◌>>=◌, ◌>>◌, ok_or, AnyhowError, anyhow, DbCall, begin_read,
  begin_write, open_table, read_row, iterate, insert_row, remove_row, commit, db_call, wrap_add,
  wrap_sub, saturating_add, saturating_sub, max, keep_if,
}
use axeno_relay.Config.{
  global_queue_disk_cap_bytes, max_queue_per_recipient, per_mailbox_queue_bytes, queue_ttl_ms,
}
use axeno_relay.Protocol.{StoredEnvelope}
use axeno_relay.Table.{TableApi, Assoc}
use axeno_relay.Util.{atomic_sub_saturating}

pub record StoredValue : Type 0 where
  pub t : Text
  pub c : Text
  pub q : ℕ
  pub s : ℕ

-- The crates that the store is built on: `uuid`, `serde_json`, `redb` and `dashmap`.
pub record QueueApi : Type 1 where
  pub Uuid : Type 0
  pub display : Uuid → Text
  pub parse_str : Text → Option Uuid
  pub parse_str-display : (id : Uuid) → parse_str (display id) ≡ some id
  pub to_vec : StoredValue → Option Bytes
  pub from_slice : Bytes → Option StoredValue
  pub from_slice-to_vec : (v : StoredValue) (b : Bytes) → to_vec v ≡ some b → from_slice b ≡ some v
  -- The table `envelopes`.
  pub db : TableApi Bytes
  -- `table.range(lo..hi)`: the rows with a key from `lo` on and below `hi`.
  pub range : TableApi.Table db → Text → Text → Assoc Bytes
  pub range_lem :
      (t : TableApi.Table db) (lo hi : Text)
      → range t lo hi
        ≡ keep_if (λ e. not (text_lt e.0 lo) && text_lt e.0 hi) (TableApi.entries db t)
  -- The index, a `DashMap`.
  pub index : TableApi (ℕ × ℕ)

unfoldable pub key_for : (api : QueueApi) → Text → QueueApi.Uuid api → Text
key_for api mailbox id = mailbox ++ (b':' ∷ QueueApi.display api id)

-- `mailbox_bounds`: the first key of a mailbox, and the first key past it.
abbrev pub mailbox_lo : Text → Text
mailbox_lo mailbox = mailbox ++ (b':' ∷ [])

abbrev pub mailbox_hi : Text → Text
mailbox_hi mailbox = mailbox ++ (b';' ∷ [])

abbrev pub parse_mailbox : Text → Option Text
parse_mailbox key = elim (split_once b':' key) [ none ↦ none | some (mailbox, _) ↦ some mailbox ]

module _ (api : QueueApi) where
  open api use {Uuid, parse_str, to_vec, from_slice, range}
  open api.db use {
    Table as Envelopes, get as get_row, insert as insert_at, remove as remove_at, entries as rows,
  }
  open api.index use {
    Table as Index, empty as no_index, get as get_entry, insert as set_entry,
    remove as remove_entry,
  }

  abbrev pub parse_id : Text → Option Uuid
  parse_id key = elim (split_once b':' key) [ none ↦ none | some (_, id) ↦ parse_str id ]

  pub record QueueStore : Type 0 where
    pub db : Envelopes
    pub total_bytes : ℕ
    pub next_seq : ℕ
    pub index : Index

  -- An operation returns its result and the store that it leaves.
  abbrev Outcome : Type 0 → Type 0
  Outcome A = Result AnyhowError A × QueueStore

  abbrev call : Option DbCall → DbCall → Result AnyhowError (Unit {0})
  call fault kind = db_call fault anyhow kind

  -- `index.get(mailbox).map(|e| *e).unwrap_or((0, 0))`.
  abbrev pub index_of : Index → Text → ℕ × ℕ
  index_of index mailbox = elim (get_entry index mailbox) [ none ↦ (0, 0) | some e ↦ e ]

  -- The rows of the whole table fold into the byte total, the largest sequence and the index.
  pub record Scan : Type 0 where
    pub total : ℕ
    pub max_seq : ℕ
    pub index : Index

  abbrev scan_index : Index → Option Text → ℕ → Index
  scan_index index none bytes = index
  scan_index index (some mailbox) bytes =
      let e = index_of index mailbox in
      set_entry index mailbox (wrap_add e.0 1, saturating_add e.1 bytes)

  unfoldable pub scan_row : Scan → Text × Bytes → Scan
  scan_row acc (key, bytes) = elim (from_slice bytes) [
    | none ↦ acc
    | some val ↦ record {
      total = saturating_add acc.total (length val.c);
      max_seq = max acc.max_seq val.s;
      index = scan_index acc.index (parse_mailbox key) (length val.c);
    }
  ]

  unfoldable pub scan_rows : Scan → Assoc Bytes → Scan
  scan_rows acc [] = acc
  scan_rows acc (row ∷ rest) = scan_rows (scan_row acc row) rest

  unfoldable pub scan_totals : Option DbCall → Envelopes → Result AnyhowError Scan
  unfolding scan_rows scan_row
  scan_totals fault db = do
    call fault begin_read
    call fault open_table
    call fault iterate
    ok (scan_rows (record { total = 0; max_seq = 0; index = no_index }) (rows db))

  -- `QueueStore::new` on an opened database: the table is created if it is missing.
  unfoldable pub new : Option DbCall → Envelopes → Result AnyhowError QueueStore
  unfolding scan_totals
  new fault db = do
    call fault begin_write
    call fault open_table
    call fault commit
    scan ← scan_totals fault db
    ok (record {
      db = db;
      total_bytes = scan.total;
      next_seq = saturating_add scan.max_seq 1;
      index = scan.index;
    })

  unfoldable pub would_exceed_global : QueueStore → ℕ → Bool
  would_exceed_global s incoming_len =
      ltb global_queue_disk_cap_bytes (saturating_add s.total_bytes incoming_len)

  -- The rows whose key and value can be read, in the order of the range.
  unfoldable pub collect : Assoc Bytes → List (Uuid × StoredValue)
  collect [] = []
  collect ((key, bytes) ∷ rest) =
      let out = collect rest in
      elim (parse_id key) [
        | none ↦ out
        | some id ↦ elim (from_slice bytes) [ none ↦ out | some val ↦ (id, val) ∷ out ]
      ]

  -- `sort_by_key` by the sequence: stable, so an equal element goes before those that followed it.
  unfoldable pub place : Uuid × StoredValue → List (Uuid × StoredValue) → List (Uuid × StoredValue)
  place x [] = x ∷ []
  place x (y ∷ ys) = let later = y ∷ place x ys in if leb x.1.s y.1.s then x ∷ y ∷ ys else later

  unfoldable pub sort_by_seq : List (Uuid × StoredValue) → List (Uuid × StoredValue)
  sort_by_seq [] = []
  sort_by_seq (x ∷ xs) = place x (sort_by_seq xs)

  -- What `read_mailbox` returns when no call fails.
  unfoldable pub mailbox_rows : Envelopes → Text → List (Uuid × StoredValue)
  unfolding collect place sort_by_seq
  mailbox_rows db mailbox =
      sort_by_seq (collect (range db (mailbox_lo mailbox) (mailbox_hi mailbox)))

  unfoldable pub read_mailbox :
      Option DbCall → Envelopes → Text → Result AnyhowError (List (Uuid × StoredValue))
  read_mailbox fault db mailbox = do
    call fault begin_read
    call fault open_table
    call fault iterate
    ok (mailbox_rows db mailbox)

  -- The eviction loop: `count` and `bytes` are what the mailbox would still hold. The ids to evict,
  -- and their bytes in front of `evict_bytes`.
  unfoldable pub evict_loop : ℕ → ℕ → ℕ → ℕ → List (Uuid × StoredValue) → List Uuid × ℕ
  evict_loop incoming_len count bytes evict_bytes [] = ([], evict_bytes)
  evict_loop incoming_len count bytes evict_bytes ((id, v) ∷ existing) =
      let (ids, freed) =
        evict_loop incoming_len (wrap_sub count 1) (wrap_sub bytes (length v.c))
          (saturating_add evict_bytes (length v.c)) existing in
      if ltb max_queue_per_recipient (wrap_add count 1)
        || ltb per_mailbox_queue_bytes (wrap_add bytes incoming_len)
      then (id ∷ ids, freed)
      else ([], evict_bytes)

  unfoldable pub sum_bytes : List (Uuid × StoredValue) → ℕ
  sum_bytes [] = 0
  sum_bytes ((id, v) ∷ rest) = wrap_add (length v.c) (sum_bytes rest)

  abbrev pub needs_eviction : QueueStore → Text → ℕ → Bool
  needs_eviction s mailbox incoming_len =
      ltb max_queue_per_recipient (wrap_add (index_of s.index mailbox).0 1)
      || ltb per_mailbox_queue_bytes (wrap_add (index_of s.index mailbox).1 incoming_len)

  -- Which envelopes must go, by the index first and by the rows only if the index says so.
  unfoldable pub choose_evicted :
      Option DbCall → QueueStore → Text → ℕ → Result AnyhowError (List Uuid × ℕ)
  choose_evicted fault s mailbox incoming_len =
      if needs_eviction s mailbox incoming_len
      then (do
        existing ← read_mailbox fault s.db mailbox
        ok (evict_loop incoming_len (length existing) (sum_bytes existing) 0 existing))
      else ok ([], 0)

  unfoldable pub remove_ids :
      Option DbCall → Text → List Uuid → Envelopes → Result AnyhowError Envelopes
  remove_ids fault mailbox [] db = ok db
  remove_ids fault mailbox (id ∷ ids) db =
      let rest = remove_ids fault mailbox ids (remove_at db (key_for api mailbox id)) in
      call fault remove_row >> rest

  -- The write transaction of `enqueue`: the committed rows.
  unfoldable pub write_envelope :
      Option DbCall → Text → List Uuid → Uuid → Bytes → Envelopes → Result AnyhowError Envelopes
  write_envelope fault mailbox evict_ids id bytes db = do
    call fault begin_write
    call fault open_table
    db' ← remove_ids fault mailbox evict_ids db
    call fault insert_row
    call fault commit
    ok (insert_at db' (key_for api mailbox id) bytes)

  -- The counters after a committed enqueue.
  unfoldable pub account_enqueue : QueueStore → Text → ℕ → List Uuid → ℕ → QueueStore
  account_enqueue s mailbox incoming_len evict_ids evict_bytes = record s {
    total_bytes = atomic_sub_saturating [] (wrap_add s.total_bytes incoming_len) evict_bytes;
    index =
        let e = index_of s.index mailbox in
        set_entry s.index mailbox (
          saturating_add (saturating_sub e.0 (length evict_ids)) 1,
          saturating_add (saturating_sub e.1 evict_bytes) incoming_len,
        );
  }

  abbrev pub or_anyhow : {A : Type 0} → Option A → Result AnyhowError A
  or_anyhow o = ok_or o anyhow

  -- All of `enqueue` that can fail: the evicted ids, their bytes and the committed rows.
  unfoldable pub enqueue_plan :
      Option DbCall
      → ℕ
      → Text
      → StoredEnvelope Uuid
      → QueueStore
      → Result AnyhowError (List Uuid × ℕ × Envelopes)
  enqueue_plan fault now mailbox env s = do
    value_bytes ←
        or_anyhow
          (to_vec (record { t = env.envelope_type; c = env.ciphertext; q = now; s = s.next_seq }))
    (evict_ids, evict_bytes) ← choose_evicted fault s mailbox (length env.ciphertext)
    db ← write_envelope fault mailbox evict_ids env.id value_bytes s.db
    ok (evict_ids, evict_bytes, db)

  -- The sequence is taken before anything can fail, and is not given back.
  unfoldable pub enqueue : Option DbCall → ℕ → Text → StoredEnvelope Uuid → QueueStore → Outcome ℕ
  unfolding account_enqueue
  enqueue fault now mailbox env s =
      let s' = record s { next_seq = wrap_add s.next_seq 1 } in
      elim (enqueue_plan fault now mailbox env s) [
        | err e ↦ (err e, s')
        | ok (evict_ids, evict_bytes, db') ↦ (
          ok (length evict_ids),
          account_enqueue (record s' { db = db' }) mailbox (length env.ciphertext) evict_ids
              evict_bytes,
        )
      ]
