-- ===== src/MetaStore.antt =====
-- src/meta_store.rs: the durable copies of the mailbox credentials and of the bundles.
use axeno_relay.Prelude.{
  ◌≡◌, Bool, true, false, Option, none, some, List, [], ◌∷◌, map, Bytes, Text, Result, ok, err,
  ◌>>=◌, ◌>>◌, AnyhowError, anyhow, DbCall, begin_read, begin_write, open_table, iterate,
  insert_row, remove_row, commit, db_call,
}
use axeno_relay.Table.{TableApi, Assoc}
use axeno_relay.State.Tokens.{MailboxAuth}
use axeno_relay.State.Bundle.{HostedBundle}

-- What `serde_json` makes of values of `V`.
pub record Serde (V : Type 0) : Type 0 where
  pub to_vec : V → Option Bytes
  pub from_slice : Bytes → Option V
  pub from_slice-to_vec : (v : V) (b : Bytes) → to_vec v ≡ some b → from_slice b ≡ some v

pub record MetaApi : Type 1 where
  pub auth_json : Serde MailboxAuth
  pub bundle_json : Serde HostedBundle
  -- The tables `mailbox_auth` and `bundles`.
  pub auth_table : TableApi Bytes
  pub bundle_table : TableApi Bytes

abbrev call : Option DbCall → DbCall → Result AnyhowError (Unit {0})
call fault kind = db_call fault anyhow kind

-- The rows that can be read, with their keys.
unfoldable pub readable : {V : Type 0} → Serde V → Assoc Bytes → Assoc V
readable json [] = []
readable json ((k, b) ∷ rows) =
    let later = readable json rows in
    elim (Serde.from_slice json b) [ none ↦ later | some v ↦ (k, v) ∷ later ]

-- A value in the batch is an upsert, none a delete.
unfoldable pub apply_items :
    {V : Type 0} (T : TableApi Bytes)
    → Serde V
    → Option DbCall
    → List (Text × Option V)
    → TableApi.Table T
    → Result AnyhowError (TableApi.Table T)
apply_items T json fault [] db = ok db
apply_items T json fault ((k, none) ∷ items) db =
    let rest = apply_items T json fault items (TableApi.remove T db k) in
    call fault remove_row >> rest
apply_items T json fault ((k, some v) ∷ items) db = elim (Serde.to_vec json v) [
  | none ↦ err anyhow
  | some b ↦ call fault insert_row >> apply_items T json fault items (TableApi.insert T db k b)
]

-- One transaction for the batch; an empty one opens none.
unfoldable pub flush_items :
    {V : Type 0} (T : TableApi Bytes)
    → Serde V
    → Option DbCall
    → List (Text × Option V)
    → TableApi.Table T
    → Result AnyhowError (TableApi.Table T)
unfolding apply_items
flush_items T json fault [] db = ok db
flush_items T json fault (item ∷ items) db = do
  call fault begin_write
  call fault open_table
  db' ← apply_items T json fault (item ∷ items) db
  call fault commit
  ok db'

module _ (api : MetaApi) where
  pub record MetaStore : Type 0 where
    pub auth : TableApi.Table api.auth_table
    pub bundles : TableApi.Table api.bundle_table

  unfoldable pub open_meta : Option DbCall → MetaStore → Result AnyhowError MetaStore
  open_meta fault db = do call fault begin_write; call fault open_table; call fault commit; ok db

  unfoldable pub load_all_auth : Option DbCall → MetaStore → Result AnyhowError (Assoc MailboxAuth)
  unfolding readable
  load_all_auth fault db = do
    call fault begin_read
    call fault open_table
    call fault iterate
    ok (readable api.auth_json (TableApi.entries api.auth_table db.auth))

  unfoldable pub load_all_bundles :
      Option DbCall → MetaStore → Result AnyhowError (List HostedBundle)
  unfolding readable
  load_all_bundles fault db = do
    call fault begin_read
    call fault open_table
    call fault iterate
    ok (map (λ e. e.1) (readable api.bundle_json (TableApi.entries api.bundle_table db.bundles)))

  abbrev is_nil : Assoc Bytes → Bool
  is_nil [] = true
  is_nil (x ∷ xs) = false

  unfoldable pub auth_is_empty : Option DbCall → MetaStore → Result AnyhowError Bool
  auth_is_empty fault db = do
    call fault begin_read
    call fault open_table
    call fault iterate
    ok (is_nil (TableApi.entries api.auth_table db.auth))

  unfoldable pub bundles_is_empty : Option DbCall → MetaStore → Result AnyhowError Bool
  bundles_is_empty fault db = do
    call fault begin_read
    call fault open_table
    call fault iterate
    ok (is_nil (TableApi.entries api.bundle_table db.bundles))

  -- A transaction that fails leaves the rows as they were.
  unfoldable pub flush_auth :
      Option DbCall
      → List (Text × Option MailboxAuth)
      → MetaStore
      → Result AnyhowError (Unit {0}) × MetaStore
  unfolding flush_items
  flush_auth fault items db = elim (flush_items api.auth_table api.auth_json fault items db.auth) [
    | err e ↦ (err e, db)
    | ok rows ↦ (ok tt, record db { auth = rows })
  ]

  unfoldable pub flush_bundles :
      Option DbCall
      → List (Text × Option HostedBundle)
      → MetaStore
      → Result AnyhowError (Unit {0}) × MetaStore
  unfolding flush_items
  flush_bundles fault items db =
      elim (flush_items api.bundle_table api.bundle_json fault items db.bundles) [
        | err e ↦ (err e, db)
        | ok rows ↦ (ok tt, record db { bundles = rows })
      ]
