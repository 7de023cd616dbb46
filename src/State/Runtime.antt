-- ===== src/State/Runtime.antt =====
-- The shared state of src/state.rs and the operations on it. What `online` has for a mailbox is the
-- sending half of its socket's channel, for which the number of the socket stands: two halves are of
-- the same channel exactly when the numbers are equal.
pub mod Collection
pub mod Rate
pub mod Pruning
use axeno_relay.Prelude.{
  ℕ, ◌+◌, ◌%◌, ◌^◌, ◌≡◌, Bool, true, false, not, ◌&&◌, ◌||◌, Option, none, some, List, [], ◌∷◌, map,
  ltb, leb, ◌==◌, if◌then◌else◌, length, is_some, keep_if, Text, Result, ok, err, ◌>>=◌,
  AnyhowError, DbCall, wrap_add, wrap_sub, saturating_add, saturating_sub,
}
use axeno_relay.Config.{
  max_mailboxes, rate_window_ms, max_sends_per_dest_per_window, bundle_prune_min_interval_ms,
  mailbox_idle_ttl_ms, FileConfig,
}
use axeno_relay.Table.{TableApi, Assoc}
use axeno_relay.Util.{atomic_sub_saturating, now_activity_ms}
use axeno_relay.QueueStore.{QueueApi, QueueStore}
use axeno_relay.QueueStore.Removal.{is_empty, purge_mailbox}
use axeno_relay.MetaStore.{
  MetaApi, MetaStore, load_all_auth, load_all_bundles, flush_auth, flush_bundles,
}
use axeno_relay.FileStore.{FileApi, FileStore}
use axeno_relay.State.Tokens.{MailboxAuth}
use axeno_relay.State.Bundle.{HostedBundle}

-- The stores' crates, `DashMap`s for what is in memory, and two types of `libsignal_protocol`.
pub record StateApi : Type 1 where
  pub queue_api : QueueApi
  pub meta_api : MetaApi
  pub auths : TableApi MailboxAuth
  pub bundle_map : TableApi HostedBundle
  pub rates : TableApi (ℕ × ℕ)
  pub marks : TableApi (Unit {0})
  pub file_api : FileApi
  pub channels : TableApi ℕ
  pub ServerCertificate : Type 0
  pub PrivateKey : Type 0

pub record ServerCrypto (ServerCertificate PrivateKey : Type 0) : Type 0 where
  pub trust_root_public_b64 : Text
  pub server_certificate : ServerCertificate
  pub server_signing_private : PrivateKey

abbrev pub rate_entry : Option (ℕ × ℕ) → ℕ → ℕ × ℕ
rate_entry none now = (now, 0)
rate_entry (some e) now = e

-- What becomes of a destination's window.
abbrev pub next_window : ℕ → ℕ × ℕ → Bool × (ℕ × ℕ)
next_window now (window_start, count) =
    if ltb rate_window_ms (saturating_sub now window_start)
    then (true, (now, 1))
    else if leb max_sends_per_dest_per_window count
    then (false, (window_start, count))
    else (true, (window_start, (count + 1) % 2 ^ 32))

abbrev pub is_idle : ℕ → MailboxAuth → Bool
is_idle now auth = ltb mailbox_idle_ttl_ms (saturating_sub now auth.last_active_ms)

module _ (api : StateApi) where
  pub record AppState : Type 0 where
    pub queues : QueueStore api.queue_api
    pub meta : MetaStore api.meta_api
    pub files : FileStore api.file_api
    pub file_config : FileConfig
    pub online : TableApi.Table api.channels
    pub mailbox_auth : TableApi.Table api.auths
    pub mailbox_count : ℕ
    pub bundles : TableApi.Table api.bundle_map
    pub total_bundle_bytes : ℕ
    pub send_rate : TableApi.Table api.rates
    pub crypto : ServerCrypto api.ServerCertificate api.PrivateKey
    pub dirty_auth : TableApi.Table api.marks
    pub dirty_bundles : TableApi.Table api.marks
    pub conn_count : ℕ
    pub last_bundle_prune_ms : ℕ

  unfoldable pub load_auths :
      ℕ → Assoc MailboxAuth → TableApi.Table api.auths → TableApi.Table api.auths
  load_auths load_now [] auths = auths
  load_auths load_now ((rid, auth) ∷ rest) auths =
      let leased =
        (if auth.last_active_ms == 0 then record auth { last_active_ms = load_now } else auth) in
      load_auths load_now rest (TableApi.insert api.auths auths rid leased)

  unfoldable pub load_bundles :
      List HostedBundle → ℕ → TableApi.Table api.bundle_map → ℕ × TableApi.Table api.bundle_map
  load_bundles [] bytes bundles = (bytes, bundles)
  load_bundles (bundle ∷ rest) bytes bundles =
      load_bundles rest (saturating_add bytes (length bundle.ciphertext))
        (TableApi.insert api.bundle_map bundles bundle.id bundle)

  unfoldable pub build :
      Option DbCall
      → ℕ
      → MetaStore api.meta_api
      → QueueStore api.queue_api
      → FileStore api.file_api
      → FileConfig
      → ServerCrypto api.ServerCertificate api.PrivateKey
      → Result AnyhowError AppState
  unfolding load_auths load_bundles
  build fault now meta queues files file_config crypto = do
    auth_rows ← load_all_auth api.meta_api fault meta
    bundle_rows ← load_all_bundles api.meta_api fault meta
    let auths = load_auths (now_activity_ms now) auth_rows (TableApi.empty api.auths)
    let loaded = load_bundles bundle_rows 0 (TableApi.empty api.bundle_map)
    ok (record {
      queues = queues;
      meta = meta;
      files = files;
      file_config = file_config;
      online = TableApi.empty api.channels;
      mailbox_auth = auths;
      mailbox_count = length (TableApi.entries api.auths auths);
      bundles = loaded.1;
      total_bundle_bytes = loaded.0;
      send_rate = TableApi.empty api.rates;
      crypto = crypto;
      dirty_auth = TableApi.empty api.marks;
      dirty_bundles = TableApi.empty api.marks;
      conn_count = 0;
      last_bundle_prune_ms = 0;
    })

  unfoldable pub mark_auth_dirty : Text → AppState → AppState
  mark_auth_dirty rid s = record s { dirty_auth = TableApi.insert api.marks s.dirty_auth rid tt }

  unfoldable pub mark_bundle_dirty : Text → AppState → AppState
  mark_bundle_dirty id s = record s {
    dirty_bundles = TableApi.insert api.marks s.dirty_bundles id tt;
  }

  -- The loops of `flush_dirty_meta`: each key is taken out of the dirty set before its value is read.
  unfoldable pub drain_auth : List Text → AppState → List (Text × Option MailboxAuth) × AppState
  drain_auth [] s = ([], s)
  drain_auth (k ∷ ks) s =
      let (batch, s') =
        drain_auth ks (record s { dirty_auth = TableApi.remove api.marks s.dirty_auth k }) in
      ((k, TableApi.get api.auths s.mailbox_auth k) ∷ batch, s')

  unfoldable pub drain_bundles : List Text → AppState → List (Text × Option HostedBundle) × AppState
  drain_bundles [] s = ([], s)
  drain_bundles (k ∷ ks) s =
      let (batch, s') =
        drain_bundles ks
          (record s { dirty_bundles = TableApi.remove api.marks s.dirty_bundles k }) in
      ((k, TableApi.get api.bundle_map s.bundles k) ∷ batch, s')

  abbrev pub keys : {V : Type 0} → Assoc V → List Text
  keys = map (λ e. e.0)

  unfoldable pub flush_dirty_auth :
      Option DbCall → AppState → Result AnyhowError (Unit {0}) × AppState
  unfolding drain_auth
  flush_dirty_auth fault s =
      let (batch, drained) = drain_auth (keys (TableApi.entries api.marks s.dirty_auth)) s in
      let (result, meta) = flush_auth api.meta_api fault batch drained.meta in
      (result, record drained { meta = meta })

  unfoldable pub flush_dirty_bundles :
      Option DbCall → AppState → Result AnyhowError (Unit {0}) × AppState
  unfolding drain_bundles
  flush_dirty_bundles fault s =
      let (batch, drained) = drain_bundles (keys (TableApi.entries api.marks s.dirty_bundles)) s in
      let (result, meta) = flush_bundles api.meta_api fault batch drained.meta in
      (result, record drained { meta = meta })

  -- The fault of the first transaction, then that of the second.
  unfoldable pub flush_dirty_meta :
      Option DbCall → Option DbCall → AppState → Result AnyhowError (Unit {0}) × AppState
  unfolding flush_dirty_auth flush_dirty_bundles
  flush_dirty_meta auth_fault bundle_fault s =
      let (result, s') = flush_dirty_auth auth_fault s in
      elim result [ err e ↦ (err e, s') | ok _ ↦ flush_dirty_bundles bundle_fault s' ]

  unfoldable pub reserve_mailbox_slot : AppState → Bool × AppState
  reserve_mailbox_slot s =
      if leb max_mailboxes s.mailbox_count
      then (false, s)
      else (true, record s { mailbox_count = wrap_add s.mailbox_count 1 })

  unfoldable pub allow_dest_send : ℕ → Text → AppState → Bool × AppState
  allow_dest_send now to s =
      let (allowed, window) =
        next_window now (rate_entry (TableApi.get api.rates s.send_rate to) now) in
      (allowed, record s { send_rate = TableApi.insert api.rates s.send_rate to window })

  unfoldable pub expired_bundles : ℕ → Assoc HostedBundle → List (Text × ℕ)
  expired_bundles now [] = []
  expired_bundles now ((id, bundle) ∷ rest) =
      let later = expired_bundles now rest in
      if leb bundle.expires_at_ms now then (id, length bundle.ciphertext) ∷ later else later

  -- The removals, with the bytes that they free.
  unfoldable pub drop_bundles : List (Text × ℕ) → ℕ → AppState → ℕ × AppState
  unfolding mark_bundle_dirty
  drop_bundles [] freed s = (freed, s)
  drop_bundles ((id, len) ∷ rest) freed s =
      let removed = record s { bundles = TableApi.remove api.bundle_map s.bundles id } in
      let kept = drop_bundles rest freed removed in
      let dropped = drop_bundles rest (saturating_add freed len) (mark_bundle_dirty id removed) in
      if is_some (TableApi.get api.bundle_map s.bundles id) then dropped else kept

  unfoldable pub prune_expired_bundles : ℕ → AppState → AppState
  unfolding expired_bundles drop_bundles
  prune_expired_bundles now s =
      if ltb (saturating_sub now s.last_bundle_prune_ms) bundle_prune_min_interval_ms
        && not (s.last_bundle_prune_ms == 0)
      then s
      else (let (freed, s') =
            drop_bundles (expired_bundles now (TableApi.entries api.bundle_map s.bundles)) 0
              (record s { last_bundle_prune_ms = now }) in
          record s' { total_bundle_bytes = atomic_sub_saturating [] s'.total_bundle_bytes freed })

  abbrev pub is_online : AppState → Text → Bool
  is_online s rid = is_some (TableApi.get api.channels s.online rid)

  unfoldable pub idle_ids : ℕ → Assoc MailboxAuth → List Text
  idle_ids now [] = []
  idle_ids now ((rid, auth) ∷ rest) =
      let later = idle_ids now rest in if is_idle now auth then rid ∷ later else later

  -- `is_empty(rid).unwrap_or(true)`.
  abbrev ok_or_true : Result AnyhowError Bool → Bool
  ok_or_true (ok b) = b
  ok_or_true (err e) = true

  -- The snapshot that the collection starts from.
  unfoldable pub stale_mailboxes : Option DbCall → ℕ → AppState → List Text
  unfolding idle_ids
  stale_mailboxes fault now s =
      keep_if
        (λ rid. ok_or_true (is_empty api.queue_api fault rid s.queues) && not (is_online s rid))
        (idle_ids now (TableApi.entries api.auths s.mailbox_auth))

  abbrev pub may_collect : ℕ → AppState → Text → Bool
  may_collect now s rid = elim (TableApi.get api.auths s.mailbox_auth rid) [
    | none ↦ false
    | some auth ↦ is_idle now auth && not (is_online s rid)
  ]

  -- `remove_if` holds, and what follows it. A purge that fails is not reported.
  unfoldable pub collect_mailbox : Option DbCall → Text → AppState → AppState
  unfolding mark_auth_dirty
  collect_mailbox fault rid s =
      let removed = record s {
        mailbox_auth = TableApi.remove api.auths s.mailbox_auth rid;
        mailbox_count = wrap_sub s.mailbox_count 1;
      } in
      let marked = mark_auth_dirty rid removed in
      record marked {
        queues = (purge_mailbox api.queue_api fault rid s.queues).1;
        send_rate = TableApi.remove api.rates s.send_rate rid;
      }

  unfoldable pub collect_stale : Option DbCall → ℕ → List Text → AppState → AppState
  unfolding collect_mailbox
  collect_stale fault now [] s = s
  collect_stale fault now (rid ∷ rids) s =
      let collected = collect_stale fault now rids (collect_mailbox fault rid s) in
      let spared = collect_stale fault now rids s in
      if may_collect now s rid then collected else spared

  -- `later` is the state at the removals, which other requests may have changed since the snapshot.
  unfoldable pub gc_idle_mailboxes : Option DbCall → ℕ → AppState → AppState → AppState
  unfolding stale_mailboxes collect_stale
  gc_idle_mailboxes fault now snapshot later =
      collect_stale fault now (stale_mailboxes fault now snapshot) later
