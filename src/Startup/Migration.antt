-- ===== src/Startup/Migration.antt =====
-- The migration of legacy state in src/main.rs, from the JSON file into the stores. Each database
-- operation has its own fault.
use axeno_relay.Prelude.{
  ℕ, Bool, true, false, not, ◌&&◌, Option, some, List, [], ◌∷◌, map, if◌then◌else◌, Text, Result,
  ok, err, AnyhowError, DbCall,
}
use axeno_relay.Protocol.{StoredEnvelope}
use axeno_relay.QueueStore.{QueueApi, QueueStore, enqueue}
use axeno_relay.MetaStore.{
  MetaApi, MetaStore, auth_is_empty, bundles_is_empty, flush_auth, flush_bundles,
}
use axeno_relay.State.Tokens.{MailboxAuth}
use axeno_relay.State.Bundle.{HostedBundle}
use axeno_relay.Persistence.{DiskState}

module _ (queue_api : QueueApi) (meta_api : MetaApi) where
  abbrev Legacy : Type 0
  Legacy = DiskState (QueueApi.Uuid queue_api)

  -- `let _ = queues.enqueue(rid, env)` for each envelope; a failure is passed over.
  unfoldable pub migrate_mailbox :
      Option DbCall
      → ℕ
      → Text
      → List (StoredEnvelope (QueueApi.Uuid queue_api))
      → QueueStore queue_api
      → QueueStore queue_api
  migrate_mailbox fault now rid [] s = s
  migrate_mailbox fault now rid (env ∷ envs) s =
      migrate_mailbox fault now rid envs (enqueue queue_api fault now rid env s).1

  unfoldable pub migrate_queues :
      Option DbCall
      → ℕ
      → List (Text × List (StoredEnvelope (QueueApi.Uuid queue_api)))
      → QueueStore queue_api
      → QueueStore queue_api
  unfolding migrate_mailbox
  migrate_queues fault now [] s = s
  migrate_queues fault now ((rid, envs) ∷ rest) s =
      migrate_queues fault now rest (migrate_mailbox fault now rid envs s)

  abbrev is_nil : {A : Type 0} → List A → Bool
  is_nil [] = true
  is_nil (x ∷ xs) = false

  -- Into a table that is empty, and only where there is something to move.
  unfoldable pub migrate_auth :
      Option DbCall
      → List (Text × MailboxAuth)
      → MetaStore meta_api
      → Result AnyhowError (Unit {0}) × MetaStore meta_api
  migrate_auth fault entries db = elim (auth_is_empty meta_api fault db) [
    | err e ↦ (err e, db)
    | ok empty ↦
        if empty && not (is_nil entries)
        then flush_auth meta_api fault (map (λ e. (e.0, some e.1)) entries) db
        else (ok tt, db)
  ]

  unfoldable pub migrate_bundles :
      Option DbCall
      → List HostedBundle
      → MetaStore meta_api
      → Result AnyhowError (Unit {0}) × MetaStore meta_api
  migrate_bundles fault bundles db = elim (bundles_is_empty meta_api fault db) [
    | err e ↦ (err e, db)
    | ok empty ↦
        if empty && not (is_nil bundles)
        then flush_bundles meta_api fault (map (λ b. (b.id, some b)) bundles) db
        else (ok tt, db)
  ]

  -- The faults of the three migrations. A failure of the second leaves out the third.
  unfoldable pub migrate :
      Option DbCall
      → Option DbCall
      → Option DbCall
      → ℕ
      → Legacy
      → QueueStore queue_api
      → MetaStore meta_api
      → Result AnyhowError (Unit {0}) × QueueStore queue_api × MetaStore meta_api
  unfolding migrate_queues migrate_auth migrate_bundles
  migrate queue_fault auth_fault bundle_fault now disk queues meta =
      let queues' = migrate_queues queue_fault now disk.queues queues in
      let (moved, meta') = migrate_auth auth_fault disk.mailbox_auth meta in
      let (moved', meta'') = migrate_bundles bundle_fault disk.bundles meta' in
      elim moved [ err e ↦ (err e, queues', meta') | ok _ ↦ (moved', queues', meta'') ]
