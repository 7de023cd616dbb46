-- ===== src/Relay/Tasks.antt =====
-- What one tick of each background task in src/main.rs does to the shared state. The intervals
-- between the ticks are not modelled; a task that fails only logs.
use axeno_relay.Prelude.{ℕ, Bool, true, false, ◌&&◌, Option, List, [], ◌∷◌, if◌then◌else◌, DbCall}
use axeno_relay.Table.{TableApi, Assoc}
use axeno_relay.QueueStore.Removal
use axeno_relay.FileStore.Lifetime
use axeno_relay.State.Runtime.{StateApi, AppState, flush_dirty_meta, gc_idle_mailboxes}

module _ (api : StateApi) where
  open api use {queue_api, file_api, marks}

  abbrev pub is_clean : Assoc (Unit {0}) → Bool
  is_clean [] = true
  is_clean (e ∷ l) = false

  -- `spawn_meta_flush_task`: the faults are those of the two transactions.
  unfoldable pub meta_flush_tick : Option DbCall → Option DbCall → AppState api → AppState api
  meta_flush_tick auth_fault bundle_fault s =
      if is_clean (TableApi.entries marks s.dirty_auth)
        && is_clean (TableApi.entries marks s.dirty_bundles)
      then s
      else (flush_dirty_meta api auth_fault bundle_fault s).1

  -- `spawn_mailbox_gc_task`: the snapshot is a state that the relay was in before.
  unfoldable pub mailbox_gc_tick : Option DbCall → ℕ → AppState api → AppState api → AppState api
  mailbox_gc_tick fault now snapshot s = gc_idle_mailboxes api fault now snapshot s

  -- `spawn_queue_sweep_task`.
  unfoldable pub queue_sweep_tick : Option DbCall → ℕ → AppState api → AppState api
  queue_sweep_tick fault now s = record s {
    queues = (Removal.sweep_expired queue_api fault now s.queues).1;
  }

  -- `spawn_file_sweep_task`: each deletion may fail on its own.
  unfoldable pub file_sweep_tick : List (Option DbCall) → ℕ → AppState api → AppState api
  file_sweep_tick faults now s = record s {
    files = (Lifetime.sweep_expired file_api faults now s.files).1;
  }
