-- ===== src/FileStore/Lifetime.antt =====
-- The operations of src/file_store.rs on whole transfers: creation by the first chunk, fetching,
-- deletion, expiry, and the scan on opening.
use axeno_relay.Prelude.{
  ℕ, zero, suc, Bool, true, false, not, ◌||◌, Option, none, some, List, [], ◌∷◌, map, min, ltb, leb,
  ◌==◌, if◌then◌else◌, is_some, Bytes, Text, Result, ok, err, ◌>>=◌, ◌>>◌, ok_or, AnyhowError,
  anyhow, DbCall, next_row, begin_read, begin_write, open_table, read_row, iterate, remove_row,
  commit, db_call, wrap_add, saturating_add, saturating_sub,
}
use axeno_relay.Config.{FileConfig, incomplete_file_ttl_ms}
use axeno_relay.Table.{Assoc}
use axeno_relay.FileStore.{
  FileApi, FileStore, FileMeta, FileReject, too_large, full, bad_request, not_found, StoredChunk,
  FetchedChunk, new_meta, chunk_key, chunk_lo, chunk_hi, reserve_slot, release_slot, release_bytes,
  write_chunk,
}

module _ (api : FileApi) where
  open api use {to_vec, from_slice, range}
  open api.file_meta use {
    Table as MetaTable, get as get_meta_row, remove as remove_meta_row, entries as meta_rows,
  }
  open api.file_chunks use {Table as ChunkTable, get as get_chunk, remove as remove_chunk}
  open api.meta use {
    Table as Cache, empty as no_cache, get as get_cached, insert as set_cached,
    remove as remove_cached, entries as cached,
  }

  -- A creation: the provisional claim of the id, the slot, the first chunk, and the release of both
  -- where it fails.
  abbrev pub claim : ℕ → Text → ℕ → ℕ → FileStore api → FileStore api
  claim now transfer_id total_chunks total_bytes s = record s {
    meta = set_cached s.meta transfer_id (new_meta total_chunks total_bytes now);
  }

  abbrev pub unclaim : Text → FileStore api → FileStore api
  unclaim transfer_id s = record s { meta = remove_cached s.meta transfer_id }

  abbrev pub settle_creation :
      Text
      → Result FileReject StoredChunk × FileStore api
      → Result FileReject StoredChunk × FileStore api
  settle_creation transfer_id (ok stored, s) = (ok stored, s)
  settle_creation transfer_id (err e, s) = (err e, unclaim transfer_id (release_slot api s))

  unfoldable pub create_transfer :
      Option DbCall
      → ℕ
      → ℕ
      → Text
      → ℕ
      → ℕ
      → Bytes
      → FileStore api
      → Result FileReject StoredChunk × FileStore api
  create_transfer fault claim_now write_now transfer_id total_chunks total_bytes chunk s =
      let claimed = claim claim_now transfer_id total_chunks total_bytes s in
      elim (reserve_slot api claimed) [
        | none ↦ (err full, unclaim transfer_id claimed)
        | some slotted ↦ settle_creation transfer_id (
            write_chunk api fault write_now transfer_id 0 total_chunks total_bytes chunk true
              slotted)
      ]

  abbrev is_nil : Bytes → Bool
  is_nil [] = true
  is_nil (x ∷ xs) = false

  -- The shape checks in front.
  unfoldable pub check_shape : ℕ → ℕ → ℕ → Bytes → FileConfig → Option FileReject
  check_shape chunk_index total_chunks total_bytes chunk config =
      if is_nil chunk
        || (total_chunks == 0)
        || ltb config.max_chunks total_chunks
        || leb total_chunks chunk_index
      then some bad_request
      else if (total_bytes == 0) || ltb config.max_file_bytes total_bytes
      then some too_large
      else none

  -- `claim_now` and `write_now` are what the two readings of the clock return.
  unfoldable pub store_chunk :
      Option DbCall
      → ℕ
      → ℕ
      → Text
      → ℕ
      → ℕ
      → ℕ
      → Bytes
      → FileStore api
      → Result FileReject StoredChunk × FileStore api
  unfolding check_shape create_transfer
  store_chunk fault claim_now write_now transfer_id chunk_index total_chunks total_bytes chunk s =
      elim (check_shape chunk_index total_chunks total_bytes chunk s.config) [
        | some e ↦ (err e, s)
        | none ↦ elim (get_cached s.meta transfer_id) [
          | some m ↦
              if not (m.total_chunks == total_chunks) || not (m.total_bytes == total_bytes)
              then (err bad_request, s)
              else write_chunk api fault write_now transfer_id chunk_index total_chunks total_bytes
                  chunk false s
          | none ↦
              if not (chunk_index == 0)
              then (err not_found, s)
              else create_transfer fault claim_now write_now transfer_id total_chunks total_bytes
                  chunk s
        ]
      ]

  abbrev lookup_call : Option DbCall → DbCall → Result FileReject (Unit {0})
  lookup_call fault kind = db_call fault not_found kind

  unfoldable pub fetch_chunk :
      Option DbCall → Text → ℕ → FileStore api → Result FileReject FetchedChunk
  fetch_chunk fault transfer_id chunk_index s = do
    meta ← ok_or (get_cached s.meta transfer_id) not_found
    (if leb meta.total_chunks chunk_index then err bad_request else ok tt)
    lookup_call fault begin_read
    lookup_call fault open_table
    lookup_call fault read_row
    chunk ← ok_or (get_chunk s.file_chunks (chunk_key transfer_id chunk_index)) not_found
    ok (record {
      chunk_data = chunk;
      total_chunks = meta.total_chunks;
      total_bytes = meta.total_bytes;
    })

  abbrev call : Option DbCall → DbCall → Result AnyhowError (Unit {0})
  call fault kind = db_call fault anyhow kind

  unfoldable pub remove_chunks :
      Option DbCall → List Text → ChunkTable → Result AnyhowError ChunkTable
  remove_chunks fault [] db = ok db
  remove_chunks fault (key ∷ keys) db =
      let rest = remove_chunks fault keys (remove_chunk db key) in call fault remove_row >> rest

  -- The keys of the entries that can be read: `filter_map` passes over the one that cannot.
  abbrev without_nth : ℕ → List Text → List Text
  without_nth n [] = []
  without_nth zero (key ∷ keys) = keys
  without_nth (suc n) (key ∷ keys) = key ∷ without_nth n keys

  unfoldable pub readable_keys : Option DbCall → List Text → List Text
  readable_keys (some (next_row n)) keys = without_nth n keys
  readable_keys _ keys = keys

  -- The write transaction of `delete_transfer`.
  unfoldable pub delete_txn :
      Option DbCall → Text → FileStore api → Result AnyhowError (FileStore api)
  unfolding remove_chunks readable_keys
  delete_txn fault transfer_id s = do
    call fault begin_write
    call fault open_table
    call fault read_row
    call fault remove_row
    call fault iterate
    chunks ←
        remove_chunks fault
          (readable_keys fault
            (map (λ e. e.0) (range s.file_chunks (chunk_lo transfer_id) (chunk_hi transfer_id))))
          s.file_chunks
    call fault commit
    ok (record s { file_meta = remove_meta_row s.file_meta transfer_id; file_chunks = chunks })

  abbrev pub held_bytes : Option Bytes → ℕ
  held_bytes none = 0
  held_bytes (some bytes) = elim (from_slice bytes) [ none ↦ 0 | some meta ↦ meta.stored_bytes ]

  unfoldable pub delete_transfer :
      Option DbCall → Text → FileStore api → Result AnyhowError Bool × FileStore api
  unfolding delete_txn
  delete_transfer fault transfer_id s =
      let found = get_meta_row s.file_meta transfer_id in
      elim (delete_txn fault transfer_id s) [
        | err e ↦ (err e, s)
        | ok deleted ↦
            if is_some found
            then (
              ok true,
              release_bytes api (held_bytes found) (release_slot api (unclaim transfer_id deleted)),
            )
            else (ok false, deleted)
      ]

  -- The cached transfers that are past their cutoff: the short one while chunks are missing.
  unfoldable pub is_expired : ℕ → FileConfig → FileMeta → Bool
  is_expired now config m =
      let cutoff =
        (if leb m.total_chunks m.received_chunks
          then saturating_sub now config.file_ttl_ms
          else saturating_sub now (min incomplete_file_ttl_ms config.file_ttl_ms)) in
      ltb m.created_at_ms cutoff

  unfoldable pub expired_ids : ℕ → FileConfig → Assoc FileMeta → List Text
  expired_ids now config [] = []
  expired_ids now config ((id, m) ∷ rest) =
      let later = expired_ids now config rest in
      if is_expired now config m then id ∷ later else later

  abbrev next_fault : List (Option DbCall) → Option DbCall
  next_fault [] = none
  next_fault (fault ∷ faults) = fault

  abbrev later_faults : List (Option DbCall) → List (Option DbCall)
  later_faults [] = []
  later_faults (fault ∷ faults) = faults

  -- The deletions in turn, each with its fault; the first that fails ends the sweep.
  unfoldable pub delete_all :
      List (Option DbCall) → ℕ → List Text → FileStore api → Result AnyhowError ℕ × FileStore api
  unfolding delete_transfer
  delete_all faults removed [] s = (ok removed, s)
  delete_all faults removed (id ∷ ids) s =
      let (result, s') = delete_transfer (next_fault faults) id s in
      elim result [
        | err e ↦ (err e, s')
        | ok existed ↦
            delete_all (later_faults faults) (if existed then wrap_add removed 1 else removed) ids
              s'
      ]

  unfoldable pub sweep_expired :
      List (Option DbCall) → ℕ → FileStore api → Result AnyhowError ℕ × FileStore api
  unfolding delete_all expired_ids is_expired
  sweep_expired faults now s = delete_all faults 0 (expired_ids now s.config (cached s.meta)) s

  -- `scan_meta`: rows that cannot be read are passed over.
  abbrev scan_row : FileStore api → Text × Bytes → FileStore api
  scan_row s (id, bytes) = elim (from_slice bytes) [
    | none ↦ s
    | some m ↦ record s {
      reserved_bytes = saturating_add s.reserved_bytes m.stored_bytes;
      transfer_count = wrap_add s.transfer_count 1;
      meta = set_cached s.meta id m;
    }
  ]

  unfoldable pub scan_meta : Assoc Bytes → FileStore api → FileStore api
  scan_meta [] s = s
  scan_meta (row ∷ rest) s = scan_meta rest (scan_row s row)

  -- `FileStore::new` on an opened database.
  unfoldable pub open_files :
      Option DbCall → MetaTable → ChunkTable → FileConfig → Result AnyhowError (FileStore api)
  unfolding scan_meta
  open_files fault metas chunks config = do
    call fault begin_write
    call fault open_table
    call fault commit
    call fault begin_read
    call fault iterate
    ok (
        scan_meta (meta_rows metas) (record {
          file_meta = metas;
          file_chunks = chunks;
          config = config;
          meta = no_cache;
          reserved_bytes = 0;
          transfer_count = 0;
        }))
