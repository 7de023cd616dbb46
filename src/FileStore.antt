-- ===== src/FileStore.antt =====
-- src/file_store.rs: chunked file transfers on disk, their metadata cache, and the two counters that
-- the caps are checked against. Each operation takes the database call that fails in it, if one does,
-- and the readings of the clock.
pub mod Lifetime
pub mod Failure
pub mod RoundTrip
pub mod Caps
pub mod Accounting
use axeno_relay.Prelude.{
  ℕ, ◌+◌, ◌-◌, ◌%◌, ◌^◌, ◌≡◌, Bool, true, false, not, ◌&&◌, ◌||◌, Option, none, some, List, [], ◌∷◌,
  ◌++◌, ltb, leb, ◌==◌, if◌then◌else◌, length, Bytes, Text, text_lt, Result, ok, err, ◌>>=◌, ◌>>◌,
  ok_or, AnyhowError, anyhow, DbCall, begin_read, begin_write, open_table, read_row, iterate,
  insert_row, remove_row, commit, db_call, wrap_add, wrap_sub, saturating_add, saturating_sub,
  keep_if, decimal,
}
use axeno_relay.Config.{FileConfig}
use axeno_relay.Table.{TableApi, Assoc}

pub record FileMeta : Type 0 where
  pub total_chunks : ℕ
  pub total_bytes : ℕ
  pub stored_bytes : ℕ
  pub received_chunks : ℕ
  pub created_at_ms : ℕ

pub data FileReject : Type 0 where
  too_large full bad_request not_found : FileReject

pub record StoredChunk : Type 0 where
  pub received_chunks : ℕ
  pub total_chunks : ℕ

pub record FetchedChunk : Type 0 where
  pub chunk_data : Bytes
  pub total_chunks : ℕ
  pub total_bytes : ℕ

-- The crates: `serde_json` for the metadata, the two tables of `redb`, and `dashmap`.
pub record FileApi : Type 1 where
  pub to_vec : FileMeta → Option Bytes
  pub from_slice : Bytes → Option FileMeta
  pub from_slice-to_vec : (m : FileMeta) (b : Bytes) → to_vec m ≡ some b → from_slice b ≡ some m
  pub file_meta : TableApi Bytes
  pub file_chunks : TableApi Bytes
  pub range : TableApi.Table file_chunks → Text → Text → Assoc Bytes
  pub range_lem :
      (t : TableApi.Table file_chunks) (lo hi : Text)
      → range t lo hi
        ≡ keep_if (λ e. not (text_lt e.0 lo) && text_lt e.0 hi) (TableApi.entries file_chunks t)
  pub meta : TableApi FileMeta

unfoldable pub chunk_key : Text → ℕ → Text
chunk_key transfer_id chunk_index = transfer_id ++ (b':' ∷ decimal chunk_index)

-- The two ends of `chunk_bounds`.
abbrev pub chunk_lo : Text → Text
chunk_lo transfer_id = transfer_id ++ (b':' ∷ [])

abbrev pub chunk_hi : Text → Text
chunk_hi transfer_id = transfer_id ++ (b';' ∷ [])

-- `+= 1` on a `u32`.
unfoldable pub next_u32 : ℕ → ℕ
next_u32 n = (n + 1) % 2 ^ 32

-- A meta of a transfer without chunks.
abbrev pub new_meta : ℕ → ℕ → ℕ → FileMeta
new_meta total_chunks total_bytes now = record {
  total_chunks = total_chunks;
  total_bytes = total_bytes;
  stored_bytes = 0;
  received_chunks = 0;
  created_at_ms = now;
}

module _ (api : FileApi) where
  open api use {to_vec, from_slice, range}
  open api.file_meta use {
    Table as MetaTable, get as get_meta_row, insert as set_meta_row, remove as remove_meta_row,
    entries as meta_rows,
  }
  open api.file_chunks use {
    Table as ChunkTable, get as get_chunk, insert as set_chunk, remove as remove_chunk,
  }
  open api.meta use {
    Table as Cache, empty as no_cache, get as get_cached, insert as set_cached,
    remove as remove_cached, entries as cached,
  }

  pub record FileStore : Type 0 where
    pub file_meta : MetaTable
    pub file_chunks : ChunkTable
    pub config : FileConfig
    pub meta : Cache
    pub reserved_bytes : ℕ
    pub transfer_count : ℕ

  abbrev call : Option DbCall → DbCall → Result FileReject (Unit {0})
  call fault kind = db_call fault full kind

  -- The compare-and-exchange loops, as the one step that they amount to.
  unfoldable pub reserve_slot : FileStore → Option FileStore
  reserve_slot s =
      if leb s.config.max_transfers s.transfer_count
      then none
      else some (record s { transfer_count = wrap_add s.transfer_count 1 })

  unfoldable pub try_reserve_bytes : ℕ → FileStore → Option FileStore
  try_reserve_bytes amount s =
      if ltb s.config.max_total_file_bytes (saturating_add s.reserved_bytes amount)
      then none
      else some (record s { reserved_bytes = saturating_add s.reserved_bytes amount })

  unfoldable pub release_slot : FileStore → FileStore
  release_slot s = record s { transfer_count = wrap_sub s.transfer_count 1 }

  unfoldable pub release_bytes : ℕ → FileStore → FileStore
  release_bytes amount s = record s { reserved_bytes = saturating_sub s.reserved_bytes amount }

  -- The meta that a chunk is written under.
  unfoldable pub current_meta :
      Option DbCall → ℕ → Text → ℕ → ℕ → Bool → FileStore → Result FileReject FileMeta
  current_meta fault now transfer_id total_chunks total_bytes true s =
      ok (new_meta total_chunks total_bytes now)
  current_meta fault now transfer_id total_chunks total_bytes false s = do
    call fault read_row
    bytes ← ok_or (get_meta_row s.file_meta transfer_id) not_found
    ok_or (from_slice bytes) not_found

  abbrev pub chunk_length : Option Bytes → ℕ
  chunk_length none = 0
  chunk_length (some chunk) = length chunk

  unfoldable pub prev_len : Text → ℕ → FileStore → ℕ
  prev_len transfer_id chunk_index s =
      chunk_length (get_chunk s.file_chunks (chunk_key transfer_id chunk_index))

  -- The bytes that the transfer holds once the chunk has replaced its predecessor.
  unfoldable pub new_stored : FileMeta → ℕ → ℕ → ℕ
  new_stored meta prev data_len = wrap_add (wrap_sub meta.stored_bytes prev) data_len

  abbrev pub updated_meta : FileMeta → ℕ → ℕ → FileMeta
  updated_meta meta prev data_len = record meta {
    stored_bytes = new_stored meta prev data_len;
    received_chunks = if prev == 0 then next_u32 meta.received_chunks else meta.received_chunks;
  }

  -- The first half of the closure in `write_chunk`: the meta to write, and the bytes replaced.
  unfoldable pub plan_chunk :
      Option DbCall → ℕ → Text → ℕ → ℕ → ℕ → ℕ → Bool → FileStore → Result FileReject (FileMeta × ℕ)
  plan_chunk fault now transfer_id chunk_index total_chunks total_bytes data_len creating s = do
    call fault begin_write
    call fault open_table
    meta ← current_meta fault now transfer_id total_chunks total_bytes creating s
    call fault read_row
    let prev = prev_len transfer_id chunk_index s
    (if ltb meta.total_bytes (new_stored meta prev data_len)
          || ltb s.config.max_file_bytes (new_stored meta prev data_len)
        then err bad_request
        else ok (updated_meta meta prev data_len, prev))

  -- The net increase is reserved before the write.
  unfoldable pub reserve_growth : ℕ → ℕ → FileStore → Option FileStore
  reserve_growth prev data_len s =
      if ltb prev data_len then try_reserve_bytes (data_len - prev) s else some s

  -- `reserved_add` given back after a write that was aborted or not committed.
  unfoldable pub roll_back : ℕ → ℕ → FileStore → FileStore
  roll_back prev data_len s = if ltb prev data_len then release_bytes (data_len - prev) s else s

  -- `release_after_commit`.
  unfoldable pub release_shrink : ℕ → ℕ → FileStore → FileStore
  release_shrink prev data_len s =
      if ltb data_len prev then release_bytes (prev - data_len) s else s

  -- The second half of the closure, and the commit.
  unfoldable pub commit_chunk :
      Option DbCall → Text → ℕ → Bytes → FileMeta → FileStore → Result FileReject FileStore
  commit_chunk fault transfer_id chunk_index chunk meta s = do
    call fault insert_row
    meta_bytes ← ok_or (to_vec meta) full
    call fault commit
    ok (record s {
      file_meta = set_meta_row s.file_meta transfer_id meta_bytes;
      file_chunks = set_chunk s.file_chunks (chunk_key transfer_id chunk_index) chunk;
    })

  -- The cache's view only advances.
  abbrev pub advance : FileMeta → FileMeta → FileMeta
  advance e meta =
      if leb e.received_chunks meta.received_chunks
      then record e { stored_bytes = meta.stored_bytes; received_chunks = meta.received_chunks }
      else e

  abbrev pub claimed : Option FileMeta → FileMeta → ℕ → ℕ → FileMeta
  claimed none meta total_chunks total_bytes = record meta {
    total_chunks = total_chunks;
    total_bytes = total_bytes;
  }
  claimed (some e) meta total_chunks total_bytes = e

  unfoldable pub mirror : Text → ℕ → ℕ → FileMeta → FileStore → FileStore
  mirror transfer_id total_chunks total_bytes meta s = record s {
    meta =
        set_cached s.meta transfer_id
          (advance (claimed (get_cached s.meta transfer_id) meta total_chunks total_bytes) meta);
  }

  unfoldable pub write_chunk :
      Option DbCall
      → ℕ
      → Text
      → ℕ
      → ℕ
      → ℕ
      → Bytes
      → Bool
      → FileStore
      → Result FileReject StoredChunk × FileStore
  unfolding plan_chunk commit_chunk roll_back release_shrink mirror reserve_growth
  write_chunk fault now transfer_id chunk_index total_chunks total_bytes chunk creating s =
      elim (plan_chunk fault now transfer_id chunk_index total_chunks total_bytes (length chunk)
        creating s) [
          | err e ↦ (err e, s)
          | ok (meta, prev) ↦ elim (reserve_growth prev (length chunk) s) [
            | none ↦ (err full, s)
            | some reserved ↦
                elim (commit_chunk fault transfer_id chunk_index chunk meta reserved) [
                  | err e ↦ (err e, roll_back prev (length chunk) reserved)
                  | ok written ↦ (
                    ok (record {
                      received_chunks = meta.received_chunks;
                      total_chunks = total_chunks;
                    }),
                    mirror transfer_id total_chunks total_bytes meta
                        (release_shrink prev (length chunk) written),
                  )
                ]
          ]
        ]
