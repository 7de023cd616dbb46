-- ===== src/Tests/Files.antt =====
-- The file store on a concrete transfer of two chunks.
use axeno_relay.Prelude.{
  ℕ, zero, suc, ◌+◌, ◌≤◌, ◌≡◌, refl, Bool, true, false, not, ◌&&◌, Option, none, some, List, [],
  ◌∷◌, arith, length, Bytes, Text, str, text_lt, keep_if, ok, err, commit, u64_mod, sum_by,
}
use axeno_relay.Table.{TableApi, total}
use axeno_relay.Tests.Crates.{file_api, no_files, encode_meta, decode_meta}
use axeno_relay.FileStore.{FileApi, FileStore, FileMeta, StoredChunk, FetchedChunk, full}
use axeno_relay.FileStore.Lifetime.{store_chunk, fetch_chunk}
use axeno_relay.FileStore.Failure.{IsCapped, IsUnchanged, store_chunk-err}
use axeno_relay.Protocol.{file_chunk_stored, file_chunk}
use axeno_relay.Ws.Files.{UploadClock, pow_passes, upload_file_chunk, fetch_file_chunk}
use axeno_relay.Ws.Transfers.{upload_file_chunk-needs_pow, fetch_file_chunk-upload_file_chunk}
use axeno_relay.FileStore.Accounting.{HoldsWithin, store_chunk-HoldsWithin}
use axeno_relay.FileStore.RoundTrip.{fetch_chunk-store_chunk}

abbrev transfer : Text
transfer = str "transfer"

abbrev first_chunk : Bytes
first_chunk = str "abc"

no_files-IsCapped : IsCapped file_api no_files
no_files-IsCapped = record {
  reserved = omega arith;
  total = omega arith;
  count = omega arith;
  transfers = omega arith;
}

commit_is_refused :
    (store_chunk file_api (some commit) 5 6 transfer 0 2 5 first_chunk no_files).0 ≡ err full
unfolding store_chunk axeno_relay.Table.lookup axeno_relay.FileStore.reserve_slot
    axeno_relay.FileStore.write_chunk axeno_relay.FileStore.current_meta
    axeno_relay.FileStore.new_stored axeno_relay.Prelude.wrap_add axeno_relay.Prelude.wrap_sub
    axeno_relay.FileStore.prev_len axeno_relay.FileStore.try_reserve_bytes
    axeno_relay.Prelude.saturating_add encode_meta
commit_is_refused = refl

store_chunk-err_example :
    IsUnchanged file_api no_files
      (store_chunk file_api (some commit) 5 6 transfer 0 2 5 first_chunk no_files).1
store_chunk-err_example =
    store_chunk-err file_api (some commit) 5 6 transfer 0 2 5 first_chunk no_files full
      no_files-IsCapped commit_is_refused

no_files-HoldsWithin : HoldsWithin file_api no_files
unfolding total sum_by
no_files-HoldsWithin = record {
  accounted = record { bytes = refl; transfers = refl };
  bytes = omega arith;
  transfers = omega arith;
}

store_chunk-HoldsWithin_example :
    HoldsWithin file_api (store_chunk file_api none 5 6 transfer 0 2 5 first_chunk no_files).1
store_chunk-HoldsWithin_example =
    store_chunk-HoldsWithin file_api none 5 6 transfer 0 2 5 first_chunk no_files (omega arith)
      (omega arith) no_files-HoldsWithin

first_is_stored :
    (store_chunk file_api none 5 6 transfer 0 2 5 first_chunk no_files).0
    ≡ ok (record { received_chunks = 1; total_chunks = 2 })
unfolding store_chunk axeno_relay.Table.lookup axeno_relay.FileStore.reserve_slot
    axeno_relay.FileStore.write_chunk axeno_relay.FileStore.current_meta
    axeno_relay.FileStore.new_stored axeno_relay.Prelude.wrap_add axeno_relay.Prelude.wrap_sub
    axeno_relay.FileStore.prev_len axeno_relay.FileStore.try_reserve_bytes
    axeno_relay.Prelude.saturating_add encode_meta axeno_relay.FileStore.next_u32
first_is_stored = refl

fetch_chunk-store_chunk_example :
    fetch_chunk file_api none transfer 0
      (store_chunk file_api none 5 6 transfer 0 2 5 first_chunk no_files).1
    ≡ ok (record { chunk_data = first_chunk; total_chunks = 2; total_bytes = 5 })
fetch_chunk-store_chunk_example =
    fetch_chunk-store_chunk file_api none 5 6 transfer 0 2 5 first_chunk no_files
      (record { received_chunks = 1; total_chunks = 2 }) first_is_stored

abbrev clock : UploadClock
clock = record { pow_secs = 700; claim_now = 5; write_now = 6 }

abbrev zero_digest : Bytes → Bytes
zero_digest input = 0 ∷ 0 ∷ 0 ∷ []

-- Base64 that changes nothing.
abbrev plain : Text → Option Bytes
plain = some

abbrev capability : Text
capability = str "0123456789abcdef"

no_pow_given : pow_passes zero_digest 700 capability none ≡ false
no_pow_given = refl

capability_is_unknown : TableApi.get file_api.meta no_files.meta capability ≡ none
unfolding axeno_relay.Table.lookup
capability_is_unknown = refl

upload_file_chunk-needs_pow_example :
    (upload_file_chunk Text file_api zero_digest plain none clock
      (str "r")
      capability
      0
      2
      5
      first_chunk
      none
      no_files).1
    ≡ no_files
upload_file_chunk-needs_pow_example =
    upload_file_chunk-needs_pow Text file_api zero_digest plain none clock (str "r") capability 0 2
      5 first_chunk none no_files capability_is_unknown no_pow_given

upload_is_answered :
    (upload_file_chunk Text file_api zero_digest plain none clock
      (str "r")
      capability
      0
      2
      5
      first_chunk
      (some (str "1:x"))
      no_files).0
    ≡ file_chunk_stored (str "r") capability 0 1 2
unfolding axeno_relay.Prelude.split_once axeno_relay.Prelude.parse_u64 axeno_relay.Prelude.wrap_add
    axeno_relay.Prelude.wrap_sub axeno_relay.Prelude.saturating_add
    axeno_relay.Prelude.saturating_sub axeno_relay.Prelude.decimal axeno_relay.Prelude.text_eq
    axeno_relay.FileStore.reserve_slot axeno_relay.FileStore.write_chunk
    axeno_relay.FileStore.current_meta axeno_relay.FileStore.new_stored
    axeno_relay.FileStore.prev_len axeno_relay.FileStore.try_reserve_bytes
    axeno_relay.FileStore.chunk_key axeno_relay.FileStore.commit_chunk axeno_relay.FileStore.mirror
    axeno_relay.FileStore.next_u32 axeno_relay.FileStore.plan_chunk
    axeno_relay.FileStore.release_bytes axeno_relay.FileStore.release_shrink
    axeno_relay.FileStore.release_slot axeno_relay.FileStore.reserve_growth
    axeno_relay.FileStore.roll_back axeno_relay.FileStore.Lifetime.check_shape
    axeno_relay.FileStore.Lifetime.create_transfer axeno_relay.FileStore.Lifetime.store_chunk
    axeno_relay.Util.valid_bundle_id axeno_relay.Util.id_byte axeno_relay.Util.verify_pow
    axeno_relay.Util.pow_bits_ok axeno_relay.Util.pow_hash_ok axeno_relay.Util.pow_input
    axeno_relay.Table.lookup upload_file_chunk encode_meta decode_meta
upload_is_answered = refl

fetch_file_chunk-upload_file_chunk_example :
    fetch_file_chunk Text file_api
      (λ b. b)
      none
      (str "q")
      capability
      0
      (upload_file_chunk Text file_api zero_digest plain none clock
        (str "r")
        capability
        0
        2
        5
        first_chunk
        (some (str "1:x"))
        no_files).1
    ≡ file_chunk (str "q") capability 0 2 5 first_chunk
fetch_file_chunk-upload_file_chunk_example =
    fetch_file_chunk-upload_file_chunk Text file_api zero_digest plain (λ b. b) none clock (str "r")
      capability 0 2 5 first_chunk (some (str "1:x")) no_files first_chunk 1 2 (str "q") refl
      upload_is_answered
