-- ===== src/Ws/Files.antt =====
-- The file-transfer frames in src/ws.rs: UploadFileChunk, FetchFileChunk and DeleteTransfer. A
-- handler returns the frame that it answers with and the file store that it leaves. Base64 is not
-- part of the repository, so its two functions are arguments; the panic of a blocking task, to which
-- the handlers also have an answer, is not modelled.
use axeno_relay.Prelude.{
  ℕ, Bool, false, not, ◌&&◌, Option, none, some, ◌==◌, if◌then◌else◌, Bytes, Text, str, Result, ok,
  err, DbCall,
}
use axeno_relay.Protocol.{ServerFrame, file_chunk_stored, file_chunk, transfer_deleted, file_err}
use axeno_relay.Util.{valid_bundle_id, verify_pow}
use axeno_relay.FileStore.{
  FileApi, FileStore, FileReject, too_large, full, bad_request, not_found, StoredChunk,
  FetchedChunk,
}
use axeno_relay.FileStore.Lifetime.{store_chunk, fetch_chunk, delete_transfer}

-- `FileReject::code` and `FileReject::message`.
abbrev pub reject_code : FileReject → Text
reject_code too_large = str "file_too_large"
reject_code full = str "relay_full"
reject_code bad_request = str "bad_request"
reject_code not_found = str "not_found"

abbrev pub reject_message : FileReject → Text
reject_message too_large = str "file exceeds this relay's size limit"
reject_message full = str "relay file storage is full"
reject_message bad_request = str "malformed file transfer request"
reject_message not_found = str "file transfer not found or expired"

-- The clock's readings of one upload: in seconds for the proof of work, then in milliseconds for the
-- claim and for the row.
pub record UploadClock : Type 0 where
  pub pow_secs : ℕ
  pub claim_now : ℕ
  pub write_now : ℕ

-- `pow.as_deref().map(|n| verify_pow(&transfer_id, n)).unwrap_or(false)`.
abbrev pub pow_passes : (Bytes → Bytes) → ℕ → Text → Option Text → Bool
pow_passes sha256 now_secs transfer_id none = false
pow_passes sha256 now_secs transfer_id (some nonce) = verify_pow sha256 now_secs transfer_id nonce

module _ (Uuid : Type 0) (api : FileApi) where
  abbrev pub stored_reply :
      Text
      → Text
      → ℕ
      → Result FileReject StoredChunk × FileStore api
      → ServerFrame Uuid × FileStore api
  stored_reply request_id transfer_id chunk_index (ok stored, s) = (
    file_chunk_stored request_id transfer_id chunk_index stored.received_chunks stored.total_chunks,
    s,
  )
  stored_reply request_id transfer_id chunk_index (err reject, s) =
      (file_err request_id transfer_id (reject_code reject) (reject_message reject), s)

  unfoldable pub upload_file_chunk :
      (Bytes → Bytes)
      → (Text → Option Bytes)
      → Option DbCall
      → UploadClock
      → Text
      → Text
      → ℕ
      → ℕ
      → ℕ
      → Text
      → Option Text
      → FileStore api
      → ServerFrame Uuid × FileStore api
  upload_file_chunk sha256 decode fault clock request_id transfer_id chunk_index total_chunks
        total_bytes ciphertext pow s =
      if not (valid_bundle_id transfer_id)
      then (file_err request_id transfer_id (str "bad_request") (str "invalid transfer id"), s)
      else elim (decode ciphertext) [
        | none ↦
            (file_err request_id transfer_id (str "bad_request") (str "invalid chunk encoding"), s)
        | some raw ↦
            if (chunk_index == 0) && not (pow_passes sha256 clock.pow_secs transfer_id pow)
            then (
              file_err request_id transfer_id (str "pow_required")
                  (str "invalid proof of work for new file transfer"),
              s,
            )
            else stored_reply request_id transfer_id chunk_index (
                store_chunk api fault clock.claim_now clock.write_now transfer_id chunk_index
                  total_chunks total_bytes raw s)
      ]

  abbrev pub fetched_reply :
      (Bytes → Text) → Text → Text → ℕ → Result FileReject FetchedChunk → ServerFrame Uuid
  fetched_reply encode request_id transfer_id chunk_index (ok chunk) =
      file_chunk request_id transfer_id chunk_index chunk.total_chunks chunk.total_bytes
        (encode chunk.chunk_data)
  fetched_reply encode request_id transfer_id chunk_index (err reject) =
      file_err request_id transfer_id (reject_code reject) (reject_message reject)

  unfoldable pub fetch_file_chunk :
      (Bytes → Text) → Option DbCall → Text → Text → ℕ → FileStore api → ServerFrame Uuid
  fetch_file_chunk encode fault request_id transfer_id chunk_index s =
      if not (valid_bundle_id transfer_id)
      then file_err request_id transfer_id (str "bad_request") (str "invalid transfer id")
      else fetched_reply encode request_id transfer_id chunk_index
          (fetch_chunk api fault transfer_id chunk_index s)

  -- The answer does not depend on whether the deletion succeeded.
  unfoldable pub handle_delete_transfer :
      Option DbCall → Text → Text → FileStore api → ServerFrame Uuid × FileStore api
  handle_delete_transfer fault request_id transfer_id s =
      if not (valid_bundle_id transfer_id)
      then (file_err request_id transfer_id (str "bad_request") (str "invalid transfer id"), s)
      else (transfer_deleted request_id transfer_id, (delete_transfer api fault transfer_id s).1)
