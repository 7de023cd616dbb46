-- ===== src/Ws/Transfers.antt =====
-- What the file-transfer frames of src/ws.rs guarantee to the sockets.
use axeno_relay.Prelude.{
  ℕ, ◌≡◌, refl, ◌∙◌, true, false, not, ◌&&◌, Option, none, some, ◌==◌, Bool-cases, Option-cases,
  inl, inr, Bytes, Text, Result, ok, err, DbCall,
}
use axeno_relay.Protocol.{file_chunk_stored, file_chunk}
use axeno_relay.Table.{TableApi}
use axeno_relay.Util.{valid_bundle_id}
use axeno_relay.FileStore.{FileApi, FileStore, FileReject, StoredChunk}
use axeno_relay.FileStore.Lifetime.{store_chunk, check_shape}
use axeno_relay.FileStore.RoundTrip.{fetch_chunk-store_chunk}
use axeno_relay.Ws.Files.{
  UploadClock, stored_reply, pow_passes, upload_file_chunk, fetch_file_chunk,
}

module _ (Uuid : Type 0) (api : FileApi) where
  unknown_later :
      (fault : Option DbCall) (claim_now write_now : ℕ) (transfer_id : Text)
      (chunk_index total_chunks total_bytes : ℕ) (chunk : Bytes) (s : FileStore api)
      → TableApi.get api.meta s.meta transfer_id ≡ none
      → (chunk_index == 0) ≡ false
      → (store_chunk api fault claim_now write_now transfer_id chunk_index total_chunks total_bytes
          chunk s).1
        ≡ s
  unfolding store_chunk
  unknown_later fault claim_now write_now transfer_id chunk_index total_chunks total_bytes chunk s
        unknown later =
      elim (Option-cases (check_shape api chunk_index total_chunks total_bytes chunk s.config)) [
        | inr (r, bad) ↦ rw (bad, store_chunk) refl
        | inl good ↦ rw (good, unknown, later, store_chunk) refl
      ]

  stored_reply-state :
      (request_id transfer_id : Text) (chunk_index : ℕ)
      (w : Result FileReject StoredChunk × FileStore api)
      → (stored_reply Uuid api request_id transfer_id chunk_index w).1 ≡ w.1
  stored_reply-state request_id transfer_id chunk_index (ok stored, s) = refl
  stored_reply-state request_id transfer_id chunk_index (err e, s) = refl

  -- Without a valid proof of work, no frame brings a transfer into being: an upload for an unknown
  -- id leaves the store as it was.
  pub upload_file_chunk-needs_pow :
      (sha256 : Bytes → Bytes) (decode : Text → Option Bytes) (fault : Option DbCall)
      (clock : UploadClock) (request_id transfer_id : Text)
      (chunk_index total_chunks total_bytes : ℕ) (ciphertext : Text) (pow : Option Text)
      (s : FileStore api)
      → TableApi.get api.meta s.meta transfer_id ≡ none
      → pow_passes sha256 clock.pow_secs transfer_id pow ≡ false
      → (upload_file_chunk Uuid api sha256 decode fault clock request_id transfer_id chunk_index
          total_chunks total_bytes ciphertext pow s).1
        ≡ s
  unfolding upload_file_chunk
  upload_file_chunk-needs_pow sha256 decode fault clock request_id transfer_id chunk_index
        total_chunks total_bytes ciphertext pow s unknown no_pow =
      elim (Bool-cases (valid_bundle_id transfer_id)) [
        | inr bad ↦ rw (bad, upload_file_chunk) refl
        | inl good ↦
            rw (good, upload_file_chunk)
              (elim (Option-cases (decode ciphertext)) [
                | inl garbled ↦ rw garbled refl
                | inr (raw, decoded) ↦
                    rw (decoded, no_pow)
                      (elim (Bool-cases (chunk_index == 0)) [
                        | inl first ↦ rw first refl
                        | inr later ↦ rw later (
                            stored_reply-state request_id transfer_id chunk_index _
                            ∙ unknown_later fault clock.claim_now clock.write_now transfer_id
                                chunk_index total_chunks total_bytes raw s unknown later)
                      ])
              ])
      ]

  stored_reply-ok :
      (request_id transfer_id : Text) (chunk_index received total : ℕ)
      (w : Result FileReject StoredChunk × FileStore api)
      → (stored_reply Uuid api request_id transfer_id chunk_index w).0
        ≡ file_chunk_stored request_id transfer_id chunk_index received total
      → (r : StoredChunk) × (w.0 ≡ ok r)
  stored_reply-ok request_id transfer_id chunk_index received total (ok stored, s) h =
      (stored, refl)
  stored_reply-ok request_id transfer_id chunk_index received total (err e, s) h = absurd cc

  -- An upload that is answered with FileChunkStored has stored what its ciphertext decodes to, under
  -- a valid transfer id.
  uploaded :
      (sha256 : Bytes → Bytes) (decode : Text → Option Bytes) (fault : Option DbCall)
      (clock : UploadClock) (request_id transfer_id : Text)
      (chunk_index total_chunks total_bytes : ℕ) (ciphertext : Text) (pow : Option Text)
      (s : FileStore api) (raw : Bytes) (received total : ℕ)
      → decode ciphertext ≡ some raw
      → (upload_file_chunk Uuid api sha256 decode fault clock request_id transfer_id chunk_index
          total_chunks total_bytes ciphertext pow s).0
        ≡ file_chunk_stored request_id transfer_id chunk_index received total
      → (valid_bundle_id transfer_id ≡ true)
        × ((upload_file_chunk Uuid api sha256 decode fault clock request_id transfer_id chunk_index
              total_chunks total_bytes ciphertext pow s).1
            ≡ (store_chunk api fault clock.claim_now clock.write_now transfer_id chunk_index
                total_chunks total_bytes raw s).1)
        × ((r : StoredChunk) × ((store_chunk api fault clock.claim_now clock.write_now transfer_id
                chunk_index total_chunks total_bytes raw s).0
              ≡ ok r))
  unfolding upload_file_chunk
  uploaded sha256 decode fault clock request_id transfer_id chunk_index total_chunks total_bytes
        ciphertext pow s raw received total decoded =
      elim (Bool-cases (valid_bundle_id transfer_id)) [
        | inr bad ↦ rw (bad, upload_file_chunk) (λ h. absurd cc)
        | inl good ↦
            rw (good, decoded, upload_file_chunk)
              (elim (Bool-cases
                ((chunk_index == 0) && not (pow_passes sha256 clock.pow_secs transfer_id pow))) [
                  | inl refused ↦ rw refused (λ h. absurd cc)
                  | inr passed ↦ rw passed (λ h. (
                    refl,
                    stored_reply-state request_id transfer_id chunk_index _,
                    stored_reply-ok request_id transfer_id chunk_index received total _ h,
                  ))
                ])
      ]

  -- Once an upload was answered with FileChunkStored, a fetch of the chunk in which no database call
  -- fails is answered with what the uploaded ciphertext decodes to, encoded again, and the declared
  -- shape of the transfer.
  pub fetch_file_chunk-upload_file_chunk :
      (sha256 : Bytes → Bytes) (decode : Text → Option Bytes) (encode : Bytes → Text)
      (fault : Option DbCall) (clock : UploadClock) (request_id transfer_id : Text)
      (chunk_index total_chunks total_bytes : ℕ) (ciphertext : Text) (pow : Option Text)
      (s : FileStore api) (raw : Bytes) (received total : ℕ) (asked : Text)
      → decode ciphertext ≡ some raw
      → (upload_file_chunk Uuid api sha256 decode fault clock request_id transfer_id chunk_index
          total_chunks total_bytes ciphertext pow s).0
        ≡ file_chunk_stored request_id transfer_id chunk_index received total
      → fetch_file_chunk Uuid api encode none asked transfer_id chunk_index
          (upload_file_chunk Uuid api sha256 decode fault clock request_id transfer_id chunk_index
            total_chunks total_bytes ciphertext pow s).1
        ≡ file_chunk asked transfer_id chunk_index total_chunks total_bytes (encode raw)
  unfolding fetch_file_chunk
  fetch_file_chunk-upload_file_chunk sha256 decode encode fault clock request_id transfer_id
        chunk_index total_chunks total_bytes ciphertext pow s raw received total asked decoded
        done =
      let (good, same, (r, stored)) =
        uploaded sha256 decode fault clock request_id transfer_id chunk_index total_chunks
          total_bytes ciphertext pow s raw received total decoded done in
      let fetched =
        fetch_chunk-store_chunk api fault clock.claim_now clock.write_now transfer_id chunk_index
          total_chunks total_bytes raw s r stored in
      rw (good, same, fetched) refl
