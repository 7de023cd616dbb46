-- ===== src/Protocol.antt =====
-- src/protocol.rs: the frames on the wire and the stored envelope. A UUID is a value of the `uuid`
-- crate, so its type is a parameter.
use axeno_relay.Prelude.{ℕ, Bool, Option, List, Text}

pub record StoredEnvelope (Uuid : Type 0) : Type 0 where
  pub id : Uuid
  pub to : Text
  pub envelope_type : Text
  pub ciphertext : Text

-- The frames that a client sends, each with its fields in the source's order.
pub data ClientFrame (Uuid : Type 0) : Type 0 where
  hello :
      (recipient_id auth_token delivery_token : Text)
      → (protocol_min protocol_max protocol_version : Option ℕ) (pow : Option Text)
        (cert_only : Bool)
      → ClientFrame Uuid
  set_delivery_tokens : (request_id : Text) (tokens : List Text) → ClientFrame Uuid
  issue_sender_certificate :
      (request_id sender_uuid : Text) (sender_device_id : ℕ) (sender_cert_public_b64 : Text)
      → ClientFrame Uuid
  send_envelope :
      (client_ref : Option Text) (to delivery_token envelope_type ciphertext : Text)
      → ClientFrame Uuid
  upload_bundle :
      (request_id bundle_id ciphertext : Text) (expires_at_ms : ℕ) (pow : Option Text)
      → ClientFrame Uuid
  fetch_bundle : (request_id bundle_id : Text) → ClientFrame Uuid
  upload_file_chunk :
      (request_id transfer_id : Text) (chunk_index total_chunks total_bytes : ℕ) (ciphertext : Text)
      (pow : Option Text)
      → ClientFrame Uuid
  fetch_file_chunk : (request_id transfer_id : Text) (chunk_index : ℕ) → ClientFrame Uuid
  delete_transfer : (request_id transfer_id : Text) → ClientFrame Uuid
  ack : (ids : List Uuid) → ClientFrame Uuid
  retire_mailbox : ClientFrame Uuid
  ping : ClientFrame Uuid

-- The relay's answers.
pub data ServerFrame (Uuid : Type 0) : Type 0 where
  hello_ok :
      (protocol_version min_supported current_protocol server_time_ms : ℕ) (trust_root_b64 : Text)
      (max_file_bytes : ℕ)
      → ServerFrame Uuid
  sender_certificate :
      (request_id certificate_b64 trust_root_b64 : Text) (expires_at_ms : ℕ) → ServerFrame Uuid
  bundle_uploaded : (request_id bundle_id : Text) (expires_at_ms : ℕ) → ServerFrame Uuid
  bundle : (request_id bundle_id ciphertext : Text) (expires_at_ms : ℕ) → ServerFrame Uuid
  file_chunk_stored :
      (request_id transfer_id : Text) (chunk_index received_chunks total_chunks : ℕ)
      → ServerFrame Uuid
  file_chunk :
      (request_id transfer_id : Text) (chunk_index total_chunks total_bytes : ℕ) (ciphertext : Text)
      → ServerFrame Uuid
  transfer_deleted : (request_id transfer_id : Text) → ServerFrame Uuid
  file_error : (request_id transfer_id code message : Text) → ServerFrame Uuid
  envelope_frame : (envelope : StoredEnvelope Uuid) → ServerFrame Uuid
  synced : (count : ℕ) → ServerFrame Uuid
  send_ok : (id : Uuid) (queued : Bool) (client_ref : Option Text) → ServerFrame Uuid
  send_error : (client_ref : Option Text) (code message : Text) → ServerFrame Uuid
  delivery_tokens_set : (request_id : Text) (active_count : ℕ) → ServerFrame Uuid
  ack_ok : (removed : ℕ) → ServerFrame Uuid
  pong : (server_time_ms : ℕ) → ServerFrame Uuid
  error : (code message : Text) → ServerFrame Uuid

-- `err`, `send_err` and `file_err`.
abbrev pub err_frame : {Uuid : Type 0} → Text → Text → ServerFrame Uuid
err_frame code message = error code message

abbrev pub send_err : {Uuid : Type 0} → Option Text → Text → Text → ServerFrame Uuid
send_err client_ref code message = send_error client_ref code message

abbrev pub file_err : {Uuid : Type 0} → Text → Text → Text → Text → ServerFrame Uuid
file_err request_id transfer_id code message = file_error request_id transfer_id code message
