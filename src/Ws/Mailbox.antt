-- ===== src/Ws/Mailbox.antt =====
-- The frames of src/ws.rs that a socket may send once it is admitted to a mailbox:
-- SetDeliveryTokens, IssueSenderCertificate, Ack and RetireMailbox.
use axeno_relay.Prelude.{
  ℕ, Bool, true, false, not, ◌||◌, Option, none, some, List, [], ◌∷◌, ◌++◌, map, ltb, ◌==◌,
  if◌then◌else◌, length, all, Text, text_eq, str, Result, ok, err, ◌>>=◌, ok_or, AnyhowError,
  saturating_add, wrap_sub,
}
use axeno_relay.Config.{max_delivery_tokens_per_mailbox, sender_cert_ttl_ms}
use axeno_relay.Protocol.{sender_certificate, delivery_tokens_set, ack_ok, err_frame}
use axeno_relay.Table.{TableApi}
use axeno_relay.Util.{token_hash, valid_recipient_id, valid_token}
use axeno_relay.QueueStore.Removal.{ack, purge_mailbox}
use axeno_relay.State.Tokens.{MailboxAuth, replace_delivery_hashes}
use axeno_relay.State.Runtime.{mark_auth_dirty}
use axeno_relay.Ws.Session.{WsApi, Uuid, Frame, State, Inputs, Handled, answer}

-- `map_err`.
abbrev pub map_err : {E F A : Type 0} → (E → F) → Result E A → Result F A
map_err f (ok a) = ok a
map_err f (err e) = err (f e)

-- `unwrap_or(0)`.
abbrev pub or_zero : Result AnyhowError ℕ → ℕ
or_zero (ok n) = n
or_zero (err e) = 0

module _ (api : WsApi) where
  open api.state_api use {queue_api, auths, rates, channels}

  abbrev pub not_registered : Frame api
  not_registered = err_frame (str "not_registered") (str "send hello first")

  abbrev pub is_nil : List Text → Bool
  is_nil [] = true
  is_nil (x ∷ xs) = false

  abbrev pub hashes : List Text → List Text
  hashes = map (token_hash api.sha256 api.hex)

  abbrev replace_tokens : Text → Text → List Text → State api → Option MailboxAuth → Handled api
  replace_tokens request_id rid tokens s none =
      answer api (some rid) s (err_frame (str "not_registered") (str "mailbox auth missing"))
  replace_tokens request_id rid tokens s (some auth) =
      let auth' = replace_delivery_hashes (hashes tokens) auth in
      answer api (some rid)
        (mark_auth_dirty api.state_api rid
          (record s { mailbox_auth = TableApi.insert auths s.mailbox_auth rid auth' }))
        (delivery_tokens_set request_id (length auth'.delivery_token_hashes))

  unfoldable pub set_delivery_tokens : Text → List Text → Option Text → State api → Handled api
  set_delivery_tokens request_id tokens none s = answer api none s not_registered
  set_delivery_tokens request_id tokens (some rid) s =
      if is_nil tokens
        || ltb max_delivery_tokens_per_mailbox (length tokens)
        || not (all valid_token tokens)
      then answer api (some rid) s
          (err_frame (str "bad_tokens") (str "invalid delivery-token allowlist"))
      else replace_tokens request_id rid tokens s (TableApi.get auths s.mailbox_auth rid)

  -- `issue_sender_certificate`, past its two checks.
  unfoldable pub sign_certificate :
      Inputs api → Text → Text → ℕ → Text → State api → Result Text (Frame api)
  sign_certificate inp request_id sender_uuid sender_device_id sender_cert_public_b64 s = do
    cert_key_bytes ←
        ok_or (api.decode sender_cert_public_b64) (str "bad sender certificate public key encoding")
    sender_public ←
        map_err (λ e. str "bad sender certificate public key: " ++ e)
          (api.deserialize cert_key_bytes)
    rng ← inp.rng
    let expires_at_ms = saturating_add inp.now_ms sender_cert_ttl_ms
    sender_device ← ok_or (api.device_id sender_device_id) (str "bad device id")
    cert ←
        map_err (λ e. str "sender certificate signing failed: " ++ e)
          (api.new_certificate sender_uuid sender_public sender_device expires_at_ms
            s.crypto.server_certificate s.crypto.server_signing_private rng)
    cert_bytes ←
        map_err (λ e. str "could not serialize sender certificate: " ++ e) (api.serialized cert)
    ok (
        sender_certificate request_id (api.encode cert_bytes) s.crypto.trust_root_public_b64
          expires_at_ms)

  unfoldable pub issue_sender_certificate :
      Inputs api → Text → Text → ℕ → Text → State api → Result Text (Frame api)
  unfolding sign_certificate
  issue_sender_certificate inp request_id sender_uuid sender_device_id sender_cert_public_b64 s =
      if not (valid_recipient_id sender_uuid) || (sender_device_id == 0) || ltb 127 sender_device_id
      then err (str "invalid sender certificate request")
      else if ltb 64 (length sender_cert_public_b64)
      then err (str "sender certificate public key is too large")
      else sign_certificate inp request_id sender_uuid sender_device_id sender_cert_public_b64 s

  abbrev pub certificate_reply : Result Text (Frame api) → Frame api
  certificate_reply (ok frame) = frame
  certificate_reply (err e) = err_frame (str "cert_failed") e

  unfoldable pub handle_certificate :
      Inputs api → Text → Text → ℕ → Text → Option Text → State api → Handled api
  unfolding issue_sender_certificate
  handle_certificate inp request_id sender_uuid device key none s = answer api none s not_registered
  handle_certificate inp request_id sender_uuid device key (some registered_rid) s =
      if not (text_eq sender_uuid registered_rid)
      then answer api (some registered_rid) s (
          err_frame (str "cert_denied")
            (str "sender certificate can only be issued for your authenticated mailbox"))
      else answer api (some registered_rid) s
          (certificate_reply (issue_sender_certificate inp request_id sender_uuid device key s))

  unfoldable pub acknowledge : Inputs api → List (Uuid api) → Option Text → State api → Handled api
  acknowledge inp ids none s = answer api none s not_registered
  acknowledge inp ids (some rid) s =
      let (removed, queues') = ack queue_api inp.fault rid ids s.queues in
      answer api (some rid) (record s { queues = queues' }) (ack_ok (or_zero removed))

  -- The mailbox count goes down with an entry only.
  abbrev count_after : Option MailboxAuth → ℕ → ℕ
  count_after none count = count
  count_after (some auth) count = wrap_sub count 1

  unfoldable pub retire_state : Inputs api → Text → State api → State api
  retire_state inp rid s = mark_auth_dirty api.state_api rid (record s {
    mailbox_auth = TableApi.remove auths s.mailbox_auth rid;
    mailbox_count = count_after (TableApi.get auths s.mailbox_auth rid) s.mailbox_count;
    queues = (purge_mailbox queue_api inp.fault rid s.queues).1;
    send_rate = TableApi.remove rates s.send_rate rid;
    online = TableApi.remove channels s.online rid;
  })

  -- The socket is closed after it.
  unfoldable pub retire_mailbox : Inputs api → Option Text → State api → Handled api
  unfolding retire_state
  retire_mailbox inp none s = answer api none s not_registered
  retire_mailbox inp (some rid) s =
      record (answer api (some rid) (retire_state inp rid s) (ack_ok 0)) { stops = true }
