-- ===== src/Ws/Hello.antt =====
-- The Hello frame of src/ws.rs: version negotiation, admission to a mailbox, and the delivery of its
-- backlog.
use axeno_relay.Prelude.{
  ℕ, Bool, false, not, ◌||◌, Option, none, some, List, [], ◌∷◌, ◌++◌, map, ltb, leb, if◌then◌else◌,
  length, Text, str, Result, ok, err, AnyhowError, min,
}
use axeno_relay.Config.{protocol_version, protocol_min_supported}
use axeno_relay.Protocol.{StoredEnvelope, hello_ok, envelope_frame, synced, err_frame}
use axeno_relay.Table.{TableApi}
use axeno_relay.Util.{ct_eq, now_activity_ms, token_hash, valid_recipient_id, valid_token}
use axeno_relay.QueueStore.Removal.{flush}
use axeno_relay.State.Tokens.{MailboxAuth, new_auth, ensure_delivery_hash}
use axeno_relay.State.Runtime.{mark_auth_dirty, reserve_mailbox_slot}
use axeno_relay.Ws.Files.{pow_passes}
use axeno_relay.Ws.Session.{WsApi, Uuid, Frame, State, Inputs, Handled, answer, sends, unwrap_or}

-- The version that both sides speak, if there is one, of the client's bounds and of the version that
-- older clients name instead.
unfoldable pub select_version : Option ℕ → Option ℕ → Option ℕ → Option ℕ
select_version protocol_min protocol_max version =
    let client_min = unwrap_or protocol_min (unwrap_or version protocol_version) in
    let client_max = unwrap_or protocol_max (unwrap_or version protocol_version) in
    let selected = min protocol_version client_max in
    if ltb selected protocol_min_supported || ltb selected client_min then none else some selected

module _ (api : WsApi) where
  abbrev hash : Text → Text
  hash = token_hash api.sha256 api.hex

  abbrev pub rejected : Frame api
  rejected = err_frame (str "hello_rejected") (str "mailbox authentication or proof of work failed")

  abbrev set_auth : Text → MailboxAuth → State api → State api
  set_auth rid auth s = record s {
    mailbox_auth = TableApi.insert api.state_api.auths s.mailbox_auth rid auth;
  }

  abbrev fresh_slot :
      Inputs api → Text → Text → Text → Bool × State api → Result (Frame api) (State api)
  fresh_slot inp rid auth_hash delivery_hash (reserved, s) =
      if reserved
      then ok (set_auth rid (new_auth inp.activity_ms auth_hash delivery_hash) s)
      else err (err_frame (str "relay_full") (str "relay mailbox limit reached"))

  -- The entry of the mailbox: its owner is let in, and a free id is registered for a proof of work.
  unfoldable pub admit :
      Inputs api → Text → Text → Text → Option Text → State api → Result (Frame api) (State api)
  admit inp rid auth_hash delivery_hash pow s =
      elim (TableApi.get api.state_api.auths s.mailbox_auth rid) [
        | some existing ↦
            if not (ct_eq existing.receive_auth_hash auth_hash)
            then err rejected
            else ok (
                set_auth rid
                  (ensure_delivery_hash delivery_hash
                    (record existing { last_active_ms = now_activity_ms inp.activity_ms })).1
                  s)
        | none ↦
            if not (pow_passes api.sha256 inp.pow_secs rid pow)
            then err rejected
            else fresh_slot inp rid auth_hash delivery_hash (reserve_mailbox_slot api.state_api s)
      ]

  abbrev pub backlog : Result AnyhowError (List (StoredEnvelope (Uuid api))) → List (Frame api)
  backlog (ok envs) = map envelope_frame envs
  backlog (err e) = []

  -- The awaited sends after the greeting: the backlog, and the marker that ends it.
  unfoldable pub catch_up : Option ℕ → ℕ → List (Frame api) → List (Frame api)
  catch_up room selected envs =
      if leb 6 selected
      then sends api room (envs ++ synced (length (sends api room envs)) ∷ [])
      else sends api room envs

  -- What follows an admission, on the socket with number `me`.
  unfoldable pub connect : Inputs api → ℕ → Text → ℕ → Bool → State api → Handled api
  unfolding catch_up
  connect inp me rid selected cert_only s =
      let greeting =
        hello_ok selected protocol_min_supported protocol_version inp.now_ms
          s.crypto.trust_root_public_b64 s.file_config.max_file_bytes in
      let routed = record s { online = TableApi.insert api.state_api.channels s.online rid me } in
      let envs = backlog (flush api.state_api.queue_api inp.fault rid s.queues) in
      if cert_only then answer api (some rid) s greeting else record {
        replies = greeting ∷ catch_up inp.room selected envs;
        live = none;
        recipient_id = some rid;
        state = routed;
        stops = false;
      }

  unfoldable pub hello :
      Inputs api
      → ℕ
      → Text
      → Text
      → Text
      → Option ℕ
      → Option ℕ
      → Option ℕ
      → Option Text
      → Bool
      → Option Text
      → State api
      → Handled api
  unfolding admit connect
  hello inp me rid auth_token delivery_token protocol_min protocol_max version pow cert_only session
        s =
      elim (select_version protocol_min protocol_max version) [
        | none ↦
            answer api session s
              (err_frame (str "protocol_mismatch") (str "no common relay protocol version"))
        | some selected ↦
            if not (valid_recipient_id rid)
              || not (valid_token auth_token)
              || not (valid_token delivery_token)
            then answer api session s (err_frame (str "bad_hello") (str "invalid mailbox or token"))
            else elim (admit inp rid (hash auth_token) (hash delivery_token) pow s) [
              | err frame ↦ answer api session s frame
              | ok admitted ↦
                  connect inp me rid selected cert_only (mark_auth_dirty api.state_api rid admitted)
            ]
      ]
