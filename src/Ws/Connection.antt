-- ===== src/Ws/Connection.antt =====
-- The loop of `handle_socket` in src/ws.rs: what it does with each message, and how it ends.
use axeno_relay.Prelude.{
  ℕ, ◌+◌, ◌-◌, ◌^◌, Bool, false, not, Option, none, some, ltb, leb, ◌==◌, if◌then◌else◌, length,
  Text, str, Result, ok, err, saturating_sub, min, wrap_add, wrap_sub,
}
use axeno_relay.Config.{rate_window_ms, max_frames_per_window, max_frame_bytes, max_connections}
use axeno_relay.Protocol.{ClientFrame, pong, err_frame}
use axeno_relay.Table.{TableApi}
use axeno_relay.FileStore.{FileStore}
use axeno_relay.State.Runtime.{StateApi}
use axeno_relay.Ws.Files
use axeno_relay.Ws.Files.{handle_delete_transfer}
use axeno_relay.Ws.Hello.{hello}
use axeno_relay.Ws.Send.{send_envelope}
use axeno_relay.Ws.Hosting.{upload_bundle, fetch_bundle}
use axeno_relay.Ws.Mailbox.{set_delivery_tokens, handle_certificate, acknowledge, retire_mailbox}
use axeno_relay.Ws.Session.{WsApi, Uuid, Frame, State, Inputs, Handled, answer}

-- The window of a socket's frames: whether one more is within the limit, and the window after it. The
-- count is a `u32`.
unfoldable pub count_frame : ℕ → ℕ × ℕ → Bool × (ℕ × ℕ)
count_frame now (window_start, frame_count) =
    let fresh = ltb rate_window_ms (saturating_sub now window_start) in
    let start = (if fresh then now else window_start) in
    let count = min ((if fresh then 0 else frame_count) + 1) (2 ^ 32 - 1) in
    (leb count max_frames_per_window, (start, count))

module _ (api : WsApi) where
  open api.state_api use {file_api}

  abbrev pub with_files : Option Text → State api → Frame api × FileStore file_api → Handled api
  with_files session s (frame, files') = answer api session (record s { files = files' }) frame

  -- One arm for each frame.
  unfoldable pub handle_frame :
      Inputs api → ℕ → ClientFrame (Uuid api) → Option Text → State api → Handled api
  handle_frame inp me
        (ClientFrame.hello rid auth_token delivery_token protocol_min protocol_max version pow
          cert_only)
        session s =
      hello api inp me rid auth_token delivery_token protocol_min protocol_max version pow cert_only
        session s
  handle_frame inp me (ClientFrame.set_delivery_tokens request_id tokens) session s =
      set_delivery_tokens api request_id tokens session s
  handle_frame inp me
        (ClientFrame.issue_sender_certificate request_id sender_uuid sender_device_id public_b64)
        session s =
      handle_certificate api inp request_id sender_uuid sender_device_id public_b64 session s
  handle_frame inp me
        (ClientFrame.send_envelope client_ref to delivery_token envelope_type ciphertext) session
        s =
      send_envelope api inp client_ref to delivery_token envelope_type ciphertext session s
  handle_frame inp me (ClientFrame.upload_bundle request_id bundle_id ciphertext expires_at_ms pow)
        session s =
      upload_bundle api inp request_id bundle_id ciphertext expires_at_ms pow session s
  handle_frame inp me (ClientFrame.fetch_bundle request_id bundle_id) session s =
      fetch_bundle api inp request_id bundle_id session s
  handle_frame inp me
        (ClientFrame.upload_file_chunk request_id transfer_id chunk_index total_chunks total_bytes
          ciphertext pow)
        session s =
      with_files session s (
        Files.upload_file_chunk (Uuid api) file_api api.sha256 api.decode inp.fault inp.upload_clock
          request_id transfer_id chunk_index total_chunks total_bytes ciphertext pow s.files)
  handle_frame inp me (ClientFrame.fetch_file_chunk request_id transfer_id chunk_index) session s =
      answer api session s (
        Files.fetch_file_chunk (Uuid api) file_api api.encode inp.fault request_id transfer_id
          chunk_index s.files)
  handle_frame inp me (ClientFrame.delete_transfer request_id transfer_id) session s =
      with_files session s
        (handle_delete_transfer (Uuid api) file_api inp.fault request_id transfer_id s.files)
  handle_frame inp me (ClientFrame.ack ids) session s = acknowledge api inp ids session s
  handle_frame inp me ClientFrame.retire_mailbox session s = retire_mailbox api inp session s
  handle_frame inp me ClientFrame.ping session s = answer api session s (pong inp.now_ms)

  -- What the loop keeps from one message to the next.
  pub record Session : Type 0 where
    pub recipient_id : Option Text
    pub window_start_ms : ℕ
    pub frame_count : ℕ

  abbrev dispatch :
      Inputs api → ℕ → Result Text (ClientFrame (Uuid api)) → Option Text → State api → Handled api
  dispatch inp me (ok frame) rid s = handle_frame inp me frame rid s
  dispatch inp me (err e) rid s = answer api rid s (err_frame (str "bad_json") e)

  unfoldable pub handle_text : Inputs api → ℕ → Text → Session → State api → Session × Handled api
  unfolding handle_frame count_frame
  handle_text inp me text session s =
      let (allowed, (start, count)) =
        count_frame inp.received_ms (session.window_start_ms, session.frame_count) in
      let rid = session.recipient_id in
      let handled =
        (if not allowed
          then answer api rid s
              (err_frame (str "rate_limited") (str "too many frames on this socket"))
          else if ltb max_frame_bytes (length text)
          then answer api rid s (err_frame (str "too_large") (str "frame too large"))
          else dispatch inp me (api.from_str text) rid s) in
      (
        record {
          recipient_id = handled.recipient_id;
          window_start_ms = start;
          frame_count = count;
        },
        handled,
      )

  -- A new connection, if there is room for one: the counter goes up, and down again without.
  unfoldable pub open_socket : ℕ → State api → Option Session × State api
  open_socket now s =
      let counted = wrap_add s.conn_count 1 in
      if leb max_connections s.conn_count
      then (none, record s { conn_count = wrap_sub counted 1 })
      else (
        some (record { recipient_id = none; window_start_ms = now; frame_count = 0 }),
        record s { conn_count = counted },
      )

  abbrev pub is_channel : ℕ → Option ℕ → Bool
  is_channel me none = false
  is_channel me (some live) = live == me

  -- After the loop: the route is taken down if it is this socket's, and the slot is given back.
  unfoldable pub close_socket : ℕ → Session → State api → State api
  close_socket me session s =
      let freed = record s { conn_count = wrap_sub s.conn_count 1 } in
      elim session.recipient_id [
        | none ↦ freed
        | some rid ↦
            if is_channel me (TableApi.get (StateApi.channels api.state_api) s.online rid)
            then record freed {
              online = TableApi.remove (StateApi.channels api.state_api) s.online rid;
            }
            else freed
      ]
