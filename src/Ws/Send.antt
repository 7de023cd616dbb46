-- ===== src/Ws/Send.antt =====
-- The SendEnvelope frame of src/ws.rs: authorization, the rate limit, live delivery, and the offline
-- queue.
use axeno_relay.Prelude.{
  ℕ, Bool, true, false, not, ◌||◌, Option, none, some, ltb, if◌then◌else◌, length, Text, str,
  Result, ok, err, AnyhowError,
}
use axeno_relay.Protocol.{StoredEnvelope, envelope_frame, send_ok, send_err}
use axeno_relay.Table.{TableApi}
use axeno_relay.Util.{now_activity_ms, token_hash, valid_recipient_id, valid_token}
use axeno_relay.QueueStore.{would_exceed_global, enqueue}
use axeno_relay.State.Tokens.{MailboxAuth, accepts_delivery_hash}
use axeno_relay.State.Runtime.{mark_auth_dirty, allow_dest_send}
use axeno_relay.Ws.Session.{WsApi, Uuid, Frame, State, Inputs, Handled, answer}

abbrev pub succeeded : {A : Type 0} → Result AnyhowError A → Bool
succeeded (ok a) = true
succeeded (err e) = false

module _ (api : WsApi) where
  open api.state_api use {queue_api, auths, channels}

  abbrev pub denied : Option Text → Frame api
  denied client_ref = send_err client_ref (str "delivery_denied") (str "delivery token rejected")

  -- The frame handed to the destination's channel, if it took it; a channel that did not is taken
  -- out of the routes.
  unfoldable pub deliver_live :
      Bool → StoredEnvelope (Uuid api) → State api → Option (ℕ × Frame api) × State api
  deliver_live live_sent env s = elim (TableApi.get channels s.online env.to) [
    | none ↦ (none, s)
    | some channel ↦
        if live_sent
        then (some (channel, envelope_frame env), s)
        else (none, record s { online = TableApi.remove channels s.online env.to })
  ]

  abbrev is_live : Option (ℕ × Frame api) → Bool
  is_live none = false
  is_live (some e) = true

  -- The reply to the sender, after the live delivery and the enqueue.
  abbrev pub receipt : Option Text → StoredEnvelope (Uuid api) → Bool → Bool → Frame api
  receipt client_ref env delivered_live enqueued =
      if enqueued || delivered_live
      then send_ok env.id (not delivered_live) client_ref
      else send_err client_ref (str "relay_error")
          (str "could not persist message for offline delivery")

  abbrev over_budget : Option Text → StoredEnvelope (Uuid api) → Bool → Frame api
  over_budget client_ref env delivered_live =
      if delivered_live
      then send_ok env.id false client_ref
      else send_err client_ref (str "relay_full") (str "relay queue storage limit reached")

  abbrev with_live : Option (ℕ × Frame api) → Handled api → Handled api
  with_live live handled = record handled { live = live }

  unfoldable pub store_offline :
      Inputs api
      → Option Text
      → StoredEnvelope (Uuid api)
      → Option Text
      → Option (ℕ × Frame api) × State api
      → Handled api
  store_offline inp client_ref env session (live, s) =
      let (result, queues') = enqueue queue_api inp.fault inp.queued_ms env.to env s.queues in
      let stored = mark_auth_dirty api.state_api env.to (record s { queues = queues' }) in
      if would_exceed_global queue_api s.queues (length env.ciphertext)
      then with_live live (answer api session s (over_budget client_ref env (is_live live)))
      else with_live live
          (answer api session stored (receipt client_ref env (is_live live) (succeeded result)))

  abbrev pub post :
      Inputs api
      → Option Text
      → StoredEnvelope (Uuid api)
      → Option Text
      → Bool × State api
      → Handled api
  post inp client_ref env session (allowed, s) =
      if not allowed
      then answer api session s
          (send_err client_ref (str "rate_limited") (str "too many sends to this destination"))
      else store_offline inp client_ref env session (deliver_live inp.live_sent env s)

  abbrev pub touch : ℕ → Text → MailboxAuth → State api → State api
  touch now to auth s = record s {
    mailbox_auth =
        TableApi.insert auths s.mailbox_auth to
          (record auth { last_active_ms = now_activity_ms now });
  }

  unfoldable pub send_envelope :
      Inputs api → Option Text → Text → Text → Text → Text → Option Text → State api → Handled api
  unfolding deliver_live store_offline
  send_envelope inp client_ref to delivery_token envelope_type ciphertext session s =
      if not (valid_recipient_id to) || not (valid_token delivery_token)
      then answer api session s
          (send_err client_ref (str "bad_send") (str "invalid destination or delivery token"))
      else if ltb 32 (length envelope_type)
      then answer api session s
          (send_err client_ref (str "bad_envelope") (str "envelope type too long"))
      else elim (TableApi.get auths s.mailbox_auth to) [
        | none ↦ answer api session s (denied client_ref)
        | some auth ↦
            if not (accepts_delivery_hash auth (token_hash api.sha256 api.hex delivery_token))
            then answer api session s (denied client_ref)
            else post inp client_ref
                (record {
                  id = inp.fresh_id;
                  to = to;
                  envelope_type = envelope_type;
                  ciphertext = ciphertext;
                })
                session
                (allow_dest_send api.state_api inp.rate_ms to (touch inp.activity_ms to auth s))
      ]
