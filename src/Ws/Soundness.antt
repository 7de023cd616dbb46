-- ===== src/Ws/Soundness.antt =====
-- Every frame that src/ws.rs handles keeps the counters of the shared state in step with its tables.
use axeno_relay.Prelude.{
  ℕ, ◌≡◌, inl, inr, refl, sym, ap, ◌∙◌, Bool, true, false, not, ◌||◌, Option, none, some, List,
  Bool-cases, Result-cases, Option-cases, Text, ltb, length, all, text_eq,
}
use axeno_relay.Config.{max_frame_bytes, max_delivery_tokens_per_mailbox}
use axeno_relay.Protocol.{ClientFrame, StoredEnvelope}
use axeno_relay.Table.{TableApi, total}
use axeno_relay.Util.{token_hash, valid_recipient_id, valid_token}
use axeno_relay.State.Tokens.{MailboxAuth, replace_delivery_hashes, accepts_delivery_hash}
use axeno_relay.State.Runtime.{
  StateApi, mark_auth_dirty, mark_bundle_dirty, allow_dest_send, prune_expired_bundles,
}
use axeno_relay.State.Runtime.Pruning.{prune_expired_bundles-IsHosted, prune_expired_bundles-frame}
use axeno_relay.QueueStore.{would_exceed_global}
use axeno_relay.Ws.Session.{WsApi, Uuid, Frame, State, Inputs}
use axeno_relay.Ws.Hello.{connect, hello}
use axeno_relay.Ws.Send.{post, touch, send_envelope, deliver_live, store_offline}
use axeno_relay.Ws.Hosting.{host, upload_bundle, fetch_bundle}
use axeno_relay.Ws.Mailbox.{
  is_nil, hashes, set_delivery_tokens, handle_certificate, acknowledge, retire_mailbox,
  retire_state,
}
use axeno_relay.Ws.Connection.{Session, count_frame, handle_frame, handle_text}
use axeno_relay.Ws.Admission.{Admitted, admit-Admitted, hello-cases}
use axeno_relay.Ws.Invites.{upload_bundle-IsHosted, upload_bundle-cases, accept_bundle-cases}
use axeno_relay.Ws.Registry.{
  IsSound, Agrees, Agrees-IsSound, replaced-IsSound, added-IsSound, retired-IsSound,
}

module _ (api : WsApi) where
  open api.state_api use {auths}

  -- A change of the state that a handler may make.
  pub record IsFair (s t : State api) : Type 0 where
    pub sound : IsSound api s → IsSound api t
    pub conns : t.conn_count ≡ s.conn_count

  pub same-IsFair : (s t : State api) → t ≡ s → IsFair s t
  same-IsFair s t e = record { sound = λ v. rw e v; conns = ap (λ x. x.conn_count) e }

  pub Agrees-IsFair : (s t : State api) → Agrees api s t → t.conn_count ≡ s.conn_count → IsFair s t
  Agrees-IsFair s t a e = record { sound = Agrees-IsSound api s t a; conns = e }

  pub IsFair-trans : (s t u : State api) → IsFair s t → IsFair t u → IsFair s u
  IsFair-trans s t u f g = record { sound = λ v. g.sound (f.sound v); conns = g.conns ∙ f.conns }

  -- Any new credentials in the place of the mailbox's own, and marks.
  replaced-IsFair :
      (rid : Text) (old auth : MailboxAuth) (s : State api)
      → TableApi.get auths s.mailbox_auth rid ≡ some old
      → IsFair s (record s { mailbox_auth = TableApi.insert auths s.mailbox_auth rid auth })
  replaced-IsFair rid old auth s e = record {
    sound = replaced-IsSound api rid auth s (rw e refl);
    conns = refl;
  }

  marked-IsFair : (rid : Text) (s : State api) → IsFair s (mark_auth_dirty api.state_api rid s)
  unfolding mark_auth_dirty
  marked-IsFair rid s =
      Agrees-IsFair s _
        (record { auths_eq = refl; count_eq = refl; bundles_eq = refl; bytes_eq = refl }) refl

  admitted-IsFair :
      (inp : Inputs api) (rid auth_hash delivery_hash : Text) (pow : Option Text) (s s' : State api)
      → Admitted api inp rid auth_hash delivery_hash pow s s'
      → IsFair s s'
  admitted-IsFair inp rid auth_hash delivery_hash pow s s' a = record {
    sound = λ v. rw a.after (elim a.entered [
      | inl (there, same) ↦ rw same (replaced-IsSound api rid a.auth s there v)
      | inr (fresh, up, room, _) ↦ rw up (added-IsSound api rid a.auth s fresh room v)
    ]);
    conns = ap (λ x. x.conn_count) a.after;
  }

  connect-IsFair :
      (inp : Inputs api) (me : ℕ) (rid : Text) (v : ℕ) (cert_only : Bool) (s : State api)
      → IsFair s (connect api inp me rid v cert_only (mark_auth_dirty api.state_api rid s)).state
  unfolding connect mark_auth_dirty
  connect-IsFair inp me rid v true s =
      Agrees-IsFair s _
        (record { auths_eq = refl; count_eq = refl; bundles_eq = refl; bytes_eq = refl }) refl
  connect-IsFair inp me rid v false s =
      Agrees-IsFair s _
        (record { auths_eq = refl; count_eq = refl; bundles_eq = refl; bytes_eq = refl }) refl

  hello-IsFair :
      (inp : Inputs api) (me : ℕ) (rid auth_token delivery_token : Text)
      (protocol_min protocol_max version : Option ℕ) (pow : Option Text) (cert_only : Bool)
      (session : Option Text) (s : State api)
      → IsFair s
          (hello api inp me rid auth_token delivery_token protocol_min protocol_max version pow
            cert_only session s).state
  hello-IsFair inp me rid auth_token delivery_token protocol_min protocol_max version pow cert_only
        session s =
      elim (hello-cases api inp me rid auth_token delivery_token protocol_min protocol_max version
        pow cert_only session s) [
          | inl (same, _) ↦ same-IsFair s _ same
          | inr (v, s', admitted, _, done) ↦ rw done (
              IsFair-trans s s' _
                (admitted-IsFair inp rid _ _ pow s s'
                  (admit-Admitted api inp rid _ _ pow s s' admitted))
                (connect-IsFair inp me rid v cert_only s'))
        ]

  set_delivery_tokens-IsFair :
      (request_id : Text) (tokens : List Text) (session : Option Text) (s : State api)
      → IsFair s (set_delivery_tokens api request_id tokens session s).state
  unfolding set_delivery_tokens
  set_delivery_tokens-IsFair request_id tokens none s = same-IsFair s _ refl
  set_delivery_tokens-IsFair request_id tokens (some rid) s =
      elim (Bool-cases (
        is_nil api tokens
        || ltb max_delivery_tokens_per_mailbox (length tokens)
        || not (all valid_token tokens))) [
          | inl bad ↦ rw (bad, set_delivery_tokens) (same-IsFair s _ refl)
          | inr good ↦ elim (Option-cases (TableApi.get auths s.mailbox_auth rid)) [
            | inl e ↦ rw (good, e, set_delivery_tokens) (same-IsFair s _ refl)
            | inr (auth, e) ↦
                let auth' = replace_delivery_hashes (hashes api tokens) auth in
                rw (good, e, set_delivery_tokens)
                  (IsFair-trans s _ _ (replaced-IsFair rid auth auth' s e) (marked-IsFair rid _))
          ]
        ]

  certificate-IsFair :
      (inp : Inputs api) (request_id sender_uuid : Text) (device : ℕ) (key : Text)
      (session : Option Text) (s : State api)
      → IsFair s (handle_certificate api inp request_id sender_uuid device key session s).state
  unfolding handle_certificate
  certificate-IsFair inp request_id sender_uuid device key none s = same-IsFair s _ refl
  certificate-IsFair inp request_id sender_uuid device key (some rid) s =
      elim (Bool-cases (text_eq sender_uuid rid)) [
        | inl own ↦ rw (own, handle_certificate) (same-IsFair s _ refl)
        | inr other ↦ rw (other, handle_certificate) (same-IsFair s _ refl)
      ]

  acknowledge-IsFair :
      (inp : Inputs api) (ids : List (Uuid api)) (session : Option Text) (s : State api)
      → IsFair s (acknowledge api inp ids session s).state
  unfolding acknowledge
  acknowledge-IsFair inp ids none s = same-IsFair s _ refl
  acknowledge-IsFair inp ids (some rid) s =
      Agrees-IsFair s _
        (record { auths_eq = refl; count_eq = refl; bundles_eq = refl; bytes_eq = refl }) refl

  retire_mailbox-IsFair :
      (inp : Inputs api) (session : Option Text) (s : State api)
      → IsFair s (retire_mailbox api inp session s).state
  unfolding retire_mailbox retire_state mark_auth_dirty
  retire_mailbox-IsFair inp none s = same-IsFair s _ refl
  retire_mailbox-IsFair inp (some rid) s = record {
    sound = retired-IsSound api inp rid s;
    conns = refl;
  }

  upload_bundle-IsFair :
      (inp : Inputs api) (request_id bundle_id ciphertext : Text) (expires_at_ms : ℕ)
      (pow session : Option Text) (s : State api)
      → IsFair s
          (upload_bundle api inp request_id bundle_id ciphertext expires_at_ms pow session s).state
  unfolding host mark_bundle_dirty
  upload_bundle-IsFair inp request_id bundle_id ciphertext expires_at_ms pow session s =
      let result =
        upload_bundle api inp request_id bundle_id ciphertext expires_at_ms pow session s in
      let pruned = prune_expired_bundles api.state_api inp.prune_ms s in
      let frame = prune_expired_bundles-frame api.state_api inp.prune_ms s in
      let frames : (result.state.mailbox_auth ≡ s.mailbox_auth)
          × (result.state.mailbox_count ≡ s.mailbox_count)
          × (result.state.conn_count ≡ s.conn_count) =
        elim (upload_bundle-cases api inp request_id bundle_id ciphertext expires_at_ms session pow
          s) [
            | inl same ↦ rw same (refl, refl, refl)
            | inr done ↦
                rw done
                  (elim (accept_bundle-cases api inp request_id bundle_id ciphertext expires_at_ms
                    session pruned) [ inl same ↦ rw same frame | inr h ↦ rw h.done frame ])
          ] in
      record {
        sound = λ v. record {
          counted = frames.1 ∙ v.counted ∙ ap (total auths (λ e. 1)) (sym frames.0);
          capped = rw frames.1 v.capped;
          hosted =
              upload_bundle-IsHosted api inp request_id bundle_id ciphertext expires_at_ms session
                pow s v.hosted;
        };
        conns = frames.2;
      }

  fetch_bundle-IsFair :
      (inp : Inputs api) (request_id bundle_id : Text) (session : Option Text) (s : State api)
      → IsFair s (fetch_bundle api inp request_id bundle_id session s).state
  unfolding fetch_bundle
  fetch_bundle-IsFair inp request_id bundle_id session s =
      let (auths_eq, count_eq, conns_eq) =
        prune_expired_bundles-frame api.state_api inp.prune_ms s in
      record {
        sound = λ v. record {
          counted = count_eq ∙ v.counted ∙ ap (total auths (λ e. 1)) (sym auths_eq);
          capped = rw count_eq v.capped;
          hosted = prune_expired_bundles-IsHosted api.state_api inp.prune_ms s v.hosted;
        };
        conns = conns_eq;
      }

  deliver_live-IsFair :
      (live_sent : Bool) (env : StoredEnvelope (Uuid api)) (s : State api)
      → IsFair s (deliver_live api live_sent env s).1
  unfolding deliver_live
  deliver_live-IsFair live_sent env s =
      elim (Option-cases (TableApi.get (StateApi.channels api.state_api) s.online env.to)) [
        | inl e ↦ rw (e, deliver_live) (same-IsFair s _ refl)
        | inr (ch, e) ↦ elim (Bool-cases live_sent) [
          | inl took ↦ rw (e, took, deliver_live) (same-IsFair s _ refl)
          | inr lost ↦
              rw (e, lost, deliver_live)
                (Agrees-IsFair s _
                  (record { auths_eq = refl; count_eq = refl; bundles_eq = refl; bytes_eq = refl })
                  refl)
        ]
      ]

  store_offline-IsFair :
      (inp : Inputs api) (client_ref : Option Text) (env : StoredEnvelope (Uuid api))
      (session : Option Text) (live : Option (ℕ × Frame api)) (s : State api)
      → IsFair s (store_offline api inp client_ref env session (live, s)).state
  unfolding store_offline mark_auth_dirty
  store_offline-IsFair inp client_ref env session live s =
      elim (Bool-cases
        (would_exceed_global api.state_api.queue_api s.queues (length env.ciphertext))) [
          | inl over ↦ rw (over, store_offline) (same-IsFair s _ refl)
          | inr fits ↦
              rw (fits, store_offline)
                (Agrees-IsFair s _
                  (record { auths_eq = refl; count_eq = refl; bundles_eq = refl; bytes_eq = refl })
                  refl)
        ]

  allow_dest_send-IsFair :
      (now : ℕ) (to : Text) (s : State api) → IsFair s (allow_dest_send api.state_api now to s).1
  unfolding allow_dest_send
  allow_dest_send-IsFair now to s =
      Agrees-IsFair s _
        (record { auths_eq = refl; count_eq = refl; bundles_eq = refl; bytes_eq = refl }) refl

  posted-IsFair :
      (inp : Inputs api) (client_ref : Option Text) (env : StoredEnvelope (Uuid api))
      (session : Option Text) (auth : MailboxAuth) (s : State api)
      → TableApi.get auths s.mailbox_auth env.to ≡ some auth
      → IsFair s
          (post api inp client_ref env session (
            allow_dest_send api.state_api inp.rate_ms env.to
              (touch api inp.activity_ms env.to auth s))).state
  posted-IsFair inp client_ref env session auth s found =
      let touched = touch api inp.activity_ms env.to auth s in
      let window = allow_dest_send api.state_api inp.rate_ms env.to touched in
      let counted =
        IsFair-trans s touched window.1 (replaced-IsFair env.to auth _ s found)
          (allow_dest_send-IsFair inp.rate_ms env.to touched) in
      elim (Bool-cases window.0) [
        | inr spent ↦ rw spent counted
        | inl allowed ↦
            let routed = deliver_live api inp.live_sent env window.1 in
            rw allowed (
              IsFair-trans s window.1 _ counted (
                IsFair-trans window.1 routed.1 _ (deliver_live-IsFair inp.live_sent env window.1)
                  (store_offline-IsFair inp client_ref env session routed.0 routed.1)))
      ]

  send_envelope-IsFair :
      (inp : Inputs api) (client_ref : Option Text)
      (to delivery_token envelope_type ciphertext : Text) (session : Option Text) (s : State api)
      → IsFair s
          (send_envelope api inp client_ref to delivery_token envelope_type ciphertext session
            s).state
  unfolding send_envelope
  send_envelope-IsFair inp client_ref to delivery_token envelope_type ciphertext session s =
      elim (Bool-cases (not (valid_recipient_id to) || not (valid_token delivery_token))) [
        | inl bad ↦ rw (bad, send_envelope) (same-IsFair s _ refl)
        | inr good ↦ elim (Bool-cases (ltb 32 (length envelope_type))) [
          | inl long ↦ rw (good, long, send_envelope) (same-IsFair s _ refl)
          | inr short ↦ elim (Option-cases (TableApi.get auths s.mailbox_auth to)) [
            | inl missing ↦ rw (good, short, missing, send_envelope) (same-IsFair s _ refl)
            | inr (auth, found) ↦
                elim (Bool-cases
                  (accepts_delivery_hash auth (token_hash api.sha256 api.hex delivery_token))) [
                    | inr wrong ↦
                        rw (good, short, found, wrong, send_envelope) (same-IsFair s _ refl)
                    | inl right ↦
                        rw (good, short, found, right, send_envelope)
                          (posted-IsFair inp client_ref _ session auth s found)
                  ]
          ]
        ]
      ]

  abbrev files_agree : (s t : State api) → t ≡ record s { files = t.files } → IsFair s t
  files_agree s t e =
      Agrees-IsFair s t
        (record {
          auths_eq = ap (λ x. x.mailbox_auth) e;
          count_eq = ap (λ x. x.mailbox_count) e;
          bundles_eq = ap (λ x. x.bundles) e;
          bytes_eq = ap (λ x. x.total_bundle_bytes) e;
        })
        (ap (λ x. x.conn_count) e)

  handle_frame-IsFair :
      (inp : Inputs api) (me : ℕ) (frame : ClientFrame (Uuid api)) (session : Option Text)
      (s : State api)
      → IsFair s (handle_frame api inp me frame session s).state
  unfolding handle_frame
  handle_frame-IsFair inp me
        (ClientFrame.hello rid auth_token delivery_token protocol_min protocol_max version pow
          cert_only)
        session s =
      hello-IsFair inp me rid auth_token delivery_token protocol_min protocol_max version pow
        cert_only session s
  handle_frame-IsFair inp me (ClientFrame.set_delivery_tokens request_id tokens) session s =
      set_delivery_tokens-IsFair request_id tokens session s
  handle_frame-IsFair inp me
        (ClientFrame.issue_sender_certificate request_id sender_uuid device key) session s =
      certificate-IsFair inp request_id sender_uuid device key session s
  handle_frame-IsFair inp me
        (ClientFrame.send_envelope client_ref to delivery_token envelope_type ciphertext) session
        s =
      send_envelope-IsFair inp client_ref to delivery_token envelope_type ciphertext session s
  handle_frame-IsFair inp me
        (ClientFrame.upload_bundle request_id bundle_id ciphertext expires_at_ms pow) session s =
      upload_bundle-IsFair inp request_id bundle_id ciphertext expires_at_ms pow session s
  handle_frame-IsFair inp me (ClientFrame.fetch_bundle request_id bundle_id) session s =
      fetch_bundle-IsFair inp request_id bundle_id session s
  handle_frame-IsFair inp me (ClientFrame.upload_file_chunk _ _ _ _ _ _ _) session s =
      files_agree s _ refl
  handle_frame-IsFair inp me (ClientFrame.fetch_file_chunk _ _ _) session s = same-IsFair s _ refl
  handle_frame-IsFair inp me (ClientFrame.delete_transfer _ _) session s = files_agree s _ refl
  handle_frame-IsFair inp me (ClientFrame.ack ids) session s = acknowledge-IsFair inp ids session s
  handle_frame-IsFair inp me ClientFrame.retire_mailbox session s =
      retire_mailbox-IsFair inp session s
  handle_frame-IsFair inp me ClientFrame.ping session s = same-IsFair s _ refl

  -- Whatever frame a socket sends, and whatever the clock and the database do, the mailbox count
  -- stays the number of mailboxes, 50 000 at most, the bundle bytes stay those of the hosted
  -- bundles, and both bundle caps hold, given that all of it was so before.
  pub handle_frame-IsSound :
      (inp : Inputs api) (me : ℕ) (frame : ClientFrame (Uuid api)) (session : Option Text)
      (s : State api)
      → IsSound api s
      → IsSound api (handle_frame api inp me frame session s).state
  handle_frame-IsSound inp me frame session s v =
      (handle_frame-IsFair inp me frame session s).sound v

  pub handle_text-IsFair :
      (inp : Inputs api) (me : ℕ) (text : Text) (session : Session api) (s : State api)
      → IsFair s (handle_text api inp me text session s).1.state
  unfolding handle_text
  handle_text-IsFair inp me text session s =
      elim (Bool-cases
        (count_frame inp.received_ms (session.window_start_ms, session.frame_count)).0) [
          | inr spent ↦ rw (spent, handle_text) (same-IsFair s _ refl)
          | inl allowed ↦ elim (Bool-cases (ltb max_frame_bytes (length text))) [
            | inl large ↦ rw (allowed, large, handle_text) (same-IsFair s _ refl)
            | inr small ↦ elim (Result-cases (api.from_str text)) [
              | inl (e, garbled) ↦ rw (allowed, small, garbled, handle_text) (same-IsFair s _ refl)
              | inr (frame, parsed) ↦
                  rw (allowed, small, parsed, handle_text)
                    (handle_frame-IsFair inp me frame session.recipient_id s)
            ]
          ]
        ]
