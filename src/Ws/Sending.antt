-- ===== src/Ws/Sending.antt =====
-- What the SendEnvelope frame of src/ws.rs promises to the sender and to the owner of the mailbox.
use axeno_relay.Prelude.{
  ℕ, ◌≤◌, ◌≡◌, ◌⊎◌, inl, inr, refl, sym, ap, ◌∙◌, Bool, true, false, not, ◌||◌, Option, none, some,
  [], ◌∷◌, ◌++◌, arith, Bool-cases, Option-cases, Result-cases, Text, ltb, length, ok, drop,
}
use axeno_relay.Config.{per_mailbox_queue_bytes}
use axeno_relay.Protocol.{StoredEnvelope, envelope_frame, send_ok}
use axeno_relay.Table.{TableApi}
use axeno_relay.Util.{token_hash, now_activity_ms, valid_recipient_id, valid_token}
use axeno_relay.Util.Validation.{valid_recipient_id-IsFreeOf}
use axeno_relay.QueueStore.{QueueApi, key_for, mailbox_rows, would_exceed_global, enqueue}
use axeno_relay.QueueStore.Invariant.{IsConsistent}
use axeno_relay.QueueStore.Planning.{Fits}
use axeno_relay.QueueStore.Committed.{new_entry}
use axeno_relay.QueueStore.Delivery.{enqueue-appends}
use axeno_relay.State.Tokens.{MailboxAuth, accepts_delivery_hash}
use axeno_relay.State.Runtime.{allow_dest_send, mark_auth_dirty}
use axeno_relay.Ws.Session.{WsApi, Uuid, Frame, State, Inputs, Handled}
use axeno_relay.Ws.Send.{send_envelope, deliver_live, store_offline}

module _ (api : WsApi) where
  open api.state_api use {queue_api, auths, channels}

  -- Whether the mailbox is registered and accepts the token.
  abbrev pub may_send : Text → Option MailboxAuth → Bool
  may_send token none = false
  may_send token (some auth) = accepts_delivery_hash auth (token_hash api.sha256 api.hex token)

  module _ (inp : Inputs api) (client_ref : Option Text)
      (to delivery_token envelope_type ciphertext : Text) (session : Option Text)
      (s : State api) where
    abbrev sent : Handled api
    sent = send_envelope api inp client_ref to delivery_token envelope_type ciphertext session s

    abbrev pub posted : StoredEnvelope (Uuid api)
    posted = record {
      id = inp.fresh_id;
      to = to;
      envelope_type = envelope_type;
      ciphertext = ciphertext;
    }

    -- Without a token that the mailbox accepts, nothing changes: no envelope is queued, none is
    -- handed to a socket, and neither the lease of the mailbox nor its rate window moves.
    pub send_envelope-needs_token :
        may_send delivery_token (TableApi.get auths s.mailbox_auth to) ≡ false
        → (sent.state ≡ s) × (sent.live ≡ none)
    unfolding send_envelope
    send_envelope-needs_token refusal =
        elim (Bool-cases (not (valid_recipient_id to) || not (valid_token delivery_token))) [
          | inl bad ↦ rw (bad, send_envelope) (refl, refl)
          | inr good ↦ elim (Bool-cases (ltb 32 (length envelope_type))) [
            | inl long ↦ rw (good, long, send_envelope) (refl, refl)
            | inr short ↦ elim (Option-cases (TableApi.get auths s.mailbox_auth to)) [
              | inl missing ↦ rw (good, short, missing, send_envelope) (refl, refl)
              | inr (auth, found) ↦
                  let wrong : accepts_delivery_hash auth
                        (token_hash api.sha256 api.hex delivery_token)
                      ≡ false =
                    ap (may_send delivery_token) (sym found) ∙ refusal in
                  rw (good, short, found, wrong, send_envelope) (refl, refl)
            ]
          ]
        ]

  -- How the last steps of a send end with a SendOk: the envelope went to a socket, or the enqueue of
  -- it succeeded.
  abbrev Ended :
      Inputs api
      → StoredEnvelope (Uuid api)
      → State api
      → Bool
      → Option (ℕ × Frame api)
      → Handled api
      → Type 0
  Ended inp env t queued live handled =
      (queued ≡ false) × ((e : ℕ × Frame api) × (live ≡ some e))
      ⊎ (queued ≡ true)
        × ((count : ℕ) × ((enqueue queue_api inp.fault inp.queued_ms env.to env t.queues).0
              ≡ ok count))
        × (handled.state.queues ≡ (enqueue queue_api inp.fault inp.queued_ms env.to env t.queues).1)

  store_offline-send_ok :
      (inp : Inputs api) (client_ref : Option Text) (env : StoredEnvelope (Uuid api))
      (session : Option Text) (live : Option (ℕ × Frame api)) (t : State api) (id : Uuid api)
      (queued : Bool) (r : Option Text)
      → (store_offline api inp client_ref env session (live, t)).replies ≡ send_ok id queued r ∷ []
      → (id ≡ env.id)
        × (r ≡ client_ref)
        × Ended inp env t queued live (store_offline api inp client_ref env session (live, t))
  unfolding store_offline mark_auth_dirty
  store_offline-send_ok inp client_ref env session (some e) t id queued r =
      elim (Bool-cases (would_exceed_global queue_api t.queues (length env.ciphertext))) [
        | inl over ↦ rw (over, store_offline) (λ h. (cc, cc, inl (cc, (e, refl))))
        | inr fits ↦
            let outcome = enqueue queue_api inp.fault inp.queued_ms env.to env t.queues in
            elim (Result-cases outcome.0) [
              | inl (x, failed) ↦
                  rw (fits, failed, store_offline) (λ h. (cc, cc, inl (cc, (e, refl))))
              | inr (count, done) ↦
                  rw (fits, done, store_offline) (λ h. (cc, cc, inl (cc, (e, refl))))
            ]
      ]
  store_offline-send_ok inp client_ref env session none t id queued r =
      elim (Bool-cases (would_exceed_global queue_api t.queues (length env.ciphertext))) [
        | inl over ↦ rw (over, store_offline) (λ h. absurd cc)
        | inr fits ↦
            elim (Result-cases (enqueue queue_api inp.fault inp.queued_ms env.to env t.queues).0) [
              | inl (e, failed) ↦ rw (fits, failed, store_offline) (λ h. absurd cc)
              | inr (count, done) ↦
                  rw (fits, done, store_offline) (λ h. (cc, cc, inr (cc, (count, refl), refl)))
            ]
      ]

  store_offline-live :
      (inp : Inputs api) (client_ref : Option Text) (env : StoredEnvelope (Uuid api))
      (session : Option Text) (live : Option (ℕ × Frame api)) (t : State api)
      → (store_offline api inp client_ref env session (live, t)).live ≡ live
  unfolding store_offline
  store_offline-live inp client_ref env session live t =
      elim (Bool-cases (would_exceed_global queue_api t.queues (length env.ciphertext))) [
        | inl over ↦ rw (over, store_offline) refl
        | inr fits ↦ rw (fits, store_offline) refl
      ]

  deliver_live-cases :
      (live_sent : Bool) (env : StoredEnvelope (Uuid api)) (t : State api)
      → ((deliver_live api live_sent env t).1.queues ≡ t.queues)
        × ((e : ℕ × Frame api)
            → (deliver_live api live_sent env t).0 ≡ some e
            → (e.1 ≡ envelope_frame env) × (TableApi.get channels t.online env.to ≡ some e.0))
  unfolding deliver_live
  deliver_live-cases live_sent env t = elim (Option-cases (TableApi.get channels t.online env.to)) [
    | inl e ↦ rw (e, deliver_live) (refl, λ x h. absurd cc)
    | inr (ch, e) ↦ elim (Bool-cases live_sent) [
      | inl took ↦ rw (e, took, deliver_live) (refl, λ x h. (cc, cc))
      | inr lost ↦ rw (e, lost, deliver_live) (refl, λ x h. absurd cc)
    ]
  ]

  module _ (inp : Inputs api) (client_ref : Option Text)
      (to delivery_token envelope_type ciphertext : Text) (session : Option Text)
      (s : State api) where
    abbrev outcome : Handled api
    outcome = sent inp client_ref to delivery_token envelope_type ciphertext session s

    abbrev env : StoredEnvelope (Uuid api)
    env = posted inp client_ref to delivery_token envelope_type ciphertext session s

    -- A send that was answered with SendOk went through all the checks.
    record Posted : Type 0 where
      state : State api
      queues : state.queues ≡ s.queues
      online : state.online ≡ s.online
      ended :
          outcome
          ≡ store_offline api inp client_ref env session (deliver_live api inp.live_sent env state)
      allowed : may_send delivery_token (TableApi.get auths s.mailbox_auth to) ≡ true
      valid : valid_recipient_id to ≡ true

    abbrev touched : MailboxAuth → State api
    touched auth = record s {
      mailbox_auth =
          TableApi.insert auths s.mailbox_auth to
            (record auth { last_active_ms = now_activity_ms inp.activity_ms });
    }

    authorized-Posted :
        (auth : MailboxAuth)
        → TableApi.get auths s.mailbox_auth to ≡ some auth
        → accepts_delivery_hash auth (token_hash api.sha256 api.hex delivery_token) ≡ true
        → (not (valid_recipient_id to) || not (valid_token delivery_token)) ≡ false
        → ltb 32 (length envelope_type) ≡ false
        → (id : Uuid api) (queued : Bool) (r : Option Text)
        → outcome.replies ≡ send_ok id queued r ∷ []
        → Posted
    unfolding send_envelope allow_dest_send
    authorized-Posted auth found right good short id queued r =
        let window = allow_dest_send api.state_api inp.rate_ms to (touched auth) in
        elim (Bool-cases window.0) [
          | inr spent ↦ rw (good, short, found, right, spent, send_envelope) (λ h. absurd cc)
          | inl allowed ↦ λ h. record {
            state = window.1;
            queues = refl;
            online = refl;
            ended = rw (good, short, found, right, allowed, send_envelope) refl;
            allowed = rw found right;
            valid = ground (arith, good);
          }
        ]

    sent-Posted :
        (id : Uuid api) (queued : Bool) (r : Option Text)
        → outcome.replies ≡ send_ok id queued r ∷ []
        → Posted
    unfolding send_envelope
    sent-Posted id queued r =
        elim (Bool-cases (not (valid_recipient_id to) || not (valid_token delivery_token))) [
          | inl bad ↦ rw (bad, send_envelope) (λ h. absurd cc)
          | inr good ↦ elim (Bool-cases (ltb 32 (length envelope_type))) [
            | inl long ↦ rw (good, long, send_envelope) (λ h. absurd cc)
            | inr short ↦ elim (Option-cases (TableApi.get auths s.mailbox_auth to)) [
              | inl missing ↦ rw (good, short, missing, send_envelope) (λ h. absurd cc)
              | inr (auth, found) ↦
                  elim (Bool-cases
                    (accepts_delivery_hash auth (token_hash api.sha256 api.hex delivery_token))) [
                      | inr wrong ↦ rw (good, short, found, wrong, send_envelope) (λ h. absurd cc)
                      | inl right ↦ authorized-Posted auth found right good short id queued r
                    ]
            ]
          ]
        ]

    -- An envelope whose sender is told SendOk had a token that its mailbox accepts, and is not lost.
    -- With `queued` false it was handed to the channel of the socket that is the mailbox's route;
    -- with `queued` true it stands last in the mailbox's queue, after what the queue held less the
    -- oldest that were evicted. This holds from a consistent queue store whose sums fit in
    -- 64 bits, for an id that the mailbox does not hold and a ciphertext within the mailbox's byte
    -- cap, whichever database call fails.
    pub send_envelope-kept :
        IsConsistent queue_api s.queues
        → TableApi.get (QueueApi.db queue_api) s.queues.db (key_for queue_api to inp.fresh_id)
          ≡ none
        → Fits queue_api s.queues (length ciphertext)
        → length ciphertext ≤ per_mailbox_queue_bytes
        → (id : Uuid api) (queued : Bool) (r : Option Text)
        → outcome.replies ≡ send_ok id queued r ∷ []
        → (may_send delivery_token (TableApi.get auths s.mailbox_auth to) ≡ true)
          × (id ≡ inp.fresh_id)
          × (r ≡ client_ref)
          × ((queued ≡ false)
                × ((channel : ℕ) × (TableApi.get channels s.online to ≡ some channel)
                    × (outcome.live ≡ some (channel, envelope_frame env)))
              ⊎ (queued ≡ true)
                × ((count : ℕ) × (mailbox_rows queue_api outcome.state.queues.db to
                      ≡ drop count (mailbox_rows queue_api s.queues.db to)
                        ++ new_entry queue_api inp.queued_ms env s.queues ∷ [])))
    send_envelope-kept v fresh fits small id queued r h =
        let p = sent-Posted id queued r h in
        let dl = deliver_live api inp.live_sent env p.state in
        let (same_queues, handed) = deliver_live-cases inp.live_sent env p.state in
        let q = same_queues ∙ p.queues in
        let (same_id, same_ref, ended) =
          store_offline-send_ok inp client_ref env session dl.0 dl.1 id queued r
            (sym (ap (λ o. o.replies) p.ended) ∙ h) in
        (
          p.allowed,
          same_id,
          same_ref,
          elim ended [
            | inl (now, (e, live)) ↦
                let (what, where_to) = handed e live in
                inl (
                  now,
                  (
                    e.0,
                    ap (λ o. TableApi.get channels o to) (sym p.online) ∙ where_to,
                    ap (λ o. o.live) p.ended
                        ∙ store_offline-live inp client_ref env session dl.0 dl.1
                        ∙ live
                        ∙ (λ i. some (e.0, what i)),
                  ),
                )
            | inr (later, (count, done), left) ↦
                let run = ap (λ x. enqueue queue_api inp.fault inp.queued_ms to env x) q in
                let appended =
                  enqueue-appends queue_api inp.fault inp.queued_ms to env s.queues
                    (valid_recipient_id-IsFreeOf to p.valid) v fresh fits count
                    (ap (λ x. x.0) (sym run) ∙ done) small in
                inr (
                  later,
                  (
                    count,
                    ap (λ x. mailbox_rows queue_api x.db to)
                          (ap (λ o. o.state.queues) p.ended ∙ left ∙ ap (λ x. x.1) run)
                        ∙ appended.0,
                  ),
                )
          ],
        )
