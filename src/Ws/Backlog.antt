-- ===== src/Ws/Backlog.antt =====
-- What a Hello hands out, and that a queued envelope reaches the owner of its mailbox by one.
use axeno_relay.Prelude.{
  ℕ, ◌≤◌, ◌≡◌, inl, inr, refl, sym, ap, ◌∙◌, Bool, true, false, Option, none, some, List, [], ◌∷◌,
  ◌++◌, Bool-cases, Text, leb, length, map, ok, drop, length-map, if◌then◌else◌,
}
use axeno_relay.Config.{per_mailbox_queue_bytes, protocol_version, protocol_min_supported}
use axeno_relay.Protocol.{StoredEnvelope, hello_ok, envelope_frame, synced, send_ok}
use axeno_relay.Table.{TableApi}
use axeno_relay.Util.{now_activity_ms, token_hash, valid_recipient_id, valid_token}
use axeno_relay.Util.ConstantTime.{ct_eq_iff}
use axeno_relay.QueueStore.{QueueApi, QueueStore, StoredValue, key_for, mailbox_rows, read_mailbox}
use axeno_relay.QueueStore.Removal.{envelope, flush}
use axeno_relay.QueueStore.Invariant.{IsConsistent}
use axeno_relay.QueueStore.Planning.{Fits}
use axeno_relay.QueueStore.Committed.{new_entry}
use axeno_relay.State.Tokens.{MailboxAuth, ensure_delivery_hash}
use axeno_relay.State.Runtime.{mark_auth_dirty}
use axeno_relay.Ws.Session.{WsApi, Uuid, Frame, State, Inputs, Handled, sends}
use axeno_relay.Ws.Hello.{select_version, admit, backlog, catch_up, connect, hello}
use axeno_relay.Ws.Send.{send_envelope}
use axeno_relay.Ws.Sending.{send_envelope-kept}

module _ (api : WsApi) where
  open api.state_api use {queue_api, auths}

  abbrev queued_frame : Text → Uuid api × StoredValue → Frame api
  queued_frame rid e = envelope_frame (envelope queue_api rid e)

  -- The frames of a mailbox's queue, oldest first.
  abbrev pub queued_frames : Text → State api → List (Frame api)
  queued_frames rid s = map (queued_frame rid) (mailbox_rows queue_api s.queues.db rid)

  abbrev pub marker : ℕ → ℕ → List (Frame api)
  marker selected count = if leb 6 selected then synced count ∷ [] else []

  map-map :
      (f : StoredEnvelope (Uuid api) → Frame api) (rid : Text) (l : List (Uuid api × StoredValue))
      → map f (map (envelope queue_api rid) l) ≡ map (λ e. f (envelope queue_api rid e)) l
  map-map f rid [] = refl
  map-map f rid (x ∷ xs) = ap (◌∷◌ (f (envelope queue_api rid x))) (map-map f rid xs)

  append_nil : (l : List (Frame api)) → l ++ [] ≡ l
  append_nil [] = refl
  append_nil (x ∷ l) = ap (◌∷◌ x) (append_nil l)

  catch_up-all :
      (selected : ℕ) (rid : Text) (s : State api)
      → catch_up api none selected (backlog api (flush queue_api none rid s.queues))
        ≡ queued_frames rid s ++ marker selected (length (mailbox_rows queue_api s.queues.db rid))
  unfolding catch_up sends flush read_mailbox
  catch_up-all selected rid s =
      let rows = mailbox_rows queue_api s.queues.db rid in
      let lengths = length-map (queued_frame rid) rows in
      elim (Bool-cases (leb 6 selected)) [
        | inl new ↦ rw (new, map-map envelope_frame rid rows, lengths) refl
        | inr old ↦
            rw (old, map-map envelope_frame rid rows) (sym (append_nil (queued_frames rid s)))
      ]

  -- The owner of a registered mailbox is admitted, and the queues are untouched.
  record Entered (s s' : State api) : Type 0 where
    queues : s'.queues ≡ s.queues
    crypto : s'.crypto ≡ s.crypto
    file_config : s'.file_config ≡ s.file_config

  owner-admitted :
      (inp : Inputs api) (rid auth_hash delivery_hash : Text) (pow : Option Text) (s : State api)
      (auth : MailboxAuth)
      → TableApi.get auths s.mailbox_auth rid ≡ some auth
      → auth.receive_auth_hash ≡ auth_hash
      → (s' : State api) × (admit api inp rid auth_hash delivery_hash pow s ≡ ok s') × Entered s s'
  unfolding admit
  owner-admitted inp rid auth_hash delivery_hash pow s auth taken owner = (
    record s {
      mailbox_auth =
          TableApi.insert auths s.mailbox_auth rid
            (ensure_delivery_hash delivery_hash
              (record auth { last_active_ms = now_activity_ms inp.activity_ms })).1;
    },
    rw (taken, (ct_eq_iff auth.receive_auth_hash auth_hash).1 owner, admit) refl,
    record { queues = refl; crypto = refl; file_config = refl },
  )

  abbrev pub greeting : Inputs api → ℕ → State api → Frame api
  greeting inp v s =
      hello_ok v protocol_min_supported protocol_version inp.now_ms s.crypto.trust_root_public_b64
        s.file_config.max_file_bytes

  -- What follows the greeting: nothing on a socket that asked for certificates only.
  abbrev handed_out_of : Bool → Text → ℕ → QueueStore queue_api → List (Frame api)
  handed_out_of true rid v queues = []
  handed_out_of false rid v queues =
      map (queued_frame rid) (mailbox_rows queue_api queues.db rid)
      ++ marker v (length (mailbox_rows queue_api queues.db rid))

  abbrev pub handed_out : Bool → Text → ℕ → State api → List (Frame api)
  handed_out cert_only rid v s = handed_out_of cert_only rid v s.queues

  connect-replies :
      (cert_only : Bool) (inp : Inputs api) (me : ℕ) (rid : Text) (v : ℕ) (s : State api)
      → inp.fault ≡ none
      → inp.room ≡ none
      → (connect api inp me rid v cert_only s).replies
        ≡ greeting inp v s ∷ handed_out cert_only rid v s
  unfolding connect
  connect-replies true inp me rid v s calm roomy = refl
  connect-replies false inp me rid v s calm roomy =
      rw (calm, roomy) (ap (◌∷◌ (greeting inp v s)) (catch_up-all v rid s))

  module _ (inp : Inputs api) (me : ℕ) (rid auth_token delivery_token : Text)
      (protocol_min protocol_max version : Option ℕ) (pow : Option Text) (cert_only : Bool)
      (session : Option Text) (s : State api) (auth : MailboxAuth) (v : ℕ) where
    abbrev outcome : Handled api
    outcome =
        hello api inp me rid auth_token delivery_token protocol_min protocol_max version pow
          cert_only session s

    pub hello-hands_out :
        valid_recipient_id rid ≡ true
        → valid_token auth_token ≡ true
        → valid_token delivery_token ≡ true
        → select_version protocol_min protocol_max version ≡ some v
        → TableApi.get auths s.mailbox_auth rid ≡ some auth
        → auth.receive_auth_hash ≡ token_hash api.sha256 api.hex auth_token
        → inp.fault ≡ none
        → inp.room ≡ none
        → outcome.replies ≡ greeting inp v s ∷ handed_out cert_only rid v s
    unfolding hello mark_auth_dirty
    hello-hands_out good_id good_auth good_delivery agreed taken owner calm roomy =
        let (s', admitted, entered) =
          owner-admitted inp rid _ (token_hash api.sha256 api.hex delivery_token) pow s auth taken
            owner in
        rw (agreed, good_id, good_auth, good_delivery, admitted, hello)
          (connect-replies cert_only inp me rid v (mark_auth_dirty api.state_api rid s') calm roomy
            ∙ (λ i.
                hello_ok v protocol_min_supported protocol_version inp.now_ms
                  (entered.crypto i).trust_root_public_b64 (entered.file_config i).max_file_bytes
                ∷ handed_out_of cert_only rid v (entered.queues i)))

  map-append :
      (f : Uuid api × StoredValue → Frame api) (xs ys : List (Uuid api × StoredValue))
      → map f (xs ++ ys) ≡ map f xs ++ map f ys
  map-append f [] ys = refl
  map-append f (x ∷ xs) ys = ap (◌∷◌ (f x)) (map-append f xs ys)

  append_assoc : (xs ys zs : List (Frame api)) → (xs ++ ys) ++ zs ≡ xs ++ (ys ++ zs)
  append_assoc [] ys zs = refl
  append_assoc (x ∷ xs) ys zs = ap (◌∷◌ x) (append_assoc xs ys zs)

  -- An envelope is sent from a consistent queue store whose sums fit in 64 bits, under an id that
  -- the mailbox does not hold, with a ciphertext within the byte cap of a mailbox, and its sender is
  -- told SendOk with `queued` true. In any later state in which the queues are as the send left them,
  -- a Hello for the mailbox with the owner's token, not for certificates only, that has valid
  -- tokens and agrees on a version, is answered with the envelope among the frames, where no
  -- database call fails in it and the socket takes every frame.
  pub send_envelope-reaches_owner :
      (inp : Inputs api) (client_ref : Option Text)
      (to delivery_token envelope_type ciphertext : Text) (session : Option Text) (s : State api)
      → IsConsistent queue_api s.queues
      → TableApi.get (QueueApi.db queue_api) s.queues.db (key_for queue_api to inp.fresh_id) ≡ none
      → Fits queue_api s.queues (length ciphertext)
      → length ciphertext ≤ per_mailbox_queue_bytes
      → (id : Uuid api) (r : Option Text)
      → (send_envelope api inp client_ref to delivery_token envelope_type ciphertext session
          s).replies
        ≡ send_ok id true r ∷ []
      → (later : Inputs api) (me : ℕ) (auth_token own_delivery_token : Text)
        (protocol_min protocol_max version : Option ℕ) (pow : Option Text) (session' : Option Text)
        (t : State api) (auth : MailboxAuth) (v : ℕ)
      → t.queues
        ≡ (send_envelope api inp client_ref to delivery_token envelope_type ciphertext session
            s).state.queues
      → valid_recipient_id to ≡ true
      → valid_token auth_token ≡ true
      → valid_token own_delivery_token ≡ true
      → select_version protocol_min protocol_max version ≡ some v
      → TableApi.get auths t.mailbox_auth to ≡ some auth
      → auth.receive_auth_hash ≡ token_hash api.sha256 api.hex auth_token
      → later.fault ≡ none
      → later.room ≡ none
      → (before after : List (Frame api)) × ((hello api later me to auth_token own_delivery_token
            protocol_min protocol_max version pow false session' t).replies
          ≡ before
            ++ envelope_frame (record {
              id = inp.fresh_id;
              to = to;
              envelope_type = envelope_type;
              ciphertext = ciphertext;
            })
              ∷ after)
  unfolding new_entry
  send_envelope-reaches_owner inp client_ref to delivery_token envelope_type ciphertext session s
        consistent fresh fits small id r done later me auth_token own_delivery_token protocol_min
        protocol_max version pow session' t auth v same good_id good_auth good_delivery agreed taken
        owner calm roomy =
      let (allowed, same_id, same_ref, fate) =
        send_envelope-kept api inp client_ref to delivery_token envelope_type ciphertext session s
          consistent fresh fits small id true r done in
      let out =
        hello-hands_out later me to auth_token own_delivery_token protocol_min protocol_max version
          pow false session' t auth v good_id good_auth good_delivery agreed taken owner calm
          roomy in
      elim fate [
        | inl (not_queued, _) ↦ absurd cc
        | inr (_, (count, last)) ↦
            let f = queued_frame to in
            let kept = map f (drop count (mailbox_rows queue_api s.queues.db to)) in
            let tail = marker v (length (mailbox_rows queue_api t.queues.db to)) in
            let frames =
              ap (λ q. map f (mailbox_rows queue_api q.db to)) same
              ∙ ap (map f) last
              ∙ map-append f (drop count (mailbox_rows queue_api s.queues.db to)) _ in
            (
              greeting later v t ∷ kept,
              tail,
              out
                  ∙ ap (λ l. greeting later v t ∷ (l ++ tail)) frames
                  ∙ ap (◌∷◌ (greeting later v t)) (append_assoc kept _ tail),
            )
      ]
