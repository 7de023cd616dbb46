-- ===== src/Ws/Admission.antt =====
-- Whom the Hello frame of src/ws.rs lets in.
use axeno_relay.Prelude.{
  ℕ, ◌≤◌, ◌<◌, is_some, wrap_add, ◌≡◌, ◌⊎◌, inl, inr, refl, Bool, true, false, not, ◌||◌, Option,
  none, some, arith, Bool-cases, Option-cases, Text, text_eq_refl, ap, sym, Result-cases, ◌∙◌, leb,
  Result, ok, err,
}
use axeno_relay.Config.{protocol_version, protocol_min_supported, max_mailboxes}
use axeno_relay.Table.{TableApi}
use axeno_relay.Util.{ct_eq, now_activity_ms, token_hash, valid_recipient_id, valid_token}
use axeno_relay.Util.ConstantTime.{ct_eq_iff}
use axeno_relay.State.Tokens.{MailboxAuth, new_auth, ensure_delivery_hash}
use axeno_relay.State.Runtime.{mark_auth_dirty, reserve_mailbox_slot}
use axeno_relay.Ws.Files.{pow_passes}
use axeno_relay.Ws.Session.{WsApi, Frame, State, Inputs, Handled, answer, unwrap_or}
use axeno_relay.Ws.Hello.{select_version, admit, rejected, connect, hello}

-- The bounds that a client gives, with what stands for a missing one.
abbrev pub client_bound : Option ℕ → Option ℕ → ℕ
client_bound bound version = unwrap_or bound (unwrap_or version protocol_version)

-- A version that both sides speak.
pub record IsCommon (protocol_min protocol_max version : Option ℕ) (v : ℕ) : Type 0 where
  pub above_min : client_bound protocol_min version ≤ v
  pub below_max : v ≤ client_bound protocol_max version
  pub supported : protocol_min_supported ≤ v
  pub current : v ≤ protocol_version

-- The negotiation selects the greatest version that both sides speak, and fails exactly where there
-- is none.
pub select_version-greatest :
    (protocol_min protocol_max version : Option ℕ)
    → ((v : ℕ)
        → select_version protocol_min protocol_max version ≡ some v
        → IsCommon protocol_min protocol_max version v
          × ((w : ℕ) → IsCommon protocol_min protocol_max version w → w ≤ v))
      × (select_version protocol_min protocol_max version ≡ none
          → (w : ℕ) → ¬ IsCommon protocol_min protocol_max version w)
unfolding select_version
select_version-greatest protocol_min protocol_max version = (
  λ v h. (
    record {
      above_min = ground (arith, h);
      below_max = ground (arith, h);
      supported = ground (arith, h);
      current = ground (arith, h);
    },
    λ w common. ground (arith, h, common.below_max, common.current),
  ),
  λ h w common.
      ground (arith, h, common.above_min, common.below_max, common.supported, common.current),
)

ensure_delivery_hash-owner :
    (hash : Text) (auth : MailboxAuth)
    → (ensure_delivery_hash hash auth).1.receive_auth_hash ≡ auth.receive_auth_hash
unfolding ensure_delivery_hash
ensure_delivery_hash-owner hash auth = ground arith

module _ (api : WsApi) where
  open api.state_api use {auths}

  admit-stranger :
      (inp : Inputs api) (rid auth_hash delivery_hash : Text) (pow : Option Text) (s : State api)
      → TableApi.get auths s.mailbox_auth rid ≡ none
      → pow_passes api.sha256 inp.pow_secs rid pow ≡ false
      → admit api inp rid auth_hash delivery_hash pow s ≡ err (rejected api)
  unfolding admit
  admit-stranger inp rid auth_hash delivery_hash pow s vacant no_pow =
      rw (vacant, no_pow, admit) refl

  admit-intruder :
      (inp : Inputs api) (rid auth_hash delivery_hash : Text) (pow : Option Text) (s : State api)
      (auth : MailboxAuth)
      → TableApi.get auths s.mailbox_auth rid ≡ some auth
      → ct_eq auth.receive_auth_hash auth_hash ≡ false
      → admit api inp rid auth_hash delivery_hash pow s ≡ err (rejected api)
  unfolding admit
  admit-intruder inp rid auth_hash delivery_hash pow s auth taken wrong =
      rw (taken, wrong, admit) refl

  -- What an admission changes: the entry of the mailbox, which has the hash of the owner's token, and
  -- for a mailbox that was not there, the count, which was below the cap.
  pub record Admitted (inp : Inputs api) (rid auth_hash delivery_hash : Text) (pow : Option Text)
      (s s' : State api) : Type 0 where
    pub auth : MailboxAuth
    pub count : ℕ
    pub after : s' ≡ record s {
      mailbox_auth = TableApi.insert auths s.mailbox_auth rid auth;
      mailbox_count = count;
    }
    pub owner : auth.receive_auth_hash ≡ auth_hash
    pub entered :
        (is_some (TableApi.get auths s.mailbox_auth rid) ≡ true) × (count ≡ s.mailbox_count)
        ⊎ (TableApi.get auths s.mailbox_auth rid ≡ none)
          × (count ≡ wrap_add s.mailbox_count 1)
          × (s.mailbox_count < max_mailboxes)
          × (pow_passes api.sha256 inp.pow_secs rid pow ≡ true)

  pub admit-Admitted :
      (inp : Inputs api) (rid auth_hash delivery_hash : Text) (pow : Option Text) (s s' : State api)
      → admit api inp rid auth_hash delivery_hash pow s ≡ ok s'
      → Admitted inp rid auth_hash delivery_hash pow s s'
  unfolding admit reserve_mailbox_slot new_auth
  admit-Admitted inp rid auth_hash delivery_hash pow s s' =
      elim (Option-cases (TableApi.get auths s.mailbox_auth rid)) [
        | inl vacant ↦ elim (Bool-cases (pow_passes api.sha256 inp.pow_secs rid pow)) [
          | inr no_pow ↦ rw (vacant, no_pow, admit) (λ h. absurd cc)
          | inl proved ↦ elim (Bool-cases (leb max_mailboxes s.mailbox_count)) [
            | inl full ↦ rw (vacant, proved, full, admit, reserve_mailbox_slot) (λ h. absurd cc)
            | inr room ↦
                rw (vacant, proved, room, admit, reserve_mailbox_slot)
                  (λ h. record {
                    auth = new_auth inp.activity_ms auth_hash delivery_hash;
                    count = wrap_add s.mailbox_count 1;
                    after = ground (arith, h);
                    owner = refl;
                    entered = inr (vacant, refl, ground (arith, room), proved);
                  })
          ]
        ]
        | inr (auth, taken) ↦ elim (Bool-cases (ct_eq auth.receive_auth_hash auth_hash)) [
          | inr wrong ↦ rw (taken, wrong, admit) (λ h. absurd cc)
          | inl right ↦
              rw (taken, right, admit)
                (λ h. record {
                  auth =
                      (ensure_delivery_hash delivery_hash
                        (record auth { last_active_ms = now_activity_ms inp.activity_ms })).1;
                  count = s.mailbox_count;
                  after = ground (arith, h);
                  owner =
                      ensure_delivery_hash-owner delivery_hash _
                      ∙ (ct_eq_iff auth.receive_auth_hash auth_hash).0 right;
                  entered = inl (rw taken refl, refl);
                })
        ]
      ]

  module _ (inp : Inputs api) (me : ℕ) (rid auth_token delivery_token : Text)
      (protocol_min protocol_max version : Option ℕ) (pow : Option Text) (cert_only : Bool)
      (session : Option Text) where
    abbrev pub outcome : State api → Handled api
    outcome s =
        hello api inp me rid auth_token delivery_token protocol_min protocol_max version pow
          cert_only session s

    abbrev pub admission : State api → Result (Frame api) (State api)
    admission s =
        admit api inp rid (token_hash api.sha256 api.hex auth_token)
          (token_hash api.sha256 api.hex delivery_token) pow s

    -- A refused Hello has one reply and changes nothing, and the reply does not depend on the state.
    refused :
        (s t : State api)
        → admission s ≡ err (rejected api)
        → admission t ≡ err (rejected api)
        → (reply : Frame api) × (outcome s ≡ answer api session s reply)
          × (outcome t ≡ answer api session t reply)
    unfolding hello
    refused s t h k = elim (Option-cases (select_version protocol_min protocol_max version)) [
      | inl e ↦ rw (e, hello) (_, refl, refl)
      | inr (v, e) ↦
          rw (e, hello)
            (elim (Bool-cases (
              not (valid_recipient_id rid)
              || not (valid_token auth_token)
              || not (valid_token delivery_token))) [
                | inl bad ↦ rw bad (_, refl, refl)
                | inr good ↦ rw (good, h, k) (_, refl, refl)
              ])
    ]

    -- A Hello that names a free mailbox without a valid proof of work and one that names a
    -- registered mailbox with a wrong token both get one and the same reply and nothing else: the
    -- state and the mailbox of the socket are what they were, no frame goes to another socket, and
    -- the loop goes on. So a prober does not learn which ids are taken.
    pub hello-hides_mailbox :
        (vacant taken : State api) (auth : MailboxAuth)
        → TableApi.get auths vacant.mailbox_auth rid ≡ none
        → pow_passes api.sha256 inp.pow_secs rid pow ≡ false
        → TableApi.get auths taken.mailbox_auth rid ≡ some auth
        → ct_eq auth.receive_auth_hash (token_hash api.sha256 api.hex auth_token) ≡ false
        → (reply : Frame api) × (outcome vacant ≡ answer api session vacant reply)
          × (outcome taken ≡ answer api session taken reply)
    hello-hides_mailbox vacant taken auth free no_pow registered wrong =
        let auth_hash = token_hash api.sha256 api.hex auth_token in
        let delivery_hash = token_hash api.sha256 api.hex delivery_token in
        refused vacant taken (admit-stranger inp rid auth_hash delivery_hash pow vacant free no_pow)
          (admit-intruder inp rid auth_hash delivery_hash pow taken auth registered wrong)

    -- Either the socket and the state are as they were, or it was admitted to the mailbox.
    pub hello-cases :
        (s : State api)
        → ((outcome s).state ≡ s) × ((outcome s).recipient_id ≡ session)
          ⊎ (v : ℕ) × (s' : State api) × (admission s ≡ ok s')
            × (valid_recipient_id rid ≡ true)
            × (outcome s
                ≡ connect api inp me rid v cert_only (mark_auth_dirty api.state_api rid s'))
    unfolding hello
    hello-cases s = elim (Option-cases (select_version protocol_min protocol_max version)) [
      | inl e ↦ inl (rw (e, hello) refl, rw (e, hello) refl)
      | inr (v, e) ↦
          elim (Bool-cases (
            not (valid_recipient_id rid)
            || not (valid_token auth_token)
            || not (valid_token delivery_token))) [
              | inl bad ↦ inl (rw (e, bad, hello) refl, rw (e, bad, hello) refl)
              | inr good ↦ elim (Result-cases (admission s)) [
                | inl (f, refusal) ↦
                    inl (rw (e, good, refusal, hello) refl, rw (e, good, refusal, hello) refl)
                | inr (s', admitted) ↦
                    inr (v, s', admitted, ground (arith, good), rw (e, good, admitted, hello) refl)
              ]
            ]
    ]

    -- Whose token the mailbox's entry has.
    abbrev pub Owned : State api → Type 0
    Owned s =
        (auth : MailboxAuth) × (TableApi.get auths s.mailbox_auth rid ≡ some auth)
        × (auth.receive_auth_hash ≡ token_hash api.sha256 api.hex auth_token)

    admitted-Owned : (s s' : State api) → admission s ≡ ok s' → Owned s'
    admitted-Owned s s' h =
        let a = admit-Admitted inp rid _ _ pow s s' h in
        (
          a.auth,
          ap (λ t. TableApi.get auths t.mailbox_auth rid) a.after
              ∙ TableApi.get-insert auths s.mailbox_auth rid rid a.auth
              ∙ rw (text_eq_refl rid) refl,
          a.owner,
        )

    connect-auth :
        (v : ℕ) (s : State api)
        → ((connect api inp me rid v cert_only s).state.mailbox_auth ≡ s.mailbox_auth)
          × ((connect api inp me rid v cert_only s).recipient_id ≡ some rid)
    unfolding connect
    connect-auth v s = (ground arith, ground arith)

    -- Where a Hello leaves the socket with a mailbox, the socket had it before, or it is the one that
    -- the Hello named, and the mailbox's entry has the hash of the token that it gave.
    pub hello-authenticates :
        (s : State api) (r : Text)
        → (outcome s).recipient_id ≡ some r
        → (session ≡ some r) ⊎ (r ≡ rid) × Owned (outcome s).state
    unfolding mark_auth_dirty
    hello-authenticates s r bound = elim (hello-cases s) [
      | inl (_, same) ↦ inl (sym same ∙ bound)
      | inr (v, s', admitted, valid, done) ↦
          let (auth, here, owner) = admitted-Owned s s' admitted in
          let (kept, named) = connect-auth v (mark_auth_dirty api.state_api rid s') in
          let same = sym (ap (λ o. o.recipient_id) done) ∙ bound in
          inr (
            ground (arith, named, same),
            (
              auth,
              ap (λ o. TableApi.get auths o.state.mailbox_auth rid) done
                  ∙ ap (λ t. TableApi.get auths t rid) kept
                  ∙ here,
              owner,
            ),
          )
    ]
