-- ===== src/Ws/Invites.antt =====
-- What the UploadBundle and FetchBundle frames of src/ws.rs guarantee of the hosted bundles.
use axeno_relay.Prelude.{
  ℕ, ◌+◌, ◌-◌, ◌≤◌, ◌<◌, ◌≡◌, ◌⊎◌, inl, inr, refl, sym, ap, ◌∙◌, Bool, true, false, not, ◌||◌,
  Option, none, some, List, [], ◌∷◌, arith, Bool-cases, Option-cases, Text, text_eq, text_eq_iff,
  text_eq_refl, ltb, leb, length, saturating_add, saturating_sub, wrap_add, wrap_add-eq_of_lt,
  u64_mod,
}
use axeno_relay.Config.{max_bundle_bytes, max_bundles, max_total_bundle_bytes}
use axeno_relay.Protocol.{bundle_uploaded}
use axeno_relay.Table.{TableApi, total-insert, total-remove, share}
use axeno_relay.Util.{atomic_sub_saturating, valid_bundle_id}
use axeno_relay.State.Bundle.{HostedBundle}
use axeno_relay.State.Runtime.{prune_expired_bundles, mark_bundle_dirty}
use axeno_relay.State.Runtime.Pruning.{
  IsHosted, bundle_bytes, hosted_count, count-total, prune_expired_bundles-keeps,
  prune_expired_bundles-IsHosted,
}
use axeno_relay.Ws.Files.{pow_passes}
use axeno_relay.Ws.Session.{WsApi, Frame, State, Inputs, Handled, answer}
use axeno_relay.Ws.Hosting.{existing_reply, host, bundle_expiry, accept_bundle, upload_bundle}

swapped :
    (bytes old new : ℕ)
    → bytes + new < u64_mod
    → wrap_add (atomic_sub_saturating [] bytes old) new ≡ bytes - old + new
unfolding atomic_sub_saturating saturating_sub
swapped bytes old new h = wrap_add-eq_of_lt (bytes - old) new (omega arith)

module _ (api : WsApi) where
  open api.state_api use {bundle_map}

  abbrev IsKept : State api → Type 0
  IsKept s = IsHosted api.state_api s

  pub host-get :
      (b : HostedBundle) (s : State api) (id : Text)
      → TableApi.get bundle_map (host api b s).bundles id ≡ (
          axeno_relay.Prelude.if◌then◌else◌
            (text_eq b.id id)
            (some b)
            (TableApi.get bundle_map s.bundles id))
  unfolding host mark_bundle_dirty
  host-get b s id = TableApi.get-insert bundle_map s.bundles b.id id b

  host-IsHosted :
      (b : HostedBundle) (s : State api)
      → IsKept s
      → hosted_count api.state_api s < max_bundles
      → s.total_bundle_bytes + length b.ciphertext ≤ max_total_bundle_bytes
      → IsKept (host api b s)
  unfolding host mark_bundle_dirty
  host-IsHosted b s v room fits =
      let parts = total-insert bundle_map bundle_bytes s.bundles b.id b in
      let held = total-remove bundle_map bundle_bytes s.bundles b.id in
      let counts = total-insert bundle_map (λ e. 1) s.bundles b.id b in
      let before = count-total api.state_api s.bundles in
      let after = count-total api.state_api (TableApi.insert bundle_map s.bundles b.id b) in
      let keyed : (id : Text) (x : HostedBundle)
          → TableApi.get bundle_map (host api b s).bundles id ≡ some x
          → x.id ≡ id =
        λ id x h. ground (arith, host-get b s id, h, v.keyed id x, text_eq_iff b.id id) in
      elim (Option-cases (TableApi.get bundle_map s.bundles b.id)) [
        | inl e ↦
            let share_bytes = ap (share bundle_bytes b.id) e in
            let sum = wrap_add-eq_of_lt s.total_bundle_bytes (length b.ciphertext) (omega arith) in
            record {
              keyed = keyed;
              total_bytes = rw e (omega (arith, v.total_bytes));
              bytes = rw e (omega arith);
              count = omega arith;
            }
        | inr (old, e) ↦
            let share_bytes = ap (share bundle_bytes b.id) e in
            let sum =
              swapped s.total_bundle_bytes (length old.ciphertext) (length b.ciphertext)
                (omega arith) in
            record {
              keyed = keyed;
              total_bytes = rw e (omega (arith, v.total_bytes));
              bytes = rw e (omega arith);
              count = omega arith;
            }
      ]

  existing_reply-dead :
      (now : ℕ) (request_id bundle_id ciphertext : Text) (o : Option HostedBundle)
      → existing_reply api now request_id bundle_id ciphertext o ≡ none
      → (b : HostedBundle) → o ≡ some b
      → b.expires_at_ms ≤ now
  unfolding existing_reply
  existing_reply-dead now request_id bundle_id ciphertext none h b e = absurd cc
  existing_reply-dead now request_id bundle_id ciphertext (some x) h b e = ground (arith, h, e)

  module _ (inp : Inputs api) (request_id bundle_id ciphertext : Text) (expires_at_ms : ℕ)
      (session : Option Text) where
    abbrev pub new_bundle : HostedBundle
    new_bundle = record {
      id = bundle_id;
      ciphertext = ciphertext;
      created_at_ms = inp.expiry_ms;
      expires_at_ms = bundle_expiry inp.expiry_ms expires_at_ms;
    }

    abbrev pub accepted : State api → Handled api
    accepted s = accept_bundle api inp request_id bundle_id ciphertext expires_at_ms session s

    abbrev pub existing : State api → Option (Frame api)
    existing s =
        existing_reply api inp.now_ms request_id bundle_id ciphertext
          (TableApi.get bundle_map s.bundles bundle_id)

    -- Why a bundle is hosted, and what then happens.
    pub record Hosted (s : State api) : Type 0 where
      pub dead : existing s ≡ none
      pub room : hosted_count api.state_api s < max_bundles
      pub fits : s.total_bundle_bytes + length ciphertext ≤ max_total_bundle_bytes
      pub done :
          accepted s
          ≡ answer api session
              (host api new_bundle s)
              (bundle_uploaded request_id bundle_id new_bundle.expires_at_ms)

    pub accept_bundle-cases : (s : State api) → ((accepted s).state ≡ s) ⊎ Hosted s
    unfolding accept_bundle saturating_add
    accept_bundle-cases s = elim (Option-cases (existing s)) [
      | inr (reply, e) ↦ inl (rw (e, accept_bundle) refl)
      | inl e ↦ elim (Bool-cases (leb max_bundles (hosted_count api.state_api s))) [
        | inl full ↦ inl (rw (e, full, accept_bundle) refl)
        | inr room ↦
            elim (Bool-cases (
              ltb max_total_bundle_bytes
                (saturating_add s.total_bundle_bytes (length ciphertext)))) [
                  | inl over ↦ inl (rw (e, room, over, accept_bundle) refl)
                  | inr fits ↦ inr (record {
                    dead = e;
                    room = ground (arith, room);
                    fits = ground (arith, fits);
                    done = rw (e, room, fits, accept_bundle) refl;
                  })
                ]
      ]
    ]

    pub upload_bundle-cases :
        (pow : Option Text) (s : State api)
        → ((upload_bundle api inp request_id bundle_id ciphertext expires_at_ms pow session s).state
            ≡ s)
          ⊎ (upload_bundle api inp request_id bundle_id ciphertext expires_at_ms pow session s
              ≡ accepted (prune_expired_bundles api.state_api inp.prune_ms s))
    unfolding upload_bundle
    upload_bundle-cases pow s =
        elim (Bool-cases
          (not (valid_bundle_id bundle_id) || ltb max_bundle_bytes (length ciphertext))) [
            | inl bad ↦ inl (rw (bad, upload_bundle) refl)
            | inr good ↦ elim (Bool-cases (pow_passes api.sha256 inp.pow_secs bundle_id pow)) [
              | inr unproved ↦ inl (rw (good, unproved, upload_bundle) refl)
              | inl proved ↦ inr (rw (good, proved, upload_bundle) refl)
            ]
          ]

    -- No upload takes a live bundle away or replaces it, under its own id or another's: what has not
    -- expired at the handler's readings of the clock is still there, as it was.
    pub upload_bundle-keeps_live :
        (pow : Option Text) (s : State api) (id : Text) (b : HostedBundle)
        → TableApi.get bundle_map s.bundles id ≡ some b
        → inp.prune_ms < b.expires_at_ms
        → inp.now_ms < b.expires_at_ms
        → TableApi.get bundle_map
            (upload_bundle api inp request_id bundle_id ciphertext expires_at_ms pow session
              s).state.bundles
            id
          ≡ some b
    upload_bundle-keeps_live pow s id b here unpruned live =
        let pruned = prune_expired_bundles api.state_api inp.prune_ms s in
        let kept = prune_expired_bundles-keeps api.state_api inp.prune_ms s id b here unpruned in
        elim (upload_bundle-cases pow s) [
          | inl same ↦ rw same here
          | inr done ↦ rw done (elim (accept_bundle-cases pruned) [
            | inl same ↦ rw same kept
            | inr h ↦ rw h.done (
                host-get new_bundle pruned id ∙ elim (Bool-cases (text_eq bundle_id id)) [
                  | inr away ↦ rw away kept
                  | inl own ↦
                      let gone =
                        existing_reply-dead inp.now_ms request_id bundle_id ciphertext _ h.dead b (
                          ap (TableApi.get bundle_map pruned.bundles)
                            ((text_eq_iff bundle_id id).0 own)
                          ∙ kept) in
                      absurd (omega arith)
                ])
          ])
        ]

    -- Where the byte total is that of the hosted bundles, each stands under its id, and both caps
    -- hold, an upload keeps it so, accepted or refused.
    pub upload_bundle-IsHosted :
        (pow : Option Text) (s : State api)
        → IsHosted api.state_api s
        → IsHosted api.state_api
            (upload_bundle api inp request_id bundle_id ciphertext expires_at_ms pow session
              s).state
    upload_bundle-IsHosted pow s v =
        let pruned = prune_expired_bundles api.state_api inp.prune_ms s in
        let v' = prune_expired_bundles-IsHosted api.state_api inp.prune_ms s v in
        elim (upload_bundle-cases pow s) [
          | inl same ↦ rw same v
          | inr done ↦ rw done (elim (accept_bundle-cases pruned) [
            | inl same ↦ rw same v'
            | inr h ↦ rw h.done (host-IsHosted new_bundle pruned v' h.room h.fits)
          ])
        ]
