-- ===== src/Ws/Redeem.antt =====
-- An invite bundle that src/ws.rs took is the one that it hands out.
use axeno_relay.Prelude.{
  ℕ, ◌<◌, ◌≡◌, inl, inr, refl, ◌∙◌, true, not, ◌||◌, Option, none, some, [], ◌∷◌, arith, Bool-cases,
  Option-cases, Text, text_eq, text_eq_iff, text_eq_refl, ltb, leb, length, saturating_add,
}
use axeno_relay.Config.{max_bundles, max_bundle_bytes, max_total_bundle_bytes}
use axeno_relay.Protocol.{bundle_uploaded, bundle}
use axeno_relay.Table.{TableApi}
use axeno_relay.Util.{valid_bundle_id}
use axeno_relay.State.Bundle.{HostedBundle}
use axeno_relay.State.Runtime.{prune_expired_bundles}
use axeno_relay.State.Runtime.Pruning.{IsHosted, hosted_count, prune_expired_bundles-keeps}
use axeno_relay.Ws.Files.{pow_passes}
use axeno_relay.Ws.Session.{WsApi, State, Inputs, Handled}
use axeno_relay.Ws.Hosting.{existing_reply, accept_bundle, upload_bundle, fetch_bundle}
use axeno_relay.Ws.Invites.{host-get, accepted, new_bundle, upload_bundle-IsHosted}

module _ (api : WsApi) where
  open api.state_api use {bundle_map}

  module _ (inp : Inputs api) (request_id bundle_id ciphertext : Text) (expires_at_ms : ℕ)
      (session : Option Text) where
    abbrev Stored : ℕ → Option HostedBundle → Type 0
    Stored expires o =
        (b : HostedBundle) × (o ≡ some b)
        × (b.ciphertext ≡ ciphertext)
        × (b.expires_at_ms ≡ expires)

    existing_reply-uploaded :
        (o : Option HostedBundle) (r i : Text) (expires : ℕ)
        → existing_reply api inp.now_ms request_id bundle_id ciphertext o
          ≡ some (bundle_uploaded r i expires)
        → Stored expires o
    unfolding existing_reply
    existing_reply-uploaded none r i expires = λ h. absurd cc
    existing_reply-uploaded (some b) r i expires =
        elim (Bool-cases (leb b.expires_at_ms inp.now_ms)) [
          | inl old ↦ rw old (λ h. absurd cc)
          | inr live ↦ rw live (elim (Bool-cases (text_eq b.ciphertext ciphertext)) [
            | inl same ↦ rw same (λ h. (b, refl, (text_eq_iff b.ciphertext ciphertext).0 same, cc))
            | inr other ↦ rw other (λ h. absurd cc)
          ])
        ]

    abbrev mine : State api → Handled api
    mine s = accepted api inp request_id bundle_id ciphertext expires_at_ms session s

    accept_bundle-uploaded :
        (s : State api) (r i : Text) (expires : ℕ)
        → (mine s).replies ≡ bundle_uploaded r i expires ∷ []
        → Stored expires (TableApi.get bundle_map (mine s).state.bundles bundle_id)
    unfolding accept_bundle
    accept_bundle-uploaded s r i expires =
        let found =
          existing_reply api inp.now_ms request_id bundle_id ciphertext
            (TableApi.get bundle_map s.bundles bundle_id) in
        elim (Option-cases found) [
          | inr (reply, e) ↦
              rw (e, accept_bundle)
                (λ h.
                  existing_reply-uploaded (TableApi.get bundle_map s.bundles bundle_id) r i expires
                    (e ∙ cc))
          | inl e ↦ elim (Bool-cases (leb max_bundles (hosted_count api.state_api s))) [
            | inl full ↦ rw (e, full, accept_bundle) (λ h. absurd cc)
            | inr room ↦
                elim (Bool-cases (
                  ltb max_total_bundle_bytes
                    (saturating_add s.total_bundle_bytes (length ciphertext)))) [
                      | inl over ↦ rw (e, room, over, accept_bundle) (λ h. absurd cc)
                      | inr fits ↦
                          rw (e, room, fits, accept_bundle)
                            (λ h. (
                              new_bundle api inp request_id bundle_id ciphertext expires_at_ms
                                  session,
                              host-get api _ s bundle_id ∙ rw (text_eq_refl bundle_id) refl,
                              refl,
                              cc,
                            ))
                    ]
          ]
        ]

    abbrev uploaded : Option Text → State api → Handled api
    uploaded pow s =
        upload_bundle api inp request_id bundle_id ciphertext expires_at_ms pow session s

    upload_bundle-uploaded :
        (pow : Option Text) (s : State api) (r i : Text) (expires : ℕ)
        → (uploaded pow s).replies ≡ bundle_uploaded r i expires ∷ []
        → Stored expires (TableApi.get bundle_map (uploaded pow s).state.bundles bundle_id)
    unfolding upload_bundle
    upload_bundle-uploaded pow s r i expires =
        elim (Bool-cases
          (not (valid_bundle_id bundle_id) || ltb max_bundle_bytes (length ciphertext))) [
            | inl bad ↦ rw (bad, upload_bundle) (λ h. absurd cc)
            | inr good ↦ elim (Bool-cases (pow_passes api.sha256 inp.pow_secs bundle_id pow)) [
              | inr unproved ↦ rw (good, unproved, upload_bundle) (λ h. absurd cc)
              | inl proved ↦
                  rw (good, proved, upload_bundle)
                    (accept_bundle-uploaded (prune_expired_bundles api.state_api inp.prune_ms s) r i
                      expires)
            ]
          ]

    -- Once an upload was answered with BundleUploaded, the first one or a resend, a fetch of the id
    -- is answered with the uploaded ciphertext and the expiry of the reply until then, whether the
    -- fetch prunes or not, given that every hosted bundle stood under its id within the caps.
    pub fetch_bundle-upload_bundle :
        (pow : Option Text) (s : State api) (r i : Text) (expires : ℕ)
        → IsHosted api.state_api s
        → (uploaded pow s).replies ≡ bundle_uploaded r i expires ∷ []
        → (later : Inputs api) (asked : Text) (session' : Option Text) → later.prune_ms < expires
        → later.now_ms < expires
        → (fetch_bundle api later asked bundle_id session' (uploaded pow s).state).replies
          ≡ bundle asked bundle_id ciphertext expires ∷ []
    unfolding fetch_bundle
    fetch_bundle-upload_bundle pow s r i expires v done later asked session' unpruned live =
        let (b, here, same, until) = upload_bundle-uploaded pow s r i expires done in
        let v' =
          upload_bundle-IsHosted api inp request_id bundle_id ciphertext expires_at_ms session pow s
            v in
        let key = v'.keyed bundle_id b here in
        let kept =
          prune_expired_bundles-keeps api.state_api later.prune_ms (uploaded pow s).state bundle_id
            b here (omega arith) in
        let still : ltb later.now_ms b.expires_at_ms ≡ true = ground (arith, until, live) in
        rw (kept, still) (λ i. bundle asked (key i) (same i) (until i) ∷ [])
