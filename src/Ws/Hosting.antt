-- ===== src/Ws/Hosting.antt =====
-- The UploadBundle and FetchBundle frames of src/ws.rs.
use axeno_relay.Prelude.{
  ℕ, not, ◌||◌, Option, none, some, [], ltb, leb, if◌then◌else◌, length, Text, text_eq, str,
  saturating_add, wrap_add, min, max,
}
use axeno_relay.Config.{max_bundle_bytes, max_bundles, max_total_bundle_bytes, max_bundle_ttl_ms}
use axeno_relay.Protocol.{bundle_uploaded, bundle, err_frame}
use axeno_relay.Table.{TableApi}
use axeno_relay.Util.{atomic_sub_saturating, valid_bundle_id}
use axeno_relay.State.Bundle.{HostedBundle}
use axeno_relay.State.Runtime.{prune_expired_bundles, mark_bundle_dirty}
use axeno_relay.Ws.Files.{pow_passes}
use axeno_relay.Ws.Session.{WsApi, Frame, State, Inputs, Handled, answer}

-- When a bundle that asks for `expires_at_ms` expires: between a minute and thirty days from now.
unfoldable pub bundle_expiry : ℕ → ℕ → ℕ
bundle_expiry now expires_at_ms =
    max (min expires_at_ms (saturating_add now max_bundle_ttl_ms)) (saturating_add now 60_000)

module _ (api : WsApi) where
  open api.state_api use {bundle_map}

  -- The reply where a live bundle has the id already: success for a resend, and an error otherwise.
  unfoldable pub existing_reply : ℕ → Text → Text → Text → Option HostedBundle → Option (Frame api)
  existing_reply now request_id bundle_id ciphertext none = none
  existing_reply now request_id bundle_id ciphertext (some existing) =
      if leb existing.expires_at_ms now
      then none
      else if text_eq existing.ciphertext ciphertext
      then some (bundle_uploaded request_id bundle_id existing.expires_at_ms)
      else some
          (err_frame (str "bundle_exists") (str "an invite bundle with this id already exists"))

  -- The bytes without those of the bundle that an insert replaced.
  abbrev without_old : Option HostedBundle → ℕ → ℕ
  without_old none bytes = bytes
  without_old (some old) bytes = atomic_sub_saturating [] bytes (length old.ciphertext)

  unfoldable pub host : HostedBundle → State api → State api
  host hosted s =
      let old = TableApi.get bundle_map s.bundles hosted.id in
      mark_bundle_dirty api.state_api hosted.id (record s {
        bundles = TableApi.insert bundle_map s.bundles hosted.id hosted;
        total_bundle_bytes =
            wrap_add (without_old old s.total_bundle_bytes) (length hosted.ciphertext);
      })

  -- The part after the pruning.
  unfoldable pub accept_bundle :
      Inputs api → Text → Text → Text → ℕ → Option Text → State api → Handled api
  unfolding existing_reply host bundle_expiry
  accept_bundle inp request_id bundle_id ciphertext expires_at_ms session s =
      let expires = bundle_expiry inp.expiry_ms expires_at_ms in
      elim (existing_reply inp.now_ms request_id bundle_id ciphertext
        (TableApi.get bundle_map s.bundles bundle_id)) [
          | some reply ↦ answer api session s reply
          | none ↦
              if leb max_bundles (length (TableApi.entries bundle_map s.bundles))
              then answer api session s
                  (err_frame (str "relay_full") (str "relay invite bundle limit reached"))
              else if ltb max_total_bundle_bytes
                  (saturating_add s.total_bundle_bytes (length ciphertext))
              then answer api session s
                  (err_frame (str "relay_full") (str "relay invite bundle storage limit reached"))
              else answer api session
                  (host
                    (record {
                      id = bundle_id;
                      ciphertext = ciphertext;
                      created_at_ms = inp.expiry_ms;
                      expires_at_ms = expires;
                    })
                    s)
                  (bundle_uploaded request_id bundle_id expires)
        ]

  unfoldable pub upload_bundle :
      Inputs api → Text → Text → Text → ℕ → Option Text → Option Text → State api → Handled api
  unfolding accept_bundle
  upload_bundle inp request_id bundle_id ciphertext expires_at_ms pow session s =
      if not (valid_bundle_id bundle_id) || ltb max_bundle_bytes (length ciphertext)
      then answer api session s (err_frame (str "bad_bundle") (str "invalid invite bundle"))
      else if not (pow_passes api.sha256 inp.pow_secs bundle_id pow)
      then answer api session s
          (err_frame (str "bad_pow") (str "invalid proof of work for invite bundle upload"))
      else accept_bundle inp request_id bundle_id ciphertext expires_at_ms session
          (prune_expired_bundles api.state_api inp.prune_ms s)

  abbrev not_found : Frame api
  not_found = err_frame (str "bundle_not_found") (str "invite bundle was not found or has expired")

  abbrev pub found_bundle : ℕ → Text → Option HostedBundle → Frame api
  found_bundle now request_id none = not_found
  found_bundle now request_id (some b) =
      if ltb now b.expires_at_ms
      then bundle request_id b.id b.ciphertext b.expires_at_ms
      else not_found

  unfoldable pub fetch_bundle : Inputs api → Text → Text → Option Text → State api → Handled api
  fetch_bundle inp request_id bundle_id session s =
      let pruned = prune_expired_bundles api.state_api inp.prune_ms s in
      answer api session pruned
        (found_bundle inp.now_ms request_id (TableApi.get bundle_map pruned.bundles bundle_id))
