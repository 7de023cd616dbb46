-- ===== src/Ws/Registry.antt =====
-- What the frames of src/ws.rs keep true of the mailboxes and of the bundles: the counters agree with
-- the tables, and the caps hold.
use axeno_relay.Prelude.{
  ℕ, ◌≤◌, ◌<◌, ◌≡◌, inl, inr, refl, sym, ap, ◌∙◌, true, none, arith, Option-cases, Text, is_some,
  wrap_add, wrap_sub, wrap_add-eq_of_lt, wrap_sub-eq_of_le,
}
use axeno_relay.Config.{max_mailboxes}
use axeno_relay.Table.{TableApi, total, total-insert, total-remove, share}
use axeno_relay.State.Tokens.{MailboxAuth}
use axeno_relay.State.Runtime.{mark_auth_dirty}
use axeno_relay.State.Runtime.Pruning.{IsHosted}
use axeno_relay.Ws.Session.{WsApi, State, Inputs}
use axeno_relay.Ws.Mailbox.{retire_state}

module _ (api : WsApi) where
  open api.state_api use {auths}

  -- The mailbox count is the number of mailboxes and within the cap, and the bundles are as
  -- `IsHosted` says.
  pub record IsSound (s : State api) : Type 0 where
    pub counted : s.mailbox_count ≡ total auths (λ e. 1) s.mailbox_auth
    pub capped : s.mailbox_count ≤ max_mailboxes
    pub hosted : IsHosted api.state_api s

  -- A change that leaves the mailboxes, the bundles and their counters alone.
  pub record Agrees (s t : State api) : Type 0 where
    pub auths_eq : t.mailbox_auth ≡ s.mailbox_auth
    pub count_eq : t.mailbox_count ≡ s.mailbox_count
    pub bundles_eq : t.bundles ≡ s.bundles
    pub bytes_eq : t.total_bundle_bytes ≡ s.total_bundle_bytes

  same-IsHosted :
      (s t : State api) → Agrees s t → IsHosted api.state_api s → IsHosted api.state_api t
  same-IsHosted s t a h = record {
    keyed = rw a.bundles_eq h.keyed;
    total_bytes = rw (a.bytes_eq, a.bundles_eq) h.total_bytes;
    bytes = rw a.bytes_eq h.bytes;
    count = rw a.bundles_eq h.count;
  }

  pub Agrees-IsSound : (s t : State api) → Agrees s t → IsSound s → IsSound t
  Agrees-IsSound s t a v = record {
    counted = a.count_eq ∙ v.counted ∙ ap (total auths (λ e. 1)) (sym a.auths_eq);
    capped = rw a.count_eq v.capped;
    hosted = same-IsHosted s t a v.hosted;
  }

  -- An entry of the mailboxes is set, and their count.
  abbrev entered : Text → MailboxAuth → ℕ → State api → State api
  entered rid auth count s = record s {
    mailbox_auth = TableApi.insert auths s.mailbox_auth rid auth;
    mailbox_count = count;
  }

  entered-Agrees_on_bundles :
      (t : TableApi.Table auths) (count : ℕ) (s : State api)
      → IsHosted api.state_api s
      → IsHosted api.state_api (record s { mailbox_auth = t; mailbox_count = count })
  entered-Agrees_on_bundles t count s h = record {
    keyed = h.keyed;
    total_bytes = h.total_bytes;
    bytes = h.bytes;
    count = h.count;
  }

  pub replaced-IsSound :
      (rid : Text) (auth : MailboxAuth) (s : State api)
      → is_some (TableApi.get auths s.mailbox_auth rid) ≡ true
      → IsSound s
      → IsSound (entered rid auth s.mailbox_count s)
  replaced-IsSound rid auth s there v =
      let parts = total-insert auths (λ e. 1) s.mailbox_auth rid auth in
      elim (Option-cases (TableApi.get auths s.mailbox_auth rid)) [
        | inl e ↦ absurd (ground (arith, e, there))
        | inr (old, e) ↦
            let one = ap (share (λ e. 1) rid) e in
            record {
              counted = omega (arith, v.counted);
              capped = v.capped;
              hosted = entered-Agrees_on_bundles _ _ s v.hosted;
            }
      ]

  pub added-IsSound :
      (rid : Text) (auth : MailboxAuth) (s : State api)
      → TableApi.get auths s.mailbox_auth rid ≡ none
      → s.mailbox_count < max_mailboxes
      → IsSound s
      → IsSound (entered rid auth (wrap_add s.mailbox_count 1) s)
  added-IsSound rid auth s fresh room v =
      let parts = total-insert auths (λ e. 1) s.mailbox_auth rid auth in
      let none_there = ap (share (λ e. 1) rid) fresh in
      let up = wrap_add-eq_of_lt s.mailbox_count 1 (omega arith) in
      record {
        counted = omega (arith, v.counted);
        capped = omega arith;
        hosted = entered-Agrees_on_bundles _ _ s v.hosted;
      }

  pub removed-IsSound :
      (rid : Text) (s t : State api)
      → is_some (TableApi.get auths s.mailbox_auth rid) ≡ true
      → t.mailbox_auth ≡ TableApi.remove auths s.mailbox_auth rid
      → t.mailbox_count ≡ wrap_sub s.mailbox_count 1
      → t.bundles ≡ s.bundles
      → t.total_bundle_bytes ≡ s.total_bundle_bytes
      → IsSound s
      → IsSound t
  removed-IsSound rid s t there auths_eq count_eq bundles_eq bytes_eq v =
      let parts = total-remove auths (λ e. 1) s.mailbox_auth rid in
      let lost = ap (total auths (λ e. 1)) auths_eq in
      let down = wrap_sub-eq_of_le s.mailbox_count 1 in
      elim (Option-cases (TableApi.get auths s.mailbox_auth rid)) [
        | inl e ↦ absurd (ground (arith, e, there))
        | inr (old, e) ↦
            let one = ap (share (λ e. 1) rid) e in
            let less = down (omega (arith, v.counted)) (omega (arith, v.capped)) in
            record {
              counted = omega (arith, v.counted);
              capped = omega (arith, v.capped);
              hosted = record {
                keyed = rw bundles_eq v.hosted.keyed;
                total_bytes = rw (bytes_eq, bundles_eq) v.hosted.total_bytes;
                bytes = rw bytes_eq v.hosted.bytes;
                count = rw bundles_eq v.hosted.count;
              };
            }
      ]

  absent_remove-IsSound :
      (rid : Text) (s t : State api)
      → TableApi.get auths s.mailbox_auth rid ≡ none
      → t.mailbox_auth ≡ TableApi.remove auths s.mailbox_auth rid
      → t.mailbox_count ≡ s.mailbox_count
      → t.bundles ≡ s.bundles
      → t.total_bundle_bytes ≡ s.total_bundle_bytes
      → IsSound s
      → IsSound t
  absent_remove-IsSound rid s t absent auths_eq count_eq bundles_eq bytes_eq v =
      let parts = total-remove auths (λ e. 1) s.mailbox_auth rid in
      let lost = ap (total auths (λ e. 1)) auths_eq in
      let nothing = ap (share (λ e. 1) rid) absent in
      record {
        counted = omega (arith, v.counted);
        capped = omega (arith, v.capped);
        hosted = record {
          keyed = rw bundles_eq v.hosted.keyed;
          total_bytes = rw (bytes_eq, bundles_eq) v.hosted.total_bytes;
          bytes = rw bytes_eq v.hosted.bytes;
          count = rw bundles_eq v.hosted.count;
        };
      }

  pub retired-IsSound :
      (inp : Inputs api) (rid : Text) (s : State api)
      → IsSound s
      → IsSound (retire_state api inp rid s)
  unfolding retire_state mark_auth_dirty
  retired-IsSound inp rid s v =
      let t = retire_state api inp rid s in
      elim (Option-cases (TableApi.get auths s.mailbox_auth rid)) [
        | inl e ↦ absent_remove-IsSound rid s t e refl (rw e refl) refl refl v
        | inr (old, e) ↦ removed-IsSound rid s t (rw e refl) refl (rw e refl) refl refl v
      ]
