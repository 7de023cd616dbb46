-- ===== src/State/Runtime/Collection.antt =====
-- The collection of idle mailboxes: whom it spares, and the mailbox count.
use axeno_relay.Prelude.{
  ℕ, ◌<◌, ◌≡◌, ap, true, false, not, ◌&&◌, Option, some, List, [], ◌∷◌, arith, Bool-cases,
  Option-cases, inl, inr, Text, text_eq_iff, DbCall, u64_mod, wrap_sub-eq_of_le,
}
use axeno_relay.Table.{TableApi, total, total-remove, share}
use axeno_relay.State.Tokens.{MailboxAuth}
use axeno_relay.State.Runtime.{
  StateApi, AppState, is_idle, is_online, may_collect, collect_mailbox, collect_stale,
  mark_auth_dirty,
}

module _ (api : StateApi) where
  spared_by_one :
      (fault : Option DbCall) (now : ℕ) (r rid : Text) (s : AppState api) (auth : MailboxAuth)
      → TableApi.get api.auths s.mailbox_auth rid ≡ some auth
      → (is_idle now auth && not (is_online api s rid)) ≡ false
      → may_collect api now s r ≡ true
      → TableApi.get api.auths (collect_mailbox api fault r s).mailbox_auth rid ≡ some auth
  unfolding collect_mailbox mark_auth_dirty
  spared_by_one fault now r rid s auth here active collected =
      ground (arith, TableApi.get-remove api.auths s.mailbox_auth r rid, text_eq_iff r rid)

  -- A mailbox that is online, or active within the idle limit, when the removals run is not
  -- collected, whatever the snapshot was that the stale ids were chosen from.
  pub collect_stale-spares :
      (fault : Option DbCall) (now : ℕ) (rids : List Text) (s : AppState api) (rid : Text)
      (auth : MailboxAuth)
      → TableApi.get api.auths s.mailbox_auth rid ≡ some auth
      → (is_idle now auth && not (is_online api s rid)) ≡ false
      → TableApi.get api.auths (collect_stale api fault now rids s).mailbox_auth rid ≡ some auth
  unfolding collect_stale
  collect_stale-spares fault now [] s rid auth here active = here
  collect_stale-spares fault now (r ∷ rids) s rid auth here active =
      elim (Bool-cases (may_collect api now s r)) [
        | inr e ↦ rw e (collect_stale-spares fault now rids s rid auth here active)
        | inl e ↦ rw e (
            collect_stale-spares fault now rids (collect_mailbox api fault r s) rid auth
              (spared_by_one fault now r rid s auth here active e)
              (unfold collect_mailbox mark_auth_dirty in active))
      ]

  -- The mailbox count is the number of mailboxes.
  pub record IsCounted (s : AppState api) : Type 0 where
    pub counted : s.mailbox_count ≡ total api.auths (λ e. 1) s.mailbox_auth
    pub bounded : s.mailbox_count < u64_mod

  collect_mailbox-IsCounted :
      (fault : Option DbCall) (r : Text) (s : AppState api) (auth : MailboxAuth)
      → TableApi.get api.auths s.mailbox_auth r ≡ some auth
      → IsCounted s
      → IsCounted (collect_mailbox api fault r s)
  unfolding collect_mailbox mark_auth_dirty
  collect_mailbox-IsCounted fault r s auth here v =
      let parts = total-remove api.auths (λ e. 1) s.mailbox_auth r in
      let one = ap (share (λ e. 1) r) here in
      let down = wrap_sub-eq_of_le s.mailbox_count 1 (omega (arith, v.counted)) v.bounded in
      record { counted = omega (arith, v.counted); bounded = omega (arith, v.bounded) }

  -- Where the count that the mailbox cap is checked against is the number of mailboxes, it still is
  -- after the collection.
  pub collect_stale-IsCounted :
      (fault : Option DbCall) (now : ℕ) (rids : List Text) (s : AppState api)
      → IsCounted s
      → IsCounted (collect_stale api fault now rids s)
  unfolding collect_stale
  collect_stale-IsCounted fault now [] s v = v
  collect_stale-IsCounted fault now (r ∷ rids) s v = elim (Bool-cases (may_collect api now s r)) [
    | inr e ↦ rw e (collect_stale-IsCounted fault now rids s v)
    | inl e ↦ elim (Option-cases (TableApi.get api.auths s.mailbox_auth r)) [
      | inl absent ↦ absurd (ground (arith, e, absent))
      | inr (auth, here) ↦ rw e (
          collect_stale-IsCounted fault now rids (collect_mailbox api fault r s)
            (collect_mailbox-IsCounted fault r s auth here v))
    ]
  ]
