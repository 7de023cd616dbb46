-- ===== src/Relay/Invariant.antt =====
-- What holds in every state that the relay reaches.
use axeno_relay.Prelude.{
  ℕ, ◌+◌, ◌≤◌, ◌≡◌, inl, inr, refl, sym, ap, ◌∙◌, true, ◌&&◌, Option, none, some, List, [], ◌∷◌,
  ◌++◌, arith, Bool-cases, Option-cases, Result-cases, Text, leb, length, length-append, is_some,
  DbCall, wrap_add, wrap_sub, wrap_add-eq_of_lt, wrap_sub-eq_of_le,
}
use axeno_relay.Config.{max_connections}
use axeno_relay.Table.{TableApi}
use axeno_relay.State.Runtime.{
  mark_auth_dirty, keys, drain_auth, drain_bundles, flush_dirty_auth, flush_dirty_bundles,
  flush_dirty_meta, gc_idle_mailboxes, collect_stale, collect_mailbox, may_collect, stale_mailboxes,
}
use axeno_relay.Ws.Session.{WsApi, State}
use axeno_relay.Ws.Connection.{Session, is_channel, open_socket, close_socket}
use axeno_relay.Ws.Registry.{IsSound, Agrees, Agrees-IsSound, removed-IsSound}
use axeno_relay.Ws.Soundness.{IsFair, Agrees-IsFair, same-IsFair, IsFair-trans, handle_text-IsFair}
use axeno_relay.Relay.Tasks.{
  is_clean, meta_flush_tick, mailbox_gc_tick, queue_sweep_tick, file_sweep_tick,
}
use axeno_relay.Relay.Steps.{Relay, Step, Reaches}

module _ (api : WsApi) where
  open api.state_api use {marks, auths, channels, queue_api, file_api}

  drain_auth-IsFair :
      (ks : List Text) (s : State api) → IsFair api s (drain_auth api.state_api ks s).1
  unfolding drain_auth
  drain_auth-IsFair [] s = same-IsFair api s _ refl
  drain_auth-IsFair (k ∷ ks) s =
      IsFair-trans api s _ _
        (Agrees-IsFair api s _
          (record { auths_eq = refl; count_eq = refl; bundles_eq = refl; bytes_eq = refl }) refl)
        (drain_auth-IsFair ks _)

  drain_bundles-IsFair :
      (ks : List Text) (s : State api) → IsFair api s (drain_bundles api.state_api ks s).1
  unfolding drain_bundles
  drain_bundles-IsFair [] s = same-IsFair api s _ refl
  drain_bundles-IsFair (k ∷ ks) s =
      IsFair-trans api s _ _
        (Agrees-IsFair api s _
          (record { auths_eq = refl; count_eq = refl; bundles_eq = refl; bytes_eq = refl }) refl)
        (drain_bundles-IsFair ks _)

  flush_dirty_auth-IsFair :
      (fault : Option DbCall) (s : State api)
      → IsFair api s (flush_dirty_auth api.state_api fault s).1
  unfolding flush_dirty_auth
  flush_dirty_auth-IsFair fault s =
      IsFair-trans api s _ _
        (drain_auth-IsFair (keys api.state_api (TableApi.entries marks s.dirty_auth)) s)
        (Agrees-IsFair api _ _
          (record { auths_eq = refl; count_eq = refl; bundles_eq = refl; bytes_eq = refl }) refl)

  flush_dirty_bundles-IsFair :
      (fault : Option DbCall) (s : State api)
      → IsFair api s (flush_dirty_bundles api.state_api fault s).1
  unfolding flush_dirty_bundles
  flush_dirty_bundles-IsFair fault s =
      IsFair-trans api s _ _
        (drain_bundles-IsFair (keys api.state_api (TableApi.entries marks s.dirty_bundles)) s)
        (Agrees-IsFair api _ _
          (record { auths_eq = refl; count_eq = refl; bundles_eq = refl; bytes_eq = refl }) refl)

  flush_dirty_meta-IsFair :
      (a b : Option DbCall) (s : State api) → IsFair api s (flush_dirty_meta api.state_api a b s).1
  unfolding flush_dirty_meta
  flush_dirty_meta-IsFair a b s =
      let first = flush_dirty_auth-IsFair a s in
      elim (Result-cases (flush_dirty_auth api.state_api a s).0) [
        | inl (e, failed) ↦ rw (failed, flush_dirty_meta) first
        | inr (u, done) ↦
            rw (done, flush_dirty_meta)
              (IsFair-trans api s _ _ first (flush_dirty_bundles-IsFair b _))
      ]

  collect_mailbox-IsFair :
      (fault : Option DbCall) (rid : Text) (s : State api)
      → is_some (TableApi.get auths s.mailbox_auth rid) ≡ true
      → IsFair api s (collect_mailbox api.state_api fault rid s)
  unfolding collect_mailbox mark_auth_dirty
  collect_mailbox-IsFair fault rid s there = record {
    sound = removed-IsSound api rid s _ there refl refl refl refl;
    conns = refl;
  }

  collect_stale-IsFair :
      (fault : Option DbCall) (now : ℕ) (rids : List Text) (s : State api)
      → IsFair api s (collect_stale api.state_api fault now rids s)
  unfolding collect_stale
  collect_stale-IsFair fault now [] s = same-IsFair api s _ refl
  collect_stale-IsFair fault now (rid ∷ rids) s =
      elim (Bool-cases (may_collect api.state_api now s rid)) [
        | inr e ↦ rw e (collect_stale-IsFair fault now rids s)
        | inl e ↦ elim (Option-cases (TableApi.get auths s.mailbox_auth rid)) [
          | inl absent ↦ absurd (ground (arith, e, absent))
          | inr (auth, here) ↦ rw e (
              IsFair-trans api s _ _ (collect_mailbox-IsFair fault rid s (rw here refl))
                (collect_stale-IsFair fault now rids (collect_mailbox api.state_api fault rid s)))
        ]
      ]

  meta_flush_tick-IsFair :
      (a b : Option DbCall) (s : State api) → IsFair api s (meta_flush_tick api.state_api a b s)
  unfolding meta_flush_tick
  meta_flush_tick-IsFair a b s =
      let clean =
        is_clean api.state_api (TableApi.entries marks s.dirty_auth)
        && is_clean api.state_api (TableApi.entries marks s.dirty_bundles) in
      elim (Bool-cases clean) [
        | inl idle ↦ rw (idle, meta_flush_tick) (same-IsFair api s _ refl)
        | inr due ↦ rw (due, meta_flush_tick) (flush_dirty_meta-IsFair a b s)
      ]

  mailbox_gc_tick-IsFair :
      (fault : Option DbCall) (now : ℕ) (snapshot s : State api)
      → IsFair api s (mailbox_gc_tick api.state_api fault now snapshot s)
  unfolding mailbox_gc_tick gc_idle_mailboxes
  mailbox_gc_tick-IsFair fault now snapshot s =
      collect_stale-IsFair fault now (stale_mailboxes api.state_api fault now snapshot) s

  sweeps-IsFair :
      (fault : Option DbCall) (faults : List (Option DbCall)) (now : ℕ) (s : State api)
      → IsFair api s (queue_sweep_tick api.state_api fault now s)
        × IsFair api s (file_sweep_tick api.state_api faults now s)
  unfolding queue_sweep_tick file_sweep_tick
  sweeps-IsFair fault faults now s = (
    Agrees-IsFair api s _
        (record { auths_eq = refl; count_eq = refl; bundles_eq = refl; bytes_eq = refl }) refl,
    Agrees-IsFair api s _
        (record { auths_eq = refl; count_eq = refl; bundles_eq = refl; bytes_eq = refl }) refl,
  )

  -- The connection counter is the number of open sockets, within the cap, and the mailboxes and the
  -- bundles are as `IsSound` says.
  pub record IsWell (r : Relay api) : Type 0 where
    pub sound : IsSound api r.state
    pub counted : r.state.conn_count ≡ length r.sockets
    pub capped : r.state.conn_count ≤ max_connections

  fair-IsWell :
      (r : Relay api) (s : State api) (sockets : List (ℕ × Session api))
      → IsFair api r.state s
      → length sockets ≡ length r.sockets
      → IsWell r
      → IsWell (record { state = s; sockets = sockets })
  fair-IsWell r s sockets f e w = record {
    sound = f.sound w.sound;
    counted = f.conns ∙ w.counted ∙ sym e;
    capped = rw f.conns w.capped;
  }

  middle :
      (before after : List (ℕ × Session api)) (x : ℕ × Session api)
      → length (before ++ x ∷ after) ≡ length (before ++ after) + 1
  middle before after x =
      omega (arith, length-append before (x ∷ after), length-append before after)

  opened-IsWell :
      (r : Relay api) (now me : ℕ) (session : Session api) (s : State api)
      → open_socket api now r.state ≡ (some session, s)
      → IsWell r
      → IsWell (record { state = s; sockets = (me, session) ∷ r.sockets })
  unfolding open_socket
  opened-IsWell r now me session s = elim (Bool-cases (leb max_connections r.state.conn_count)) [
    | inl full ↦ rw (full, open_socket) (λ h w. absurd cc)
    | inr room ↦
        rw (room, open_socket)
          (λ h w.
            let up = wrap_add-eq_of_lt r.state.conn_count 1 (omega (arith, w.capped)) in
            let state_eq = ap (λ x. x.1) h in
            let count = sym (ap (λ x. x.conn_count) state_eq) ∙ up in
            record {
              sound =
                  Agrees-IsSound api r.state s
                    (record {
                      auths_eq = sym (ap (λ x. x.mailbox_auth) state_eq);
                      count_eq = sym (ap (λ x. x.mailbox_count) state_eq);
                      bundles_eq = sym (ap (λ x. x.bundles) state_eq);
                      bytes_eq = sym (ap (λ x. x.total_bundle_bytes) state_eq);
                    })
                    w.sound;
              counted = omega (arith, count, w.counted);
              capped = ground (arith, count, room);
            })
  ]

  turned_away-IsWell :
      (r : Relay api) (now : ℕ) (s : State api)
      → open_socket api now r.state ≡ (none, s)
      → IsWell r
      → IsWell (record { state = s; sockets = r.sockets })
  unfolding open_socket wrap_sub wrap_add
  turned_away-IsWell r now s = elim (Bool-cases (leb max_connections r.state.conn_count)) [
    | inr room ↦ rw (room, open_socket) (λ h w. absurd cc)
    | inl full ↦
        rw (full, open_socket)
          (λ h w.
            let state_eq = ap (λ x. x.1) h in
            let count : s.conn_count ≡ r.state.conn_count =
              sym (ap (λ x. x.conn_count) state_eq) ∙ omega (arith, w.capped) in
            fair-IsWell r s r.sockets
              (Agrees-IsFair api r.state s
                (record {
                  auths_eq = sym (ap (λ x. x.mailbox_auth) state_eq);
                  count_eq = sym (ap (λ x. x.mailbox_count) state_eq);
                  bundles_eq = sym (ap (λ x. x.bundles) state_eq);
                  bytes_eq = sym (ap (λ x. x.total_bundle_bytes) state_eq);
                })
                count)
              refl w)
  ]

  -- What the closing of a socket leaves as it was.
  close_socket-Agrees :
      (me : ℕ) (session : Session api) (s : State api)
      → Agrees api s (close_socket api me session s)
        × ((close_socket api me session s).conn_count ≡ wrap_sub s.conn_count 1)
  unfolding close_socket
  close_socket-Agrees me session s = elim (Option-cases session.recipient_id) [
    | inl e ↦
        rw (e, close_socket)
          (record { auths_eq = refl; count_eq = refl; bundles_eq = refl; bytes_eq = refl }, refl)
    | inr (rid, e) ↦ elim (Bool-cases (is_channel api me (TableApi.get channels s.online rid))) [
      | inl mine ↦
          rw (e, mine, close_socket)
            (record { auths_eq = refl; count_eq = refl; bundles_eq = refl; bytes_eq = refl }, refl)
      | inr other ↦
          rw (e, other, close_socket)
            (record { auths_eq = refl; count_eq = refl; bundles_eq = refl; bytes_eq = refl }, refl)
    ]
  ]

  left-IsWell :
      (r : Relay api) (me : ℕ) (session : Session api) (before after : List (ℕ × Session api))
      (x : ℕ × Session api) (s : State api)
      → r.sockets ≡ before ++ x ∷ after
      → IsFair api r.state s
      → IsWell r
      → IsWell (record { state = close_socket api me session s; sockets = before ++ after })
  left-IsWell r me session before after x s e f w =
      let (same, down) = close_socket-Agrees me session s in
      let sizes = ap length e ∙ middle before after x in
      let gone =
        wrap_sub-eq_of_le r.state.conn_count 1 (omega (arith, w.counted))
          (omega (arith, w.capped)) in
      let count = down ∙ ap (λ n. wrap_sub n 1) f.conns ∙ gone in
      record {
        sound = Agrees-IsSound api s _ same (f.sound w.sound);
        counted = omega (arith, count, w.counted);
        capped = omega (arith, count, w.capped);
      }

  Step-IsWell : (r t : Relay api) → Step api r t → IsWell r → IsWell t
  Step-IsWell r _ (Step.opened me now session s e) w = opened-IsWell r now me session s e w
  Step-IsWell r _ (Step.turned_away now s e) w = turned_away-IsWell r now s e w
  Step-IsWell r _ (Step.received inp me text session before after e goes_on) w =
      fair-IsWell r _ _ (handle_text-IsFair api inp me text session r.state)
        (middle before after _ ∙ sym (middle before after (me, session)) ∙ sym (ap length e)) w
  Step-IsWell r _ (Step.retired inp me text session before after e stopped) w =
      left-IsWell r me _ before after (me, session) _ e
        (handle_text-IsFair api inp me text session r.state) w
  Step-IsWell r _ (Step.closed me session before after e) w =
      left-IsWell r me session before after (me, session) r.state e (same-IsFair api r.state _ refl)
        w
  Step-IsWell r _ (Step.flushed a b) w =
      fair-IsWell r _ _ (meta_flush_tick-IsFair a b r.state) refl w
  Step-IsWell r _ (Step.collected fault now snapshot) w =
      fair-IsWell r _ _ (mailbox_gc_tick-IsFair fault now snapshot r.state) refl w
  Step-IsWell r _ (Step.swept_queues fault now) w =
      fair-IsWell r _ _ (sweeps-IsFair fault [] now r.state).0 refl w
  Step-IsWell r _ (Step.swept_files faults now) w =
      fair-IsWell r _ _ (sweeps-IsFair none faults now r.state).1 refl w

  -- In every state that the relay reaches, through any sequence of connections, messages and
  -- background tasks, the connection counter is the number of open sockets, 16 384 at most; the
  -- mailbox count is the number of mailboxes, 50 000 at most; and the bundle bytes are those of the
  -- hosted bundles, within both bundle caps; given that all of it was so at the start.
  pub Reaches-IsWell : (r t : Relay api) → Reaches api r t → IsWell r → IsWell t
  Reaches-IsWell r _ Reaches.stays w = w
  Reaches-IsWell r t (Reaches.goes before step) w =
      Step-IsWell _ t step (Reaches-IsWell r _ before w)
