-- ===== src/Tests/Sending.antt =====
-- Sends, backlogs and the running relay on concrete mailboxes.
use axeno_relay.Prelude.{
  ℕ, zero, suc, ◌+◌, ◌≤◌, ◌≡◌, ◌⊎◌, inl, inr, refl, Bool, true, false, Option, none, some, List, [],
  ◌∷◌, ◌++◌, arith, Bytes, Text, str, ok, err, u64_mod, drop, sum_by,
}
use axeno_relay.Protocol.{envelope_frame, send_ok}
use axeno_relay.Table.{TableApi, total, lookup}
use axeno_relay.QueueStore.{mailbox_rows, key_for}
use axeno_relay.QueueStore.Invariant.{IsConsistent}
use axeno_relay.QueueStore.Planning.{Fits}
use axeno_relay.QueueStore.Committed.{new_entry}
use axeno_relay.Ws.Session.{State, Frame}
use axeno_relay.Ws.Hello.{hello}
use axeno_relay.Ws.Send.{send_envelope}
use axeno_relay.Ws.Sending.{may_send, posted, send_envelope-needs_token, send_envelope-kept}
use axeno_relay.Ws.Backlog.{send_envelope-reaches_owner}
use axeno_relay.Tests.Crates.{queue_api, empty_queues}
use axeno_relay.Tests.State.{api}
use axeno_relay.Tests.Sockets.{
  ws_api, inputs, carol, owner_token, contact_token, carol_auth, registered,
}

abbrev no_ref : Option Text
no_ref = none

owner_may_not_send :
    may_send ws_api owner_token (TableApi.get api.auths registered.mailbox_auth carol) ≡ false
unfolding lookup axeno_relay.Prelude.text_eq axeno_relay.State.Tokens.accepts_delivery_hash
    axeno_relay.Util.ct_eq axeno_relay.Util.token_hash
owner_may_not_send = refl

send_envelope-needs_token_example :
    ((send_envelope ws_api inputs none carol owner_token (str "m") (str "hi") none registered).state
      ≡ registered)
    × ((send_envelope ws_api inputs none carol owner_token
          (str "m")
          (str "hi")
          none
          registered).live
        ≡ none)
send_envelope-needs_token_example =
    send_envelope-needs_token ws_api inputs none carol owner_token (str "m") (str "hi") none
      registered owner_may_not_send

empty-IsConsistent : IsConsistent queue_api empty_queues
unfolding total sum_by lookup
empty-IsConsistent = record {
  rows = λ k b g. absurd cc;
  unique = λ j k b c v w gj gk dx dw e. absurd cc;
  total_bytes = refl;
  counts = λ m. refl;
  bytes = λ m. refl;
}

empty-Fits : Fits queue_api empty_queues 2
unfolding total sum_by
empty-Fits = record { bytes = omega arith; rows = omega arith; seqs = omega arith }

nothing_there :
    TableApi.get queue_api.db registered.queues.db (key_for queue_api carol inputs.fresh_id) ≡ none
unfolding lookup
nothing_there = refl

is_queued :
    (send_envelope ws_api inputs none carol contact_token
      (str "m")
      (str "hi")
      none
      registered).replies
    ≡ send_ok (str "id1") true none ∷ []
unfolding lookup send_envelope axeno_relay.Util.valid_recipient_id axeno_relay.Prelude.starts_with
    axeno_relay.Util.id_byte axeno_relay.Util.valid_token axeno_relay.Prelude.text_eq
    axeno_relay.State.Tokens.accepts_delivery_hash axeno_relay.Util.ct_eq
    axeno_relay.Util.token_hash axeno_relay.State.Runtime.allow_dest_send
    axeno_relay.Prelude.saturating_sub axeno_relay.QueueStore.would_exceed_global
    axeno_relay.Prelude.saturating_add axeno_relay.State.Runtime.mark_auth_dirty
    axeno_relay.Table.ByList.insert axeno_relay.Util.now_activity_ms axeno_relay.QueueStore.enqueue
    axeno_relay.QueueStore.enqueue_plan axeno_relay.Tests.Crates.encode
    axeno_relay.QueueStore.choose_evicted axeno_relay.QueueStore.write_envelope
    axeno_relay.QueueStore.remove_ids axeno_relay.Prelude.wrap_add axeno_relay.Util.differences
    axeno_relay.Ws.Send.deliver_live axeno_relay.Ws.Send.store_offline
    axeno_relay.QueueStore.account_enqueue axeno_relay.Util.atomic_sub_saturating
    axeno_relay.Table.without
is_queued = refl

send_envelope-kept_example :
    (may_send ws_api contact_token (TableApi.get api.auths registered.mailbox_auth carol) ≡ true)
    × (str "id1" ≡ str "id1")
    × (no_ref ≡ no_ref)
    × ((true ≡ false)
          × ((channel : ℕ) × (TableApi.get api.channels registered.online carol ≡ some channel)
              × ((send_envelope ws_api inputs none carol contact_token
                    (str "m")
                    (str "hi")
                    none
                    registered).live
                  ≡ some (
                    channel,
                    envelope_frame (
                        posted ws_api inputs none carol contact_token
                          (str "m")
                          (str "hi")
                          none
                          registered),
                  )))
        ⊎ (true ≡ true)
          × ((count : ℕ) × (mailbox_rows queue_api
                  (send_envelope ws_api inputs none carol contact_token
                    (str "m")
                    (str "hi")
                    none
                    registered).state.queues.db
                  carol
                ≡ drop count (mailbox_rows queue_api registered.queues.db carol)
                  ++ new_entry queue_api 1000
                      (posted ws_api inputs none carol contact_token
                        (str "m")
                        (str "hi")
                        none
                        registered)
                      registered.queues
                    ∷ [])))
send_envelope-kept_example =
    send_envelope-kept ws_api inputs none carol contact_token (str "m") (str "hi") none registered
      empty-IsConsistent nothing_there empty-Fits (omega arith) (str "id1") true none is_queued

abbrev after_send : State ws_api
after_send =
    (send_envelope ws_api inputs none carol contact_token (str "m") (str "hi") none
      registered).state

abbrev later_auth : axeno_relay.State.Tokens.MailboxAuth
later_auth = record carol_auth { last_active_ms = 86400000 }

carol_is_still_registered : TableApi.get api.auths after_send.mailbox_auth carol ≡ some later_auth
unfolding lookup send_envelope axeno_relay.Util.valid_recipient_id axeno_relay.Prelude.starts_with
    axeno_relay.Util.id_byte axeno_relay.Util.valid_token axeno_relay.Prelude.text_eq
    axeno_relay.State.Tokens.accepts_delivery_hash axeno_relay.Util.ct_eq
    axeno_relay.Util.token_hash axeno_relay.State.Runtime.allow_dest_send
    axeno_relay.Prelude.saturating_sub axeno_relay.QueueStore.would_exceed_global
    axeno_relay.Prelude.saturating_add axeno_relay.State.Runtime.mark_auth_dirty
    axeno_relay.Table.ByList.insert axeno_relay.Util.now_activity_ms axeno_relay.QueueStore.enqueue
    axeno_relay.QueueStore.enqueue_plan axeno_relay.Tests.Crates.encode
    axeno_relay.QueueStore.choose_evicted axeno_relay.QueueStore.write_envelope
    axeno_relay.QueueStore.remove_ids axeno_relay.Prelude.wrap_add axeno_relay.Util.differences
    axeno_relay.Ws.Send.deliver_live axeno_relay.Ws.Send.store_offline
    axeno_relay.QueueStore.account_enqueue axeno_relay.Util.atomic_sub_saturating
    axeno_relay.Table.without
carol_is_still_registered = refl

good_id : axeno_relay.Util.valid_recipient_id carol ≡ true
unfolding axeno_relay.Util.valid_recipient_id axeno_relay.Prelude.starts_with
    axeno_relay.Util.id_byte
good_id = refl

good_owner_token : axeno_relay.Util.valid_token owner_token ≡ true
unfolding axeno_relay.Util.valid_token axeno_relay.Util.id_byte
good_owner_token = refl

good_contact_token : axeno_relay.Util.valid_token contact_token ≡ true
unfolding axeno_relay.Util.valid_token axeno_relay.Util.id_byte
good_contact_token = refl

agreed : axeno_relay.Ws.Hello.select_version none none none ≡ some 7
unfolding axeno_relay.Ws.Hello.select_version
agreed = refl

owned :
    later_auth.receive_auth_hash ≡ axeno_relay.Util.token_hash ws_api.sha256 ws_api.hex owner_token
unfolding axeno_relay.Util.token_hash
owned = refl

send_envelope-reaches_owner_example :
    (before after : List (Frame ws_api)) × ((hello ws_api inputs 3 carol owner_token contact_token
        none none none none false none after_send).replies
      ≡ before
        ++ envelope_frame
            (posted ws_api inputs none carol contact_token (str "m") (str "hi") none registered)
          ∷ after)
send_envelope-reaches_owner_example =
    send_envelope-reaches_owner ws_api inputs none carol contact_token (str "m") (str "hi") none
      registered empty-IsConsistent nothing_there empty-Fits (omega arith) (str "id1") none
      is_queued inputs 3 owner_token contact_token none none none none none after_send later_auth 7
      refl good_id good_owner_token good_contact_token agreed carol_is_still_registered owned refl
      refl
