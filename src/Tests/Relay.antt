-- ===== src/Tests/Relay.antt =====
-- Bundles, rate windows and the running relay on concrete inputs.
use axeno_relay.Prelude.{
  ℕ, zero, suc, ◌+◌, ◌≤◌, ◌<◌, ◌≡◌, refl, Bool, true, false, Option, none, some, List, [], ◌∷◌,
  ◌++◌, arith, length, Bytes, Text, str, sum_by, min,
}
use axeno_relay.Protocol.{bundle_uploaded, bundle}
use axeno_relay.Table.{TableApi, total, lookup}
use axeno_relay.Table.ByList.{nothing_inside}
use axeno_relay.State.Bundle.{HostedBundle}
use axeno_relay.State.Runtime.Pruning.{IsHosted}
use axeno_relay.Ws.Session.{State}
use axeno_relay.Ws.Hosting.{upload_bundle, fetch_bundle}
use axeno_relay.Ws.Connection.{Session, open_socket, handle_text}
use axeno_relay.Ws.Invites.{upload_bundle-keeps_live}
use axeno_relay.Ws.Redeem.{fetch_bundle-upload_bundle}
use axeno_relay.Ws.Limits.{handled_frames, handled_frames-bounded}
use axeno_relay.Relay.Steps.{Relay, Step, Reaches}
use axeno_relay.Relay.Invariant.{IsWell, Reaches-IsWell}
use axeno_relay.Tests.State.{api}
use axeno_relay.Tests.Sockets.{ws_api, inputs, nonce, unregistered}

abbrev invite : Text
invite = str "invite_0123456789"

abbrev live : HostedBundle
live = record { id = invite; ciphertext = str "one"; created_at_ms = 0; expires_at_ms = 5000 }

abbrev hosting : State ws_api
hosting = record unregistered {
  bundles = record { items = (invite, live) ∷ []; distinct = (nothing_inside invite, tt) };
  total_bundle_bytes = 3;
}

invite_is_live : TableApi.get api.bundle_map hosting.bundles invite ≡ some live
unfolding lookup axeno_relay.Prelude.text_eq
invite_is_live = refl

upload_bundle-keeps_live_example :
    TableApi.get api.bundle_map
      (upload_bundle ws_api inputs
        (str "q")
        invite
        (str "two")
        9000
        (some nonce)
        none
        hosting).state.bundles
      invite
    ≡ some live
upload_bundle-keeps_live_example =
    upload_bundle-keeps_live ws_api inputs (str "q") invite (str "two") 9000 none (some nonce)
      hosting invite live invite_is_live (omega arith) (omega arith)

unregistered-IsHosted : IsHosted api unregistered
unfolding lookup total sum_by
unregistered-IsHosted = record {
  keyed = λ id b h. absurd cc;
  total_bytes = refl;
  bytes = omega arith;
  count = omega arith;
}

invite_is_uploaded :
    (upload_bundle ws_api inputs
      (str "q")
      invite
      (str "two")
      90000
      (some nonce)
      none
      unregistered).replies
    ≡ bundle_uploaded (str "q") invite 90000 ∷ []
unfolding upload_bundle axeno_relay.Util.valid_bundle_id axeno_relay.Util.id_byte
    axeno_relay.Util.verify_pow axeno_relay.Prelude.split_once axeno_relay.Prelude.parse_u64 lookup
    axeno_relay.State.Runtime.prune_expired_bundles axeno_relay.Prelude.saturating_sub
    axeno_relay.Prelude.saturating_add axeno_relay.Util.atomic_sub_saturating
invite_is_uploaded = refl

fetch_bundle-upload_bundle_example :
    (fetch_bundle ws_api inputs
      (str "p")
      invite
      none
      (upload_bundle ws_api inputs
        (str "q")
        invite
        (str "two")
        90000
        (some nonce)
        none
        unregistered).state).replies
    ≡ bundle (str "p") invite (str "two") 90000 ∷ []
fetch_bundle-upload_bundle_example =
    fetch_bundle-upload_bundle ws_api inputs (str "q") invite (str "two") 90000 none (some nonce)
      unregistered (str "q") invite 90000 unregistered-IsHosted invite_is_uploaded inputs (str "p")
      none (omega arith) (omega arith)

handled_frames-bounded_example : min 599 600 + handled_frames (10 ∷ 20 ∷ 30 ∷ []) (5, 599) ≤ 600
handled_frames-bounded_example =
    handled_frames-bounded (10 ∷ 20 ∷ 30 ∷ []) 5 599 (omega arith, (omega arith, (omega arith, tt)))

abbrev idle : Relay ws_api
idle = record { state = unregistered; sockets = [] }

abbrev new_session : Session ws_api
new_session = record { recipient_id = none; window_start_ms = 1000; frame_count = 0 }

abbrev one_open : State ws_api
one_open = record unregistered { conn_count = 1 }

socket_opens : open_socket ws_api 1000 unregistered ≡ (some new_session, one_open)
unfolding open_socket axeno_relay.Prelude.wrap_add
socket_opens = refl

abbrev connected : Relay ws_api
connected = record { state = one_open; sockets = (3, new_session) ∷ [] }

goes_on : (handle_text ws_api inputs 3 (str "hi") new_session one_open).1.stops ≡ false
unfolding handle_text axeno_relay.Prelude.saturating_sub axeno_relay.Ws.Hello.hello
    axeno_relay.Ws.Hello.select_version axeno_relay.Util.valid_recipient_id
    axeno_relay.Prelude.starts_with axeno_relay.Util.id_byte axeno_relay.Util.valid_token lookup
    axeno_relay.Util.verify_pow axeno_relay.Prelude.split_once axeno_relay.Prelude.parse_u64
    axeno_relay.State.Runtime.reserve_mailbox_slot
goes_on = refl

abbrev admitted : Relay ws_api
admitted = record {
  state = (handle_text ws_api inputs 3 (str "hi") new_session one_open).1.state;
  sockets = (3, (handle_text ws_api inputs 3 (str "hi") new_session one_open).0) ∷ [];
}

carol_registers : Reaches ws_api idle admitted
carol_registers =
    Reaches.goes (Reaches.goes Reaches.stays (Step.opened 3 1000 new_session one_open socket_opens))
      (Step.received inputs 3 (str "hi") new_session [] [] refl goes_on)

one_mailbox : admitted.state.mailbox_count ≡ 1
unfolding handle_text axeno_relay.Prelude.saturating_sub axeno_relay.Ws.Hello.hello
    axeno_relay.Ws.Hello.select_version axeno_relay.Util.valid_recipient_id
    axeno_relay.Prelude.starts_with axeno_relay.Util.id_byte axeno_relay.Util.valid_token lookup
    axeno_relay.Util.verify_pow axeno_relay.Prelude.split_once axeno_relay.Prelude.parse_u64
    axeno_relay.State.Runtime.reserve_mailbox_slot axeno_relay.State.Runtime.mark_auth_dirty
    axeno_relay.Prelude.wrap_add
one_mailbox = refl

idle-IsWell : IsWell ws_api idle
unfolding total sum_by
idle-IsWell = record {
  sound = record { counted = refl; capped = omega arith; hosted = unregistered-IsHosted };
  counted = refl;
  capped = omega arith;
}

Reaches-IsWell_example : IsWell ws_api admitted
Reaches-IsWell_example = Reaches-IsWell ws_api idle admitted carol_registers idle-IsWell
