-- ===== src/Tests/Sockets.antt =====
-- The frames of a socket on concrete mailboxes.
use axeno_relay.Prelude.{
  ℕ, zero, suc, ◌+◌, ◌≤◌, ◌≡◌, ◌⊎◌, inl, inr, refl, Bool, true, false, Option, none, some, List, [],
  ◌∷◌, ◌++◌, arith, length, Bytes, Text, str, ok, err, u64_mod,
}
use axeno_relay.Protocol.{ClientFrame, err_frame}
use axeno_relay.Table.{TableApi}
use axeno_relay.Table.ByList.{nothing_inside}
use axeno_relay.State.Tokens.{MailboxAuth}
use axeno_relay.Ws.Files.{pow_passes}
use axeno_relay.Ws.Session.{WsApi, Frame, State, Inputs, answer}
use axeno_relay.Ws.Hello.{select_version, hello}
use axeno_relay.Ws.Mailbox.{handle_certificate}
use axeno_relay.Ws.Certificates.{IsAnswered, handle_certificate-IsAnswered}
use axeno_relay.Ws.Admission.{
  IsCommon, Owned, select_version-greatest, hello-hides_mailbox, hello-authenticates,
}
use axeno_relay.Tests.Crates.{empty_queues, no_files}
use axeno_relay.Tests.State.{api}

abbrev pub carol : Text
carol = str "mbx_carol_0123456789012345678901234567"

abbrev pub owner_token : Text
owner_token = str "owner_token_0123"

abbrev pub contact_token : Text
contact_token = str "contact_token_01"

-- The nonce of the second ten-minute window.
abbrev pub nonce : Text
nonce = str "1:x"

-- A digest that passes the proof of work and keeps the text apart from others, and a parser that
-- takes every text for one Hello.
abbrev pub ws_api : WsApi
ws_api = record {
  state_api = api;
  sha256 = λ b. 0 ∷ 0 ∷ 0 ∷ b;
  hex = λ b. b;
  encode = λ b. b;
  decode = λ t. some t;
  from_str =
      λ t. ok (ClientFrame.hello carol owner_token contact_token none none none (some nonce) false);
  PublicKey = Text;
  deserialize = λ b. ok b;
  DeviceId = ℕ;
  device_id = some;
  Rng = Unit {0};
  SenderCertificate = Text;
  new_certificate = λ subject key device expiry issuer signer rng. ok subject;
  serialized = λ cert. ok cert;
}

abbrev pub inputs : Inputs ws_api
inputs = record {
  received_ms = 1000;
  pow_secs = 700;
  activity_ms = 86400000;
  prune_ms = 1000;
  rate_ms = 1000;
  now_ms = 1000;
  expiry_ms = 1000;
  queued_ms = 1000;
  upload_clock = record { pow_secs = 700; claim_now = 5; write_now = 6 };
  fault = none;
  fresh_id = str "id1";
  rng = ok tt;
  live_sent = true;
  room = none;
}

abbrev pub carol_auth : MailboxAuth
carol_auth = record {
  receive_auth_hash = 0 ∷ 0 ∷ 0 ∷ owner_token;
  delivery_token_hash = 0 ∷ 0 ∷ 0 ∷ contact_token;
  delivery_token_hashes = (0 ∷ 0 ∷ 0 ∷ contact_token) ∷ [];
  last_active_ms = 0;
}

abbrev pub unregistered : State ws_api
unregistered = record {
  queues = empty_queues;
  meta = record {
    auth = record { items = []; distinct = tt };
    bundles = record { items = []; distinct = tt };
  };
  files = no_files;
  file_config = no_files.config;
  online = record { items = []; distinct = tt };
  mailbox_auth = record { items = []; distinct = tt };
  mailbox_count = 0;
  bundles = record { items = []; distinct = tt };
  total_bundle_bytes = 0;
  send_rate = record { items = []; distinct = tt };
  crypto = record {
    trust_root_public_b64 = str "root";
    server_certificate = str "cert";
    server_signing_private = str "key";
  };
  dirty_auth = record { items = []; distinct = tt };
  dirty_bundles = record { items = []; distinct = tt };
  conn_count = 0;
  last_bundle_prune_ms = 0;
}

abbrev pub registered : State ws_api
registered = record unregistered {
  mailbox_auth = record { items = (carol, carol_auth) ∷ []; distinct = (nothing_inside carol, tt) };
  mailbox_count = 1;
}

carol_is_unknown : TableApi.get api.auths unregistered.mailbox_auth carol ≡ none
unfolding axeno_relay.Table.lookup
carol_is_unknown = refl

pub carol_is_registered : TableApi.get api.auths registered.mailbox_auth carol ≡ some carol_auth
unfolding axeno_relay.Table.lookup axeno_relay.Prelude.text_eq
carol_is_registered = refl

select_version-greatest_example :
    ((v : ℕ)
      → select_version (some 5) (some 9) none ≡ some v
      → IsCommon (some 5) (some 9) none v × ((w : ℕ) → IsCommon (some 5) (some 9) none w → w ≤ v))
    × (select_version (some 5) (some 9) none ≡ none → (w : ℕ) → ¬ IsCommon (some 5) (some 9) none w)
select_version-greatest_example = select_version-greatest (some 5) (some 9) none

wrong_token :
    axeno_relay.Util.ct_eq carol_auth.receive_auth_hash
      (axeno_relay.Util.token_hash ws_api.sha256 ws_api.hex contact_token)
    ≡ false
unfolding axeno_relay.Util.ct_eq axeno_relay.Util.token_hash
wrong_token = refl

no_proof : pow_passes ws_api.sha256 inputs.pow_secs carol none ≡ false
no_proof = refl

hello-hides_mailbox_example :
    (reply : Frame ws_api) × (hello ws_api inputs 3 carol contact_token contact_token none none none
        none false none unregistered
      ≡ answer ws_api none unregistered reply)
    × (hello ws_api inputs 3 carol contact_token contact_token none none none none false none
          registered
        ≡ answer ws_api none registered reply)
hello-hides_mailbox_example =
    hello-hides_mailbox ws_api inputs 3 carol contact_token contact_token none none none none false
      none unregistered registered carol_auth carol_is_unknown no_proof carol_is_registered
      wrong_token

owner_is_bound :
    (hello ws_api inputs 3 carol owner_token contact_token none none none none false none
      registered).recipient_id
    ≡ some carol
unfolding hello select_version axeno_relay.Util.valid_recipient_id axeno_relay.Prelude.starts_with
    axeno_relay.Util.id_byte axeno_relay.Util.valid_token axeno_relay.Table.lookup
    axeno_relay.Prelude.text_eq axeno_relay.Util.ct_eq axeno_relay.Util.token_hash
owner_is_bound = refl

hello-authenticates_example :
    (none ≡ some carol)
    ⊎ (carol ≡ carol)
      × Owned ws_api inputs 3 carol owner_token contact_token none none none none false none
          (hello ws_api inputs 3 carol owner_token contact_token none none none none false none
            registered).state
hello-authenticates_example =
    hello-authenticates ws_api inputs 3 carol owner_token contact_token none none none none false
      none registered carol owner_is_bound

-- Carol's socket asks for a certificate of Carol's mailbox.
handle_certificate-IsAnswered_example :
    ((handle_certificate ws_api inputs (str "r") carol 1 (str "key") (some carol) registered).state
      ≡ registered)
    × (((code : Text) × (message : Text) × ((handle_certificate ws_api inputs
              (str "r")
              carol
              1
              (str "key")
              (some carol)
              registered).replies
            ≡ err_frame code message ∷ []))
        ⊎ (some carol ≡ some carol)
          × IsAnswered ws_api inputs
              (str "r")
              carol
              1
              (str "key")
              registered
              (handle_certificate ws_api inputs
                (str "r")
                carol
                1
                (str "key")
                (some carol)
                registered).replies)
handle_certificate-IsAnswered_example =
    handle_certificate-IsAnswered ws_api inputs (str "r") carol 1 (str "key") (some carol)
      registered
