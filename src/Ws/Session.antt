-- ===== src/Ws/Session.antt =====
-- What the handlers of src/ws.rs share: the crates that they call, what they read from outside, and
-- what they leave. Handlers run one after another; what other sockets do in between is a change of
-- the state from one to the next.
use axeno_relay.Prelude.{
  ℕ, Bool, false, Option, none, some, List, [], ◌∷◌, take, Bytes, Text, Result, DbCall,
}
use axeno_relay.Protocol.{ClientFrame, ServerFrame}
use axeno_relay.QueueStore.{QueueApi}
use axeno_relay.State.Runtime.{StateApi, AppState}
use axeno_relay.Ws.Files.{UploadClock}

-- SHA-256, hex, base64 and JSON, and the certificates of `libsignal_protocol`, whose errors are
-- their messages.
pub record WsApi : Type 1 where
  pub state_api : StateApi
  pub sha256 : Bytes → Bytes
  pub hex : Bytes → Text
  pub encode : Bytes → Text
  pub decode : Text → Option Bytes
  pub from_str : Text → Result Text (ClientFrame (QueueApi.Uuid state_api.queue_api))
  pub PublicKey : Type 0
  pub deserialize : Bytes → Result Text PublicKey
  pub DeviceId : Type 0
  pub device_id : ℕ → Option DeviceId
  pub Rng : Type 0
  pub SenderCertificate : Type 0
  -- `SenderCertificate::new`: the subject, its key, its device, the expiry, the issuer's
  -- certificate and key, and the randomness.
  pub new_certificate :
      Text
      → PublicKey
      → DeviceId
      → ℕ
      → StateApi.ServerCertificate state_api
      → StateApi.PrivateKey state_api
      → Rng
      → Result Text SenderCertificate
  pub serialized : SenderCertificate → Result Text Bytes

-- `unwrap_or`.
abbrev pub unwrap_or {ℓ} : {A : Type ℓ} → Option A → A → A
unwrap_or none d = d
unwrap_or (some a) d = a

module _ (api : WsApi) where
  abbrev pub Uuid : Type 0
  Uuid = QueueApi.Uuid (StateApi.queue_api api.state_api)

  abbrev pub Frame : Type 0
  Frame = ServerFrame Uuid

  abbrev pub State : Type 0
  State = AppState api.state_api

  -- What the handling of one frame reads from outside. The clock may advance from one reading to
  -- the next, so each has its field.
  pub record Inputs : Type 0 where
    -- The loop's reading, in milliseconds.
    pub received_ms : ℕ
    -- The proof of work's, in seconds.
    pub pow_secs : ℕ
    pub activity_ms : ℕ
    pub prune_ms : ℕ
    pub rate_ms : ℕ
    -- The handler's own reading, and a second one.
    pub now_ms : ℕ
    pub expiry_ms : ℕ
    pub queued_ms : ℕ
    pub upload_clock : UploadClock
    -- The database call that fails, if one does.
    pub fault : Option DbCall
    -- What `Uuid::new_v4` returns.
    pub fresh_id : Uuid
    pub rng : Result Text (WsApi.Rng api)
    -- Whether a `try_send` to the destination's channel succeeds.
    pub live_sent : Bool
    -- How many awaited sends the socket's own channel takes before its writer is gone, if it goes.
    pub room : Option ℕ

  -- What a handler leaves: the frames that it handed to its own socket's channel, the frame that it
  -- handed to another's, with the number of that socket, and whether the loop ends.
  pub record Handled : Type 0 where
    pub replies : List Frame
    pub live : Option (ℕ × Frame)
    pub recipient_id : Option Text
    pub state : State
    pub stops : Bool

  -- One reply, with which the handler is done.
  abbrev pub answer : Option Text → State → Frame → Handled
  answer rid s frame = record {
    replies = frame ∷ [];
    live = none;
    recipient_id = rid;
    state = s;
    stops = false;
  }

  -- The awaited sends that succeed.
  unfoldable pub sends : Option ℕ → List Frame → List Frame
  sends none frames = frames
  sends (some room) frames = take room frames
