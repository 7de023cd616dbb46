-- ===== src/Persistence.antt =====
-- src/persistence.rs: the legacy JSON state, the encryption of the signing keys at rest, and where the
-- secret for it comes from. Files are those of the data directory, by name. Argon2id,
-- ChaCha20-Poly1305, hex, UTF-8 and JSON are parameters with what the code relies on.
pub mod Keys
pub mod Disk
pub mod Cipher
pub mod Restart
pub mod Atomic
use axeno_relay.Prelude.{
  ℕ, ◌≡◌, Bool, true, false, not, Option, none, some, List, [], ◌∷◌, ◌++◌, ltb, if◌then◌else◌,
  keep_if, map, Bytes, Text, trim, str, ◌==◌, length, Result, ok, err, ◌>>=◌, ok_or, AnyhowError,
  anyhow,
}
use axeno_relay.Protocol.{StoredEnvelope}
use axeno_relay.Table.{TableApi}
use axeno_relay.MetaStore.{Serde}
use axeno_relay.State.Tokens.{MailboxAuth}
use axeno_relay.State.Bundle.{HostedBundle}
use axeno_relay.State.Runtime.{ServerCrypto}

pub record EncryptedCryptoBlob : Type 0 where
  pub salt : Text
  pub nonce : Text
  pub ciphertext : Text

pub record DiskCrypto : Type 0 where
  pub trust_root_public : Bytes
  pub trust_root_private : Bytes
  pub server_signing_public : Bytes
  pub server_signing_private : Bytes

pub record DiskState (Uuid : Type 0) : Type 0 where
  pub crypto : Option DiskCrypto
  pub encrypted_crypto : Option EncryptedCryptoBlob
  pub mailbox_auth : List (Text × MailboxAuth)
  pub queues : List (Text × List (StoredEnvelope Uuid))
  pub bundles : List HostedBundle

-- `prune_disk_state`, at the clock's reading.
abbrev first_token : MailboxAuth → List Text → Text → MailboxAuth
first_token auth [] [] = auth
first_token auth [] (x ∷ xs) = record auth { delivery_token_hashes = (x ∷ xs) ∷ [] }
first_token auth (h ∷ hashes) hash = auth

unfoldable pub with_token_list : MailboxAuth → MailboxAuth
with_token_list auth = first_token auth auth.delivery_token_hashes auth.delivery_token_hash

unfoldable pub prune_disk_state : {Uuid : Type 0} → ℕ → DiskState Uuid → DiskState Uuid
unfolding with_token_list
prune_disk_state now disk = record disk {
  bundles = keep_if (λ b. ltb now b.expires_at_ms) disk.bundles;
  mailbox_auth = map (λ e. (e.0, with_token_list e.1)) disk.mailbox_auth;
}

-- The crates. What is sealed opens with the same key and nonce; what is written in hex is ASCII
-- without white space.
pub record PersistApi : Type 1 where
  pub Uuid : Type 0
  pub files : TableApi Bytes
  pub derive : Text → Bytes → Option Bytes
  pub seal : Bytes → Bytes → Bytes → Option Bytes
  pub unseal : Bytes → Bytes → Bytes → Option Bytes
  pub unseal-seal :
      (key nonce plain sealed : Bytes)
      → seal key nonce plain ≡ some sealed
      → unseal key nonce sealed ≡ some plain
  pub hex : Bytes → Text
  pub unhex : Text → Option Bytes
  pub unhex-hex : (b : Bytes) → unhex (hex b) ≡ some b
  pub from_utf8 : Bytes → Option Text
  pub from_utf8-hex : (b : Bytes) → from_utf8 (hex b) ≡ some (hex b)
  pub trim-hex : (b : Bytes) → trim (hex b) ≡ hex b
  pub crypto_json : Serde DiskCrypto
  pub state_json : Serde (DiskState Uuid)
  pub KeyPair : Type 0
  pub from_public_and_private : Bytes → Bytes → Option KeyPair
  pub public_bytes : KeyPair → Bytes
  pub private_bytes : KeyPair → Bytes
  pub base64 : Bytes → Text
  pub ServerCertificate : Type 0
  pub PrivateKey : Type 0
  pub private_key : KeyPair → PrivateKey
  -- `ServerCertificate::new` with key id 1: the key that is certified, the key that signs, and the
  -- state of the generator.
  pub Rng : Type 0
  pub generate : Rng → KeyPair × Rng
  pub new_certificate : KeyPair → KeyPair → Rng → Option ServerCertificate

abbrev pub or_anyhow : {A : Type 0} → Option A → Result AnyhowError A
or_anyhow o = ok_or o anyhow

module _ (api : PersistApi) where
  abbrev pub State : Type 0
  State = DiskState api.Uuid

  abbrev pub disk_crypto_of : api.KeyPair → api.KeyPair → DiskCrypto
  disk_crypto_of trust_root server_signing = record {
    trust_root_public = api.public_bytes trust_root;
    trust_root_private = api.private_bytes trust_root;
    server_signing_public = api.public_bytes server_signing;
    server_signing_private = api.private_bytes server_signing;
  }

  -- The two key pairs: the saved ones, or fresh ones that are then kept in the state.
  unfoldable pub key_pairs :
      api.Rng → State → Result AnyhowError (api.KeyPair × api.KeyPair × api.Rng × State)
  key_pairs rng disk = elim disk.crypto [
    | some saved ↦ (do
      trust_root ←
          or_anyhow (api.from_public_and_private saved.trust_root_public saved.trust_root_private)
      server_signing ←
          or_anyhow
            (api.from_public_and_private saved.server_signing_public saved.server_signing_private)
      ok (trust_root, server_signing, rng, disk))
    | none ↦
        let (trust_root, rng') = api.generate rng in
        let (server_signing, rng'') = api.generate rng' in
        ok (
          trust_root,
          server_signing,
          rng'',
          record disk { crypto = some (disk_crypto_of trust_root server_signing) },
        )
  ]

  -- The generator is missing where the system has no randomness.
  unfoldable pub init_server_crypto :
      Option api.Rng
      → State
      → Result AnyhowError (ServerCrypto api.ServerCertificate api.PrivateKey × State)
  unfolding key_pairs
  init_server_crypto rng disk = do
    rng ← or_anyhow rng
    (trust_root, server_signing, rng', disk') ← key_pairs rng disk
    certificate ← or_anyhow (api.new_certificate server_signing trust_root rng')
    ok (
      record {
        trust_root_public_b64 = api.base64 (api.public_bytes trust_root);
        server_certificate = certificate;
        server_signing_private = api.private_key server_signing;
      },
      disk',
    )
