-- ===== src/Persistence/Disk.antt =====
-- Reading and writing relay-state.json in src/persistence.rs.
use axeno_relay.Prelude.{
  Option, none, some, [], ◌∷◌, ◌++◌, if◌then◌else◌, Bytes, Text, str, Result, ok, err, ◌>>=◌,
  AnyhowError, anyhow,
}
use axeno_relay.MetaStore.{Serde}
use axeno_relay.Persistence.{PersistApi, DiskCrypto, EncryptedCryptoBlob, State}
use axeno_relay.Persistence.Keys.{
  IoCall, io_fails, create_file, write_file, sync_file, rename_file, KeyInputs,
  relay_encryption_key, encrypt_disk_crypto, decrypt_disk_crypto,
}

abbrev pub state_name : Text
state_name = str "relay-state.json"

-- The name of the temporary file, of what `Uuid::new_v4` prints.
abbrev pub tmp_name : Text → Text
tmp_name id = state_name ++ (b'.' ∷ (id ++ str ".tmp"))

-- Where the steps of a save fail: its own calls, and what a failed write leaves of the file.
pub record SaveInputs : Type 0 where
  pub id : Text
  pub fault : Option IoCall
  pub partial : Bytes

-- The salt and the nonce of the encryption.
pub record CryptoInputs : Type 0 where
  pub salt : Option Bytes
  pub nonce : Option Bytes

module _ (api : PersistApi) where
  open api.files use {Table as Dir, get as read_file, insert as put_file, remove as remove_file}

  abbrev empty_state : State api
  empty_state = record {
    crypto = none;
    encrypted_crypto = none;
    mailbox_auth = [];
    queues = [];
    bundles = [];
  }

  -- The keys in plain text, of a blob if there is one.
  abbrev decrypted :
      State api
      → EncryptedCryptoBlob
      → Result AnyhowError Text × Dir
      → Result AnyhowError (State api) × Dir
  decrypted state blob (err e, files) = (err e, files)
  decrypted state blob (ok env_key, files) = (
    (do crypto ← decrypt_disk_crypto api blob env_key; ok (record state { crypto = some crypto })),
    files,
  )

  abbrev with_crypto :
      KeyInputs
      → Dir
      → State api
      → Option EncryptedCryptoBlob
      → Result AnyhowError (State api) × Dir
  with_crypto inp files state none = (ok state, files)
  with_crypto inp files state (some blob) =
      decrypted state blob (relay_encryption_key api inp files)

  abbrev parsed : KeyInputs → Dir → Option (State api) → Result AnyhowError (State api) × Dir
  parsed inp files none = (err anyhow, files)
  parsed inp files (some state) = with_crypto inp files state state.encrypted_crypto

  -- A file that exists is read.
  unfoldable pub load_disk_state : KeyInputs → Dir → Result AnyhowError (State api) × Dir
  load_disk_state inp files = elim (read_file files state_name) [
    | none ↦ (ok empty_state, files)
    | some raw ↦ parsed inp files (Serde.from_slice api.state_json raw)
  ]

  -- The temporary file is written whole before it takes the place of the old one.
  unfoldable pub replace_state : SaveInputs → Bytes → Dir → Result AnyhowError (Unit {0}) × Dir
  replace_state inp raw files =
      let tmp = tmp_name inp.id in
      if io_fails inp.fault create_file
      then (err anyhow, files)
      else if io_fails inp.fault write_file
      then (err anyhow, put_file files tmp inp.partial)
      else if io_fails inp.fault sync_file
      then (err anyhow, put_file files tmp raw)
      else if io_fails inp.fault rename_file
      then (err anyhow, remove_file (put_file files tmp raw) tmp)
      else (ok tt, put_file (remove_file (put_file files tmp raw) tmp) state_name raw)

  unfoldable pub save_disk_state :
      SaveInputs → State api → Dir → Result AnyhowError (Unit {0}) × Dir
  unfolding replace_state
  save_disk_state inp state files = elim (Serde.to_vec api.state_json state) [
    | none ↦ (err anyhow, files)
    | some raw ↦ replace_state inp raw files
  ]

  abbrev saved :
      SaveInputs
      → Dir
      → Result AnyhowError EncryptedCryptoBlob
      → Result AnyhowError (Unit {0}) × Dir
  saved inp files (err e) = (err e, files)
  saved inp files (ok blob) =
      save_disk_state inp (record empty_state { encrypted_crypto = some blob }) files

  abbrev persist_with :
      CryptoInputs
      → SaveInputs
      → DiskCrypto
      → Result AnyhowError Text × Dir
      → Result AnyhowError (Unit {0}) × Dir
  persist_with rnd inp crypto (err e, files) = (err e, files)
  persist_with rnd inp crypto (ok env_key, files) =
      saved inp files (encrypt_disk_crypto api rnd.salt rnd.nonce crypto env_key)

  unfoldable pub persist_crypto :
      KeyInputs → CryptoInputs → SaveInputs → DiskCrypto → Dir → Result AnyhowError (Unit {0}) × Dir
  unfolding save_disk_state
  persist_crypto key_inp rnd inp crypto files =
      persist_with rnd inp crypto (relay_encryption_key api key_inp files)
