-- ===== src/Persistence/Keys.antt =====
-- The secret that src/persistence.rs encrypts the signing keys with, and the encryption.
use axeno_relay.Prelude.{
  Bool, true, false, not, Option, none, some, [], ◌∷◌, if◌then◌else◌, Bytes, Text, trim, str, ◌==◌,
  length, Result, ok, err, ◌>>=◌, AnyhowError, anyhow,
}
use axeno_relay.Table.{TableApi}
use axeno_relay.MetaStore.{Serde}
use axeno_relay.Persistence.{PersistApi, DiskCrypto, EncryptedCryptoBlob, or_anyhow}

-- The calls of the file system that may fail.
pub data IoCall : Type 0 where
  create_file write_file sync_file rename_file : IoCall

abbrev pub io_fails : Option IoCall → IoCall → Bool
io_fails (some create_file) create_file = true
io_fails (some write_file) write_file = true
io_fails (some sync_file) sync_file = true
io_fails (some rename_file) rename_file = true
io_fails _ _ = false

-- What the resolution of the secret reads: the two variables of the environment, the files outside
-- the data directory, and 32 random bytes; the call that fails; and what a failed write leaves.
pub record KeyInputs : Type 0 where
  pub axeno_key : Option Text
  pub axeno_key_file : Option Text
  pub read_key_file : Text → Option Text
  pub random : Option Bytes
  pub fault : Option IoCall
  pub partial : Bytes

-- A variable that is set and not empty.
abbrev pub nonempty : Option Text → Option Text
nonempty none = none
nonempty (some []) = none
nonempty (some (x ∷ xs)) = some (x ∷ xs)

abbrev pub key_name : Text
key_name = str "relay-key"

module _ (api : PersistApi) where
  abbrev pub Files : Type 0
  Files = TableApi.Table api.files

  -- The contents of AXENO_KEY_FILE: an error where they cannot be read, or are blank.
  unfoldable pub file_secret : Option Text → Result AnyhowError Text
  file_secret contents = do raw ← or_anyhow contents; or_anyhow (nonempty (some (trim raw)))

  -- The secret in the data directory, if there is one that can be read and is not blank.
  unfoldable pub local_secret : Files → Option Text
  local_secret files = elim (TableApi.get api.files files key_name) [
    | none ↦ none
    | some raw ↦ elim (api.from_utf8 raw) [ none ↦ none | some text ↦ nonempty (some (trim text)) ]
  ]

  abbrev put : Bytes → Files → Files
  put contents files = TableApi.insert api.files files key_name contents

  -- The file is truncated on opening, so a write that fails leaves a part of the secret.
  unfoldable pub write_secret :
      Option IoCall → Bytes → Text → Files → Result AnyhowError Text × Files
  write_secret fault partial secret files =
      if io_fails fault create_file
      then (err anyhow, files)
      else if io_fails fault write_file
      then (err anyhow, put partial files)
      else if io_fails fault sync_file
      then (err anyhow, put secret files)
      else (ok secret, put secret files)

  abbrev generated : KeyInputs → Option Bytes → Files → Result AnyhowError Text × Files
  generated inp none files = (err anyhow, files)
  generated inp (some raw) files = write_secret inp.fault inp.partial (api.hex raw) files

  abbrev own_secret : KeyInputs → Option Text → Files → Result AnyhowError Text × Files
  own_secret inp (some secret) files = (ok secret, files)
  own_secret inp none files = generated inp inp.random files

  abbrev from_file : KeyInputs → Option Text → Files → Result AnyhowError Text × Files
  from_file inp (some path) files = (file_secret (inp.read_key_file path), files)
  from_file inp none files = own_secret inp (local_secret files) files

  abbrev from_variable : KeyInputs → Option Text → Files → Result AnyhowError Text × Files
  from_variable inp (some secret) files = (ok secret, files)
  from_variable inp none files = from_file inp (nonempty inp.axeno_key_file) files

  -- AXENO_KEY, then AXENO_KEY_FILE, then the file of the data directory, which is made if need be.
  unfoldable pub relay_encryption_key : KeyInputs → Files → Result AnyhowError Text × Files
  unfolding file_secret local_secret write_secret
  relay_encryption_key inp files = from_variable inp (nonempty inp.axeno_key) files

  -- `encrypt_disk_crypto`, with the random salt and nonce.
  unfoldable pub encrypt_disk_crypto :
      Option Bytes → Option Bytes → DiskCrypto → Text → Result AnyhowError EncryptedCryptoBlob
  encrypt_disk_crypto salt nonce crypto env_key = do
    salt_bytes ← or_anyhow salt
    key ← or_anyhow (api.derive env_key salt_bytes)
    nonce_bytes ← or_anyhow nonce
    plaintext ← or_anyhow (Serde.to_vec api.crypto_json crypto)
    ciphertext ← or_anyhow (api.seal key nonce_bytes plaintext)
    ok (record {
      salt = api.hex salt_bytes;
      nonce = api.hex nonce_bytes;
      ciphertext = api.hex ciphertext;
    })

  unfoldable pub decrypt_disk_crypto : EncryptedCryptoBlob → Text → Result AnyhowError DiskCrypto
  decrypt_disk_crypto blob env_key = do
    salt ← or_anyhow (api.unhex blob.salt)
    key ← or_anyhow (api.derive env_key salt)
    nonce_bytes ← or_anyhow (api.unhex blob.nonce)
    nonce ← (if not (length nonce_bytes == 12) then err anyhow else ok nonce_bytes)
    ciphertext ← or_anyhow (api.unhex blob.ciphertext)
    plaintext ← or_anyhow (api.unseal key nonce ciphertext)
    or_anyhow (Serde.from_slice api.crypto_json plaintext)
