-- ===== src/Persistence/Restart.antt =====
-- The keys that src/persistence.rs stores are there again after a restart, and only encrypted.
use axeno_relay.Prelude.{
  ◌≡◌, ◌≢◌, inl, inr, refl, ◌∙◌, Option, some, none, [], ◌∷◌, Bytes, Text, ok, Option-cases,
  Bool-cases, Result-cases, text_eq_refl, length,
}
use axeno_relay.MetaStore.{Serde}
use axeno_relay.Persistence.{PersistApi, DiskCrypto, EncryptedCryptoBlob, State}
use axeno_relay.Persistence.Keys.{
  IoCall, KeyInputs, Files, key_name, nonempty, io_fails, create_file, write_file, sync_file,
  local_secret, write_secret, relay_encryption_key, encrypt_disk_crypto, decrypt_disk_crypto,
}
use axeno_relay.Persistence.Disk.{
  SaveInputs, CryptoInputs, state_name, load_disk_state, save_disk_state, persist_crypto,
}
use axeno_relay.Persistence.Cipher.{decrypt_disk_crypto-encrypt_disk_crypto}
use axeno_relay.Persistence.Atomic.{replace_state-cases}

-- The same environment at a later start.
pub record IsSameEnvironment (inp later : KeyInputs) : Type 0 where
  pub key : later.axeno_key ≡ inp.axeno_key
  pub key_file : later.axeno_key_file ≡ inp.axeno_key_file
  pub read : later.read_key_file ≡ inp.read_key_file

module _ (api : PersistApi) where
  open api.files use {get as read_file, insert as put_file, get-insert}

  -- Random bytes in hex are not the empty text.
  abbrev pub IsPrintable : KeyInputs → Type 0
  IsPrintable inp = (raw : Bytes) → inp.random ≡ some raw → api.hex raw ≢ []

  nonempty-some : (t : Text) → t ≢ [] → nonempty (some t) ≡ some t
  nonempty-some [] h = absurd (h refl)
  nonempty-some (x ∷ t) h = refl

  write_secret-local :
      (fault : Option IoCall) (partial raw : Bytes) (secret : Text) (files : Files api)
      → api.hex raw ≢ []
      → (write_secret api fault partial (api.hex raw) files).0 ≡ ok secret
      → local_secret api (write_secret api fault partial (api.hex raw) files).1 ≡ some secret
  unfolding write_secret local_secret
  write_secret-local fault partial raw secret files full =
      elim (Bool-cases (io_fails fault create_file)) [
        | inl f ↦ rw (f, write_secret) (λ h. absurd cc)
        | inr a ↦ elim (Bool-cases (io_fails fault write_file)) [
          | inl f ↦ rw (a, f, write_secret) (λ h. absurd cc)
          | inr b ↦ elim (Bool-cases (io_fails fault sync_file)) [
            | inl f ↦ rw (a, b, f, write_secret) (λ h. absurd cc)
            | inr c ↦
                let there : read_file (put_file files key_name (api.hex raw)) key_name
                    ≡ some (api.hex raw) =
                  get-insert files key_name key_name (api.hex raw)
                  ∙ rw (text_eq_refl key_name) refl in
                rw
                  (
                    a,
                    b,
                    c,
                    write_secret,
                    local_secret,
                    there,
                    api.from_utf8-hex raw,
                    api.trim-hex raw,
                    nonempty-some (api.hex raw) full,
                  )
                  (λ h. cc)
          ]
        ]
      ]

  local_secret-eq :
      (files files' : Files api)
      → read_file files' key_name ≡ read_file files key_name
      → local_secret api files' ≡ local_secret api files
  unfolding local_secret
  local_secret-eq files files' k = rw (k, local_secret) refl

  -- A secret that was resolved is resolved again, as long as the key file is left alone.
  relay_encryption_key-again :
      (inp later : KeyInputs) (files files' : Files api) (secret : Text)
      → IsSameEnvironment inp later
      → IsPrintable inp
      → (relay_encryption_key api inp files).0 ≡ ok secret
      → read_file files' key_name ≡ read_file (relay_encryption_key api inp files).1 key_name
      → relay_encryption_key api later files' ≡ (ok secret, files')
  unfolding relay_encryption_key
  relay_encryption_key-again inp later files files' secret same printable =
      elim (Option-cases (nonempty inp.axeno_key)) [
        | inr (key, e) ↦ rw (same.key, e, relay_encryption_key) (λ h k i. (h i, files'))
        | inl e ↦ elim (Option-cases (nonempty inp.axeno_key_file)) [
          | inr (path, f) ↦
              rw (same.key, same.key_file, same.read, e, f, relay_encryption_key)
                (λ h k i. (h i, files'))
          | inl f ↦ elim (Option-cases (local_secret api files)) [
            | inr (own, g) ↦
                rw (same.key, same.key_file, e, f, g, relay_encryption_key)
                  (λ h k. rw (local_secret-eq files files' k ∙ g) (λ i. (h i, files')))
            | inl g ↦ elim (Option-cases inp.random) [
              | inl d ↦
                  rw (same.key, same.key_file, e, f, g, d, relay_encryption_key) (λ h k. absurd cc)
              | inr (raw, d) ↦
                  rw (same.key, same.key_file, e, f, g, d, relay_encryption_key)
                    (λ h k.
                      let written =
                        write_secret-local inp.fault inp.partial raw secret files (printable raw d)
                          h in
                      rw (local_secret-eq _ files' k ∙ written) refl)
            ]
          ]
        ]
      ]

  -- What a successful save of the encrypted keys leaves.
  record Saved (blob : EncryptedCryptoBlob) (files files' : Files api) : Type 0 where
    disk : State api
    raw : Bytes
    there : read_file files' state_name ≡ some raw
    written : Serde.to_vec api.state_json disk ≡ some raw
    plain : disk.crypto ≡ none
    sealed : disk.encrypted_crypto ≡ some blob
    key_kept : read_file files' key_name ≡ read_file files key_name

  save-Saved :
      (sv : SaveInputs) (disk : State api) (blob : EncryptedCryptoBlob) (files : Files api)
      → disk.crypto ≡ none
      → disk.encrypted_crypto ≡ some blob
      → (save_disk_state api sv disk files).0 ≡ ok tt
      → Saved blob files (save_disk_state api sv disk files).1
  unfolding save_disk_state
  save-Saved sv disk blob files plain sealed =
      elim (Option-cases (Serde.to_vec api.state_json disk)) [
        | inl e ↦ rw (e, save_disk_state) (λ h. absurd cc)
        | inr (raw, e) ↦
            rw (e, save_disk_state)
              (λ h. elim (replace_state-cases api sv raw files) [
                | inl (done, there, kept) ↦ record {
                  disk = disk;
                  raw = raw;
                  there = there;
                  written = e;
                  plain = plain;
                  sealed = sealed;
                  key_kept = kept;
                }
                | inr (failed, _) ↦ absurd cc
              ])
      ]

  load-Saved :
      (later : KeyInputs) (blob : EncryptedCryptoBlob) (crypto : DiskCrypto) (secret : Text)
      (files files' : Files api)
      → Saved blob files files'
      → relay_encryption_key api later files' ≡ (ok secret, files')
      → decrypt_disk_crypto api blob secret ≡ ok crypto
      → (state : State api) × ((load_disk_state api later files').0 ≡ ok state)
        × (state.crypto ≡ some crypto)
  unfolding load_disk_state
  load-Saved later blob crypto secret files files' sv key opened =
      let parsed = Serde.from_slice-to_vec api.state_json sv.disk sv.raw sv.written in
      (
        record sv.disk { crypto = some crypto },
        rw (sv.there, parsed, sv.sealed, key, opened, load_disk_state) refl,
        refl,
      )

  -- Keys that were persisted are loaded again at a later start in the same environment, where the
  -- data directory is as the save left it; and what stands in relay-state.json has no plain keys.
  -- This is where the random bytes print as a text that is not empty, and the nonce has 12 bytes.
  pub load_disk_state-persist_crypto :
      (inp later : KeyInputs) (rnd : CryptoInputs) (sv : SaveInputs) (crypto : DiskCrypto)
      (files : Files api)
      → IsSameEnvironment inp later
      → IsPrintable inp
      → ((n : Bytes) → rnd.nonce ≡ some n → length n ≡ 12)
      → (persist_crypto api inp rnd sv crypto files).0 ≡ ok tt
      → ((state : State api) × ((load_disk_state api later
              (persist_crypto api inp rnd sv crypto files).1).0
            ≡ ok state)
          × (state.crypto ≡ some crypto))
        × ((disk : State api) × (raw : Bytes) × (read_file
                (persist_crypto api inp rnd sv crypto files).1
                state_name
              ≡ some raw)
            × (Serde.from_slice api.state_json raw ≡ some disk)
            × (disk.crypto ≡ none))
  unfolding persist_crypto
  load_disk_state-persist_crypto inp later rnd sv crypto files same printable twelve =
      let key = relay_encryption_key api inp files in
      elim (Result-cases key.0) [
        | inl (e, failed) ↦ rw (failed, persist_crypto) (λ h. absurd cc)
        | inr (secret, found) ↦
            elim (Result-cases (encrypt_disk_crypto api rnd.salt rnd.nonce crypto secret)) [
              | inl (e, failed) ↦ rw (found, failed, persist_crypto) (λ h. absurd cc)
              | inr (blob, sealed) ↦
                  rw (found, sealed, persist_crypto)
                    (λ h.
                      let stored = save-Saved sv _ blob key.1 refl refl h in
                      let again =
                        relay_encryption_key-again inp later files _ secret same printable found
                          stored.key_kept in
                      let opened =
                        decrypt_disk_crypto-encrypt_disk_crypto api rnd.salt rnd.nonce crypto secret
                          blob twelve sealed in
                      (
                        load-Saved later blob crypto secret key.1 _ stored again opened,
                        (
                          stored.disk,
                          stored.raw,
                          stored.there,
                          Serde.from_slice-to_vec api.state_json stored.disk stored.raw
                              stored.written,
                          stored.plain,
                        ),
                      ))
            ]
      ]
