-- ===== src/Persistence/Cipher.antt =====
-- What src/persistence.rs encrypts with a secret, it decrypts with the same secret.
use axeno_relay.Prelude.{
  ◌≡◌, refl, sym, ap, ◌∙◌, true, Option, some, none, arith, Bytes, Text, length, ok, >>=-eq-ok,
  ◌==◌,
}
use axeno_relay.MetaStore.{Serde}
use axeno_relay.Persistence.{PersistApi, DiskCrypto, EncryptedCryptoBlob, or_anyhow}
use axeno_relay.Persistence.Keys.{encrypt_disk_crypto, decrypt_disk_crypto}

or_anyhow-eq-ok : {A : Type 0} (o : Option A) {a : A} → or_anyhow o ≡ ok a → o ≡ some a
or_anyhow-eq-ok none h = absurd cc
or_anyhow-eq-ok (some x) h = ground (arith, h)

module _ (api : PersistApi) where
  opens :
      (s k n p c : Bytes) (crypto : DiskCrypto) (env_key : Text)
      → api.derive env_key s ≡ some k
      → length n ≡ 12
      → Serde.to_vec api.crypto_json crypto ≡ some p
      → api.seal k n p ≡ some c
      → decrypt_disk_crypto api
          (record { salt = api.hex s; nonce = api.hex n; ciphertext = api.hex c })
          env_key
        ≡ ok crypto
  unfolding decrypt_disk_crypto
  opens s k n p c crypto env_key derived twelve written sealed =
      let size : (length n == 12) ≡ true = ground (arith, twelve) in
      rw
        (
          api.unhex-hex s,
          api.unhex-hex n,
          api.unhex-hex c,
          derived,
          size,
          api.unseal-seal k n p c sealed,
          Serde.from_slice-to_vec api.crypto_json crypto p written,
        )
        refl

  pub decrypt_disk_crypto-encrypt_disk_crypto :
      (salt nonce : Option Bytes) (crypto : DiskCrypto) (env_key : Text)
      (blob : EncryptedCryptoBlob)
      → ((n : Bytes) → nonce ≡ some n → length n ≡ 12)
      → encrypt_disk_crypto api salt nonce crypto env_key ≡ ok blob
      → decrypt_disk_crypto api blob env_key ≡ ok crypto
  unfolding encrypt_disk_crypto
  decrypt_disk_crypto-encrypt_disk_crypto salt nonce crypto env_key blob twelve h =
      let (s, hs, h1) = >>=-eq-ok (or_anyhow salt) _ h in
      let (k, hk, h2) = >>=-eq-ok (or_anyhow (api.derive env_key s)) _ h1 in
      let (n, hn, h3) = >>=-eq-ok (or_anyhow nonce) _ h2 in
      let (p, hp, h4) = >>=-eq-ok (or_anyhow (Serde.to_vec api.crypto_json crypto)) _ h3 in
      let (c, hc, h5) = >>=-eq-ok (or_anyhow (api.seal k n p)) _ h4 in
      let fields : record { salt = api.hex s; nonce = api.hex n; ciphertext = api.hex c } ≡ blob =
        ground (arith, h5) in
      ap (λ b. decrypt_disk_crypto api b env_key) (sym fields)
      ∙ opens s k n p c crypto env_key (or_anyhow-eq-ok _ hk) (twelve n (or_anyhow-eq-ok nonce hn))
          (or_anyhow-eq-ok _ hp) (or_anyhow-eq-ok _ hc)
