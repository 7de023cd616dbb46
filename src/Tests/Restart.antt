-- ===== src/Tests/Restart.antt =====
-- The files of the data directory on concrete inputs: a saved state is loaded again.
use axeno_relay.Prelude.{
  ℕ, suc, ◌+◌, ◌-◌, ◌≤◌, ◌≡◌, ◌⊎◌, refl, sym, ap, ◌∙◌, Option, none, some, List, [], ◌∷◌, ◌++◌, map,
  arith, length, All, take, drop, Bytes, Text, str, trim, drop_spaces, leading_space,
  trailing_space, backwards, ok, err, anyhow,
}
use axeno_relay.Table.{TableApi, lookup}
use axeno_relay.Table.ByList.{list_table}
use axeno_relay.MetaStore.{Serde}
use axeno_relay.Protocol.{StoredEnvelope}
use axeno_relay.State.Tokens.{MailboxAuth}
use axeno_relay.State.Bundle.{HostedBundle}
use axeno_relay.Persistence.{PersistApi, DiskCrypto, DiskState, EncryptedCryptoBlob, State}
use axeno_relay.Persistence.Keys.{KeyInputs, Files, rename_file}
use axeno_relay.Persistence.Disk.{
  SaveInputs, CryptoInputs, state_name, load_disk_state, save_disk_state, persist_crypto,
}
use axeno_relay.Persistence.Restart.{IsPrintable, load_disk_state-persist_crypto}
use axeno_relay.Persistence.Atomic.{save_disk_state-IsAtomic}
use axeno_relay.Tests.Crates.{take-append, drop-append}

-- Digits beyond every white space.
abbrev digits : Bytes → Text
digits = map (λ b. b + 1000)

abbrev undigits : Text → Bytes
undigits = map (λ b. b - 1000)

undigits-digits : (b : Bytes) → undigits (digits b) ≡ b
undigits-digits [] = refl
undigits-digits (x ∷ b) =
    let same : x + 1000 - 1000 ≡ x = omega arith in λ i. same i ∷ undigits-digits b i

abbrev AllHigh : Text → Type 0
AllHigh = All (λ b. 1000 ≤ b)

digits-AllHigh : (b : Bytes) → AllHigh (digits b)
digits-AllHigh [] = tt
digits-AllHigh (x ∷ b) = (omega arith, digits-AllHigh b)

leading_space-AllHigh : (t : Text) → AllHigh t → leading_space t ≡ 0
unfolding leading_space
leading_space-AllHigh [] h = refl
leading_space-AllHigh (a ∷ []) h = ground (arith, h)
leading_space-AllHigh (a ∷ b ∷ []) h = ground (arith, h)
leading_space-AllHigh (a ∷ b ∷ c ∷ t) h = ground (arith, h)

trailing_space-AllHigh : (t : Text) → AllHigh t → trailing_space t ≡ 0
unfolding trailing_space
trailing_space-AllHigh [] h = refl
trailing_space-AllHigh (a ∷ []) h = ground (arith, h)
trailing_space-AllHigh (a ∷ b ∷ []) h = ground (arith, h)
trailing_space-AllHigh (a ∷ b ∷ c ∷ t) h = ground (arith, h)

drop_spaces-none : (measure : Text → ℕ) (t : Text) → measure t ≡ 0 → drop_spaces measure 0 t ≡ t
unfolding drop_spaces
drop_spaces-none measure [] h = refl
drop_spaces-none measure (x ∷ t) h = rw (h, drop_spaces) refl

backwards-AllHigh : (out t : Text) → AllHigh out → AllHigh t → AllHigh (backwards out t)
backwards-AllHigh out [] k h = k
backwards-AllHigh out (x ∷ t) k (hx, h) = backwards-AllHigh (x ∷ out) t (hx, k) h

append_nil : (t : Text) → t ++ [] ≡ t
append_nil [] = refl
append_nil (x ∷ t) = ap (◌∷◌ x) (append_nil t)

backwards_twice : (a b t : Text) → backwards a (backwards b t) ≡ backwards (t ++ a) b
backwards_twice a b [] = refl
backwards_twice a b (x ∷ t) = backwards_twice a (x ∷ b) t

trim-digits : (b : Bytes) → trim (digits b) ≡ digits b
unfolding trim
trim-digits b =
    let t = digits b in
    let high = digits-AllHigh b in
    rw
      (
        drop_spaces-none leading_space t (leading_space-AllHigh t high),
        drop_spaces-none trailing_space (backwards [] t)
            (trailing_space-AllHigh (backwards [] t) (backwards-AllHigh [] t tt high)),
      )
      (backwards_twice [] [] t ∙ append_nil t)

-- The keys after the lengths of the first three.
unfoldable write_keys : DiskCrypto → Option Bytes
write_keys k = some (
    length k.trust_root_public
    ∷ length k.trust_root_private
    ∷ length k.server_signing_public
    ∷ (k.trust_root_public
        ++ (k.trust_root_private ++ (k.server_signing_public ++ k.server_signing_private))))

unfoldable read_keys : Bytes → Option DiskCrypto
read_keys (a ∷ b ∷ c ∷ rest) = some (record {
  trust_root_public = take a rest;
  trust_root_private = take b (drop a rest);
  server_signing_public = take c (drop b (drop a rest));
  server_signing_private = drop c (drop b (drop a rest));
})
read_keys _ = none

read_keys-write_keys :
    (k : DiskCrypto) (raw : Bytes) → write_keys k ≡ some raw → read_keys raw ≡ some k
unfolding write_keys read_keys
read_keys-write_keys k raw h =
    let a = k.trust_root_public in
    let b = k.trust_root_private in
    let c = k.server_signing_public in
    let d = k.server_signing_private in
    let same : length a ∷ length b ∷ length c ∷ (a ++ (b ++ (c ++ d))) ≡ raw = ground arith in
    rw (← same) (
      rw (drop-append a (b ++ (c ++ d)), drop-append b (c ++ d))
        (λ i. some (record {
          trust_root_public = take-append a (b ++ (c ++ d)) i;
          trust_root_private = take-append b (c ++ d) i;
          server_signing_public = take-append c d i;
          server_signing_private = drop-append c d i;
        })))

-- States that hold nothing but encrypted keys.
abbrev write_blob : EncryptedCryptoBlob → Bytes
write_blob x = length x.salt ∷ length x.nonce ∷ (x.salt ++ (x.nonce ++ x.ciphertext))

unfoldable write_parts :
    Option DiskCrypto
    → Option EncryptedCryptoBlob
    → List (Text × MailboxAuth)
    → List (Text × List (StoredEnvelope Text))
    → List HostedBundle
    → Option Bytes
write_parts (some k) e m q b = none
write_parts none none m q b = none
write_parts none (some x) (y ∷ m) q b = none
write_parts none (some x) [] (y ∷ q) b = none
write_parts none (some x) [] [] (y ∷ b) = none
write_parts none (some x) [] [] [] = some (write_blob x)

abbrev write_state : DiskState Text → Option Bytes
write_state s = write_parts s.crypto s.encrypted_crypto s.mailbox_auth s.queues s.bundles

unfoldable read_state : Bytes → Option (DiskState Text)
read_state (n ∷ m ∷ rest) = some (record {
  crypto = none;
  encrypted_crypto = some (record {
    salt = take n rest;
    nonce = take m (drop n rest);
    ciphertext = drop m (drop n rest);
  });
  mailbox_auth = [];
  queues = [];
  bundles = [];
})
read_state _ = none

read_state-write_parts :
    (k : Option DiskCrypto) (e : Option EncryptedCryptoBlob) (m : List (Text × MailboxAuth))
    (q : List (Text × List (StoredEnvelope Text))) (b : List HostedBundle) (raw : Bytes)
    → write_parts k e m q b ≡ some raw
    → read_state raw
      ≡ some
          (record { crypto = k; encrypted_crypto = e; mailbox_auth = m; queues = q; bundles = b })
unfolding write_parts read_state
read_state-write_parts (some k) e m q b raw = λ h. absurd cc
read_state-write_parts none none m q b raw = λ h. absurd cc
read_state-write_parts none (some x) (y ∷ m) q b raw = λ h. absurd cc
read_state-write_parts none (some x) [] (y ∷ q) b raw = λ h. absurd cc
read_state-write_parts none (some x) [] [] (y ∷ b) raw = λ h. absurd cc
read_state-write_parts none (some x) [] [] [] raw = λ h.
    let same : write_blob x ≡ raw = ground arith in
    rw (← same) (
      rw (drop-append x.salt (x.nonce ++ x.ciphertext)) (λ i. some (record {
        crypto = none;
        encrypted_crypto = some (record {
          salt = take-append x.salt (x.nonce ++ x.ciphertext) i;
          nonce = take-append x.nonce x.ciphertext i;
          ciphertext = drop-append x.nonce x.ciphertext i;
        });
        mailbox_auth = [];
        queues = [];
        bundles = [];
      })))

abbrev persist_api : PersistApi
persist_api = record {
  Uuid = Text;
  files = list_table Bytes;
  derive = λ secret salt. some secret;
  seal = λ key nonce plain. some plain;
  unseal = λ key nonce sealed. some sealed;
  unseal-seal = λ key nonce plain sealed h. sym h;
  hex = digits;
  unhex = λ t. some (undigits t);
  unhex-hex = λ b. ap some (undigits-digits b);
  from_utf8 = some;
  from_utf8-hex = λ b. refl;
  trim-hex = trim-digits;
  crypto_json = record {
    to_vec = write_keys;
    from_slice = read_keys;
    from_slice-to_vec = read_keys-write_keys;
  };
  state_json = record {
    to_vec = write_state;
    from_slice = read_state;
    from_slice-to_vec =
        λ s. read_state-write_parts s.crypto s.encrypted_crypto s.mailbox_auth s.queues s.bundles;
  };
  KeyPair = Bytes × Bytes;
  from_public_and_private = λ a b. some (a, b);
  public_bytes = λ k. k.0;
  private_bytes = λ k. k.1;
  base64 = digits;
  ServerCertificate = Bytes;
  PrivateKey = Bytes;
  private_key = λ k. k.1;
  Rng = ℕ;
  generate = λ n. ((n ∷ [], n ∷ []), suc n);
  new_certificate = λ k by n. some k.0;
}

abbrev no_files : Files persist_api
no_files = record { items = []; distinct = tt }

-- Nothing is configured: the secret is made at the first start, from one byte.
abbrev first_start : KeyInputs
first_start = record {
  axeno_key = none;
  axeno_key_file = some [];
  read_key_file = λ path. none;
  random = some (7 ∷ []);
  fault = none;
  partial = [];
}

abbrev second_start : KeyInputs
second_start = record first_start { random = none }

abbrev twelve : Bytes
twelve = 1 ∷ 2 ∷ 3 ∷ 4 ∷ 5 ∷ 6 ∷ 7 ∷ 8 ∷ 9 ∷ 10 ∷ 11 ∷ 12 ∷ []

abbrev rnd : CryptoInputs
rnd = record { salt = some (5 ∷ 6 ∷ []); nonce = some twelve }

abbrev some_keys : DiskCrypto
some_keys = record {
  trust_root_public = 1 ∷ [];
  trust_root_private = 2 ∷ [];
  server_signing_public = 3 ∷ [];
  server_signing_private = 4 ∷ [];
}

abbrev sv : SaveInputs
sv = record { id = str "a"; fault = none; partial = [] }

abbrev after : Files persist_api
after = (persist_crypto persist_api first_start rnd sv some_keys no_files).1

prints : IsPrintable persist_api first_start
prints raw h = let same : 7 ∷ [] ≡ raw = ground arith in rw (← same) (λ e. absurd cc)

has_twelve : (n : Bytes) → rnd.nonce ≡ some n → length n ≡ 12
has_twelve n h = let same : twelve ≡ n = ground arith in rw (← same) refl

persisted : (persist_crypto persist_api first_start rnd sv some_keys no_files).0 ≡ ok tt
unfolding persist_crypto axeno_relay.Persistence.Keys.relay_encryption_key lookup
    axeno_relay.Persistence.Keys.encrypt_disk_crypto write_keys write_parts
persisted = refl

load_disk_state-persist_crypto_example :
    ((state : State persist_api) × ((load_disk_state persist_api second_start after).0 ≡ ok state)
      × (state.crypto ≡ some some_keys))
    × ((disk : State persist_api) × (raw : Bytes) × (TableApi.get persist_api.files after state_name
          ≡ some raw)
        × (Serde.from_slice persist_api.state_json raw ≡ some disk)
        × (disk.crypto ≡ none))
load_disk_state-persist_crypto_example =
    load_disk_state-persist_crypto persist_api first_start second_start rnd sv some_keys no_files
      (record { key = refl; key_file = refl; read = refl }) prints has_twelve persisted

abbrev sealed_state : State persist_api
sealed_state = record {
  crypto = none;
  encrypted_crypto = some (record { salt = str "s"; nonce = str "n"; ciphertext = str "c" });
  mailbox_auth = [];
  queues = [];
  bundles = [];
}

-- The rename fails.
abbrev no_rename : SaveInputs
no_rename = record sv { fault = some rename_file }

save_disk_state-IsAtomic_example :
    ((save_disk_state persist_api no_rename sealed_state no_files).0 ≡ ok tt)
      × ((raw : Bytes) × (Serde.to_vec persist_api.state_json sealed_state ≡ some raw)
          × (TableApi.get persist_api.files
                (save_disk_state persist_api no_rename sealed_state no_files).1
                state_name
              ≡ some raw))
    ⊎ ((save_disk_state persist_api no_rename sealed_state no_files).0 ≡ err anyhow)
      × (TableApi.get persist_api.files
            (save_disk_state persist_api no_rename sealed_state no_files).1
            state_name
          ≡ TableApi.get persist_api.files no_files state_name)
save_disk_state-IsAtomic_example =
    save_disk_state-IsAtomic persist_api no_rename sealed_state no_files
