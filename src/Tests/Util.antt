-- ===== src/Tests/Util.antt =====
-- The helpers of src/util.rs on concrete texts, with a digest that is always zero.
use axeno_relay.Prelude.{
  ℕ, zero, suc, ◌+◌, ◌*◌, ◌^◌, ◌-◌, ◌<◌, ◌≤◌, ◌≡◌, ◌⊎◌, inl, inr, ◌↔◌, refl, true, false, some,
  List, [], ◌∷◌, ◌++◌, arith, length, Bytes, Text, str, IsFreeOf, split_once, parse_u64, decimal,
}
use axeno_relay.Util.{
  ct_eq, valid_recipient_id, valid_bundle_id, valid_token, pow_hash_ok, pow_input, pow_window,
  verify_pow,
}
use axeno_relay.Util.ConstantTime.{ct_eq_iff}
use axeno_relay.Util.Pow.{
  big_endian, pow_hash_ok_iff, verify_pow_window, verify_pow_expires, verify_pow_accepts,
}

abbrev zero_digest : Bytes → Bytes
zero_digest input = 0 ∷ 0 ∷ 0 ∷ []

abbrev small_digest : Bytes
small_digest = 0 ∷ 0 ∷ 3 ∷ 7 ∷ []

abbrev nonce : Text
nonce = str "1:x"

nonce_is_accepted : verify_pow zero_digest 700 (str "id") nonce ≡ true
unfolding verify_pow split_once parse_u64
nonce_is_accepted = refl

verify_pow_expires_example : verify_pow zero_digest 1900 (str "id") nonce ≡ false
verify_pow_expires_example =
    verify_pow_expires zero_digest 700 1900 (str "id") nonce nonce_is_accepted (omega arith)

verify_pow_window_example :
    (w : ℕ) × (part : Text) × (ts : Text) × (split_once b':' nonce ≡ some (ts, part))
    × (parse_u64 ts ≡ some w)
    × ((w ≡ pow_window 700) ⊎ (w ≡ pow_window 700 - 1))
    × (pow_hash_ok (zero_digest (pow_input (str "id") w part)) ≡ true)
verify_pow_window_example = verify_pow_window zero_digest 700 (str "id") nonce nonce_is_accepted

zero_passes : pow_hash_ok (0 ∷ 0 ∷ 0 ∷ []) ≡ true
unfolding pow_hash_ok
zero_passes = refl

verify_pow_accepts_example :
    verify_pow zero_digest 1300 (str "id") (decimal 1 ++ (b':' ∷ str "x")) ≡ true
verify_pow_accepts_example =
    verify_pow_accepts zero_digest 1300 (str "id") (str "x") 1 (omega arith) (inr refl) zero_passes

pow_hash_ok_iff_example :
    (pow_hash_ok small_digest ≡ true)
    ↔ (big_endian small_digest * 2 ^ 22 < 256 ^ length small_digest)
pow_hash_ok_iff_example =
    pow_hash_ok_iff 0 0 3 (7 ∷ []) (omega arith, (omega arith, (omega arith, (omega arith, tt))))

ct_eq_iff_example : (ct_eq (str "abc") (str "abd") ≡ true) ↔ (str "abc" ≡ str "abd")
ct_eq_iff_example = ct_eq_iff (str "abc") (str "abd")

abbrev mailbox : Text
mailbox = str "mbx_0123456789abcdef0123456789abcdef"

mailbox_is_valid : valid_recipient_id mailbox ≡ true
unfolding valid_recipient_id axeno_relay.Prelude.starts_with axeno_relay.Util.id_byte
mailbox_is_valid = refl
