-- ===== src/Util.antt =====
-- src/util.rs: time, constant-time comparison, validation and proof of work. SHA-256 and hex are
-- not part of the repository: the digest is an argument, `sha256`, and so is `hex`.
pub mod ConstantTime
pub mod Validation
pub mod Pow
use Prim.Native.Nat.{bit_or, bit_xor}
use axeno_relay.Prelude.{
  ℕ, zero, suc, ◌+◌, ◌-◌, ◌/◌, ◌%◌, ◌^◌, ◌≤◌, ◌<◌, ◌≡◌, Bool, true, false, ◌&&◌, ◌||◌, not, Option,
  none, some, List, [], ◌∷◌, ◌++◌, arith, ltb, leb, ◌==◌, if◌then◌else◌, length, all, Bytes, Text,
  str, starts_with, split_once, saturating_sub, decimal, parse_u64,
}
use axeno_relay.Config.{mailbox_activity_granularity_ms, pow_leading_zero_bits}

-- `now_activity_ms`, of what `now_ms` read.
unfoldable pub now_activity_ms : ℕ → ℕ
now_activity_ms now = now - now % mailbox_activity_granularity_ms

-- What the relay keeps of a token.
unfoldable pub token_hash : (Bytes → Bytes) → (Bytes → Text) → Text → Text
token_hash sha256 hex token = hex (sha256 token)

-- The fold of `ct_eq` over the zipped bytes.
unfoldable pub differences : ℕ → Bytes → Bytes → ℕ
differences acc (x ∷ xs) (y ∷ ys) = differences (bit_or acc (bit_xor x y)) xs ys
differences acc _ _ = acc

unfoldable pub ct_eq : Text → Text → Bool
unfolding differences
ct_eq a b = if length a == length b then differences 0 a b == 0 else false

-- The compare-and-exchange loop. Each failed exchange observes a value that another thread wrote
-- (the list); the last exchange succeeds. The result is the value that it stores.
unfoldable pub atomic_sub_saturating : List ℕ → ℕ → ℕ → ℕ
atomic_sub_saturating [] current val = saturating_sub current val
atomic_sub_saturating (observed ∷ retries) current val = atomic_sub_saturating retries observed val

abbrev is_ascii_alphanumeric : ℕ → Bool
is_ascii_alphanumeric b =
    (leb b'0' b && leb b b'9') || (leb b'A' b && leb b b'Z') || (leb b'a' b && leb b b'z')

-- The byte test that the three validators share.
unfoldable pub id_byte : ℕ → Bool
id_byte b = is_ascii_alphanumeric b || b == b'-' || b == b'_'

unfoldable pub valid_recipient_id : Text → Bool
valid_recipient_id id =
    starts_with id (str "mbx_") && (leb 36 (length id) && leb (length id) 128) && all id_byte id

unfoldable pub valid_bundle_id : Text → Bool
valid_bundle_id id = (leb 16 (length id) && leb (length id) 128) && all id_byte id

unfoldable pub valid_token : Text → Bool
valid_token token = (leb 16 (length token) && leb (length token) 128) && all id_byte token

-- The loop of `pow_hash_ok`, with `bits` still to find.
unfoldable pub pow_bits_ok : ℕ → Bytes → Bool
pow_bits_ok bits [] = true
pow_bits_ok bits (byte ∷ rest) =
    let later = pow_bits_ok (bits - 8) rest in
    if bits == 0
    then true
    else if leb 8 bits
    then (if byte == 0 then later else false)
    else byte / 2 ^ (8 - bits) == 0

unfoldable pub pow_hash_ok : Bytes → Bool
unfolding pow_bits_ok
pow_hash_ok hash = pow_bits_ok pow_leading_zero_bits hash

-- The text that is hashed: `<id>:<window>:<nonce>`.
unfoldable pub pow_input : Text → ℕ → Text → Text
pow_input id window nonce = id ++ (b':' ∷ (decimal window ++ (b':' ∷ nonce)))

-- Ten-minute windows of the clock, which is read in seconds.
abbrev pub pow_window : ℕ → ℕ
pow_window now_secs = now_secs / 600

-- `verify_pow` at the clock's reading `now_secs`, over the digest that the relay imports.
unfoldable pub verify_pow : (Bytes → Bytes) → ℕ → Text → Text → Bool
unfolding pow_input pow_hash_ok
verify_pow sha256 now_secs id nonce = elim (split_once b':' nonce) [
  | none ↦ false
  | some (ts_str, nonce_part) ↦ elim (parse_u64 ts_str) [
    | none ↦ false
    | some ts_window ↦
        if not (ts_window == pow_window now_secs)
          && not (ts_window == saturating_sub (pow_window now_secs) 1)
        then false
        else pow_hash_ok (sha256 (pow_input id ts_window nonce_part))
  ]
]
