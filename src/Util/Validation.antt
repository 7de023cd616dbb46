-- ===== src/Util/Validation.antt =====
-- What the validators of src/util.rs guarantee of an accepted id.
use axeno_relay.Prelude.{◌≤◌, ◌≡◌, refl, true, false, arith, length, Text, IsFreeOf, IsFreeOf-all}
use axeno_relay.Util.{id_byte, valid_recipient_id, valid_bundle_id, valid_token}

colon_is_no_id_byte : id_byte b':' ≡ false
unfolding id_byte
colon_is_no_id_byte = refl

-- A valid mailbox id has no colon, so that it can be followed by one in a key.
pub valid_recipient_id-IsFreeOf : (id : Text) → valid_recipient_id id ≡ true → IsFreeOf b':' id
unfolding valid_recipient_id
valid_recipient_id-IsFreeOf id h = IsFreeOf-all b':' id_byte id colon_is_no_id_byte (ground arith)

-- So with a bundle or transfer id.
pub valid_bundle_id-IsFreeOf : (id : Text) → valid_bundle_id id ≡ true → IsFreeOf b':' id
unfolding valid_bundle_id
valid_bundle_id-IsFreeOf id h = IsFreeOf-all b':' id_byte id colon_is_no_id_byte (ground arith)

-- A mailbox id is also well-formed as a bundle id and as a token.
pub valid_recipient_id-valid_bundle_id :
    (id : Text)
    → valid_recipient_id id ≡ true
    → (valid_bundle_id id ≡ true) × (valid_token id ≡ true) × (36 ≤ length id) × (length id ≤ 128)
unfolding valid_recipient_id valid_bundle_id valid_token
valid_recipient_id-valid_bundle_id id h = ground arith
