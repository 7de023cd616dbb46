-- ===== src/State/Tokens.antt =====
-- The credentials of a mailbox in src/state.rs: one receive token and a bounded list of delivery
-- tokens, all as hashes.
pub mod Laws
use axeno_relay.Prelude.{
  ℕ, Bool, true, false, ◌||◌, List, [], ◌∷◌, ◌++◌, leb, if◌then◌else◌, length, any, drop, take,
  Text, text_eq,
}
use axeno_relay.Config.{max_delivery_tokens_per_mailbox}
use axeno_relay.Util.{ct_eq, now_activity_ms}

pub record MailboxAuth : Type 0 where
  pub receive_auth_hash : Text
  pub delivery_token_hash : Text
  pub delivery_token_hashes : List Text
  pub last_active_ms : ℕ

-- `MailboxAuth::new`, of what the clock reads.
unfoldable pub new_auth : ℕ → Text → Text → MailboxAuth
unfolding now_activity_ms
new_auth now receive_auth_hash delivery_hash = record {
  receive_auth_hash = receive_auth_hash;
  delivery_token_hash = delivery_hash;
  delivery_token_hashes = delivery_hash ∷ [];
  last_active_ms = now_activity_ms now;
}

unfoldable pub accepts_delivery_hash : MailboxAuth → Text → Bool
accepts_delivery_hash auth hash =
    ct_eq auth.delivery_token_hash hash || any (λ h. ct_eq h hash) auth.delivery_token_hashes

abbrev pub contains : Text → List Text → Bool
contains hash = any (λ h. text_eq h hash)

abbrev pub first_hash : Text → Text → Text
first_hash [] hash = hash
first_hash (x ∷ xs) hash = x ∷ xs

-- Returns whether the list changed, and the credentials.
unfoldable pub ensure_delivery_hash : Text → MailboxAuth → Bool × MailboxAuth
ensure_delivery_hash hash auth =
    let named = record auth { delivery_token_hash = first_hash auth.delivery_token_hash hash } in
    if contains hash auth.delivery_token_hashes
    then (false, named)
    else if leb max_delivery_tokens_per_mailbox (length auth.delivery_token_hashes)
    then (
      true,
      record named { delivery_token_hashes = drop 1 auth.delivery_token_hashes ++ hash ∷ [] },
    )
    else (true, record named { delivery_token_hashes = auth.delivery_token_hashes ++ hash ∷ [] })

-- The loop of `replace_delivery_hashes`: a hash that is out already is not pushed again.
unfoldable pub distinct_hashes : List Text → List Text → List Text
distinct_hashes out [] = out
distinct_hashes out (hash ∷ hashes) =
    distinct_hashes (if contains hash out then out else out ++ hash ∷ []) hashes

abbrev pub head_or_default : List Text → Text
head_or_default [] = []
head_or_default (hash ∷ hashes) = hash

unfoldable pub replace_delivery_hashes : List Text → MailboxAuth → MailboxAuth
unfolding distinct_hashes take
replace_delivery_hashes hashes auth =
    let out = distinct_hashes [] (take max_delivery_tokens_per_mailbox hashes) in
    record auth { delivery_token_hash = head_or_default out; delivery_token_hashes = out }
