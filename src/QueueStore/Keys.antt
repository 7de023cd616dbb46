-- ===== src/QueueStore/Keys.antt =====
-- Keys: the range of a mailbox holds exactly its own rows, and a key determines its owner.
use axeno_relay.Prelude.{
  ◌≡◌, ap, ◌∙◌, refl, Bool, not, ◌&&◌, some, [], ◌∷◌, ◌++◌, arith, Text, text_eq, text_lt,
  starts_with, split_once, IsFreeOf, split_once-append, range_of_prefix,
}
use axeno_relay.QueueStore.{QueueApi, key_for, mailbox_lo, mailbox_hi, parse_mailbox, parse_id}

-- A key that starts with one colon-free id and a colon starts with no other.
starts_with-IsFreeOf :
    (owner mailbox rest : Text)
    → IsFreeOf b':' owner
    → IsFreeOf b':' mailbox
    → starts_with (owner ++ (b':' ∷ rest)) (mailbox ++ (b':' ∷ [])) ≡ text_eq owner mailbox
unfolding starts_with text_eq split_once
starts_with-IsFreeOf [] [] rest h k = refl
starts_with-IsFreeOf [] (y ∷ mailbox) rest h k = ground arith
starts_with-IsFreeOf (x ∷ owner) [] rest h k = ground arith
starts_with-IsFreeOf (x ∷ owner) (y ∷ mailbox) rest h k =
    ground (arith, starts_with-IsFreeOf owner mailbox rest)

-- Whether a key lies in the range that `mailbox_bounds` gives.
abbrev pub in_range : Text → Text → Bool
in_range mailbox key = not (text_lt key (mailbox_lo mailbox)) && text_lt key (mailbox_hi mailbox)

module _ (api : QueueApi) where
  open api use {Uuid, display, parse_str, parse_str-display}

  pub parse_mailbox-key_for :
      (mailbox : Text) (id : Uuid)
      → IsFreeOf b':' mailbox
      → parse_mailbox (key_for api mailbox id) ≡ some mailbox
  unfolding key_for
  parse_mailbox-key_for mailbox id free =
      ground (arith, split_once-append b':' mailbox (display id) free)

  pub parse_id-key_for :
      (mailbox : Text) (id : Uuid)
      → IsFreeOf b':' mailbox
      → parse_id api (key_for api mailbox id) ≡ some id
  unfolding key_for
  parse_id-key_for mailbox id free =
      ground (arith, split_once-append b':' mailbox (display id) free, parse_str-display id)

  -- The range of a mailbox selects exactly the keys of that mailbox.
  pub in_range-key_for :
      (owner mailbox : Text) (id : Uuid)
      → IsFreeOf b':' owner
      → IsFreeOf b':' mailbox
      → in_range mailbox (key_for api owner id) ≡ text_eq owner mailbox
  unfolding key_for
  in_range-key_for owner mailbox id free free' =
      range_of_prefix mailbox (owner ++ (b':' ∷ display id))
      ∙ starts_with-IsFreeOf owner mailbox (display id) free free'

  -- A key determines its mailbox and its envelope.
  pub key_for_injective :
      (m m' : Text) (id id' : Uuid)
      → IsFreeOf b':' m
      → IsFreeOf b':' m'
      → key_for api m id ≡ key_for api m' id'
      → (m ≡ m') × (id ≡ id')
  key_for_injective m m' id id' free free' e = (
    cc (parse_mailbox-key_for m id free, parse_mailbox-key_for m' id' free', ap parse_mailbox e),
    cc (parse_id-key_for m id free, parse_id-key_for m' id' free', ap (parse_id api) e),
  )
