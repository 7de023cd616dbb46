-- ===== src/State/Tokens/Laws.antt =====
-- Which delivery tokens a mailbox accepts, and how many it keeps.
use axeno_relay.Prelude.{
  ◌+◌, ◌≤◌, ◌≡◌, ◌⊎◌, ◌↔◌, ◌≢◌, ◌≢◌, inl, inr, refl, sym, ap, ◌∙◌, Bool, true, false, ◌||◌, List,
  [], ◌∷◌, ◌++◌, arith, leb, length, any, drop, take, Text, text_eq, text_eq_iff, Bool-cases,
  length-append, length-drop, length-take-le,
}
use axeno_relay.Config.{max_delivery_tokens_per_mailbox}
use axeno_relay.Util.{ct_eq}
use axeno_relay.Util.ConstantTime.{ct_eq_iff}
use axeno_relay.State.Tokens.{
  MailboxAuth, accepts_delivery_hash, contains, ensure_delivery_hash, first_hash, distinct_hashes,
  head_or_default, replace_delivery_hashes,
}

-- Membership, by equality.
abbrev pub IsIn : Text → List Text → Type 0
IsIn hash hashes = contains hash hashes ≡ true

contains-append :
    (h : Text) (l r : List Text) → contains h (l ++ r) ≡ (contains h l || contains h r)
contains-append h [] r = refl
contains-append h (x ∷ l) r = ground (arith, contains-append h l r)

ct_eq-text_eq : (a b : Text) → ct_eq a b ≡ text_eq a b
ct_eq-text_eq a b = ground (arith, ct_eq_iff a b, text_eq_iff a b)

any-ct_eq : (h : Text) (l : List Text) → any (λ x. ct_eq x h) l ≡ contains h l
any-ct_eq h [] = refl
any-ct_eq h (x ∷ l) = rw (ct_eq-text_eq x h, any-ct_eq h l) refl

contains-distinct_hashes :
    (h : Text) (out l : List Text)
    → contains h (distinct_hashes out l) ≡ (contains h out || contains h l)
unfolding distinct_hashes
contains-distinct_hashes h out [] = ground arith
contains-distinct_hashes h out (x ∷ l) = elim (Bool-cases (contains x out)) [
  | inl e ↦ rw e (ground (arith, contains-distinct_hashes h out l, text_eq_iff x h))
  | inr e ↦
      rw e (
        ground
          (arith, contains-distinct_hashes h (out ++ x ∷ []) l, contains-append h out (x ∷ [])))
]

length-distinct_hashes :
    (out l : List Text) → length (distinct_hashes out l) ≤ length out + length l
unfolding distinct_hashes
length-distinct_hashes out [] = omega arith
length-distinct_hashes out (x ∷ l) = elim (Bool-cases (contains x out)) [
  | inl e ↦ rw e (omega (arith, length-distinct_hashes out l))
  | inr e ↦
      rw e (omega (arith, length-distinct_hashes (out ++ x ∷ []) l, length-append out (x ∷ [])))
]

accepts_iff :
    (auth : MailboxAuth) (h : Text)
    → accepts_delivery_hash auth h
      ≡ (text_eq auth.delivery_token_hash h || contains h auth.delivery_token_hashes)
unfolding accepts_delivery_hash
accepts_iff auth h =
    rw (ct_eq-text_eq auth.delivery_token_hash h, any-ct_eq h auth.delivery_token_hashes) refl

contains-drop : (h : Text) (l : List Text) → contains h (drop 1 l) ≡ true → contains h l ≡ true
contains-drop h [] e = e
contains-drop h (x ∷ l) e = ground arith

-- The list after a token is ensured, on the three branches.
ensure-cases :
    (hash : Text) (auth : MailboxAuth)
    → ((ensure_delivery_hash hash auth).1.delivery_token_hashes ≡ auth.delivery_token_hashes)
        × (contains hash auth.delivery_token_hashes ≡ true)
      ⊎ (((ensure_delivery_hash hash auth).1.delivery_token_hashes
              ≡ drop 1 auth.delivery_token_hashes ++ hash ∷ [])
            × (max_delivery_tokens_per_mailbox ≤ length auth.delivery_token_hashes)
          ⊎ ((ensure_delivery_hash hash auth).1.delivery_token_hashes
              ≡ auth.delivery_token_hashes ++ hash ∷ [])
            × (length auth.delivery_token_hashes + 1 ≤ max_delivery_tokens_per_mailbox))
unfolding ensure_delivery_hash
ensure-cases hash auth = elim (Bool-cases (contains hash auth.delivery_token_hashes)) [
  | inl e ↦ rw e (inl (refl, refl))
  | inr e ↦
      rw e
        (elim (Bool-cases
          (leb max_delivery_tokens_per_mailbox (length auth.delivery_token_hashes))) [
            | inl full ↦ rw full (inr (inl (refl, ground arith)))
            | inr room ↦ rw room (inr (inr (refl, ground arith)))
          ])
]

ensure-named :
    (hash : Text) (auth : MailboxAuth)
    → (ensure_delivery_hash hash auth).1.delivery_token_hash
      ≡ first_hash auth.delivery_token_hash hash
unfolding ensure_delivery_hash
ensure-named hash auth = ground arith

first_hash-cases :
    (d hash q : Text) → text_eq (first_hash d hash) q ≡ true → (q ≡ hash) ⊎ (text_eq d q ≡ true)
first_hash-cases [] hash q e = inl (sym ((text_eq_iff hash q).0 e))
first_hash-cases (x ∷ d) hash q e = inr e

first_hash-keeps :
    (d hash q : Text) → text_eq d q ≡ true → q ≢ [] → text_eq (first_hash d hash) q ≡ true
first_hash-keeps [] hash q e nonempty = absurd (nonempty (sym ((text_eq_iff [] q).0 e)))
first_hash-keeps (x ∷ d) hash q e nonempty = e

||-true : (a b : Bool) → (a || b) ≡ true → (a ≡ true) ⊎ (b ≡ true)
||-true true b e = inl refl
||-true false b e = inr e

contains-last :
    (h hash : Text) (l : List Text)
    → contains h (l ++ hash ∷ []) ≡ true
    → (h ≡ hash) ⊎ (contains h l ≡ true)
contains-last h hash l e =
    elim (||-true (contains h l) (text_eq hash h)
      (ground (arith, contains-append h l (hash ∷ [])))) [
        | inl old ↦ inr old
        | inr new ↦ inl (sym ((text_eq_iff hash h).0 new))
      ]

-- A token that was ensured is accepted, and a list of at most 64 tokens stays one.
pub ensure_delivery_hash-accepts :
    (hash : Text) (auth : MailboxAuth)
    → length auth.delivery_token_hashes ≤ max_delivery_tokens_per_mailbox
    → (accepts_delivery_hash (ensure_delivery_hash hash auth).1 hash ≡ true)
      × (length (ensure_delivery_hash hash auth).1.delivery_token_hashes
          ≤ max_delivery_tokens_per_mailbox)
ensure_delivery_hash-accepts hash auth bounded =
    let l = auth.delivery_token_hashes in
    rw (accepts_iff (ensure_delivery_hash hash auth).1 hash) (elim (ensure-cases hash auth) [
      | inl (e, here) ↦ rw e (ground (arith, here), bounded)
      | inr (inl (e, full)) ↦ rw e (
        ground (arith, contains-append hash (drop 1 l) (hash ∷ []), text_eq_iff hash hash),
        omega (arith, length-append (drop 1 l) (hash ∷ []), length-drop 1 l),
      )
      | inr (inr (e, room)) ↦ rw e (
        ground (arith, contains-append hash l (hash ∷ []), text_eq_iff hash hash),
        omega (arith, length-append l (hash ∷ [])),
      )
    ])

ensured-contains :
    (hash : Text) (auth : MailboxAuth) (h : Text)
    → contains h (ensure_delivery_hash hash auth).1.delivery_token_hashes ≡ true
    → (h ≡ hash) ⊎ (contains h auth.delivery_token_hashes ≡ true)
ensured-contains hash auth h e = elim (ensure-cases hash auth) [
  | inl (same, here) ↦ inr (sym (ap (contains h) same) ∙ e)
  | inr (inl (same, full)) ↦
      elim (contains-last h hash (drop 1 auth.delivery_token_hashes)
        (sym (ap (contains h) same) ∙ e)) [
          | inl new ↦ inl new
          | inr old ↦ inr (contains-drop h auth.delivery_token_hashes old)
        ]
  | inr (inr (same, room)) ↦
      contains-last h hash auth.delivery_token_hashes (sym (ap (contains h) same) ∙ e)
]

accepts-of_parts :
    (auth : MailboxAuth) (h : Text)
    → (text_eq auth.delivery_token_hash h ≡ true) ⊎ (contains h auth.delivery_token_hashes ≡ true)
    → accepts_delivery_hash auth h ≡ true
accepts-of_parts auth h (inl e) = accepts_iff auth h ∙ ground arith
accepts-of_parts auth h (inr e) = accepts_iff auth h ∙ ground arith

accepts-parts :
    (auth : MailboxAuth) (h : Text)
    → accepts_delivery_hash auth h ≡ true
    → (text_eq auth.delivery_token_hash h ≡ true) ⊎ (contains h auth.delivery_token_hashes ≡ true)
accepts-parts auth h e = ||-true _ _ (sym (accepts_iff auth h) ∙ e)

-- Ensuring a token makes the mailbox accept no other token that it did not accept before.
pub ensure_delivery_hash-no_other :
    (hash : Text) (auth : MailboxAuth) (h : Text)
    → accepts_delivery_hash (ensure_delivery_hash hash auth).1 h ≡ true
    → (h ≡ hash) ⊎ (accepts_delivery_hash auth h ≡ true)
ensure_delivery_hash-no_other hash auth h accepted =
    elim (accepts-parts (ensure_delivery_hash hash auth).1 h accepted) [
      | inl named ↦
          elim (first_hash-cases auth.delivery_token_hash hash h
            (sym (ap (λ d. text_eq d h) (ensure-named hash auth)) ∙ named)) [
              | inl new ↦ inl new
              | inr old ↦ inr (accepts-of_parts auth h (inl old))
            ]
      | inr listed ↦ elim (ensured-contains hash auth h listed) [
        | inl new ↦ inl new
        | inr old ↦ inr (accepts-of_parts auth h (inr old))
      ]
    ]

contains-of_append : (h : Text) (l r : List Text) → contains h l ≡ true → contains h (l ++ r) ≡ true
contains-of_append h l r e = contains-append h l r ∙ rw e refl

-- While a mailbox has fewer than 64 delivery tokens, ensuring another one takes no accepted token
-- away, the empty text apart.
pub ensure_delivery_hash-keeps :
    (hash : Text) (auth : MailboxAuth) (h : Text)
    → length auth.delivery_token_hashes + 1 ≤ max_delivery_tokens_per_mailbox
    → h ≢ []
    → accepts_delivery_hash auth h ≡ true
    → accepts_delivery_hash (ensure_delivery_hash hash auth).1 h ≡ true
ensure_delivery_hash-keeps hash auth h room nonempty accepted =
    accepts-of_parts (ensure_delivery_hash hash auth).1 h (elim (accepts-parts auth h accepted) [
      | inl named ↦ inl (
          ap (λ d. text_eq d h) (ensure-named hash auth)
          ∙ first_hash-keeps auth.delivery_token_hash hash h named nonempty)
      | inr listed ↦ inr (elim (ensure-cases hash auth) [
        | inl (same, here) ↦ ap (contains h) same ∙ listed
        | inr (inl (same, full)) ↦ absurd (omega arith)
        | inr (inr (same, _)) ↦
            ap (contains h) same
            ∙ contains-of_append h auth.delivery_token_hashes (hash ∷ []) listed
      ])
    ])

head-redundant :
    (h : Text) (l : List Text)
    → h ≢ []
    → (text_eq (head_or_default l) h || contains h l) ≡ contains h l
head-redundant h [] nonempty = elim (Bool-cases (text_eq [] h)) [
  | inl e ↦ absurd (nonempty (sym ((text_eq_iff [] h).0 e)))
  | inr e ↦ rw e refl
]
head-redundant h (x ∷ l) nonempty = ground arith

-- The replacement makes the mailbox accept the first 64 of the given hashes and nothing else (the
-- empty text apart), and keeps at most 64.
pub replace_delivery_hashes-accepts :
    (hashes : List Text) (auth : MailboxAuth) (h : Text)
    → h ≢ []
    → ((accepts_delivery_hash (replace_delivery_hashes hashes auth) h ≡ true)
        ↔ IsIn h (take max_delivery_tokens_per_mailbox hashes))
      × (length (replace_delivery_hashes hashes auth).delivery_token_hashes
          ≤ max_delivery_tokens_per_mailbox)
unfolding replace_delivery_hashes
replace_delivery_hashes-accepts hashes auth h nonempty =
    let given = take max_delivery_tokens_per_mailbox hashes in
    let out = distinct_hashes [] given in
    let same : accepts_delivery_hash (replace_delivery_hashes hashes auth) h ≡ contains h given =
      accepts_iff (replace_delivery_hashes hashes auth) h
      ∙ head-redundant h out nonempty
      ∙ contains-distinct_hashes h [] given in
    (
      (λ e. sym same ∙ e, λ e. same ∙ e),
      omega (
        arith,
        length-distinct_hashes [] given,
        length-take-le max_delivery_tokens_per_mailbox hashes,
      ),
    )
