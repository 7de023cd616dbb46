-- ===== src/Util/Pow.antt =====
-- The proof of work of src/util.rs: what a passing digest is, and how long a proof is good for.
use native.Mathlib.Nat.{pow-suc}
use axeno_relay.Prelude.{
  ℕ, ◌+◌, ◌*◌, ◌-◌, ◌^◌, ◌<◌, ◌≤◌, ◌≡◌, ◌↔◌, ◌⊎◌, refl, true, false, some, [], ◌∷◌, ◌++◌, arith,
  length, All, Bytes, Text, split_once, split_once-append, IsFreeOf-all, decimal, parse_u64,
  parse_u64-decimal, decimal_digits, saturating_sub, u64_mod, inl, inr, Option-cases, Bool-cases,
  ◌==◌, leb, ◌&&◌,
}
use axeno_relay.Util.{pow_hash_ok, pow_input, pow_window, verify_pow}

-- The number that a digest spells, its first byte the highest.
abbrev pub big_endian : Bytes → ℕ
big_endian [] = 0
big_endian (b ∷ rest) = b * 256 ^ length rest + big_endian rest

big_endian-lt : (h : Bytes) → All (λ b. b < 256) h → big_endian h < 256 ^ length h
big_endian-lt [] v = omega arith
big_endian-lt (b ∷ rest) v =
    let low = big_endian-lt rest v.1 in let power = pow-suc 256 (length rest) in grind arith

-- The first 22 bits: two bytes and six bits.
passes :
    (a b c : ℕ) (rest : Bytes) → pow_hash_ok (a ∷ b ∷ c ∷ rest) ≡ true → (a ≡ 0) × (b ≡ 0) × (c < 4)
unfolding pow_hash_ok
passes a b c rest h = ground arith

passes_back :
    (a b c : ℕ) (rest : Bytes) → a ≡ 0 → b ≡ 0 → c < 4 → pow_hash_ok (a ∷ b ∷ c ∷ rest) ≡ true
unfolding pow_hash_ok
passes_back a b c rest h k l = ground arith

module _ (p r : ℕ) (fits : r < p) where
  leading_zeros_bound : (c : ℕ) → c < 4 → (c * p + r) * 2 ^ 22 < p * 256 * 256 * 256
  leading_zeros_bound c h = let top : c * p ≤ 3 * p = grind arith in omega arith

  bound_leading_zeros :
      (a b c : ℕ)
      → (a * (p * 256 * 256) + (b * (p * 256) + (c * p + r))) * 2 ^ 22 < p * 256 * 256 * 256
      → (a ≡ 0) × (b ≡ 0) × (c < 4)
  bound_leading_zeros a b c h = (
    elim (Bool-cases (a == 0)) [
      | inl e ↦ ground arith
      | inr e ↦ let big : p ≤ a * p = grind arith in absurd (omega arith)
    ],
    elim (Bool-cases (b == 0)) [
      | inl e ↦ ground arith
      | inr e ↦ let big : p ≤ b * p = grind arith in absurd (omega arith)
    ],
    elim (Bool-cases (leb 4 c)) [
      | inr e ↦ ground arith
      | inl e ↦ let big : 4 * p ≤ c * p = grind arith in absurd (omega arith)
    ],
  )

-- A digest of at least three bytes passes exactly when its first 22 bits are zero: as a number it
-- lies in the lowest 2^22nd part of its range.
pub pow_hash_ok_iff :
    (a b c : ℕ) (rest : Bytes)
    → All (λ x. x < 256) (a ∷ b ∷ c ∷ rest)
    → (pow_hash_ok (a ∷ b ∷ c ∷ rest) ≡ true)
      ↔ (big_endian (a ∷ b ∷ c ∷ rest) * 2 ^ 22 < 256 ^ length (a ∷ b ∷ c ∷ rest))
pow_hash_ok_iff a b c rest v =
    let n = length rest in
    let fits = big_endian-lt rest v.1.1.1 in
    simp pow-suc (
      λ h.
          let (za, zb, lc) = passes a b c rest h in
          rw (za, zb) (omega (arith, leading_zeros_bound (256 ^ n) (big_endian rest) fits c lc)),
      λ h.
          let (za, zb, lc) =
            bound_leading_zeros (256 ^ n) (big_endian rest) fits a b c (omega arith) in
          passes_back a b c rest za zb lc,
    )

-- A proof that is accepted names the present window or the one before it.
pub verify_pow_window :
    (sha256 : Bytes → Bytes) (now : ℕ) (id nonce : Text)
    → verify_pow sha256 now id nonce ≡ true
    → (w : ℕ) × (part : Text) × (ts : Text) × (split_once b':' nonce ≡ some (ts, part))
      × (parse_u64 ts ≡ some w)
      × ((w ≡ pow_window now) ⊎ (w ≡ pow_window now - 1))
      × (pow_hash_ok (sha256 (pow_input id w part)) ≡ true)
unfolding verify_pow saturating_sub
verify_pow_window sha256 now id nonce h = elim (Option-cases (split_once b':' nonce)) [
  | inl e ↦ absurd (ground arith)
  | inr (p, e) ↦ elim (Option-cases (parse_u64 p.0)) [
    | inl f ↦ absurd (ground arith)
    | inr (w, f) ↦ (w, p.1, p.0, e, f, ground arith, ground arith)
  ]
]

-- A nonce that is accepted once is refused from twenty minutes later on.
pub verify_pow_expires :
    (sha256 : Bytes → Bytes) (now later : ℕ) (id nonce : Text)
    → verify_pow sha256 now id nonce ≡ true
    → now + 1200 ≤ later
    → verify_pow sha256 later id nonce ≡ false
verify_pow_expires sha256 now later id nonce h gap =
    elim (Bool-cases (verify_pow sha256 later id nonce)) [
      | inr e ↦ e
      | inl e ↦
          let (w, part, ts, sp, ps, wins, _) = verify_pow_window sha256 now id nonce h in
          let (w', part', ts', sp', ps', wins', _) = verify_pow_window sha256 later id nonce e in
          let same : w ≡ w' = cc in absurd (omega arith)
    ]

colon_is_no_digit : (leb b'0' b':' && leb b':' b'9') ≡ false
colon_is_no_digit = refl

-- An honest client's nonce, `<window>:<part>` with a passing digest, is accepted in its window and
-- in the next one.
pub verify_pow_accepts :
    (sha256 : Bytes → Bytes) (now : ℕ) (id part : Text) (w : ℕ)
    → w < u64_mod
    → (w ≡ pow_window now) ⊎ (w + 1 ≡ pow_window now)
    → pow_hash_ok (sha256 (pow_input id w part)) ≡ true
    → verify_pow sha256 now id (decimal w ++ (b':' ∷ part)) ≡ true
unfolding verify_pow saturating_sub
verify_pow_accepts sha256 now id part w fits wins h =
    let free = IsFreeOf-all b':' _ (decimal w) colon_is_no_digit (decimal_digits w) in
    ground (arith, split_once-append b':' (decimal w) part free, parse_u64-decimal w fits)
