-- ===== src/Prelude/Decimal.antt =====
-- `u64` to and from decimal text: `Display`, and `str::parse::<u64>`.
use Prim.Native.Nat.{ℕ, zero, suc, ◌+◌, ◌-◌, ◌*◌, ◌/◌, ◌%◌, ◌^◌, ◌<◌}
use mathlib.Core.Path.{◌≡◌, refl, ◌∙◌}
use mathlib.Core.Logic.{◌≢◌, inl, inr}
use mathlib.Core.Bool.{Bool, true, ◌&&◌}
use mathlib.Core.List.{[], ◌∷◌}
use mathlib.Core.Option.{Option, none, some}
use native.Mathlib.Nat.{pow-suc}
use native.Mathlib.Omega.{arith}
use axeno_relay.Prelude.Tests.{◌==◌, ltb, leb, lt→ltb, ltb→lt, Bool-cases, if◌then◌else◌}
use axeno_relay.Prelude.Lists.{all}
use axeno_relay.Prelude.Texts.{Text}
use axeno_relay.Prelude.Words.{u64_mod}

-- The digits of `n`, in front of `acc`. Each round divides by ten, so twenty rounds are enough for
-- a 64-bit value.
decimal_from : ℕ → ℕ → Text → Text
decimal_from zero n acc = acc
decimal_from (suc fuel) n acc =
    let more = decimal_from fuel (n / 10) ((b'0' + n % 10) ∷ acc) in
    if ltb n 10 then (b'0' + n) ∷ acc else more

unfoldable pub decimal : ℕ → Text
unfolding decimal_from
decimal n = decimal_from 20 n []

-- The digits of a text after `acc`; any other byte, or an overflow of `u64`, is an error.
parse_digits : ℕ → Text → Option ℕ
parse_digits acc [] = some acc
parse_digits acc (c ∷ rest) =
    let next = acc * 10 + (c - b'0') in
    let later = parse_digits next rest in
    if leb b'0' c && leb c b'9' then (if ltb next u64_mod then later else none) else none

-- `str::parse::<u64>`: one leading `+` is allowed, and at least one digit is wanted.
unfoldable pub parse_u64 : Text → Option ℕ
unfolding parse_digits
parse_u64 [] = none
parse_u64 (c ∷ []) = parse_digits 0 (c ∷ [])
parse_u64 (c ∷ d ∷ rest) =
    if c == b'+' then parse_digits 0 (d ∷ rest) else parse_digits 0 (c ∷ d ∷ rest)

-- Digits and no other byte.
abbrev pub all_digits : Text → Bool
all_digits = all (λ c. leb b'0' c && leb c b'9')

decimal_from_step :
    (fuel n : ℕ) (acc : Text)
    → decimal_from (suc fuel) n acc
      ≡ (if ltb n 10 then (b'0' + n) ∷ acc else decimal_from fuel (n / 10) ((b'0' + n % 10) ∷ acc))
unfolding decimal_from
decimal_from_step fuel n acc = refl

-- Reading one more digit.
parse_digits_step :
    (acc d : ℕ) (rest : Text)
    → d < 10
    → {n : ℕ} → acc * 10 + d ≡ n
    → n < u64_mod
    → parse_digits acc ((b'0' + d) ∷ rest) ≡ parse_digits n rest
unfolding parse_digits
parse_digits_step acc d rest h e w =
    let e' : b'0' + d - b'0' ≡ d = omega arith in rw (e', e) (ground arith)

-- Parsing what was printed goes on with the number that was printed.
parse-decimal_from :
    (fuel n : ℕ) (acc : Text)
    → n < 10 ^ suc fuel
    → n < u64_mod
    → parse_digits 0 (decimal_from (suc fuel) n acc) ≡ parse_digits n acc
parse-decimal_from zero n acc h w =
    rw (decimal_from_step zero n acc, lt→ltb n 10 h) (parse_digits_step 0 n acc h (omega arith) w)
parse-decimal_from (suc fuel) n acc h w = elim (Bool-cases (ltb n 10)) [
  | inl small ↦
      rw (decimal_from_step (suc fuel) n acc, small)
        (parse_digits_step 0 n acc (ltb→lt n 10 small) (omega arith) w)
  | inr big ↦
      rw (decimal_from_step (suc fuel) n acc, big)
        (parse-decimal_from fuel (n / 10) _ (omega (arith, pow-suc 10 (suc fuel))) (omega arith)
          ∙ parse_digits_step (n / 10) (n % 10) acc (omega arith) (omega arith) w)
]

decimal_from_digits :
    (fuel n : ℕ) (acc : Text) → all_digits acc ≡ true → all_digits (decimal_from fuel n acc) ≡ true
unfolding decimal_from
decimal_from_digits zero n acc h = h
decimal_from_digits (suc fuel) n acc h =
    ground (arith, decimal_from_digits fuel (n / 10) ((b'0' + n % 10) ∷ acc))

pub decimal_digits : (n : ℕ) → all_digits (decimal n) ≡ true
unfolding decimal
decimal_digits n = decimal_from_digits 20 n [] refl

-- On digits alone the leading `+` plays no part.
parse_u64-digits :
    (c : ℕ) (t : Text) → all_digits (c ∷ t) ≡ true → parse_u64 (c ∷ t) ≡ parse_digits 0 (c ∷ t)
unfolding parse_u64
parse_u64-digits c [] h = refl
parse_u64-digits c (d ∷ t) h = ground arith

decimal_from-ne-nil : (fuel n : ℕ) (acc : Text) → decimal_from (suc fuel) n acc ≢ []
unfolding decimal_from
decimal_from-ne-nil zero n acc = ground arith
decimal_from-ne-nil (suc fuel) n acc =
    ground (arith, decimal_from-ne-nil fuel (n / 10) ((b'0' + n % 10) ∷ acc))

parse_u64-of_digits : (t : Text) → all_digits t ≡ true → t ≢ [] → parse_u64 t ≡ parse_digits 0 t
parse_u64-of_digits [] h k = absurd (k refl)
parse_u64-of_digits (c ∷ t) h k = parse_u64-digits c t h

-- A printed number parses back.
pub parse_u64-decimal : (n : ℕ) → n < u64_mod → parse_u64 (decimal n) ≡ some n
unfolding decimal parse_digits
parse_u64-decimal n w =
    parse_u64-of_digits (decimal_from 20 n []) (decimal_from_digits 20 n [] refl)
      (decimal_from-ne-nil 19 n [])
    ∙ parse-decimal_from 19 n [] (omega arith) w
