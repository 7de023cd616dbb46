-- ===== src/Util/ConstantTime.antt =====
-- `ct_eq` of src/util.rs decides equality of byte strings.
use Prim.Native.Nat.{bit_or, bit_xor, digits, differ, bitwise, bit_or-bitwise, bit_xor-bitwise, max}
use axeno_relay.Prelude.{
  ℕ, zero, suc, ◌+◌, ◌*◌, ◌/◌, ◌%◌, ◌≤◌, ◌<◌, ◌≡◌, ◌↔◌, sym, ap, ◌-◌, refl, true, [], ◌∷◌, arith,
  ◌∙◌, ◌==◌, Bool-cases, inl, inr, length, Bytes, Text,
}
use axeno_relay.Util.{differences, ct_eq}

-- `bitwise` recurses on fuel. Fuel beyond the number itself makes no difference, so the lowest digit
-- can be taken off.
module _ (f : ℕ → ℕ → ℕ) where
  abbrev with_fuel : ℕ → ℕ → ℕ → ℕ
  with_fuel n a b = digits (λ y. y) f n a b

  with_fuel-zero : (n b : ℕ) → with_fuel n 0 b ≡ b
  with_fuel-zero zero b = refl
  with_fuel-zero (suc n) b = refl

  spare_fuel : (need extra a b : ℕ) → a ≤ need → with_fuel (need + extra) a b ≡ with_fuel need a b
  spare_fuel need extra zero b h = with_fuel-zero (need + extra) b ∙ sym (with_fuel-zero need b)
  spare_fuel zero extra (suc a) b h = absurd (omega arith)
  spare_fuel (suc need) extra (suc a) b h =
      let halves = spare_fuel need extra (suc a / 2) (b / 2) (omega arith) in
      let more : suc need + extra ≡ suc (need + extra) = omega arith in
      ap (λ n. with_fuel n (suc a) b) more ∙ ap (λ d. d * 2 + f (suc a % 2) (b % 2)) halves

  low_digit :
      (a b : ℕ)
      → bitwise (λ y. y) f (suc a) b
        ≡ bitwise (λ y. y) f (suc a / 2) (b / 2) * 2 + f (suc a % 2) (b % 2)
  low_digit a b =
      let half = suc a / 2 in
      let spared = spare_fuel half (a - half) half (b / 2) (omega arith) in
      let enough : half + (a - half) ≡ a = omega arith in
      omega (arith, ap (λ n. with_fuel n half (b / 2)) enough, spared)

bit_or-suc : (a b : ℕ) → bit_or (suc a) b ≡ bit_or (suc a / 2) (b / 2) * 2 + max (suc a % 2) (b % 2)
bit_or-suc a b = simp bit_or-bitwise (low_digit max a b)

bit_xor-suc :
    (a b : ℕ) → bit_xor (suc a) b ≡ bit_xor (suc a / 2) (b / 2) * 2 + differ (suc a % 2) (b % 2)
bit_xor-suc a b = simp bit_xor-bitwise (low_digit differ a b)

differ-eq-zero : (a b : ℕ) → a < 2 → b < 2 → differ a b ≡ 0 → a ≡ b
differ-eq-zero zero b h k e = omega arith
differ-eq-zero (suc a) zero h k e = absurd (omega arith)
differ-eq-zero (suc a) (suc b) h k e = omega arith

zero-bit_or : (b : ℕ) → bit_or 0 b ≡ b
zero-bit_or b = bit_or-bitwise 0 b

zero-bit_xor : (b : ℕ) → bit_xor 0 b ≡ b
zero-bit_xor b = bit_xor-bitwise 0 b

bit_or_below : (n a b : ℕ) → a ≤ n → bit_or a b ≡ 0 → (a ≡ 0) × (b ≡ 0)
bit_or_below n zero b h e = omega (arith, zero-bit_or b)
bit_or_below zero (suc a) b h e = absurd (omega arith)
bit_or_below (suc n) (suc a) b h e =
    let low = bit_or-suc a b in
    let high = bit_or_below n (suc a / 2) (b / 2) (omega arith) (omega arith) in omega arith

bit_xor_below : (n a b : ℕ) → a ≤ n → bit_xor a b ≡ 0 → a ≡ b
bit_xor_below n zero b h e = omega (arith, zero-bit_xor b)
bit_xor_below zero (suc a) b h e = absurd (omega arith)
bit_xor_below (suc n) (suc a) b h e =
    let low = bit_xor-suc a b in
    let high = bit_xor_below n (suc a / 2) (b / 2) (omega arith) (omega arith) in
    let digit = differ-eq-zero (suc a % 2) (b % 2) (omega arith) (omega arith) (omega arith) in
    omega arith

differ_self : (a : ℕ) → differ a a ≡ 0
differ_self zero = refl
differ_self (suc a) = differ_self a

bit_xor_self_below : (n a : ℕ) → a ≤ n → bit_xor a a ≡ 0
bit_xor_self_below n zero h = refl
bit_xor_self_below zero (suc a) h = absurd (omega arith)
bit_xor_self_below (suc n) (suc a) h =
    let high = bit_xor_self_below n (suc a / 2) (omega arith) in
    let digit = differ_self (suc a % 2) in bit_xor-suc a (suc a) ∙ rw (high, digit) (omega arith)

differences-zero :
    (acc : ℕ) (xs ys : Bytes)
    → length xs ≡ length ys
    → differences acc xs ys ≡ 0
    → (acc ≡ 0) × (xs ≡ ys)
unfolding differences
differences-zero acc [] [] h e = (e, refl)
differences-zero acc [] (y ∷ ys) h e = absurd (omega arith)
differences-zero acc (x ∷ xs) [] h e = absurd (omega arith)
differences-zero acc (x ∷ xs) (y ∷ ys) h e =
    let (zeros, tails) = differences-zero (bit_or acc (bit_xor x y)) xs ys (omega arith) e in
    let (here, same) = bit_or_below acc acc (bit_xor x y) (omega arith) zeros in
    let heads = bit_xor_below x x y (omega arith) same in (here, cc)

differences_self : (xs : Bytes) → differences 0 xs xs ≡ 0
unfolding differences
differences_self [] = refl
differences_self (x ∷ xs) =
    rw (bit_xor_self_below x x (omega arith), zero-bit_or 0) (differences_self xs)

-- The comparison that does not branch on the bytes holds exactly of equal texts.
pub ct_eq_iff : (a b : Text) → (ct_eq a b ≡ true) ↔ (a ≡ b)
unfolding ct_eq
ct_eq_iff a b = (
  λ h. elim (Bool-cases (length a == length b)) [
    | inl e ↦ (differences-zero 0 a b (ground arith) (ground arith)).1
    | inr e ↦ ground arith
  ],
  λ h. rw h (ground (arith, differences_self b)),
)
