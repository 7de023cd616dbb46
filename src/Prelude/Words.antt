-- ===== src/Prelude/Words.antt =====
-- Machine words of 64 bits: the wrapping operators (`fetch_add`, and `+` in a release build), and
-- the saturating ones. `usize` is 64 bits wide.
use Prim.Native.Nat.{ℕ, ◌+◌, ◌-◌, ◌*◌, ◌%◌, ◌^◌, ◌≤◌, ◌<◌, min}
use mathlib.Core.Path.{◌≡◌}
use native.Mathlib.Omega.{arith}

abbrev pub u64_mod : ℕ
u64_mod = 2 ^ 64

unfoldable pub wrap_add : ℕ → ℕ → ℕ
wrap_add a b = (a + b) % u64_mod

unfoldable pub wrap_sub : ℕ → ℕ → ℕ
wrap_sub a b = (a + u64_mod - b) % u64_mod

unfoldable pub saturating_add : ℕ → ℕ → ℕ
saturating_add a b = min (a + b) (u64_mod - 1)

unfoldable pub saturating_sub : ℕ → ℕ → ℕ
saturating_sub a b = a - b

unfoldable pub saturating_mul : ℕ → ℕ → ℕ
saturating_mul a b = min (a * b) (u64_mod - 1)

pub wrap_add-eq_of_lt : (a b : ℕ) → a + b < u64_mod → wrap_add a b ≡ a + b
unfolding wrap_add
wrap_add-eq_of_lt a b h = omega arith

pub wrap_sub-eq_of_le : (a b : ℕ) → b ≤ a → a < u64_mod → wrap_sub a b ≡ a - b
unfolding wrap_sub
wrap_sub-eq_of_le a b h k = omega arith

pub saturating_add-eq_of_lt : (a b : ℕ) → a + b < u64_mod → saturating_add a b ≡ a + b
unfolding saturating_add
saturating_add-eq_of_lt a b h = omega arith

pub saturating_sub_lem : (a b : ℕ) → saturating_sub a b ≡ a - b
unfolding saturating_sub
saturating_sub_lem a b = omega arith
