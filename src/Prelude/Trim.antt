-- ===== src/Prelude/Trim.antt =====
-- `str::trim` and `str::lines` on UTF-8 bytes.
use Prim.Native.Nat.{ℕ, zero, suc}
use mathlib.Core.Bool.{Bool, ◌&&◌, ◌||◌}
use mathlib.Core.List.{List, [], ◌∷◌}
use axeno_relay.Prelude.Tests.{◌==◌, leb, if◌then◌else◌}
use axeno_relay.Prelude.Texts.{Text}

abbrev is_space1 : ℕ → Bool
is_space1 a = (leb 9 a && leb a 13) || a == 32

abbrev is_space2 : ℕ → ℕ → Bool
is_space2 a b = (a == 194) && (b == 133 || b == 160)

abbrev is_space3 : ℕ → ℕ → ℕ → Bool
is_space3 a b c =
    ((a == 225) && (b == 154) && (c == 128))
    || ((a == 226) && (b == 128) && ((leb 128 c && leb c 138) || c == 168 || c == 169 || c == 175))
    || ((a == 226) && (b == 129) && (c == 159))
    || ((a == 227) && (b == 128) && (c == 128))

-- How many bytes the white space character at the start has; 0 where there is none.
unfoldable pub leading_space : Text → ℕ
leading_space [] = 0
leading_space (a ∷ []) = if is_space1 a then 1 else 0
leading_space (a ∷ b ∷ []) = if is_space1 a then 1 else if is_space2 a b then 2 else 0
leading_space (a ∷ b ∷ c ∷ rest) =
    if is_space1 a then 1 else if is_space2 a b then 2 else if is_space3 a b c then 3 else 0

-- The same for a text that is read backwards.
unfoldable pub trailing_space : Text → ℕ
trailing_space [] = 0
trailing_space (c ∷ []) = if is_space1 c then 1 else 0
trailing_space (c ∷ b ∷ []) = if is_space1 c then 1 else if is_space2 b c then 2 else 0
trailing_space (c ∷ b ∷ a ∷ rest) =
    if is_space1 c then 1 else if is_space2 b c then 2 else if is_space3 a b c then 3 else 0

-- White space is dropped from the start; the number says how many bytes of a character are left.
unfoldable pub drop_spaces : (Text → ℕ) → ℕ → Text → Text
drop_spaces measure n [] = []
drop_spaces measure (suc n) (x ∷ xs) = drop_spaces measure n xs
drop_spaces measure zero (x ∷ xs) = elim (measure (x ∷ xs)) [
  | zero ↦ x ∷ xs
  | suc n ↦ drop_spaces measure n xs
]

abbrev pub backwards : Text → Text → Text
backwards out [] = out
backwards out (x ∷ xs) = backwards (x ∷ out) xs

unfoldable pub trim : Text → Text
unfolding drop_spaces leading_space trailing_space
trim t = backwards [] (drop_spaces trailing_space 0 (backwards [] (drop_spaces leading_space 0 t)))

-- The part of a line that is read, in front of the other lines.
abbrev onto_first : ℕ → List Text → List Text
onto_first x [] = (x ∷ []) ∷ []
onto_first x (line ∷ lines) = (x ∷ line) ∷ lines

-- `str::lines`, with a carriage return before a line feed left in place: every caller trims.
unfoldable pub lines : Text → List Text
lines [] = []
lines (x ∷ xs) = let rest = lines xs in if x == 10 then [] ∷ rest else onto_first x rest
