-- ===== src/Prelude/Splitting.antt =====
-- Keys of the form `<id>:<rest>`: splitting at the colon, and the range of keys under one id.
use Prim.Native.Nat.{ℕ}
use mathlib.Core.Path.{◌≡◌, refl}
use mathlib.Core.Logic.{inl, inr}
use mathlib.Core.Bool.{Bool, true, false, ◌&&◌, not}
use mathlib.Core.List.{[], ◌∷◌, ◌++◌}
use mathlib.Core.Option.{none, some}
use native.Mathlib.Omega.{arith}
use axeno_relay.Prelude.Tests.{Option-cases}
use axeno_relay.Prelude.Lists.{all}
use axeno_relay.Prelude.Texts.{Text, split_once, starts_with, text_lt}

-- No byte of the text is the separator.
abbrev pub IsFreeOf : ℕ → Text → Type 0
IsFreeOf sep xs = split_once sep xs ≡ none

pub split_once-append :
    (sep : ℕ) (xs rest : Text)
    → IsFreeOf sep xs
    → split_once sep (xs ++ (sep ∷ rest)) ≡ some (xs, rest)
unfolding split_once
split_once-append sep [] rest h = ground arith
split_once-append sep (x ∷ xs) rest h = ground (arith, split_once-append sep xs rest)

pub IsFreeOf-all :
    (sep : ℕ) (p : ℕ → Bool) (xs : Text) → p sep ≡ false → all p xs ≡ true → IsFreeOf sep xs
unfolding split_once
IsFreeOf-all sep p [] h k = refl
IsFreeOf-all sep p (x ∷ xs) h k = ground (arith, IsFreeOf-all sep p xs h)

-- What a text that splits looks like.
pub split_once-eq :
    (sep : ℕ) (xs : Text) {before after : Text}
    → split_once sep xs ≡ some (before, after)
    → (xs ≡ before ++ (sep ∷ after)) × IsFreeOf sep before
unfolding split_once
split_once-eq sep [] h = cc
split_once-eq sep (x ∷ xs) {before} {after} h = elim (Option-cases (split_once sep xs)) [
  | inl e ↦ ground arith
  | inr (p, e) ↦ ground (arith, split_once-eq sep xs {before = p.0} {after = p.1} e)
]

-- `"<id>:" .. "<id>;"`, end excluded, holds exactly the keys that begin with `<id>:`.
pub range_of_prefix :
    (id key : Text)
    → (not (text_lt key (id ++ (b':' ∷ []))) && text_lt key (id ++ (b';' ∷ [])))
      ≡ starts_with key (id ++ (b':' ∷ []))
unfolding text_lt starts_with
range_of_prefix [] [] = refl
range_of_prefix [] (c ∷ []) = ground arith
range_of_prefix [] (c ∷ d ∷ key) = ground arith
range_of_prefix (x ∷ id) [] = refl
range_of_prefix (x ∷ id) (c ∷ key) = ground (arith, range_of_prefix id key)

pub starts_with-eq :
    (key xs : Text) → starts_with key xs ≡ true → (rest : Text) × (key ≡ xs ++ rest)
unfolding starts_with
starts_with-eq key [] h = (key, refl)
starts_with-eq [] (x ∷ xs) h = cc
starts_with-eq (c ∷ key) (x ∷ xs) h =
    let (rest, e) = starts_with-eq key xs (ground arith) in (rest, ground arith)

pub starts_with-append : (xs rest : Text) → starts_with (xs ++ rest) xs ≡ true
unfolding starts_with
starts_with-append [] rest = refl
starts_with-append (x ∷ xs) rest = ground (arith, starts_with-append xs rest)
