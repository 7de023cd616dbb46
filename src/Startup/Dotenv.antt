-- ===== src/Startup/Dotenv.antt =====
-- `load_dotenv` in src/main.rs. The environment is a function from names to values; a name or a value
-- with a NUL byte, at which the standard library panics, is not modelled.
use axeno_relay.Prelude.{
  ℕ, ◌≡◌, refl, sym, ◌∙◌, Bool, false, ◌&&◌, ◌||◌, Option, none, some, List, [], ◌∷◌, arith, leb,
  ◌==◌, if◌then◌else◌, Text, str, text_eq, text_eq_iff, starts_with, split_once, drop, length, trim,
  lines, Bool-cases, Option-cases, inl, inr, is_some,
}
use axeno_relay.Table.{Assoc, lookup}

-- `strip_prefix("export ")`.
unfoldable pub without_export : Text → Text
without_export line = if starts_with line (str "export ") then drop 7 line else line

abbrev ends_with : ℕ → Text → Bool
ends_with b [] = false
ends_with b (x ∷ []) = x == b
ends_with b (x ∷ y ∷ rest) = ends_with b (y ∷ rest)

abbrev without_last : Text → Text
without_last [] = []
without_last (x ∷ []) = []
without_last (x ∷ y ∷ rest) = x ∷ without_last (y ∷ rest)

abbrev is_quoted : ℕ → Text → Bool
is_quoted quote [] = false
is_quoted quote (x ∷ xs) = (x == quote) && ends_with quote (x ∷ xs)

-- One pair of quotes around the value, double or single, is taken off.
unfoldable pub unquote : Text → Text
unquote value =
    if leb 2 (length value) && (is_quoted b'"' value || is_quoted 39 value)
    then without_last (drop 1 value)
    else value

abbrev definition : Option (Text × Text) → Option (Text × Text)
definition none = none
definition (some (key, value)) = elim (trim key) [
  | [] ↦ none
  | x ∷ xs ↦ some (x ∷ xs, unquote (trim value))
]

-- The name and the value that a line defines, if it does.
unfoldable pub parse_line : Text → Option (Text × Text)
unfolding without_export unquote
parse_line raw = elim (trim raw) [
  | [] ↦ none
  | x ∷ xs ↦ if x == b'#' then none else definition (split_once b'=' (without_export (x ∷ xs)))
]

abbrev pub Env : Type 0
Env = Text → Option Text

abbrev set_var : Text → Text → Env → Env
set_var key value env = λ k. if text_eq key k then some value else env k

-- A variable that is set already is left alone.
unfoldable pub apply_line : Option (Text × Text) → Env → Env
apply_line none env = env
apply_line (some (key, value)) env = if is_some (env key) then env else set_var key value env

unfoldable pub apply_lines : List Text → Env → Env
unfolding parse_line apply_line
apply_lines [] env = env
apply_lines (line ∷ rest) env = apply_lines rest (apply_line (parse_line line) env)

-- The contents of the file, if it can be read.
unfoldable pub load_dotenv : Option Text → Env → Env
unfolding apply_lines
load_dotenv none env = env
load_dotenv (some contents) env = apply_lines (lines contents) env

-- The definitions of a file, in its order.
abbrev onto : Option (Text × Text) → Assoc Text → Assoc Text
onto none rest = rest
onto (some e) rest = e ∷ rest

abbrev pub definitions : List Text → Assoc Text
definitions [] = []
definitions (line ∷ rest) = onto (parse_line line) (definitions rest)

abbrev pub or_else : Option Text → Option Text → Option Text
or_else none later = later
or_else (some v) later = some v

apply_line_lem :
    (entry : Option (Text × Text)) (rest : Assoc Text) (env : Env) (key : Text)
    → or_else (apply_line entry env key) (lookup key rest)
      ≡ or_else (env key) (lookup key (onto entry rest))
unfolding apply_line lookup
apply_line_lem none rest env key = refl
apply_line_lem (some (k, v)) rest env key = elim (Option-cases (env k)) [
  | inr (old, e) ↦ elim (Bool-cases (text_eq k key)) [
    | inr away ↦ rw (e, away) refl
    | inl here ↦ let same = (text_eq_iff k key).0 here in ground (arith, e, same)
  ]
  | inl e ↦ elim (Bool-cases (text_eq k key)) [
    | inr away ↦ rw (e, away) refl
    | inl here ↦ let same = (text_eq_iff k key).0 here in ground (arith, e, same, here)
  ]
]

or_else-none : (o : Option Text) → or_else o none ≡ o
or_else-none none = refl
or_else-none (some v) = refl

apply_lines_lem :
    (ls : List Text) (env : Env) (key : Text)
    → apply_lines ls env key ≡ or_else (env key) (lookup key (definitions ls))
unfolding apply_lines lookup
apply_lines_lem [] env key = sym (or_else-none (env key))
apply_lines_lem (line ∷ rest) env key =
    apply_lines_lem rest (apply_line (parse_line line) env) key
    ∙ apply_line_lem (parse_line line) (definitions rest) env key

-- After the file was read, each variable has the value that it had before, and one that had none
-- has that of its first definition in the file.
pub load_dotenv-first :
    (contents : Text) (env : Env) (key : Text)
    → load_dotenv (some contents) env key
      ≡ or_else (env key) (lookup key (definitions (lines contents)))
unfolding load_dotenv
load_dotenv-first contents env key = apply_lines_lem (lines contents) env key
