-- ===== src/Prelude/Results.antt =====
-- Fallible code: Rust's `Result`, and the database calls that an operation makes and that may fail.
use Prim.Native.Nat.{ℕ}
use mathlib.Core.Path.{◌≡◌, refl}
use mathlib.Core.Logic.{◌⊎◌, inl, inr}
use native.Mathlib.Omega.{arith}
use mathlib.Core.Bool.{Bool, true, false}
use mathlib.Core.Option.{Option, none, some}
use axeno_relay.Prelude.Tests.{if◌then◌else◌, Bool-cases}

pub data Result (E A : Type 0) : Type 0 where
  ok : A → Result E A
  err : E → Result E A

-- The `?` operator: a step, and what follows its success.
infixl 5 ◌>>=◌
abbrev pub ◌>>=◌ : {E A B : Type 0} → Result E A → (A → Result E B) → Result E B
err e >>= next = err e
ok result >>= next = next result

infixl 5 ◌>>◌
abbrev pub ◌>>◌ : {E B : Type 0} → Result E (Unit {0}) → Result E B → Result E B
first >> then_this = first >>= λ _. then_this

-- `Option::ok_or`.
abbrev pub ok_or : {E A : Type 0} → Option A → E → Result E A
ok_or none e = err e
ok_or (some a) e = ok a

-- A successful chain went through its first step.
pub >>=-eq-ok :
    {E A B : Type 0} (step : Result E A) (next : A → Result E B) {last : B}
    → (step >>= next) ≡ ok last
    → (mid : A) × (step ≡ ok mid) × (next mid ≡ ok last)
>>=-eq-ok (err e) next done = cc
>>=-eq-ok (ok mid) next done = (mid, refl, done)

-- `anyhow::Error`, whose message no caller reads.
pub data AnyhowError : Type 0 where
  anyhow : AnyhowError

-- The kinds of redb call. Each returns an error when the disk or the file fails it.
pub data DbCall : Type 0 where
  begin_read begin_write open_table read_row iterate insert_row remove_row commit : DbCall
  -- The entry with this number, in an iteration that passes over the entries that it cannot read.
  next_row : (number : ℕ) → DbCall

-- Whether a call of this kind is the one that fails in an operation; `none` is a run without faults.
abbrev pub fails : Option DbCall → DbCall → Bool
fails (some begin_read) begin_read = true
fails (some begin_write) begin_write = true
fails (some open_table) open_table = true
fails (some read_row) read_row = true
fails (some iterate) iterate = true
fails (some insert_row) insert_row = true
fails (some remove_row) remove_row = true
fails (some commit) commit = true
fails _ _ = false

-- One database call, with the error that the program makes of its failure.
abbrev pub db_call : {E : Type 0} → Option DbCall → E → DbCall → Result E (Unit {0})
db_call fault e call = if fails fault call then err e else ok tt

-- A chain that succeeds after a database call succeeds without it.
pub past_call :
    {E A : Type 0} (fault : Option DbCall) (e : E) (call : DbCall) (m : Result E A) {a : A}
    → (db_call fault e call >> m) ≡ ok a
    → m ≡ ok a
past_call fault e call m h = elim (Bool-cases (fails fault call)) [
  | inl failed ↦ cc
  | inr fine ↦ ground arith
]

pub Result-cases :
    {E A : Type 0} (r : Result E A) → ((e : E) × (r ≡ err e)) ⊎ ((a : A) × (r ≡ ok a))
Result-cases (ok a) = inr (a, refl)
Result-cases (err e) = inl (e, refl)
