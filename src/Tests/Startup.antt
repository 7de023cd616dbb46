-- ===== src/Tests/Startup.antt =====
-- The environment, the .env file and the release check on concrete inputs.
use axeno_relay.Prelude.{
  ℕ, zero, suc, ◌+◌, ◌-◌, ◌≤◌, ◌<◌, ◌≡◌, ◌≢◌, ◌⊎◌, inl, inr, refl, sym, ap, ◌∙◌, Bool, true, false,
  Option, none, some, List, [], ◌∷◌, ◌++◌, map, arith, length, All, take, drop, Bytes, Text, str,
  trim, lines, drop_spaces, leading_space, trailing_space, backwards, ok, err, AnyhowError, anyhow,
}
use axeno_relay.Table.{lookup}
use axeno_relay.Config.Env.{IsConfigured, from_env, from_env-IsConfigured}
use axeno_relay.UpdateCheck.{mode, proxy_route}
use axeno_relay.Startup.Dotenv.{Env, load_dotenv, definitions, or_else, load_dotenv-first}

-- The limit of a file is set to 0, and nothing else.
abbrev zero_limit : Text → Option Text
zero_limit key = some (str "0")

from_env-IsConfigured_example : IsConfigured zero_limit (from_env zero_limit)
from_env-IsConfigured_example = from_env-IsConfigured zero_limit

enabled_without_tor : proxy_route (mode (some (str " Yes "))) none ≡ some none
unfolding proxy_route mode axeno_relay.Prelude.text_eq trim
enabled_without_tor = refl

abbrev dotenv : Text
dotenv = str "# keys" ++ (10 ∷ str "export AXENO_KEY = 's3cret'" ++ (10 ∷ str "AXENO_KEY=other"))

abbrev empty_env : Env
empty_env key = none

load_dotenv-first_example :
    load_dotenv (some dotenv) empty_env (str "AXENO_KEY")
    ≡ or_else none (lookup (str "AXENO_KEY") (definitions (lines dotenv)))
load_dotenv-first_example = load_dotenv-first dotenv empty_env (str "AXENO_KEY")

secret_is_first : lookup (str "AXENO_KEY") (definitions (lines dotenv)) ≡ some (str "s3cret")
unfolding lookup lines axeno_relay.Startup.Dotenv.parse_line trim axeno_relay.Prelude.split_once
    axeno_relay.Prelude.starts_with axeno_relay.Prelude.text_eq
secret_is_first = refl
