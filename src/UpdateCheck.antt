-- ===== src/UpdateCheck.antt =====
-- src/update_check.rs: whether the relay asks for new releases, over which route, and what it makes
-- of the answer. The request and the order of versions are parameters; the logging is left out.
use axeno_relay.Prelude.{
  ℕ, ◌+◌, ◌*◌, ◌≡◌, inl, inr, refl, Bool, true, ◌&&◌, Option, none, some, List, [], ◌∷◌, map, any,
  arith, leb, ◌==◌, if◌then◌else◌, Text, str, trim, text_eq, Result, ok, err, ◌>>=◌, ok_or,
  AnyhowError, anyhow, Bool-cases,
}

pub data Mode : Type 0 where
  default_mode enabled disabled : Mode

-- `to_ascii_lowercase`.
abbrev lower_byte : ℕ → ℕ
lower_byte b = if leb b'A' b && leb b b'Z' then b + 32 else b

abbrev pub lower : Text → Text
lower = map lower_byte

abbrev one_of : List Text → Text → Bool
one_of names v = any (λ n. text_eq n v) names

abbrev pub says_yes : Text → Bool
says_yes = one_of (str "1" ∷ str "true" ∷ str "yes" ∷ str "on" ∷ [])

-- The mode of the variable AXENO_UPDATE_CHECK; a value that is not known disables the check.
unfoldable pub mode : Option Text → Mode
mode none = default_mode
mode (some v) = if says_yes (lower (trim v)) then enabled else disabled

-- `spawn`, up to the task: `none` where no task is started, and otherwise its proxy port.
unfoldable pub proxy_route : Mode → Option ℕ → Option (Option ℕ)
proxy_route disabled tor_socks_port = none
proxy_route default_mode none = none
proxy_route default_mode (some port) = some (some port)
proxy_route enabled tor_socks_port = some tor_socks_port

pub record Release : Type 0 where
  pub tag_name : Text
  pub html_url : Text

-- `trim_start_matches('v')`.
unfoldable pub without_vs : Text → Text
without_vs [] = []
without_vs (x ∷ xs) = if x == b'v' then without_vs xs else x ∷ xs

-- The seconds to the next check.
abbrev pub check_interval : ℕ
check_interval = 24 * 60 * 60

abbrev pub retry_interval : ℕ
retry_interval = 30 * 60

module _ (Version : Type 0) (parse : Text → Option Version) (newer : Version → Version → Bool)
    (current : Text) where
  abbrev compared : Release → Version → Option Version → Option Release
  compared release running none = none
  compared release running (some latest) = if newer latest running then some release else none

  -- What one check makes of the response to its request.
  unfoldable pub check_once : Result AnyhowError Release → Result AnyhowError (Option Release)
  unfolding without_vs
  check_once response = do
    release ← response
    running ← ok_or (parse current) anyhow
    ok (compared release running (parse (without_vs release.tag_name)))

  -- One turn of the task's loop: the release to announce, and the time to the next turn.
  abbrev pub next_check : Result AnyhowError (Option Release) → Option Release × ℕ
  next_check (ok announced) = (announced, check_interval)
  next_check (err e) = (none, retry_interval)

-- A check that does not go through a proxy is made only where the operator asked for checks with one
-- of the values 1, true, yes and on, up to case and outer white space, and the relay has no Tor port.
proxy_route-clearnet :
    (variable : Option Text) (tor_socks_port : Option ℕ)
    → proxy_route (mode variable) tor_socks_port ≡ some none
    → ((v : Text) × (variable ≡ some v) × (says_yes (lower (trim v)) ≡ true))
      × (tor_socks_port ≡ none)
unfolding proxy_route mode
proxy_route-clearnet none none = λ h. absurd cc
proxy_route-clearnet none (some port) = λ h. absurd cc
proxy_route-clearnet (some v) port = elim (Bool-cases (says_yes (lower (trim v)))) [
  | inl asked ↦ rw (asked, mode) (λ h. ((v, refl, asked), ground (arith, h)))
  | inr other ↦ rw (other, mode) (λ h. absurd cc)
]
