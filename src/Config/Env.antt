-- ===== src/Config/Env.antt =====
-- The operator's limits in src/config.rs, read from the environment. The environment is a function
-- from the names of its variables.
use axeno_relay.Prelude.{
  ℕ, ◌+◌, ◌-◌, ◌*◌, ◌/◌, ◌≤◌, ◌<◌, ◌≡◌, ◌⊎◌, refl, sym, ap, ◌∙◌, ◌^◌, u64_mod, Bool-cases, Option,
  none, some, arith, ltb, if◌then◌else◌, Text, str, trim, parse_u64, saturating_mul, min, max,
  Option-cases, inl, inr,
}
use axeno_relay.Config.{
  FileConfig, default_max_file_mib, default_max_total_file_mib, default_file_ttl_hours,
  default_max_file_transfers, min_file_chunk_bytes,
}

-- `filter(|n| *n > 0).unwrap_or(default)`.
abbrev positive_or : ℕ → Option ℕ → ℕ
positive_or default none = default
positive_or default (some n) = if ltb 0 n then n else default

module _ (var : Text → Option Text) where
  unfoldable pub env_u64 : Text → ℕ → ℕ
  env_u64 key default = elim (var key) [
    | none ↦ default
    | some v ↦ positive_or default (parse_u64 (trim v))
  ]

  -- `div_ceil` and `clamp`; the two conversions keep a 64-bit number and one that was clamped.
  unfoldable pub from_env : FileConfig
  unfolding env_u64
  from_env =
      let max_file_bytes =
        saturating_mul (env_u64 (str "AXENO_MAX_FILE_MIB") default_max_file_mib) (1024 * 1024) in
      let total =
        saturating_mul (env_u64 (str "AXENO_MAX_TOTAL_FILE_MIB") default_max_total_file_mib)
          (1024 * 1024) in
      record {
        max_file_bytes = max_file_bytes;
        max_total_file_bytes = max total max_file_bytes;
        file_ttl_ms =
            saturating_mul (env_u64 (str "AXENO_FILE_TTL_HOURS") default_file_ttl_hours)
              (60 * 60 * 1000);
        max_transfers = env_u64 (str "AXENO_MAX_FILE_TRANSFERS") default_max_file_transfers;
        max_chunks =
            min (max ((max_file_bytes + (min_file_chunk_bytes - 1)) / min_file_chunk_bytes) 1)
              (2 ^ 32 - 1);
      }

  -- The positive number that the variable holds, up to white space around it.
  abbrev Holds : Text → ℕ → Type 0
  Holds key n = (v : Text) × (var key ≡ some v) × (parse_u64 (trim v) ≡ some n) × (1 ≤ n)

  -- The operator's setting: what the variable holds, or the default where it holds none.
  abbrev pub IsSetting : Text → ℕ → ℕ → Type 0
  IsSetting key default n = Holds key n ⊎ (n ≡ default) × (¬ ((m : ℕ) × Holds key m))

  -- A setting in its unit, at most the greatest number of 64 bits.
  abbrev pub in_units : ℕ → ℕ → ℕ
  in_units n unit = min (n * unit) (u64_mod - 1)

  -- Each limit is the operator's setting or its default, in its unit, and they fit together.
  pub record IsConfigured (config : FileConfig) : Type 0 where
    pub file_mib : ℕ
    pub file_set : IsSetting (str "AXENO_MAX_FILE_MIB") default_max_file_mib file_mib
    pub file : config.max_file_bytes ≡ in_units file_mib (1024 * 1024)
    pub total_mib : ℕ
    pub total_set : IsSetting (str "AXENO_MAX_TOTAL_FILE_MIB") default_max_total_file_mib total_mib
    pub total_bytes :
        (config.max_total_file_bytes ≡ in_units total_mib (1024 * 1024))
          × (config.max_file_bytes ≤ config.max_total_file_bytes)
        ⊎ (config.max_total_file_bytes ≡ config.max_file_bytes)
          × (in_units total_mib (1024 * 1024) < config.max_file_bytes)
    pub ttl_hours : ℕ
    pub ttl_set : IsSetting (str "AXENO_FILE_TTL_HOURS") default_file_ttl_hours ttl_hours
    pub ttl : config.file_ttl_ms ≡ in_units ttl_hours (60 * 60 * 1000)
    pub transfers_set :
        IsSetting (str "AXENO_MAX_FILE_TRANSFERS") default_max_file_transfers config.max_transfers
    -- The least number of smallest chunks that hold a file of the greatest size, within 32 bits.
    pub chunks_least : (config.max_chunks - 1) * min_file_chunk_bytes < config.max_file_bytes
    pub chunks_enough :
        (config.max_file_bytes ≤ config.max_chunks * min_file_chunk_bytes)
        ⊎ (config.max_chunks ≡ 2 ^ 32 - 1)
    pub chunks : (1 ≤ config.max_chunks) × (config.max_chunks < 2 ^ 32)

  only_value :
      (key : Text) (v : Text) (m : ℕ)
      → var key ≡ some v
      → Holds key m
      → (parse_u64 (trim v) ≡ some m) × (1 ≤ m)
  only_value key v m set (w, set', number, positive) =
      let same : w ≡ v = ground (arith, set, set') in
      (ap (λ t. parse_u64 (trim t)) (sym same) ∙ number, positive)

  env_u64-IsSetting : (key : Text) (default : ℕ) → IsSetting key default (env_u64 key default)
  unfolding env_u64
  env_u64-IsSetting key default = elim (Option-cases (var key)) [
    | inl unset ↦
        inr (
          rw (unset, env_u64) refl,
          λ (m, held). let (w, same, number, positive) = held in absurd cc,
        )
    | inr (v, set) ↦ elim (Option-cases (parse_u64 (trim v))) [
      | inl bad ↦ inr (
        rw (set, bad, env_u64) refl,
        λ (m, held). let (number, _) = only_value key v m set held in absurd cc,
      )
      | inr (n, good) ↦ elim (Bool-cases (ltb 0 n)) [
        | inl positive ↦
            let one : 1 ≤ n = ground (arith, positive) in
            inl (rw (set, good, positive, env_u64) (v, refl, good, one))
        | inr not_positive ↦ inr (
          rw (set, good, not_positive, env_u64) refl,
          λ (m, held).
              let (number, positive) = only_value key v m set held in
              let same : n ≡ m = ground (arith, good, number) in
              let none_left : n ≡ 0 = ground (arith, not_positive) in absurd (omega arith),
        )
      ]
    ]
  ]

  raised :
      (total file : ℕ)
      → (max total file ≡ total) × (file ≤ max total file)
        ⊎ (max total file ≡ file) × (total < file)
  raised total file = elim (Bool-cases (ltb total file)) [
    | inl below ↦ let under : total < file = ground (arith, below) in inr (omega arith, under)
    | inr fits ↦ let above : file ≤ total = ground (arith, fits) in inl (omega arith, omega arith)
  ]

  abbrev chunk_count : ℕ → ℕ
  chunk_count bytes =
      min (max ((bytes + (min_file_chunk_bytes - 1)) / min_file_chunk_bytes) 1) (2 ^ 32 - 1)

  chunk_count-least :
      (bytes : ℕ) → 1 ≤ bytes → (chunk_count bytes - 1) * min_file_chunk_bytes < bytes
  chunk_count-least bytes h = omega arith

  chunk_count-enough :
      (bytes : ℕ)
      → (bytes ≤ chunk_count bytes * min_file_chunk_bytes) ⊎ (chunk_count bytes ≡ 2 ^ 32 - 1)
  chunk_count-enough bytes = elim (Bool-cases (ltb (chunk_count bytes) (2 ^ 32 - 1))) [
    | inl below ↦
        let under : chunk_count bytes < 2 ^ 32 - 1 = ground (arith, below) in inl (omega arith)
    | inr top ↦ let over : 2 ^ 32 - 1 ≤ chunk_count bytes = ground (arith, top) in inr (omega arith)
  ]

  setting-positive : (key : Text) (default n : ℕ) → 1 ≤ default → IsSetting key default n → 1 ≤ n
  setting-positive key default n h (inl (v, set, number, positive)) = positive
  setting-positive key default n h (inr (same, none_held)) = omega arith

  -- Whatever the environment holds, each limit is made of the operator's setting: the positive
  -- number that its variable holds, or the default exactly where it holds none, as it is unset, not
  -- a number or zero. The sizes and the lifetime are the settings in their units, or 2^64 - 1 where
  -- that is less; the total is raised to the size of one file where it is smaller; and a transfer
  -- has as many chunks as a file of the greatest size needs, 2^32 - 1 at most.
  pub from_env-IsConfigured : IsConfigured from_env
  unfolding from_env saturating_mul
  from_env-IsConfigured =
      let file = env_u64-IsSetting (str "AXENO_MAX_FILE_MIB") default_max_file_mib in
      let total = env_u64-IsSetting (str "AXENO_MAX_TOTAL_FILE_MIB") default_max_total_file_mib in
      let ttl = env_u64-IsSetting (str "AXENO_FILE_TTL_HOURS") default_file_ttl_hours in
      let a = setting-positive _ default_max_file_mib _ (omega arith) file in
      record {
        file_mib = env_u64 (str "AXENO_MAX_FILE_MIB") default_max_file_mib;
        file_set = file;
        file = refl;
        total_mib = env_u64 (str "AXENO_MAX_TOTAL_FILE_MIB") default_max_total_file_mib;
        total_set = total;
        total_bytes = raised _ _;
        ttl_hours = env_u64 (str "AXENO_FILE_TTL_HOURS") default_file_ttl_hours;
        ttl_set = ttl;
        ttl = refl;
        transfers_set =
            env_u64-IsSetting (str "AXENO_MAX_FILE_TRANSFERS") default_max_file_transfers;
        chunks_least = chunk_count-least _ (omega arith);
        chunks_enough = chunk_count-enough _;
        chunks = (omega arith, omega arith);
      }
