-- ===== src/Runtime/Config/Args.antt =====
-- runtime/config.cpp: the configuration, from the environment and the arguments. The number
-- conversions of the C library, `tolower` and `strcasecmp` are parameters.
use uma_serve.Base.{
  ℕ, ◌%◌, ◌^◌, Bool, true, false, ◌||◌, List, [], ◌∷◌, ◌++◌, map, Option, none, some, Bytes,
  bytes_eq, codes, if◌then◌else◌,
}
use uma_serve.Base.Integers.{ℤ}
use uma_serve.Runtime.Config.{RuntimeConfig, default_config}

-- `getenv`, the number conversions in base 10 (that of `strtol` with the cast to 32 bits behind
-- it), and the two functions on characters.
pub record CLib : Type 0 where
  pub getenv : Bytes → Option Bytes
  pub strtoul : Bytes → ℕ
  pub strtol_int32 : Bytes → ℤ
  pub strtoull : Bytes → ℕ
  pub tolower : ℕ → ℕ
  pub strcaseeq : Bytes → Bytes → Bool

-- `from_args` returns, or throws `std::invalid_argument`.
pub data FromArgs : Type 0 where
  parsed : RuntimeConfig → FromArgs
  threw : Bytes → FromArgs

-- What one argument does: it sets something, or takes the next argument, by the name that is given
-- if there is none.
pub data Step : Type 0 where
  sets : RuntimeConfig → Step
  takes : Bytes → (Bytes → RuntimeConfig) → Step
  throws : Bytes → Step

module _ (lib : CLib) where
  -- A variable that is set, and not to the empty text.
  pub get_env : Bytes → Option Bytes
  get_env key = elim (lib.getenv key) [
    | none ↦ none
    | some [] ↦ none
    | some (c ∷ cs) ↦ some (c ∷ cs)
  ]

  parse_bool_flag : Bytes → Bool
  parse_bool_flag s =
      bytes_eq s (codes "1")
      || lib.strcaseeq s (codes "true")
      || lib.strcaseeq s (codes "yes")
      || lib.strcaseeq s (codes "on")

  abbrev pub uint32 : Bytes → ℕ
  uint32 v = lib.strtoul v % 2 ^ 32

  -- `if (auto* v = get_env(key))`.
  from_env : Bytes → (Bytes → RuntimeConfig → RuntimeConfig) → RuntimeConfig → RuntimeConfig
  unfolding get_env
  from_env key set cfg = elim (get_env key) [ none ↦ cfg | some v ↦ set v cfg ]

  -- `UMA_LOG_LEVEL=debug`.
  unfoldable pub debug_level : Option Bytes → Bool
  debug_level none = false
  debug_level (some l) = bytes_eq (map lib.tolower l) (codes "debug")

  unfoldable pub env_config : RuntimeConfig → RuntimeConfig
  unfolding get_env from_env parse_bool_flag debug_level
  env_config c0 =
      let c1 = from_env (codes "UMA_MODEL") (λ v c. record c { model_path = v }) c0 in
      let c2 = from_env (codes "UMA_N_CTX") (λ v c. record c { n_ctx = uint32 v }) c1 in
      let c3 =
        from_env (codes "UMA_THREADS") (λ v c. record c { n_threads = lib.strtol_int32 v }) c2 in
      let c4 = from_env (codes "UMA_N_BATCH") (λ v c. record c { n_batch = uint32 v }) c3 in
      let c5 = from_env (codes "UMA_N_UBATCH") (λ v c. record c { n_ubatch = uint32 v }) c4 in
      let c6 = from_env (codes "UMA_SOCK") (λ v c. record c { socket_path = v }) c5 in
      let c7 = from_env (codes "UMA_N_SEQ") (λ v c. record c { n_seq_max = uint32 v }) c6 in
      let c8 =
        from_env (codes "UMA_USE_MMAP") (λ v c. record c { use_mmap = parse_bool_flag v }) c7 in
      let c9 =
        from_env (codes "UMA_USE_MLOCK") (λ v c. record c { use_mlock = parse_bool_flag v }) c8 in
      let c10 =
        from_env (codes "UMA_SLO_TTFT_MS") (λ v c. record c { slo_ttft_ms = uint32 v }) c9 in
      let c11 = from_env (codes "UMA_SLO_TBT_MS") (λ v c. record c { slo_tbt_ms = uint32 v }) c10 in
      let c12 =
        from_env (codes "UMA_BMT_BUDGET") (λ v c. record c { bmt_budget_units = lib.strtoull v })
          c11 in
      record c12 { enable_perf = debug_level (get_env (codes "UMA_LOG_LEVEL")) }

  -- The chain of `else if` over one argument.
  unfoldable pub step : Bytes → RuntimeConfig → Step
  step arg cfg =
      if bytes_eq arg (codes "--model")
      then takes (codes "--model") (λ v. record cfg { model_path = v })
      else if bytes_eq arg (codes "--n-ctx")
      then takes (codes "--n-ctx") (λ v. record cfg { n_ctx = uint32 v })
      else if bytes_eq arg (codes "--threads")
      then takes (codes "--threads") (λ v. record cfg { n_threads = lib.strtol_int32 v })
      else if bytes_eq arg (codes "--mlock")
      then sets (record cfg { use_mlock = true })
      else if bytes_eq arg (codes "--no-mlock")
      then sets (record cfg { use_mlock = false })
      else if bytes_eq arg (codes "--no-mmap")
      then sets (record cfg { use_mmap = false })
      else if bytes_eq arg (codes "--mmap")
      then sets (record cfg { use_mmap = true })
      else if bytes_eq arg (codes "--sock") || bytes_eq arg (codes "--socket")
      then takes (codes "--socket") (λ v. record cfg { socket_path = v })
      else if bytes_eq arg (codes "--max-sessions")
      then takes (codes "--max-sessions") (λ v. record cfg { max_sessions = uint32 v })
      else if bytes_eq arg (codes "--parallel") || bytes_eq arg (codes "--n-seq-max")
      then takes (codes "--parallel") (λ v. record cfg { n_seq_max = uint32 v })
      else if bytes_eq arg (codes "--max-tokens")
      then takes (codes "--max-tokens") (λ v. record cfg { max_tokens = uint32 v })
      else if bytes_eq arg (codes "--bmt-budget")
      then takes (codes "--bmt-budget") (λ v. record cfg { bmt_budget_units = lib.strtoull v })
      else if bytes_eq arg (codes "--help") || bytes_eq arg (codes "-h")
      then throws (codes "help")
      else throws (codes "unknown flag: " ++ arg)

  -- The loop over `argv`.
  unfoldable pub parse_args : List Bytes → RuntimeConfig → FromArgs
  unfolding step
  parse_args [] cfg = parsed cfg
  parse_args (a ∷ []) cfg = elim (step a cfg) [
    | sets cfg' ↦ parsed cfg'
    | takes name set ↦ threw (codes "missing value for " ++ name)
    | throws what ↦ threw what
  ]
  parse_args (a ∷ v ∷ args) cfg =
      let next = λ (c : RuntimeConfig). parse_args (v ∷ args) c in
      let behind = λ (c : RuntimeConfig). parse_args args c in
      elim (step a cfg) [
        | sets cfg' ↦ next cfg'
        | takes name set ↦ behind (set v)
        | throws what ↦ threw what
      ]

  unfoldable pub from_args : List Bytes → FromArgs
  unfolding env_config parse_args
  from_args args = parse_args args (env_config default_config)
