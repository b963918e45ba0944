-- ===== src/Runtime/Config/Flags.antt =====
-- What the command line of the daemon means.
use uma_serve.Base.{
  ◌≡◌, refl, sym, ap, append-nil, ◌∙◌, Bool, true, false, ◌||◌, List, [], ◌∷◌, ◌++◌, Bytes,
  bytes_eq, codes, arith,
}
use uma_serve.Runtime.Config.{RuntimeConfig}
use uma_serve.Runtime.Config.Args.{
  CLib, uint32, parsed, threw, sets, takes, throws, step, parse_args,
}

-- The flags with a value, and those without.
pub data Valued : Type 0 where
  model n_ctx threads sock socket max_sessions parallel n_seq_max max_tokens bmt_budget : Valued

pub data Switch : Type 0 where
  mlock no_mlock mmap no_mmap : Switch

pub data Setting : Type 0 where
  valued : Valued → Bytes → Setting
  switch : Switch → Setting

abbrev pub valued_flag : Valued → Bytes
valued_flag model = codes "--model"
valued_flag n_ctx = codes "--n-ctx"
valued_flag threads = codes "--threads"
valued_flag sock = codes "--sock"
valued_flag socket = codes "--socket"
valued_flag max_sessions = codes "--max-sessions"
valued_flag parallel = codes "--parallel"
valued_flag n_seq_max = codes "--n-seq-max"
valued_flag max_tokens = codes "--max-tokens"
valued_flag bmt_budget = codes "--bmt-budget"

-- The name by which a missing value is reported: of two spellings, always the same one.
abbrev pub reported : Valued → Bytes
reported sock = codes "--socket"
reported n_seq_max = codes "--parallel"
reported f = valued_flag f

abbrev pub switch_flag : Switch → Bytes
switch_flag mlock = codes "--mlock"
switch_flag no_mlock = codes "--no-mlock"
switch_flag mmap = codes "--mmap"
switch_flag no_mmap = codes "--no-mmap"

-- A setting, as arguments.
abbrev pub arguments : List Setting → List Bytes
arguments [] = []
arguments (valued f v ∷ settings) = valued_flag f ∷ v ∷ arguments settings
arguments (switch f ∷ settings) = switch_flag f ∷ arguments settings

-- The arguments that are not refused.
abbrev pub is_known : Bytes → Bool
is_known a =
    bytes_eq a (codes "--model")
    || bytes_eq a (codes "--n-ctx")
    || bytes_eq a (codes "--threads")
    || bytes_eq a (codes "--sock")
    || bytes_eq a (codes "--socket")
    || bytes_eq a (codes "--max-sessions")
    || bytes_eq a (codes "--parallel")
    || bytes_eq a (codes "--n-seq-max")
    || bytes_eq a (codes "--max-tokens")
    || bytes_eq a (codes "--bmt-budget")
    || bytes_eq a (codes "--mlock")
    || bytes_eq a (codes "--no-mlock")
    || bytes_eq a (codes "--mmap")
    || bytes_eq a (codes "--no-mmap")
    || bytes_eq a (codes "--help")
    || bytes_eq a (codes "-h")

module _ (lib : CLib) where
  pub set_value : Valued → Bytes → RuntimeConfig → RuntimeConfig
  set_value model v cfg = record cfg { model_path = v }
  set_value n_ctx v cfg = record cfg { n_ctx = uint32 lib v }
  set_value threads v cfg = record cfg { n_threads = lib.strtol_int32 v }
  set_value sock v cfg = record cfg { socket_path = v }
  set_value socket v cfg = record cfg { socket_path = v }
  set_value max_sessions v cfg = record cfg { max_sessions = uint32 lib v }
  set_value parallel v cfg = record cfg { n_seq_max = uint32 lib v }
  set_value n_seq_max v cfg = record cfg { n_seq_max = uint32 lib v }
  set_value max_tokens v cfg = record cfg { max_tokens = uint32 lib v }
  set_value bmt_budget v cfg = record cfg { bmt_budget_units = lib.strtoull v }

  pub turn_switch : Switch → RuntimeConfig → RuntimeConfig
  turn_switch mlock cfg = record cfg { use_mlock = true }
  turn_switch no_mlock cfg = record cfg { use_mlock = false }
  turn_switch mmap cfg = record cfg { use_mmap = true }
  turn_switch no_mmap cfg = record cfg { use_mmap = false }

  -- The settings are made one after the other, so the last of two counts.
  pub apply_all : List Setting → RuntimeConfig → RuntimeConfig
  apply_all [] cfg = cfg
  apply_all (valued f v ∷ settings) cfg = apply_all settings (set_value f v cfg)
  apply_all (switch f ∷ settings) cfg = apply_all settings (turn_switch f cfg)

  step-valued :
      (f : Valued) (cfg : RuntimeConfig)
      → step lib (valued_flag f) cfg ≡ takes (reported f) (λ v. set_value f v cfg)
  unfolding step bytes_eq set_value
  step-valued model cfg = refl
  step-valued n_ctx cfg = refl
  step-valued threads cfg = refl
  step-valued sock cfg = refl
  step-valued socket cfg = refl
  step-valued max_sessions cfg = refl
  step-valued parallel cfg = refl
  step-valued n_seq_max cfg = refl
  step-valued max_tokens cfg = refl
  step-valued bmt_budget cfg = refl

  step-switch :
      (f : Switch) (cfg : RuntimeConfig) → step lib (switch_flag f) cfg ≡ sets (turn_switch f cfg)
  unfolding step bytes_eq turn_switch
  step-switch mlock cfg = refl
  step-switch no_mlock cfg = refl
  step-switch mmap cfg = refl
  step-switch no_mmap cfg = refl

  step-unknown :
      (a : Bytes) (cfg : RuntimeConfig)
      → is_known a ≡ false
      → step lib a cfg ≡ throws (codes "unknown flag: " ++ a)
  unfolding step
  step-unknown a cfg h = ground arith

  parse_args-sets :
      (a : Bytes) (rest : List Bytes) (cfg cfg' : RuntimeConfig)
      → step lib a cfg ≡ sets cfg'
      → parse_args lib (a ∷ rest) cfg ≡ parse_args lib rest cfg'
  unfolding parse_args
  parse_args-sets a [] cfg cfg' e = rw (parse_args, e) refl
  parse_args-sets a (v ∷ rest) cfg cfg' e = rw (parse_args, e) refl

  parse_args-throws :
      (a what : Bytes) (rest : List Bytes) (cfg : RuntimeConfig)
      → step lib a cfg ≡ throws what
      → parse_args lib (a ∷ rest) cfg ≡ threw what
  unfolding parse_args
  parse_args-throws a what [] cfg e = rw (parse_args, e) refl
  parse_args-throws a what (v ∷ rest) cfg e = rw (parse_args, e) refl

  parse_args-takes :
      (f : Valued) (v : Bytes) (rest : List Bytes) (cfg : RuntimeConfig)
      → parse_args lib (valued_flag f ∷ v ∷ rest) cfg ≡ parse_args lib rest (set_value f v cfg)
  unfolding parse_args
  parse_args-takes f v rest cfg = rw (parse_args, step-valued f cfg) refl

  parse_args-missing :
      (f : Valued) (cfg : RuntimeConfig)
      → parse_args lib (valued_flag f ∷ []) cfg ≡ threw (codes "missing value for " ++ reported f)
  unfolding parse_args
  parse_args-missing f cfg = rw (parse_args, step-valued f cfg) refl

  -- Settings are made before anything behind them is looked at.
  parse_args-arguments :
      (settings : List Setting) (rest : List Bytes) (cfg : RuntimeConfig)
      → parse_args lib (arguments settings ++ rest) cfg
        ≡ parse_args lib rest (apply_all settings cfg)
  unfolding apply_all
  parse_args-arguments [] rest cfg = refl
  parse_args-arguments (valued f v ∷ settings) rest cfg =
      parse_args-takes f v (arguments settings ++ rest) cfg
      ∙ parse_args-arguments settings rest (set_value f v cfg)
  parse_args-arguments (switch f ∷ settings) rest cfg =
      parse_args-sets (switch_flag f) (arguments settings ++ rest) cfg _ (step-switch f cfg)
      ∙ parse_args-arguments settings rest (turn_switch f cfg)

  -- Of the arguments for any settings, the parser makes the settings one after the other; behind
  -- them `--help` and `-h` ask for help whatever follows, a flag that lacks its value is an error
  -- that names the flag (but `--socket` for `--sock` and `--parallel` for `--n-seq-max`), and an
  -- argument that is none of the flags with a value, none of the switches, and neither `--help` nor
  -- `-h` is an error that names the argument.
  pub parse_args_exact :
      (settings : List Setting) (f : Valued) (a : Bytes) (rest : List Bytes) (cfg : RuntimeConfig)
      → is_known a ≡ false
      → (parse_args lib (arguments settings) cfg ≡ parsed (apply_all settings cfg))
        × (parse_args lib (arguments settings ++ codes "--help" ∷ rest) cfg ≡ threw (codes "help"))
        × (parse_args lib (arguments settings ++ codes "-h" ∷ rest) cfg ≡ threw (codes "help"))
        × (parse_args lib (arguments settings ++ valued_flag f ∷ []) cfg
            ≡ threw (codes "missing value for " ++ reported f))
        × (parse_args lib (arguments settings ++ a ∷ rest) cfg
            ≡ threw (codes "unknown flag: " ++ a))
  unfolding parse_args step bytes_eq
  parse_args_exact settings f a rest cfg h =
      let cfg' = apply_all settings cfg in
      let before = parse_args-arguments settings in
      (
        ap (λ args. parse_args lib args cfg) (sym (append-nil (arguments settings)))
            ∙ before [] cfg,
        before (codes "--help" ∷ rest) cfg
            ∙ parse_args-throws (codes "--help") (codes "help") rest cfg' refl,
        before (codes "-h" ∷ rest) cfg
            ∙ parse_args-throws (codes "-h") (codes "help") rest cfg' refl,
        before (valued_flag f ∷ []) cfg ∙ parse_args-missing f cfg',
        before (a ∷ rest) cfg ∙ parse_args-throws a _ rest cfg' (step-unknown a cfg' h),
      )
