-- ===== src/Runtime/Tests.antt =====
-- A command line, and an environment that asks for debugging.
use uma_serve.Base.{◌≡◌, refl, false, List, [], ◌∷◌, ◌++◌, some, bytes_eq, codes, length}
use uma_serve.Base.Integers.{pos}
use uma_serve.Runtime.Config.{default_config}
use uma_serve.Runtime.Config.Args.{CLib, parse_args, parsed, threw, env_config}
use uma_serve.Runtime.Config.Flags.{
  Setting, valued, switch, Valued, Switch, arguments, apply_all, is_known, parse_args_exact,
}
use uma_serve.Util.Logging.{LogLevel, should, configure_from_env, enable_perf-debug}

abbrev lib : CLib
lib = record {
  getenv = λ key. some (codes "debug");
  strtoul = λ text. length text;
  strtol_int32 = λ text. pos (length text);
  strtoull = λ text. length text;
  tolower = λ c. c;
  strcaseeq = bytes_eq;
}

abbrev settings : List Setting
settings =
    valued Valued.model (codes "m.gguf")
    ∷ switch Switch.mlock
    ∷ valued Valued.sock (codes "/tmp/s")
    ∷ switch Switch.no_mlock
    ∷ []

unknown : is_known (codes "--verbose") ≡ false
unfolding bytes_eq
unknown = refl

parse_args_exact_example :
    (parse_args lib (arguments settings) default_config
      ≡ parsed (apply_all lib settings default_config))
    × (parse_args lib (arguments settings ++ codes "--help" ∷ []) default_config
        ≡ threw (codes "help"))
    × (parse_args lib (arguments settings ++ codes "-h" ∷ []) default_config ≡ threw (codes "help"))
    × (parse_args lib (arguments settings ++ codes "--n-seq-max" ∷ []) default_config
        ≡ threw (codes "missing value for --parallel"))
    × (parse_args lib (arguments settings ++ codes "--verbose" ∷ []) default_config
        ≡ threw (codes "unknown flag: --verbose"))
parse_args_exact_example =
    parse_args_exact lib settings Valued.n_seq_max (codes "--verbose") [] default_config unknown

at_info : should LogLevel.info LogLevel.debug ≡ false
unfolding should
at_info = refl

enable_perf-debug_example :
    (env_config lib default_config).enable_perf
    ≡ should (configure_from_env lib LogLevel.info) LogLevel.debug
enable_perf-debug_example = enable_perf-debug lib default_config LogLevel.info at_info
