-- ===== src/Util/Logging.antt =====
-- util/logging.h: the level of the log, which the environment sets.
use uma_serve.Base.{
  ℕ, ◌≡◌, sym, Bool, false, ◌||◌, List, [], ◌∷◌, ◌++◌, map, none, some, inl, inr, arith, leb, Bytes,
  bytes_eq, codes, Option-cases, if◌then◌else◌,
}
use uma_serve.Runtime.Config.{RuntimeConfig}
use uma_serve.Runtime.Config.Args.{CLib, get_env, env_config, debug_level}

pub data LogLevel : Type 0 where
  error warn info debug : LogLevel

abbrev pub rank : LogLevel → ℕ
rank error = 0
rank warn = 1
rank info = 2
rank debug = 3

-- `Logger::should`, at a level.
unfoldable pub should : LogLevel → LogLevel → Bool
should level lvl = leb (rank lvl) (rank level)

level_of : Bytes → LogLevel → LogLevel
level_of s level =
    if bytes_eq s (codes "debug")
    then debug
    else if bytes_eq s (codes "info")
    then info
    else if bytes_eq s (codes "warn") || bytes_eq s (codes "warning")
    then warn
    else if bytes_eq s (codes "error") || bytes_eq s (codes "err")
    then error
    else level

-- `configure_from_env`.
pub configure_from_env : CLib → LogLevel → LogLevel
unfolding level_of
configure_from_env lib level = elim (get_env lib (codes "UMA_LOG_LEVEL")) [
  | none ↦ level
  | some l ↦ level_of (map lib.tolower l) level
]

-- `level_tag`.
level_tag : LogLevel → Bytes
level_tag error = codes "error"
level_tag warn = codes "warn"
level_tag info = codes "info"
level_tag debug = codes "debug"

-- `Logger::emit` at a level, with the time as `std::put_time` prints it: what goes to `std::cerr`.
unfoldable pub emit : LogLevel → Bytes → LogLevel → Bytes → List Bytes
unfolding should level_tag
emit level time lvl msg =
    if should level lvl
    then (b'[' ∷ (level_tag lvl ++ (b' ' ∷ (time ++ (codes "] " ++ (msg ++ codes "\n")))))) ∷ []
    else []

pub record LogLine : Type 0 where
  pub lvl : LogLevel
  pub enabled : Bool
  pub oss : Bytes

-- The constructor, at the level of the log then.
unfoldable pub log_line : LogLevel → LogLevel → LogLine
unfolding should
log_line level lvl = record { lvl = lvl; enabled = should level lvl; oss = [] }

-- `operator<<`, with the value as it is printed.
unfoldable pub put : LogLine → Bytes → LogLine
put l v = if l.enabled then record l { oss = l.oss ++ v } else l

-- The destructor, at the level and the time then.
unfoldable pub end_line : LogLevel → Bytes → LogLine → List Bytes
unfolding emit
end_line level time l = if l.enabled then emit level time l.lvl l.oss else []

-- A whole statement of the log.
unfoldable pub put_all : LogLine → List Bytes → LogLine
unfolding put
put_all l [] = l
put_all l (v ∷ values) = put_all (put l v) values

unfoldable pub log : LogLevel → Bytes → LogLevel → List Bytes → List Bytes
unfolding log_line put_all end_line
log level time lvl values = end_line level time (put_all (log_line level lvl) values)

level_of-debug :
    (s : Bytes) (level : LogLevel)
    → should level debug ≡ false
    → should (level_of s level) debug ≡ bytes_eq s (codes "debug")
unfolding level_of should
level_of-debug s level h = ground arith

-- Whatever the environment is, the daemon asks llama.cpp for its timings exactly if the log, which
-- starts at a level above debug, is set to debug.
pub enable_perf-debug :
    (lib : CLib) (cfg : RuntimeConfig) (level : LogLevel)
    → should level debug ≡ false
    → (env_config lib cfg).enable_perf ≡ should (configure_from_env lib level) debug
unfolding env_config configure_from_env debug_level
enable_perf-debug lib cfg level h = elim (Option-cases (get_env lib (codes "UMA_LOG_LEVEL"))) [
  | inl e ↦ rw (configure_from_env, e) (sym h)
  | inr (l, e) ↦ rw (configure_from_env, e) (sym (level_of-debug (map lib.tolower l) level h))
]
