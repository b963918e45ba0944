-- ===== src/Runtime/Config.antt =====
-- runtime/config.h: `RuntimeConfig` and its default values.
pub mod Args
pub mod Flags
use uma_serve.Base.{ℕ, Bool, true, false, [], Bytes, codes}
use uma_serve.Base.Integers.{ℤ, pos}

pub record RuntimeConfig : Type 0 where
  pub model_path : Bytes
  pub n_ctx : ℕ
  pub n_threads : ℤ
  pub n_batch : ℕ
  pub n_ubatch : ℕ
  pub socket_path : Bytes
  pub socket_mode : ℕ
  pub max_sessions : ℕ
  pub max_prompt_bytes : ℕ
  pub max_tokens : ℕ
  pub idle_timeout_sec : ℕ
  pub max_merge : ℕ
  pub n_seq_max : ℕ
  pub slo_ttft_ms : ℕ
  pub slo_tbt_ms : ℕ
  pub bmt_budget_units : ℕ
  pub use_mmap : Bool
  pub use_mlock : Bool
  pub offload_kqv : Bool
  pub kv_unified : Bool
  pub swa_full : Bool
  pub enable_perf : Bool

abbrev pub default_config : RuntimeConfig
default_config = record {
  model_path = [];
  n_ctx = 4096;
  n_threads = pos 0;
  n_batch = 0;
  n_ubatch = 0;
  socket_path = codes "/tmp/uma.sock";
  socket_mode = 0o600;
  max_sessions = 16;
  max_prompt_bytes = 8192;
  max_tokens = 64;
  idle_timeout_sec = 300;
  max_merge = 4;
  n_seq_max = 4;
  slo_ttft_ms = 150;
  slo_tbt_ms = 80;
  bmt_budget_units = 0;
  use_mmap = true;
  use_mlock = false;
  offload_kqv = true;
  kv_unified = true;
  swa_full = true;
  enable_perf = false;
}
