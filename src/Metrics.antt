-- ===== src/Metrics.antt =====
-- metrics/metrics.h: the counters. One thread writes them, so a load is the value last stored.
pub mod Snapshot
use uma_serve.Base.{ℕ}

pub record Metrics : Type 0 where
  pub tokens_generated_total : ℕ
  pub batch_calls_total : ℕ
  pub last_batch_size : ℕ
  pub decode_ms_last : ℕ
  pub decode_ms_ewma_x1000 : ℕ
  pub decode_ns_total : ℕ
  pub decode_calls : ℕ
  pub decode_tokens_total : ℕ
  pub decode_ms_min : ℕ
  pub decode_ms_max : ℕ
  pub decode_phase_tokens_total : ℕ
  pub prefill_tokens_total : ℕ
  pub decode_ns_total_gen : ℕ
  pub prefill_ns_total : ℕ
  pub last_decode_tokens : ℕ
  pub last_prefill_tokens : ℕ
  pub max_batch_size_seen : ℕ
  pub prefill_calls : ℕ
  pub eval_ms_last : ℕ
  pub p_eval_ms_last : ℕ
  pub eval_ns_total : ℕ
  pub p_eval_ns_total : ℕ
  pub eval_calls : ℕ
  pub p_eval_calls : ℕ
  pub bmt_units_last : ℕ
  pub bmt_budget_units : ℕ
  pub bmt_guard_activations : ℕ
  pub bmt_guard_active : ℕ

-- The counters of a daemon that has just started.
abbrev pub initial_metrics : Metrics
initial_metrics = record {
  tokens_generated_total = 0;
  batch_calls_total = 0;
  last_batch_size = 0;
  decode_ms_last = 0;
  decode_ms_ewma_x1000 = 0;
  decode_ns_total = 0;
  decode_calls = 0;
  decode_tokens_total = 0;
  decode_ms_min = 0xFFFF_FFFF;
  decode_ms_max = 0;
  decode_phase_tokens_total = 0;
  prefill_tokens_total = 0;
  decode_ns_total_gen = 0;
  prefill_ns_total = 0;
  last_decode_tokens = 0;
  last_prefill_tokens = 0;
  max_batch_size_seen = 0;
  prefill_calls = 0;
  eval_ms_last = 0;
  p_eval_ms_last = 0;
  eval_ns_total = 0;
  p_eval_ns_total = 0;
  eval_calls = 0;
  p_eval_calls = 0;
  bmt_units_last = 0;
  bmt_budget_units = 0;
  bmt_guard_activations = 0;
  bmt_guard_active = 0;
}
