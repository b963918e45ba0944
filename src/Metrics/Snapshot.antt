-- ===== src/Metrics/Snapshot.antt =====
-- metrics/metrics.cpp: `get_decode_ms_ewma` and `to_json`. The stream prints numbers in decimal; every
-- floating-point value is printed behind `std::fixed` and `std::setprecision(3)`, which stay set.
use uma_serve.Base.{ℕ, ◌==◌, if◌then◌else◌, Bool, [], ◌++◌, Bytes, codes}
use uma_serve.Ipc.Protocol.{to_string}
use uma_serve.Metrics.{Metrics}
use uma_serve.Sched.Backend.{FloatOps}

-- `long double`, its conversions, and the printing of a `double` with three decimals.
pub record MeanOps (Double : Type 0) : Type 1 where
  pub LongDouble : Type 0
  pub of_u64 : ℕ → LongDouble
  pub divide : LongDouble → LongDouble → LongDouble
  pub million : LongDouble
  pub to_double : LongDouble → Double
  pub print_fixed : Double → Bytes

module _ (float : FloatOps) (ops : MeanOps float.Double) where
  open float use {Double, div, decimal, of_int}
  open ops use {of_u64, divide, million, to_double, print_fixed}

  pub get_decode_ms_ewma : Metrics → Double
  get_decode_ms_ewma m = div (of_int m.decode_ms_ewma_x1000) (decimal 10000 1)

  -- `total / count`, and 0.0 for no count.
  mean : ℕ → ℕ → Bytes
  mean total calls =
      if calls == 0
      then print_fixed (decimal 0 0)
      else print_fixed (to_double (divide (of_u64 total) (of_u64 calls)))

  -- The same of nanoseconds, in milliseconds.
  mean_ms : ℕ → ℕ → Bytes
  mean_ms ns calls =
      if calls == 0
      then print_fixed (decimal 0 0)
      else print_fixed (to_double (divide (divide (of_u64 ns) (of_u64 calls)) million))

  -- The first part, which is always there.
  counters : Metrics → Bytes
  unfolding mean mean_ms get_decode_ms_ewma
  counters m =
      codes "\"tokens_generated_total\":"
      ++ to_string m.tokens_generated_total
      ++ codes ","
      ++ codes "\"batch_calls_total\":"
      ++ to_string m.batch_calls_total
      ++ codes ","
      ++ codes "\"last_batch_size\":"
      ++ to_string m.last_batch_size
      ++ codes ","
      ++ codes "\"decode_ms_last\":"
      ++ to_string m.decode_ms_last
      ++ codes ","
      ++ codes "\"decode_ms_ewma\":"
      ++ print_fixed (get_decode_ms_ewma m)
      ++ codes ","
      ++ codes "\"decode_calls\":"
      ++ to_string m.decode_calls
      ++ codes ","
      ++ codes "\"decode_ns_total\":"
      ++ to_string m.decode_ns_total
      ++ codes ","
      ++ codes "\"decode_tokens_total\":"
      ++ to_string m.decode_tokens_total
      ++ codes ","
      ++ codes "\"decode_ms_min\":"
      ++ to_string m.decode_ms_min
      ++ codes ","
      ++ codes "\"decode_ms_max\":"
      ++ to_string m.decode_ms_max
      ++ codes ","
      ++ codes "\"decode_ms_mean\":"
      ++ mean_ms m.decode_ns_total m.decode_calls
      ++ codes ","
      ++ codes "\"decode_tokens_per_call_mean\":"
      ++ mean m.decode_tokens_total m.decode_calls

  -- The split between the two phases.
  phases : Metrics → Bytes
  unfolding mean_ms
  phases m =
      codes ","
      ++ codes "\"decode_phase_tokens_total\":"
      ++ to_string m.decode_phase_tokens_total
      ++ codes ","
      ++ codes "\"prefill_tokens_total\":"
      ++ to_string m.prefill_tokens_total
      ++ codes ","
      ++ codes "\"decode_ns_total_gen\":"
      ++ to_string m.decode_ns_total_gen
      ++ codes ","
      ++ codes "\"prefill_ns_total\":"
      ++ to_string m.prefill_ns_total
      ++ codes ","
      ++ codes "\"gen_ms_per_token_mean\":"
      ++ mean_ms m.decode_ns_total_gen m.decode_phase_tokens_total
      ++ codes ","
      ++ codes "\"prefill_ms_per_token_mean\":"
      ++ mean_ms m.prefill_ns_total m.prefill_tokens_total

  -- The breakdown of llama.cpp, with `debug`.
  perf_fields : Metrics → Bytes
  unfolding mean_ms
  perf_fields m =
      codes ","
      ++ codes "\"eval_ms_last\":"
      ++ to_string m.eval_ms_last
      ++ codes ","
      ++ codes "\"p_eval_ms_last\":"
      ++ to_string m.p_eval_ms_last
      ++ codes ","
      ++ codes "\"eval_calls\":"
      ++ to_string m.eval_calls
      ++ codes ","
      ++ codes "\"p_eval_calls\":"
      ++ to_string m.p_eval_calls
      ++ codes ","
      ++ codes "\"eval_ns_total\":"
      ++ to_string m.eval_ns_total
      ++ codes ","
      ++ codes "\"p_eval_ns_total\":"
      ++ to_string m.p_eval_ns_total
      ++ codes ","
      ++ codes "\"eval_ms_mean\":"
      ++ mean_ms m.eval_ns_total m.eval_calls
      ++ codes ","
      ++ codes "\"p_eval_ms_mean\":"
      ++ mean_ms m.p_eval_ns_total m.p_eval_calls

  -- The shape of the batches, and the guard, with `debug`.
  batch_fields : Metrics → Bytes
  batch_fields m =
      codes ","
      ++ codes "\"last_decode_tokens\":"
      ++ to_string m.last_decode_tokens
      ++ codes ","
      ++ codes "\"last_prefill_tokens\":"
      ++ to_string m.last_prefill_tokens
      ++ codes ","
      ++ codes "\"max_batch_size_seen\":"
      ++ to_string m.max_batch_size_seen
      ++ codes ","
      ++ codes "\"prefill_calls\":"
      ++ to_string m.prefill_calls
      ++ codes ","
      ++ codes "\"bmt_units_last\":"
      ++ to_string m.bmt_units_last
      ++ codes ","
      ++ codes "\"bmt_budget_units\":"
      ++ to_string m.bmt_budget_units
      ++ codes ","
      ++ codes "\"bmt_guard_active\":"
      ++ to_string m.bmt_guard_active
      ++ codes ","
      ++ codes "\"bmt_guard_activations\":"
      ++ to_string m.bmt_guard_activations

  unfoldable pub to_json : Metrics → ℕ → Bool → Bytes
  unfolding counters phases perf_fields batch_fields
  to_json m active_sessions debug =
      codes "{"
      ++ counters m
      ++ phases m
      ++ (if debug then perf_fields m else [])
      ++ codes ","
      ++ codes "\"active_sessions\":"
      ++ to_string active_sessions
      ++ (if debug then batch_fields m else [])
      ++ codes "}"
