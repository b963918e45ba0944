-- ===== src/Sched/Scheduler.antt =====
-- sched/scheduler.cpp and sched/scheduler.h: the scheduler's state, the metrics and the tuning of
-- the target, and the whole of `tick`.
pub mod Capacity
pub mod Failed
pub mod Keyed
pub mod LongPrompt
pub mod Reports
pub mod Planned
pub mod Progress
pub mod Liveness
use mathlib.Core.Option
use uma_serve.Base.{
  ℕ, ◌+◌, ◌-◌, ◌*◌, ◌/◌, ◌%◌, ◌^◌, min, max, Bool, true, false, not, List, [], ◌∷◌, Option, none,
  some, ltb, ◌==◌, if◌then◌else◌, length,
}
use uma_serve.Ipc.Session.{SessionPool}
use uma_serve.Metrics.{Metrics}
use uma_serve.Runtime.Config.{RuntimeConfig}
use uma_serve.Sched.Backend.{Backend, BatchToken}
use uma_serve.Sched.Batch.{Batch, SampleRef, empty_batch, enact}
use uma_serve.Sched.Bmt.{u64}
use uma_serve.Sched.Guard.{Guarded, bmt_guard, guard_metrics}
use uma_serve.Sched.Policy.{Plan, schedule_tick}
use uma_serve.Sched.Results.{Sampling, u32, fail_samples, sample_all}

module _ (backend : Backend) where
  open backend use {
    Context, Row, Rng, Double, vocab, add, mul, div, lt, decimal, of_int, to_int32, to_uint32,
    to_uint64,
  }

  pub record Scheduler : Type 0 where
    pub batch_cap : ℕ
    pub target_batch : ℕ
    pub rr_decode_idx : ℕ
    pub rr_prefill_idx : ℕ
    pub ctx : Context
    pub config : RuntimeConfig
    pub metrics : Option Metrics
    pub decode_ms_ewma : Double
    pub rng : Rng

  -- `tick_budget_ms_`.
  abbrev pub tick_budget_ms : Double
  tick_budget_ms = decimal 300 1

  -- `Metrics::set_decode_ms_ewma`, in thousandths.
  pub set_decode_ms_ewma : Double → Metrics → Metrics
  set_decode_ms_ewma ms m =
      let ms' = if lt ms (decimal 0 0) then decimal 0 0 else ms in
      record m { decode_ms_ewma_x1000 = to_uint32 (mul ms' (decimal 10000 1)) }

  -- The constructor; `n_batch` is what `llama_n_batch` gives.
  pub init : Context → ℕ → RuntimeConfig → Option Metrics → Rng → Scheduler
  unfolding set_decode_ms_ewma
  init ctx n_batch config metrics rng = record {
    batch_cap = n_batch;
    target_batch = n_batch;
    rr_decode_idx = 0;
    rr_prefill_idx = 0;
    ctx = ctx;
    config = config;
    metrics = Option.map (set_decode_ms_ewma tick_budget_ms) metrics;
    decode_ms_ewma = tick_budget_ms;
    rng = rng;
  }

  -- The generation-only counters, for a batch with a token to decode.
  pub decode_metrics : ℕ → ℕ → Metrics → Metrics
  decode_metrics gen_ns gen_tok m =
      let gen_ms = to_uint32 (add (div (of_int gen_ns) (decimal 10000000 1)) (decimal 5 1)) in
      record m {
        decode_ms_last = gen_ms;
        decode_ns_total = u64 (m.decode_ns_total + gen_ns);
        decode_calls = u64 (m.decode_calls + 1);
        decode_tokens_total = u64 (m.decode_tokens_total + gen_tok);
        decode_ms_min = if ltb gen_ms m.decode_ms_min then gen_ms else m.decode_ms_min;
        decode_ms_max = if ltb m.decode_ms_max gen_ms then gen_ms else m.decode_ms_max;
      }

  -- llama.cpp's own breakdown, which is kept in debug runs only.
  pub perf_metrics : Context → Metrics → Metrics
  perf_metrics ctx m =
      let p = backend.llama_perf_context ctx in
      record m {
        eval_ms_last = to_uint32 (add p.t_eval_ms (decimal 5 1));
        p_eval_ms_last = to_uint32 (add p.t_p_eval_ms (decimal 5 1));
        eval_ns_total = u64 (m.eval_ns_total + to_uint64 (mul p.t_eval_ms (decimal 10000000 1)));
        p_eval_ns_total =
            u64 (m.p_eval_ns_total + to_uint64 (mul p.t_p_eval_ms (decimal 10000000 1)));
        eval_calls = if ltb 0 p.n_eval then u64 (m.eval_calls + 1) else m.eval_calls;
        p_eval_calls = if ltb 0 p.n_p_eval then u64 (m.p_eval_calls + 1) else m.p_eval_calls;
      }

  -- The time of a batch, shared out by the token counts of the two phases.
  pub generation_ns : ℕ → ℕ → ℕ → ℕ
  generation_ns dur_ns gen_tok tot_tok =
      if ltb 0 tot_tok then u64 (dur_ns * gen_tok / tot_tok) else 0

  pub batch_metrics : RuntimeConfig → Context → ℕ → ℕ → Plan → Metrics → Metrics
  unfolding decode_metrics perf_metrics generation_ns
  batch_metrics config ctx dur_ns n_tokens plan m =
      let gen_ns = generation_ns dur_ns plan.decode_tok_count n_tokens in
      let m' = record m {
        batch_calls_total = u64 (m.batch_calls_total + 1);
        last_batch_size = u32 n_tokens;
        decode_phase_tokens_total = u64 (m.decode_phase_tokens_total + plan.decode_tok_count);
        prefill_tokens_total = u64 (m.prefill_tokens_total + plan.prefill_tok_count);
        decode_ns_total_gen = u64 (m.decode_ns_total_gen + gen_ns);
        prefill_ns_total =
            u64
              (m.prefill_ns_total + (if ltb 0 n_tokens then u64 (dur_ns + 2 ^ 64 - gen_ns) else 0));
      } in
      let m'' =
        if ltb 0 plan.decode_tok_count
        then decode_metrics gen_ns plan.decode_tok_count m'
        else m' in
      if config.enable_perf then perf_metrics ctx m'' else m''

  -- The moving average: 0.8 of the old value and 0.2 of the new.
  pub next_ewma : Double → ℕ → Double
  next_ewma ewma dur_ns =
      add (mul (decimal 8 1) ewma) (mul (decimal 2 1) (div (of_int dur_ns) (decimal 10000000 1)))

  -- The adaptive tuning of `target_batch_`.
  unfoldable pub adapt : Double → ℕ → ℕ → ℕ
  adapt ewma batch_cap target_batch =
      if lt (mul (decimal 13 1) tick_budget_ms) ewma
      then max 8 (to_int32 (mul (of_int target_batch) (decimal 7 1)))
      else if lt ewma (mul (decimal 8 1) tick_budget_ms)
      then min batch_cap (target_batch + max 1 (target_batch / 8))
      else target_batch

  -- The state of the scheduler, the sessions, and the descriptors to watch for writing.
  pub record Ticked : Type 0 where
    pub scheduler : Scheduler
    pub sessions : SessionPool Double
    pub result_fds : List ℕ

  -- The plan of a tick, trimmed by the guard where one is configured, and the cursors after it.
  unfoldable pub planned : Scheduler → SessionPool Double → Plan × Scheduler
  planned sched sessions =
      let plan =
        schedule_tick sessions sched.batch_cap sched.target_batch sched.rr_decode_idx
          sched.rr_prefill_idx in
      let sched' = record sched {
        rr_decode_idx = plan.next_rr_decode_idx;
        rr_prefill_idx = plan.next_rr_prefill_idx;
      } in
      let budget = sched.config.bmt_budget_units in
      if budget == 0
      then (plan, sched')
      else (let g = bmt_guard sessions budget plan in
          (
            g.plan,
            record sched' {
              metrics = Option.map (guard_metrics budget g.est g.trimmed) sched.metrics;
            },
          ))

  -- The timing of a batch goes into the metrics, the moving average and the target.
  pub timed : ℕ → ℕ → Plan → Scheduler → Scheduler
  unfolding batch_metrics next_ewma set_decode_ms_ewma
  timed dur_ns n_tokens plan sched =
      let ewma = next_ewma sched.decode_ms_ewma dur_ns in
      let publish : Metrics → Metrics = λ m.
        set_decode_ms_ewma ewma (batch_metrics sched.config sched.ctx dur_ns n_tokens plan m) in
      record sched {
        metrics = Option.map publish sched.metrics;
        decode_ms_ewma = ewma;
        target_batch = adapt ewma sched.batch_cap sched.target_batch;
      }

  -- What follows from the return code.
  pub settle : Bool → ℕ → List SampleRef → Scheduler → SessionPool Double → Ticked
  settle false now_ns samples sched sessions = record {
    scheduler = sched;
    sessions = fail_samples samples sessions;
    result_fds = [];
  }
  settle true now_ns samples sched sessions =
      let g = sample_all backend sched.config.max_tokens now_ns samples (record {
        sessions = sessions;
        ctx = sched.ctx;
        rng = sched.rng;
        metrics = sched.metrics;
        result_fds = [];
      }) in
      record {
        scheduler = record sched { ctx = g.ctx; rng = g.rng; metrics = g.metrics };
        sessions = g.sessions;
        result_fds = g.result_fds;
      }

  -- A batch that is not empty is decoded; `dur_ns` is how long that takes.
  pub run_batch : ℕ → ℕ → Plan → Batch → Scheduler → SessionPool Double → Ticked
  unfolding timed settle
  run_batch now_ns dur_ns plan b sched sessions =
      let ctx =
        if sched.config.enable_perf
        then backend.llama_perf_context_reset sched.ctx
        else sched.ctx in
      let (ok, ctx') = backend.llama_decode ctx b.tokens in
      settle ok now_ns b.samples (timed dur_ns (length b.tokens) plan (record sched { ctx = ctx' }))
        sessions

  pub finish_tick : ℕ → ℕ → Plan → Batch → Scheduler → SessionPool Double → Ticked
  unfolding run_batch
  finish_tick now_ns dur_ns plan b sched sessions =
      if length b.tokens == 0
      then record { scheduler = sched; sessions = sessions; result_fds = [] }
      else run_batch now_ns dur_ns plan b sched sessions

  -- `Scheduler::tick`.
  unfoldable pub tick : Scheduler → SessionPool Double → ℕ → ℕ → Ticked
  unfolding planned finish_tick
  tick sched sessions now_ns dur_ns =
      let (plan, sched') = planned sched sessions in
      let (sessions', b) = enact plan.items (sessions, empty_batch) in
      finish_tick now_ns dur_ns plan b sched' sessions'
