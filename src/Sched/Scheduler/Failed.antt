-- ===== src/Sched/Scheduler/Failed.antt =====
-- A tick whose batch llama.cpp does not decode.
use uma_serve.Base.{
  ℕ, ◌<◌, ◌≡◌, refl, ap, ◌∙◌, some, codes, count, Distinct, true, Bool, false, [], arith, ◌==◌,
  if◌then◌else◌, length,
}
use uma_serve.Ipc.Session.{SessionPool, SessionState, ClientSession, find}
use uma_serve.Ipc.Protocol.{append_error_event}
use uma_serve.Sched.Backend.{Backend}
use uma_serve.Sched.Policy.{Plan}
use uma_serve.Sched.Batch.{Batch, empty_batch, enact}
use uma_serve.Sched.Results.{fail_samples}
use uma_serve.Ipc.Session.Lookup.{IsKeyed}
use uma_serve.Sched.Batch.Once.{enact-Distinct}
use uma_serve.Sched.Policy.Once.{CursorFits}
use uma_serve.Sched.Policy.{decode_pool, prefill_pool}
use uma_serve.Sched.Scheduler.Planned.{planned-once}
use uma_serve.Sched.Results.Failure.{sampled_fds, find-fail_samples}
use uma_serve.Sched.Scheduler.{Scheduler, planned, finish_tick, run_batch, settle, tick}

module _ (backend : Backend) (now_ns dur_ns : ℕ) (sched : Scheduler backend)
    (sessions : SessionPool backend.Double) where
  run_batch_failed :
      (plan : Plan) (b : Batch)
      → let ctx =
          if sched.config.enable_perf
          then backend.llama_perf_context_reset sched.ctx
          else sched.ctx in
        let after = run_batch backend now_ns dur_ns plan b sched sessions in
        (backend.llama_decode ctx b.tokens).0 ≡ false
        → (after.result_fds ≡ []) × (after.sessions ≡ fail_samples b.samples sessions)
  run_batch_failed plan b e = unfold run_batch in rw (e, settle) (refl, refl)

  finish_tick_failed :
      (plan : Plan) (b : Batch)
      → let ctx =
          if sched.config.enable_perf
          then backend.llama_perf_context_reset sched.ctx
          else sched.ctx in
        let after = finish_tick backend now_ns dur_ns plan b sched sessions in
        0 < length b.tokens
        → (backend.llama_decode ctx b.tokens).0 ≡ false
        → (after.result_fds ≡ []) × (after.sessions ≡ fail_samples b.samples sessions)
  finish_tick_failed plan b h e =
      let some_tokens : (length b.tokens == 0) ≡ false = ground arith in
      let failed = run_batch_failed plan b e in
      unfold finish_tick in rw (finish_tick, some_tokens) failed

module _ (backend : Backend) (sched : Scheduler backend)
    (sessions : SessionPool backend.Double) where
  -- What a tick plans, the sessions and the batch that it makes of the plan, and whether the
  -- decoding of that batch succeeds.
  abbrev pub planned_tick : Plan × Scheduler backend
  planned_tick = planned backend sched sessions

  abbrev pub enacted : SessionPool backend.Double × Batch
  enacted = enact planned_tick.0.items (sessions, empty_batch)

  abbrev pub decodes : Bool
  decodes =
      let ctx =
        if planned_tick.1.config.enable_perf
        then backend.llama_perf_context_reset planned_tick.1.ctx
        else planned_tick.1.ctx in
      (backend.llama_decode ctx enacted.1.tokens).0

  -- Let the map hold each session under its own descriptor, let the cursors not wrap, let the batch
  -- of a tick not be empty, and let the decoding of the batch fail. Each session that was sampled is
  -- then in state ERRORED with one error event behind its output and reads no more; but the tick
  -- reports no descriptor, so it asks for none of them to be watched for writing. Every session that
  -- was not sampled is as the batch left it.
  pub tick_failed :
      (now_ns dur_ns j : ℕ) (s : ClientSession backend.Double)
      → IsKeyed sessions
      → CursorFits sched.rr_decode_idx (decode_pool sessions)
      → CursorFits sched.rr_prefill_idx (prefill_pool sessions)
      → 0 < length enacted.1.tokens
      → decodes ≡ false
      → find j enacted.0 ≡ some s
      → let after = tick backend sched sessions now_ns dur_ns in
        (after.result_fds ≡ [])
        × (find j after.sessions
            ≡ some (
                if count j (sampled_fds enacted.1.samples) == 0 then s else record s {
                  last_error = codes "decode error";
                  state = SessionState.errored;
                  tx =
                      append_error_event s.tx s.request_id
                        (codes "E_RUNTIME_DECODE")
                        (codes "decode failed");
                  read_closed = true;
                }))
  tick_failed now_ns dur_ns j s keyed c p h e f =
      let once : Distinct (sampled_fds enacted.1.samples) =
        enact-Distinct planned_tick.0.items sessions keyed
          (λ a. planned-once backend sched sessions a keyed c p) in
      let failed : ((tick backend sched sessions now_ns dur_ns).result_fds ≡ [])
          × ((tick backend sched sessions now_ns dur_ns).sessions
              ≡ fail_samples enacted.1.samples enacted.0) =
        unfold tick in
        finish_tick_failed backend now_ns dur_ns planned_tick.1 enacted.0 planned_tick.0 enacted.1 h
          e in
      (
        failed.0,
        ap (find j) failed.1
            ∙ find-fail_samples enacted.1.samples enacted.0 j once
            ∙ rw f (ground arith),
      )
