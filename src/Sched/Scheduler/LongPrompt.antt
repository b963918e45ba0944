-- ===== src/Sched/Scheduler/LongPrompt.antt =====
-- The first chunk of a prompt, from the plan to the sample.
use uma_serve.Base.{ℕ, ◌+◌, ◌≤◌, ◌<◌, ◌≡◌, ap, ◌∙◌, false, arith, length, Option}
use uma_serve.Ipc.Session.{ClientSession, SessionState}
use uma_serve.Metrics.{Metrics}
use uma_serve.Sched.Backend.{Backend}
use uma_serve.Sched.Batch.Chunk.{enact_session-chunk}
use uma_serve.Sched.Batch.{Batch, enact_session}
use uma_serve.Sched.Policy.{burst, chunk_of, is_prefill_ready, prefill}
use uma_serve.Sched.Results.Sampled.{sampled_prefill}
use uma_serve.Sched.Results.{sampled}

module _ (backend : Backend) (ctx : backend.Context) (m : Option Metrics)
    (max_tokens now_ns : ℕ) where
  open backend use {Double}

  chunk_of-burst :
      (s : ClientSession Double) (budget : ℕ) → s.first_emit_ns ≡ 0 → chunk_of s budget ≤ burst
  unfolding chunk_of
  chunk_of-burst s budget e = ground arith

  -- Take a session that has emitted nothing yet and whose prompt has more tokens left than the
  -- burst. Whatever the budget, once the chunk that the plan gives it is enacted and its row is
  -- sampled, the session is in DECODE with tokens of its prompt unread, and no longer ready for
  -- prefill: the rest of the prompt is not processed.
  pub long_prompt_cut :
      (s : ClientSession Double) (b : Batch) (budget new_id : ℕ)
      → s.first_emit_ns ≡ 0
      → s.prefill_idx + burst < length s.prompt_tokens
      → let enacted = (enact_session prefill (chunk_of s budget) s b).0 in
        let after =
          (sampled backend SessionState.prefill max_tokens now_ns new_id enacted ctx m).0 in
        (after.state ≡ SessionState.decode)
        × (after.prompt_tokens ≡ s.prompt_tokens)
        × (after.prefill_idx < length after.prompt_tokens)
        × (is_prefill_ready after ≡ false)
  long_prompt_cut s b budget new_id e h =
      let small = chunk_of-burst s budget e in
      let (chunk, _) = enact_session-chunk (chunk_of s budget) s b (omega arith) in
      let enacted = (enact_session prefill (chunk_of s budget) s b).0 in
      let (d, p, i, _) = sampled_prefill backend ctx m max_tokens now_ns new_id enacted in
      let idx : enacted.prefill_idx ≡ s.prefill_idx + chunk_of s budget =
        ap (λ (v : ClientSession Double). v.prefill_idx) chunk in
      let prompt = p ∙ ap (λ (v : ClientSession Double). v.prompt_tokens) chunk in
      (d, prompt, omega (arith, ap length prompt), ground (arith, d))
