-- ===== src/Sched/Tests.antt =====
-- Test data for the scheduler: a small backend, and sessions in the states that matter.
mod Plans
mod Enacted
mod Sampling
mod Tokens
mod Ends
use uma_serve.Base.{
  ℕ, ◌+◌, ◌*◌, ◌/◌, ◌^◌, Bool, true, false, List, [], ◌∷◌, none, some, ltb, ◌==◌, codes,
}
use uma_serve.Ipc.Session.{ClientSession, SessionPool, SessionState}
use uma_serve.Metrics.{initial_metrics}
use uma_serve.Runtime.Config.{RuntimeConfig, default_config}
use uma_serve.Sched.Backend.{FloatOps, Backend}
use uma_serve.Sched.Scheduler.{Scheduler}

abbrev pub float : FloatOps
float = record {
  Double = ℕ;
  add = λ a b. a + b;
  mul = λ a b. a * b;
  div = λ a b. a / b;
  lt = ltb;
  decimal = λ n k. n / 10 ^ k;
  of_int = λ n. n;
  to_int32 = λ n. n;
  to_uint32 = λ n. n;
  to_uint64 = λ n. n;
}

-- Each byte is a token, and 0 ends the generation.
abbrev pub backend : Bool → Backend
backend ok = record {
  float = float;
  Context = ℕ;
  Row = ℕ;
  Rng = ℕ;
  vocab = record {
    llama_tokenize = λ text _ _. some text;
    llama_token_to_piece = λ t _ _. some (t ∷ []);
    llama_vocab_is_eog = λ t. t == 0;
    llama_vocab_n_tokens = 256;
  };
  llama_decode = λ ctx tokens. (ok, ctx + 1);
  llama_get_logits_ith = λ ctx i. some i;
  llama_memory_seq_rm = λ ctx seq. ctx;
  llama_perf_context_reset = λ ctx. ctx;
  llama_perf_context = λ ctx. record { t_eval_ms = 0; t_p_eval_ms = 0; n_eval = 0; n_p_eval = 0 };
  sample = λ row n t p k rng. (row + rng, rng + 1);
}

abbrev pub session : ℕ → SessionState → List ℕ → ClientSession ℕ
session fd state prompt = record {
  fd = fd;
  rx = [];
  tx = [];
  seq = some fd;
  state = state;
  prompt_tokens = prompt;
  prefill_idx = 0;
  has_pending_tok = false;
  pending_tok = 0;
  n_past = 0;
  generated_count = 0;
  last_activity_ns = 0;
  wants_stream = true;
  read_closed = false;
  last_error = [];
  slo = record { target_ttft_ms = 150; target_tbt_ms = 80; priority = 5 };
  req_start_ns = 1;
  first_emit_ns = 0;
  last_emit_ns = 0;
  temperature = 0;
  top_p = 1;
  top_k = 0;
  request_id = codes "r1";
}

-- Two sessions in DECODE, and one in PREFILL with a prompt that is longer than the burst.
abbrev pub decoding : ℕ → ClientSession ℕ
decoding fd = record (session fd SessionState.decode (1 ∷ [])) {
  prefill_idx = 1;
  has_pending_tok = true;
  pending_tok = 7;
  n_past = 3;
  first_emit_ns = 5;
}

abbrev pub long_prompt : List ℕ
long_prompt = 1 ∷ 2 ∷ 3 ∷ 4 ∷ 5 ∷ 6 ∷ 7 ∷ 8 ∷ 9 ∷ 10 ∷ 11 ∷ 12 ∷ 13 ∷ 14 ∷ 15 ∷ 16 ∷ 17 ∷ 18 ∷ []

abbrev pub prefilling : ClientSession ℕ
prefilling = session 6 SessionState.prefill long_prompt

abbrev pub sessions : SessionPool ℕ
sessions = (4, decoding 4) ∷ (6, prefilling) ∷ (5, decoding 5) ∷ []

abbrev pub scheduler : (ok : Bool) → Scheduler (backend ok)
scheduler ok = record {
  batch_cap = 8;
  target_batch = 8;
  rr_decode_idx = 1;
  rr_prefill_idx = 0;
  ctx = 0;
  config = record default_config { bmt_budget_units = 20 };
  metrics = some initial_metrics;
  decode_ms_ewma = 30;
  rng = 0;
}
