-- ===== src/Sched/Results.antt =====
-- sched/scheduler.cpp, the end of `tick`: what a decoded batch does to the sessions that it sampled.
pub mod Sampled
pub mod Failure
pub mod Keyed
pub mod Output
pub mod Spoken
pub mod Served
use mathlib.Core.Option
use uma_serve.Base.{
  ℕ, zero, suc, ◌+◌, ◌-◌, ◌%◌, ◌^◌, Bool, true, false, not, ◌&&◌, ◌||◌, List, [], ◌∷◌, ◌++◌, Option,
  none, some, ◌==◌, leb, if◌then◌else◌, Bytes, codes,
}
use uma_serve.Ipc.Protocol.{append_token_event, append_eos_event, append_error_event}
use uma_serve.Ipc.Session.{ClientSession, SessionPool, SessionState, is_prefill, find, store}
use uma_serve.Metrics.{Metrics}
use uma_serve.Runtime.Tokens.{token_to_piece_str}
use uma_serve.Sched.Backend.{Backend}
use uma_serve.Sched.Batch.{SampleRef}

-- `container.empty()`.
abbrev pub is_empty {ℓ} : {A : Type ℓ} → List A → Bool
is_empty [] = true
is_empty (x ∷ xs) = false

abbrev pub u32 : ℕ → ℕ
u32 x = x % 2 ^ 32

module _ {D : Type 0} where
  -- `dec_rc != 0`: what happens to the session of one sample.
  unfoldable pub fail_session : ClientSession D → ClientSession D
  fail_session s = record s {
    last_error = codes "decode error";
    state = SessionState.errored;
    tx = append_error_event s.tx s.request_id (codes "E_RUNTIME_DECODE") (codes "decode failed");
    read_closed = true;
  }

  unfoldable pub fail_samples : List SampleRef → SessionPool D → SessionPool D
  fail_samples [] sessions = sessions
  fail_samples (r ∷ samples) sessions = fail_samples samples (elim (find r.fd sessions) [
    | none ↦ sessions
    | some s ↦ store r.fd (fail_session s) sessions
  ])

  -- The event of a token, unless its text is empty.
  unfoldable pub emit_token : Bytes → ℕ → ClientSession D → ClientSession D
  emit_token piece new_id s =
      if is_empty piece
      then s
      else record s { tx = append_token_event s.tx s.request_id piece new_id }

  unfoldable pub stamp_emit : ℕ → ClientSession D → ClientSession D
  stamp_emit now_ns s = record s {
    first_emit_ns = if s.first_emit_ns == 0 then now_ns else s.first_emit_ns;
    last_emit_ns = now_ns;
  }

  -- The first token of a response.
  pub after_prefill : Bytes → ℕ → ℕ → ClientSession D → ClientSession D
  unfolding emit_token stamp_emit
  after_prefill piece new_id now_ns s = stamp_emit now_ns (
      emit_token piece new_id
        (record s { pending_tok = new_id; has_pending_tok = true; state = SessionState.decode }))

  -- The end of a response.
  pub finish : ℕ → ℕ → ClientSession D → ClientSession D
  unfolding stamp_emit
  finish max_tokens now_ns s = stamp_emit now_ns (record s {
    tx =
        append_eos_event s.tx s.request_id
          (if leb max_tokens s.generated_count then codes "length" else codes "stop");
    state = SessionState.stream;
    n_past = 0;
  })

  -- A further token of a response.
  pub continue_decode : Bytes → ℕ → ℕ → ClientSession D → ClientSession D
  unfolding emit_token stamp_emit
  continue_decode piece new_id now_ns s = stamp_emit now_ns (
      let e = emit_token piece new_id s in
      record e {
        generated_count = u32 (s.generated_count + 1);
        pending_tok = new_id;
        has_pending_tok = true;
        n_past = s.n_past + 1;
        state = SessionState.decode;
      })

unfoldable pub count_token : Option Metrics → Option Metrics
count_token =
    Option.map {A = Metrics}
      (λ m. record m { tokens_generated_total = (m.tokens_generated_total + 1) % 2 ^ 64 })

module _ (backend : Backend) where
  open backend use {Context, Row, Rng, Double, vocab}

  -- What the loop over the samples writes.
  pub record Sampling : Type 0 where
    pub sessions : SessionPool Double
    pub ctx : Context
    pub rng : Rng
    pub metrics : Option Metrics
    pub result_fds : List ℕ

  -- One sampled token of one session: the session, the context and the metrics afterwards.
  pub sampled :
      SessionState
      → ℕ
      → ℕ
      → ℕ
      → ClientSession Double
      → Context
      → Option Metrics
      → ClientSession Double × Context × Option Metrics
  unfolding after_prefill finish continue_decode count_token
  sampled state_before max_tokens now_ns new_id s ctx m =
      let piece = token_to_piece_str vocab new_id true in
      if is_prefill state_before
      then (after_prefill piece new_id now_ns s, ctx, count_token m)
      else if vocab.llama_vocab_is_eog new_id || leb max_tokens s.generated_count
      then (finish max_tokens now_ns s, backend.llama_memory_seq_rm ctx s.seq, m)
      else (continue_decode piece new_id now_ns s, ctx, count_token m)

  -- The body of the loop for a session and its row of logits. `result_fds` gets the session if
  -- nothing waited to be written before.
  pub sample_row : ℕ → ℕ → SampleRef → ClientSession Double → Row → Sampling → Sampling
  unfolding sampled
  sample_row max_tokens now_ns r s row g =
      let need_arm = is_empty s.tx in
      let (new_id, rng) =
        backend.sample row vocab.llama_vocab_n_tokens s.temperature s.top_p s.top_k g.rng in
      let (s', ctx, metrics) = sampled r.state_before max_tokens now_ns new_id s g.ctx g.metrics in
      record {
        sessions = store r.fd s' g.sessions;
        ctx = ctx;
        rng = rng;
        metrics = metrics;
        result_fds = if need_arm then g.result_fds ++ s.fd ∷ [] else g.result_fds;
      }

  pub sample_one : ℕ → ℕ → SampleRef → Sampling → Sampling
  unfolding sample_row
  sample_one max_tokens now_ns r g = elim (find r.fd g.sessions) [
    | none ↦ g
    | some s ↦ elim (backend.llama_get_logits_ith g.ctx r.batch_index) [
      | none ↦ g
      | some row ↦ sample_row max_tokens now_ns r s row g
    ]
  ]

  unfoldable pub sample_all : ℕ → ℕ → List SampleRef → Sampling → Sampling
  unfolding sample_one
  sample_all max_tokens now_ns [] g = g
  sample_all max_tokens now_ns (r ∷ samples) g =
      sample_all max_tokens now_ns samples (sample_one max_tokens now_ns r g)
