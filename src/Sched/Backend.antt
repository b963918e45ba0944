-- ===== src/Sched/Backend.antt =====
-- What the scheduler uses of llama.cpp, of the C++ floating-point types, and of the sampler that
-- it holds: the parameters of its model.
use uma_serve.Base.{ℕ, Bool, List, Option}
use uma_serve.Runtime.Tokens.{Vocab}

-- One entry of a `llama_batch`; each entry belongs to one sequence.
pub record BatchToken : Type 0 where
  pub token : ℕ
  pub pos : ℕ
  pub seq_id : Option ℕ
  pub logits : Bool

-- `llama_perf_context_data`, as far as it is read.
pub record PerfData (Double : Type 0) : Type 0 where
  pub t_eval_ms : Double
  pub t_p_eval_ms : Double
  pub n_eval : ℕ
  pub n_p_eval : ℕ

-- `double` and its conversions; `decimal n k` is the literal n / 10^k.
pub record FloatOps : Type 1 where
  pub Double : Type 0
  pub add : Double → Double → Double
  pub mul : Double → Double → Double
  pub div : Double → Double → Double
  pub lt : Double → Double → Bool
  pub decimal : ℕ → ℕ → Double
  pub of_int : ℕ → Double
  pub to_int32 : Double → ℕ
  pub to_uint32 : Double → ℕ
  pub to_uint64 : Double → ℕ

-- `llama_context`, with the key-value memory in it, and what is called on it.
pub record Backend : Type 1 where
  pub float : FloatOps
  pub open float use *
  pub Context : Type 0
  pub Row : Type 0
  pub Rng : Type 0
  pub vocab : Vocab
  -- Whether the return code is 0, and the context afterwards.
  pub llama_decode : Context → List BatchToken → Bool × Context
  -- The logits of a batch index; `none` is a null pointer.
  pub llama_get_logits_ith : Context → ℕ → Option Row
  pub llama_memory_seq_rm : Context → Option ℕ → Context
  pub llama_perf_context_reset : Context → Context
  pub llama_perf_context : Context → PerfData Double
  -- `ISampler::sample` with the temperature, `top_p` and `top_k` of a session.
  pub sample : Row → ℕ → Double → Double → ℕ → Rng → ℕ × Rng
