-- ===== src/Runtime/Model.antt =====
-- runtime/model.cpp: the parameters of the model and of the context, and how the two are made. What
-- llama.cpp gives is a parameter.
use uma_serve.Base.{
  ℕ, suc, max, Bool, true, not, [], ◌∷◌, ◌++◌, Option, none, some, Bytes, codes, ltb, if◌then◌else◌,
}
use uma_serve.Base.Integers.{ℤ, pos}
use uma_serve.Runtime.Config.{RuntimeConfig}

-- `llama_model_params` and `llama_context_params`, as far as they are set.
pub record ModelParams : Type 0 where
  pub use_mlock : Bool
  pub use_mmap : Bool

pub record ContextParams : Type 0 where
  pub n_ctx : ℕ
  pub n_batch : ℕ
  pub n_ubatch : ℕ
  pub n_threads : ℤ
  pub n_threads_batch : ℤ
  pub n_seq_max : ℕ
  pub flash_attn_auto : Bool
  pub offload_kqv : Bool
  pub kv_unified : Bool
  pub swa_full : Bool
  pub no_perf : Bool
  pub op_offload : Bool

pub record LlamaLib : Type 1 where
  pub Model : Type 0
  pub Context : Type 0
  pub llama_model_default_params : ModelParams
  pub llama_context_default_params : ContextParams
  pub llama_model_load_from_file : Bytes → ModelParams → Option Model
  pub llama_init_from_model : Model → ContextParams → Option Context

-- A constructor or a call that may throw.
pub data Outcome (A : Type 0) : Type 0 where
  threw : Bytes → Outcome A
  returned : A → Outcome A

module _ (lib : LlamaLib) where
  pub make_model_params : RuntimeConfig → ModelParams
  make_model_params cfg = record lib.llama_model_default_params {
    use_mlock = cfg.use_mlock;
    use_mmap = cfg.use_mmap;
  }

  -- `if (cfg.x > 0) cp.x = cfg.x`.
  prefer : ℕ → ℕ → ℕ
  prefer value default = if ltb 0 value then value else default

  prefer_threads : ℤ → ℤ → ℤ
  prefer_threads (pos (suc n)) default = pos (suc n)
  prefer_threads _ default = default

  pub make_context_params : RuntimeConfig → ContextParams
  unfolding prefer prefer_threads
  make_context_params cfg =
      let cp = lib.llama_context_default_params in
      record {
        n_ctx = prefer cfg.n_ctx cp.n_ctx;
        n_batch = prefer cfg.n_batch cp.n_batch;
        n_ubatch = prefer cfg.n_ubatch cp.n_ubatch;
        n_threads = prefer_threads cfg.n_threads cp.n_threads;
        n_threads_batch = prefer_threads cfg.n_threads cp.n_threads_batch;
        n_seq_max = max cfg.n_seq_max 1;
        flash_attn_auto = true;
        offload_kqv = cfg.offload_kqv;
        kv_unified = cfg.kv_unified;
        swa_full = cfg.swa_full;
        no_perf = not cfg.enable_perf;
        op_offload = true;
      }

  -- `ModelHandle`: the model, and the parameters of its contexts.
  pub record ModelHandle : Type 0 where
    pub model : lib.Model
    pub ctx_params : ContextParams

  load : RuntimeConfig → Bytes → Outcome ModelHandle
  unfolding make_model_params make_context_params
  load cfg path = elim (lib.llama_model_load_from_file path (make_model_params cfg)) [
    | none ↦ threw (codes "Failed to load model: " ++ path)
    | some m ↦ returned (record { model = m; ctx_params = make_context_params cfg })
  ]

  -- The constructor, with the path of the configuration beside it.
  pub init : RuntimeConfig → Bytes → Outcome ModelHandle
  unfolding load
  init cfg [] = threw (codes "Model path not provided. Use --model or UMA_MODEL.")
  init cfg (c ∷ cs) = load cfg (c ∷ cs)

  pub new_context : ModelHandle → Outcome lib.Context
  new_context h = elim (lib.llama_init_from_model h.model h.ctx_params) [
    | none ↦ threw (codes "Failed to create llama_context")
    | some ctx ↦ returned ctx
  ]
