-- ===== src/Sched/Scheduler/Progress.antt =====
-- Ticks, one after the other: while the pool is small enough, every session that decodes gets its
-- token in each tick, and so its response ends.
use uma_serve.Base.{
  ℕ, ◌≤◌, ◌≡◌, refl, subst, ◌∙◌, inl, inr, Bool, true, false, List, [], ◌∷◌, Option, some, arith,
  ◌==◌, length, get_elem?, All, Bool-cases, if◌then◌else◌,
}
use uma_serve.Ipc.Session.{ClientSession, SessionPool, find}
use uma_serve.Runtime.Config.{RuntimeConfig}
use uma_serve.Sched.Backend.{Backend, BatchToken}
use uma_serve.Sched.Batch.Rows.{Refers, enact-IsConsistent}
use uma_serve.Sched.Batch.Served.{SampledAs, enact-apart, enact-served}
use uma_serve.Sched.Batch.{Batch, SampleRef, empty_batch, enact}
use uma_serve.Sched.Policy.{Plan, is_decode_ready, is_prefill_ready}
use uma_serve.Sched.Results.Served.{HasRow, Found, sample_all-apart, sample_all-served}
use uma_serve.Sched.Scheduler.{
  Scheduler, planned, adapt, timed, settle, run_batch, finish_tick, tick,
}
use uma_serve.Sched.Scheduler.Planned.{HasRoom, planned-fields, planned-decodes, planned-idle}

-- What is asked of llama.cpp: each batch is decoded; then there is a row of logits for each entry
-- that asks for one, and dropping a sequence leaves the rows.
pub record Decodes (backend : Backend) : Type 0 where
  pub succeeds :
      (ctx : backend.Context) (tokens : List BatchToken)
      → (backend.llama_decode ctx tokens).0 ≡ true
  pub rows :
      (ctx : backend.Context) (tokens : List BatchToken) (i : ℕ) (t : BatchToken)
      → get_elem? tokens i ≡ some t
      → t.logits ≡ true
      → (row : backend.Row) × (backend.llama_get_logits_ith (backend.llama_decode ctx tokens).1 i
          ≡ some row)
  pub keeps :
      (ctx : backend.Context) (seq : Option ℕ) (i : ℕ)
      → backend.llama_get_logits_ith (backend.llama_memory_seq_rm ctx seq) i
        ≡ backend.llama_get_logits_ith ctx i

module _ (backend : Backend) (laws : Decodes backend) (now_ns dur_ns a : ℕ) where
  open backend use {Context, Double}

  all_rows :
      (ctx : Context) (tokens : List BatchToken) (samples : List SampleRef)
      → All (Refers tokens) samples
      → All (HasRow backend (backend.llama_decode ctx tokens).1) samples
  all_rows ctx tokens [] h = tt
  all_rows ctx tokens (r ∷ samples) ((t, e, l), h) =
      (laws.rows ctx tokens r.batch_index t e l, all_rows ctx tokens samples h)

  run_batch-served :
      (s : ClientSession Double) (plan : Plan) (b : Batch) (sched : Scheduler backend)
      (sessions : SessionPool Double)
      → All (Refers b.tokens) b.samples
      → SampledAs a 1 b.samples
      → find a sessions ≡ some s
      → Found backend sched.config.max_tokens now_ns a s
          (run_batch backend now_ns dur_ns plan b sched sessions).sessions
  unfolding run_batch settle timed
  run_batch-served s plan b sched sessions refers once e =
      let ctx =
        if sched.config.enable_perf
        then backend.llama_perf_context_reset sched.ctx
        else sched.ctx in
      rw (run_batch, laws.succeeds ctx b.tokens)
        (sample_all-served backend sched.config.max_tokens now_ns a s b.samples _ laws.keeps
          (all_rows ctx b.tokens b.samples refers) once e)

  run_batch-apart :
      (plan : Plan) (b : Batch) (sched : Scheduler backend) (sessions : SessionPool Double)
      → SampledAs a 0 b.samples
      → find a (run_batch backend now_ns dur_ns plan b sched sessions).sessions ≡ find a sessions
  unfolding run_batch settle timed
  run_batch-apart plan b sched sessions h =
      let ctx =
        if sched.config.enable_perf
        then backend.llama_perf_context_reset sched.ctx
        else sched.ctx in
      rw (run_batch, laws.succeeds ctx b.tokens)
        (sample_all-apart backend sched.config.max_tokens now_ns a b.samples _ h.times)

  nonempty :
      (tokens : List BatchToken) (samples : List SampleRef)
      → All (Refers tokens) samples
      → SampledAs a 1 samples
      → (length tokens == 0) ≡ false
  nonempty tokens [] h n = absurd (omega (arith, n.times))
  nonempty [] (r ∷ samples) ((t, e, l), h) n = cc
  nonempty (t ∷ tokens) (r ∷ samples) h n = ground arith

  -- A session that is ready to decode, in a pool with room, gets its token.
  pub tick-served :
      (s : ClientSession Double) (sched : Scheduler backend) (sessions : SessionPool Double)
      → HasRoom backend sched sessions
      → find a sessions ≡ some s
      → is_decode_ready s ≡ true
      → Found backend sched.config.max_tokens now_ns a
          (record s { has_pending_tok = false })
          (tick backend sched sessions now_ns dur_ns).sessions
  unfolding tick finish_tick
  tick-served s sched sessions h e r =
      let plan = (planned backend sched sessions).0 in
      let sched' = (planned backend sched sessions).1 in
      let after = enact plan.items (sessions, empty_batch) in
      let (once, decodes) = planned-decodes backend sched sessions a s h e r in
      let (found, sampled) =
        enact-served a s plan.items (sessions, empty_batch) h.keyed once decodes
          (e, record { times = refl; decodes = tt }) in
      let refers = (enact-IsConsistent plan.items sessions).2 in
      let config = (planned-fields backend sched sessions).0 in
      let full = nonempty after.1.tokens after.1.samples refers sampled in
      rw (finish_tick, full)
        (subst
          (λ (c : RuntimeConfig).
            Found backend c.max_tokens now_ns a (record s { has_pending_tok = false })
              (run_batch backend now_ns dur_ns plan after.1 sched' after.0).sessions)
          config
          (run_batch-served (record s { has_pending_tok = false }) plan after.1 sched' after.0
            refers sampled found))

  -- A session that is ready for nothing stays as it is.
  pub tick-idle :
      (s : ClientSession Double) (sched : Scheduler backend) (sessions : SessionPool Double)
      → HasRoom backend sched sessions
      → find a sessions ≡ some s
      → is_decode_ready s ≡ false
      → is_prefill_ready s ≡ false
      → find a (tick backend sched sessions now_ns dur_ns).sessions ≡ some s
  unfolding tick finish_tick
  tick-idle s sched sessions h e r r' =
      let plan = (planned backend sched sessions).0 in
      let after = enact plan.items (sessions, empty_batch) in
      let (found, sampled) =
        enact-apart a (some s) 0 plan.items (sessions, empty_batch) h.keyed
          (planned-idle backend sched sessions a s h e r r')
          (e, record { times = refl; decodes = tt }) in
      elim (Bool-cases (length after.1.tokens == 0)) [
        | inl empty ↦ rw (finish_tick, empty) found
        | inr full ↦
            rw (finish_tick, full)
              (run_batch-apart plan after.1 (planned backend sched sessions).1 after.0 sampled
                ∙ found)
      ]

module _ (backend : Backend) (now_ns dur_ns : ℕ) where
  adapt-large :
      (ewma : backend.Double) (n cap target : ℕ)
      → n ≤ 8
      → n ≤ cap
      → n ≤ target
      → n ≤ adapt backend ewma cap target
  unfolding adapt
  adapt-large ewma n cap target few c t = ground arith

  -- The fields of the scheduler behind a batch.
  abbrev pub Adapted : Scheduler backend → Scheduler backend → Type 0
  Adapted sched s =
      (s.config ≡ sched.config)
      × (s.batch_cap ≡ sched.batch_cap)
      × ((n : ℕ) → n ≤ 8 → n ≤ sched.batch_cap → n ≤ sched.target_batch → n ≤ s.target_batch)
      × (s.rr_decode_idx ≡ sched.rr_decode_idx)
      × (s.rr_prefill_idx ≡ sched.rr_prefill_idx)

  settle-fields :
      (ok : Bool) (samples : List SampleRef) (sched : Scheduler backend)
      (sessions : SessionPool backend.Double)
      → Adapted sched (settle backend ok now_ns samples sched sessions).scheduler
  unfolding settle
  settle-fields true samples sched sessions = (refl, refl, λ n few c t. t, refl, refl)
  settle-fields false samples sched sessions = (refl, refl, λ n few c t. t, refl, refl)

  pub finish_tick-fields :
      (plan : Plan) (b : Batch) (sched : Scheduler backend) (sessions : SessionPool backend.Double)
      → Adapted sched (finish_tick backend now_ns dur_ns plan b sched sessions).scheduler
  unfolding finish_tick run_batch timed
  finish_tick-fields plan b sched sessions = elim (Bool-cases (length b.tokens == 0)) [
    | inl e ↦ rw (finish_tick, e) (refl, refl, λ n few c t. t, refl, refl)
    | inr e ↦
        let (config, cap, target, d, p) = settle-fields _ b.samples _ sessions in
        rw (finish_tick, e)
          (
            config,
            cap,
            λ n few c t.
                target n few c (adapt-large _ n sched.batch_cap sched.target_batch few c t),
            d,
            p,
          )
  ]
