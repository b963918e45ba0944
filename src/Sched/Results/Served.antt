-- ===== src/Sched/Results/Served.antt =====
-- What the loop over the samples does to one session.
use uma_serve.Base.{
  ℕ, ◌+◌, ◌%◌, ◌^◌, ◌<◌, ◌≡◌, ◌≢◌, refl, sym, ap, subst, ◌∙◌, ◌⊎◌, inl, inr, true, List, [], ◌∷◌,
  Option, some, arith, All, count, Option-cases, ℕ_discrete,
}
use uma_serve.Ipc.Session.{ClientSession, SessionPool, SessionState, decode, stream, find, store}
use uma_serve.Ipc.Session.Lookup.{find-store}
use uma_serve.Metrics.{Metrics}
use uma_serve.Sched.Backend.{Backend}
use uma_serve.Sched.Batch.{SampleRef}
use uma_serve.Sched.Batch.Served.{sample_fds, SampledAs}
use uma_serve.Sched.Results.{Sampling, sampled, sample_row, sample_one, sample_all}

find-store_other :
    {D : Type 0} (fd j : ℕ) (v : ClientSession D) (pool : SessionPool D)
    → fd ≢ j
    → find j (store fd v pool) ≡ find j pool
find-store_other fd j v pool ne = ground (arith, ne, find-store fd j v pool)

module _ (backend : Backend) where
  open backend use {Context, Row}

  -- Sampling may drop sequences from the context, which leaves the logits.
  abbrev pub KeepsLogits : Type 0
  KeepsLogits =
      (ctx : Context) (seq : Option ℕ) (i : ℕ)
      → backend.llama_get_logits_ith (backend.llama_memory_seq_rm ctx seq) i
        ≡ backend.llama_get_logits_ith ctx i

  -- A sample has its row of logits.
  abbrev pub HasRow : Context → SampleRef → Type 0
  HasRow ctx r = (row : Row) × (backend.llama_get_logits_ith ctx r.batch_index ≡ some row)

module _ (backend : Backend) (max_tokens now_ns a : ℕ) where
  open backend use {Context, Row, Double}

  sampled-logits :
      (before : SessionState) (new_id : ℕ) (s : ClientSession Double) (ctx : Context)
      (m : Option Metrics) (i : ℕ)
      → KeepsLogits backend
      → backend.llama_get_logits_ith (sampled backend before max_tokens now_ns new_id s ctx m).1 i
        ≡ backend.llama_get_logits_ith ctx i
  unfolding sampled
  sampled-logits before new_id s ctx m i keeps = ground (arith, keeps ctx s.seq i)

  sample_one-logits :
      (r : SampleRef) (g : Sampling backend) (i : ℕ)
      → KeepsLogits backend
      → backend.llama_get_logits_ith (sample_one backend max_tokens now_ns r g).ctx i
        ≡ backend.llama_get_logits_ith g.ctx i
  unfolding sample_one sample_row
  sample_one-logits r g i keeps = elim (Option-cases (find r.fd g.sessions)) [
    | inl e ↦ rw (sample_one, e) refl
    | inr (s, e) ↦ elim (Option-cases (backend.llama_get_logits_ith g.ctx r.batch_index)) [
      | inl n ↦ rw (sample_one, e, n) refl
      | inr (row, n) ↦
          rw (sample_one, e, n) (sampled-logits r.state_before _ s g.ctx g.metrics i keeps)
    ]
  ]

  HasRow-after :
      (r : SampleRef) (g : Sampling backend) (samples : List SampleRef)
      → KeepsLogits backend
      → All (HasRow backend g.ctx) samples
      → All (HasRow backend (sample_one backend max_tokens now_ns r g).ctx) samples
  HasRow-after r g [] keeps h = tt
  HasRow-after r g (x ∷ samples) keeps ((row, e), h) =
      ((row, sample_one-logits r g x.batch_index keeps ∙ e), HasRow-after r g samples keeps h)

  sample_one-apart :
      (r : SampleRef) (g : Sampling backend)
      → r.fd ≢ a
      → find a (sample_one backend max_tokens now_ns r g).sessions ≡ find a g.sessions
  unfolding sample_one sample_row
  sample_one-apart r g ne = elim (Option-cases (find r.fd g.sessions)) [
    | inl e ↦ rw (sample_one, e) refl
    | inr (s, e) ↦ elim (Option-cases (backend.llama_get_logits_ith g.ctx r.batch_index)) [
      | inl n ↦ rw (sample_one, e, n) refl
      | inr (row, n) ↦ rw (sample_one, e, n) (find-store_other r.fd a _ g.sessions ne)
    ]
  ]

  pub sample_all-apart :
      (samples : List SampleRef) (g : Sampling backend)
      → count a (sample_fds samples) ≡ 0
      → find a (sample_all backend max_tokens now_ns samples g).sessions ≡ find a g.sessions
  unfolding sample_all
  sample_all-apart [] g c = refl
  sample_all-apart (r ∷ samples) g c =
      sample_all-apart samples (sample_one backend max_tokens now_ns r g) (ground arith)
      ∙ sample_one-apart r g (λ e. ground arith)

  -- The session after its one sample: ended, or with a further token counted and pending.
  abbrev pub Sampled : ClientSession Double → ClientSession Double → Type 0
  Sampled s s' =
      (s'.state ≡ stream)
      ⊎ ((s'.state ≡ decode)
          × (s'.has_pending_tok ≡ true)
          × (s.generated_count < max_tokens)
          × (s'.generated_count ≡ (s.generated_count + 1) % 2 ^ 32))

  sampled-Sampled :
      (new_id : ℕ) (s : ClientSession Double) (ctx : Context) (m : Option Metrics)
      → Sampled s (sampled backend decode max_tokens now_ns new_id s ctx m).0
  unfolding sampled
  sampled-Sampled new_id s ctx m = ground arith

  abbrev pub Found : ClientSession Double → SessionPool Double → Type 0
  Found s sessions = (s' : ClientSession Double) × (find a sessions ≡ some s') × Sampled s s'

  sample_one-served :
      (s : ClientSession Double) (r : SampleRef) (g : Sampling backend)
      → r.fd ≡ a
      → r.state_before ≡ decode
      → HasRow backend g.ctx r
      → find a g.sessions ≡ some s
      → Found s (sample_one backend max_tokens now_ns r g).sessions
  unfolding sample_one sample_row
  sample_one-served s r g own before (row, n) f =
      let e : find r.fd g.sessions ≡ some s = ap (λ j. find j g.sessions) own ∙ f in
      let (new_id, rng) =
        backend.sample row backend.vocab.llama_vocab_n_tokens s.temperature s.top_p s.top_k g.rng in
      let s' = (sampled backend r.state_before max_tokens now_ns new_id s g.ctx g.metrics).0 in
      rw (sample_one, e, n)
        (
          s',
          ground (arith, f, find-store r.fd a s' g.sessions),
          subst (λ st. Sampled s (sampled backend st max_tokens now_ns new_id s g.ctx g.metrics).0)
              (sym before) (sampled-Sampled new_id s g.ctx g.metrics),
        )

  -- A session that one sample is of, and that of its DECODE, is sampled once.
  pub sample_all-served :
      (s : ClientSession Double) (samples : List SampleRef) (g : Sampling backend)
      → KeepsLogits backend
      → All (HasRow backend g.ctx) samples
      → SampledAs a 1 samples
      → find a g.sessions ≡ some s
      → Found s (sample_all backend max_tokens now_ns samples g).sessions
  unfolding sample_all
  sample_all-served s [] g keeps rows h f = absurd (omega (arith, h.times))
  sample_all-served s (r ∷ samples) g keeps rows h f = elim (ℕ_discrete r.fd a) [
    | yes own ↦
        let (s', e, done) = sample_one-served s r g own (h.decodes.0 own) rows.0 f in
        (
          s',
          sample_all-apart samples (sample_one backend max_tokens now_ns r g)
                (ground (arith, h.times))
              ∙ e,
          done,
        )
    | no other ↦
        sample_all-served s samples (sample_one backend max_tokens now_ns r g) keeps
          (HasRow-after r g samples keeps rows.1)
          (record { times = ground (arith, h.times); decodes = h.decodes.1 })
          (sample_one-apart r g other ∙ f)
  ]
