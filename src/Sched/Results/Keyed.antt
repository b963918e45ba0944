-- ===== src/Sched/Results/Keyed.antt =====
-- Failure and sampling leave the map of sessions keyed.
use uma_serve.Base.{ℕ, ◌≡◌, ◌∙◌, inl, inr, List, [], ◌∷◌, Option, arith, Option-cases}
use uma_serve.Ipc.Session.{ClientSession, SessionPool, SessionState, find}
use uma_serve.Ipc.Session.Lookup.{IsKeyed, find-fd, store-IsKeyed}
use uma_serve.Metrics.{Metrics}
use uma_serve.Sched.Backend.{Backend}
use uma_serve.Sched.Batch.{SampleRef}
use uma_serve.Sched.Results.{
  fail_session, fail_samples, Sampling, sampled, sample_row, sample_one, sample_all,
}

module _ {D : Type 0} where
  pub fail_samples-IsKeyed :
      (samples : List SampleRef) (sessions : SessionPool D)
      → IsKeyed sessions
      → IsKeyed (fail_samples samples sessions)
  unfolding fail_session fail_samples
  fail_samples-IsKeyed [] sessions h = h
  fail_samples-IsKeyed (r ∷ samples) sessions h = elim (Option-cases (find r.fd sessions)) [
    | inl e ↦ rw (fail_samples, e) (fail_samples-IsKeyed samples sessions h)
    | inr (s, e) ↦
        let kept = store-IsKeyed r.fd (fail_session s) sessions (find-fd r.fd sessions s h e) h in
        rw (fail_samples, e) (fail_samples-IsKeyed samples _ kept)
  ]

module _ (backend : Backend) (max_tokens now_ns : ℕ) where
  open backend use {Context, Row, Double}

  sampled-fd :
      (before : SessionState) (new_id : ℕ) (s : ClientSession Double) (ctx : Context)
      (m : Option Metrics)
      → (sampled backend before max_tokens now_ns new_id s ctx m).0.fd ≡ s.fd
  unfolding sampled
  sampled-fd before new_id s ctx m = ground arith

  pub sample_one-IsKeyed :
      (r : SampleRef) (g : Sampling backend)
      → IsKeyed g.sessions
      → IsKeyed (sample_one backend max_tokens now_ns r g).sessions
  unfolding sample_row sample_one
  sample_one-IsKeyed r g h = elim (Option-cases (find r.fd g.sessions)) [
    | inl e ↦ rw (sample_one, e) h
    | inr (s, e) ↦ elim (Option-cases (backend.llama_get_logits_ith g.ctx r.batch_index)) [
      | inl n ↦ rw (sample_one, e, n) h
      | inr (row, n) ↦
          rw (sample_one, e, n)
            (store-IsKeyed r.fd _ g.sessions
              (sampled-fd r.state_before _ s g.ctx g.metrics ∙ find-fd r.fd g.sessions s h e) h)
    ]
  ]

  pub sample_all-IsKeyed :
      (samples : List SampleRef) (g : Sampling backend)
      → IsKeyed g.sessions
      → IsKeyed (sample_all backend max_tokens now_ns samples g).sessions
  unfolding sample_all
  sample_all-IsKeyed [] g h = h
  sample_all-IsKeyed (r ∷ samples) g h =
      sample_all-IsKeyed samples (sample_one backend max_tokens now_ns r g)
        (sample_one-IsKeyed r g h)
