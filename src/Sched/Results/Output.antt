-- ===== src/Sched/Results/Output.antt =====
-- What sampling and failure do to the output and the sequence of every session.
use uma_serve.Base.{
  ℕ, ◌≡◌, refl, ◌∙◌, Bool, true, false, ◌||◌, inl, inr, List, [], ◌∷◌, ◌++◌, Option, some, arith,
  ◌==◌, Option-cases,
}
use uma_serve.Ipc.Manager.Output.{pending, pending-store}
use uma_serve.Ipc.Session.{ClientSession, SessionPool, SessionState, find}
use uma_serve.Ipc.Session.Lookup.{IsKeyed, identities, identities-store, find-fd}
use uma_serve.Metrics.{Metrics}
use uma_serve.Sched.Backend.{Backend}
use uma_serve.Sched.Batch.{SampleRef}
use uma_serve.Sched.Results.Keyed.{sample_one-IsKeyed}
use uma_serve.Sched.Results.{
  fail_session, fail_samples, Sampling, sampled, sample_row, sample_one, sample_all,
}

abbrev pub listed : ℕ → List ℕ → Bool
listed a [] = false
listed a (x ∷ xs) = x == a || listed a xs

listed-append : (a : ℕ) (xs : List ℕ) (x : ℕ) → listed a (xs ++ x ∷ []) ≡ (x == a || listed a xs)
listed-append a [] x = ground arith
listed-append a (y ∷ xs) x = ground (arith, listed-append a xs x)

module _ {D : Type 0} where
  pub fail_samples-identities :
      (samples : List SampleRef) (sessions : SessionPool D)
      → identities (fail_samples samples sessions) ≡ identities sessions
  unfolding fail_session fail_samples
  fail_samples-identities [] sessions = refl
  fail_samples-identities (r ∷ samples) sessions = elim (Option-cases (find r.fd sessions)) [
    | inl e ↦ rw (fail_samples, e) (fail_samples-identities samples sessions)
    | inr (s, e) ↦
        rw (fail_samples, e)
          (fail_samples-identities samples _
            ∙ identities-store r.fd s (fail_session s) sessions e refl)
  ]

module _ (backend : Backend) (max_tokens now_ns : ℕ) where
  open backend use {Context, Row, Double}

  sampled-seq :
      (before : SessionState) (new_id : ℕ) (s : ClientSession Double) (ctx : Context)
      (m : Option Metrics)
      → (sampled backend before max_tokens now_ns new_id s ctx m).0.seq ≡ s.seq
  unfolding sampled
  sampled-seq before new_id s ctx m = ground arith

  sample_one-identities :
      (r : SampleRef) (g : Sampling backend)
      → identities (sample_one backend max_tokens now_ns r g).sessions ≡ identities g.sessions
  unfolding sample_row sample_one
  sample_one-identities r g = elim (Option-cases (find r.fd g.sessions)) [
    | inl e ↦ rw (sample_one, e) refl
    | inr (s, e) ↦ elim (Option-cases (backend.llama_get_logits_ith g.ctx r.batch_index)) [
      | inl n ↦ rw (sample_one, e, n) refl
      | inr (row, n) ↦
          rw (sample_one, e, n)
            (identities-store r.fd s _ g.sessions e
              (sampled-seq r.state_before _ s g.ctx g.metrics))
    ]
  ]

  pub sample_all-identities :
      (samples : List SampleRef) (g : Sampling backend)
      → identities (sample_all backend max_tokens now_ns samples g).sessions ≡ identities g.sessions
  unfolding sample_all
  sample_all-identities [] g = refl
  sample_all-identities (r ∷ samples) g =
      sample_all-identities samples (sample_one backend max_tokens now_ns r g)
      ∙ sample_one-identities r g

  -- Output that is there was there before, or its descriptor is reported.
  abbrev pub Reported : SessionPool Double → Sampling backend → Type 0
  Reported before g =
      (j : ℕ) → pending j g.sessions ≡ true → (listed j g.result_fds || pending j before) ≡ true

  sample_row-Reported :
      (before : SessionPool Double) (r : SampleRef) (s : ClientSession Double) (row : Row)
      (g : Sampling backend)
      → find r.fd g.sessions ≡ some s
      → s.fd ≡ r.fd
      → Reported before g
      → Reported before (sample_row backend max_tokens now_ns r s row g)
  unfolding sample_row
  sample_row-Reported before r s row g e own h j p =
      ground (arith, h j, pending-store r.fd j _ g.sessions p, listed-append j g.result_fds s.fd)

  sample_one-Reported :
      (before : SessionPool Double) (r : SampleRef) (g : Sampling backend)
      → IsKeyed g.sessions
      → Reported before g
      → Reported before (sample_one backend max_tokens now_ns r g)
  unfolding sample_one
  sample_one-Reported before r g k h = elim (Option-cases (find r.fd g.sessions)) [
    | inl e ↦ rw (sample_one, e) h
    | inr (s, e) ↦ elim (Option-cases (backend.llama_get_logits_ith g.ctx r.batch_index)) [
      | inl n ↦ rw (sample_one, e, n) h
      | inr (row, n) ↦
          rw (sample_one, e, n)
            (sample_row-Reported before r s row g e (find-fd r.fd g.sessions s k e) h)
    ]
  ]

  pub sample_all-Reported :
      (before : SessionPool Double) (samples : List SampleRef) (g : Sampling backend)
      → IsKeyed g.sessions
      → Reported before g
      → Reported before (sample_all backend max_tokens now_ns samples g)
  unfolding sample_all
  sample_all-Reported before [] g k h = h
  sample_all-Reported before (r ∷ samples) g k h =
      sample_all-Reported before samples (sample_one backend max_tokens now_ns r g)
        (sample_one-IsKeyed backend max_tokens now_ns r g k) (sample_one-Reported before r g k h)
