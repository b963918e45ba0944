-- ===== src/Sched/Scheduler/Reports.antt =====
-- A tick reports each descriptor whose session has new output, as long as its batch is decoded.
use uma_serve.Base.{
  ◌∙◌, ℕ, ◌≡◌, inl, inr, Bool, true, false, ◌||◌, List, arith, ◌==◌, Bool-cases, length,
}
use uma_serve.Ipc.Manager.Output.{pending}
use uma_serve.Ipc.Session.{SessionPool}
use uma_serve.Ipc.Session.Lookup.{IsKeyed, identities}
use uma_serve.Sched.Backend.{Backend, BatchToken}
use uma_serve.Sched.Batch.{Batch, SampleRef, empty_batch, enact}
use uma_serve.Sched.Batch.Keyed.{enact-IsKeyed}
use uma_serve.Sched.Batch.Output.{enact-pending, enact-identities}
use uma_serve.Sched.Policy.{Plan}
use uma_serve.Sched.Results.Output.{
  listed, sample_all-Reported, fail_samples-identities, sample_all-identities,
}
use uma_serve.Sched.Scheduler.{Scheduler, Ticked, planned, settle, run_batch, finish_tick, tick}

module _ (backend : Backend) where
  -- No call of `llama_decode` fails.
  abbrev pub Decodes : Type 0
  Decodes =
      (ctx : backend.Context) (tokens : List BatchToken)
      → (backend.llama_decode ctx tokens).0 ≡ true

  module _ (decodes : Decodes) (now_ns dur_ns : ℕ) where
    -- What a tick leaves to be written was there before, or its descriptor is reported.
    abbrev Reports : SessionPool backend.Double → Ticked backend → Type 0
    Reports before t =
        (j : ℕ) → pending j t.sessions ≡ true → (listed j t.result_fds || pending j before) ≡ true

    settle-Reports :
        (ok : Bool) (samples : List SampleRef) (sched : Scheduler backend)
        (sessions : SessionPool backend.Double)
        → ok ≡ true
        → IsKeyed sessions
        → Reports sessions (settle backend ok now_ns samples sched sessions)
    unfolding settle
    settle-Reports false samples sched sessions e k = absurd (cc)
    settle-Reports true samples sched sessions e k =
        sample_all-Reported backend sched.config.max_tokens now_ns sessions samples _ k (λ j p. p)

    finish_tick-Reports :
        (plan : Plan) (b : Batch) (sched : Scheduler backend)
        (sessions : SessionPool backend.Double)
        → IsKeyed sessions
        → Reports sessions (finish_tick backend now_ns dur_ns plan b sched sessions)
    unfolding run_batch finish_tick
    finish_tick-Reports plan b sched sessions k = elim (Bool-cases (length b.tokens == 0)) [
      | inl e ↦ rw (finish_tick, e) (λ j p. p)
      | inr e ↦ rw (finish_tick, e) (settle-Reports _ b.samples _ sessions (decodes _ b.tokens) k)
    ]

    pub tick-Reports :
        (sched : Scheduler backend) (sessions : SessionPool backend.Double)
        → IsKeyed sessions
        → Reports sessions (tick backend sched sessions now_ns dur_ns)
    unfolding tick
    tick-Reports sched sessions k j p =
        let p1 = (planned backend sched sessions).0 in
        let e = enact p1.items (sessions, empty_batch) in
        ground (
          arith,
          finish_tick-Reports p1 e.1 (planned backend sched sessions).1 e.0
              (enact-IsKeyed p1.items (sessions, empty_batch) k) j p,
          enact-pending j p1.items (sessions, empty_batch),
        )

module _ (backend : Backend) (now_ns dur_ns : ℕ) where
  settle-identities :
      (ok : Bool) (samples : List SampleRef) (sched : Scheduler backend)
      (sessions : SessionPool backend.Double)
      → identities (settle backend ok now_ns samples sched sessions).sessions ≡ identities sessions
  unfolding settle
  settle-identities false samples sched sessions = fail_samples-identities samples sessions
  settle-identities true samples sched sessions =
      sample_all-identities backend sched.config.max_tokens now_ns samples _

  finish_tick-identities :
      (plan : Plan) (b : Batch) (sched : Scheduler backend) (sessions : SessionPool backend.Double)
      → identities (finish_tick backend now_ns dur_ns plan b sched sessions).sessions
        ≡ identities sessions
  unfolding run_batch finish_tick
  finish_tick-identities plan b sched sessions = elim (Bool-cases (length b.tokens == 0)) [
    | inl e ↦ rw (finish_tick, e)
    | inr e ↦ rw (finish_tick, e) (settle-identities _ b.samples _ sessions)
  ]

  -- A tick neither adds nor removes a session, nor gives one another sequence.
  pub tick-identities :
      (sched : Scheduler backend) (sessions : SessionPool backend.Double)
      → identities (tick backend sched sessions now_ns dur_ns).sessions ≡ identities sessions
  unfolding tick
  tick-identities sched sessions =
      let p = planned backend sched sessions in
      let e = enact p.0.items (sessions, empty_batch) in
      finish_tick-identities p.0 e.1 p.1 e.0 ∙ enact-identities p.0.items (sessions, empty_batch)
