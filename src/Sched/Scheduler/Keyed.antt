-- ===== src/Sched/Scheduler/Keyed.antt =====
-- A tick leaves the map of sessions keyed.
use uma_serve.Base.{ℕ, Bool, true, false, inl, inr, List, length, ◌==◌, Bool-cases}
use uma_serve.Ipc.Session.{SessionPool}
use uma_serve.Ipc.Session.Lookup.{IsKeyed}
use uma_serve.Sched.Backend.{Backend}
use uma_serve.Sched.Batch.{Batch, SampleRef, empty_batch}
use uma_serve.Sched.Batch.Keyed.{enact-IsKeyed}
use uma_serve.Sched.Results.Keyed.{fail_samples-IsKeyed, sample_all-IsKeyed}
use uma_serve.Sched.Policy.{Plan}
use uma_serve.Sched.Scheduler.{Scheduler, planned, settle, run_batch, finish_tick, tick}

module _ (backend : Backend) (now_ns dur_ns : ℕ) where
  settle-IsKeyed :
      (ok : Bool) (samples : List SampleRef) (sched : Scheduler backend)
      (sessions : SessionPool backend.Double)
      → IsKeyed sessions
      → IsKeyed (settle backend ok now_ns samples sched sessions).sessions
  unfolding settle
  settle-IsKeyed false samples sched sessions h = fail_samples-IsKeyed samples sessions h
  settle-IsKeyed true samples sched sessions h =
      sample_all-IsKeyed backend sched.config.max_tokens now_ns samples _ h

  finish_tick-IsKeyed :
      (plan : Plan) (b : Batch) (sched : Scheduler backend) (sessions : SessionPool backend.Double)
      → IsKeyed sessions
      → IsKeyed (finish_tick backend now_ns dur_ns plan b sched sessions).sessions
  unfolding run_batch finish_tick
  finish_tick-IsKeyed plan b sched sessions h = elim (Bool-cases (length b.tokens == 0)) [
    | inl e ↦ rw (finish_tick, e) h
    | inr e ↦ rw (finish_tick, e) (settle-IsKeyed _ b.samples _ sessions h)
  ]

  -- A tick, whatever it plans, whether its batch is decoded or not and whatever is sampled, keeps
  -- a map that holds each session under its own descriptor and under no other.
  pub tick-IsKeyed :
      (sched : Scheduler backend) (sessions : SessionPool backend.Double)
      → IsKeyed sessions
      → IsKeyed (tick backend sched sessions now_ns dur_ns).sessions
  unfolding tick
  tick-IsKeyed sched sessions h =
      let plan = (planned backend sched sessions).0 in
      finish_tick-IsKeyed plan _ (planned backend sched sessions).1 _
        (enact-IsKeyed plan.items (sessions, empty_batch) h)
