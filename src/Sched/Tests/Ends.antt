-- ===== src/Sched/Tests/Ends.antt =====
-- Two responses that end, of three sessions.
use uma_serve.Base.{ℕ, ◌≡◌, refl, true, [], ◌∷◌, some, arith}
use uma_serve.Ipc.Session.{ClientSession, stream, find}
use uma_serve.Runtime.Config.{default_config}
use uma_serve.Sched.Scheduler.{Ticked}
use uma_serve.Sched.Scheduler.Liveness.{ticks, responses_end}
use uma_serve.Sched.Scheduler.Planned.{HasRoom}
use uma_serve.Sched.Scheduler.Progress.{Decodes}
use uma_serve.Sched.Tests.{backend, decoding, sessions, scheduler}

backend-Decodes : Decodes (backend true)
backend-Decodes = record {
  succeeds = λ ctx tokens. refl;
  rows = λ ctx tokens i t e l. (i, refl);
  keeps = λ ctx seq i. refl;
}

abbrev start : Ticked (backend true)
start = record {
  scheduler = record (scheduler true) { config = record default_config { max_tokens = 1 } };
  sessions = sessions;
  result_fds = [];
}

start-HasRoom : HasRoom (backend true) start.scheduler start.sessions
start-HasRoom = record {
  keyed = record { own = (refl, (refl, (refl, tt))); distinct = ground arith };
  few = omega arith;
  cap = omega arith;
  target = omega arith;
  rr_decode = omega arith;
  rr_prefill = omega arith;
}

found : find 5 start.sessions ≡ some (decoding 5)
unfolding find
found = refl

responses_end_example :
    (s : ClientSession ℕ) × (find 5 (ticks (backend true) ((6, 2) ∷ (9, 3) ∷ []) start).sessions
      ≡ some s)
    × (s.state ≡ stream)
responses_end_example =
    responses_end (backend true) backend-Decodes 5 ((6, 2) ∷ (9, 3) ∷ []) start (decoding 5)
      start-HasRoom (omega arith) found refl refl (omega arith) (omega arith)
