-- ===== src/Umad/Loop/Capacity/Events.antt =====
-- Each event of the poller keeps the number of sessions and their sequences within bounds.
use uma_serve.Base.{
  ℕ, ◌≡◌, refl, ap, ◌∙◌, inl, inr, Bool, List, [], ◌∷◌, Option, none, some, arith, leb, Bool-cases,
  Option-cases, length,
}
use uma_serve.Ipc.Manager.{SessionManager, add_client, on_readable}
use uma_serve.Ipc.Manager.Output.{find-store_self}
use uma_serve.Ipc.Poller.{PollEvent, add, remove, read_flag, write_flag}
use uma_serve.Ipc.Request.{Numbers}
use uma_serve.Ipc.Session.{ClientSession, find}
use uma_serve.Metrics.Snapshot.{MeanOps}
use uma_serve.Runtime.Config.{RuntimeConfig}
use uma_serve.Sched.Backend.{Backend}
use uma_serve.Sched.Results.{is_empty}
use uma_serve.Umad.Session.{WriteCall, wrote, again, failed, ending, flush}
use uma_serve.Umad.Loop.{
  Answers, Daemon, with_session, poll, accept_client, client_read, after_flush, client_write,
  handle_event, handle_events,
}
use uma_serve.Umad.Loop.Armed.Polls.{poll-manager}
use uma_serve.Umad.Loop.Capacity.{add_client-IsWithin, on_readable-IsWithin}
use uma_serve.Umad.Loop.Capacity.Handlers.{
  Within, poll-Within, close_session-Within, end_response-Within, with_session-Within,
  after_read-Within,
}

module _ (backend : Backend) (numbers : Numbers backend.Double)
    (means : MeanOps backend.float.Double) (cfg : RuntimeConfig) where
  open backend use {Double, vocab}

  client_read-Within :
      (debug : Bool) (fd : ℕ) (answers : Answers) (d : Daemon backend numbers means)
      → Within backend numbers means cfg d
      → Within backend numbers means cfg (client_read backend numbers means cfg debug fd answers d)
  unfolding client_read
  client_read-Within debug fd answers d h =
      let out = on_readable cfg vocab numbers answers.now_ns fd answers.reads d.manager in
      let d' : Daemon backend numbers means = record d { manager = out.0 } in
      let within =
        on_readable-IsWithin cfg vocab numbers answers.now_ns fd answers.reads d.manager h in
      elim (Option-cases (find fd out.0.sessions)) [
        | inl e ↦ rw (client_read, e) within
        | inr (s, e) ↦
            rw (client_read, e)
              (after_read-Within backend numbers means cfg debug answers.writes fd out.1 s d' e
                within)
      ]

  flush-seq : (calls : List WriteCall) (s : ClientSession Double) → (flush calls s).0.seq ≡ s.seq
  unfolding flush
  flush-seq [] s = refl
  flush-seq (wrote n now ∷ calls) s = elim (Bool-cases (is_empty s.tx)) [
    | inl e ↦ rw e
    | inr e ↦ rw e (flush-seq calls _)
  ]
  flush-seq (again ∷ calls) s = refl
  flush-seq (failed ∷ calls) s = refl

  after_flush-Within :
      (fd : ℕ) (s : ClientSession Double) (d : Daemon backend numbers means)
      → find fd d.manager.sessions ≡ some s
      → Within backend numbers means cfg d
      → Within backend numbers means cfg (after_flush backend numbers means fd s d)
  unfolding after_flush
  after_flush-Within fd s d f h = elim (Bool-cases (is_empty s.tx)) [
    | inl e ↦
        let d' = poll backend numbers means (remove fd write_flag) d in
        let found : find fd d'.manager.sessions ≡ some s =
          ap (λ (m : SessionManager Double). find fd m.sessions)
            (poll-manager backend numbers means (remove fd write_flag) d)
          ∙ f in
        rw (after_flush, e)
          (end_response-Within backend numbers means cfg (ending s.state s.read_closed) [] fd s d'
            found (poll-Within backend numbers means cfg (remove fd write_flag) d h))
    | inr e ↦ rw (after_flush, e) h
  ]

  client_write-Within :
      (fd : ℕ) (writes : List WriteCall) (d : Daemon backend numbers means)
      → Within backend numbers means cfg d
      → Within backend numbers means cfg (client_write backend numbers means fd writes d)
  unfolding client_write
  client_write-Within fd writes d h = elim (Option-cases (find fd d.manager.sessions)) [
    | inl e ↦ rw (client_write, e) h
    | inr (s, e) ↦
        let s' = (flush writes s).0 in
        let d' = with_session backend numbers means fd s' d in
        let found = find-store_self fd s s' d.manager.sessions e in
        let within =
          with_session-Within backend numbers means cfg fd s s' d e (flush-seq writes s) h in
        elim (Bool-cases (flush writes s).1) [
          | inl ok ↦ rw (client_write, e, ok) (after_flush-Within fd s' d' found within)
          | inr broken ↦
              rw (client_write, e, broken)
                (close_session-Within backend numbers means cfg fd d' within)
        ]
  ]

  accept_client-Within :
      (accepted : Option ℕ) (now_ns : ℕ) (d : Daemon backend numbers means)
      → Within backend numbers means cfg d
      → Within backend numbers means cfg (accept_client backend numbers means cfg accepted now_ns d)
  unfolding accept_client
  accept_client-Within none now_ns d h = h
  accept_client-Within (some cfd) now_ns d h =
      elim (Bool-cases (leb cfg.max_sessions (length d.manager.sessions))) [
        | inl full ↦ rw (accept_client, full) h
        | inr room ↦
            rw (accept_client, room)
              (poll-Within backend numbers means cfg (add cfd read_flag)
                (record d { manager = add_client numbers cfd now_ns d.manager })
                (add_client-IsWithin cfg vocab numbers now_ns cfd d.manager room h))
      ]

  handle_event-Within :
      (debug : Bool) (server_fd : ℕ) (ev : PollEvent) (answers : Answers)
      (d : Daemon backend numbers means)
      → Within backend numbers means cfg d
      → Within backend numbers means cfg
          (handle_event backend numbers means cfg debug server_fd ev answers d)
  unfolding handle_event
  handle_event-Within debug server_fd ev answers d h = ground (
    arith,
    accept_client-Within answers.accepted answers.now_ns d h,
    client_read-Within debug ev.fd answers d h,
    client_write-Within ev.fd answers.writes d h,
  )

  pub handle_events-Within :
      (debug : Bool) (server_fd : ℕ) (events : List PollEvent) (answers : ℕ → Answers)
      (d : Daemon backend numbers means)
      → Within backend numbers means cfg d
      → Within backend numbers means cfg
          (handle_events backend numbers means cfg debug server_fd events answers d)
  unfolding handle_events
  handle_events-Within debug server_fd [] answers d h = h
  handle_events-Within debug server_fd (ev ∷ events) answers d h =
      handle_events-Within debug server_fd events answers _
        (handle_event-Within debug server_fd ev (answers ev.fd) d h)
