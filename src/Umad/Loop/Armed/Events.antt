-- ===== src/Umad/Loop/Armed/Events.antt =====
-- Each event of the poller keeps every output watched.
use uma_serve.Base.{
  ℕ, ◌≡◌, sym, subst, ◌∙◌, ◌⊎◌, inl, inr, Bool, true, ◌&&◌, List, [], ◌∷◌, Option, none, some,
  arith, ◌==◌, leb, Bool-cases, Option-cases, length,
}
use uma_serve.Ipc.Manager.{SessionManager, new_session, add_client, read_session}
use uma_serve.Ipc.Manager.Keyed.{add_client-IsKeyed, read_session-fd}
use uma_serve.Ipc.Manager.Output.{
  pending, pending-store_same, find-store_self, find-assign, read_session-Told, on_readable-none,
  on_readable-some,
}
use uma_serve.Ipc.Poller.{PollEvent, add, read_flag}
use uma_serve.Ipc.Request.{Numbers, ReadResult}
use uma_serve.Ipc.Session.{ClientSession, find, store}
use uma_serve.Metrics.Snapshot.{MeanOps}
use uma_serve.Runtime.Config.{RuntimeConfig}
use uma_serve.Sched.Backend.{Backend}
use uma_serve.Umad.Loop.{
  Answers, Daemon, with_session, accept_client, after_read, client_read, handle_event,
  handle_events,
}
use uma_serve.Umad.Session.{WriteCall}
use uma_serve.Umad.Loop.Armed.{IsSound, IsSoundBut}
use uma_serve.Umad.Loop.Armed.Polls.{
  add_read-IsQuiet, with_session-IsSoundBut, IsSound-but, poll-IsSound,
}
use uma_serve.Umad.Loop.Armed.Handlers.{after_read-IsSound}
use uma_serve.Umad.Loop.Armed.Writes.{client_write-IsSound}

module _ (backend : Backend) (numbers : Numbers backend.Double)
    (means : MeanOps backend.float.Double) (cfg : RuntimeConfig) where
  open backend use {Double, vocab}

  -- What follows the read, over its result.
  abbrev after_drain :
      Bool
      → ℕ
      → List WriteCall
      → Daemon backend numbers means
      → SessionManager Double × ReadResult
      → Daemon backend numbers means
  after_drain debug fd writes d (m, rr) =
      let d' : Daemon backend numbers means = record d { manager = m } in
      elim (find fd m.sessions) [
        | none ↦ d'
        | some s ↦ after_read backend numbers means debug writes fd rr s d'
      ]

  -- A session that was read, and what it told to do.
  after_drain-IsSound :
      (debug : Bool) (fd : ℕ) (writes : List WriteCall) (d : Daemon backend numbers means)
      (s v : ClientSession Double) (rr : ReadResult) (next : ℕ)
      → find fd d.manager.sessions ≡ some s
      → v.fd ≡ s.fd
      → (v.tx ≡ s.tx) ⊎ (rr.wants_write ≡ true)
      → IsSound backend numbers means d
      → IsSound backend numbers means (
          after_drain debug fd writes d
            (record { sessions = store fd v d.manager.sessions; next_seq_id = next }, rr))
  after_drain-IsSound debug fd writes d s v rr next e same told h =
      let d₀ : Daemon backend numbers means = record d {
        manager = record d.manager { next_seq_id = next };
      } in
      let d' = with_session backend numbers means fd v d₀ in
      let found = find-store_self fd s v d.manager.sessions e in
      let but : IsSoundBut backend numbers means fd d' =
        with_session-IsSoundBut backend numbers means fd s v d₀ e same
          (IsSound-but backend numbers means fd d₀ (record { keyed = h.keyed; armed = h.armed })) in
      let told' : (rr.wants_write ≡ true) ⊎ IsSound backend numbers means d' = elim told [
        | inl quiet ↦ inr (record {
          keyed = but.keyed;
          armed =
              λ j p. h.armed j (sym (pending-store_same fd j s v d.manager.sessions e quiet) ∙ p);
        })
        | inr wants ↦ inl wants
      ] in
      rw (after_drain, found)
        (after_read-IsSound backend numbers means cfg debug writes fd rr v d' found but told')

  client_read-IsSound :
      (debug : Bool) (fd : ℕ) (answers : Answers) (d : Daemon backend numbers means)
      → IsSound backend numbers means d
      → IsSound backend numbers means (client_read backend numbers means cfg debug fd answers d)
  unfolding client_read
  client_read-IsSound debug fd answers d h =
      let m = d.manager in
      let after : SessionManager Double × ReadResult → Type 0 =
        λ out. IsSound backend numbers means (after_drain debug fd answers.writes d out) in
      elim (Option-cases (find fd m.sessions)) [
        | inl e ↦
            subst after
              (sym (on_readable-none cfg vocab numbers answers.now_ns fd answers.reads m e))
              (rw (after_drain, e) (record { keyed = h.keyed; armed = h.armed }))
        | inr (s, e) ↦
            let r = read_session cfg vocab numbers answers.now_ns answers.reads m.next_seq_id s in
            subst after
              (sym (on_readable-some cfg vocab numbers answers.now_ns fd answers.reads m s e))
              (after_drain-IsSound debug fd answers.writes d s r.session r.result r.next_seq_id e
                (read_session-fd cfg vocab numbers answers.now_ns answers.reads m.next_seq_id s)
                (read_session-Told cfg vocab numbers answers.now_ns answers.reads m.next_seq_id s)
                h)
      ]

  accept_client-IsSound :
      (accepted : Option ℕ) (now_ns : ℕ) (d : Daemon backend numbers means)
      → IsSound backend numbers means d
      → IsSound backend numbers means (accept_client backend numbers means cfg accepted now_ns d)
  unfolding accept_client
  accept_client-IsSound none now_ns d h = h
  accept_client-IsSound (some cfd) now_ns d h =
      let d' : Daemon backend numbers means = record d {
        manager = add_client numbers cfd now_ns d.manager;
      } in
      let sound : IsSound backend numbers means d' = record {
        keyed = add_client-IsKeyed cfg vocab numbers cfd now_ns d.manager h.keyed;
        armed = λ j p. h.armed j (new_quiet j p);
      } in
      elim (Bool-cases (leb cfg.max_sessions (length d.manager.sessions))) [
        | inl full ↦ rw (accept_client, full) h
        | inr room ↦
            rw (accept_client, room)
              (poll-IsSound backend numbers means (add cfd read_flag) d'
                (add_read-IsQuiet backend numbers means cfd) sound)
      ]
    where
      new_quiet :
          (j : ℕ)
          → pending j (add_client numbers cfd now_ns d.manager).sessions ≡ true
          → pending j d.manager.sessions ≡ true
      new_quiet j p =
          unfold add_client new_session in
          ground (arith, find-assign cfd j (new_session numbers cfd now_ns) d.manager.sessions, p)

  pub handle_event-IsSound :
      (debug : Bool) (server_fd : ℕ) (ev : PollEvent) (answers : Answers)
      (d : Daemon backend numbers means)
      → IsSound backend numbers means d
      → IsSound backend numbers means
          (handle_event backend numbers means cfg debug server_fd ev answers d)
  unfolding handle_event
  handle_event-IsSound debug server_fd ev answers d h =
      elim (Bool-cases (ev.fd == server_fd && ev.f.read)) [
        | inl accepts ↦
            rw (handle_event, accepts) (accept_client-IsSound answers.accepted answers.now_ns d h)
        | inr other ↦ elim (Bool-cases ev.f.read) [
          | inl reads ↦
              rw (handle_event, other, reads) (client_read-IsSound debug ev.fd answers d h)
          | inr no_read ↦ elim (Bool-cases ev.f.write) [
            | inl writes ↦
                rw (handle_event, other, no_read, writes)
                  (client_write-IsSound backend numbers means cfg ev.fd answers.writes d h)
            | inr none_of_these ↦ rw (handle_event, other, no_read, none_of_these) h
          ]
        ]
      ]

  pub handle_events-IsSound :
      (debug : Bool) (server_fd : ℕ) (events : List PollEvent) (answers : ℕ → Answers)
      (d : Daemon backend numbers means)
      → IsSound backend numbers means d
      → IsSound backend numbers means
          (handle_events backend numbers means cfg debug server_fd events answers d)
  unfolding handle_events
  handle_events-IsSound debug server_fd [] answers d h = h
  handle_events-IsSound debug server_fd (ev ∷ events) answers d h =
      handle_events-IsSound debug server_fd events answers _
        (handle_event-IsSound debug server_fd ev (answers ev.fd) d h)
