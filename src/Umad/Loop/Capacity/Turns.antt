-- ===== src/Umad/Loop/Capacity/Turns.antt =====
-- The loop keeps the number of sessions and their sequences within bounds.
use uma_serve.Base.{ℕ, ◌≡◌, refl, inl, inr, Bool, List, [], ◌∷◌, Bool-cases, Option-cases}
use uma_serve.Ipc.Poller.{add, write_flag, coalesce}
use uma_serve.Ipc.Request.{Numbers}
use uma_serve.Ipc.Session.{find}
use uma_serve.Metrics.Snapshot.{MeanOps}
use uma_serve.Runtime.Config.{RuntimeConfig}
use uma_serve.Sched.Backend.{Backend}
use uma_serve.Sched.Scheduler.{tick}
use uma_serve.Sched.Scheduler.Reports.{tick-identities}
use uma_serve.Sched.Results.{is_empty}
use uma_serve.Umad.Session.{idle_fds}
use uma_serve.Umad.Loop.{
  Daemon, poll, arm, close_all, close_idle, close_session, tick_and_arm, Wakeup, interrupted, woken,
  turn, turns, handle_events,
}
use uma_serve.Umad.Loop.Capacity.{IsWithin, identities-IsWithin}
use uma_serve.Umad.Loop.Capacity.Events.{handle_events-Within}
use uma_serve.Umad.Loop.Capacity.Handlers.{close_session-Within}

module _ (backend : Backend) (numbers : Numbers backend.Double)
    (means : MeanOps backend.float.Double) where
  arm-manager :
      (fds : List ℕ) (d : Daemon backend numbers means)
      → (arm backend numbers means fds d).manager ≡ d.manager
  unfolding arm poll
  arm-manager [] d = refl
  arm-manager (fd ∷ fds) d = elim (Option-cases (find fd d.manager.sessions)) [
    | inl e ↦ rw (arm, e) (arm-manager fds d)
    | inr (s, e) ↦ elim (Bool-cases (is_empty s.tx)) [
      | inl empty ↦ rw (arm, e, empty) (arm-manager fds d)
      | inr full ↦
          rw (arm, e, full) (arm-manager fds (poll backend numbers means (add fd write_flag) d))
    ]
  ]

  module _ (cfg : RuntimeConfig) where
    abbrev Within : Daemon backend numbers means → Type 0
    Within d = IsWithin cfg d.manager

    close_all-Within :
        (fds : List ℕ) (d : Daemon backend numbers means)
        → Within d
        → Within (close_all backend numbers means fds d)
    unfolding close_all
    close_all-Within [] d h = h
    close_all-Within (fd ∷ fds) d h =
        close_all-Within fds (close_session backend numbers means fd d)
          (close_session-Within backend numbers means cfg fd d h)

    close_idle-Within :
        (now : ℕ) (d : Daemon backend numbers means)
        → Within d
        → Within (close_idle backend numbers means cfg now d)
    unfolding close_idle
    close_idle-Within now d h = close_all-Within (idle_fds _ now d.manager.sessions) d h

    tick_and_arm-Within :
        (now_ns dur_ns : ℕ) (d : Daemon backend numbers means)
        → Within d
        → Within (tick_and_arm backend numbers means now_ns dur_ns d)
    unfolding tick_and_arm
    tick_and_arm-Within now_ns dur_ns d h =
        let t = tick backend d.scheduler d.manager.sessions now_ns dur_ns in
        let d' : Daemon backend numbers means = record d {
          manager = record d.manager { sessions = t.sessions };
          scheduler = t.scheduler;
        } in
        rw (tick_and_arm, arm-manager t.result_fds d')
          (identities-IsWithin cfg d.manager d'.manager
            (tick-identities backend now_ns dur_ns d.scheduler d.manager.sessions) refl h)

    turn-Within :
        (debug : Bool) (server_fd : ℕ) (w : Wakeup backend numbers means)
        (d : Daemon backend numbers means)
        → Within d
        → Within (turn backend numbers means cfg debug server_fd w d)
    unfolding turn
    turn-Within debug server_fd interrupted d h = h
    turn-Within debug server_fd (woken kevs answers idle_now tick_now dur_ns) d h =
        let events = coalesce kevs in
        let handled = handle_events backend numbers means cfg debug server_fd events answers d in
        tick_and_arm-Within tick_now dur_ns (close_idle backend numbers means cfg idle_now handled)
          (close_idle-Within idle_now handled
            (handle_events-Within backend numbers means cfg debug server_fd events answers d h))

    -- Let there be at most as many sessions as are configured, and let every sequence below the
    -- counter belong to one session at most and any other to none. Then both are still so after the
    -- loop has run over any sequence of wakeups, each with any events and any results of `accept`,
    -- `read` and `write`.
    pub turns-IsWithin :
        (debug : Bool) (server_fd : ℕ) (wakeups : List (Wakeup backend numbers means))
        (d : Daemon backend numbers means)
        → IsWithin cfg d.manager
        → IsWithin cfg (turns backend numbers means cfg debug server_fd wakeups d).manager
    unfolding turns
    turns-IsWithin debug server_fd [] d h = h
    turns-IsWithin debug server_fd (w ∷ wakeups) d h =
        turns-IsWithin debug server_fd wakeups _ (turn-Within debug server_fd w d h)
