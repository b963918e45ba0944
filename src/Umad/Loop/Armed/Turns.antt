-- ===== src/Umad/Loop/Armed/Turns.antt =====
-- The loop keeps every output watched, as long as no batch fails to be decoded.
use uma_serve.Base.{
  ℕ, ◌≡◌, inl, inr, Bool, true, ◌||◌, List, [], ◌∷◌, none, some, arith, if◌then◌else◌, Bool-cases,
  Option-cases,
}
use uma_serve.Ipc.Manager.Output.{pending}
use uma_serve.Ipc.Poller.{add, write_flag, coalesce}
use uma_serve.Ipc.Request.{Numbers}
use uma_serve.Ipc.Session.{find}
use uma_serve.Ipc.Session.Lookup.{IsKeyed}
use uma_serve.Metrics.Snapshot.{MeanOps}
use uma_serve.Runtime.Config.{RuntimeConfig}
use uma_serve.Sched.Backend.{Backend}
use uma_serve.Sched.Results.{is_empty}
use uma_serve.Sched.Results.Output.{listed}
use uma_serve.Sched.Scheduler.{tick}
use uma_serve.Sched.Scheduler.Keyed.{tick-IsKeyed}
use uma_serve.Sched.Scheduler.Reports.{Decodes, tick-Reports}
use uma_serve.Umad.Loop.{
  Daemon, poll, arm, close_all, close_idle, handle_events, close_session, tick_and_arm, Wakeup,
  interrupted, woken, turn, turns,
}
use uma_serve.Umad.Session.{idle_fds}
use uma_serve.Umad.Loop.Armed.{watches, IsSound}
use uma_serve.Umad.Loop.Armed.Polls.{IsSound-but, close_session-IsSound, add_write-watches}
use uma_serve.Umad.Loop.Armed.Events.{handle_events-IsSound}

module _ (backend : Backend) (numbers : Numbers backend.Double)
    (means : MeanOps backend.float.Double) where
  open backend use {Double}

  abbrev arm_one : ℕ → Daemon backend numbers means → Daemon backend numbers means
  arm_one fd d = elim (find fd d.manager.sessions) [
    | none ↦ d
    | some s ↦ if is_empty s.tx then d else poll backend numbers means (add fd write_flag) d
  ]

  -- Output that waits is watched, or its descriptor is still to be armed.
  record IsSoundUpto (fds : List ℕ) (d : Daemon backend numbers means) : Type 0 where
    keyed : IsKeyed d.manager.sessions
    armed :
        (j : ℕ) → pending j d.manager.sessions ≡ true → (listed j fds || watches j d.changes) ≡ true

  arm_one-IsSoundUpto :
      (fd : ℕ) (fds : List ℕ) (d : Daemon backend numbers means)
      → IsSoundUpto (fd ∷ fds) d
      → IsSoundUpto fds (arm_one fd d)
  unfolding poll
  arm_one-IsSoundUpto fd fds d h = elim (Option-cases (find fd d.manager.sessions)) [
    | inl e ↦
        rw (arm_one, e)
          (record { keyed = h.keyed; armed = λ j p. ground (arith, h.armed j p, e, p) })
    | inr (s, e) ↦ elim (Bool-cases (is_empty s.tx)) [
      | inl empty ↦
          rw (arm_one, e, empty)
            (record { keyed = h.keyed; armed = λ j p. ground (arith, h.armed j p, e, p, empty) })
      | inr full ↦
          rw (arm_one, e, full)
            (record {
              keyed = h.keyed;
              armed = λ j p.
                  ground (arith, h.armed j p, add_write-watches backend numbers means fd j d);
            })
    ]
  ]

  arm-IsSound :
      (fds : List ℕ) (d : Daemon backend numbers means)
      → IsSoundUpto fds d
      → IsSound backend numbers means (arm backend numbers means fds d)
  unfolding arm
  arm-IsSound [] d h = record { keyed = h.keyed; armed = h.armed }
  arm-IsSound (fd ∷ fds) d h = arm-IsSound fds (arm_one fd d) (arm_one-IsSoundUpto fd fds d h)

  tick_and_arm-IsSound :
      (decodes : Decodes backend) (now_ns dur_ns : ℕ) (d : Daemon backend numbers means)
      → IsSound backend numbers means d
      → IsSound backend numbers means (tick_and_arm backend numbers means now_ns dur_ns d)
  unfolding tick_and_arm
  tick_and_arm-IsSound decodes now_ns dur_ns d h =
      let t = tick backend d.scheduler d.manager.sessions now_ns dur_ns in
      arm-IsSound t.result_fds _ (record {
        keyed = tick-IsKeyed backend now_ns dur_ns d.scheduler d.manager.sessions h.keyed;
        armed = λ j p. ground (
          arith,
          h.armed j,
          tick-Reports backend decodes now_ns dur_ns d.scheduler d.manager.sessions h.keyed j p,
        );
      })

  module _ (cfg : RuntimeConfig) where
    close_all-IsSound :
        (fds : List ℕ) (d : Daemon backend numbers means)
        → IsSound backend numbers means d
        → IsSound backend numbers means (close_all backend numbers means fds d)
    unfolding close_all
    close_all-IsSound [] d h = h
    close_all-IsSound (fd ∷ fds) d h =
        let h' = IsSound-but backend numbers means fd d h in
        close_all-IsSound fds (close_session backend numbers means fd d)
          (close_session-IsSound backend numbers means cfg fd d h'.keyed h'.armed)

    close_idle-IsSound :
        (now : ℕ) (d : Daemon backend numbers means)
        → IsSound backend numbers means d
        → IsSound backend numbers means (close_idle backend numbers means cfg now d)
    unfolding close_idle
    close_idle-IsSound now d h = close_all-IsSound (idle_fds _ now d.manager.sessions) d h

    turn-IsSound :
        (decodes : Decodes backend) (debug : Bool) (server_fd : ℕ)
        (w : Wakeup backend numbers means) (d : Daemon backend numbers means)
        → IsSound backend numbers means d
        → IsSound backend numbers means (turn backend numbers means cfg debug server_fd w d)
    unfolding turn
    turn-IsSound decodes debug server_fd interrupted d h = h
    turn-IsSound decodes debug server_fd (woken kevs answers idle_now tick_now dur_ns) d h =
        let handled =
          handle_events backend numbers means cfg debug server_fd (coalesce kevs) answers d in
        tick_and_arm-IsSound decodes tick_now dur_ns _ (
          close_idle-IsSound idle_now handled (
            handle_events-IsSound backend numbers means cfg debug server_fd (coalesce kevs) answers
              d h))

    -- Let the map hold each session under its own descriptor and under no other, and let every
    -- session whose output waits have its descriptor watched for writing: the last change of its
    -- write filter was its addition. If no call of `llama_decode` fails, then both are still so
    -- after the loop has run over any sequence of wakeups, each with any events and any results of
    -- `accept`, `read` and `write`.
    pub turns-IsSound :
        (decodes : Decodes backend) (debug : Bool) (server_fd : ℕ)
        (wakeups : List (Wakeup backend numbers means)) (d : Daemon backend numbers means)
        → IsSound backend numbers means d
        → IsSound backend numbers means (turns backend numbers means cfg debug server_fd wakeups d)
    unfolding turns
    turns-IsSound decodes debug server_fd [] d h = h
    turns-IsSound decodes debug server_fd (w ∷ wakeups) d h =
        turns-IsSound decodes debug server_fd wakeups _ (turn-IsSound decodes debug server_fd w d h)
