-- ===== src/Umad/Loop.antt =====
-- umad/main.cpp: the event loop of the daemon. What the kernel answers to a call stands beside the
-- event that makes the call: the descriptor that `accept` gives, the results of `read` and `write`,
-- and the clock. The changes that are asked of the poller are a log, the latest first.
pub mod Armed
pub mod Capacity
use uma_serve.Base.{
  ℕ, zero, suc, ◌+◌, ◌-◌, ◌*◌, ◌%◌, ◌^◌, Bool, true, false, not, ◌&&◌, ◌||◌, List, [], ◌∷◌, ◌++◌,
  Option, none, some, ltb, leb, ◌==◌, if◌then◌else◌, Bytes, codes, length, drop,
}
use uma_serve.Ipc.Manager.{
  ReadCall, SessionManager, Effect, poll_remove_both, memory_seq_rm, close_fd, add_client, close,
  on_readable,
}
use uma_serve.Ipc.Poller.{
  PollEvent, Change, Kevent, add, remove, read_flag, write_flag, ◌∪◌, coalesce,
}
use uma_serve.Ipc.Protocol.{write_frame}
use uma_serve.Ipc.Request.{Numbers, ReadResult}
use uma_serve.Ipc.Session.{ClientSession, SessionPool, SessionState, errored, stream, find, store}
use uma_serve.Metrics.{Metrics, initial_metrics}
use uma_serve.Metrics.Snapshot.{MeanOps, to_json}
use uma_serve.Runtime.Config.{RuntimeConfig}
use uma_serve.Sched.Backend.{Backend}
use uma_serve.Sched.Bmt.{u64}
use uma_serve.Sched.Policy.{is_decode_ready, is_prefill_ready}
use uma_serve.Sched.Results.{is_empty}
use uma_serve.Sched.Scheduler.{Scheduler, tick}
use uma_serve.Umad.Session.{
  WriteCall, wrote, again, failed, Ending, stays, closes, starts_over, ending, start_over,
  has_ready_work, wait_ms, idle_fds, flush, write_now,
}

-- What the kernel answers while one event is handled; behind the given calls a descriptor blocks.
pub record Answers : Type 0 where
  pub accepted : Option ℕ
  pub now_ns : ℕ
  pub reads : List ReadCall
  pub writes : List WriteCall

-- Changes are put before the earlier ones.
pub logged : List Change → List Change → List Change
logged [] changes = changes
logged (c ∷ cs) changes = logged cs (c ∷ changes)

module _ (backend : Backend) (numbers : Numbers backend.Double)
    (means : MeanOps backend.float.Double) where
  open backend use {Double, vocab}

  pub record Daemon : Type 0 where
    pub manager : SessionManager Double
    pub scheduler : Scheduler backend
    pub changes : List Change

  abbrev pub with_session : ℕ → ClientSession Double → Daemon → Daemon
  with_session fd s d = record d {
    manager = record d.manager { sessions = store fd s d.manager.sessions };
  }

  unfoldable pub poll : List Change → Daemon → Daemon
  unfolding logged
  poll cs d = record d { changes = logged cs d.changes }

  -- The effects of `SessionManager::close`, in order.
  pub perform : List Effect → Daemon → Daemon
  unfolding poll
  perform [] d = d
  perform (poll_remove_both fd ∷ effects) d =
      perform effects (poll (remove fd (read_flag ∪ write_flag)) d)
  perform (memory_seq_rm seq ∷ effects) d = perform effects (record d {
    scheduler = record d.scheduler { ctx = backend.llama_memory_seq_rm d.scheduler.ctx (some seq) };
  })
  perform (close_fd fd ∷ effects) d = perform effects d

  -- `sessions.close(fd, poller, gctx)`.
  pub close_session : ℕ → Daemon → Daemon
  unfolding perform
  close_session fd d =
      let (m, effects) = close fd d.manager in perform effects (record d { manager = m })

  -- A new client is accepted, unless there are too many.
  pub accept_client : RuntimeConfig → Option ℕ → ℕ → Daemon → Daemon
  unfolding poll
  accept_client cfg none now_ns d = d
  accept_client cfg (some cfd) now_ns d =
      if leb cfg.max_sessions (length d.manager.sessions)
      then d
      else poll (add cfd read_flag) (record d { manager = add_client numbers cfd now_ns d.manager })

  -- `finished a response`; behind an immediate write reading is asked for again.
  pub end_response : Ending → List Change → ℕ → ClientSession Double → Daemon → Daemon
  unfolding poll close_session
  end_response stays rearm fd s d = d
  end_response closes rearm fd s d = close_session fd d
  end_response starts_over rearm fd s d = poll rearm (with_session fd (start_over s) d)

  -- The answer to a request for the metrics.
  unfoldable pub admin_payload : Bool → Daemon → Bytes
  admin_payload debug d =
      codes "{\"event\":\"metrics\",\"metrics\":"
      ++ to_json backend.float means
          (elim d.scheduler.metrics [ none ↦ initial_metrics | some m ↦ m ])
          (length d.manager.sessions) debug
      ++ codes "}"

  -- With the pending output of a session written, or asked to be watched for writing.
  pub respond : List WriteCall → ℕ → ClientSession Double → Daemon → Daemon
  unfolding poll end_response
  respond writes fd s d =
      let s' = if is_empty s.tx then s else write_now writes s in
      let d' = with_session fd s' d in
      if is_empty s'.tx
      then end_response (ending s'.state s'.read_closed) (add fd read_flag) fd s' d'
      else poll (add fd write_flag) d'

  -- An admin request: the snapshot is queued, and reading ends.
  pub answer_admin : Bool → ℕ → ClientSession Double → Daemon → ClientSession Double
  unfolding admin_payload
  answer_admin debug fd s d = record s {
    tx = write_frame s.tx (admin_payload debug d);
    state = SessionState.stream;
    read_closed = true;
  }

  -- Behind `on_readable`, for a session that is still there.
  pub after_read : Bool → List WriteCall → ℕ → ReadResult → ClientSession Double → Daemon → Daemon
  unfolding respond answer_admin poll
  after_read debug writes fd rr s d =
      let s' = if rr.admin_request then answer_admin debug fd s d else s in
      let d' = if rr.admin_request then poll (remove fd read_flag) (with_session fd s' d) else d in
      let d'' = if rr.removed_read then poll (remove fd read_flag) d' else d' in
      if rr.wants_write || rr.admin_request then respond writes fd s' d'' else d''

  pub client_read : RuntimeConfig → Bool → ℕ → Answers → Daemon → Daemon
  unfolding after_read
  client_read cfg debug fd answers d =
      let (m, rr) = on_readable cfg vocab numbers answers.now_ns fd answers.reads d.manager in
      let d' = record d { manager = m } in
      elim (find fd m.sessions) [ none ↦ d' | some s ↦ after_read debug answers.writes fd rr s d' ]

  -- Behind the write loop: the output is gone, or waits.
  pub after_flush : ℕ → ClientSession Double → Daemon → Daemon
  unfolding poll end_response
  after_flush fd s d =
      if is_empty s.tx
      then end_response (ending s.state s.read_closed) [] fd s (poll (remove fd write_flag) d)
      else d

  pub client_write : ℕ → List WriteCall → Daemon → Daemon
  unfolding flush after_flush close_session
  client_write fd writes d = elim (find fd d.manager.sessions) [
    | none ↦ d
    | some s ↦
        let (s', ok) = flush writes s in
        let d' = with_session fd s' d in if ok then after_flush fd s' d' else close_session fd d'
  ]

  -- One event of the poller.
  pub handle_event : RuntimeConfig → Bool → ℕ → PollEvent → Answers → Daemon → Daemon
  unfolding accept_client client_read client_write
  handle_event cfg debug server_fd ev answers d =
      if ev.fd == server_fd && ev.f.read
      then accept_client cfg answers.accepted answers.now_ns d
      else if ev.f.read
      then client_read cfg debug ev.fd answers d
      else if ev.f.write
      then client_write ev.fd answers.writes d
      else d

  pub handle_events : RuntimeConfig → Bool → ℕ → List PollEvent → (ℕ → Answers) → Daemon → Daemon
  unfolding handle_event
  handle_events cfg debug server_fd [] answers d = d
  handle_events cfg debug server_fd (ev ∷ events) answers d =
      handle_events cfg debug server_fd events answers
        (handle_event cfg debug server_fd ev (answers ev.fd) d)

  pub close_all : List ℕ → Daemon → Daemon
  unfolding close_session
  close_all [] d = d
  close_all (fd ∷ fds) d = close_all fds (close_session fd d)

  -- The idle timeout, in nanoseconds of 64 bits.
  pub close_idle : RuntimeConfig → ℕ → Daemon → Daemon
  unfolding close_all idle_fds
  close_idle cfg now d =
      close_all (idle_fds (u64 (cfg.idle_timeout_sec * 1000 * 1000 * 1000)) now d.manager.sessions)
        d

  -- `fds_to_arm`.
  pub arm : List ℕ → Daemon → Daemon
  unfolding poll
  arm [] d = d
  arm (fd ∷ fds) d = arm fds (elim (find fd d.manager.sessions) [
    | none ↦ d
    | some s ↦ if is_empty s.tx then d else poll (add fd write_flag) d
  ])

  pub tick_and_arm : ℕ → ℕ → Daemon → Daemon
  unfolding arm
  tick_and_arm now_ns dur_ns d =
      let t = tick backend d.scheduler d.manager.sessions now_ns dur_ns in
      arm t.result_fds
        (record d { manager = record d.manager { sessions = t.sessions }; scheduler = t.scheduler })

  -- What a turn of the loop gets from its surroundings. `interrupted` is `EINTR`.
  pub data Wakeup : Type 0 where
    interrupted : Wakeup
    woken : List Kevent → (ℕ → Answers) → ℕ → ℕ → ℕ → Wakeup

  -- One turn of the loop.
  pub turn : RuntimeConfig → Bool → ℕ → Wakeup → Daemon → Daemon
  unfolding handle_events close_idle tick_and_arm
  turn cfg debug server_fd interrupted d = d
  turn cfg debug server_fd (woken kevs answers idle_now tick_now dur_ns) d =
      tick_and_arm tick_now dur_ns
        (close_idle cfg idle_now (handle_events cfg debug server_fd (coalesce kevs) answers d))

  -- The loop, until it is left.
  pub turns : RuntimeConfig → Bool → ℕ → List Wakeup → Daemon → Daemon
  unfolding turn
  turns cfg debug server_fd [] d = d
  turns cfg debug server_fd (w ∷ wakeups) d =
      turns cfg debug server_fd wakeups (turn cfg debug server_fd w d)
