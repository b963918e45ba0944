-- ===== src/Umad/Loop/Armed.antt =====
-- Output that waits is watched: the daemon asks to be told when its descriptor can be written.
pub mod Polls
pub mod Handlers
pub mod Writes
pub mod Events
pub mod Turns
use uma_serve.Base.{
  ℕ, ◌≡◌, ◌≢◌, refl, sym, ap, ◌∙◌, ◌⊎◌, inl, inr, Bool, true, false, ◌&&◌, ◌||◌, List, [], ◌∷◌,
  ◌++◌, Option, none, some, arith, ◌==◌, leb, if◌then◌else◌, Bool-cases, Option-cases, length,
  ℕ_discrete,
}
use uma_serve.Ipc.Manager.{
  SessionManager, Effect, poll_remove_both, memory_seq_rm, close_fd, seq_effect, assign, erase,
  new_session, add_client, close, on_readable, read_session,
}
use uma_serve.Ipc.Manager.Keyed.{
  add_client-IsKeyed, close-IsKeyed, on_readable-IsKeyed, read_session-fd,
}
use uma_serve.Ipc.Manager.Output.{
  has_bytes, has_output, pending, pending-store, pending-store_same, find-store_self, find-assign,
  find-erase, close-pending, read_session-Told,
}
use uma_serve.Ipc.Poller.{
  PollEvent, PollFlags, Change, ev_add, ev_delete, Filter, evfilt_read, evfilt_write, evfilt_other,
  Kevent, add, remove, read_flag, write_flag, ◌∪◌, coalesce,
}
use uma_serve.Ipc.Request.{Numbers, ReadResult}
use uma_serve.Ipc.Session.{ClientSession, SessionPool, SessionState, find, store}
use uma_serve.Ipc.Session.Lookup.{IsKeyed, find-fd, store-IsKeyed}
use uma_serve.Metrics.Snapshot.{MeanOps}
use uma_serve.Runtime.Config.{RuntimeConfig}
use uma_serve.Sched.Backend.{Backend}
use uma_serve.Sched.Results.{is_empty}
use uma_serve.Sched.Results.Output.{listed}
use uma_serve.Umad.Loop.{
  Answers, Daemon, logged, with_session, poll, perform, close_session, accept_client, end_response,
  answer_admin, respond, after_read, client_read, after_flush, client_write, handle_event,
  handle_events, close_all, close_idle,
}
use uma_serve.Umad.Session.{
  WriteCall, wrote, again, failed, Ending, stays, closes, starts_over, ending, start_over, flush,
  write_now, idle_fds,
}

-- Whether the last change that was asked for a descriptor's write filter was its addition.
unfoldable pub watches : ℕ → List Change → Bool
watches fd [] = false
watches fd (ev_add k evfilt_write ∷ changes) = k == fd || watches fd changes
watches fd (ev_delete k evfilt_write ∷ changes) = if k == fd then false else watches fd changes
watches fd (_ ∷ changes) = watches fd changes

module _ (backend : Backend) (numbers : Numbers backend.Double)
    (means : MeanOps backend.float.Double) where
  -- Every session whose output waits is watched for writing.
  abbrev pub Armed : Daemon backend numbers means → Type 0
  Armed d = (j : ℕ) → pending j d.manager.sessions ≡ true → watches j d.changes ≡ true

  -- The same for all but one.
  abbrev pub ArmedBut : ℕ → Daemon backend numbers means → Type 0
  ArmedBut fd d =
      (j : ℕ) → fd ≢ j → pending j d.manager.sessions ≡ true → watches j d.changes ≡ true

  pub record IsSound (d : Daemon backend numbers means) : Type 0 where
    pub keyed : IsKeyed d.manager.sessions
    pub armed : Armed d

  -- What is known where one session may have output that is not watched.
  pub record IsSoundBut (fd : ℕ) (d : Daemon backend numbers means) : Type 0 where
    pub keyed : IsKeyed d.manager.sessions
    pub armed : ArmedBut fd d

  -- Changes of the read filter change nothing here.
  abbrev pub IsQuiet : List Change → Type 0
  IsQuiet cs = (j : ℕ) (changes : List Change) → watches j (logged cs changes) ≡ watches j changes
