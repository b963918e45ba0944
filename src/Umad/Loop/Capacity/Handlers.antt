-- ===== src/Umad/Loop/Capacity/Handlers.antt =====
-- Each handler of the loop keeps the number of sessions and their sequences within bounds.
use uma_serve.Base.{
  ℕ, ◌≡◌, refl, ap, ◌∙◌, inl, inr, Bool, true, ◌||◌, List, [], ◌∷◌, some, arith, if◌then◌else◌,
  Bool-cases,
}
use uma_serve.Ipc.Manager.{SessionManager}
use uma_serve.Ipc.Manager.Output.{find-store_self}
use uma_serve.Ipc.Poller.{Change, add, remove, read_flag, write_flag}
use uma_serve.Ipc.Request.{Numbers, ReadResult}
use uma_serve.Ipc.Session.{ClientSession, find}
use uma_serve.Metrics.Snapshot.{MeanOps}
use uma_serve.Runtime.Config.{RuntimeConfig}
use uma_serve.Sched.Backend.{Backend}
use uma_serve.Sched.Results.{is_empty}
use uma_serve.Umad.Session.{
  WriteCall, wrote, again, failed, Ending, stays, closes, starts_over, ending, start_over,
  write_now,
}
use uma_serve.Umad.Loop.{
  Daemon, with_session, poll, close_session, end_response, answer_admin, respond, after_read,
}
use uma_serve.Umad.Loop.Armed.Polls.{poll-manager, close_session-manager}
use uma_serve.Umad.Loop.Armed.Handlers.{remove_read_if-manager}
use uma_serve.Umad.Loop.Capacity.{IsWithin, store-IsWithin, close-IsWithin}

module _ (backend : Backend) (numbers : Numbers backend.Double)
    (means : MeanOps backend.float.Double) (cfg : RuntimeConfig) where
  open backend use {Double, vocab}

  abbrev pub Within : Daemon backend numbers means → Type 0
  Within d = IsWithin cfg d.manager

  pub poll-Within :
      (cs : List Change) (d : Daemon backend numbers means)
      → Within d
      → Within (poll backend numbers means cs d)
  poll-Within cs d h = rw (poll-manager backend numbers means cs d) h

  pub close_session-Within :
      (fd : ℕ) (d : Daemon backend numbers means)
      → Within d
      → Within (close_session backend numbers means fd d)
  close_session-Within fd d h =
      rw (close_session-manager backend numbers means fd d) (close-IsWithin cfg fd d.manager h)

  pub with_session-Within :
      (fd : ℕ) (s v : ClientSession Double) (d : Daemon backend numbers means)
      → find fd d.manager.sessions ≡ some s
      → v.seq ≡ s.seq
      → Within d
      → Within (with_session backend numbers means fd v d)
  with_session-Within fd s v d e same h = store-IsWithin cfg fd s v d.manager e same h

  pub end_response-Within :
      (e : Ending) (rearm : List Change) (fd : ℕ) (s : ClientSession Double)
      (d : Daemon backend numbers means)
      → find fd d.manager.sessions ≡ some s
      → Within d
      → Within (end_response backend numbers means e rearm fd s d)
  unfolding end_response start_over
  end_response-Within stays rearm fd s d f h = h
  end_response-Within closes rearm fd s d f h = close_session-Within fd d h
  end_response-Within starts_over rearm fd s d f h =
      poll-Within rearm (with_session backend numbers means fd (start_over s) d)
        (with_session-Within fd s (start_over s) d f refl h)

  written-seq :
      (writes : List WriteCall) (s : ClientSession Double)
      → (if is_empty s.tx then s else write_now writes s).seq ≡ s.seq
  unfolding write_now
  written-seq [] s = ground arith
  written-seq (wrote n now ∷ calls) s = ground arith
  written-seq (again ∷ calls) s = ground arith
  written-seq (failed ∷ calls) s = ground arith

  respond-Within :
      (writes : List WriteCall) (fd : ℕ) (s t : ClientSession Double)
      (d : Daemon backend numbers means)
      → find fd d.manager.sessions ≡ some t
      → s.seq ≡ t.seq
      → Within d
      → Within (respond backend numbers means writes fd s d)
  unfolding respond
  respond-Within writes fd s t d f same h =
      let s' = if is_empty s.tx then s else write_now writes s in
      let d' = with_session backend numbers means fd s' d in
      let found = find-store_self fd t s' d.manager.sessions f in
      let within = with_session-Within fd t s' d f (written-seq writes s ∙ same) h in
      elim (Bool-cases (is_empty s'.tx)) [
        | inl e ↦
            rw (respond, e)
              (end_response-Within (ending s'.state s'.read_closed) (add fd read_flag) fd s' d'
                found within)
        | inr e ↦ rw (respond, e) (poll-Within (add fd write_flag) d' within)
      ]

  abbrev remove_read_if : Bool → ℕ → Daemon backend numbers means → Daemon backend numbers means
  remove_read_if removed fd d =
      if removed then poll backend numbers means (remove fd read_flag) d else d

  remove_read_if-Within :
      (removed : Bool) (fd : ℕ) (d : Daemon backend numbers means)
      → Within d
      → Within (remove_read_if removed fd d)
  remove_read_if-Within removed fd d h =
      rw (remove_read_if-manager backend numbers means removed fd d) h

  respond_removed-Within :
      (removed : Bool) (writes : List WriteCall) (fd : ℕ) (s : ClientSession Double)
      (d : Daemon backend numbers means)
      → find fd d.manager.sessions ≡ some s
      → Within d
      → Within (respond backend numbers means writes fd s (remove_read_if removed fd d))
  respond_removed-Within removed writes fd s d f h =
      respond-Within writes fd s s (remove_read_if removed fd d)
        (ap (λ (m : SessionManager Double). find fd m.sessions)
            (remove_read_if-manager backend numbers means removed fd d)
          ∙ f)
        refl (remove_read_if-Within removed fd d h)

  -- What follows the read of a session that is still there.
  pub after_read-Within :
      (debug : Bool) (writes : List WriteCall) (fd : ℕ) (rr : ReadResult) (s : ClientSession Double)
      (d : Daemon backend numbers means)
      → find fd d.manager.sessions ≡ some s
      → Within d
      → Within (after_read backend numbers means debug writes fd rr s d)
  unfolding after_read
  after_read-Within debug writes fd rr s d f h = elim (Bool-cases rr.admin_request) [
    | inl asked ↦
        let s' = answer_admin backend numbers means debug fd s d in
        let d₁ = with_session backend numbers means fd s' d in
        let d₂ = poll backend numbers means (remove fd read_flag) d₁ in
        let either : (rr.wants_write || true) ≡ true = ground arith in
        rw (after_read, asked, either)
          (respond_removed-Within rr.removed_read writes fd s' d₂
            (ap (λ (m : SessionManager Double). find fd m.sessions)
                (poll-manager backend numbers means (remove fd read_flag) d₁)
              ∙ find-store_self fd s s' d.manager.sessions f)
            (poll-Within (remove fd read_flag) d₁
              (with_session-Within fd s s' d f (unfold answer_admin in refl) h)))
    | inr plain ↦ elim (Bool-cases rr.wants_write) [
      | inl wants ↦
          rw (after_read, plain, wants) (respond_removed-Within rr.removed_read writes fd s d f h)
      | inr not_wanted ↦
          rw (after_read, plain, not_wanted) (remove_read_if-Within rr.removed_read fd d h)
    ]
  ]
