-- ===== src/Umad/Loop/Armed/Handlers.antt =====
-- Each handler of the loop keeps every output watched.
use uma_serve.Base.{
  ℕ, ◌≡◌, refl, ap, ◌∙◌, ◌⊎◌, inl, inr, Bool, true, false, ◌||◌, List, [], ◌∷◌, some, arith,
  if◌then◌else◌, Bool-cases,
}
use uma_serve.Ipc.Manager.{SessionManager}
use uma_serve.Ipc.Manager.Output.{has_bytes, find-store_self}
use uma_serve.Ipc.Poller.{add, remove, read_flag}
use uma_serve.Ipc.Request.{Numbers, ReadResult}
use uma_serve.Ipc.Session.{ClientSession, find}
use uma_serve.Metrics.Snapshot.{MeanOps}
use uma_serve.Runtime.Config.{RuntimeConfig}
use uma_serve.Sched.Backend.{Backend}
use uma_serve.Sched.Results.{is_empty}
use uma_serve.Umad.Loop.{Daemon, with_session, poll, answer_admin, respond, after_read}
use uma_serve.Umad.Session.{WriteCall, wrote, again, failed, ending, write_now}
use uma_serve.Umad.Loop.Armed.{IsSound, IsSoundBut}
use uma_serve.Umad.Loop.Armed.Polls.{
  add_read-IsQuiet, remove_read-IsQuiet, poll-manager, poll-IsSoundBut, with_session-IsSoundBut,
  end_response-IsSound, poll-add_write-IsSound, poll-IsSound,
}

module _ (backend : Backend) (numbers : Numbers backend.Double)
    (means : MeanOps backend.float.Double) where
  open backend use {Double, vocab}

  pub is_empty-has_bytes :
      (s : ClientSession Double) → is_empty s.tx ≡ true → has_bytes s.tx ≡ false
  is_empty-has_bytes s e = ground arith

  write_now-fd :
      (writes : List WriteCall) (s : ClientSession Double) → (write_now writes s).fd ≡ s.fd
  unfolding write_now
  write_now-fd [] s = refl
  write_now-fd (wrote n now ∷ calls) s = refl
  write_now-fd (again ∷ calls) s = refl
  write_now-fd (failed ∷ calls) s = refl

  written-fd :
      (writes : List WriteCall) (s : ClientSession Double)
      → (if is_empty s.tx then s else write_now writes s).fd ≡ s.fd
  written-fd writes s = ground (arith, write_now-fd writes s)

  pub respond-IsSound :
      (cfg : RuntimeConfig) (writes : List WriteCall) (fd : ℕ) (s t : ClientSession Double)
      (d : Daemon backend numbers means)
      → find fd d.manager.sessions ≡ some t
      → s.fd ≡ t.fd
      → IsSoundBut backend numbers means fd d
      → IsSound backend numbers means (respond backend numbers means writes fd s d)
  unfolding respond
  respond-IsSound cfg writes fd s t d f same h =
      let s' = if is_empty s.tx then s else write_now writes s in
      let d' = with_session backend numbers means fd s' d in
      let found : find fd d'.manager.sessions ≡ some s' =
        find-store_self fd t s' d.manager.sessions f in
      let h' : IsSoundBut backend numbers means fd d' =
        with_session-IsSoundBut backend numbers means fd t s' d f (written-fd writes s ∙ same) h in
      elim (Bool-cases (is_empty s'.tx)) [
        | inl e ↦
            rw (respond, e)
              (end_response-IsSound backend numbers means cfg (ending s'.state s'.read_closed)
                (add fd read_flag) fd s' d' (add_read-IsQuiet backend numbers means fd) found
                (is_empty-has_bytes s' e) h')
        | inr e ↦ rw (respond, e) (poll-add_write-IsSound backend numbers means fd d' h')
      ]

  remove_read_if-IsSoundBut :
      (b : Bool) (fd : ℕ) (d : Daemon backend numbers means)
      → IsSoundBut backend numbers means fd d
      → IsSoundBut backend numbers means fd
          (if b then poll backend numbers means (remove fd read_flag) d else d)
  remove_read_if-IsSoundBut true fd d h =
      poll-IsSoundBut backend numbers means fd (remove fd read_flag) d
        (remove_read-IsQuiet backend numbers means fd) h
  remove_read_if-IsSoundBut false fd d h = h

  remove_read_if-IsSound :
      (b : Bool) (fd : ℕ) (d : Daemon backend numbers means)
      → IsSound backend numbers means d
      → IsSound backend numbers means
          (if b then poll backend numbers means (remove fd read_flag) d else d)
  remove_read_if-IsSound true fd d h =
      poll-IsSound backend numbers means (remove fd read_flag) d
        (remove_read-IsQuiet backend numbers means fd) h
  remove_read_if-IsSound false fd d h = h

  pub remove_read_if-manager :
      (b : Bool) (fd : ℕ) (d : Daemon backend numbers means)
      → (if b then poll backend numbers means (remove fd read_flag) d else d).manager ≡ d.manager
  remove_read_if-manager true fd d = poll-manager backend numbers means (remove fd read_flag) d
  remove_read_if-manager false fd d = refl

  pub after_read-IsSound :
      (cfg : RuntimeConfig) (debug : Bool) (writes : List WriteCall) (fd : ℕ) (rr : ReadResult)
      (s : ClientSession Double) (d : Daemon backend numbers means)
      → find fd d.manager.sessions ≡ some s
      → IsSoundBut backend numbers means fd d
      → (rr.wants_write ≡ true) ⊎ IsSound backend numbers means d
      → IsSound backend numbers means (after_read backend numbers means debug writes fd rr s d)
  unfolding after_read
  after_read-IsSound cfg debug writes fd rr s d f h told = elim (Bool-cases rr.admin_request) [
    | inl asked ↦
        let s' = answer_admin backend numbers means debug fd s d in
        let d₁ = with_session backend numbers means fd s' d in
        let d₂ = poll backend numbers means (remove fd read_flag) d₁ in
        let d₃ =
          if rr.removed_read then poll backend numbers means (remove fd read_flag) d₂ else d₂ in
        let h₃ : IsSoundBut backend numbers means fd d₃ =
          remove_read_if-IsSoundBut rr.removed_read fd d₂ (
            remove_read_if-IsSoundBut true fd d₁ (
              with_session-IsSoundBut backend numbers means fd s s' d f
                (unfold answer_admin in refl) h)) in
        let managed : d₃.manager ≡ d₁.manager =
          remove_read_if-manager rr.removed_read fd d₂
          ∙ poll-manager backend numbers means (remove fd read_flag) d₁ in
        let found : find fd d₃.manager.sessions ≡ some s' =
          ap (λ (m : SessionManager Double). find fd m.sessions) managed
          ∙ find-store_self fd s s' d.manager.sessions f in
        let either : (rr.wants_write || true) ≡ true = ground arith in
        rw (after_read, asked, either) (respond-IsSound cfg writes fd s' s' d₃ found refl h₃)
    | inr plain ↦
        let d₃ =
          if rr.removed_read then poll backend numbers means (remove fd read_flag) d else d in
        let found : find fd d₃.manager.sessions ≡ some s =
          ap (λ (m : SessionManager Double). find fd m.sessions)
            (remove_read_if-manager rr.removed_read fd d)
          ∙ f in
        elim told [
          | inl wants ↦
              rw (after_read, plain, wants)
                (respond-IsSound cfg writes fd s s d₃ found refl
                  (remove_read_if-IsSoundBut rr.removed_read fd d h))
          | inr sound ↦ elim (Bool-cases rr.wants_write) [
            | inl wants ↦
                rw (after_read, plain, wants)
                  (respond-IsSound cfg writes fd s s d₃ found refl
                    (remove_read_if-IsSoundBut rr.removed_read fd d h))
            | inr not_wanted ↦
                rw (after_read, plain, not_wanted)
                  (remove_read_if-IsSound rr.removed_read fd d sound)
          ]
        ]
  ]
