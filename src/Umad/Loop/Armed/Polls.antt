-- ===== src/Umad/Loop/Armed/Polls.antt =====
-- What the changes of the poller and the closing of a session do to the watched outputs.
use uma_serve.Base.{
  ℕ, ◌≡◌, refl, sym, ap, ◌∙◌, inl, inr, false, ◌||◌, List, [], ◌∷◌, ◌++◌, Option, none, some, arith,
  ◌==◌, if◌then◌else◌, Option-cases, ℕ_discrete,
}
use uma_serve.Ipc.Manager.{
  SessionManager, Effect, poll_remove_both, memory_seq_rm, close_fd, seq_effect, erase, close,
}
use uma_serve.Ipc.Manager.Keyed.{close-IsKeyed}
use uma_serve.Ipc.Manager.Output.{
  has_bytes, has_output, pending, pending-store, find-store_self, close-pending,
}
use uma_serve.Ipc.Poller.{Change, add, remove, read_flag, write_flag, ◌∪◌}
use uma_serve.Ipc.Request.{Numbers}
use uma_serve.Ipc.Session.{ClientSession, find}
use uma_serve.Ipc.Session.Lookup.{IsKeyed, find-fd, store-IsKeyed}
use uma_serve.Metrics.Snapshot.{MeanOps}
use uma_serve.Runtime.Config.{RuntimeConfig}
use uma_serve.Sched.Backend.{Backend}
use uma_serve.Umad.Loop.{Daemon, logged, with_session, poll, perform, close_session, end_response}
use uma_serve.Umad.Session.{Ending, stays, closes, starts_over, start_over}
use uma_serve.Umad.Loop.Armed.{watches, Armed, ArmedBut, IsSound, IsSoundBut, IsQuiet}

module _ (backend : Backend) (numbers : Numbers backend.Double)
    (means : MeanOps backend.float.Double) where
  open backend use {Double, vocab}

  pub perform-manager :
      (effects : List Effect) (d : Daemon backend numbers means)
      → (perform backend numbers means effects d).manager ≡ d.manager
  unfolding perform
  perform-manager [] d = refl
  perform-manager (poll_remove_both fd ∷ effects) d = perform-manager effects _
  perform-manager (memory_seq_rm seq ∷ effects) d = perform-manager effects _
  perform-manager (close_fd fd ∷ effects) d = perform-manager effects _

  perform-watches :
      (j fd : ℕ) (o : Option ℕ) (d : Daemon backend numbers means)
      → watches j
          (perform backend numbers means
            (poll_remove_both fd ∷ (seq_effect o ++ close_fd fd ∷ []))
            d).changes
        ≡ (if fd == j then false else watches j d.changes)
  unfolding perform watches poll logged remove ◌∪◌ seq_effect
  perform-watches j fd none d = refl
  perform-watches j fd (some seq) d = refl

  close_session-watches :
      (j fd : ℕ) (d : Daemon backend numbers means)
      → watches j (close_session backend numbers means fd d).changes
        ≡ (if fd == j then false else watches j d.changes)
  unfolding close_session close
  close_session-watches j fd d = elim (Option-cases (find fd d.manager.sessions)) [
    | inl e ↦ rw (close_session, close, e) (perform-watches j fd none d)
    | inr (s, e) ↦
        rw (close_session, close, e)
          (perform-watches j fd s.seq
            (record d { manager = record d.manager { sessions = erase fd d.manager.sessions } }))
  ]

  pub close_session-manager :
      (fd : ℕ) (d : Daemon backend numbers means)
      → (close_session backend numbers means fd d).manager ≡ (close fd d.manager).0
  unfolding close_session
  close_session-manager fd d =
      perform-manager (close fd d.manager).1 (record d { manager = (close fd d.manager).0 })

  -- Closing the one session that is not armed makes the rest sound.
  pub close_session-IsSound :
      (cfg : RuntimeConfig) (fd : ℕ) (d : Daemon backend numbers means)
      → IsKeyed d.manager.sessions
      → ArmedBut backend numbers means fd d
      → IsSound backend numbers means (close_session backend numbers means fd d)
  close_session-IsSound cfg fd d k h = record {
    keyed = rw (close_session-manager fd d) (close-IsKeyed cfg vocab numbers fd d.manager k);
    armed = λ j p. ground (
      arith,
      h j,
      p,
      close_session-watches j fd d,
      ap (λ (m : SessionManager Double). pending j m.sessions) (close_session-manager fd d),
      close-pending fd j d.manager k.distinct,
    );
  }

  pub add_read-IsQuiet : (fd : ℕ) → IsQuiet backend numbers means (add fd read_flag)
  unfolding add logged watches
  add_read-IsQuiet fd j changes = refl

  pub remove_read-IsQuiet : (fd : ℕ) → IsQuiet backend numbers means (remove fd read_flag)
  unfolding remove logged watches
  remove_read-IsQuiet fd j changes = refl

  poll-watches :
      (cs : List Change) (j : ℕ) (d : Daemon backend numbers means)
      → IsQuiet backend numbers means cs
      → watches j (poll backend numbers means cs d).changes ≡ watches j d.changes
  unfolding poll
  poll-watches cs j d q = q j d.changes

  pub poll-manager :
      (cs : List Change) (d : Daemon backend numbers means)
      → (poll backend numbers means cs d).manager ≡ d.manager
  unfolding poll
  poll-manager cs d = refl

  pub poll-pending :
      (cs : List Change) (j : ℕ) (d : Daemon backend numbers means)
      → pending j (poll backend numbers means cs d).manager.sessions ≡ pending j d.manager.sessions
  unfolding poll
  poll-pending cs j d = refl

  pub add_write-watches :
      (fd j : ℕ) (d : Daemon backend numbers means)
      → watches j (poll backend numbers means (add fd write_flag) d).changes
        ≡ (fd == j || watches j d.changes)
  unfolding poll add logged watches
  add_write-watches fd j d = refl

  remove_write-watches :
      (fd j : ℕ) (d : Daemon backend numbers means)
      → watches j (poll backend numbers means (remove fd write_flag) d).changes
        ≡ (if fd == j then false else watches j d.changes)
  unfolding poll remove logged watches
  remove_write-watches fd j d = refl

  Armed-settled :
      (fd : ℕ) (d : Daemon backend numbers means)
      → ArmedBut backend numbers means fd d
      → pending fd d.manager.sessions ≡ false
      → Armed backend numbers means d
  Armed-settled fd d h q j p = elim (ℕ_discrete fd j) [ yes e ↦ absurd (cc) | no n ↦ h j n p ]

  pub poll-IsSoundBut :
      (fd : ℕ) (cs : List Change) (d : Daemon backend numbers means)
      → IsQuiet backend numbers means cs
      → IsSoundBut backend numbers means fd d
      → IsSoundBut backend numbers means fd (poll backend numbers means cs d)
  poll-IsSoundBut fd cs d q h = record {
    keyed = rw (poll-manager cs d) h.keyed;
    armed = λ j n p. poll-watches cs j d q ∙ h.armed j n (sym (poll-pending cs j d) ∙ p);
  }

  pub with_session-IsSoundBut :
      (fd : ℕ) (s v : ClientSession Double) (d : Daemon backend numbers means)
      → find fd d.manager.sessions ≡ some s
      → v.fd ≡ s.fd
      → IsSoundBut backend numbers means fd d
      → IsSoundBut backend numbers means fd (with_session backend numbers means fd v d)
  with_session-IsSoundBut fd s v d e same h = record {
    keyed =
        store-IsKeyed fd v d.manager.sessions (same ∙ find-fd fd d.manager.sessions s h.keyed e)
          h.keyed;
    armed = λ j n p. h.armed j n (ground (arith, pending-store fd j v d.manager.sessions p, n));
  }

  pub IsSoundBut-settled :
      (fd : ℕ) (d : Daemon backend numbers means)
      → IsSoundBut backend numbers means fd d
      → pending fd d.manager.sessions ≡ false
      → IsSound backend numbers means d
  IsSoundBut-settled fd d h q = record { keyed = h.keyed; armed = Armed-settled fd d h.armed q }

  -- The end of a response, whose session has no output left.
  pub end_response-IsSound :
      (cfg : RuntimeConfig) (e : Ending) (rearm : List Change) (fd : ℕ) (s : ClientSession Double)
      (d : Daemon backend numbers means)
      → IsQuiet backend numbers means rearm
      → find fd d.manager.sessions ≡ some s
      → has_bytes s.tx ≡ false
      → IsSoundBut backend numbers means fd d
      → IsSound backend numbers means (end_response backend numbers means e rearm fd s d)
  unfolding end_response start_over
  end_response-IsSound cfg stays rearm fd s d q f t h = IsSoundBut-settled fd d h (rw f t)
  end_response-IsSound cfg closes rearm fd s d q f t h =
      close_session-IsSound cfg fd d h.keyed h.armed
  end_response-IsSound cfg starts_over rearm fd s d q f t h =
      let d' = with_session backend numbers means fd (start_over s) d in
      let found = find-store_self fd s (start_over s) d.manager.sessions f in
      IsSoundBut-settled fd (poll backend numbers means rearm d')
        (poll-IsSoundBut fd rearm d' q (with_session-IsSoundBut fd s (start_over s) d f refl h))
        (poll-pending rearm fd d' ∙ ap has_output found ∙ t)

  -- To watch a descriptor for writing makes up for its output.
  pub poll-add_write-IsSound :
      (fd : ℕ) (d : Daemon backend numbers means)
      → IsSoundBut backend numbers means fd d
      → IsSound backend numbers means (poll backend numbers means (add fd write_flag) d)
  poll-add_write-IsSound fd d h =
      let cs = add fd write_flag in
      record {
        keyed = rw (poll-manager cs d) h.keyed;
        armed = λ j p. elim (ℕ_discrete fd j) [
          | yes e ↦ add_write-watches fd j d ∙ ground arith
          | no n ↦
              add_write-watches fd j d ∙ ground (arith, h.armed j n (sym (poll-pending cs j d) ∙ p))
        ];
      }

  pub poll-remove_write-IsSoundBut :
      (fd : ℕ) (d : Daemon backend numbers means)
      → IsSoundBut backend numbers means fd d
      → IsSoundBut backend numbers means fd (poll backend numbers means (remove fd write_flag) d)
  poll-remove_write-IsSoundBut fd d h =
      let cs = remove fd write_flag in
      record {
        keyed = rw (poll-manager cs d) h.keyed;
        armed = λ j n p.
            remove_write-watches fd j d
            ∙ ground (arith, n, h.armed j n (sym (poll-pending cs j d) ∙ p));
      }

  pub IsSound-but :
      (fd : ℕ) (d : Daemon backend numbers means)
      → IsSound backend numbers means d
      → IsSoundBut backend numbers means fd d
  IsSound-but fd d h = record { keyed = h.keyed; armed = λ j n p. h.armed j p }

  pub poll-IsSound :
      (cs : List Change) (d : Daemon backend numbers means)
      → IsQuiet backend numbers means cs
      → IsSound backend numbers means d
      → IsSound backend numbers means (poll backend numbers means cs d)
  poll-IsSound cs d q h = record {
    keyed = rw (poll-manager cs d) h.keyed;
    armed = λ j p. poll-watches cs j d q ∙ h.armed j (sym (poll-pending cs j d) ∙ p);
  }
