-- ===== src/Umad/Loop/Armed/Writes.antt =====
-- Writing to a client keeps every output watched.
use uma_serve.Base.{
  ℕ, ◌≡◌, refl, ap, ◌∙◌, inl, inr, true, List, [], ◌∷◌, some, arith, Bool-cases, Option-cases,
}
use uma_serve.Ipc.Manager.{SessionManager}
use uma_serve.Ipc.Manager.Output.{has_bytes, pending-store, find-store_self}
use uma_serve.Ipc.Poller.{remove, write_flag}
use uma_serve.Ipc.Request.{Numbers}
use uma_serve.Ipc.Session.{ClientSession, find}
use uma_serve.Metrics.Snapshot.{MeanOps}
use uma_serve.Runtime.Config.{RuntimeConfig}
use uma_serve.Sched.Backend.{Backend}
use uma_serve.Sched.Results.{is_empty}
use uma_serve.Umad.Loop.{Daemon, logged, with_session, poll, after_flush, client_write}
use uma_serve.Umad.Session.{WriteCall, wrote, again, failed, ending, flush}
use uma_serve.Umad.Loop.Armed.{IsSound}
use uma_serve.Umad.Loop.Armed.Polls.{
  poll-manager, with_session-IsSoundBut, end_response-IsSound, close_session-IsSound,
  poll-remove_write-IsSoundBut, IsSound-but,
}
use uma_serve.Umad.Loop.Armed.Handlers.{is_empty-has_bytes}

module _ (backend : Backend) (numbers : Numbers backend.Double)
    (means : MeanOps backend.float.Double) (cfg : RuntimeConfig) where
  open backend use {Double, vocab}

  flush-fd : (calls : List WriteCall) (s : ClientSession Double) → (flush calls s).0.fd ≡ s.fd
  unfolding flush
  flush-fd [] s = refl
  flush-fd (wrote n now ∷ calls) s = elim (Bool-cases (is_empty s.tx)) [
    | inl e ↦ rw e
    | inr e ↦ rw e (flush-fd calls _)
  ]
  flush-fd (again ∷ calls) s = refl
  flush-fd (failed ∷ calls) s = refl

  -- What is left behind the write loop was there before, so it is watched already.
  flush-has_bytes :
      (calls : List WriteCall) (s : ClientSession Double)
      → has_bytes (flush calls s).0.tx ≡ true
      → has_bytes s.tx ≡ true
  unfolding flush
  flush-has_bytes [] s h = h
  flush-has_bytes (wrote n now ∷ calls) s h = ground arith
  flush-has_bytes (again ∷ calls) s h = h
  flush-has_bytes (failed ∷ calls) s h = h

  after_flush-IsSound :
      (fd : ℕ) (s : ClientSession Double) (d : Daemon backend numbers means)
      → find fd d.manager.sessions ≡ some s
      → IsSound backend numbers means d
      → IsSound backend numbers means (after_flush backend numbers means fd s d)
  unfolding after_flush
  after_flush-IsSound fd s d f h = elim (Bool-cases (is_empty s.tx)) [
    | inl e ↦
        let d' = poll backend numbers means (remove fd write_flag) d in
        let found : find fd d'.manager.sessions ≡ some s =
          ap (λ (m : SessionManager Double). find fd m.sessions)
            (poll-manager backend numbers means (remove fd write_flag) d)
          ∙ f in
        rw (after_flush, e)
          (end_response-IsSound backend numbers means cfg (ending s.state s.read_closed) [] fd s d'
            (λ j changes. unfold logged in refl) found
            (is_empty-has_bytes backend numbers means s e)
            (poll-remove_write-IsSoundBut backend numbers means fd d
              (IsSound-but backend numbers means fd d h)))
    | inr e ↦ rw (after_flush, e) h
  ]

  pub client_write-IsSound :
      (fd : ℕ) (writes : List WriteCall) (d : Daemon backend numbers means)
      → IsSound backend numbers means d
      → IsSound backend numbers means (client_write backend numbers means fd writes d)
  unfolding client_write
  client_write-IsSound fd writes d h = elim (Option-cases (find fd d.manager.sessions)) [
    | inl e ↦ rw (client_write, e) h
    | inr (s, e) ↦
        let s' = (flush writes s).0 in
        let d' = with_session backend numbers means fd s' d in
        let found = find-store_self fd s s' d.manager.sessions e in
        let but =
          with_session-IsSoundBut backend numbers means fd s s' d e (flush-fd writes s)
            (IsSound-but backend numbers means fd d h) in
        let sound : IsSound backend numbers means d' = record {
          keyed = but.keyed;
          armed = λ j p. h.armed j (
              ground
                (arith, pending-store fd j s' d.manager.sessions p, flush-has_bytes writes s, e));
        } in
        elim (Bool-cases (flush writes s).1) [
          | inl ok ↦ rw (client_write, e, ok) (after_flush-IsSound fd s' d' found sound)
          | inr broken ↦
              rw (client_write, e, broken)
                (close_session-IsSound backend numbers means cfg fd d' but.keyed but.armed)
        ]
  ]
