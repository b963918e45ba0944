-- ===== src/Sched/Results/Failure.antt =====
-- A batch that llama.cpp could not decode.
use mathlib.Core.Option
use uma_serve.Base.{
  ℕ, ◌≡◌, refl, sym, ℕ_discrete, count, count-Absent, ap, ◌∙◌, inl, inr, List, [], ◌∷◌, map, none,
  some, codes, true, arith, ◌==◌, if◌then◌else◌, Distinct, Option-cases,
}
use uma_serve.Ipc.Session.Lookup.{find-store}
use uma_serve.Ipc.Session.{ClientSession, SessionPool, SessionState, find, store}
use uma_serve.Ipc.Protocol.{append_error_event}
use uma_serve.Sched.Batch.{SampleRef}
use uma_serve.Sched.Results.{fail_session, fail_samples}

abbrev pub sampled_fds : List SampleRef → List ℕ
sampled_fds = map (λ r. r.fd)

module _ {D : Type 0} where
  fail_one : SampleRef → SessionPool D → SessionPool D
  fail_one r sessions = elim (find r.fd sessions) [
    | none ↦ sessions
    | some s ↦ store r.fd (fail_session s) sessions
  ]

  find-fail_one :
      (r : SampleRef) (j : ℕ) (sessions : SessionPool D)
      → find j (fail_one r sessions)
        ≡ (if r.fd == j then Option.map fail_session (find j sessions) else find j sessions)
  unfolding fail_one
  find-fail_one r j sessions = elim (Option-cases (find r.fd sessions)) [
    | inl e ↦
        rw (fail_one, e)
          (elim (ℕ_discrete r.fd j) [
            | yes q ↦
                let here : find j sessions ≡ none = ap (λ k. find k sessions) (sym q) ∙ e in
                rw here (ground arith)
            | no n ↦ ground arith
          ])
    | inr (s, e) ↦
        rw (fail_one, e)
          (elim (ℕ_discrete r.fd j) [
            | yes q ↦
                let here : find j sessions ≡ some s = ap (λ k. find k sessions) (sym q) ∙ e in
                rw (find-store r.fd j (fail_session s) sessions, here) (ground arith)
            | no n ↦ rw (find-store r.fd j (fail_session s) sessions) (ground arith)
          ])
  ]

  fail_samples-cons :
      (r : SampleRef) (samples : List SampleRef) (sessions : SessionPool D)
      → fail_samples (r ∷ samples) sessions ≡ fail_samples samples (fail_one r sessions)
  unfolding fail_samples fail_one
  fail_samples-cons r samples sessions = refl

  find-fail_sessions :
      (samples : List SampleRef) (sessions : SessionPool D) (j : ℕ)
      → Distinct (sampled_fds samples)
      → find j (fail_samples samples sessions) ≡ (
          if count j (sampled_fds samples) == 0
          then find j sessions
          else Option.map fail_session (find j sessions))
  find-fail_sessions [] sessions j d = unfold fail_samples in refl
  find-fail_sessions (r ∷ samples) sessions j d =
      let ih = find-fail_sessions samples (fail_one r sessions) j d.1 in
      let one = find-fail_one r j sessions in
      rw (fail_samples-cons r samples sessions) (elim (ℕ_discrete r.fd j) [
        | yes q ↦
            let gone : count j (sampled_fds samples) ≡ 0 =
              ap (λ k. count k (sampled_fds samples)) (sym q)
              ∙ count-Absent r.fd (sampled_fds samples) d.0 in
            ground arith
        | no n ↦ ground arith
      ])

  -- Let no session be sampled twice. After a failed decode every session that was sampled is in
  -- state ERRORED with the error `decode error`, reads no more, and has one error event of its
  -- request, E_RUNTIME_DECODE with the text `decode failed`, behind its output; the rest of it, and
  -- every other session, is as it was.
  pub find-fail_samples :
      (samples : List SampleRef) (sessions : SessionPool D) (j : ℕ)
      → Distinct (sampled_fds samples)
      → find j (fail_samples samples sessions) ≡ (
          if count j (sampled_fds samples) == 0
          then find j sessions
          else Option.map
              (λ (s : ClientSession D). record s {
                last_error = codes "decode error";
                state = SessionState.errored;
                tx =
                    append_error_event s.tx s.request_id
                      (codes "E_RUNTIME_DECODE")
                      (codes "decode failed");
                read_closed = true;
              })
              (find j sessions))
  unfolding fail_session
  find-fail_samples samples sessions j d = find-fail_sessions samples sessions j d
