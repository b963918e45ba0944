-- ===== src/Sched/Tests/Sampling.antt =====
-- The theorems on whole ticks and on responses, with the small backend.
use uma_serve.Base.{
  ℕ, ◌≤◌, ◌<◌, ◌≡◌, refl, true, false, List, [], ◌∷◌, none, some, arith, length, count, ◌==◌,
  if◌then◌else◌, codes,
}
use uma_serve.Ipc.Protocol.{append_eos_event, append_error_event}
use uma_serve.Ipc.Session.{ClientSession, SessionState, find, store}
use uma_serve.Ipc.Session.Lookup.{IsKeyed}
use uma_serve.Sched.Batch.{SampleRef, enact, enact_session, empty_batch}
use uma_serve.Sched.Bmt.{estimate_units}
use uma_serve.Sched.Guard.{bmt_guard}
use uma_serve.Sched.Policy.Once.{CursorFits}
use uma_serve.Sched.Policy.{
  decode_pool, prefill_pool, prefill, chunk_of, is_prefill_ready, schedule_tick, rotation,
}
use uma_serve.Sched.Results.{fail_samples, after_prefill, sampled}
use uma_serve.Sched.Results.Failure.{sampled_fds, find-fail_samples}
use uma_serve.Sched.Results.Sampled.{decode_run, after_decode, decode_run_ends, response_length}
use uma_serve.Sched.Scheduler.{planned, tick}
use uma_serve.Sched.Scheduler.Capacity.{tick_capacity}
use uma_serve.Sched.Scheduler.Failed.{enacted, tick_failed}
use uma_serve.Sched.Scheduler.LongPrompt.{long_prompt_cut}
use uma_serve.Sched.Tests.{backend, scheduler, sessions, decoding, prefilling}

sessions-IsKeyed : IsKeyed sessions
sessions-IsKeyed = record {
  own = (refl, (refl, (refl, tt)));
  distinct = ((omega arith, (omega arith, tt)), ((omega arith, tt), (tt, tt)));
}

tick_capacity_example :
    (length
        (enact
          (planned (backend true) (scheduler true) sessions).0.items
          (sessions, empty_batch)).1.tokens
      ≤ 8)
    × (length
          (enact
            (planned (backend true) (scheduler true) sessions).0.items
            (sessions, empty_batch)).1.tokens
        ≤ 8)
tick_capacity_example = tick_capacity (backend true) (scheduler true) sessions sessions-IsKeyed

-- The failing backend has a batch of eight tokens to decode.
enacted_tokens : 0 < length (enacted (backend false) (scheduler false) sessions).1.tokens
unfolding planned enact schedule_tick bmt_guard find rotation chunk_of estimate_units store
enacted_tokens = omega arith

-- The decode session 5 of that batch: its token is taken, and then the decoding fails.
abbrev taken : ClientSession ℕ
taken = record (decoding 5) { has_pending_tok = false }

abbrev errored : ClientSession ℕ → ClientSession ℕ
errored s = record s {
  last_error = codes "decode error";
  state = SessionState.errored;
  tx = append_error_event s.tx (codes "r1") (codes "E_RUNTIME_DECODE") (codes "decode failed");
  read_closed = true;
}

cursors_fit : CursorFits 1 (decode_pool sessions) × CursorFits 0 (prefill_pool sessions)
unfolding decode_pool prefill_pool
cursors_fit = (omega arith, omega arith)

find-enacted : find 5 (enacted (backend false) (scheduler false) sessions).0 ≡ some taken
unfolding planned enact schedule_tick bmt_guard find rotation chunk_of estimate_units store
find-enacted = refl

tick_failed_example :
    let after = tick (backend false) (scheduler false) sessions 9 1 in
    let fds = sampled_fds (enacted (backend false) (scheduler false) sessions).1.samples in
    (after.result_fds ≡ [])
    × (find 5 after.sessions ≡ some (if count 5 fds == 0 then taken else errored taken))
tick_failed_example =
    tick_failed (backend false) (scheduler false) sessions 9 1 5 taken sessions-IsKeyed
      cursors_fit.0 cursors_fit.1 enacted_tokens refl find-enacted

abbrev samples : List SampleRef
samples =
    record { fd = 4; batch_index = 0; state_before = SessionState.decode }
    ∷ record { fd = 5; batch_index = 1; state_before = SessionState.decode }
    ∷ []

find-fail_samples_example :
    find 5 (fail_samples samples sessions)
    ≡ (if count 5 (sampled_fds samples) == 0 then find 5 sessions else some (errored (decoding 5)))
unfolding find
find-fail_samples_example = find-fail_samples samples sessions 5 ((omega arith, tt), (tt, tt))

decode_run_ends_example :
    (decode_run (backend true) 0 none 2 9 (7 ∷ 8 ∷ 9 ∷ []) (decoding 4)).state ≡ SessionState.stream
decode_run_ends_example =
    decode_run_ends (backend true) 0 none 2 9 (7 ∷ 8 ∷ 9 ∷ []) (decoding 4) (omega arith) refl
      (omega arith) (omega arith)

-- A limit of two tokens, and the run behind the first.
abbrev response : ClientSession ℕ
response = decode_run (backend true) 0 none 2 9 (8 ∷ 9 ∷ []) (after_prefill (7 ∷ []) 7 9 prefilling)

response_length_example :
    (response.state ≡ SessionState.decode)
    × (response.n_past ≡ 2)
    × ((after_decode (backend true) 0 none 2 9 10 response).state ≡ SessionState.stream)
    × ((after_decode (backend true) 0 none 2 9 10 response).tx
        ≡ append_eos_event response.tx response.request_id (codes "length"))
response_length_example =
    response_length (backend true) 0 none 2 9 (7 ∷ []) 7 10 (8 ∷ 9 ∷ []) prefilling (omega arith)
      refl (refl, (refl, tt)) refl

abbrev first_sample : ClientSession ℕ
first_sample = (sampled (backend true) SessionState.prefill 2 9 7 prefilling 0 none).0

-- The session whose prompt has two tokens more than the burst, after its first chunk and sample.
abbrev cut : ClientSession ℕ
cut =
    (sampled (backend true) SessionState.prefill 2 9 7
      (enact_session prefill (chunk_of prefilling 64) prefilling empty_batch).0 0 none).0

long_prompt_cut_example :
    (cut.state ≡ SessionState.decode)
    × (cut.prompt_tokens ≡ prefilling.prompt_tokens)
    × (cut.prefill_idx < length cut.prompt_tokens)
    × (is_prefill_ready cut ≡ false)
long_prompt_cut_example =
    long_prompt_cut (backend true) 0 none 2 9 prefilling empty_batch 64 7 refl (omega arith)
