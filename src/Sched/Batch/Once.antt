-- ===== src/Sched/Batch/Once.antt =====
-- A plan samples a session at most as often as it names it.
use uma_serve.Base.{
  ℕ, zero, suc, ◌+◌, ◌≤◌, ◌≡◌, subst, inl, inr, List, [], ◌∷◌, ◌++◌, map, arith, ◌==◌,
  if◌then◌else◌, count, Distinct, count-Distinct, get_or, length, Option-cases, Bool-cases, true,
}
use uma_serve.Ipc.Session.{ClientSession, SessionPool, SessionState, find}
use uma_serve.Ipc.Session.Lookup.{IsKeyed, find-fd}
use uma_serve.Sched.Backend.{BatchToken}
use uma_serve.Sched.Batch.Keyed.{enact_item-IsKeyed}
use uma_serve.Sched.Batch.{
  SampleRef, Batch, empty_batch, push_token, prefill_rounds, enact_session, enact_item, enact,
}
use uma_serve.Sched.Policy.{BatchItem, Phase, prefill, decode}
use uma_serve.Sched.Policy.Once.{fds_of}

-- How often a session is sampled.
abbrev pub sampled_times : ℕ → List SampleRef → ℕ
sampled_times a samples = count a (map (λ (r : SampleRef). r.fd) samples)

sampled_times-append :
    (a : ℕ) (xs : List SampleRef) (r : SampleRef)
    → sampled_times a (xs ++ r ∷ []) ≡ sampled_times a xs + count a (r.fd ∷ [])
sampled_times-append a [] r = omega arith
sampled_times-append a (x ∷ xs) r = omega (arith, sampled_times-append a xs r)

push_token-times :
    (a fd : ℕ) (before : SessionState) (t : BatchToken) (b : Batch)
    → sampled_times a (push_token fd before t b).samples
      ≡ sampled_times a b.samples + (if t.logits then count a (fd ∷ []) else 0)
unfolding push_token
push_token-times a fd before t b = elim (Bool-cases t.logits) [
  | inl l ↦
      let r : SampleRef = record {
        fd = fd;
        batch_index = length b.tokens;
        state_before = before;
      } in
      simp l (sampled_times-append a b.samples r)
  | inr l ↦ simp l (omega arith)
]

module _ {D : Type 0} (a : ℕ) where
  -- Only the last token of a chunk is sampled.
  prefill_rounds-times :
      (base n j : ℕ) (s : ClientSession D) (b : Batch)
      → sampled_times a (prefill_rounds base n j s b).1.samples
        ≤ sampled_times a b.samples + (if n == 0 then 0 else count a (s.fd ∷ []))
  unfolding prefill_rounds
  prefill_rounds-times base zero j s b = omega arith
  prefill_rounds-times base (suc n) j s b =
      let t : BatchToken = record {
        token = get_or s.prompt_tokens s.prefill_idx 0;
        pos = base + j;
        seq_id = s.seq;
        logits = n == 0;
      } in
      let pushed = push_token-times a s.fd SessionState.prefill t b in
      let rest =
        prefill_rounds-times base n (j + 1) (record s { prefill_idx = s.prefill_idx + 1 })
          (push_token s.fd SessionState.prefill t b) in
      ground (arith, pushed, rest)

  enact_session-times :
      (phase : Phase) (n : ℕ) (s : ClientSession D) (b : Batch)
      → sampled_times a (enact_session phase n s b).1.samples
        ≤ sampled_times a b.samples + count a (s.fd ∷ [])
  unfolding enact_session
  enact_session-times decode n s b =
      let t : BatchToken = record {
        token = s.pending_tok;
        pos = s.n_past;
        seq_id = s.seq;
        logits = true;
      } in
      omega (arith, push_token-times a s.fd SessionState.decode t b)
  enact_session-times prefill n s b = ground (arith, prefill_rounds-times s.n_past n 0 s b)

  enact_item-times :
      (item : BatchItem) (e : SessionPool D × Batch)
      → IsKeyed e.0
      → sampled_times a (enact_item item e).1.samples
        ≤ sampled_times a e.1.samples + count a (item.fd ∷ [])
  unfolding enact_item
  enact_item-times item (sessions, b) k = elim (Option-cases (find item.fd sessions)) [
    | inl e ↦ rw (enact_item, e) (omega arith)
    | inr (s, e) ↦
        rw (enact_item, e)
          (subst
            (λ fd.
              sampled_times a (enact_session item.phase item.n_tokens s b).1.samples
              ≤ sampled_times a b.samples + count a (fd ∷ []))
            (find-fd item.fd sessions s k e) (enact_session-times item.phase item.n_tokens s b))
  ]

  pub enact-times :
      (items : List BatchItem) (e : SessionPool D × Batch)
      → IsKeyed e.0
      → sampled_times a (enact items e).1.samples
        ≤ sampled_times a e.1.samples + count a (fds_of items)
  unfolding enact
  enact-times [] e k = omega arith
  enact-times (item ∷ items) e k = omega (
    arith,
    enact_item-times item e k,
    enact-times items (enact_item item e) (enact_item-IsKeyed item e k),
  )

-- A plan that names no session twice samples none twice.
pub enact-Distinct :
    {D : Type 0} (items : List BatchItem) (sessions : SessionPool D)
    → IsKeyed sessions
    → ((a : ℕ) → count a (fds_of items) ≤ 1)
    → Distinct (map (λ (r : SampleRef). r.fd) (enact items (sessions, empty_batch)).1.samples)
enact-Distinct items sessions k once =
    count-Distinct _ (λ a. omega (arith, once a, enact-times a items (sessions, empty_batch) k))
