-- ===== src/Sched/Results/Sampled.antt =====
-- A response, sample by sample: it ends, and how many tokens it has.
use uma_serve.Base.{
  ℕ, ◌+◌, ◌%◌, ◌^◌, ◌≤◌, ◌<◌, ◌≡◌, refl, ◌⊎◌, inl, inr, false, List, [], ◌∷◌, Option, arith,
  if◌then◌else◌, Bytes, codes, length, All,
}
use uma_serve.Ipc.Protocol.{append_eos_event}
use uma_serve.Ipc.Session.{ClientSession, decode, prefill, stream, is_decode}
use uma_serve.Metrics.{Metrics}
use uma_serve.Sched.Backend.{Backend}
use uma_serve.Sched.Results.{after_prefill, sampled}

module _ (backend : Backend) (ctx : backend.Context) (m : Option Metrics)
    (max_tokens now_ns : ℕ) where
  open backend use {Double, vocab}

  -- The session after one more sample of a DECODE row.
  abbrev pub after_decode : ℕ → ClientSession Double → ClientSession Double
  after_decode new_id s = (sampled backend decode max_tokens now_ns new_id s ctx m).0

  -- The samples of one response, as long as the session is in DECODE.
  pub decode_run : List ℕ → ClientSession Double → ClientSession Double
  decode_run [] s = s
  decode_run (new_id ∷ ids) s =
      if is_decode s.state then decode_run ids (after_decode new_id s) else s

  -- One sample ends the response or counts one token more.
  after_decode_cases :
      (new_id : ℕ) (s : ClientSession Double)
      → ((after_decode new_id s).state ≡ stream)
        ⊎ (((after_decode new_id s).state ≡ decode)
            × (s.generated_count < max_tokens)
            × ((after_decode new_id s).generated_count ≡ (s.generated_count + 1) % 2 ^ 32)
            × ((after_decode new_id s).n_past ≡ s.n_past + 1))
  unfolding sampled
  after_decode_cases new_id s = ground arith

  -- A token that does not end the generation, below the limit.
  after_decode_continues :
      (new_id : ℕ) (s : ClientSession Double)
      → vocab.llama_vocab_is_eog new_id ≡ false
      → s.generated_count < max_tokens
      → ((after_decode new_id s).state ≡ decode)
        × ((after_decode new_id s).generated_count ≡ (s.generated_count + 1) % 2 ^ 32)
        × ((after_decode new_id s).n_past ≡ s.n_past + 1)
  unfolding sampled
  after_decode_continues new_id s h lt = ground arith

  after_decode_limit :
      (new_id : ℕ) (s : ClientSession Double)
      → s.generated_count ≡ max_tokens
      → (after_decode new_id s).tx ≡ append_eos_event s.tx s.request_id (codes "length")
  unfolding sampled
  after_decode_limit new_id s h = ground arith

  decode_run-stream :
      (ids : List ℕ) (s : ClientSession Double) → s.state ≡ stream → decode_run ids s ≡ s
  unfolding decode_run
  decode_run-stream [] s h = refl
  decode_run-stream (new_id ∷ ids) s h = rw h

  decode_run-cons :
      (new_id : ℕ) (ids : List ℕ) (s : ClientSession Double)
      → s.state ≡ decode
      → decode_run (new_id ∷ ids) s ≡ decode_run ids (after_decode new_id s)
  unfolding decode_run
  decode_run-cons new_id ids s h = ground arith

  -- A response ends: let the limit be below 2^32 and not passed yet. Then whatever tokens are
  -- sampled, a session in DECODE has left it for STREAM after one sample more than the tokens that
  -- are still allowed.
  pub decode_run_ends :
      (ids : List ℕ) (s : ClientSession Double)
      → max_tokens < 2 ^ 32
      → s.state ≡ decode
      → s.generated_count ≤ max_tokens
      → max_tokens < s.generated_count + length ids
      → (decode_run ids s).state ≡ stream
  decode_run_ends [] s w d g h = absurd (omega arith)
  decode_run_ends (new_id ∷ ids) s w d g h =
      rw (decode_run-cons new_id ids s d) (elim (after_decode_cases new_id s) [
        | inl done ↦ rw (decode_run-stream ids (after_decode new_id s) done) done
        | inr (d', lt, g', _) ↦
            decode_run_ends ids (after_decode new_id s) w d' (omega arith) (omega arith)
      ])

  decode_run_counts :
      (ids : List ℕ) (s : ClientSession Double)
      → max_tokens < 2 ^ 32
      → s.state ≡ decode
      → All (λ new_id. vocab.llama_vocab_is_eog new_id ≡ false) ids
      → s.generated_count + length ids ≡ max_tokens
      → ((decode_run ids s).state ≡ decode)
        × ((decode_run ids s).generated_count ≡ max_tokens)
        × ((decode_run ids s).n_past ≡ s.n_past + length ids)
  decode_run_counts [] s w d n h = unfold decode_run in (d, omega arith, omega arith)
  decode_run_counts (new_id ∷ ids) s w d n h =
      let (d', g', p') = after_decode_continues new_id s n.0 (omega arith) in
      let ih = decode_run_counts ids (after_decode new_id s) w d' n.1 (omega arith) in
      rw (decode_run-cons new_id ids s d) (ih.0, ih.1, omega (arith, ih.2))

  -- Let the limit be below 2^32 and the count of the session 0. The limit counts the tokens behind
  -- the first: a response whose first token, from the prompt, is followed by as many samples as
  -- the limit says, none of which ends the generation, is still in DECODE, each sample having
  -- advanced its position by one; the sample after these ends it, whatever it is, with the reason
  -- "length". So a response may have one token more than the limit.
  pub response_length :
      (piece : Bytes) (first last : ℕ) (ids : List ℕ) (s : ClientSession Double)
      → max_tokens < 2 ^ 32
      → s.generated_count ≡ 0
      → All (λ new_id. vocab.llama_vocab_is_eog new_id ≡ false) ids
      → length ids ≡ max_tokens
      → let r = decode_run ids (after_prefill piece first now_ns s) in
        (r.state ≡ decode)
        × (r.n_past ≡ s.n_past + max_tokens)
        × ((after_decode last r).state ≡ stream)
        × ((after_decode last r).tx ≡ append_eos_event r.tx r.request_id (codes "length"))
  response_length piece first last ids s w g n h =
      let f = after_prefill piece first now_ns s in
      let start = after_prefill_lem piece first s in
      let (d, c, p) = decode_run_counts ids f w start.0 n (omega (arith, start.1)) in
      let r = decode_run ids f in
      (d, omega (arith, start.2), stops last r c, after_decode_limit last r c)
    where
      after_prefill_lem :
          (piece : Bytes) (first : ℕ) (s : ClientSession Double)
          → ((after_prefill piece first now_ns s).state ≡ decode)
            × ((after_prefill piece first now_ns s).generated_count ≡ s.generated_count)
            × ((after_prefill piece first now_ns s).n_past ≡ s.n_past)
      after_prefill_lem piece first s = unfold after_prefill in ground arith

      stops :
          (last : ℕ) (r : ClientSession Double)
          → r.generated_count ≡ max_tokens
          → (after_decode last r).state ≡ stream
      stops last r e = elim (after_decode_cases last r) [
        | inl done ↦ done
        | inr (_, lt, _, _) ↦ absurd (omega arith)
      ]

  -- The sample of a PREFILL row: the session goes to DECODE, and its prompt and its index into the
  -- prompt stay.
  pub sampled_prefill :
      (new_id : ℕ) (s : ClientSession Double)
      → let s' = (sampled backend prefill max_tokens now_ns new_id s ctx m).0 in
        (s'.state ≡ decode)
        × (s'.prompt_tokens ≡ s.prompt_tokens)
        × (s'.prefill_idx ≡ s.prefill_idx)
        × (s'.n_past ≡ s.n_past)
  unfolding sampled
  sampled_prefill new_id s = ground arith
