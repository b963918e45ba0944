-- ===== src/Sched/Batch/Chunk.antt =====
-- A prefill chunk: the slice of the prompt that goes into the batch.
use uma_serve.Base.{
  ℕ, zero, suc, ◌+◌, ◌≤◌, ◌<◌, ◌≡◌, refl, sym, ap, ◌∙◌, List, [], ◌∷◌, ◌++◌, append-nil,
  append_assoc, map, arith, length, take, drop, get_or, ◌==◌,
}
use mathlib.Core.List.{map-append}
use uma_serve.Ipc.Session.{ClientSession, SessionState}
use uma_serve.Sched.Backend.{BatchToken}
use uma_serve.Sched.Batch.{Batch, push_token, prefill_rounds, enact_session}
use uma_serve.Sched.Policy.{prefill}

-- The tokens of the batch, in order.
abbrev pub ids : Batch → List ℕ
ids b = map (λ t. t.token) b.tokens

ids-push_token :
    (fd : ℕ) (before : SessionState) (t : BatchToken) (b : Batch)
    → ids (push_token fd before t b) ≡ ids b ++ t.token ∷ []
unfolding push_token
ids-push_token fd before t b = map-append _ b.tokens (t ∷ [])

take-suc {ℓ} :
    {A : Type ℓ} (xs : List A) (i n : ℕ) (d : A)
    → i < length xs
    → take (suc n) (drop i xs) ≡ get_or xs i d ∷ take n (drop (i + 1) xs)
take-suc [] i n d h = absurd (omega arith)
take-suc (x ∷ xs) zero n d h = refl
take-suc (x ∷ xs) (suc i) n d h =
    let e : suc i + 1 ≡ suc (i + 1) = omega arith in rw e (take-suc xs i n d (omega arith))

module _ {D : Type 0} where
  prefill_rounds_lem :
      (base_pos n j : ℕ) (s : ClientSession D) (b : Batch)
      → s.prefill_idx + n ≤ length s.prompt_tokens
      → let out = prefill_rounds base_pos n j s b in
        (out.0 ≡ record s { prefill_idx = s.prefill_idx + n })
        × (ids out.1 ≡ ids b ++ take n (drop s.prefill_idx s.prompt_tokens))
  unfolding prefill_rounds
  prefill_rounds_lem base_pos zero j s b h =
      (ap (λ k. record s { prefill_idx = k }) (omega arith), sym (append-nil (ids b)))
  prefill_rounds_lem base_pos (suc n) j s b h =
      let s' = record s { prefill_idx = s.prefill_idx + 1 } in
      let t : BatchToken = record {
        token = get_or s.prompt_tokens s.prefill_idx 0;
        pos = base_pos + j;
        seq_id = s.seq;
        logits = n == 0;
      } in
      let b' = push_token s.fd SessionState.prefill t b in
      let (e, tokens) = prefill_rounds_lem base_pos n (j + 1) s' b' (omega arith) in
      let rest = take n (drop (s.prefill_idx + 1) s.prompt_tokens) in
      (
        e ∙ ap (λ k. record s { prefill_idx = k }) (omega arith),
        tokens
            ∙ ap (λ xs. xs ++ rest) (ids-push_token s.fd SessionState.prefill t b)
            ∙ append_assoc (ids b) (t.token ∷ []) rest
            ∙ ap (λ xs. ids b ++ xs)
                (sym (take-suc s.prompt_tokens s.prefill_idx n 0 (omega arith))),
      )

  -- A chunk that the prompt has room for puts the next `n` tokens of the prompt, in order, behind
  -- the batch; of the session only the index into the prompt and the position move on, by `n`.
  pub enact_session-chunk :
      (n : ℕ) (s : ClientSession D) (b : Batch)
      → s.prefill_idx + n ≤ length s.prompt_tokens
      → let out = enact_session prefill n s b in
        (out.0 ≡ record s { prefill_idx = s.prefill_idx + n; n_past = s.n_past + n })
        × (ids out.1 ≡ ids b ++ take n (drop s.prefill_idx s.prompt_tokens))
  unfolding enact_session
  enact_session-chunk n s b h =
      let (e, t) = prefill_rounds_lem s.n_past n 0 s b h in
      (ap (λ (v : ClientSession D). record v { n_past = s.n_past + n }) e, t)
