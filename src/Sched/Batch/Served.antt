-- ===== src/Sched/Batch/Served.antt =====
-- What enacting a plan does to one session: to the map and to the samples.
use uma_serve.Base.{
  ℕ, zero, suc, ◌+◌, ◌≡◌, ◌≢◌, refl, sym, subst, ◌∙◌, inl, inr, true, false, List, [], ◌∷◌, ◌++◌,
  some, arith, ◌==◌, length, get_or, Option, All, All-append, count, Option-cases, Bool-cases,
  ℕ_discrete,
}
use uma_serve.Ipc.Session.{ClientSession, SessionPool, SessionState, find}
use uma_serve.Ipc.Session.Lookup.{IsKeyed, find-store, find-fd}
use uma_serve.Sched.Backend.{BatchToken}
use uma_serve.Sched.Batch.Keyed.{enact_item-IsKeyed}
use uma_serve.Sched.Batch.{
  SampleRef, Batch, push_token, prefill_rounds, enact_decode, enact_session, enact_item, enact,
}
use uma_serve.Sched.Policy.{BatchItem, Phase, prefill, decode}
use uma_serve.Sched.Policy.Once.{fds_of}

abbrev pub sample_fds : List SampleRef → List ℕ
sample_fds [] = []
sample_fds (r ∷ samples) = r.fd ∷ sample_fds samples

sample_fds-append :
    (a : ℕ) (xs : List SampleRef) (r : SampleRef)
    → count a (sample_fds (xs ++ r ∷ [])) ≡ count a (sample_fds xs) + count a (r.fd ∷ [])
sample_fds-append a [] r = omega arith
sample_fds-append a (x ∷ xs) r = omega (arith, sample_fds-append a xs r)

-- So many samples are of a session, and all of them of its DECODE.
pub record SampledAs (a n : ℕ) (samples : List SampleRef) : Type 0 where
  pub times : count a (sample_fds samples) ≡ n
  pub decodes : All (λ r. r.fd ≡ a → r.state_before ≡ SessionState.decode) samples

-- An item of a session is a decode item.
abbrev pub IsDecodeItem : ℕ → BatchItem → Type 0
IsDecodeItem a item = item.fd ≡ a → item.phase ≡ decode

push_token-apart :
    (a n fd : ℕ) (before : SessionState) (t : BatchToken) (b : Batch)
    → fd ≢ a
    → SampledAs a n b.samples
    → SampledAs a n (push_token fd before t b).samples
unfolding push_token
push_token-apart a n fd before t b ne h = elim (Bool-cases t.logits) [
  | inl l ↦
      let r : SampleRef = record {
        fd = fd;
        batch_index = length b.tokens;
        state_before = before;
      } in
      simp l (record {
        times = ground (arith, h.times, sample_fds-append a b.samples r);
        decodes = All-append _ b.samples (r ∷ []) h.decodes (λ e. absurd (ne e), tt);
      })
  | inr l ↦ simp l h
]

module _ {D : Type 0} (a : ℕ) where
  prefill_rounds-apart :
      (m base n j : ℕ) (s : ClientSession D) (b : Batch)
      → s.fd ≢ a
      → SampledAs a m b.samples
      → SampledAs a m (prefill_rounds base n j s b).1.samples
  unfolding prefill_rounds
  prefill_rounds-apart m base zero j s b ne h = h
  prefill_rounds-apart m base (suc n) j s b ne h =
      let t : BatchToken = record {
        token = get_or s.prompt_tokens s.prefill_idx 0;
        pos = base + j;
        seq_id = s.seq;
        logits = n == 0;
      } in
      prefill_rounds-apart m base n (j + 1) (record s { prefill_idx = s.prefill_idx + 1 })
        (push_token s.fd SessionState.prefill t b) ne
        (push_token-apart a m s.fd SessionState.prefill t b ne h)

  enact_session-apart :
      (m : ℕ) (phase : Phase) (n : ℕ) (s : ClientSession D) (b : Batch)
      → s.fd ≢ a
      → SampledAs a m b.samples
      → SampledAs a m (enact_session phase n s b).1.samples
  unfolding enact_session
  enact_session-apart m decode n s b ne h =
      push_token-apart a m s.fd SessionState.decode
        (record { token = s.pending_tok; pos = s.n_past; seq_id = s.seq; logits = true }) b ne h
  enact_session-apart m prefill n s b ne h = prefill_rounds-apart m s.n_past n 0 s b ne h

  -- What enacting leaves: what `find` gives, and the samples.
  abbrev pub Left : Option (ClientSession D) → ℕ → SessionPool D × Batch → Type 0
  Left found m e = (find a e.0 ≡ found) × SampledAs a m e.1.samples

  enact_item-apart :
      (found : Option (ClientSession D)) (m : ℕ) (item : BatchItem) (e : SessionPool D × Batch)
      → IsKeyed e.0
      → item.fd ≢ a
      → Left found m e
      → Left found m (enact_item item e)
  unfolding enact_item
  enact_item-apart found m item (sessions, b) k ne (f, h) =
      elim (Option-cases (find item.fd sessions)) [
        | inl e ↦ rw (enact_item, e) (f, h)
        | inr (s, e) ↦
            let own = find-fd item.fd sessions s k e in
            let s' = (enact_session item.phase item.n_tokens s b).0 in
            rw (enact_item, e)
              (
                ground (arith, f, ne, find-store item.fd a s' sessions),
                enact_session-apart m item.phase item.n_tokens s b (λ x. ne (sym own ∙ x)) h,
              )
      ]

  pub enact-apart :
      (found : Option (ClientSession D)) (m : ℕ) (items : List BatchItem)
      (e : SessionPool D × Batch)
      → IsKeyed e.0
      → count a (fds_of items) ≡ 0
      → Left found m e
      → Left found m (enact items e)
  unfolding enact
  enact-apart found m [] e k c h = h
  enact-apart found m (item ∷ items) e k c h =
      enact-apart found m items (enact_item item e) (enact_item-IsKeyed item e k) (ground arith)
        (enact_item-apart found m item e k (λ x. ground arith) h)

  enact_item-served :
      (s : ClientSession D) (n : ℕ) (e : SessionPool D × Batch)
      → IsKeyed e.0
      → Left (some s) 0 e
      → Left
          (some (record s { has_pending_tok = false }))
          1
          (enact_item (record { fd = a; phase = decode; n_tokens = n }) e)
  unfolding enact_item enact_session enact_decode push_token
  enact_item-served s n (sessions, b) k (f, h) =
      let own = find-fd a sessions s k f in
      let r : SampleRef = record {
        fd = s.fd;
        batch_index = length b.tokens;
        state_before = SessionState.decode;
      } in
      rw (enact_item, f)
        (
          ground (arith, f, find-store a a (record s { has_pending_tok = false }) sessions),
          record {
            times = ground (arith, h.times, own, sample_fds-append a b.samples r);
            decodes = All-append _ b.samples (r ∷ []) h.decodes (λ e. refl, tt);
          },
        )

  -- Of a plan that names a session once, to decode: the session has lost its pending token, and one
  -- sample is of it.
  pub enact-served :
      (s : ClientSession D) (items : List BatchItem) (e : SessionPool D × Batch)
      → IsKeyed e.0
      → count a (fds_of items) ≡ 1
      → All (IsDecodeItem a) items
      → Left (some s) 0 e
      → Left (some (record s { has_pending_tok = false })) 1 (enact items e)
  unfolding enact
  enact-served s [] e k c d h = absurd (omega arith)
  enact-served s (item ∷ items) e k c d h = elim (ℕ_discrete item.fd a) [
    | yes own ↦
        let phase = d.0 own in
        let served : Left (some (record s { has_pending_tok = false })) 1 (enact_item item e) =
          subst
            (λ fd.
              Left (some (record s { has_pending_tok = false })) 1
                (enact_item (record { fd = fd; phase = item.phase; n_tokens = item.n_tokens }) e))
            (sym own)
            (subst
              (λ p.
                Left (some (record s { has_pending_tok = false })) 1
                  (enact_item (record { fd = a; phase = p; n_tokens = item.n_tokens }) e))
              (sym phase) (enact_item-served s item.n_tokens e k h)) in
        enact-apart (some (record s { has_pending_tok = false })) 1 items (enact_item item e)
          (enact_item-IsKeyed item e k) (ground arith) served
    | no other ↦
        enact-served s items (enact_item item e) (enact_item-IsKeyed item e k) (ground arith) d.1
          (enact_item-apart (some s) 0 item e k other h)
  ]
