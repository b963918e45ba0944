-- ===== src/Sched/Batch.antt =====
-- sched/scheduler.cpp, the middle of `tick`: the plan is enacted. The parallel arrays of the batch,
-- which grow together, are one list of entries.
pub mod Once
pub mod Rows
pub mod Chunk
pub mod Keyed
pub mod Output
pub mod Served
use uma_serve.Base.{
  ℕ, zero, suc, ◌+◌, ◌-◌, Bool, true, false, List, [], ◌∷◌, ◌++◌, Option, none, some, ◌==◌,
  if◌then◌else◌, length, get_or,
}
use uma_serve.Ipc.Session.{ClientSession, SessionPool, SessionState, find, store}
use uma_serve.Sched.Backend.{BatchToken}
use uma_serve.Sched.Policy.{BatchItem, Phase, prefill, decode}

pub record SampleRef : Type 0 where
  pub fd : ℕ
  pub batch_index : ℕ
  pub state_before : SessionState

-- The arrays of the batch and `samples`.
pub record Batch : Type 0 where
  pub tokens : List BatchToken
  pub samples : List SampleRef

abbrev pub empty_batch : Batch
empty_batch = record { tokens = []; samples = [] }

-- An entry is appended, and a reference to it where its logits are wanted.
unfoldable pub push_token : ℕ → SessionState → BatchToken → Batch → Batch
push_token fd state_before t b = record {
  tokens = b.tokens ++ t ∷ [];
  samples =
      if t.logits
      then b.samples
        ++ (record { fd = fd; batch_index = length b.tokens; state_before = state_before } ∷ [])
      else b.samples;
}

module _ {D : Type 0} where
  pub enact_decode : ClientSession D → Batch → ClientSession D × Batch
  unfolding push_token
  enact_decode s b = (
    record s { has_pending_tok = false },
    push_token s.fd SessionState.decode
        (record { token = s.pending_tok; pos = s.n_past; seq_id = s.seq; logits = true }) b,
  )

  -- The loop over the chunk: `n` rounds are left, `j` is the next. The next prompt token is the one
  -- at `prefill_idx`; behind the prompt's end, where the source is undefined, it is 0.
  pub prefill_rounds : ℕ → ℕ → ℕ → ClientSession D → Batch → ClientSession D × Batch
  unfolding push_token
  prefill_rounds base_pos zero j s b = (s, b)
  prefill_rounds base_pos (suc n) j s b =
      prefill_rounds base_pos n (j + 1) (record s { prefill_idx = s.prefill_idx + 1 })
        (push_token s.fd SessionState.prefill
          (record {
            token = get_or s.prompt_tokens s.prefill_idx 0;
            pos = base_pos + j;
            seq_id = s.seq;
            logits = n == 0;
          })
          b)

  pub enact_prefill : ℕ → ClientSession D → Batch → ClientSession D × Batch
  unfolding prefill_rounds
  enact_prefill chunk s b =
      let base_pos = s.n_past in
      let (s', b') = prefill_rounds base_pos chunk 0 s b in
      (record s' { n_past = base_pos + chunk }, b')

  pub enact_session : Phase → ℕ → ClientSession D → Batch → ClientSession D × Batch
  unfolding enact_decode enact_prefill
  enact_session decode n s b = enact_decode s b
  enact_session prefill n s b = enact_prefill n s b

  pub enact_item : BatchItem → SessionPool D × Batch → SessionPool D × Batch
  unfolding enact_session
  enact_item item (sessions, b) = elim (find item.fd sessions) [
    | none ↦ (sessions, b)
    | some s ↦
        let (s', b') = enact_session item.phase item.n_tokens s b in (store item.fd s' sessions, b')
  ]

  unfoldable pub enact : List BatchItem → SessionPool D × Batch → SessionPool D × Batch
  unfolding enact_item
  enact [] e = e
  enact (item ∷ items) e = enact items (enact_item item e)
