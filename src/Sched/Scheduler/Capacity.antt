-- ===== src/Sched/Scheduler/Capacity.antt =====
-- The batch that a tick hands to `llama_decode` fits the context's capacity.
use uma_serve.Base.{ℕ, ◌+◌, ◌≤◌, ◌≡◌, inl, inr, List, [], ◌∷◌, arith, ◌==◌, length, All, Bool-cases}
use uma_serve.Ipc.Session.{SessionPool}
use uma_serve.Ipc.Session.Lookup.{IsKeyed}
use uma_serve.Sched.Backend.{Backend}
use uma_serve.Sched.Batch.Rows.{enact-IsConsistent}
use uma_serve.Sched.Batch.{empty_batch, enact}
use uma_serve.Sched.Guard.Shrinks.{bmt_guard-entries}
use uma_serve.Sched.Policy.Budget.{schedule_tick_budget, schedule_tick-Serves}
use uma_serve.Sched.Policy.Serves.{decode_tokens, prefill_tokens, entries, entries_of, Serves}
use uma_serve.Sched.Policy.{BatchItem, Phase, prefill, decode, schedule_tick}
use uma_serve.Sched.Scheduler.{Scheduler, planned}

module _ {D : Type 0} (sessions : SessionPool D) where
  entries_of-Serves :
      (items : List BatchItem)
      → All (Serves sessions) items
      → entries_of items ≡ decode_tokens items + prefill_tokens items
  entries_of-Serves [] a = omega arith
  entries_of-Serves (item ∷ items) a =
      split item.phase item.n_tokens a.0 (entries_of-Serves items a.1)
    where
      split :
          (phase : Phase) (n : ℕ)
          → Serves sessions (record { fd = item.fd; phase = phase; n_tokens = n })
          → entries_of items ≡ decode_tokens items + prefill_tokens items
          → entries phase n + entries_of items
            ≡ (elim phase [ decode ↦ n | prefill ↦ 0 ] + decode_tokens items)
              + (elim phase [ decode ↦ 0 | prefill ↦ n ] + prefill_tokens items)
      split decode n (s, e, (r, one)) ih = omega arith
      split prefill n h ih = omega arith

module _ (backend : Backend) (sched : Scheduler backend)
    (sessions : SessionPool backend.Double) where
  planned-entries :
      let plan =
        schedule_tick sessions sched.batch_cap sched.target_batch sched.rr_decode_idx
          sched.rr_prefill_idx in
      entries_of (planned backend sched sessions).0.items ≤ entries_of plan.items
  unfolding planned
  planned-entries = elim (Bool-cases (sched.config.bmt_budget_units == 0)) [
    | inl off ↦ rw off (omega arith)
    | inr on ↦ rw on (bmt_guard-entries sessions sched.config.bmt_budget_units _)
  ]

  -- In a map that holds each session under its own descriptor, the batch of a tick is no longer
  -- than `batch_cap_`, and than the target, whatever the guard does: the source's assertion on
  -- the batch's size holds.
  pub tick_capacity :
      IsKeyed sessions
      → let b = (enact (planned backend sched sessions).0.items (sessions, empty_batch)).1 in
        (length b.tokens ≤ sched.batch_cap) × (length b.tokens ≤ sched.target_batch)
  tick_capacity keyed =
      let plan =
        schedule_tick sessions sched.batch_cap sched.target_batch sched.rr_decode_idx
          sched.rr_prefill_idx in
      let (d, p, target, cap) =
        schedule_tick_budget sessions sched.batch_cap sched.target_batch sched.rr_decode_idx
          sched.rr_prefill_idx keyed in
      let serves =
        schedule_tick-Serves sessions sched.batch_cap sched.target_batch sched.rr_decode_idx
          sched.rr_prefill_idx keyed in
      let size = (enact-IsConsistent (planned backend sched sessions).0.items sessions).0 in
      let sums = entries_of-Serves sessions plan.items serves in
      (omega (arith, planned-entries), omega (arith, planned-entries))
