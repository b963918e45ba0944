-- ===== src/Sched/Tests/Enacted.antt =====
-- The theorems on the estimate, the guard and the batch, at the plan of three sessions.
use uma_serve.Base.{◌≤◌, ◌<◌, ◌^◌, ◌≡◌, ◌⊎◌, refl, [], ◌∷◌, arith, length, All}
use uma_serve.Ipc.Session.{find}
use uma_serve.Sched.Batch.{enact, enact_session, empty_batch}
use uma_serve.Sched.Batch.Chunk.{ids, enact_session-chunk}
use uma_serve.Sched.Batch.Rows.{ones, Refers, enact-IsConsistent}
use uma_serve.Sched.Bmt.{estimate_units}
use uma_serve.Sched.Bmt.Cost.{plan_cost, tokens_cost, Fits, estimate_units-plan_cost}
use uma_serve.Sched.Guard.{Guarded, bmt_guard}
use uma_serve.Sched.Guard.Exact.{IsPlaced, bmt_guard_exact}
use uma_serve.Sched.Policy.{Plan, empty_plan, decode, prefill}
use uma_serve.Sched.Policy.Serves.{decode_tokens, prefill_tokens}
use uma_serve.Sched.Tests.{sessions, decoding, prefilling}

abbrev plan : Plan
plan = record empty_plan {
  items =
      record { fd = 5; phase = decode; n_tokens = 1 }
      ∷ record { fd = 6; phase = prefill; n_tokens = 5 }
      ∷ [];
  decode_tok_count = 1;
  prefill_tok_count = 5;
}

items-IsPlaced : All (IsPlaced sessions 10) plan.items
unfolding find
items-IsPlaced = ((decoding 5, refl), ((prefilling, refl), tt))

items-Fits : All (Fits sessions) plan.items
unfolding find
items-Fits = (λ s e. ground arith, (λ s e. ground arith, tt))

plan-cost : plan_cost sessions plan.items ≡ 19
unfolding plan_cost find tokens_cost
plan-cost = refl

plan-cost_small : plan_cost sessions plan.items < 2 ^ 64
plan-cost_small = omega (arith, plan-cost)

estimate_units-plan_cost_example : estimate_units sessions plan ≡ plan_cost sessions plan.items
estimate_units-plan_cost_example = estimate_units-plan_cost sessions plan items-Fits plan-cost_small

-- A budget of 10 units leaves three tokens of the chunk.
abbrev guarded : Guarded
guarded = bmt_guard sessions 10 plan

guarded_items :
    guarded.plan.items
    ≡ record { fd = 5; phase = decode; n_tokens = 1 }
      ∷ record { fd = 6; phase = prefill; n_tokens = 3 }
      ∷ []
unfolding bmt_guard find estimate_units
guarded_items = refl

bmt_guard_exact_example :
    (guarded.est ≡ plan_cost sessions guarded.plan.items)
    × (decode_tokens guarded.plan.items ≡ 1)
    × (guarded.plan.prefill_tok_count ≡ prefill_tokens guarded.plan.items)
    × ((guarded.est ≤ 10) ⊎ (prefill_tokens guarded.plan.items ≡ 0))
    × ((10 < plan_cost sessions plan.items) ⊎ (guarded.plan.items ≡ plan.items))
bmt_guard_exact_example =
    bmt_guard_exact sessions 10 plan items-IsPlaced items-Fits plan-cost_small refl

enact-IsConsistent_example :
    (length (enact plan.items (sessions, empty_batch)).1.tokens ≤ 6)
    × (ones (enact plan.items (sessions, empty_batch)).1.tokens
        ≡ length (enact plan.items (sessions, empty_batch)).1.samples)
    × All
        (Refers (enact plan.items (sessions, empty_batch)).1.tokens)
        (enact plan.items (sessions, empty_batch)).1.samples
enact-IsConsistent_example = enact-IsConsistent plan.items sessions

enact_session-chunk_example :
    ((enact_session prefill 4 prefilling empty_batch).0
      ≡ record prefilling { prefill_idx = 4; n_past = 4 })
    × (ids (enact_session prefill 4 prefilling empty_batch).1 ≡ 1 ∷ 2 ∷ 3 ∷ 4 ∷ [])
enact_session-chunk_example = enact_session-chunk 4 prefilling empty_batch (omega arith)
