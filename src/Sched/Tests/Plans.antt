-- ===== src/Sched/Tests/Plans.antt =====
-- The theorems on plans, at the plan of three sessions.
use uma_serve.Base.{
  ℕ, ◌+◌, ◌≤◌, ◌<◌, ◌≡◌, refl, List, [], ◌∷◌, ◌++◌, map, arith, take, count, All, Distinct,
}
use uma_serve.Ipc.Session.{find}
use uma_serve.Ipc.Session.Lookup.{IsKeyed}
use uma_serve.Sched.Policy.{
  BatchItem, Plan, decode, prefill, schedule_tick, decode_pool, prefill_pool, rotation, chunk_of,
}
use uma_serve.Sched.Policy.Budget.{schedule_tick_budget, schedule_tick-Serves}
use uma_serve.Sched.Policy.DecodeFirst.{IsPrefillItem, decode_item, schedule_tick_decode_first}
use uma_serve.Sched.Policy.Once.{CursorFits, fds_of, schedule_tick_once}
use uma_serve.Sched.Policy.Rotation.{count-rotation}
use uma_serve.Sched.Policy.RoundRobin.{Ticks, plan_at, schedule_tick_round_robin}
use uma_serve.Sched.Policy.Serves.{decode_tokens, prefill_tokens, Serves}
use uma_serve.Sched.Tests.{sessions}

sessions-IsKeyed : IsKeyed sessions
sessions-IsKeyed = record {
  own = (refl, (refl, (refl, tt)));
  distinct = ((omega arith, (omega arith, tt)), ((omega arith, tt), (tt, tt)));
}

decode_pool-CursorFits : CursorFits 1 (decode_pool sessions)
unfolding decode_pool
decode_pool-CursorFits = omega arith

prefill_pool-CursorFits : CursorFits 0 (prefill_pool sessions)
unfolding prefill_pool
prefill_pool-CursorFits = omega arith

decode_pool-sessions : decode_pool sessions ≡ 4 ∷ 5 ∷ []
unfolding decode_pool
decode_pool-sessions = refl

abbrev plan : Plan
plan = schedule_tick sessions 8 7 1 0

-- The plan itself: both sessions in DECODE from the cursor on, then what is left of the target.
plan_items :
    plan.items
    ≡ record { fd = 5; phase = decode; n_tokens = 1 }
      ∷ record { fd = 4; phase = decode; n_tokens = 1 }
      ∷ record { fd = 6; phase = prefill; n_tokens = 5 }
      ∷ []
unfolding schedule_tick rotation find chunk_of
plan_items = refl

schedule_tick_budget_example :
    (plan.decode_tok_count ≡ decode_tokens plan.items)
    × (plan.prefill_tok_count ≡ prefill_tokens plan.items)
    × (plan.decode_tok_count + plan.prefill_tok_count ≤ 7)
    × (plan.decode_tok_count + plan.prefill_tok_count ≤ 8)
schedule_tick_budget_example = schedule_tick_budget sessions 8 7 1 0 sessions-IsKeyed

schedule_tick-Serves_example : All (Serves sessions) plan.items
schedule_tick-Serves_example = schedule_tick-Serves sessions 8 7 1 0 sessions-IsKeyed

schedule_tick_once_example : Distinct (fds_of plan.items)
schedule_tick_once_example =
    schedule_tick_once sessions 8 7 1 0 sessions-IsKeyed decode_pool-CursorFits
      prefill_pool-CursorFits

schedule_tick_decode_first_example :
    (rest : List BatchItem) × (plan.items
      ≡ map decode_item (take 7 (rotation (decode_pool sessions) 1)) ++ rest)
    × All IsPrefillItem rest
schedule_tick_decode_first_example = schedule_tick_decode_first sessions 8 7 1 0

count-rotation_example : count 5 (rotation (4 ∷ 5 ∷ 6 ∷ []) 4) ≡ 1
count-rotation_example = count-rotation (4 ∷ 5 ∷ 6 ∷ []) 4 (omega arith) 5

abbrev ticks : Ticks ℕ
ticks = record { sessions = λ k. sessions; target = λ k. 7; rr_prefill = λ k. k }

schedule_tick_round_robin_example :
    (k : ℕ) × (k < 2)
    × ((rest : List BatchItem) × ((plan_at ticks 8 1 k).items ≡ decode_item 4 ∷ rest))
schedule_tick_round_robin_example =
    schedule_tick_round_robin ticks 8 1 (4 ∷ 5 ∷ []) (λ k. decode_pool-sessions) (omega arith)
      (λ k. omega arith) (omega arith) (omega arith) 0 refl
