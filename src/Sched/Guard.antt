-- ===== src/Sched/Guard.antt =====
-- sched/scheduler.cpp, the first part of `tick`: the guard that trims prefill chunks until the
-- estimate is within the budget.
pub mod Exact
pub mod Shrinks
pub mod Named
use uma_serve.Base.{
  ℕ, zero, suc, ◌+◌, ◌-◌, ◌%◌, ◌^◌, Bool, true, false, List, [], ◌∷◌, Option, none, some, ltb,
  if◌then◌else◌,
}
use uma_serve.Ipc.Session.{ClientSession, SessionPool, find}
use uma_serve.Metrics.{Metrics}
use uma_serve.Sched.Bmt.{u64, estimate_units}
use uma_serve.Sched.Policy.{BatchItem, Plan, Phase, prefill, decode}

-- The variables that the trimming loops write, beside the items. The counter, an `int32_t`, stops
-- at 0 here; in a plan of the policy it counts at least the tokens that are taken away.
pub record Trim : Type 0 where
  pub est : ℕ
  pub prefill_tok_count : ℕ
  pub trimmed : Bool

-- `while (it.n_tokens > 0 && est > budget)`: the tokens that are left, and the variables.
pub trim_tokens : ℕ → ℕ → ℕ → Trim → ℕ × Trim
trim_tokens budget base zero t = (0, t)
trim_tokens budget base (suc n) t =
    if ltb budget t.est
    then trim_tokens budget base n (record {
      est = u64 (t.est + 2 ^ 64 - u64 (base + suc n));
      prefill_tok_count = t.prefill_tok_count - 1;
      trimmed = true;
    })
    else (suc n, t)

module _ {D : Type 0} where
  -- `base_npast[fd]`, which is 0 for a descriptor that is not in the map.
  pub base_npast : SessionPool D → ℕ → ℕ
  base_npast sessions fd = elim (find fd sessions) [ none ↦ 0 | some s ↦ s.n_past ]

  pub trim_phase : SessionPool D → ℕ → Phase → ℕ → ℕ → Trim → ℕ × Trim
  unfolding trim_tokens base_npast
  trim_phase sessions budget decode fd n t = (n, t)
  trim_phase sessions budget prefill fd n t = trim_tokens budget (base_npast sessions fd) n t

  -- From the last item to the first. Once the estimate is within the budget nothing changes any
  -- more, which is where the source leaves the loop.
  pub trim_items : SessionPool D → ℕ → List BatchItem → Trim → List BatchItem × Trim
  unfolding trim_phase
  trim_items sessions budget [] t = ([], t)
  trim_items sessions budget (item ∷ items) t =
      let (rest, t') = trim_items sessions budget items t in
      let (n, t'') = trim_phase sessions budget item.phase item.fd item.n_tokens t' in
      (record item { n_tokens = n } ∷ rest, t'')

-- The plan after the guard, the estimate, and whether something was trimmed.
pub record Guarded : Type 0 where
  pub plan : Plan
  pub est : ℕ
  pub trimmed : Bool

module _ {D : Type 0} where
  -- The guard with a budget that is not 0. Its test `est > budget` is that of the loops.
  unfoldable pub bmt_guard : SessionPool D → ℕ → Plan → Guarded
  unfolding trim_items
  bmt_guard sessions budget plan =
      let start : Trim = record {
        est = estimate_units sessions plan;
        prefill_tok_count = plan.prefill_tok_count;
        trimmed = false;
      } in
      let (items, t) = trim_items sessions budget plan.items start in
      record {
        plan = record plan { items = items; prefill_tok_count = t.prefill_tok_count };
        est = t.est;
        trimmed = t.trimmed;
      }

-- What the guard publishes.
unfoldable pub guard_metrics : ℕ → ℕ → Bool → Metrics → Metrics
guard_metrics budget est trimmed m =
    let m' = record m { bmt_budget_units = budget; bmt_units_last = est } in
    if trimmed
    then record m' {
      bmt_guard_active = 1;
      bmt_guard_activations = (m.bmt_guard_activations + 1) % 2 ^ 32;
    }
    else record m' { bmt_guard_active = 0 }
