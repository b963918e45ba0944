-- ===== src/Sched/Guard/Shrinks.antt =====
-- The guard only takes tokens away.
use uma_serve.Base.{ℕ, zero, suc, ◌+◌, ◌-◌, ◌%◌, ◌^◌, ◌≤◌, true, List, [], ◌∷◌, arith}
use uma_serve.Ipc.Session.{SessionPool}
use uma_serve.Sched.Guard.{Trim, trim_tokens, base_npast, trim_phase, trim_items, bmt_guard}
use uma_serve.Sched.Policy.Serves.{entries, entries_of}
use uma_serve.Sched.Policy.{BatchItem, Plan, Phase, prefill, decode}

trim_tokens-le : (budget base n : ℕ) (t : Trim) → (trim_tokens budget base n t).0 ≤ n
unfolding trim_tokens
trim_tokens-le budget base zero t = omega arith
trim_tokens-le budget base (suc n) t = ground (
  arith,
  trim_tokens-le budget base n (record {
    est = (t.est + 2 ^ 64 - (base + suc n) % 2 ^ 64) % 2 ^ 64;
    prefill_tok_count = t.prefill_tok_count - 1;
    trimmed = true;
  }),
)

module _ {D : Type 0} (sessions : SessionPool D) where
  trim_phase-entries :
      (budget : ℕ) (phase : Phase) (fd n : ℕ) (t : Trim)
      → entries phase (trim_phase sessions budget phase fd n t).0 ≤ entries phase n
  unfolding trim_phase
  trim_phase-entries budget decode fd n t = omega arith
  trim_phase-entries budget prefill fd n t = trim_tokens-le budget (base_npast sessions fd) n t

  trim_items-entries :
      (budget : ℕ) (items : List BatchItem) (t : Trim)
      → entries_of (trim_items sessions budget items t).0 ≤ entries_of items
  unfolding trim_items
  trim_items-entries budget [] t = omega arith
  trim_items-entries budget (item ∷ items) t = omega (
    arith,
    trim_items-entries budget items t,
    trim_phase-entries budget item.phase item.fd item.n_tokens
        (trim_items sessions budget items t).1,
  )

  pub bmt_guard-entries :
      (budget : ℕ) (plan : Plan)
      → entries_of (bmt_guard sessions budget plan).plan.items ≤ entries_of plan.items
  unfolding bmt_guard
  bmt_guard-entries budget plan = trim_items-entries budget plan.items _
