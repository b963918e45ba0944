-- ===== src/Sched/Bmt.antt =====
-- sched/bmt.cpp: the cost of a plan, in 64-bit arithmetic.
pub mod Cost
use uma_serve.Base.{ℕ, ◌+◌, ◌-◌, ◌*◌, ◌/◌, ◌%◌, ◌^◌, List, [], ◌∷◌, Option, none, some}
use uma_serve.Ipc.Session.{ClientSession, SessionPool, find}
use uma_serve.Sched.Policy.{BatchItem, Plan, Phase, prefill, decode}

abbrev pub u64 : ℕ → ℕ
u64 x = x % 2 ^ 64

-- `sum_arith`: each operation wraps.
unfoldable pub sum_arith : ℕ → ℕ → ℕ → ℕ
sum_arith a0 d n = u64 (n * u64 (u64 (2 * a0) + u64 (u64 (n + 2 ^ 64 - 1) * d))) / 2

module _ {D : Type 0} where
  -- What one item adds to the total. A token count is not negative, so the source's `n_tokens > 0`
  -- guard changes nothing.
  item_units : Phase → ℕ → ClientSession D → ℕ
  item_units decode n s = u64 (s.n_past + 1)
  item_units prefill n s = sum_arith (u64 (s.n_past + 1)) 1 n

  add_item : SessionPool D → ℕ → BatchItem → ℕ
  unfolding item_units
  add_item sessions total item = elim (find item.fd sessions) [
    | none ↦ total
    | some s ↦ u64 (total + item_units item.phase item.n_tokens s)
  ]

  pub estimate_from : SessionPool D → ℕ → List BatchItem → ℕ
  unfolding add_item
  estimate_from sessions total [] = total
  estimate_from sessions total (item ∷ items) =
      estimate_from sessions (add_item sessions total item) items

  unfoldable pub estimate_units : SessionPool D → Plan → ℕ
  unfolding estimate_from sum_arith
  estimate_units sessions plan = estimate_from sessions 0 plan.items
