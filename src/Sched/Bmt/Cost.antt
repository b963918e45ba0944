-- ===== src/Sched/Bmt/Cost.antt =====
-- The estimate is the sum of the costs of the single tokens.
use uma_serve.Base.{
  ℕ, zero, suc, ◌+◌, ◌-◌, ◌*◌, ◌/◌, ◌^◌, ◌≤◌, ◌<◌, ◌≡◌, ◌∙◌, List, [], ◌∷◌, none, some, arith, inl,
  inr, All, Option-cases,
}
use uma_serve.Ipc.Session.{ClientSession, SessionPool, find}
use uma_serve.Sched.Bmt.{u64, sum_arith, item_units, add_item, estimate_from, estimate_units}
use uma_serve.Sched.Policy.{BatchItem, Plan, Phase, prefill, decode}

-- A token at position `p` costs `p + 1`; `m` tokens stand at the positions from `base` on.
unfoldable pub tokens_cost : ℕ → ℕ → ℕ
tokens_cost base zero = 0
tokens_cost base (suc m) = tokens_cost base m + (base + suc m)

tokens_cost_closed : (base m : ℕ) → 2 * tokens_cost base m ≡ m * (2 * base + m + 1)
unfolding tokens_cost
tokens_cost_closed base zero = omega arith
tokens_cost_closed base (suc m) = omega (arith, tokens_cost_closed base m)

product_le : (a b c d : ℕ) → a ≤ c → b ≤ d → a * b ≤ c * d
product_le a b c d h k = grind arith

halve : (p c : ℕ) → p ≤ 2 ^ 31 * 2 ^ 32 → 2 * c ≡ p → u64 p / 2 ≡ c
halve p c h e = omega arith

sum_arith-tokens_cost :
    (base m : ℕ) → base + m < 2 ^ 31 → sum_arith (u64 (base + 1)) 1 m ≡ tokens_cost base m
unfolding sum_arith
sum_arith-tokens_cost base zero h = unfold tokens_cost in omega arith
sum_arith-tokens_cost base (suc m) h =
    let inner : u64 (u64 (2 * u64 (base + 1)) + u64 (u64 (suc m + 2 ^ 64 - 1) * 1))
        ≡ 2 * base + suc m + 1 =
      omega arith in
    let small : suc m * (2 * base + suc m + 1) ≤ 2 ^ 31 * 2 ^ 32 =
      product_le (suc m) (2 * base + suc m + 1) (2 ^ 31) (2 ^ 32) (omega arith) (omega arith) in
    let closed = tokens_cost_closed base (suc m) in
    rw inner (halve (suc m * (2 * base + suc m + 1)) (tokens_cost base (suc m)) small closed)

module _ {D : Type 0} (sessions : SessionPool D) where
  cost_of : Phase → ℕ → ClientSession D → ℕ
  cost_of decode n s = tokens_cost s.n_past 1
  cost_of prefill n s = tokens_cost s.n_past n

  -- The cost of the items one after the other; an item whose session is gone costs nothing.
  unfoldable pub plan_cost : List BatchItem → ℕ
  unfolding cost_of
  plan_cost [] = 0
  plan_cost (item ∷ items) =
      elim (find item.fd sessions) [ none ↦ 0 | some s ↦ cost_of item.phase item.n_tokens s ]
      + plan_cost items

  -- Positions stay below 2^31, as the source's `int32_t` has it.
  abbrev pub Fits : BatchItem → Type 0
  Fits item =
      (s : ClientSession D) → find item.fd sessions ≡ some s → s.n_past + item.n_tokens + 1 < 2 ^ 31

  item_units-cost_of :
      (phase : Phase) (n : ℕ) (s : ClientSession D)
      → s.n_past + n + 1 < 2 ^ 31
      → item_units phase n s ≡ cost_of phase n s
  unfolding item_units cost_of
  item_units-cost_of decode n s h = unfold tokens_cost in omega arith
  item_units-cost_of prefill n s h = sum_arith-tokens_cost s.n_past n (omega arith)

  add_item-plan_cost :
      (total : ℕ) (item : BatchItem) (items : List BatchItem)
      → Fits item
      → total + plan_cost (item ∷ items) < 2 ^ 64
      → add_item sessions total item + plan_cost items ≡ total + plan_cost (item ∷ items)
  add_item-plan_cost total item items fits h = elim (Option-cases (find item.fd sessions)) [
    | inl e ↦
        let added : add_item sessions total item ≡ total = unfold add_item in rw (e, add_item) in
        let cost : plan_cost (item ∷ items) ≡ plan_cost items =
          unfold plan_cost in rw e (omega arith) in
        omega arith
    | inr (s, e) ↦
        let added : add_item sessions total item
            ≡ u64 (total + item_units item.phase item.n_tokens s) =
          unfold add_item in rw (e, add_item) in
        let cost : plan_cost (item ∷ items) ≡ cost_of item.phase item.n_tokens s + plan_cost items =
          unfold plan_cost in rw (e, plan_cost) in
        omega (arith, item_units-cost_of item.phase item.n_tokens s (fits s e))
  ]

  estimate_from-plan_cost :
      (total : ℕ) (items : List BatchItem)
      → All Fits items
      → total + plan_cost items < 2 ^ 64
      → estimate_from sessions total items ≡ total + plan_cost items
  unfolding estimate_from
  estimate_from-plan_cost total [] fits h = unfold plan_cost in omega arith
  estimate_from-plan_cost total (item ∷ items) fits h =
      let e = add_item-plan_cost total item items fits.0 h in
      estimate_from-plan_cost (add_item sessions total item) items fits.1 (rw e h) ∙ e

  -- Where positions are below 2^31 and the whole cost is below 2^64, the estimate of a plan is the
  -- sum of the costs of its single tokens, a token at position `p` costing `p + 1`.
  pub estimate_units-plan_cost :
      (plan : Plan)
      → All Fits plan.items
      → plan_cost plan.items < 2 ^ 64
      → estimate_units sessions plan ≡ plan_cost plan.items
  unfolding estimate_units
  estimate_units-plan_cost plan fits h =
      estimate_from-plan_cost 0 plan.items fits (omega arith) ∙ omega arith

  -- The front item's share, by its phase.
  pub plan_cost-prefill :
      (fd n : ℕ) (items : List BatchItem) {s : ClientSession D}
      → find fd sessions ≡ some s
      → plan_cost (record { fd = fd; phase = prefill; n_tokens = n } ∷ items)
        ≡ tokens_cost s.n_past n + plan_cost items
  unfolding plan_cost
  plan_cost-prefill fd n items e = rw (e, plan_cost)

  -- A decode item's cost does not read its token count.
  pub plan_cost-decode :
      (fd n : ℕ) (items rest : List BatchItem)
      → let item : BatchItem = record { fd = fd; phase = decode; n_tokens = n } in
        plan_cost (item ∷ items) + plan_cost rest ≡ plan_cost (item ∷ rest) + plan_cost items
  unfolding plan_cost
  plan_cost-decode fd n items rest = omega arith

  pub plan_cost-cons_le :
      (item : BatchItem) (items : List BatchItem) → plan_cost items ≤ plan_cost (item ∷ items)
  unfolding plan_cost
  plan_cost-cons_le item items = omega arith
