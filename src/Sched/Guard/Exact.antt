-- ===== src/Sched/Guard/Exact.antt =====
-- The guard keeps its estimate exact while it trims, and stops within the budget or without prefill.
use uma_serve.Base.{
  ℕ, zero, suc, ◌+◌, ◌-◌, ◌^◌, ◌≤◌, ◌<◌, ◌≡◌, refl, ap, ◌⊎◌, inl, inr, true, false, List, [], ◌∷◌,
  some, arith, ltb, All, dec_lt, Bool-cases, ltb→lt, not-ltb→le,
}
use uma_serve.Ipc.Session.{ClientSession, SessionPool, find}
use uma_serve.Sched.Bmt.{u64, estimate_units}
use uma_serve.Sched.Bmt.Cost.{
  tokens_cost, plan_cost, estimate_units-plan_cost, plan_cost-prefill, plan_cost-decode,
  plan_cost-cons_le, Fits,
}
use uma_serve.Sched.Guard.{Trim, trim_tokens, base_npast, trim_phase, trim_items, bmt_guard}
use uma_serve.Sched.Policy.Serves.{decode_tokens, prefill_tokens}
use uma_serve.Sched.Policy.{BatchItem, Plan, Phase, prefill, decode}

-- What trimming makes of `n` tokens that stand on a cost `r`.
record Trimmed (budget base r n : ℕ) (t : Trim) (k : ℕ) (t' : Trim) : Type 0 where
  exact : t'.est ≡ r + tokens_cost base k
  fewer : k ≤ n
  counted : t'.prefill_tok_count + (n - k) ≡ t.prefill_tok_count
  ended : (t'.est ≤ budget) ⊎ (k ≡ 0)
  falls : t'.est ≤ t.est
  idle : (t.est ≤ budget) → k ≡ n

trim_tokens-Trimmed :
    (budget base r n : ℕ) (t : Trim)
    → t.est < 2 ^ 64
    → t.est ≡ r + tokens_cost base n
    → n ≤ t.prefill_tok_count
    → Trimmed budget base r n t (trim_tokens budget base n t).0 (trim_tokens budget base n t).1
unfolding trim_tokens
trim_tokens-Trimmed budget base r zero t small e c = record {
  exact = e;
  fewer = omega arith;
  counted = omega arith;
  ended = inr refl;
  falls = omega arith;
  idle = λ _. refl;
}
trim_tokens-Trimmed budget base r (suc n) t small e c = elim (Bool-cases (ltb budget t.est)) [
  | inl over ↦
      let cost : tokens_cost base (suc n) ≡ tokens_cost base n + (base + suc n) =
        unfold tokens_cost in refl in
      let next : Trim = record {
        est = u64 (t.est + 2 ^ 64 - u64 (base + suc n));
        prefill_tok_count = t.prefill_tok_count - 1;
        trimmed = true;
      } in
      let est : next.est ≡ r + tokens_cost base n = omega arith in
      let ih = trim_tokens-Trimmed budget base r n next (omega arith) est (omega arith) in
      rw over (record {
        exact = ih.exact;
        fewer = omega (arith, ih.fewer);
        counted = omega (arith, ih.counted, ih.fewer);
        ended = ih.ended;
        falls = omega (arith, ih.falls);
        idle = λ h. absurd (omega (arith, ltb→lt _ _ over));
      })
  | inr within ↦ rw within (record {
    exact = e;
    fewer = omega arith;
    counted = omega arith;
    ended = inl (not-ltb→le _ _ within);
    falls = omega arith;
    idle = λ _. refl;
  })
]

module _ {D : Type 0} (sessions : SessionPool D) (budget : ℕ) where
  -- The item's session is in the map.
  abbrev pub IsPlaced : BatchItem → Type 0
  IsPlaced item = (s : ClientSession D) × (find item.fd sessions ≡ some s)

  record ItemsTrimmed (front : ℕ) (items : List BatchItem) (t : Trim) (items' : List BatchItem)
      (t' : Trim) : Type 0 where
    exact : t'.est ≡ front + plan_cost sessions items'
    counted :
        t'.prefill_tok_count + prefill_tokens items ≡ t.prefill_tok_count + prefill_tokens items'
    decodes : decode_tokens items' ≡ decode_tokens items
    ended : (t'.est ≤ budget) ⊎ (prefill_tokens items' ≡ 0)
    falls : t'.est ≤ t.est
    idle : (t.est ≤ budget) → items' ≡ items

  trim_phase-decode : (fd n : ℕ) (t : Trim) → trim_phase sessions budget decode fd n t ≡ (n, t)
  unfolding trim_phase
  trim_phase-decode fd n t = refl

  trim_phase-prefill :
      (fd n : ℕ) (t : Trim) {s : ClientSession D}
      → find fd sessions ≡ some s
      → trim_phase sessions budget prefill fd n t ≡ trim_tokens budget s.n_past n t
  unfolding trim_phase
  trim_phase-prefill fd n t e = rw (trim_phase, base_npast, e)

  -- The front item is handled last: `front` is the cost of what stands before it.
  trim_cons :
      (front : ℕ) (phase : Phase) (fd n : ℕ) (items : List BatchItem) (t : Trim)
      (rest : List BatchItem) (t' : Trim)
      → let item : BatchItem = record { fd = fd; phase = phase; n_tokens = n } in
        let out = trim_phase sessions budget phase fd n t' in
        let share = plan_cost sessions (item ∷ items) - plan_cost sessions items in
        IsPlaced item
        → t.est < 2 ^ 64
        → prefill_tokens (item ∷ items) ≤ t.prefill_tok_count
        → plan_cost sessions items ≤ plan_cost sessions (item ∷ items)
        → ItemsTrimmed (front + share) items t rest t'
        → ItemsTrimmed front (item ∷ items) t (record item { n_tokens = out.0 } ∷ rest) out.1
  trim_cons front decode fd n items t rest t' p small c le ih =
      rw (trim_phase-decode fd n t') (record {
        exact = omega (arith, ih.exact, plan_cost-decode sessions fd n items rest);
        counted = omega (arith, ih.counted);
        decodes = omega (arith, ih.decodes);
        ended = omega (arith, ih.ended);
        falls = ih.falls;
        idle = λ h. ap (◌∷◌ (record { fd = fd; phase = decode; n_tokens = n })) (ih.idle h);
      })
  trim_cons front prefill fd n items t rest t' (s, e) small c le ih =
      let before = plan_cost-prefill sessions fd n items e in
      let k = (trim_tokens budget s.n_past n t').0 in
      let tr =
        trim_tokens-Trimmed budget s.n_past (front + plan_cost sessions rest) n t'
          (omega (arith, ih.falls)) (omega (arith, ih.exact)) (omega (arith, ih.counted)) in
      rw (trim_phase-prefill fd n t' e) (record {
        exact = omega (arith, tr.exact, plan_cost-prefill sessions fd k rest e);
        counted = omega (arith, tr.counted, tr.fewer, ih.counted);
        decodes = omega (arith, ih.decodes);
        ended = omega (arith, ih.ended, tr.ended, tr.falls);
        falls = omega (arith, ih.falls, tr.falls);
        idle = λ h. ground (arith, ih.idle h, tr.idle (omega (arith, ih.falls)));
      })

  trim_items-ItemsTrimmed :
      (front : ℕ) (items : List BatchItem) (t : Trim)
      → All IsPlaced items
      → t.est < 2 ^ 64
      → t.est ≡ front + plan_cost sessions items
      → prefill_tokens items ≤ t.prefill_tok_count
      → let out = trim_items sessions budget items t in ItemsTrimmed front items t out.0 out.1
  unfolding trim_items
  trim_items-ItemsTrimmed front [] t p small e c = record {
    exact = e;
    counted = omega arith;
    decodes = refl;
    ended = inr refl;
    falls = omega arith;
    idle = λ _. refl;
  }
  trim_items-ItemsTrimmed front (item ∷ items) t p small e c =
      let le = plan_cost-cons_le sessions item items in
      let share = plan_cost sessions (item ∷ items) - plan_cost sessions items in
      trim_cons front item.phase item.fd item.n_tokens items t _ _ p.0 small c le
        (trim_items-ItemsTrimmed (front + share) items t p.1 small (omega arith) (omega arith))

  -- Let the guard have a plan whose sessions are all in the map, whose positions are below 2^31,
  -- whose cost is below 2^64 and whose prefill counter is right. Then the estimate that it ends
  -- with is the cost of the plan that it ends with, no decode token is lost and the counter is
  -- right again; that cost is within the budget, unless no prefill token is left; and a plan
  -- within the budget is left as it was.
  pub bmt_guard_exact :
      (plan : Plan)
      → All IsPlaced plan.items
      → All (Fits sessions) plan.items
      → plan_cost sessions plan.items < 2 ^ 64
      → plan.prefill_tok_count ≡ prefill_tokens plan.items
      → let after = bmt_guard sessions budget plan in
        (after.est ≡ plan_cost sessions after.plan.items)
        × (decode_tokens after.plan.items ≡ decode_tokens plan.items)
        × (after.plan.prefill_tok_count ≡ prefill_tokens after.plan.items)
        × ((after.est ≤ budget) ⊎ (prefill_tokens after.plan.items ≡ 0))
        × ((budget < plan_cost sessions plan.items) ⊎ (after.plan.items ≡ plan.items))
  unfolding bmt_guard
  bmt_guard_exact plan placed fits small counted =
      let estimate = estimate_units-plan_cost sessions plan fits small in
      let out =
        trim_items-ItemsTrimmed 0 plan.items
          (record {
            est = estimate_units sessions plan;
            prefill_tok_count = plan.prefill_tok_count;
            trimmed = false;
          })
          placed (omega arith) (omega arith) (omega arith) in
      (
        omega (arith, out.exact),
        out.decodes,
        omega (arith, out.counted),
        out.ended,
        elim (dec_lt budget (plan_cost sessions plan.items)) [
          | yes over ↦ inl over
          | no within ↦ inr (out.idle (omega arith))
        ],
      )
