-- ===== src/Sched/Policy/DecodeFirst.antt =====
-- Decode before prefill: what phase A takes, exactly, and what phase B may add behind it.
use uma_serve.Base.{
  ℕ, zero, suc, min, not, ◌&&◌, ◌≡◌, refl, ap, ◌∙◌, inl, inr, true, List, [], ◌∷◌, ◌++◌, append-nil,
  append_assoc, map, arith, ltb, ◌==◌, take, All, All-append, Option-cases, Bool-cases,
}
use uma_serve.Ipc.Session.{SessionPool, find}
use uma_serve.Sched.Policy.Rotation.{take-nil}
use uma_serve.Sched.Policy.{
  BatchItem, is_empty, rounds, Filling, decode, prefill, empty_plan, decode_pool, prefill_pool,
  rotation, push_decode, decode_loop, chunk_of, push_prefill, prefill_step, schedule_pool,
  ttft_pool, rest_pool, phase_decode, prefill_pools, phase_prefill, schedule_tick,
}

abbrev pub decode_item : ℕ → BatchItem
decode_item fd = record { fd = fd; phase = decode; n_tokens = 1 }

decode_loop-items :
    (fds : List ℕ) (b : ℕ) (f : Filling)
    → f.budget ≡ b
    → (decode_loop fds f).plan.items ≡ f.plan.items ++ map decode_item (take b fds)
unfolding decode_loop push_decode
decode_loop-items [] zero f e = rw append-nil
decode_loop-items [] (suc b) f e = rw append-nil
decode_loop-items (fd ∷ fds) zero f e = rw (e, append-nil)
decode_loop-items (fd ∷ fds) (suc b) f e =
    let more : ltb 0 f.budget ≡ true = ground arith in
    rw more (
      decode_loop-items fds b (push_decode fd f) (omega arith)
      ∙ append_assoc f.plan.items (decode_item fd ∷ []) (map decode_item (take b fds)))

abbrev pub IsPrefillItem : BatchItem → Type 0
IsPrefillItem item = item.phase ≡ prefill

-- Only prefill items came to the end of the list.
abbrev Extends : List BatchItem → List BatchItem → Type 0
Extends xs ys = (zs : List BatchItem) × (ys ≡ xs ++ zs) × All IsPrefillItem zs

Extends-refl : (xs : List BatchItem) → Extends xs xs
Extends-refl xs = ([], rw append-nil, tt)

Extends-trans : (xs ys zs : List BatchItem) → Extends xs ys → Extends ys zs → Extends xs zs
Extends-trans xs ys zs (us, e, a) (vs, h, b) =
    (us ++ vs, h ∙ ap (λ k. k ++ vs) e ∙ append_assoc xs us vs, All-append _ us vs a b)

module _ {D : Type 0} (sessions : SessionPool D) where
  prefill_step-Extends :
      (fd : ℕ) (f : Filling) → Extends f.plan.items (prefill_step sessions fd f).plan.items
  unfolding prefill_step
  prefill_step-Extends fd f = elim (Option-cases (find fd sessions)) [
    | inl e ↦ rw (prefill_step, e) (Extends-refl f.plan.items)
    | inr (s, e) ↦
        rw (prefill_step, e)
          (elim (Bool-cases (chunk_of s f.budget == 0)) [
            | inl z ↦ rw (push_prefill, z) (Extends-refl f.plan.items)
            | inr z ↦ rw (push_prefill, z) (_, refl, (refl, tt))
          ])
  ]

  schedule_pool-Extends :
      (fds : List ℕ) (f : Filling) → Extends f.plan.items (schedule_pool sessions fds f).plan.items
  unfolding schedule_pool
  schedule_pool-Extends [] f = Extends-refl f.plan.items
  schedule_pool-Extends (fd ∷ fds) f = elim (Bool-cases (f.budget == 0)) [
    | inl spent ↦ rw spent (Extends-refl f.plan.items)
    | inr more ↦ rw more (
        Extends-trans _ _ _ (prefill_step-Extends fd f)
          (schedule_pool-Extends fds (prefill_step sessions fd f)))
  ]

  phase_prefill-Extends :
      (pool : List ℕ) (rr : ℕ) (f : Filling)
      → Extends f.plan.items (phase_prefill sessions pool rr f).plan.items
  unfolding phase_prefill prefill_pools
  phase_prefill-Extends pool rr f = elim (Bool-cases (not (is_empty pool) && ltb 0 f.budget)) [
    | inl run ↦
        let order = rotation pool rr in
        let g = schedule_pool sessions (ttft_pool sessions order) f in
        let first = schedule_pool-Extends (ttft_pool sessions order) f in
        elim (Bool-cases (ltb 0 g.budget)) [
          | inl more ↦
              rw (run, more)
                (Extends-trans _ _ _ first (schedule_pool-Extends (rest_pool sessions order) g))
          | inr spent ↦ rw (run, spent) first
        ]
    | inr skip ↦ rw skip (Extends-refl f.plan.items)
  ]

phase_decode-items :
    (pool : List ℕ) (rr budget : ℕ)
    → (phase_decode pool rr (record { plan = empty_plan; budget = budget })).plan.items
      ≡ map decode_item (take budget (rotation pool rr))
unfolding phase_decode
phase_decode-items [] rr budget = unfold rotation rounds in (rw take-nil refl)
phase_decode-items (x ∷ pool) rr zero = refl
phase_decode-items (x ∷ pool) rr (suc b) =
    let more : ltb 0 (suc b) ≡ true = ground arith in
    rw more (decode_loop-items (rotation (x ∷ pool) rr) (suc b) _ refl)

-- A plan begins with one item for each session that is ready to decode, in round-robin order from
-- the cursor, as many as the budget allows; whatever comes behind them is prefill.
pub schedule_tick_decode_first :
    {D : Type 0} (sessions : SessionPool D) (cap target rr_decode rr_prefill : ℕ)
    → let served = take (min target cap) (rotation (decode_pool sessions) rr_decode) in
      (rest : List BatchItem) × ((schedule_tick sessions cap target rr_decode rr_prefill).items
        ≡ map decode_item served ++ rest)
      × All IsPrefillItem rest
unfolding schedule_tick
schedule_tick_decode_first sessions cap target rr_decode rr_prefill =
    let f : Filling = record { plan = empty_plan; budget = min target cap } in
    let g = phase_decode (decode_pool sessions) rr_decode f in
    let (rest, e, a) = phase_prefill-Extends sessions (prefill_pool sessions) rr_prefill g in
    (
      rest,
      e
          ∙ ap (λ xs. xs ++ rest)
              (phase_decode-items (decode_pool sessions) rr_decode (min target cap)),
      a,
    )
