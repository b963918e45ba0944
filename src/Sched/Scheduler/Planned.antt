-- ===== src/Sched/Scheduler/Planned.antt =====
-- What is planned for a session of a pool that one batch is large enough for.
use uma_serve.Base.{
  ℕ, ◌≤◌, ◌≡◌, refl, sym, ap, subst, ◌∙◌, inl, inr, true, false, List, [], ◌∷◌, map, some, arith,
  ◌==◌, length, All, count, Distinct-count, Bool-cases,
}
use uma_serve.Ipc.Session.{ClientSession, SessionPool, find}
use uma_serve.Ipc.Session.Lookup.{IsKeyed}
use uma_serve.Sched.Backend.{Backend}
use uma_serve.Sched.Batch.Served.{IsDecodeItem}
use uma_serve.Sched.Guard.Named.{targets, bmt_guard-targets}
use uma_serve.Sched.Policy.Listed.{
  decode_pool-length, prefill_pool-length, schedule_tick-decodes, schedule_tick-idle,
}
use uma_serve.Sched.Policy.Once.{fds_of, CursorFits, schedule_tick_once}
use uma_serve.Sched.Policy.{
  BatchItem, Plan, Phase, is_decode_ready, is_prefill_ready, decode_pool, prefill_pool,
  schedule_tick,
}
use uma_serve.Sched.Scheduler.{Scheduler, planned}

targets-fds : (xs : List BatchItem) → map (λ (p : ℕ × Phase). p.0) (targets xs) ≡ fds_of xs
targets-fds [] = refl
targets-fds (x ∷ xs) = ap (◌∷◌ x.fd) (targets-fds xs)

named-targets :
    (a : ℕ) (xs ys : List BatchItem)
    → targets xs ≡ targets ys
    → count a (fds_of xs) ≡ count a (fds_of ys)
named-targets a xs ys e =
    ap (count a) (sym (targets-fds xs) ∙ ap (map (λ (p : ℕ × Phase). p.0)) e ∙ targets-fds ys)

abbrev AreDecodes : ℕ → List (ℕ × Phase) → Type 0
AreDecodes a = All (λ (p : ℕ × Phase). p.0 ≡ a → p.1 ≡ Phase.decode)

to-AreDecodes : (a : ℕ) (xs : List BatchItem) → All (IsDecodeItem a) xs → AreDecodes a (targets xs)
to-AreDecodes a [] h = tt
to-AreDecodes a (x ∷ xs) h = (h.0, to-AreDecodes a xs h.1)

from-AreDecodes :
    (a : ℕ) (xs : List BatchItem) → AreDecodes a (targets xs) → All (IsDecodeItem a) xs
from-AreDecodes a [] h = tt
from-AreDecodes a (x ∷ xs) h = (h.0, from-AreDecodes a xs h.1)

decodes-targets :
    (a : ℕ) (xs ys : List BatchItem)
    → targets xs ≡ targets ys
    → All (IsDecodeItem a) xs
    → All (IsDecodeItem a) ys
decodes-targets a xs ys e h = from-AreDecodes a ys (subst (AreDecodes a) e (to-AreDecodes a xs h))

module _ (backend : Backend) where
  open backend use {Context, Double}

  -- A pool that one batch is large enough for, whatever the tuning of the target does, and cursors
  -- that do not wrap over it.
  pub record HasRoom (sched : Scheduler backend) (sessions : SessionPool Double) : Type 0 where
    pub keyed : IsKeyed sessions
    pub few : length sessions ≤ 8
    pub cap : length sessions ≤ sched.batch_cap
    pub target : length sessions ≤ sched.target_batch
    pub rr_decode : sched.rr_decode_idx ≤ 8
    pub rr_prefill : sched.rr_prefill_idx ≤ 8

  abbrev pub plan_of : Scheduler backend → SessionPool Double → Plan
  plan_of sched sessions =
      schedule_tick sessions sched.batch_cap sched.target_batch sched.rr_decode_idx
        sched.rr_prefill_idx

  planned-targets :
      (sched : Scheduler backend) (sessions : SessionPool Double)
      → targets (planned backend sched sessions).0.items ≡ targets (plan_of sched sessions).items
  unfolding planned
  planned-targets sched sessions = elim (Bool-cases (sched.config.bmt_budget_units == 0)) [
    | inl off ↦ rw (planned, off) refl
    | inr on ↦
        rw (planned, on)
          (bmt_guard-targets sessions sched.config.bmt_budget_units (plan_of sched sessions))
  ]

  -- The plan names no session twice, also behind the guard.
  pub planned-once :
      (sched : Scheduler backend) (sessions : SessionPool Double) (a : ℕ)
      → IsKeyed sessions
      → CursorFits sched.rr_decode_idx (decode_pool sessions)
      → CursorFits sched.rr_prefill_idx (prefill_pool sessions)
      → count a (fds_of (planned backend sched sessions).0.items) ≤ 1
  planned-once sched sessions a keyed d p =
      let plan = plan_of sched sessions in
      let once =
        schedule_tick_once sessions sched.batch_cap sched.target_batch sched.rr_decode_idx
          sched.rr_prefill_idx keyed d p in
      omega (
        arith,
        Distinct-count a (fds_of plan.items) once,
        named-targets a (planned backend sched sessions).0.items plan.items
            (planned-targets sched sessions),
      )

  -- What planning leaves, and the new cursors.
  pub planned-fields :
      (sched : Scheduler backend) (sessions : SessionPool Double)
      → let s = (planned backend sched sessions).1 in
        (s.config ≡ sched.config)
        × (s.batch_cap ≡ sched.batch_cap)
        × (s.target_batch ≡ sched.target_batch)
        × (s.rr_decode_idx ≡ (plan_of sched sessions).next_rr_decode_idx)
        × (s.rr_prefill_idx ≡ (plan_of sched sessions).next_rr_prefill_idx)
  unfolding planned
  planned-fields sched sessions = elim (Bool-cases (sched.config.bmt_budget_units == 0)) [
    | inl off ↦ rw (planned, off) (refl, refl, refl, refl, refl)
    | inr on ↦ rw (planned, on) (refl, refl, refl, refl, refl)
  ]

  fits-decode :
      (sched : Scheduler backend) (sessions : SessionPool Double)
      → HasRoom sched sessions
      → CursorFits sched.rr_decode_idx (decode_pool sessions)
  fits-decode sched sessions h = omega (arith, h.few, h.rr_decode, decode_pool-length sessions)

  fits-prefill :
      (sched : Scheduler backend) (sessions : SessionPool Double)
      → HasRoom sched sessions
      → CursorFits sched.rr_prefill_idx (prefill_pool sessions)
  fits-prefill sched sessions h = omega (arith, h.few, h.rr_prefill, prefill_pool-length sessions)

  pub planned-decodes :
      (sched : Scheduler backend) (sessions : SessionPool Double) (a : ℕ) (s : ClientSession Double)
      → HasRoom sched sessions
      → find a sessions ≡ some s
      → is_decode_ready s ≡ true
      → let items = (planned backend sched sessions).0.items in
        (count a (fds_of items) ≡ 1) × All (IsDecodeItem a) items
  planned-decodes sched sessions a s h e r =
      let items = (planned backend sched sessions).0.items in
      let plan = plan_of sched sessions in
      let same = planned-targets sched sessions in
      let (once, decodes) =
        schedule_tick-decodes sessions sched.batch_cap sched.target_batch sched.rr_decode_idx
          sched.rr_prefill_idx a h.keyed (fits-decode sched sessions h)
          (fits-prefill sched sessions h) s e r (omega (arith, h.cap, h.target)) in
      (
        named-targets a items plan.items same ∙ once,
        decodes-targets a plan.items items (sym same) decodes,
      )

  pub planned-idle :
      (sched : Scheduler backend) (sessions : SessionPool Double) (a : ℕ) (s : ClientSession Double)
      → HasRoom sched sessions
      → find a sessions ≡ some s
      → is_decode_ready s ≡ false
      → is_prefill_ready s ≡ false
      → count a (fds_of (planned backend sched sessions).0.items) ≡ 0
  planned-idle sched sessions a s h e r r' =
      named-targets a (planned backend sched sessions).0.items (plan_of sched sessions).items
        (planned-targets sched sessions)
      ∙ schedule_tick-idle sessions sched.batch_cap sched.target_batch sched.rr_decode_idx
          sched.rr_prefill_idx a h.keyed (fits-decode sched sessions h)
          (fits-prefill sched sessions h) s e r r'
