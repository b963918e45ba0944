-- ===== src/Sched/Policy/Budget.antt =====
-- The plan keeps to the budget, and each of its items serves a session that is ready for it.
use uma_serve.Base.{
  ℕ, zero, suc, ◌+◌, ◌%◌, ◌≤◌, min, ◌≡◌, refl, sym, ap, ◌∙◌, inl, inr, List, [], ◌∷◌, some, arith,
  length, get_elem?, All, Option-cases, Bool-cases,
}
use uma_serve.Ipc.Session.{ClientSession, SessionPool, find}
use uma_serve.Ipc.Session.Lookup.{IsKeyed, Holds, Holds-self}
use uma_serve.Sched.Policy.{
  size_t_add, Filling, empty_plan, is_decode_ready, is_prefill_ready, decode_pool, prefill_pool,
  rounds, rotation, schedule_pool, ttft_pool, rest_pool, phase_decode, prefill_pools, phase_prefill,
  schedule_tick,
}
use uma_serve.Sched.Policy.Serves.{decode_tokens, prefill_tokens, Serves, IsReady}
use uma_serve.Sched.Policy.Kept.{Kept, decode_loop-Kept, schedule_pool-Kept}

module _ {D : Type 0} (P : ℕ → Type 0) (sessions : SessionPool D) where
  All-get_elem? : (xs : List ℕ) (i : ℕ) {x : ℕ} → All P xs → get_elem? xs i ≡ some x → P x
  All-get_elem? [] i a e = cc
  All-get_elem? (y ∷ xs) zero a e = ground (arith, a.0)
  All-get_elem? (y ∷ xs) (suc i) a e = All-get_elem? xs i a.1 e

  All-rounds : (pool : List ℕ) (rr n i : ℕ) → All P pool → All P (rounds pool rr n i)
  unfolding rounds
  All-rounds pool rr zero i a = tt
  All-rounds pool rr (suc n) i a =
      let rest = All-rounds pool rr n (i + 1) a in
      elim (Option-cases (get_elem? pool (size_t_add rr i % length pool))) [
        | inl e ↦ rw (rounds, e) rest
        | inr (x, e) ↦ rw (rounds, e) (All-get_elem? pool _ a e, rest)
      ]

  All-rotation : (pool : List ℕ) (rr : ℕ) → All P pool → All P (rotation pool rr)
  unfolding rotation
  All-rotation pool rr a = All-rounds pool rr (length pool) 0 a

  All-ttft_pool : (fds : List ℕ) → All P fds → All P (ttft_pool sessions fds)
  unfolding ttft_pool
  All-ttft_pool [] a = tt
  All-ttft_pool (fd ∷ fds) a = ground (arith, All-ttft_pool fds a.1)

  All-rest_pool : (fds : List ℕ) → All P fds → All P (rest_pool sessions fds)
  unfolding rest_pool
  All-rest_pool [] a = tt
  All-rest_pool (fd ∷ fds) a = ground (arith, All-rest_pool fds a.1)

module _ {D : Type 0} (sessions : SessionPool D) where
  All-decode_pool :
      (pool : SessionPool D)
      → All (λ (kv : ℕ × ClientSession D). kv.1.fd ≡ kv.0) pool
      → Holds sessions pool
      → All (IsReady sessions is_decode_ready) (decode_pool pool)
  unfolding decode_pool
  All-decode_pool [] o h = tt
  All-decode_pool ((k, s) ∷ pool) o h =
      let rest = All-decode_pool pool o.1 h.1 in
      elim (Bool-cases (is_decode_ready s)) [
        | inl r ↦ rw r ((s, ap (λ j. find j sessions) o.0 ∙ h.0, r), rest)
        | inr r ↦ rw r rest
      ]

  All-prefill_pool :
      (pool : SessionPool D)
      → All (λ (kv : ℕ × ClientSession D). kv.1.fd ≡ kv.0) pool
      → Holds sessions pool
      → All (IsReady sessions is_prefill_ready) (prefill_pool pool)
  unfolding prefill_pool
  All-prefill_pool [] o h = tt
  All-prefill_pool ((k, s) ∷ pool) o h =
      let rest = All-prefill_pool pool o.1 h.1 in
      elim (Bool-cases (is_decode_ready s)) [
        | inl d ↦ rw d rest
        | inr d ↦ elim (Bool-cases (is_prefill_ready s)) [
          | inl r ↦ rw (d, r) ((s, ap (λ j. find j sessions) o.0 ∙ h.0, r), rest)
          | inr r ↦ rw (d, r) rest
        ]
      ]

  phase_decode-Kept :
      (total : ℕ) (pool : List ℕ) (rr : ℕ) (f : Filling)
      → All (IsReady sessions is_decode_ready) pool
      → Kept sessions total f
      → Kept sessions total (phase_decode pool rr f)
  unfolding phase_decode
  phase_decode-Kept total pool rr f a k =
      let looped =
        decode_loop-Kept sessions total (rotation pool rr) f (All-rotation _ sessions pool rr a)
          k in
      ground arith

  prefill_pools-Kept :
      (total : ℕ) (order : List ℕ) (f : Filling)
      → All (IsReady sessions is_prefill_ready) order
      → Kept sessions total f
      → Kept sessions total (prefill_pools sessions order f)
  unfolding prefill_pools
  prefill_pools-Kept total order f a k =
      let first =
        schedule_pool-Kept sessions total (ttft_pool sessions order) f
          (All-ttft_pool _ sessions order a) k in
      let second =
        schedule_pool-Kept sessions total (rest_pool sessions order)
          (schedule_pool sessions (ttft_pool sessions order) f) (All-rest_pool _ sessions order a)
          first in
      ground arith

  phase_prefill-Kept :
      (total : ℕ) (pool : List ℕ) (rr : ℕ) (f : Filling)
      → All (IsReady sessions is_prefill_ready) pool
      → Kept sessions total f
      → Kept sessions total (phase_prefill sessions pool rr f)
  unfolding phase_prefill
  phase_prefill-Kept total pool rr f a k =
      let pooled =
        prefill_pools-Kept total (rotation pool rr) f (All-rotation _ sessions pool rr a) k in
      ground arith

module _ {D : Type 0} (sessions : SessionPool D) (cap target rr_decode rr_prefill : ℕ) where
  schedule_tick-Kept :
      IsKeyed sessions
      → (f : Filling) × (schedule_tick sessions cap target rr_decode rr_prefill ≡ f.plan)
        × Kept sessions (min target cap) f
  unfolding schedule_tick
  schedule_tick-Kept keyed =
      let holds = Holds-self sessions keyed.distinct in
      (
        _,
        refl,
        phase_prefill-Kept sessions (min target cap) (prefill_pool sessions) rr_prefill _
            (All-prefill_pool sessions sessions keyed.own holds)
            (phase_decode-Kept sessions (min target cap) (decode_pool sessions) rr_decode
              (record { plan = empty_plan; budget = min target cap })
              (All-decode_pool sessions sessions keyed.own holds)
              (record { decode_sum = refl; prefill_sum = refl; spent = omega arith; serves = tt })),
      )

  -- In a map that holds each session under its own descriptor, the plan's two counters are the
  -- tokens of its items of either phase, and together they stay within both the target and the
  -- capacity of a batch.
  pub schedule_tick_budget :
      IsKeyed sessions
      → let plan = schedule_tick sessions cap target rr_decode rr_prefill in
        (plan.decode_tok_count ≡ decode_tokens plan.items)
        × (plan.prefill_tok_count ≡ prefill_tokens plan.items)
        × (plan.decode_tok_count + plan.prefill_tok_count ≤ target)
        × (plan.decode_tok_count + plan.prefill_tok_count ≤ cap)
  schedule_tick_budget keyed =
      let (f, e, k) = schedule_tick-Kept keyed in
      rw e (sym k.decode_sum, sym k.prefill_sum, omega (arith, k.spent), omega (arith, k.spent))

  -- In a map that holds each session under its own descriptor, every item of a plan serves a
  -- session that is ready for it: a decode item takes one token of a session in DECODE with a
  -- token pending; a prefill item takes at least one token and no more than its session in
  -- PREFILL has left, and at most the burst of a session that has emitted nothing yet.
  pub schedule_tick-Serves :
      IsKeyed sessions
      → All (Serves sessions) (schedule_tick sessions cap target rr_decode rr_prefill).items
  schedule_tick-Serves keyed = let (f, e, k) = schedule_tick-Kept keyed in rw e k.serves
