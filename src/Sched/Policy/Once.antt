-- ===== src/Sched/Policy/Once.antt =====
-- A plan names no session twice.
use uma_serve.Base.{
  ℕ, ◌+◌, ◌^◌, ◌≤◌, min, ◌≡◌, inl, inr, List, [], ◌∷◌, ◌++◌, map, arith, ltb, ◌==◌, length, All,
  count, Distinct, Distinct-count, count-Distinct, Option-cases, Bool-cases,
}
use uma_serve.Ipc.Session.{ClientSession, SessionPool, find}
use uma_serve.Ipc.Session.Lookup.{IsKeyed, keys}
use uma_serve.Sched.Policy.Rotation.{count-rotation}
use uma_serve.Sched.Policy.{
  BatchItem, Filling, decode, prefill, empty_plan, is_decode_ready, is_prefill_ready, decode_pool,
  prefill_pool, rotation, push_decode, decode_loop, chunk_of, push_prefill, prefill_step,
  schedule_pool, ttft_pool, rest_pool, phase_decode, prefill_pools, phase_prefill, schedule_tick,
}

abbrev pub fds_of : List BatchItem → List ℕ
fds_of = map (λ item. item.fd)

-- How often the items so far name a session.
abbrev named : ℕ → Filling → ℕ
named a f = count a (fds_of f.plan.items)

fds_of-append :
    (a : ℕ) (xs : List BatchItem) (x : BatchItem)
    → count a (fds_of (xs ++ x ∷ [])) ≡ count a (fds_of xs) + count a (x.fd ∷ [])
fds_of-append a [] x = omega arith
fds_of-append a (y ∷ xs) x = omega (arith, fds_of-append a xs x)

module _ (a : ℕ) where
  decode_loop-named :
      (fds : List ℕ) (f : Filling) → named a (decode_loop fds f) ≤ named a f + count a fds
  unfolding decode_loop
  decode_loop-named [] f = omega arith
  decode_loop-named (fd ∷ fds) f = elim (Bool-cases (ltb 0 f.budget)) [
    | inl more ↦ rw more (
        unfold push_decode in
        omega (
          arith,
          decode_loop-named fds (push_decode fd f),
          fds_of-append a f.plan.items (record { fd = fd; phase = decode; n_tokens = 1 }),
        ))
    | inr spent ↦ rw spent (omega arith)
  ]

module _ {D : Type 0} (sessions : SessionPool D) (a : ℕ) where
  prefill_step-named :
      (fd : ℕ) (f : Filling) → named a (prefill_step sessions fd f) ≤ named a f + count a (fd ∷ [])
  unfolding prefill_step
  prefill_step-named fd f = elim (Option-cases (find fd sessions)) [
    | inl e ↦ rw (prefill_step, e) (omega arith)
    | inr (s, e) ↦
        rw (prefill_step, e)
          (elim (Bool-cases (chunk_of s f.budget == 0)) [
            | inl z ↦ rw (push_prefill, z) (omega arith)
            | inr z ↦
                rw (push_prefill, z)
                  (omega (
                    arith,
                    fds_of-append a f.plan.items
                        (record { fd = fd; phase = prefill; n_tokens = chunk_of s f.budget }),
                  ))
          ])
  ]

  schedule_pool-named :
      (fds : List ℕ) (f : Filling)
      → named a (schedule_pool sessions fds f) ≤ named a f + count a fds
  unfolding schedule_pool
  schedule_pool-named [] f = omega arith
  schedule_pool-named (fd ∷ fds) f = elim (Bool-cases (f.budget == 0)) [
    | inl spent ↦ rw spent (omega arith)
    | inr more ↦ rw more (
        omega
          (arith, schedule_pool-named fds (prefill_step sessions fd f), prefill_step-named fd f))
  ]

  pools-split :
      (fds : List ℕ)
      → count a (ttft_pool sessions fds) + count a (rest_pool sessions fds) ≤ count a fds
  unfolding ttft_pool rest_pool
  pools-split [] = omega arith
  pools-split (fd ∷ fds) = ground (arith, pools-split fds)

  prefill_pools-named :
      (order : List ℕ) (f : Filling)
      → named a (prefill_pools sessions order f) ≤ named a f + count a order
  unfolding prefill_pools
  prefill_pools-named order f =
      let g = schedule_pool sessions (ttft_pool sessions order) f in
      ground (
        arith,
        schedule_pool-named (ttft_pool sessions order) f,
        schedule_pool-named (rest_pool sessions order) g,
        pools-split order,
      )

module _ {D : Type 0} (a : ℕ) where
  pub pools_named :
      (sessions : SessionPool D)
      → All (λ (kv : ℕ × ClientSession D). kv.1.fd ≡ kv.0) sessions
      → count a (decode_pool sessions) + count a (prefill_pool sessions) ≤ count a (keys sessions)
  unfolding decode_pool prefill_pool
  pools_named [] o = omega arith
  pools_named ((k, s) ∷ pool) o = elim (Bool-cases (is_decode_ready s)) [
    | inl d ↦ rw d (ground (arith, pools_named pool o.1, o.0))
    | inr d ↦ elim (Bool-cases (is_prefill_ready s)) [
      | inl p ↦ rw (d, p) (ground (arith, pools_named pool o.1, o.0))
      | inr p ↦ rw (d, p) (ground (arith, pools_named pool o.1))
    ]
  ]

-- The cursor plus the size of a pool does not wrap.
abbrev pub CursorFits : ℕ → List ℕ → Type 0
CursorFits rr pool = rr + length pool ≤ 2 ^ 64

module _ (a : ℕ) where
  phase_decode-named :
      (pool : List ℕ) (rr : ℕ) (f : Filling)
      → CursorFits rr pool
      → named a (phase_decode pool rr f) ≤ named a f + count a pool
  unfolding phase_decode
  phase_decode-named pool rr f fits =
      ground (arith, decode_loop-named a (rotation pool rr) f, count-rotation pool rr fits a)

  phase_prefill-named :
      {D : Type 0} (sessions : SessionPool D) (pool : List ℕ) (rr : ℕ) (f : Filling)
      → CursorFits rr pool
      → named a (phase_prefill sessions pool rr f) ≤ named a f + count a pool
  unfolding phase_prefill
  phase_prefill-named sessions pool rr f fits =
      ground
        (arith, prefill_pools-named sessions a (rotation pool rr) f, count-rotation pool rr fits a)

-- A plan names a session at most as often as the pools do.
pub schedule_tick-named :
    {D : Type 0} (sessions : SessionPool D) (cap target rr_decode rr_prefill a : ℕ)
    → CursorFits rr_decode (decode_pool sessions)
    → CursorFits rr_prefill (prefill_pool sessions)
    → count a (fds_of (schedule_tick sessions cap target rr_decode rr_prefill).items)
      ≤ count a (decode_pool sessions) + count a (prefill_pool sessions)
unfolding schedule_tick
schedule_tick-named sessions cap target rr_decode rr_prefill a d p =
    let f : Filling = record { plan = empty_plan; budget = min target cap } in
    let g = phase_decode (decode_pool sessions) rr_decode f in
    omega (
      arith,
      phase_decode-named a (decode_pool sessions) rr_decode f d,
      phase_prefill-named a sessions (prefill_pool sessions) rr_prefill g p,
    )

-- In a map that holds each session under its own descriptor, and with cursors that do not wrap, no
-- session stands in two items of a plan.
pub schedule_tick_once :
    {D : Type 0} (sessions : SessionPool D) (cap target rr_decode rr_prefill : ℕ)
    → IsKeyed sessions
    → CursorFits rr_decode (decode_pool sessions)
    → CursorFits rr_prefill (prefill_pool sessions)
    → Distinct (fds_of (schedule_tick sessions cap target rr_decode rr_prefill).items)
schedule_tick_once sessions cap target rr_decode rr_prefill keyed d p = count-Distinct _ λ a.
    omega (
      arith,
      schedule_tick-named sessions cap target rr_decode rr_prefill a d p,
      pools_named a sessions keyed.own,
      Distinct-count a (keys sessions) keyed.distinct,
    )
