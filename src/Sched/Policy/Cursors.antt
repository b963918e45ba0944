-- ===== src/Sched/Policy/Cursors.antt =====
-- The cursors that a plan leaves are at most as large as the pools.
use uma_serve.Base.{ℕ, ◌≤◌, min, List, [], ◌∷◌, arith, length}
use uma_serve.Ipc.Session.{SessionPool}
use uma_serve.Sched.Policy.{
  Filling, empty_plan, decode_pool, next_cursor, prefill_pool, phase_decode, phase_prefill,
  schedule_tick,
}
use uma_serve.Sched.Policy.RoundRobin.{cursor, phase_prefill-cursor}

next_cursor-small : (rr x : ℕ) (pool : List ℕ) → next_cursor rr (x ∷ pool) ≤ length (x ∷ pool)
unfolding next_cursor
next_cursor-small rr x pool = omega arith

phase_decode-small :
    (pool : List ℕ) (rr : ℕ) (f : Filling) → cursor (phase_decode pool rr f) ≤ length pool
unfolding phase_decode
phase_decode-small [] rr f = omega arith
phase_decode-small (x ∷ pool) rr f = ground (arith, next_cursor-small rr x pool)

module _ {D : Type 0} (sessions : SessionPool D) where
  phase_prefill-small :
      (pool : List ℕ) (rr : ℕ) (f : Filling)
      → (phase_prefill sessions pool rr f).plan.next_rr_prefill_idx ≤ length pool
  unfolding phase_prefill
  phase_prefill-small [] rr f = omega arith
  phase_prefill-small (x ∷ pool) rr f = ground (arith, next_cursor-small rr x pool)

  pub schedule_tick-cursors :
      (cap target rr_decode rr_prefill : ℕ)
      → let plan = schedule_tick sessions cap target rr_decode rr_prefill in
        (plan.next_rr_decode_idx ≤ length (decode_pool sessions))
        × (plan.next_rr_prefill_idx ≤ length (prefill_pool sessions))
  unfolding schedule_tick
  schedule_tick-cursors cap target rr_decode rr_prefill =
      let f : Filling = record { plan = empty_plan; budget = min target cap } in
      let g = phase_decode (decode_pool sessions) rr_decode f in
      (
        omega (
          arith,
          phase_decode-small (decode_pool sessions) rr_decode f,
          phase_prefill-cursor sessions (prefill_pool sessions) rr_prefill g,
        ),
        phase_prefill-small (prefill_pool sessions) rr_prefill g,
      )
