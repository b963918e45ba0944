-- ===== src/Sched/Policy/Kept.antt =====
-- What every step of the loops of `schedule_tick` keeps: the counts, the budget, and that each
-- item serves a session that is ready for it.
use uma_serve.Base.{
  ℕ, zero, suc, ◌+◌, ◌≤◌, ◌<◌, ◌≡◌, refl, ◌⊎◌, inl, inr, true, false, List, [], ◌∷◌, arith, ltb,
  ◌==◌, length, All, All-append, Bool-cases,
}
use uma_serve.Ipc.Session.{ClientSession, SessionPool}
use uma_serve.Sched.Policy.{
  prefill, decode, BatchItem, Filling, burst, is_decode_ready, is_prefill_ready, push_decode,
  decode_loop, chunk_of, push_prefill, prefill_step, schedule_pool,
}
use uma_serve.Sched.Policy.Serves.{
  decode_tokens, prefill_tokens, decode_tokens-append, prefill_tokens-append, Serves, IsReady,
}

pub record Kept {D : Type 0} (sessions : SessionPool D) (total : ℕ) (f : Filling) : Type 0 where
  pub decode_sum : decode_tokens f.plan.items ≡ f.plan.decode_tok_count
  pub prefill_sum : prefill_tokens f.plan.items ≡ f.plan.prefill_tok_count
  pub spent : f.plan.decode_tok_count + f.plan.prefill_tok_count + f.budget ≡ total
  pub serves : All (Serves sessions) f.plan.items

module _ {D : Type 0} (sessions : SessionPool D) (total : ℕ) where
  push_decode-Kept :
      (fd : ℕ) (f : Filling)
      → IsReady sessions is_decode_ready fd
      → 0 < f.budget
      → Kept sessions total f
      → Kept sessions total (push_decode fd f)
  unfolding push_decode
  push_decode-Kept fd f (s, e, r) h k = record {
    decode_sum = omega (
      arith,
      decode_tokens-append f.plan.items (record { fd = fd; phase = decode; n_tokens = 1 } ∷ []),
      k.decode_sum,
    );
    prefill_sum = omega (
      arith,
      prefill_tokens-append f.plan.items (record { fd = fd; phase = decode; n_tokens = 1 } ∷ []),
      k.prefill_sum,
    );
    spent = omega (arith, k.spent);
    serves = All-append _ f.plan.items _ k.serves ((s, e, (r, refl)), tt);
  }

  pub decode_loop-Kept :
      (fds : List ℕ) (f : Filling)
      → All (IsReady sessions is_decode_ready) fds
      → Kept sessions total f
      → Kept sessions total (decode_loop fds f)
  unfolding decode_loop
  decode_loop-Kept [] f a k = k
  decode_loop-Kept (fd ∷ fds) f a k = elim (Bool-cases (ltb 0 f.budget)) [
    | inl more ↦
        rw more
          (decode_loop-Kept fds (push_decode fd f) a.1 (push_decode-Kept fd f a.0 (ground arith) k))
    | inr spent ↦ rw spent k
  ]

  chunk_of_bounds :
      (s : ClientSession D) (budget : ℕ)
      → is_prefill_ready s ≡ true
      → (chunk_of s budget ≤ budget)
        × (s.prefill_idx + chunk_of s budget ≤ length s.prompt_tokens)
        × ((0 < s.first_emit_ns) ⊎ (chunk_of s budget ≤ burst))
  unfolding chunk_of
  chunk_of_bounds s budget r = ground arith

  push_prefill-Kept :
      (fd n : ℕ) (f : Filling)
      → (0 < n → Serves sessions (record { fd = fd; phase = prefill; n_tokens = n }))
      → n ≤ f.budget
      → Kept sessions total f
      → Kept sessions total (push_prefill fd n f)
  unfolding push_prefill
  push_prefill-Kept fd zero f a h k = k
  push_prefill-Kept fd (suc n) f a h k =
      let item : BatchItem = record { fd = fd; phase = prefill; n_tokens = suc n } in
      let taken : (suc n == 0) ≡ false = ground arith in
      rw (push_prefill, taken)
        (record {
          decode_sum = omega (arith, decode_tokens-append f.plan.items (item ∷ []), k.decode_sum);
          prefill_sum =
              omega (arith, prefill_tokens-append f.plan.items (item ∷ []), k.prefill_sum);
          spent = omega (arith, k.spent);
          serves = All-append _ f.plan.items (item ∷ []) k.serves (a (omega arith), tt);
        })

  prefill_step-Kept :
      (fd : ℕ) (f : Filling)
      → IsReady sessions is_prefill_ready fd
      → Kept sessions total f
      → Kept sessions total (prefill_step sessions fd f)
  unfolding prefill_step
  prefill_step-Kept fd f (s, e, r) k =
      let b = chunk_of_bounds s f.budget r in
      rw (prefill_step, e)
        (push_prefill-Kept fd (chunk_of s f.budget) f (λ pos. (s, e, (r, pos, b.1, b.2))) b.0 k)

  pub schedule_pool-Kept :
      (fds : List ℕ) (f : Filling)
      → All (IsReady sessions is_prefill_ready) fds
      → Kept sessions total f
      → Kept sessions total (schedule_pool sessions fds f)
  unfolding schedule_pool
  schedule_pool-Kept [] f a k = k
  schedule_pool-Kept (fd ∷ fds) f a k = elim (Bool-cases (f.budget == 0)) [
    | inl spent ↦ rw spent k
    | inr more ↦
        rw more
          (schedule_pool-Kept fds (prefill_step sessions fd f) a.1 (prefill_step-Kept fd f a.0 k))
  ]
