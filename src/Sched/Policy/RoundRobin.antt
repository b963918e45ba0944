-- ===== src/Sched/Policy/RoundRobin.antt =====
-- The decode cursor over several ticks: no session that stays ready is passed over for ever.
use native.Mathlib.Nat.{mod-add-mod, add-mod_right, mod-eq_of_lt}
use uma_serve.Base.{
  ℕ, zero, suc, ◌+◌, ◌-◌, ◌%◌, ◌^◌, ◌≤◌, ◌<◌, min, ◌≡◌, refl, sym, ap, ◌∙◌, ◌⊎◌, inl, inr, List, [],
  ◌∷◌, ◌++◌, map, some, arith, length, take, drop, get_elem?,
}
use uma_serve.Ipc.Session.{SessionPool}
use uma_serve.Sched.Policy.DecodeFirst.{decode_item, schedule_tick_decode_first}
use uma_serve.Sched.Policy.Rotation.{rotation-append, drop-get_elem?}
use uma_serve.Sched.Policy.{
  BatchItem, Plan, Filling, empty_plan, decode_pool, size_t_add, next_cursor, prefill_pool,
  rotation, push_prefill, prefill_step, schedule_pool, ttft_pool, rest_pool, phase_decode,
  prefill_pools, phase_prefill, schedule_tick,
}

abbrev pub cursor : Filling → ℕ
cursor f = f.plan.next_rr_decode_idx

module _ {D : Type 0} (sessions : SessionPool D) where
  prefill_step-cursor : (fd : ℕ) (f : Filling) → cursor (prefill_step sessions fd f) ≡ cursor f
  unfolding prefill_step push_prefill
  prefill_step-cursor fd f = ground arith

  schedule_pool-cursor :
      (fds : List ℕ) (f : Filling) → cursor (schedule_pool sessions fds f) ≡ cursor f
  unfolding schedule_pool
  schedule_pool-cursor [] f = refl
  schedule_pool-cursor (fd ∷ fds) f =
      ground
        (arith, schedule_pool-cursor fds (prefill_step sessions fd f), prefill_step-cursor fd f)

  pub phase_prefill-cursor :
      (pool : List ℕ) (rr : ℕ) (f : Filling) → cursor (phase_prefill sessions pool rr f) ≡ cursor f
  unfolding phase_prefill prefill_pools
  phase_prefill-cursor pool rr f =
      let order = rotation pool rr in
      let g = schedule_pool sessions (ttft_pool sessions order) f in
      ground (
        arith,
        schedule_pool-cursor (ttft_pool sessions order) f,
        schedule_pool-cursor (rest_pool sessions order) g,
      )

  schedule_tick-cursor :
      (cap target rr_decode rr_prefill : ℕ)
      → 0 < cap
      → 0 < target
      → 0 < length (decode_pool sessions)
      → (schedule_tick sessions cap target rr_decode rr_prefill).next_rr_decode_idx
        ≡ next_cursor rr_decode (decode_pool sessions)
  unfolding schedule_tick
  schedule_tick-cursor cap target rr_decode rr_prefill c t n =
      phase_prefill-cursor (prefill_pool sessions) rr_prefill _
      ∙ phase_decode-cursor (decode_pool sessions) rr_decode (min target cap) (omega arith) n
    where
      phase_decode-cursor :
          (pool : List ℕ) (rr b : ℕ)
          → 0 < b
          → 0 < length pool
          → cursor (phase_decode pool rr (record { plan = empty_plan; budget = b }))
            ≡ next_cursor rr pool
      phase_decode-cursor [] rr b h k = absurd (omega arith)
      phase_decode-cursor (x ∷ pool) rr b h k = unfold phase_decode in ground arith

-- The inputs of the ticks, one after the other: the session map, and `target_batch_` and
-- `rr_prefill_idx_` as they are then.
pub record Ticks (D : Type 0) : Type 0 where
  pub sessions : ℕ → SessionPool D
  pub target : ℕ → ℕ
  pub rr_prefill : ℕ → ℕ

get_elem?-lt : (pool : List ℕ) (j : ℕ) {fd : ℕ} → get_elem? pool j ≡ some fd → j < length pool
get_elem?-lt [] j e = cc
get_elem?-lt (x ∷ pool) zero e = omega arith
get_elem?-lt (x ∷ pool) (suc j) e = omega (arith, get_elem?-lt pool j e)

-- The order of a tick begins at the cursor.
rotation-head :
    (pool : List ℕ) (j : ℕ) {fd : ℕ}
    → length pool ≤ 2 ^ 63
    → get_elem? pool j ≡ some fd
    → (tail : List ℕ) × (rotation pool j ≡ fd ∷ tail)
rotation-head pool j small e =
    let inside = get_elem?-lt pool j e in
    let (x, g, d) = drop-get_elem? pool j inside in
    let split = rotation-append pool j (omega arith) in
    let here : j % length pool ≡ j = mod-eq_of_lt inside in
    (
      drop (suc j) pool ++ take j pool,
      rw here at split
          ∙ ap (λ xs. xs ++ take j pool) (d ∙ ap (λ y. y ∷ drop (suc j) pool) (ground arith)),
    )

items-head :
    (b : ℕ) {order : List ℕ} {items : List BatchItem} (fd : ℕ) (tail : List ℕ)
    (rest : List BatchItem)
    → 0 < b
    → order ≡ fd ∷ tail
    → items ≡ map decode_item (take b order) ++ rest
    → (more : List BatchItem) × (items ≡ decode_item fd ∷ more)
items-head zero fd tail rest h o e = absurd (omega arith)
items-head (suc b) fd tail rest h o e = (
  map decode_item (take b tail) ++ rest,
  e ∙ ap (λ xs. map decode_item (take (suc b) xs) ++ rest) o,
)

turns_to : (n rr j : ℕ) → rr < n → j < n → (k : ℕ) × (k < n) × ((rr + k) % n ≡ j)
turns_to n rr j h i = elim (split rr j) [
  | inl le ↦ (j - rr, omega arith, ground (arith, mod-eq_of_lt i))
  | inr gt ↦ (j + n - rr, omega arith, wraps)
]
  where
    split : (a b : ℕ) → (a ≤ b) ⊎ (b < a)
    split a b = omega arith

    wraps : (rr + (j + n - rr)) % n ≡ j
    wraps =
        let e : rr + (j + n - rr) ≡ j + n = omega arith in rw (e, add-mod_right) (mod-eq_of_lt i)

module _ {D : Type 0} (ticks : Ticks D) (cap rr : ℕ) where
  -- The decode cursor before tick `k`: the first is `rr`, each other is what the tick before left.
  abbrev pub cursor_at : ℕ → ℕ
  cursor_at zero = rr
  cursor_at (suc k) =
      (schedule_tick (ticks.sessions k) cap (ticks.target k) (cursor_at k)
        (ticks.rr_prefill k)).next_rr_decode_idx

  abbrev pub plan_at : ℕ → Plan
  plan_at k =
      schedule_tick (ticks.sessions k) cap (ticks.target k) (cursor_at k) (ticks.rr_prefill k)

  module _ (pool : List ℕ) (same : (k : ℕ) → decode_pool (ticks.sessions k) ≡ pool) (room : 0 < cap)
      (targets : (k : ℕ) → 0 < ticks.target k) (start : rr < length pool)
      (small : length pool ≤ 2 ^ 63) where
    cursor_at_lem : (k : ℕ) → cursor_at k ≡ (rr + k) % length pool
    cursor_at_lem zero = let e : rr + 0 ≡ rr = omega arith in rw e (sym (mod-eq_of_lt start))
    cursor_at_lem (suc k) =
        let n : 0 < length (decode_pool (ticks.sessions k)) = rw same (omega arith) in
        let c : cursor_at k < length pool = rw (cursor_at_lem k) (omega arith) in
        schedule_tick-cursor (ticks.sessions k) cap (ticks.target k) (cursor_at k)
          (ticks.rr_prefill k) room (targets k) n
        ∙ rw same (next_cursor_lem (cursor_at k) k c (cursor_at_lem k))
      where
        next_cursor_lem :
            (c k : ℕ)
            → c < length pool
            → c ≡ (rr + k) % length pool
            → next_cursor c pool ≡ (rr + suc k) % length pool
        next_cursor_lem c k h e =
            let e₁ : size_t_add c 1 ≡ (rr + k) % length pool + 1 = omega arith in
            let e₂ : rr + suc k ≡ rr + k + 1 = omega arith in
            unfold next_cursor in rw (e₁, e₂) (mod-add-mod (rr + k) (length pool) 1)

    head_served :
        (k j : ℕ) {fd : ℕ}
        → get_elem? pool j ≡ some fd
        → cursor_at k ≡ j
        → (rest : List BatchItem) × ((plan_at k).items ≡ decode_item fd ∷ rest)
    head_served k j e c =
        let (tail, o) = rotation-head pool j small e in
        let (rest, items, _) =
          schedule_tick_decode_first (ticks.sessions k) cap (ticks.target k) (cursor_at k)
            (ticks.rr_prefill k) in
        items-head (min (ticks.target k) cap) _ tail rest (omega (arith, targets k))
          (rw (same k, c) o) items

    -- Let the same sessions be ready to decode tick after tick, at most 2^63 of them, let the batch
    -- and every target have room for one token, and let the cursor at the start stand within the
    -- pool. Then within as many ticks as there are sessions, each of them stands first in a plan.
    pub schedule_tick_round_robin :
        (j : ℕ) {fd : ℕ}
        → get_elem? pool j ≡ some fd
        → (k : ℕ) × (k < length pool)
          × ((rest : List BatchItem) × ((plan_at k).items ≡ decode_item fd ∷ rest))
    schedule_tick_round_robin j e =
        let (k, inside, turned) = turns_to (length pool) rr j start (get_elem?-lt pool j e) in
        (k, inside, head_served k j e (cursor_at_lem k ∙ turned))
