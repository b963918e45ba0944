-- ===== src/Sched/Policy.antt =====
-- sched/policy.cpp and sched/policy.h: the plan of one tick.
-- `int32_t` budgets and counts are numbers: they start at `min(target_batch, batch_cap)`, which is
-- not negative, and a step takes no more than is left. Sums of `size_t` wrap at 2^64.
pub mod Rotation
pub mod Serves
mod Kept
pub mod Budget
pub mod Once
pub mod DecodeFirst
pub mod RoundRobin
pub mod Listed
pub mod Cursors
use uma_serve.Base.{
  ℕ, zero, suc, ◌+◌, ◌-◌, ◌%◌, ◌^◌, min, Bool, true, false, not, ◌&&◌, List, [], ◌∷◌, ◌++◌, Option,
  none, some, ltb, ◌==◌, if◌then◌else◌, length, get_elem?,
}
use uma_serve.Ipc.Session.{ClientSession, SessionPool, is_prefill, is_decode, find}

pub data Phase : Type 0 where
  prefill decode : Phase

pub record BatchItem : Type 0 where
  pub fd : ℕ
  pub phase : Phase
  pub n_tokens : ℕ

pub record Plan : Type 0 where
  pub items : List BatchItem
  pub next_rr_decode_idx : ℕ
  pub next_rr_prefill_idx : ℕ
  pub decode_tok_count : ℕ
  pub prefill_tok_count : ℕ

abbrev pub empty_plan : Plan
empty_plan = record {
  items = [];
  next_rr_decode_idx = 0;
  next_rr_prefill_idx = 0;
  decode_tok_count = 0;
  prefill_tok_count = 0;
}

-- The local variables that the loops of `schedule_tick` write.
pub record Filling : Type 0 where
  pub plan : Plan
  pub budget : ℕ

abbrev pub size_t_add : ℕ → ℕ → ℕ
size_t_add a b = (a + b) % 2 ^ 64

abbrev pub size_t_sub : ℕ → ℕ → ℕ
size_t_sub a b = (a + 2 ^ 64 - b) % 2 ^ 64

abbrev pub int_max : ℕ
int_max = 2 ^ 31 - 1

abbrev pub burst : ℕ
burst = 16

module _ {D : Type 0} where
  abbrev pub is_decode_ready : ClientSession D → Bool
  is_decode_ready s = is_decode s.state && s.has_pending_tok

  abbrev pub is_prefill_ready : ClientSession D → Bool
  is_prefill_ready s = is_prefill s.state && ltb s.prefill_idx (length s.prompt_tokens)

  unfoldable pub decode_pool : SessionPool D → List ℕ
  decode_pool [] = []
  decode_pool ((k, s) ∷ pool) =
      if is_decode_ready s then s.fd ∷ decode_pool pool else decode_pool pool

  unfoldable pub prefill_pool : SessionPool D → List ℕ
  prefill_pool [] = []
  prefill_pool ((k, s) ∷ pool) =
      if is_decode_ready s
      then prefill_pool pool
      else if is_prefill_ready s
      then s.fd ∷ prefill_pool pool
      else prefill_pool pool

-- `pool[(rr + i) % N]` for the rounds that are left, `i` being the next.
pub rounds : List ℕ → ℕ → ℕ → ℕ → List ℕ
rounds pool rr zero i = []
rounds pool rr (suc n) i = elim (get_elem? pool (size_t_add rr i % length pool)) [
  | none ↦ rounds pool rr n (i + 1)
  | some fd ↦ fd ∷ rounds pool rr n (i + 1)
]

-- The descriptors in the order in which the two round-robin loops visit them.
unfoldable pub rotation : List ℕ → ℕ → List ℕ
unfolding rounds
rotation pool rr = rounds pool rr (length pool) 0

pub push_item : BatchItem → Plan → Plan
push_item item plan = record plan { items = plan.items ++ item ∷ [] }

pub push_decode : ℕ → Filling → Filling
unfolding push_item
push_decode fd f = record {
  plan = record (push_item (record { fd = fd; phase = decode; n_tokens = 1 }) f.plan) {
    decode_tok_count = f.plan.decode_tok_count + 1;
  };
  budget = f.budget - 1;
}

-- Phase A: one token for each session, while the budget lasts.
pub decode_loop : List ℕ → Filling → Filling
unfolding push_decode
decode_loop [] f = f
decode_loop (fd ∷ fds) f = if ltb 0 f.budget then decode_loop fds (push_decode fd f) else f

pub push_prefill : ℕ → ℕ → Filling → Filling
unfolding push_item
push_prefill fd chunk f = if chunk == 0 then f else record {
  plan = record (push_item (record { fd = fd; phase = prefill; n_tokens = chunk }) f.plan) {
    prefill_tok_count = f.plan.prefill_tok_count + chunk;
  };
  budget = f.budget - chunk;
}

module _ {D : Type 0} where
  -- The chunk that `schedule_pool` takes of one session.
  unfoldable pub chunk_of : ClientSession D → ℕ → ℕ
  chunk_of s budget =
      let remain = min (size_t_sub (length s.prompt_tokens) s.prefill_idx) int_max in
      let chunk = min remain budget in if s.first_emit_ns == 0 then min chunk burst else chunk

  pub prefill_step : SessionPool D → ℕ → Filling → Filling
  unfolding push_prefill
  prefill_step sessions fd f = elim (find fd sessions) [
    | none ↦ f
    | some s ↦ push_prefill fd (chunk_of s f.budget) f
  ]

  -- The lambda `schedule_pool`.
  pub schedule_pool : SessionPool D → List ℕ → Filling → Filling
  unfolding prefill_step
  schedule_pool sessions [] f = f
  schedule_pool sessions (fd ∷ fds) f =
      if f.budget == 0 then f else schedule_pool sessions fds (prefill_step sessions fd f)

  -- The sessions that have emitted nothing yet, and the others.
  pub ttft_pool : SessionPool D → List ℕ → List ℕ
  ttft_pool sessions [] = []
  ttft_pool sessions (fd ∷ fds) = elim (find fd sessions) [
    | none ↦ ttft_pool sessions fds
    | some s ↦ if s.first_emit_ns == 0 then fd ∷ ttft_pool sessions fds else ttft_pool sessions fds
  ]

  pub rest_pool : SessionPool D → List ℕ → List ℕ
  rest_pool sessions [] = []
  rest_pool sessions (fd ∷ fds) = elim (find fd sessions) [
    | none ↦ rest_pool sessions fds
    | some s ↦ if s.first_emit_ns == 0 then rest_pool sessions fds else fd ∷ rest_pool sessions fds
  ]

-- The cursor for the next tick, of a pool that is not empty.
unfoldable pub next_cursor : ℕ → List ℕ → ℕ
next_cursor rr pool = size_t_add rr 1 % length pool

abbrev pub is_empty : List ℕ → Bool
is_empty [] = true
is_empty (x ∷ xs) = false

pub phase_decode : List ℕ → ℕ → Filling → Filling
unfolding decode_loop next_cursor
phase_decode pool rr f =
    if not (is_empty pool) && ltb 0 f.budget
    then (let g = decode_loop (rotation pool rr) f in
        record g { plan = record g.plan { next_rr_decode_idx = next_cursor rr pool } })
    else record f { plan = record f.plan { next_rr_decode_idx = 0 } }

module _ {D : Type 0} where
  -- Both calls of `schedule_pool`; the second is made only with a budget.
  pub prefill_pools : SessionPool D → List ℕ → Filling → Filling
  unfolding schedule_pool ttft_pool rest_pool
  prefill_pools sessions order f =
      let g = schedule_pool sessions (ttft_pool sessions order) f in
      if ltb 0 g.budget then schedule_pool sessions (rest_pool sessions order) g else g

  pub phase_prefill : SessionPool D → List ℕ → ℕ → Filling → Filling
  unfolding prefill_pools next_cursor
  phase_prefill sessions pool rr f =
      if not (is_empty pool) && ltb 0 f.budget
      then (let g = prefill_pools sessions (rotation pool rr) f in
          record g { plan = record g.plan { next_rr_prefill_idx = next_cursor rr pool } })
      else record f { plan = record f.plan { next_rr_prefill_idx = 0 } }

  -- `BaselinePolicy::schedule_tick`.
  unfoldable pub schedule_tick : SessionPool D → ℕ → ℕ → ℕ → ℕ → Plan
  unfolding phase_decode phase_prefill decode_pool prefill_pool
  schedule_tick sessions batch_cap target_batch rr_decode_idx rr_prefill_idx =
      let f : Filling = record { plan = empty_plan; budget = min target_batch batch_cap } in
      let g = phase_decode (decode_pool sessions) rr_decode_idx f in
      (phase_prefill sessions (prefill_pool sessions) rr_prefill_idx g).plan
