-- ===== src/Sched/Guard/Named.antt =====
-- The guard leaves the sessions and the phases of a plan.
use uma_serve.Base.{ℕ, ◌≡◌, refl, ap, List, [], ◌∷◌, map}
use uma_serve.Ipc.Session.{SessionPool}
use uma_serve.Sched.Guard.{Trim, trim_items, bmt_guard}
use uma_serve.Sched.Policy.{BatchItem, Phase, Plan}

-- The session and the phase of each item.
abbrev pub targets : List BatchItem → List (ℕ × Phase)
targets = map (λ (item : BatchItem). (item.fd, item.phase))

module _ {D : Type 0} (sessions : SessionPool D) (budget : ℕ) where
  trim_items-targets :
      (items : List BatchItem) (t : Trim)
      → targets (trim_items sessions budget items t).0 ≡ targets items
  unfolding trim_items
  trim_items-targets [] t = refl
  trim_items-targets (item ∷ items) t = ap (◌∷◌ (item.fd, item.phase)) (trim_items-targets items t)

  pub bmt_guard-targets :
      (plan : Plan) → targets (bmt_guard sessions budget plan).plan.items ≡ targets plan.items
  unfolding bmt_guard
  bmt_guard-targets plan = trim_items-targets plan.items _
