-- ===== src/Sched/Batch/Keyed.antt =====
-- Enacting a plan leaves the map of sessions keyed.
use uma_serve.Base.{ℕ, zero, suc, ◌+◌, ◌≡◌, refl, ◌∙◌, inl, inr, List, [], ◌∷◌, Option-cases}
use uma_serve.Ipc.Session.{ClientSession, SessionPool, find}
use uma_serve.Ipc.Session.Lookup.{IsKeyed, find-fd, store-IsKeyed}
use uma_serve.Sched.Batch.{Batch, prefill_rounds, enact_session, enact_item, enact}
use uma_serve.Sched.Policy.{BatchItem, Phase, prefill, decode}

module _ {D : Type 0} where
  prefill_rounds-fd :
      (base n j : ℕ) (s : ClientSession D) (b : Batch) → (prefill_rounds base n j s b).0.fd ≡ s.fd
  unfolding prefill_rounds
  prefill_rounds-fd base zero j s b = refl
  prefill_rounds-fd base (suc n) j s b = prefill_rounds-fd base n (j + 1) _ _

  pub enact_session-fd :
      (phase : Phase) (n : ℕ) (s : ClientSession D) (b : Batch)
      → (enact_session phase n s b).0.fd ≡ s.fd
  unfolding enact_session
  enact_session-fd decode n s b = refl
  enact_session-fd prefill n s b = prefill_rounds-fd s.n_past n 0 s b

  pub enact_item-IsKeyed :
      (item : BatchItem) (e : SessionPool D × Batch) → IsKeyed e.0 → IsKeyed (enact_item item e).0
  unfolding enact_item
  enact_item-IsKeyed item (sessions, b) h = elim (Option-cases (find item.fd sessions)) [
    | inl e ↦ rw (enact_item, e) h
    | inr (s, e) ↦
        let same = enact_session-fd item.phase item.n_tokens s b ∙ find-fd item.fd sessions s h e in
        rw (enact_item, e) (store-IsKeyed item.fd _ sessions same h)
  ]

  pub enact-IsKeyed :
      (items : List BatchItem) (e : SessionPool D × Batch) → IsKeyed e.0 → IsKeyed (enact items e).0
  unfolding enact
  enact-IsKeyed [] e h = h
  enact-IsKeyed (item ∷ items) e h =
      enact-IsKeyed items (enact_item item e) (enact_item-IsKeyed item e h)
