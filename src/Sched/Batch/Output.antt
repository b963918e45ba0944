-- ===== src/Sched/Batch/Output.antt =====
-- Enacting a plan leaves the output and the sequence of every session alone.
use uma_serve.Base.{ℕ, zero, suc, ◌+◌, ◌≡◌, refl, ◌∙◌, inl, inr, List, [], ◌∷◌, Option-cases}
use uma_serve.Ipc.Manager.Output.{pending, pending-store_same}
use uma_serve.Ipc.Session.{ClientSession, SessionPool, find}
use uma_serve.Ipc.Session.Lookup.{identities, identities-store}
use uma_serve.Sched.Batch.{Batch, prefill_rounds, enact_session, enact_item, enact}
use uma_serve.Sched.Policy.{BatchItem, Phase, prefill, decode}

module _ {D : Type 0} where
  record Same (s s' : ClientSession D) : Type 0 where
    tx : s'.tx ≡ s.tx
    seq : s'.seq ≡ s.seq

  prefill_rounds-Same :
      (base n j : ℕ) (s : ClientSession D) (b : Batch) → Same s (prefill_rounds base n j s b).0
  unfolding prefill_rounds
  prefill_rounds-Same base zero j s b = record { tx = refl; seq = refl }
  prefill_rounds-Same base (suc n) j s b =
      let r = prefill_rounds-Same base n (j + 1) _ _ in record { tx = r.tx; seq = r.seq }

  enact_session-Same :
      (phase : Phase) (n : ℕ) (s : ClientSession D) (b : Batch)
      → Same s (enact_session phase n s b).0
  unfolding enact_session
  enact_session-Same decode n s b = record { tx = refl; seq = refl }
  enact_session-Same prefill n s b =
      let r = prefill_rounds-Same s.n_past n 0 s b in record { tx = r.tx; seq = r.seq }

  enact_item-pending :
      (j : ℕ) (item : BatchItem) (e : SessionPool D × Batch)
      → pending j (enact_item item e).0 ≡ pending j e.0
  unfolding enact_item
  enact_item-pending j item (sessions, b) = elim (Option-cases (find item.fd sessions)) [
    | inl e ↦ rw (enact_item, e) refl
    | inr (s, e) ↦
        rw (enact_item, e)
          (pending-store_same item.fd j s _ sessions e
            (enact_session-Same item.phase item.n_tokens s b).tx)
  ]

  enact_item-identities :
      (item : BatchItem) (e : SessionPool D × Batch)
      → identities (enact_item item e).0 ≡ identities e.0
  unfolding enact_item
  enact_item-identities item (sessions, b) = elim (Option-cases (find item.fd sessions)) [
    | inl e ↦ rw (enact_item, e) refl
    | inr (s, e) ↦
        rw (enact_item, e)
          (identities-store item.fd s _ sessions e
            (enact_session-Same item.phase item.n_tokens s b).seq)
  ]

  pub enact-pending :
      (j : ℕ) (items : List BatchItem) (e : SessionPool D × Batch)
      → pending j (enact items e).0 ≡ pending j e.0
  unfolding enact
  enact-pending j [] e = refl
  enact-pending j (item ∷ items) e =
      enact-pending j items (enact_item item e) ∙ enact_item-pending j item e

  pub enact-identities :
      (items : List BatchItem) (e : SessionPool D × Batch)
      → identities (enact items e).0 ≡ identities e.0
  unfolding enact
  enact-identities [] e = refl
  enact-identities (item ∷ items) e =
      enact-identities items (enact_item item e) ∙ enact_item-identities item e
