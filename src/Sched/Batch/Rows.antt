-- ===== src/Sched/Batch/Rows.antt =====
-- The batch that a plan is turned into: its size, and the rows of logits that are asked for.
use uma_serve.Base.{
  ℕ, zero, suc, ◌+◌, ◌≤◌, ◌≡◌, refl, inl, inr, true, List, [], ◌∷◌, ◌++◌, some, arith,
  if◌then◌else◌, length, length-append, get_elem?, All, All-append, Option-cases, Bool-cases,
}
use uma_serve.Ipc.Session.{ClientSession, SessionPool, SessionState, find}
use uma_serve.Sched.Backend.{BatchToken}
use uma_serve.Sched.Batch.{
  SampleRef, Batch, empty_batch, push_token, prefill_rounds, enact_session, enact_item, enact,
}
use uma_serve.Sched.Policy.Serves.{entries, entries_of}
use uma_serve.Sched.Policy.{BatchItem, Phase, prefill, decode}

-- `std::count(logits.begin(), logits.end(), 1)`.
abbrev pub ones : List BatchToken → ℕ
ones [] = 0
ones (t ∷ ts) = (if t.logits then 1 else 0) + ones ts

ones-append : (xs ys : List BatchToken) → ones (xs ++ ys) ≡ ones xs + ones ys
ones-append [] ys = omega arith
ones-append (x ∷ xs) ys = omega (arith, ones-append xs ys)

-- A sample refers to an entry of the batch whose logits are asked for.
abbrev pub Refers : List BatchToken → SampleRef → Type 0
Refers ts r = (t : BatchToken) × (get_elem? ts r.batch_index ≡ some t) × (t.logits ≡ true)

get_elem?-append {ℓ} :
    {A : Type ℓ} (xs ys : List A) (i : ℕ) {x : A}
    → get_elem? xs i ≡ some x
    → get_elem? (xs ++ ys) i ≡ some x
get_elem?-append [] ys i e = cc
get_elem?-append (y ∷ xs) ys zero e = e
get_elem?-append (y ∷ xs) ys (suc i) e = get_elem?-append xs ys i e

get_elem?-last {ℓ} :
    {A : Type ℓ} (xs : List A) (x : A) → get_elem? (xs ++ x ∷ []) (length xs) ≡ some x
get_elem?-last [] x = refl
get_elem?-last (y ∷ xs) x = get_elem?-last xs x

Refers-append :
    (ts us : List BatchToken) (rs : List SampleRef)
    → All (Refers ts) rs
    → All (Refers (ts ++ us)) rs
Refers-append ts us [] a = tt
Refers-append ts us (r ∷ rs) ((t, e, l), a) =
    ((t, get_elem?-append ts us r.batch_index e, l), Refers-append ts us rs a)

pub record IsConsistent (b : Batch) : Type 0 where
  pub rows : ones b.tokens ≡ length b.samples
  pub refers : All (Refers b.tokens) b.samples

push_token-IsConsistent :
    (fd : ℕ) (before : SessionState) (t : BatchToken) (b : Batch)
    → IsConsistent b
    → IsConsistent (push_token fd before t b)
unfolding push_token
push_token-IsConsistent fd before t b c = elim (Bool-cases t.logits) [
  | inl l ↦
      let r : SampleRef = record {
        fd = fd;
        batch_index = length b.tokens;
        state_before = before;
      } in
      simp l (record {
        rows =
            ground (arith, c.rows, ones-append b.tokens (t ∷ []), length-append b.samples (r ∷ []));
        refers =
            All-append _ b.samples (r ∷ []) (Refers-append b.tokens (t ∷ []) b.samples c.refers)
              ((t, get_elem?-last b.tokens t, l), tt);
      })
  | inr l ↦ simp l (record {
    rows = ground (arith, c.rows, ones-append b.tokens (t ∷ []));
    refers = Refers-append b.tokens (t ∷ []) b.samples c.refers;
  })
]

push_token-length :
    (fd : ℕ) (before : SessionState) (t : BatchToken) (b : Batch)
    → length (push_token fd before t b).tokens ≡ length b.tokens + 1
unfolding push_token
push_token-length fd before t b = omega (arith, length-append b.tokens (t ∷ []))

-- The batch stays consistent, and grows by at most so many entries.
record Grows (n : ℕ) (b b' : Batch) : Type 0 where
  consistent : IsConsistent b → IsConsistent b'
  within : length b'.tokens ≤ length b.tokens + n

Grows-push :
    (fd : ℕ) (before : SessionState) (t : BatchToken) (n : ℕ) (b b' : Batch)
    → Grows n (push_token fd before t b) b'
    → Grows (suc n) b b'
Grows-push fd before t n b b' g = record {
  consistent = λ c. g.consistent (push_token-IsConsistent fd before t b c);
  within = omega (arith, g.within, push_token-length fd before t b);
}

Grows-refl : (n : ℕ) (b : Batch) → Grows n b b
Grows-refl n b = record { consistent = λ c. c; within = omega arith }

module _ {D : Type 0} where
  prefill_rounds-Grows :
      (base_pos n j : ℕ) (s : ClientSession D) (b : Batch)
      → Grows n b (prefill_rounds base_pos n j s b).1
  unfolding prefill_rounds
  prefill_rounds-Grows base_pos zero j s b = Grows-refl 0 b
  prefill_rounds-Grows base_pos (suc n) j s b =
      Grows-push _ _ _ n b _ (prefill_rounds-Grows base_pos n (j + 1) _ _)

  enact_session-Grows :
      (phase : Phase) (n : ℕ) (s : ClientSession D) (b : Batch)
      → Grows (entries phase n) b (enact_session phase n s b).1
  unfolding enact_session
  enact_session-Grows decode n s b = Grows-push _ _ _ 0 b _ (Grows-refl 0 _)
  enact_session-Grows prefill n s b = prefill_rounds-Grows s.n_past n 0 s b

  enact_item-Grows :
      (item : BatchItem) (sessions : SessionPool D) (b : Batch)
      → Grows (entries item.phase item.n_tokens) b (enact_item item (sessions, b)).1
  unfolding enact_item
  enact_item-Grows item sessions b = elim (Option-cases (find item.fd sessions)) [
    | inl e ↦ rw (enact_item, e) (Grows-refl _ b)
    | inr (s, e) ↦ rw (enact_item, e) (enact_session-Grows item.phase item.n_tokens s b)
  ]

  enact-Grows :
      (items : List BatchItem) (sessions : SessionPool D) (b : Batch)
      → Grows (entries_of items) b (enact items (sessions, b)).1
  unfolding enact
  enact-Grows [] sessions b = Grows-refl 0 b
  enact-Grows (item ∷ items) sessions b =
      let first = enact_item-Grows item sessions b in
      let e = enact_item item (sessions, b) in
      let rest = enact-Grows items e.0 e.1 in
      record {
        consistent = λ c. rest.consistent (first.consistent c);
        within = omega (arith, first.within, rest.within);
      }

  -- Whatever the plan, the batch has one entry at most for each token that the plan gives, as many
  -- rows of logits are asked for as there are samples, and every sample refers to such a row.
  pub enact-IsConsistent :
      (items : List BatchItem) (sessions : SessionPool D)
      → let b = (enact items (sessions, empty_batch)).1 in
        (length b.tokens ≤ entries_of items)
        × (ones b.tokens ≡ length b.samples)
        × All (Refers b.tokens) b.samples
  enact-IsConsistent items sessions =
      let g = enact-Grows items sessions empty_batch in
      let c = g.consistent (record { rows = refl; refers = tt }) in
      (omega (arith, g.within), c.rows, c.refers)
