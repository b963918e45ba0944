-- ===== src/Sched/Policy/Listed.antt =====
-- A session that is ready to decode, where the budget is enough for all: the plan names it once, to
-- decode. A session that is ready for nothing is not named.
use uma_serve.Base.{
  ℕ, zero, suc, ◌+◌, ◌≤◌, ◌≡◌, min, refl, sym, ap, subst, ◌∙◌, inl, inr, true, false, List, [], ◌∷◌,
  ◌++◌, map, Option, none, some, arith, ◌==◌, length, take, if◌then◌else◌, All, All-append, count,
  count-Absent, Distinct-count, Bool-cases, Distinct,
}
use uma_serve.Ipc.Session.{ClientSession, SessionPool, find}
use uma_serve.Ipc.Session.Lookup.{IsKeyed, Own, keys}
use uma_serve.Sched.Batch.Served.{IsDecodeItem}
use uma_serve.Sched.Policy.DecodeFirst.{decode_item, schedule_tick_decode_first}
use uma_serve.Sched.Policy.Once.{fds_of, pools_named, CursorFits, schedule_tick-named}
use uma_serve.Sched.Policy.Rotation.{count-rotation}
use uma_serve.Sched.Policy.{
  BatchItem, is_decode_ready, is_prefill_ready, decode_pool, prefill_pool, rounds, rotation,
  schedule_tick,
}

length-rounds : (pool : List ℕ) (rr n i : ℕ) → length (rounds pool rr n i) ≤ n
unfolding rounds
length-rounds pool rr zero i = omega arith
length-rounds pool rr (suc n) i = ground (arith, length-rounds pool rr n (i + 1))

take-all {ℓ} : {A : Type ℓ} (n : ℕ) (xs : List A) → length xs ≤ n → take n xs ≡ xs
take-all zero [] h = refl
take-all (suc n) [] h = refl
take-all zero (x ∷ xs) h = absurd (omega arith)
take-all (suc n) (x ∷ xs) h = ap (◌∷◌ x) (take-all n xs (omega arith))

take-rotation :
    (pool : List ℕ) (rr n : ℕ) → length pool ≤ n → take n (rotation pool rr) ≡ rotation pool rr
unfolding rotation
take-rotation pool rr n h =
    take-all n (rounds pool rr (length pool) 0)
      (omega (arith, length-rounds pool rr (length pool) 0))

fds_of-decode_items : (fds : List ℕ) → fds_of (map decode_item fds) ≡ fds
fds_of-decode_items [] = refl
fds_of-decode_items (fd ∷ fds) = ap (◌∷◌ fd) (fds_of-decode_items fds)

count-fds_of :
    (a : ℕ) (xs ys : List BatchItem)
    → count a (fds_of (xs ++ ys)) ≡ count a (fds_of xs) + count a (fds_of ys)
count-fds_of a [] ys = omega arith
count-fds_of a (x ∷ xs) ys = omega (arith, count-fds_of a xs ys)

decode_items-decode : (a : ℕ) (fds : List ℕ) → All (IsDecodeItem a) (map decode_item fds)
decode_items-decode a [] = tt
decode_items-decode a (fd ∷ fds) = (λ e. refl, decode_items-decode a fds)

absent-decode :
    (a : ℕ) (items : List BatchItem) → count a (fds_of items) ≡ 0 → All (IsDecodeItem a) items
absent-decode a [] h = tt
absent-decode a (item ∷ items) h = (λ e. ground arith, absent-decode a items (ground arith))

module _ {D : Type 0} where
  pub decode_pool-length :
      (sessions : SessionPool D) → length (decode_pool sessions) ≤ length sessions
  unfolding decode_pool
  decode_pool-length [] = omega arith
  decode_pool-length ((k, s) ∷ pool) = ground (arith, decode_pool-length pool)

  pub prefill_pool-length :
      (sessions : SessionPool D) → length (prefill_pool sessions) ≤ length sessions
  unfolding prefill_pool
  prefill_pool-length [] = omega arith
  prefill_pool-length ((k, s) ∷ pool) = ground (arith, prefill_pool-length pool)

  abbrev ready_count : Option (ClientSession D) → ℕ
  ready_count none = 0
  ready_count (some s) = if is_decode_ready s then 1 else 0

  decode_pool-count :
      (a : ℕ) (sessions : SessionPool D)
      → Own sessions
      → Distinct (keys sessions)
      → count a (decode_pool sessions) ≡ ready_count (find a sessions)
  unfolding decode_pool find
  decode_pool-count a [] o d = refl
  decode_pool-count a ((k, s) ∷ pool) o d = elim (Bool-cases (k == a)) [
    | inl e ↦
        let own : k ≡ a = ground arith in
        let absent = count-Absent k (keys pool) d.0 in
        ground (arith, o.0, pools_named a pool o.1, absent)
    | inr e ↦ ground (arith, o.0, decode_pool-count a pool o.1 d.1)
  ]

  prefill_pool-idle :
      (a : ℕ) (sessions : SessionPool D) (s : ClientSession D)
      → Own sessions
      → Distinct (keys sessions)
      → find a sessions ≡ some s
      → is_prefill_ready s ≡ false
      → count a (prefill_pool sessions) ≡ 0
  unfolding prefill_pool find
  prefill_pool-idle a [] s o d e r = refl
  prefill_pool-idle a ((k, t) ∷ pool) s o d e r = elim (Bool-cases (k == a)) [
    | inl same ↦
        let own : k ≡ a = ground arith in
        let absent = count-Absent k (keys pool) d.0 in
        ground (arith, o.0, pools_named a pool o.1, absent)
    | inr other ↦
        let rest = prefill_pool-idle a pool s o.1 d.1 (ground arith) r in ground (arith, o.0)
  ]

  module _ (sessions : SessionPool D) (cap target rr_decode rr_prefill a : ℕ)
      (keyed : IsKeyed sessions) (fits : CursorFits rr_decode (decode_pool sessions))
      (fits' : CursorFits rr_prefill (prefill_pool sessions)) where
    abbrev items : List BatchItem
    items = (schedule_tick sessions cap target rr_decode rr_prefill).items

    pub schedule_tick-decodes :
        (s : ClientSession D)
        → find a sessions ≡ some s
        → is_decode_ready s ≡ true
        → length sessions ≤ min target cap
        → (count a (fds_of items) ≡ 1) × All (IsDecodeItem a) items
    schedule_tick-decodes s e r l =
        let (rest, split, p) =
          schedule_tick_decode_first sessions cap target rr_decode rr_prefill in
        let pool = decode_pool sessions in
        let served : List BatchItem = map decode_item (rotation pool rr_decode) in
        let all : take (min target cap) (rotation pool rr_decode) ≡ rotation pool rr_decode =
          take-rotation pool rr_decode (min target cap)
            (omega (arith, decode_pool-length sessions)) in
        let split' : items ≡ served ++ rest = split ∙ ap (λ x. map decode_item x ++ rest) all in
        let ready : count a pool ≡ 1 =
          decode_pool-count a sessions keyed.own keyed.distinct ∙ rw (e, r) refl in
        let once : count a (fds_of served) ≡ 1 =
          ap (count a) (fds_of-decode_items (rotation pool rr_decode))
          ∙ count-rotation pool rr_decode fits a
          ∙ ready in
        let total : count a (fds_of items) ≡ count a (fds_of served) + count a (fds_of rest) =
          ap (λ x. count a (fds_of x)) split' ∙ count-fds_of a served rest in
        let bound = schedule_tick-named sessions cap target rr_decode rr_prefill a fits fits' in
        let pools = pools_named a sessions keyed.own in
        let distinct = Distinct-count a (keys sessions) keyed.distinct in
        (
          omega arith,
          subst (All (IsDecodeItem a)) (sym split') (
              All-append (IsDecodeItem a) served rest
                (decode_items-decode a (rotation pool rr_decode))
                (absent-decode a rest (omega arith))),
        )

    pub schedule_tick-idle :
        (s : ClientSession D)
        → find a sessions ≡ some s
        → is_decode_ready s ≡ false
        → is_prefill_ready s ≡ false
        → count a (fds_of items) ≡ 0
    schedule_tick-idle s e r r' =
        let none_ready : count a (decode_pool sessions) ≡ 0 =
          decode_pool-count a sessions keyed.own keyed.distinct ∙ rw (e, r) refl in
        let none_waits = prefill_pool-idle a sessions s keyed.own keyed.distinct e r' in
        omega (arith, schedule_tick-named sessions cap target rr_decode rr_prefill a fits fits')
