-- ===== src/Sched/Sampling/Chosen.antt =====
-- The token that is sampled is one of the vocabulary.
use uma_serve.Base.{
  ℕ, zero, suc, ◌+◌, ◌-◌, ◌≤◌, ◌<◌, ◌≡◌, subst, Bool, true, false, not, ◌||◌, List, [], ◌∷◌, map,
  take, arith, inl, inr, Bool-cases, All, count, if◌then◌else◌,
}
use uma_serve.Sched.Sampling.{
  SampleOps, SamplingParams, head_or, iota, greedy_from, draw, used, sorted, weights, total, cut_of,
  draw_nucleus, nucleus, sample,
}

All-take : (m n : ℕ) (xs : List ℕ) → All (λ x. x < m) xs → All (λ x. x < m) (take n xs)
All-take m zero xs h = tt
All-take m (suc n) [] h = tt
All-take m (suc n) (x ∷ xs) h = (h.0, All-take m n xs h.1)

-- What holds of every element of a list holds of what is counted in it, and the other way round.
All-counted : (n a : ℕ) (xs : List ℕ) → All (λ x. x < n) xs → 0 < count a xs → a < n
All-counted n a [] h c = absurd (omega (arith, c))
All-counted n a (x ∷ xs) h c = ground (arith, h.0, c, All-counted n a xs h.1)

counted-All : (n : ℕ) (xs : List ℕ) → ((a : ℕ) → 0 < count a xs → a < n) → All (λ x. x < n) xs
counted-All n [] h = tt
counted-All n (x ∷ xs) h = (h x (ground arith), counted-All n xs (λ a c. h a (omega (arith, c))))

iota-bounded : (i n m : ℕ) → i + n ≤ m → All (λ x. x < m) (iota i n)
unfolding iota
iota-bounded i zero m h = tt
iota-bounded i (suc n) m h = (omega (arith, h), iota-bounded (suc i) n m (omega (arith, h)))

head_or-bounded : (d m : ℕ) (xs : List ℕ) → d < m → All (λ x. x < m) xs → head_or d xs < m
unfolding head_or
head_or-bounded d m [] h a = h
head_or-bounded d m (x ∷ xs) h a = a.0

-- What `std::partial_sort` requires of a comparator on the indices below a bound: a strict order in
-- which being incomparable is transitive.
pub record IsStrictWeak (n : ℕ) (less : ℕ → ℕ → Bool) : Type 0 where
  pub irreflexive : (a : ℕ) → a < n → less a a ≡ false
  pub transitive :
      (a b c : ℕ) → a < n → b < n → c < n → less a b ≡ true → less b c ≡ true → less a c ≡ true
  pub ties :
      (a b c : ℕ)
      → a < n
      → b < n
      → c < n
      → (less a b ≡ false) × (less b a ≡ false)
      → (less b c ≡ false) × (less c b ≡ false)
      → (less a c ≡ false) × (less c a ≡ false)

module _ (ops : SampleOps) where
  open ops use {
    Float, Rng, lt, le, add, div, one_point, zero_point, is_finite, uniform, partial_sort,
  }

  -- `std::partial_sort` permutes its range, if its comparator is a strict weak order there.
  abbrev pub Permutes : Type 0
  Permutes =
      (n : ℕ) (less : ℕ → ℕ → Bool) (k : ℕ) (xs : List ℕ) (a : ℕ)
      → IsStrictWeak n less
      → All (λ x. x < n) xs
      → count a (partial_sort less k xs) ≡ count a xs

  -- The logits of the vocabulary are compared by a strict weak order, as floating-point numbers are
  -- without NaN.
  abbrev pub IsOrdered : ℕ → (ℕ → Float) → Type 0
  IsOrdered n logits = IsStrictWeak n (λ a b. lt (logits a) (logits b))

  -- The largest comes first.
  descending :
      (n : ℕ) (logits : ℕ → Float)
      → IsOrdered n logits
      → IsStrictWeak n (λ a b. lt (logits b) (logits a))
  descending n logits h = record {
    irreflexive = λ a l. h.irreflexive a l;
    transitive = λ a b c i j k x y. h.transitive c b a k j i y x;
    ties = λ a b c i j k x y. (let t = h.ties a b c i j k (x.1, x.0) (y.1, y.0) in (t.1, t.0));
  }

  greedy_from-bounded :
      (logits : ℕ → Float) (best i n m : ℕ)
      → best < m
      → i + n ≤ m
      → greedy_from ops logits best i n < m
  unfolding greedy_from
  greedy_from-bounded logits best i zero m b h = b
  greedy_from-bounded logits best i (suc n) m b h =
      greedy_from-bounded logits (if lt (logits best) (logits i) then i else best) (suc i) n m
        (ground (arith, b, h)) (omega (arith, h))

  draw-bounded :
      (d : ℕ) (r acc : Float) (idx : List ℕ) (probs : List Float) (m : ℕ)
      → d < m
      → All (λ x. x < m) idx
      → draw ops d r acc idx probs < m
  unfolding draw
  draw-bounded d r acc [] probs m h a = h
  draw-bounded d r acc (i ∷ idx) [] m h a = h
  draw-bounded d r acc (i ∷ []) (p ∷ probs) m h a = a.0
  draw-bounded d r acc (i ∷ j ∷ idx) (p ∷ probs) m h a =
      ground (arith, a.0, draw-bounded d r (add acc p) (j ∷ idx) probs m h a.1)

  sorted-bounded :
      (permutes : Permutes) (logits : ℕ → Float) (n : ℕ) (p : SamplingParams Float)
      → IsOrdered n logits
      → All (λ x. x < n) (sorted ops logits n p)
  unfolding sorted
  sorted-bounded permutes logits n p o = counted-All n (sorted ops logits n p) (λ a c.
      All-counted n a (iota 0 n) (iota-bounded 0 n n (omega arith)) (
        subst (λ k. 0 < k)
          (permutes n _ _ (iota 0 n) a (descending n logits o) (iota-bounded 0 n n (omega arith)))
          c))

  draw_nucleus-bounded :
      (idx front : List ℕ) (probs : List Float) (use_n : ℕ) (top_p : Float) (rng : Rng) (m : ℕ)
      → 0 < m
      → All (λ x. x < m) idx
      → All (λ x. x < m) front
      → (draw_nucleus ops idx front probs use_n top_p rng).0 < m
  unfolding draw_nucleus
  draw_nucleus-bounded idx front probs use_n top_p rng m h a f =
      let cut = cut_of ops top_p probs use_n in
      let kept = take cut probs in
      let csum = total ops kept zero_point in
      draw-bounded (head_or 0 idx) (uniform rng).0 zero_point (take cut front)
        (map (λ p. div p csum) kept) m (head_or-bounded 0 m idx h a) (All-take m cut front f)

  nucleus-bounded :
      (permutes : Permutes) (logits : ℕ → Float) (n : ℕ) (p : SamplingParams Float) (rng : Rng)
      → IsOrdered n logits
      → 0 < n
      → (nucleus ops logits n p rng).0 < n
  unfolding nucleus
  nucleus-bounded permutes logits n p rng o h =
      let idx = sorted ops logits n p in
      let all = sorted-bounded permutes logits n p o in
      let front = take (used ops p n) idx in
      let probs = weights ops logits front (div one_point p.temperature) in
      let sum = total ops probs zero_point in
      elim (Bool-cases (le sum zero_point || not (is_finite sum))) [
        | inl e ↦ rw (nucleus, e) (head_or-bounded 0 n idx h all)
        | inr e ↦
            rw (nucleus, e)
              (draw_nucleus-bounded idx front (map (λ q. div q sum) probs) (used ops p n) p.top_p
                rng n h all (All-take n (used ops p n) idx all))
      ]

  -- Let `std::partial_sort` permute what it sorts by a strict weak order, and let `<` be such an order
  -- on the logits, as it is where none is NaN. Over a vocabulary that is not empty, the token that is
  -- sampled is one of it, whatever the temperature, the limits and the random numbers are.
  pub sample-bounded :
      (permutes : Permutes) (logits : ℕ → Float) (n : ℕ) (p : SamplingParams Float) (rng : Rng)
      → IsOrdered n logits
      → 0 < n
      → (sample ops logits n p rng).0 < n
  unfolding sample
  sample-bounded permutes logits n p rng o h = ground (
    arith,
    h,
    greedy_from-bounded logits 0 1 (n - 1) n h (omega (arith, h)),
    nucleus-bounded permutes logits n p rng o h,
  )
