-- ===== src/Sched/Sampling.antt =====
-- sched/sampling.cpp and sched/sampling.h: the sampler. `float`, `std::exp`, `std::partial_sort` and
-- the uniform distribution are parameters; a row of logits is a function.
pub mod Chosen
pub mod Greedy
use uma_serve.Base.{
  ℕ, zero, suc, ◌+◌, ◌-◌, Bool, true, false, not, ◌&&◌, ◌||◌, List, [], ◌∷◌, map, take, ltb, leb,
  ◌==◌, if◌then◌else◌,
}

-- `float`; `lt` is `<`, and `le` is `<=`.
pub record SampleOps : Type 1 where
  pub Float : Type 0
  pub Rng : Type 0
  pub lt : Float → Float → Bool
  pub le : Float → Float → Bool
  pub add : Float → Float → Float
  pub sub : Float → Float → Float
  pub mul : Float → Float → Float
  pub div : Float → Float → Float
  pub exp : Float → Float
  pub is_finite : Float → Bool
  pub zero_point : Float
  pub one_point : Float
  pub almost_one : Float
  pub minus_infinity : Float
  -- The list with as many of its first in order as are given.
  pub partial_sort : (ℕ → ℕ → Bool) → ℕ → List ℕ → List ℕ
  pub uniform : Rng → Float × Rng

pub record SamplingParams (Float : Type 0) : Type 0 where
  pub temperature : Float
  pub top_p : Float
  pub top_k : ℕ

pub head_or : ℕ → List ℕ → ℕ
head_or d [] = d
head_or d (x ∷ xs) = x

-- `idx[i] = i`, from a first index on.
pub iota : ℕ → ℕ → List ℕ
iota i zero = []
iota i (suc n) = i ∷ iota (suc i) n

module _ (ops : SampleOps) where
  open ops use {
    Float, Rng, lt, le, add, sub, mul, div, exp, is_finite, zero_point, one_point, almost_one,
    minus_infinity, partial_sort, uniform,
  }

  -- `std::max` and `std::min`.
  maximum : Float → Float → Float
  maximum a b = if lt a b then b else a

  minimum : Float → Float → Float
  minimum a b = if lt b a then b else a

  -- The loop over the logits from `i` on, `n` of them.
  pub greedy_from : (ℕ → Float) → ℕ → ℕ → ℕ → ℕ
  greedy_from logits best i zero = best
  greedy_from logits best i (suc n) =
      greedy_from logits (if lt (logits best) (logits i) then i else best) (suc i) n

  pub total : List Float → Float → Float
  total [] sum = sum
  total (p ∷ probs) sum = total probs (add sum p)

  largest : List Float → Float → Float
  unfolding maximum
  largest [] m = m
  largest (x ∷ xs) m = largest xs (maximum m x)

  -- `for (; cut < use_n; ++cut)`.
  cut_from : Float → Float → List Float → ℕ
  cut_from top_p c [] = 0
  cut_from top_p c (p ∷ probs) =
      let c' = add c p in let rest = cut_from top_p c' probs in if le top_p c' then 1 else suc rest

  pub cut_of : Float → List Float → ℕ → ℕ
  unfolding cut_from maximum minimum
  cut_of top_p probs use_n =
      let p = minimum (maximum top_p zero_point) one_point in
      if lt p almost_one
      then (let cut = cut_from p zero_point probs in if cut == 0 then 1 else cut)
      else use_n

  -- The last loop, over the indices that are kept and their probabilities; `d` is `idx[0]`.
  pub draw : ℕ → Float → Float → List ℕ → List Float → ℕ
  draw d r acc [] probs = d
  draw d r acc (i ∷ idx) [] = d
  draw d r acc (i ∷ []) (p ∷ probs) = i
  draw d r acc (i ∷ j ∷ idx) (p ∷ probs) =
      let acc' = add acc p in
      let rest = draw d r acc' (j ∷ idx) probs in if le r acc' then i else rest

  pub used : SamplingParams Float → ℕ → ℕ
  used p n_vocab = if ltb 0 p.top_k && ltb p.top_k n_vocab then p.top_k else n_vocab

  pub sorted : (ℕ → Float) → ℕ → SamplingParams Float → List ℕ
  unfolding used
  sorted logits n_vocab p =
      partial_sort (λ a b. lt (logits b) (logits a)) (used p n_vocab) (iota 0 n_vocab)

  -- The softmax of the logits that are used, before it is scaled.
  pub weights : (ℕ → Float) → List ℕ → Float → List Float
  unfolding largest
  weights logits idx inv_t =
      let m = largest (map (λ i. mul (logits i) inv_t) idx) minus_infinity in
      map (λ i. exp (sub (mul (logits i) inv_t) m)) idx

  -- The draw from the prefix that is kept.
  pub draw_nucleus : List ℕ → List ℕ → List Float → ℕ → Float → Rng → ℕ × Rng
  unfolding cut_of total draw
  draw_nucleus idx front probs use_n top_p rng =
      let cut = cut_of top_p probs use_n in
      let kept = take cut probs in
      let (r, rng') = uniform rng in
      let csum = total kept zero_point in
      (draw (head_or 0 idx) r zero_point (take cut front) (map (λ p. div p csum) kept), rng')

  -- A draw, for a temperature above zero.
  pub nucleus : (ℕ → Float) → ℕ → SamplingParams Float → Rng → ℕ × Rng
  unfolding weights total draw_nucleus sorted used
  nucleus logits n_vocab p rng =
      let idx = sorted logits n_vocab p in
      let use_n = used p n_vocab in
      let front = take use_n idx in
      let probs = weights logits front (div one_point p.temperature) in
      let sum = total probs zero_point in
      if le sum zero_point || not (is_finite sum)
      then (head_or 0 idx, rng)
      else draw_nucleus idx front (map (λ q. div q sum) probs) use_n p.top_p rng

  -- `TopPSampler::sample`.
  unfoldable pub sample : (ℕ → Float) → ℕ → SamplingParams Float → Rng → ℕ × Rng
  unfolding greedy_from nucleus
  sample logits n_vocab p rng =
      if n_vocab == 0
      then (0, rng)
      else if le p.temperature zero_point
      then (greedy_from logits 0 1 (n_vocab - 1), rng)
      else nucleus logits n_vocab p rng
