-- ===== src/Sched/Tests/Tokens.antt =====
-- The sampler over small numbers, with a sort by insertion.
use uma_serve.Base.{
  ℕ, ◌+◌, ◌-◌, ◌*◌, ◌/◌, ◌<◌, ◌≡◌, refl, Bool, true, false, List, [], ◌∷◌, arith, ltb, leb, count,
  if◌then◌else◌,
}
use uma_serve.Sched.Sampling.{SampleOps, SamplingParams, sample}
use uma_serve.Sched.Sampling.Chosen.{IsOrdered, IsStrictWeak, sample-bounded}
use uma_serve.Sched.Sampling.Greedy.{IsStrict, sample_greedy}

abbrev insert : (ℕ → ℕ → Bool) → ℕ → List ℕ → List ℕ
insert less x [] = x ∷ []
insert less x (y ∷ ys) = if less y x then y ∷ insert less x ys else x ∷ y ∷ ys

abbrev sort : (ℕ → ℕ → Bool) → List ℕ → List ℕ
sort less [] = []
sort less (x ∷ xs) = insert less x (sort less xs)

abbrev ops : SampleOps
ops = record {
  Float = ℕ;
  Rng = ℕ;
  lt = ltb;
  le = leb;
  add = λ a b. a + b;
  sub = λ a b. a - b;
  mul = λ a b. a * b;
  div = λ a b. a / b;
  exp = λ a. a + 1;
  is_finite = λ a. true;
  zero_point = 0;
  one_point = 1;
  almost_one = 1;
  minus_infinity = 0;
  partial_sort = λ less k xs. sort less xs;
  uniform = λ rng. (rng, rng + 1);
}

count-insert :
    (less : ℕ → ℕ → Bool) (x : ℕ) (xs : List ℕ) (a : ℕ)
    → count a (insert less x xs) ≡ count a (x ∷ xs)
count-insert less x [] a = refl
count-insert less x (y ∷ ys) a = ground (arith, count-insert less x ys a)

sort-Permutes : (less : ℕ → ℕ → Bool) (xs : List ℕ) (a : ℕ) → count a (sort less xs) ≡ count a xs
sort-Permutes less [] a = refl
sort-Permutes less (x ∷ xs) a =
    omega (arith, count-insert less x (sort less xs) a, sort-Permutes less xs a)

by_key : (key : ℕ → ℕ) → IsStrictWeak 6 (λ a b. ltb (key a) (key b))
by_key key = record {
  irreflexive = λ a l. ground arith;
  transitive = λ a b c i j l h k. ground (arith, h, k);
  ties = λ a b c i j l h k. (ground (arith, h, k), ground (arith, h, k));
}

abbrev logits : ℕ → ℕ
logits i = (i * 7) - i * i

abbrev warm : SamplingParams ℕ
warm = record { temperature = 1; top_p = 1; top_k = 3 }

abbrev cold : SamplingParams ℕ
cold = record { temperature = 0; top_p = 1; top_k = 0 }

logits-IsOrdered : IsOrdered ops 6 logits
logits-IsOrdered = by_key logits

sample-bounded_example : (sample ops logits 6 warm 2).0 < 6
sample-bounded_example =
    sample-bounded ops (λ n less k xs a weak below. sort-Permutes less xs a) logits 6 warm 2
      logits-IsOrdered (omega arith)

ltb-IsStrict : IsStrict ops
ltb-IsStrict = record {
  irreflexive = λ a. ground arith;
  transitive = λ a b c h k. ground (arith, h, k);
}

sample_greedy_example :
    ((j : ℕ) → j < 6 → ltb (logits (sample ops logits 6 cold 2).0) (logits j) ≡ false)
    × ((sample ops logits 6 cold 2).1 ≡ 2)
sample_greedy_example = sample_greedy ops ltb-IsStrict logits 6 cold 2 (omega arith) refl
