-- ===== src/Sched/Sampling/Greedy.antt =====
-- At a temperature of zero the best token is taken.
use uma_serve.Base.{
  ℕ, zero, suc, ◌+◌, ◌-◌, ◌<◌, ◌≡◌, refl, true, false, arith, inl, inr, Bool-cases, ◌==◌,
  if◌then◌else◌, ℕ_discrete,
}
use uma_serve.Sched.Sampling.{SampleOps, SamplingParams, greedy_from, sample}

module _ (ops : SampleOps) where
  open ops use {Float, Rng, lt, le, zero_point}

  -- What holds of the `<` of floating-point numbers, with those that are no number too.
  pub record IsStrict : Type 0 where
    pub irreflexive : (a : Float) → lt a a ≡ false
    pub transitive : (a b c : Float) → lt a b ≡ true → lt b c ≡ true → lt a c ≡ true

  -- No logit up to some index is above the given one.
  abbrev IsBest : (ℕ → Float) → ℕ → ℕ → Type 0
  IsBest logits best i = (j : ℕ) → j < i → lt (logits best) (logits j) ≡ false

  IsBest-next :
      (strict : IsStrict) (logits : ℕ → Float) (best i : ℕ)
      → IsBest logits best i
      → IsBest logits (if lt (logits best) (logits i) then i else best) (suc i)
  IsBest-next strict logits best i h j l = elim (Bool-cases (lt (logits best) (logits i))) [
    | inl up ↦ rw up (elim (ℕ_discrete j i) [
      | yes e ↦ rw e (strict.irreflexive (logits i))
      | no n ↦ elim (Bool-cases (lt (logits i) (logits j))) [
        | inl above ↦
            let before : j < i = ground (arith, l, n) in
            absurd (ground (arith, h j before, strict.transitive _ _ (logits j) up above))
        | inr fine ↦ fine
      ]
    ])
    | inr down ↦
        rw down (elim (ℕ_discrete j i) [ yes e ↦ rw e down | no n ↦ h j (ground (arith, l, n)) ])
  ]

  greedy_from-IsBest :
      (strict : IsStrict) (logits : ℕ → Float) (best i n : ℕ)
      → IsBest logits best i
      → IsBest logits (greedy_from ops logits best i n) (i + n)
  unfolding greedy_from
  greedy_from-IsBest strict logits best i zero h j l = h j (omega (arith, l))
  greedy_from-IsBest strict logits best i (suc n) h j l =
      greedy_from-IsBest strict logits (if lt (logits best) (logits i) then i else best) (suc i) n
        (IsBest-next strict logits best i h) j (omega (arith, l))

  -- At a temperature that is not above zero, over a vocabulary that is not empty, no logit is above
  -- that of the token that is sampled, and the random numbers stay as they are.
  pub sample_greedy :
      (strict : IsStrict) (logits : ℕ → Float) (n : ℕ) (p : SamplingParams Float) (rng : Rng)
      → 0 < n
      → le p.temperature zero_point ≡ true
      → ((j : ℕ) → j < n → lt (logits (sample ops logits n p rng).0) (logits j) ≡ false)
        × ((sample ops logits n p rng).1 ≡ rng)
  unfolding sample
  sample_greedy strict logits n p rng h t =
      let some_tokens : (n == 0) ≡ false = ground (arith, h) in
      let first : IsBest logits 0 1 = λ j l.
        let at_first : j ≡ 0 = omega (arith, l) in rw at_first (strict.irreflexive (logits 0)) in
      rw (sample, some_tokens, t)
        (λ j l. greedy_from-IsBest strict logits 0 1 (n - 1) first j (omega (arith, l, h)), refl)
