-- ===== src/Sched/Policy/Rotation.antt =====
-- The order of the round-robin loops: a rotation of the pool by the cursor.
use uma_serve.Base.{
  ℕ, zero, suc, ◌+◌, ◌-◌, ◌%◌, ◌^◌, ◌≤◌, ◌<◌, ◌≡◌, refl, sym, ap, ◌∙◌, ◌⊎◌, inl, inr, List, [], ◌∷◌,
  ◌++◌, some, arith, length, take, drop, get_elem?, length-append, length-drop, count, count-append,
  take-append-drop,
}
use native.Mathlib.Nat.{mod-add-mod}
use uma_serve.Sched.Policy.{size_t_add, rounds, rotation}

module _ {ℓ} {A : Type ℓ} where
  get_elem?-append_left :
      (xs ys : List A) (i : ℕ) → i < length xs → get_elem? (xs ++ ys) i ≡ get_elem? xs i
  get_elem?-append_left [] ys i h = absurd (omega arith)
  get_elem?-append_left (x ∷ xs) ys zero h = refl
  get_elem?-append_left (x ∷ xs) ys (suc i) h = get_elem?-append_left xs ys i (omega arith)

  get_elem?-append_right :
      (xs ys : List A) (i : ℕ) → get_elem? (xs ++ ys) (length xs + i) ≡ get_elem? ys i
  get_elem?-append_right [] ys i = ap (get_elem? ys) (omega arith)
  get_elem?-append_right (x ∷ xs) ys i =
      let e : suc (length xs) + i ≡ suc (length xs + i) = omega arith in
      rw e (get_elem?-append_right xs ys i)

  pub drop-get_elem? :
      (xs : List A) (i : ℕ)
      → i < length xs
      → (x : A) × (get_elem? xs i ≡ some x) × (drop i xs ≡ x ∷ drop (suc i) xs)
  drop-get_elem? [] i h = absurd (omega arith)
  drop-get_elem? (x ∷ xs) zero h = (x, refl, refl)
  drop-get_elem? (x ∷ xs) (suc i) h = drop-get_elem? xs i (omega arith)

  take-append : (n : ℕ) (xs ys : List A) → take (length xs + n) (xs ++ ys) ≡ xs ++ take n ys
  take-append n [] ys = ap (λ k. take k ys) (omega arith)
  take-append n (x ∷ xs) ys =
      let e : suc (length xs) + n ≡ suc (length xs + n) = omega arith in
      rw e (ap (◌∷◌ x) (take-append n xs ys))

  drop-append : (n : ℕ) (xs ys : List A) → n ≤ length xs → drop n (xs ++ ys) ≡ drop n xs ++ ys
  drop-append zero xs ys h = refl
  drop-append (suc n) [] ys h = absurd (omega arith)
  drop-append (suc n) (x ∷ xs) ys h = drop-append n xs ys (omega arith)

drop-nil {ℓ} : {A : Type ℓ} (n : ℕ) → drop {A = A} n [] ≡ []
drop-nil zero = refl
drop-nil (suc n) = refl

pub take-nil {ℓ} : {A : Type ℓ} (n : ℕ) → take {A = A} n [] ≡ []
take-nil zero = refl
take-nil (suc n) = refl

-- Element `(r + i) % N` of a list is element `r % N + i` of the list written twice.
get_elem?-twice :
    (pool : List ℕ) (r i : ℕ)
    → r < length pool
    → i < length pool
    → get_elem? pool ((r + i) % length pool) ≡ get_elem? (pool ++ pool) (r + i)
get_elem?-twice pool r i h k = elim (split (r + i) (length pool)) [
  | inl lt ↦
      let e : (r + i) % length pool ≡ r + i = grind arith in
      rw e (sym (get_elem?-append_left pool pool (r + i) lt))
  | inr le ↦
      let e : (r + i) % length pool ≡ r + i - length pool = grind arith in
      let s : length pool + (r + i - length pool) ≡ r + i = omega arith in
      rw e (
        sym (get_elem?-append_right pool pool (r + i - length pool))
        ∙ ap (get_elem? (pool ++ pool)) s)
]
  where
    split : (a b : ℕ) → (a < b) ⊎ (b ≤ a)
    split a b = omega arith

turned :
    (pool : List ℕ) (r : ℕ)
    → r ≤ length pool
    → take (length pool) (drop (r + 0) (pool ++ pool)) ≡ drop r pool ++ take r pool
turned pool r h =
    let e : r + 0 ≡ r = omega arith in
    let s : length pool ≡ length (drop r pool) + r = omega (arith, length-drop r pool) in
    rw (e, drop-append r pool pool h)
      (ap (λ k. take k (drop r pool ++ pool)) s ∙ take-append r (drop r pool) pool)

rotated :
    (pool : List ℕ) (rr : ℕ) {xs : List ℕ}
    → xs ≡ take (length pool) (drop (rr % length pool + 0) (pool ++ pool))
    → xs ≡ drop (rr % length pool) pool ++ take (rr % length pool) pool
rotated [] rr e = rw (drop-nil (rr % 0), take-nil (rr % 0)) e
rotated (x ∷ pool') rr e = e ∙ turned (x ∷ pool') (rr % suc (length pool')) (omega arith)

module _ (pool : List ℕ) (rr : ℕ) (fits : rr + length pool ≤ 2 ^ 64) where
  index :
      (i : ℕ)
      → i < length pool
      → size_t_add rr i % length pool ≡ (rr % length pool + i) % length pool
  index i h =
      let e : size_t_add rr i ≡ rr + i = omega arith in rw e (sym (mod-add-mod rr (length pool) i))

  rounds-take :
      (n i : ℕ)
      → i + n ≡ length pool
      → rounds pool rr n i ≡ take n (drop (rr % length pool + i) (pool ++ pool))
  unfolding rounds
  rounds-take zero i e = refl
  rounds-take (suc n) i e =
      let inside : i < length pool = omega arith in
      let start : rr % length pool < length pool = omega arith in
      let (x, g, d) =
        drop-get_elem? (pool ++ pool) (rr % length pool + i)
          (omega (arith, length-append pool pool)) in
      let here : get_elem? pool (size_t_add rr i % length pool) ≡ some x =
        rw (index i inside) (get_elem?-twice pool (rr % length pool) i start inside ∙ g) in
      let s : rr % length pool + (i + 1) ≡ suc (rr % length pool + i) = omega arith in
      rw (rounds, here, d)
        (ap (◌∷◌ x)
          (rounds-take n (i + 1) (omega arith) ∙ ap (λ k. take n (drop k (pool ++ pool))) s))

  -- If the cursor plus the size of the pool does not wrap, the loop visits the pool from the
  -- cursor's position, modulo the size, to the end, and then from the start.
  pub rotation-append :
      rotation pool rr ≡ drop (rr % length pool) pool ++ take (rr % length pool) pool
  unfolding rotation
  rotation-append = rotated pool rr (rounds-take (length pool) 0 (omega arith))

  -- If the cursor plus the size of the pool does not wrap, the loop visits each number exactly as
  -- often as it stands in the pool.
  pub count-rotation : (a : ℕ) → count a (rotation pool rr) ≡ count a pool
  count-rotation a = rw rotation-append (
      omega (
        arith,
        count-append a (drop (rr % length pool) pool) (take (rr % length pool) pool),
        count-append a (take (rr % length pool) pool) (drop (rr % length pool) pool),
        ap (count a) (take-append-drop (rr % length pool) pool),
      ))
