-- ===== src/Base/Lists.antt =====
-- Lists measured by native numbers, byte strings, and a predicate on every element.
use Prim.Native.Char.{code}
use Prim.Native.String.{String}
use Prim.Native.Nat.{compare, Ordering, ℕ, zero, suc, ◌+◌, ◌-◌, ◌≤◌, ◌<◌, min}
use mathlib.Core.Path.{◌≡◌, refl, ap}
use mathlib.Core.List.{List, [], ◌∷◌, ◌++◌}
use mathlib.Core.Logic.{◌≢◌}
use native.Mathlib.Decide.{ℕ_discrete}
use mathlib.Core.Option.{Option, none, some}
use native.Mathlib.Omega.{arith}

-- A `std::vector<uint8_t>` or `std::string`, a byte to an element.
abbrev pub Bytes : Type 0
Bytes = List ℕ

-- The bytes of an ASCII literal.
abbrev pub codes : String → Bytes
codes String.[] = []
codes (String.◌∷◌ c s) = code c ∷ codes s

module _ {ℓ} {A : Type ℓ} where
  abbrev pub length : List A → ℕ
  length [] = 0
  length (x ∷ xs) = suc (length xs)

  abbrev pub take : ℕ → List A → List A
  take zero xs = []
  take (suc n) [] = []
  take (suc n) (x ∷ xs) = x ∷ take n xs

  abbrev pub drop : ℕ → List A → List A
  drop zero xs = xs
  drop (suc n) [] = []
  drop (suc n) (x ∷ xs) = drop n xs

  abbrev pub get_elem? : List A → ℕ → Option A
  get_elem? [] i = none
  get_elem? (x ∷ xs) zero = some x
  get_elem? (x ∷ xs) (suc i) = get_elem? xs i

  abbrev pub get_or : List A → ℕ → A → A
  get_or [] i d = d
  get_or (x ∷ xs) zero d = x
  get_or (x ∷ xs) (suc i) d = get_or xs i d

  pub length-append : (xs ys : List A) → length (xs ++ ys) ≡ length xs + length ys
  length-append [] ys = omega arith
  length-append (x ∷ xs) ys = omega (arith, length-append xs ys)

  pub take-append-drop : (n : ℕ) (xs : List A) → take n xs ++ drop n xs ≡ xs
  take-append-drop zero xs = refl
  take-append-drop (suc n) [] = refl
  take-append-drop (suc n) (x ∷ xs) = ap (◌∷◌ x) (take-append-drop n xs)

  pub length-take : (n : ℕ) (xs : List A) → length (take n xs) ≡ min n (length xs)
  length-take zero xs = omega arith
  length-take (suc n) [] = omega arith
  length-take (suc n) (x ∷ xs) = omega (arith, length-take n xs)

  pub length-drop : (n : ℕ) (xs : List A) → length (drop n xs) ≡ length xs - n
  length-drop zero xs = omega arith
  length-drop (suc n) [] = omega arith
  length-drop (suc n) (x ∷ xs) = omega (arith, length-drop n xs)

  -- The first of two joined lists, and the second.
  pub take-length-append : (xs ys : List A) → take (length xs) (xs ++ ys) ≡ xs
  take-length-append [] ys = refl
  take-length-append (x ∷ xs) ys = ap (◌∷◌ x) (take-length-append xs ys)

  pub drop-length-append : (xs ys : List A) → drop (length xs) (xs ++ ys) ≡ ys
  drop-length-append [] ys = refl
  drop-length-append (x ∷ xs) ys = drop-length-append xs ys

abbrev pub count : ℕ → List ℕ → ℕ
count a [] = 0
count a (x ∷ xs) = elim (compare x a) [ Ordering.eq ↦ 1 | _ ↦ 0 ] + count a xs

pub count-append :
    (a : ℕ) (front back : List ℕ) → count a (front ++ back) ≡ count a front + count a back
count-append a [] back = omega arith
count-append a (b ∷ front) back = omega (arith, count-append a front back)

abbrev pub All {ℓ κ} : {A : Type ℓ} → (A → Type κ) → List A → Type κ
All P [] = Unit
All P (x ∷ xs) = P x × All P xs

pub All-append {ℓ κ} :
    {A : Type ℓ} (P : A → Type κ) (front back : List A)
    → All P front
    → All P back
    → All P (front ++ back)
All-append P [] back f b = b
All-append P (a ∷ front) back f b = (f.0, All-append P front back f.1 b)

-- Every element is a byte.
abbrev pub IsBytes : Bytes → Type 0
IsBytes = All (λ c. c < 256)

abbrev pub Absent : ℕ → List ℕ → Type 0
Absent a xs = All (λ x. x ≢ a) xs

-- No element twice.
abbrev pub Distinct : List ℕ → Type 0
Distinct [] = Unit
Distinct (x ∷ xs) = Absent x xs × Distinct xs

pub count-Absent : (a : ℕ) (xs : List ℕ) → Absent a xs → count a xs ≡ 0
count-Absent a [] h = refl
count-Absent a (x ∷ xs) h = ground (arith, h.0, count-Absent a xs h.1)

pub Absent-count : (a : ℕ) (xs : List ℕ) → count a xs ≡ 0 → Absent a xs
Absent-count a [] h = tt
Absent-count a (x ∷ xs) h = (λ e. ground arith, Absent-count a xs (ground arith))

pub Distinct-count : (a : ℕ) (xs : List ℕ) → Distinct xs → count a xs ≤ 1
Distinct-count a [] h = omega arith
Distinct-count a (x ∷ xs) h = elim (ℕ_discrete x a) [
  | yes e ↦ ground (arith, count-Absent x xs h.0)
  | no n ↦ ground (arith, Distinct-count a xs h.1)
]

pub count-Distinct : (xs : List ℕ) → ((a : ℕ) → count a xs ≤ 1) → Distinct xs
count-Distinct [] h = tt
count-Distinct (x ∷ xs) h =
    (Absent-count x xs (ground (arith, h x)), count-Distinct xs (λ a. omega (arith, h a)))
