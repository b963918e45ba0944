-- ===== src/Util/Utf8/Exact.antt =====
-- `is_valid_utf8` decides `IsUtf8`.
use uma_serve.Base.{
  ℕ, zero, suc, ◌+◌, ◌-◌, ◌*◌, ◌/◌, ◌%◌, ◌≤◌, ◌<◌, ◌≡◌, ◌↔◌, refl, ap, ap₂, sym, ◌∙◌, ◌⊎◌, inl, inr,
  Bool, true, false, not, ◌&&◌, if◌then◌else◌, List, [], ◌∷◌, ◌++◌, length-append, subst, arith,
  ltb, leb, Bytes, IsBytes, All, length,
}
use uma_serve.Util.Utf8.{Utf8State, start, step, run, is_valid_utf8, is_continuation}
use uma_serve.Util.Utf8.Encoding.{IsScalar, encode, encode_all, IsUtf8}

abbrev same : Bool → Bool → Bool
same true b = b
same false b = not b

-- Two tests of bytes agree on the first bytes, as many as given.
agree : (ℕ → Bool) → (ℕ → Bool) → ℕ → Bool
agree f g zero = true
agree f g (suc k) = if same (f k) (g k) then agree f g k else false

agree_lem : (f g : ℕ → Bool) (k c : ℕ) → c < k → agree f g k ≡ true → f c ≡ g c
unfolding agree
agree_lem f g zero c lt e = absurd (omega arith)
agree_lem f g (suc k) c lt e = ground (arith, agree_lem f g k c)

mask_table : agree is_continuation (λ c. leb 0x80 c && ltb c 0xC0) 256 ≡ true
unfolding agree is_continuation
mask_table = refl

-- The mask test of a byte is a test of its range.
is_continuation_range : (c : ℕ) → c < 256 → is_continuation c ≡ (leb 0x80 c && ltb c 0xC0)
is_continuation_range c h =
    agree_lem is_continuation (λ x. leb 0x80 x && ltb x 0xC0) 256 c h mask_table

module _ (t : Bytes) where
  run_three :
      (cp : ℕ) → IsScalar cp → 0x800 ≤ cp → cp < 0x10000 → run start (encode cp ++ t) ≡ run start t
  unfolding run step encode
  run_three cp s h k =
      ground
        (arith, is_continuation_range (0x80 + cp / 64 % 64), is_continuation_range (0x80 + cp % 64))

  run_four : (cp : ℕ) → 0x10000 ≤ cp → cp < 0x110000 → run start (encode cp ++ t) ≡ run start t
  unfolding run step encode
  run_four cp h k = ground (
    arith,
    is_continuation_range (0x80 + cp / 4096 % 64),
    is_continuation_range (0x80 + cp / 64 % 64),
    is_continuation_range (0x80 + cp % 64),
  )

encode_four :
    (cp : ℕ)
    → 0x10000 ≤ cp
    → encode cp
      ≡ (0xF0 + cp / 262144)
        ∷ (0x80 + cp / 4096 % 64)
        ∷ (0x80 + cp / 64 % 64)
        ∷ (0x80 + cp % 64)
        ∷ []
unfolding encode
encode_four cp h = ground arith

-- A scalar value at the front of the bytes that are read, and the rest accepted too.
abbrev Reads : Bytes → Type 0
Reads s = (cp : ℕ) × (t : Bytes) × IsScalar cp × (s ≡ encode cp ++ t) × (run start t ≡ true)

two_Reads :
    (a : ℕ) (r : Bytes) → 0xC2 ≤ a → a ≤ 0xDF → IsBytes r → run start (a ∷ r) ≡ true → Reads (a ∷ r)
unfolding run step encode
two_Reads a [] h k i e = absurd (ground arith)
two_Reads a (b ∷ t) h k i e =
    let w = is_continuation_range b i.0 in
    ((a - 0xC0) * 64 + (b - 0x80), t, ground arith, ground arith, ground arith)

three_Reads :
    (a : ℕ) (r : Bytes) → 0xE0 ≤ a → a ≤ 0xEF → IsBytes r → run start (a ∷ r) ≡ true → Reads (a ∷ r)
unfolding run step encode
three_Reads a [] h k i e = absurd (ground arith)
three_Reads a (b ∷ []) h k i e = absurd (ground arith)
three_Reads a (b ∷ c ∷ t) h k i e =
    let w = is_continuation_range b i.0 in
    let v = is_continuation_range c i.1.0 in
    ((a - 0xE0) * 4096 + (b - 0x80) * 64 + (c - 0x80), t, ground arith, ground arith, ground arith)

-- The value of a sequence of four bytes in range, and that it encodes to them.
four_value : ℕ → ℕ → ℕ → ℕ → ℕ
four_value a b c d = (a - 0xF0) * 262144 + (b - 0x80) * 4096 + (c - 0x80) * 64 + (d - 0x80)

record InRange (b c d : ℕ) : Type 0 where
  b_lo : 0x80 ≤ b
  b_hi : b < 0xC0
  c_lo : 0x80 ≤ c
  c_hi : c < 0xC0
  d_lo : 0x80 ≤ d
  d_hi : d < 0xC0

record Above (a b : ℕ) : Type 0 where
  lo : 0xF0 ≤ a
  hi : a ≤ 0xF4
  low : (0xF1 ≤ a) ⊎ (0x90 ≤ b)
  high : (a ≤ 0xF3) ⊎ (b < 0x90)

four_bounds :
    (a b c d : ℕ)
    → Above a b
    → InRange b c d
    → (0x10000 ≤ four_value a b c d) × (four_value a b c d < 0x110000)
unfolding four_value
four_bounds a b c d v w = omega arith

encode-four_value :
    (a b c d : ℕ) → Above a b → InRange b c d → encode (four_value a b c d) ≡ a ∷ b ∷ c ∷ d ∷ []
encode-four_value a b c d v w =
    encode_four (four_value a b c d) (four_bounds a b c d v w).0
    ∙ unfold four_value in
      (ap₂ ◌∷◌ (omega arith)
        (ap₂ ◌∷◌ (omega arith) (ap₂ ◌∷◌ (omega arith) (ap₂ ◌∷◌ (omega arith) refl))))

abbrev midway : ℕ → ℕ → ℕ → Utf8State
midway remaining lead pos = record { remaining = remaining; lead = lead; pos = pos }

module _ (a c : ℕ) (t : Bytes) (byte : c < 256) where
  last_accepted : run (midway 1 a 2) (c ∷ t) ≡ true → (0x80 ≤ c) × (c < 0xC0) × (run start t ≡ true)
  unfolding run step
  last_accepted e = let w = is_continuation_range c byte in ground arith

  third_accepted :
      run (midway 2 a 1) (c ∷ t) ≡ true → (0x80 ≤ c) × (c < 0xC0) × (run (midway 1 a 2) t ≡ true)
  unfolding run step
  third_accepted e = let w = is_continuation_range c byte in ground arith

  second_accepted :
      0xF0 ≤ a
      → a ≤ 0xF4
      → run (midway 3 a 0) (c ∷ t) ≡ true
      → (0x80 ≤ c) × (c < 0xC0) × Above a c × (run (midway 2 a 1) t ≡ true)
  unfolding run step
  second_accepted h k e = let w = is_continuation_range c byte in ground arith

run_lead : (a : ℕ) (t : Bytes) → 0xF0 ≤ a → a ≤ 0xF4 → run start (a ∷ t) ≡ run (midway 3 a 0) t
unfolding run step
run_lead a t h k = ground arith

four_accepted :
    (a b c d : ℕ) (t : Bytes)
    → 0xF0 ≤ a
    → a ≤ 0xF4
    → IsBytes (b ∷ c ∷ d ∷ t)
    → run start (a ∷ b ∷ c ∷ d ∷ t) ≡ true
    → Above a b × InRange b c d × (run start t ≡ true)
four_accepted a b c d t h k i e =
    let (b_lo, b_hi, above, e₁) =
      second_accepted a b (c ∷ d ∷ t) i.0 h k (sym (run_lead a (b ∷ c ∷ d ∷ t) h k) ∙ e) in
    let (c_lo, c_hi, e₂) = third_accepted a c (d ∷ t) i.1.0 e₁ in
    let (d_lo, d_hi, ok) = last_accepted a d t i.1.1.0 e₂ in
    (
      above,
      record { b_lo = b_lo; b_hi = b_hi; c_lo = c_lo; c_hi = c_hi; d_lo = d_lo; d_hi = d_hi },
      ok,
    )

four_Reads :
    (a : ℕ) (r : Bytes) → 0xF0 ≤ a → a ≤ 0xF4 → IsBytes r → run start (a ∷ r) ≡ true → Reads (a ∷ r)
four_Reads a [] h k i e = absurd (unfold run step in ground arith)
four_Reads a (b ∷ []) h k i e = absurd (unfold run step in ground arith)
four_Reads a (b ∷ c ∷ []) h k i e = absurd (unfold run step in ground arith)
four_Reads a (b ∷ c ∷ d ∷ t) h k i e =
    let (v, w, ok) = four_accepted a b c d t h k i e in
    let bounds = four_bounds a b c d v w in
    (
      four_value a b c d,
      t,
      inr (omega arith, bounds.1),
      rw (encode-four_value a b c d v w) refl,
      ok,
    )

one_Reads : (a : ℕ) (r : Bytes) → a < 0x80 → run start (a ∷ r) ≡ true → Reads (a ∷ r)
unfolding run step encode
one_Reads a r h e = (a, r, ground arith, ground arith, ground arith)

lead_range :
    (a : ℕ) (r : Bytes)
    → run start (a ∷ r) ≡ true
    → (a < 0x80) ⊎ ((0xC2 ≤ a) × (a ≤ 0xDF)) ⊎ ((0xE0 ≤ a) × (a ≤ 0xEF)) ⊎ ((0xF0 ≤ a) × (a ≤ 0xF4))
unfolding run step
lead_range a r e = ground arith

next_Reads : (a : ℕ) (r : Bytes) → IsBytes r → run start (a ∷ r) ≡ true → Reads (a ∷ r)
next_Reads a r i e = elim (lead_range a r e) [
  | inl h ↦ one_Reads a r h e
  | inr (inl h) ↦ two_Reads a r h.0 h.1 i e
  | inr (inr (inl h)) ↦ three_Reads a r h.0 h.1 i e
  | inr (inr (inr h)) ↦ four_Reads a r h.0 h.1 i e
]

encode-length : (cp : ℕ) → 0 < length (encode cp)
unfolding encode
encode-length cp = ground arith

IsBytes-drop : (xs ys : Bytes) → IsBytes (xs ++ ys) → IsBytes ys
IsBytes-drop [] ys h = h
IsBytes-drop (x ∷ xs) ys h = IsBytes-drop xs ys h.1

-- Soundness, by induction on a bound for the length.
run-IsUtf8 : (n : ℕ) (s : Bytes) → length s < n → IsBytes s → run start s ≡ true → IsUtf8 s
run-IsUtf8 zero s h i e = absurd (omega arith)
run-IsUtf8 (suc n) [] h i e = ([], tt, refl)
run-IsUtf8 (suc n) (a ∷ r) h i e =
    let (cp, t, scalar, split, ok) = next_Reads a r i.1 e in
    let shorter : length t < n =
      omega (arith, ap length split, length-append (encode cp) t, encode-length cp) in
    let bytes : IsBytes t = IsBytes-drop (encode cp) t (subst IsBytes split i) in
    let (cps, scalars, rest) = run-IsUtf8 n t shorter bytes ok in
    (cp ∷ cps, (scalar, scalars), split ∙ ap (◌++◌ (encode cp)) rest)

run_small : (cp : ℕ) (t : Bytes) → cp < 0x800 → run start (encode cp ++ t) ≡ run start t
unfolding run step encode
run_small cp t h = ground (arith, is_continuation_range (0x80 + cp % 64))

size_class : (cp : ℕ) → (cp < 0x800) ⊎ ((0x800 ≤ cp) × (cp < 0x10000)) ⊎ (0x10000 ≤ cp)
size_class cp = omega arith

run-encode : (cp : ℕ) (t : Bytes) → IsScalar cp → run start (encode cp ++ t) ≡ run start t
run-encode cp t s = elim (size_class cp) [
  | inl h ↦ run_small cp t h
  | inr (inl h) ↦ run_three t cp s h.0 h.1
  | inr (inr h) ↦ run_four t cp h (omega arith)
]

run-encode_all : (cps : List ℕ) → All IsScalar cps → run start (encode_all cps) ≡ true
run-encode_all [] h = unfold run in refl
run-encode_all (cp ∷ cps) h = run-encode cp (encode_all cps) h.0 ∙ run-encode_all cps h.1

-- Of bytes, the validator accepts exactly the encodings of sequences of Unicode scalar values: no
-- overlong form, no surrogate, nothing above U+10FFFF and no truncated sequence is accepted, and
-- nothing else is refused.
pub is_valid_utf8_exact : (s : Bytes) → IsBytes s → (is_valid_utf8 s ≡ true) ↔ IsUtf8 s
unfolding is_valid_utf8
is_valid_utf8_exact s i = (run-IsUtf8 (suc (length s)) s (omega arith) i, accepts)
  where
    accepts : IsUtf8 s → run start s ≡ true
    accepts (cps, scalars, e) = rw e (run-encode_all cps scalars)
