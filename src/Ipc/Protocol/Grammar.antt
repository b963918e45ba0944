-- ===== src/Ipc/Protocol/Grammar.antt =====
-- The part of the grammar of JSON that the events use, and what the escaping and the printing of
-- numbers give. It is stated on bytes: that those from 0x80 on are characters of UTF-8 is
-- Util/Utf8/Encoding's.
use uma_serve.Base.{
  ℕ, zero, suc, ◌+◌, ◌/◌, ◌%◌, ◌≤◌, ◌<◌, ◌≡◌, refl, sym, subst, inl, inr, Bool, true, not, ◌&&◌,
  ◌||◌, [], ◌∷◌, ◌++◌, arith, ltb, leb, ◌==◌, Bytes, Bool-cases,
}
use uma_serve.Ipc.Protocol.Digits.{IsDigits}
use uma_serve.Ipc.Protocol.Escape.{escaped, json_escape-escaped}
use uma_serve.Ipc.Protocol.{hex_digit, escape_byte, json_escape, decimal, to_string}

-- The characters that may follow a backslash, and those of a hexadecimal number.
unfoldable pub is_escape : ℕ → Bool
is_escape e =
    e == b'"'
    || e == b'\\'
    || e == b'/'
    || e == b'b'
    || e == b'f'
    || e == b'n'
    || e == b'r'
    || e == b't'

unfoldable pub is_hex : ℕ → Bool
is_hex h = (leb b'0' h && leb h b'9') || (leb b'a' h && leb h b'f') || (leb b'A' h && leb h b'F')

unfoldable pub is_plain : ℕ → Bool
is_plain b = leb 0x20 b && not (b == b'"') && not (b == b'\\')

-- What stands between the quotes of a string.
pub data IsBody : Bytes → Type 0 where
  ended : IsBody []
  plain : (b : ℕ) {s : Bytes} → is_plain b ≡ true → IsBody s → IsBody (b ∷ s)
  short : (e : ℕ) {s : Bytes} → is_escape e ≡ true → IsBody s → IsBody (b'\\' ∷ e ∷ s)
  unicode :
      (h i j k : ℕ) {s : Bytes}
      → is_hex h ≡ true
      → is_hex i ≡ true
      → is_hex j ≡ true
      → is_hex k ≡ true
      → IsBody s
      → IsBody (b'\\' ∷ b'u' ∷ h ∷ i ∷ j ∷ k ∷ s)

-- A number without sign, fraction and exponent.
pub data IsNumber : Bytes → Type 0 where
  nought : IsNumber (b'0' ∷ [])
  digits : (d : ℕ) {s : Bytes} → b'1' ≤ d → d ≤ b'9' → IsDigits s → IsNumber (d ∷ s)

pub data IsValue : Bytes → Type 0 where
  string_value : {s : Bytes} → IsBody s → IsValue (b'"' ∷ (s ++ b'"' ∷ []))
  number_value : {s : Bytes} → IsNumber s → IsValue s

pub data IsMembers : Bytes → Type 0 where
  last : (k v : Bytes) → IsBody k → IsValue v → IsMembers (b'"' ∷ (k ++ (b'"' ∷ b':' ∷ v)))
  more :
      (k v ms : Bytes)
      → IsBody k
      → IsValue v
      → IsMembers ms
      → IsMembers (b'"' ∷ (k ++ (b'"' ∷ b':' ∷ (v ++ b',' ∷ ms))))

pub data IsObject : Bytes → Type 0 where
  object : (ms : Bytes) → IsMembers ms → IsObject (b'{' ∷ (ms ++ b'}' ∷ []))

escape_byte-IsBody : (c : ℕ) (s : Bytes) → IsBody s → IsBody (escape_byte c ++ s)
unfolding escape_byte is_escape is_plain is_hex hex_digit
escape_byte-IsBody c s h = elim (Bool-cases (c == b'"')) [
  | inl q ↦ rw (escape_byte, q) (short b'"' refl h)
  | inr q ↦ elim (Bool-cases (c == b'\\')) [
    | inl b ↦ rw (escape_byte, q, b) (short b'\\' refl h)
    | inr b ↦ elim (Bool-cases (c == b'\n')) [
      | inl n ↦ rw (escape_byte, q, b, n) (short b'n' refl h)
      | inr n ↦ elim (Bool-cases (c == b'\r')) [
        | inl r ↦ rw (escape_byte, q, b, n, r) (short b'r' refl h)
        | inr r ↦ elim (Bool-cases (c == b'\t')) [
          | inl t ↦ rw (escape_byte, q, b, n, r, t) (short b't' refl h)
          | inr t ↦ elim (Bool-cases (ltb c 0x20)) [
            | inl l ↦
                rw (escape_byte, q, b, n, r, t, l)
                  (unicode b'0' b'0' _ _ refl refl (ground arith) (ground arith) h)
            | inr l ↦ rw (escape_byte, q, b, n, r, t, l) (plain c (ground arith) h)
          ]
        ]
      ]
    ]
  ]
]

pub json_escape-IsBody : (s : Bytes) → IsBody (json_escape s)
json_escape-IsBody s = subst IsBody (sym (json_escape-escaped s)) (escaped-IsBody s)
  where
    escaped-IsBody : (s : Bytes) → IsBody (escaped s)
    escaped-IsBody [] = ended
    escaped-IsBody (c ∷ cs) = escape_byte-IsBody c (escaped cs) (escaped-IsBody cs)

-- A number that is not 0 begins with another digit.
decimal-IsNumber :
    (f n : ℕ) (out : Bytes) → 0 < n → n < f → IsDigits out → IsNumber (decimal f n out)
unfolding decimal
decimal-IsNumber zero n out p l h = absurd (omega arith)
decimal-IsNumber (suc f) n out p l h = elim (Bool-cases (ltb n 10)) [
  | inl s ↦ rw (decimal, s) (digits (b'0' + n % 10) (ground arith) (ground arith) h)
  | inr s ↦
      rw (decimal, s)
        (decimal-IsNumber f (n / 10) ((b'0' + n % 10) ∷ out) (ground arith) (ground arith)
          ((ground arith, ground arith), h))
]

pub to_string-IsNumber : (n : ℕ) → IsNumber (to_string n)
unfolding to_string decimal
to_string-IsNumber zero = nought
to_string-IsNumber (suc n) =
    decimal-IsNumber (suc (suc n)) (suc n) [] (omega arith) (omega arith) tt
