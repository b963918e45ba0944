-- ===== src/Ipc/Protocol/Encoded.antt =====
-- What the escaping of a text and the printing of a number give is UTF-8.
use uma_serve.Base.{
  ℕ, ◌≤◌, ◌<◌, ◌≡◌, refl, sym, ap, subst, ◌∙◌, inl, inr, Bool, true, ◌&&◌, List, [], ◌∷◌, ◌++◌,
  append_assoc, append-nil, arith, ltb, Bytes, All, All-append, Bool-cases, not-ltb→le, ltb→lt,
}
use uma_serve.Ipc.Protocol.Digits.{IsDigits}
use uma_serve.Ipc.Protocol.Escape.{escaped, json_escape-escaped}
use uma_serve.Ipc.Protocol.Grammar.{IsNumber, nought, digits, to_string-IsNumber}
use uma_serve.Ipc.Protocol.{hex_digit, escape_byte, json_escape, to_string}
use uma_serve.Util.Utf8.Encoding.{IsScalar, encode, encode_all, IsUtf8}

encode_all-append : (xs ys : List ℕ) → encode_all (xs ++ ys) ≡ encode_all xs ++ encode_all ys
encode_all-append [] ys = refl
encode_all-append (x ∷ xs) ys =
    ap (λ s. encode x ++ s) (encode_all-append xs ys)
    ∙ sym (append_assoc (encode x) (encode_all xs) (encode_all ys))

pub append-IsUtf8 : (s t : Bytes) → IsUtf8 s → IsUtf8 t → IsUtf8 (s ++ t)
append-IsUtf8 s t (xs, h, e) (ys, k, f) = (
  xs ++ ys,
  All-append IsScalar xs ys h k,
  ap (λ s. s ++ t) e ∙ ap (λ t. encode_all xs ++ t) f ∙ sym (encode_all-append xs ys),
)

-- Characters of ASCII are bytes of their own.
abbrev pub all_ascii : Bytes → Bool
all_ascii [] = true
all_ascii (c ∷ s) = ltb c 0x80 && all_ascii s

pub all_ascii-IsUtf8 : (s : Bytes) → all_ascii s ≡ true → IsUtf8 s
unfolding encode
all_ascii-IsUtf8 [] h = ([], tt, refl)
all_ascii-IsUtf8 (c ∷ s) h =
    let ascii : ltb c 0x80 ≡ true = ground (arith, h) in
    let (cps, scalar, e) = all_ascii-IsUtf8 s (ground (arith, h)) in
    (
      c ∷ cps,
      (inl (omega (arith, ltb→lt c 0x80 ascii)), scalar),
      rw (encode, ascii) (ap (λ t. c ∷ t) e),
    )

escape_byte-ascii : (c : ℕ) → c < 0x80 → all_ascii (escape_byte c) ≡ true
unfolding escape_byte hex_digit
escape_byte-ascii c h = ground (arith, h)

escape_byte-high : (c : ℕ) → 0x80 ≤ c → escape_byte c ≡ c ∷ []
unfolding escape_byte
escape_byte-high c h = ground (arith, h)

escaped-append : (s t : Bytes) → escaped (s ++ t) ≡ escaped s ++ escaped t
escaped-append [] t = refl
escaped-append (c ∷ s) t =
    ap (λ r. escape_byte c ++ r) (escaped-append s t)
    ∙ sym (append_assoc (escape_byte c) (escaped s) (escaped t))

escaped-high : (s : Bytes) → All (λ c. 0x80 ≤ c) s → escaped s ≡ s
escaped-high [] h = refl
escaped-high (c ∷ s) h =
    ap (λ t. t ++ escaped s) (escape_byte-high c h.0) ∙ ap (λ t. c ∷ t) (escaped-high s h.1)

encode-high : (cp : ℕ) → 0x80 ≤ cp → All (λ c. 0x80 ≤ c) (encode cp)
unfolding encode
encode-high cp h = ground (arith, h)

-- Escaping keeps a character beyond ASCII as it is, and gives ASCII for another.
escaped-encode : (cp : ℕ) → IsScalar cp → IsUtf8 (escaped (encode cp))
unfolding encode
escaped-encode cp h = elim (Bool-cases (ltb cp 0x80)) [
  | inl ascii ↦
      rw (encode, ascii)
        (append-IsUtf8 (escape_byte cp) []
          (all_ascii-IsUtf8 (escape_byte cp) (escape_byte-ascii cp (ltb→lt cp 0x80 ascii)))
          ([], tt, refl))
  | inr high ↦
      let kept = escaped-high (encode cp) (encode-high cp (not-ltb→le cp 0x80 high)) in
      (cp ∷ [], (h, tt), kept ∙ sym (append-nil (encode cp)))
]

pub json_escape-IsUtf8 : (s : Bytes) → IsUtf8 s → IsUtf8 (json_escape s)
json_escape-IsUtf8 s (cps, h, e) =
    subst IsUtf8 (sym (json_escape-escaped s ∙ ap escaped e)) (all_escaped cps h)
  where
    all_escaped : (cps : List ℕ) → All IsScalar cps → IsUtf8 (escaped (encode_all cps))
    all_escaped [] h = ([], tt, refl)
    all_escaped (cp ∷ cps) h =
        subst IsUtf8 (sym (escaped-append (encode cp) (encode_all cps)))
          (append-IsUtf8 _ _ (escaped-encode cp h.0) (all_escaped cps h.1))

IsDigits-ascii : (s : Bytes) → IsDigits s → all_ascii s ≡ true
IsDigits-ascii [] h = refl
IsDigits-ascii (d ∷ s) h = ground (arith, h.0, IsDigits-ascii s h.1)

IsNumber-ascii : (s : Bytes) → IsNumber s → all_ascii s ≡ true
IsNumber-ascii _ nought = refl
IsNumber-ascii _ (digits d {s} l u h) = ground (arith, l, u, IsDigits-ascii s h)

pub to_string-IsUtf8 : (n : ℕ) → IsUtf8 (to_string n)
to_string-IsUtf8 n = all_ascii-IsUtf8 (to_string n) (IsNumber-ascii _ (to_string-IsNumber n))
