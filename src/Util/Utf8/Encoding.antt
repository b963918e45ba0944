-- ===== src/Util/Utf8/Encoding.antt =====
-- The encoding form UTF-8, independent of the validator: what it means that bytes are UTF-8.
use uma_serve.Base.{
  ℕ, ◌+◌, ◌/◌, ◌%◌, ◌≤◌, ◌<◌, ◌≡◌, ◌⊎◌, List, [], ◌∷◌, ◌++◌, ltb, if◌then◌else◌, Bytes, All,
}

-- A Unicode scalar value: a code point that is no surrogate.
abbrev pub IsScalar : ℕ → Type 0
IsScalar cp = (cp < 0xD800) ⊎ ((0xE000 ≤ cp) × (cp < 0x110000))

unfoldable pub encode : ℕ → Bytes
encode cp =
    if ltb cp 0x80
    then cp ∷ []
    else if ltb cp 0x800
    then (0xC0 + cp / 64) ∷ (0x80 + cp % 64) ∷ []
    else if ltb cp 0x10000
    then (0xE0 + cp / 4096) ∷ (0x80 + cp / 64 % 64) ∷ (0x80 + cp % 64) ∷ []
    else (0xF0 + cp / 262144)
      ∷ (0x80 + cp / 4096 % 64)
      ∷ (0x80 + cp / 64 % 64)
      ∷ (0x80 + cp % 64)
      ∷ []

abbrev pub encode_all : List ℕ → Bytes
encode_all [] = []
encode_all (cp ∷ cps) = encode cp ++ encode_all cps

-- The bytes are the encoding of some sequence of scalar values.
abbrev pub IsUtf8 : Bytes → Type 0
IsUtf8 s = (cps : List ℕ) × All IsScalar cps × (s ≡ encode_all cps)
