-- ===== src/Ipc/Json/Keys.antt =====
-- Where the search for a key stops in a text with an escaped string.
use uma_serve.Base.{
  ℕ, ◌≤◌, ◌≡◌, ◌≢◌, refl, ap, ◌∙◌, Bool, true, false, ◌&&◌, ◌||◌, [], ◌∷◌, ◌++◌, Option, none, some,
  map, append_assoc, arith, ◌==◌, if◌then◌else◌, Bytes, bytes_eq, All, inl, inr, Option-cases,
}
use uma_serve.Ipc.Json.{
  starts_with, find_bytes, find_byte, after_colon, after_quote, after_key, extract_json_string,
}
use uma_serve.Ipc.Json.Escaped.{read_back, scan-json_escape}
use uma_serve.Ipc.Protocol.{escape_byte, json_escape}
use uma_serve.Ipc.Protocol.Escape.{escaped, json_escape-escaped}

-- A key in quotes, as it is searched.
abbrev pub quoted : Bytes → Bytes
quoted key = b'"' ∷ (key ++ b'"' ∷ [])

-- The first colon behind the first occurrence of a key.
unfoldable pub value_at : Bytes → Bytes → Option Bytes
value_at key j = elim (find_bytes (quoted key) j) [ none ↦ none | some s ↦ find_byte b':' s ]

-- A key that is written as it is: neither quotes, backslashes, colons nor control characters.
abbrev pub IsPlain : Bytes → Type 0
IsPlain = All (λ c. (c ≢ b'"') × (c ≢ b'\\') × (c ≢ b':') × (0x20 ≤ c))

names_behind : Bytes → Bytes → Bool
names_behind key [] = false
names_behind key (c ∷ cs) = (c == b'"' && bytes_eq cs key) || names_behind key cs

-- A string that the search for a key takes for it: the key itself, or a string that ends in a
-- quote and the key.
unfoldable pub names : Bytes → Bytes → Bool
unfolding names_behind
names key s = bytes_eq s key || names_behind key s

starts_with-escaped :
    (key s r : Bytes)
    → IsPlain key
    → starts_with (key ++ b'"' ∷ []) (escaped s ++ b'"' ∷ r) ≡ bytes_eq s key
unfolding starts_with bytes_eq escape_byte
starts_with-escaped [] [] r p = refl
starts_with-escaped [] (c ∷ cs) r p = ground arith
starts_with-escaped (k ∷ key) [] r p = ground (arith, p.0.0)
starts_with-escaped (k ∷ key) (c ∷ cs) r p =
    let (q, b, n, h) = p.0 in ground (arith, q, b, h, starts_with-escaped key cs r p.1)

-- Over one escaped byte the search stops at a quote with the rest of the key behind it.
value_at-escape_byte :
    (key t : Bytes) (c : ℕ)
    → value_at key (escape_byte c ++ t)
      ≡ (if c == b'"' && starts_with (key ++ b'"' ∷ []) t then find_byte b':' t else value_at key t)
unfolding value_at find_bytes starts_with find_byte escape_byte
value_at-escape_byte key t c = ground arith

-- No colon is found in a string that equals a key.
find_byte-escaped :
    (key s r : Bytes)
    → IsPlain key
    → bytes_eq s key ≡ true
    → find_byte b':' (escaped s ++ b'"' ∷ r) ≡ find_byte b':' r
unfolding find_byte bytes_eq escape_byte
find_byte-escaped [] [] r p e = refl
find_byte-escaped [] (c ∷ cs) r p e = absurd (cc)
find_byte-escaped (k ∷ key) [] r p e = absurd (cc)
find_byte-escaped (k ∷ key) (c ∷ cs) r p e =
    let (q, b, n, h) = p.0 in ground (arith, q, b, n, h, e, find_byte-escaped key cs r p.1)

value_at-behind :
    (key s r : Bytes)
    → IsPlain key
    → value_at key (escaped s ++ b'"' ∷ r)
      ≡ (if names_behind key s then find_byte b':' r else value_at key (b'"' ∷ r))
unfolding names_behind
value_at-behind key [] r p = refl
value_at-behind key (c ∷ cs) r p =
    let t = escaped cs ++ b'"' ∷ r in
    rw (append_assoc (escape_byte c) (escaped cs) (b'"' ∷ r)) (
      ground (
        arith,
        value_at-escape_byte key t c,
        starts_with-escaped key cs r p,
        find_byte-escaped key cs r p,
        value_at-behind key cs r p,
      ))

value_at-quote :
    (key t : Bytes)
    → value_at key (b'"' ∷ t)
      ≡ (if starts_with (key ++ b'"' ∷ []) t then find_byte b':' t else value_at key t)
unfolding value_at find_bytes starts_with find_byte
value_at-quote key t = ground arith

names-cases : (key s : Bytes) → names key s ≡ (bytes_eq s key || names_behind key s)
unfolding names
names-cases key s = refl

-- The search for a key over an escaped string in quotes: it stops there if the string names the
-- key, and then the colon is the first one behind the string; otherwise it goes on at the closing
-- quote.
pub value_at-json_escape :
    (key s r : Bytes)
    → IsPlain key
    → value_at key (b'"' ∷ (json_escape s ++ b'"' ∷ r))
      ≡ (if names key s then find_byte b':' r else value_at key (b'"' ∷ r))
value_at-json_escape key s r p =
    let t = escaped s ++ b'"' ∷ r in
    rw (json_escape-escaped s) (
      ground (
        arith,
        value_at-quote key t,
        starts_with-escaped key s r p,
        find_byte-escaped key s r p,
        value_at-behind key s r p,
        names-cases key s,
      ))

pub extract_json_string-value_at :
    (j key : Bytes) → extract_json_string j key ≡ after_colon (value_at key j)
unfolding extract_json_string value_at after_colon after_key
extract_json_string-value_at j key = elim (Option-cases (find_bytes (quoted key) j)) [
  | inl e ↦ rw (extract_json_string, value_at, e)
  | inr (s, e) ↦ rw (extract_json_string, value_at, e)
]

-- The string behind a colon is given back as `json_escape` wrote it.
pub extract_json_string-json_escape :
    (j key s r : Bytes)
    → value_at key j ≡ some (b':' ∷ b'"' ∷ (json_escape s ++ b'"' ∷ r))
    → extract_json_string j key ≡ record { out = map read_back s; invalid_escape = false }
unfolding after_colon after_quote find_byte
extract_json_string-json_escape j key s r e =
    extract_json_string-value_at j key ∙ ap after_colon e ∙ scan-json_escape s r
