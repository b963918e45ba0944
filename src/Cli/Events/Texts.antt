-- ===== src/Cli/Events/Texts.antt =====
-- What the client reads of the events that the daemon writes.
use uma_serve.Base.{
  ◌≤◌, ◌⊎◌, ℕ, ◌≡◌, refl, ap, ◌∙◌, ◌/◌, ◌%◌, Bool, true, false, ◌||◌, [], ◌∷◌, ◌++◌, some,
  append_assoc, append-nil, arith, inl, inr, Option-cases, All, ◌≢◌, Bytes, codes, ltb, ◌==◌,
  if◌then◌else◌,
}
use uma_serve.Cli.Events.{
  unquote, unescape, unquote_found, quote_after, colon_after, json_get_string,
}
use uma_serve.Ipc.Json.{find_byte, find_bytes, starts_with}
use uma_serve.Ipc.Json.Keys.{value_at, quoted, names, IsPlain, value_at-json_escape}
use uma_serve.Ipc.Protocol.{escape_byte, hex_digit, json_escape}
use uma_serve.Ipc.Protocol.Escape.{escaped, json_escape-escaped}

-- What the client makes of an escaped byte: a control character without a short escape comes back
-- as the letter `u` and its four digits.
unfoldable pub client_back : ℕ → Bytes
client_back c =
    if c == b'\n' || c == b'\r' || c == b'\t'
    then c ∷ []
    else if ltb c 0x20
    then b'u' ∷ b'0' ∷ b'0' ∷ hex_digit (c / 16) ∷ hex_digit (c % 16) ∷ []
    else c ∷ []

pub all_back : Bytes → Bytes
unfolding client_back
all_back [] = []
all_back (c ∷ cs) = client_back c ++ all_back cs

-- No control characters but newlines, carriage returns and tabs.
abbrev pub IsText : Bytes → Type 0
IsText = All (λ c. (0x20 ≤ c) ⊎ ((c ≡ b'\n') ⊎ ((c ≡ b'\r') ⊎ (c ≡ b'\t'))))

pub all_back-IsText : (s : Bytes) → IsText s → all_back s ≡ s
unfolding all_back client_back
all_back-IsText [] h = refl
all_back-IsText (c ∷ cs) h = ground (arith, h.0, all_back-IsText cs h.1)

-- Neither quotes nor backslashes.
abbrev pub IsUnescaped : Bytes → Type 0
IsUnescaped = All (λ c. (c ≢ b'"') × (c ≢ b'\\'))

unquote-plain :
    (cs out t : Bytes) → IsUnescaped cs → unquote false out (cs ++ t) ≡ unquote false (out ++ cs) t
unfolding unquote
unquote-plain [] out t h = rw append-nil
unquote-plain (c ∷ cs) out t h =
    let (q, b) = h.0 in
    let other : ((c == b'\\') ≡ false) × ((c == b'"') ≡ false) = ground (arith, q, b) in
    rw (other.0, other.1) (unquote-plain cs (out ++ c ∷ []) t h.1 ∙ rw append_assoc)

-- The digits of a control character.
digits : ℕ → Bytes
digits c = b'0' ∷ b'0' ∷ hex_digit (c / 16) ∷ hex_digit (c % 16) ∷ []

unquote-digits :
    (c : ℕ) (out t : Bytes)
    → unquote false (out ++ b'u' ∷ []) (digits c ++ t) ≡ unquote false (out ++ b'u' ∷ digits c) t
unfolding digits hex_digit
unquote-digits c out t =
    unquote-plain (digits c) (out ++ b'u' ∷ []) t (ground arith) ∙ rw append_assoc

unquote-escape_byte :
    (c : ℕ) (out t : Bytes)
    → unquote false out (escape_byte c ++ t) ≡ unquote false (out ++ client_back c) t
unfolding unquote unescape escape_byte client_back digits
unquote-escape_byte c out t = ground (arith, unquote-digits c out t)

unquote-escaped :
    (s out t : Bytes) → unquote false out (escaped s ++ t) ≡ unquote false (out ++ all_back s) t
unfolding all_back
unquote-escaped [] out t = rw append-nil
unquote-escaped (c ∷ cs) out t = rw (append_assoc (escape_byte c) (escaped cs) t) (
    unquote-escape_byte c out (escaped cs ++ t)
    ∙ unquote-escaped cs (out ++ client_back c) t
    ∙ rw append_assoc)

unquote-json_escape : (s r : Bytes) → unquote false [] (json_escape s ++ b'"' ∷ r) ≡ all_back s
unquote-json_escape s r =
    rw (json_escape-escaped s) (unquote-escaped s [] (b'"' ∷ r) ∙ unfold unquote in refl)

json_get_string-value_at : (j key : Bytes) → json_get_string j key ≡ quote_after (value_at key j)
unfolding json_get_string value_at quote_after colon_after
json_get_string-value_at j key = elim (Option-cases (find_bytes (quoted key) j)) [
  | inl e ↦ rw (json_get_string, value_at, e)
  | inr (s, e) ↦ rw (json_get_string, value_at, e)
]

-- The string behind a colon, of a text that `json_escape` wrote.
pub json_get_string-json_escape :
    (j key s r : Bytes)
    → value_at key j ≡ some (b':' ∷ b'"' ∷ (json_escape s ++ b'"' ∷ r))
    → json_get_string j key ≡ all_back s
unfolding quote_after unquote_found find_byte
json_get_string-json_escape j key s r e =
    json_get_string-value_at j key ∙ ap quote_after e ∙ unquote-json_escape s r

-- An event of a request: its id, and what is behind the id.
unfoldable pub event : Bytes → Bytes → Bytes
event id r = codes "{\"id\":\"" ++ (json_escape id ++ b'"' ∷ r)

-- A key that is not `id` is searched from the id on.
module _ (key : Bytes) (plain : IsPlain key) (id r : Bytes) where
  value_at-event :
      value_at key (codes "{\"id\":\"" ++ (json_escape id ++ b'"' ∷ r))
        ≡ value_at key (b'"' ∷ (json_escape id ++ b'"' ∷ r))
      → value_at key (event id r)
        ≡ (if names key id then find_byte b':' r else value_at key (b'"' ∷ r))
  unfolding event
  value_at-event skipped = skipped ∙ value_at-json_escape key id r plain

event_key : IsPlain (codes "event")
event_key = ground arith

text_key : IsPlain (codes "text")
text_key = ground arith

message_key : IsPlain (codes "message")
message_key = ground arith

-- The kind of an event is read whatever its id is.
pub json_get_string-event :
    (id kind r : Bytes)
    → IsUnescaped kind
    → json_get_string (event id (codes ",\"event\":\"" ++ (kind ++ b'"' ∷ r))) (codes "event")
      ≡ kind
unfolding quote_after unquote_found find_byte value_at find_bytes starts_with
json_get_string-event id kind r p =
    let r' = codes ",\"event\":\"" ++ (kind ++ b'"' ∷ r) in
    json_get_string-value_at (event id r') (codes "event")
    ∙ ap quote_after
        (value_at-event (codes "event") event_key id r' refl ∙ either (names (codes "event") id))
    ∙ unquote-plain kind [] (b'"' ∷ r) p
    ∙ unfold unquote in refl
  where
    either :
        (b : Bool)
        → (if b
            then find_byte b':' (codes ",\"event\":\"" ++ (kind ++ b'"' ∷ r))
            else value_at (codes "event") (codes "\",\"event\":\"" ++ (kind ++ b'"' ∷ r)))
          ≡ some (codes ":\"" ++ (kind ++ b'"' ∷ r))
    either true = refl
    either false = refl

-- The text of a token is read, unless the id is taken for the key.
pub json_get_string-text :
    (id text r : Bytes)
    → names (codes "text") id ≡ false
    → json_get_string
        (event id (codes ",\"event\":\"token\",\"text\":\"" ++ (json_escape text ++ b'"' ∷ r)))
        (codes "text")
      ≡ all_back text
unfolding find_byte value_at find_bytes starts_with
json_get_string-text id text r n =
    let r' = codes ",\"event\":\"token\",\"text\":\"" ++ (json_escape text ++ b'"' ∷ r) in
    json_get_string-json_escape (event id r') (codes "text") text r
      (value_at-event (codes "text") text_key id r' refl ∙ rw n refl)

-- The message of an error is read, unless the id is taken for the key; the code may be.
pub json_get_string-message :
    (id code message : Bytes)
    → names (codes "message") id ≡ false
    → json_get_string
        (event id (
          codes ",\"event\":\"error\",\"code\":\""
          ++ (json_escape code
              ++ (codes "\",\"message\":\"" ++ (json_escape message ++ codes "\"}")))))
        (codes "message")
      ≡ all_back message
unfolding find_byte value_at find_bytes starts_with
json_get_string-message id code message n =
    let r = codes ",\"message\":\"" ++ (json_escape message ++ codes "\"}") in
    let r' = codes ",\"event\":\"error\",\"code\":\"" ++ (json_escape code ++ b'"' ∷ r) in
    json_get_string-json_escape (event id r') (codes "message") message (codes "}") (
      value_at-event (codes "message") message_key id r' refl
      ∙ rw n (
          value_at-json_escape (codes "message") code r message_key
          ∙ either (names (codes "message") code)))
  where
    either :
        (b : Bool)
        → (if b
            then find_byte b':' (codes ",\"message\":\"" ++ (json_escape message ++ codes "\"}"))
            else value_at
                (codes "message")
                (codes "\",\"message\":\"" ++ (json_escape message ++ codes "\"}")))
          ≡ some (codes ":\"" ++ (json_escape message ++ codes "\"}"))
    either true = refl
    either false = refl
