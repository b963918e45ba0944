-- ===== src/Ipc/Json.antt =====
-- The field extraction of ipc/session_manager.cpp: the lambda `extract_json_string` of
-- `on_readable`. A position in the text is the suffix that begins there; an index that moves past
-- the current byte is a count of bytes to skip.
pub mod Escaped
pub mod Keys
mod Tests
use uma_serve.Base.{
  ℕ, zero, suc, Bool, true, false, ◌&&◌, ◌||◌, List, [], ◌∷◌, ◌++◌, Option, none, some, ltb, leb,
  ◌==◌, if◌then◌else◌, Bytes,
}

unfoldable pub starts_with : Bytes → Bytes → Bool
starts_with [] s = true
starts_with (p ∷ ps) [] = false
starts_with (p ∷ ps) (c ∷ cs) = p == c && starts_with ps cs

-- `j.find(pattern, pos)` for a pattern that is not empty: the suffix at the first occurrence.
unfoldable pub find_bytes : Bytes → Bytes → Option Bytes
unfolding starts_with
find_bytes pattern [] = none
find_bytes pattern (c ∷ cs) =
    if starts_with pattern (c ∷ cs) then some (c ∷ cs) else find_bytes pattern cs

-- `j.find(c, pos)`.
unfoldable pub find_byte : ℕ → Bytes → Option Bytes
find_byte b [] = none
find_byte b (c ∷ cs) = if c == b then some (c ∷ cs) else find_byte b cs

-- The text that was collected, and `invalid_escape`.
pub record Extracted : Type 0 where
  pub out : Bytes
  pub invalid_escape : Bool

-- One turn of the loop: it stops, or goes on after so many more bytes.
pub data Turn : Type 0 where
  stop : Bytes → Bool → Turn
  more : Bytes → ℕ → Turn

unfoldable pub is_hex : ℕ → Bool
is_hex c = (leb b'0' c && leb c b'9') || (leb b'a' c && leb c b'f') || (leb b'A' c && leb c b'F')

-- `case 'u'`: four hexadecimal digits are passed over, and a placeholder is written.
hex_turn : Bytes → Bytes → Turn
hex_turn out (a ∷ b ∷ c ∷ d ∷ r) =
    if is_hex a && is_hex b && is_hex c && is_hex d
    then more (out ++ b'?' ∷ []) 5
    else stop out true
hex_turn out _ = stop out true

-- The byte behind a backslash.
escape_turn : Bytes → Bytes → Turn
escape_turn out [] = stop out true
escape_turn out (e ∷ r) =
    if e == b'"'
    then more (out ++ b'"' ∷ []) 1
    else if e == b'\\'
    then more (out ++ b'\\' ∷ []) 1
    else if e == b'/'
    then more (out ++ b'/' ∷ []) 1
    else if e == b'b'
    then more (out ++ 8 ∷ []) 1
    else if e == b'f'
    then more (out ++ 12 ∷ []) 1
    else if e == b'n'
    then more (out ++ b'\n' ∷ []) 1
    else if e == b'r'
    then more (out ++ b'\r' ∷ []) 1
    else if e == b't'
    then more (out ++ b'\t' ∷ []) 1
    else if e == b'u'
    then hex_turn out r
    else stop out true

unfoldable pub turn : Bytes → ℕ → Bytes → Turn
unfolding hex_turn escape_turn is_hex
turn out c r =
    if c == b'\\'
    then escape_turn out r
    else if c == b'"'
    then stop out false
    else if ltb c 0x20
    then stop out true
    else more (out ++ c ∷ []) 0

unfoldable pub scan : ℕ → Bytes → Bytes → Extracted
unfolding turn
scan skip out [] = record { out = out; invalid_escape = false }
scan (suc skip) out (c ∷ r) = scan skip out r
scan zero out (c ∷ r) = elim (turn out c r) [
  | stop o b ↦ record { out = o; invalid_escape = b }
  | more o k ↦ scan k o r
]

abbrev pub missing : Extracted
missing = record { out = []; invalid_escape = false }

-- The bytes behind the opening quote.
unfoldable pub after_quote : Option Bytes → Extracted
after_quote none = missing
after_quote (some []) = missing
after_quote (some (q ∷ r)) = scan zero [] r

unfoldable pub after_colon : Option Bytes → Extracted
after_colon none = missing
after_colon (some s) = after_quote (find_byte b'"' s)

after_key : Option Bytes → Extracted
after_key none = missing
after_key (some s) = after_colon (find_byte b':' s)

unfoldable pub extract_json_string : Bytes → Bytes → Extracted
unfolding find_bytes find_byte after_quote after_colon after_key scan
extract_json_string j key = after_key (find_bytes (b'"' ∷ (key ++ b'"' ∷ [])) j)

-- The lambda `extract_json_number`: the text of the number behind a key, if it is not empty.
is_blank : ℕ → Bool
is_blank c = c == b' ' || c == b'\t' || c == b'\n' || c == b'\r'

skip_blanks : Bytes → Bytes
unfolding is_blank
skip_blanks [] = []
skip_blanks (c ∷ cs) = if is_blank c then skip_blanks cs else c ∷ cs

is_number_byte : ℕ → Bool
is_number_byte c =
    (leb b'0' c && leb c b'9') || c == b'-' || c == b'+' || c == b'e' || c == b'E' || c == b'.'

number_bytes : Bytes → Bytes
unfolding is_number_byte
number_bytes [] = []
number_bytes (c ∷ cs) = if is_number_byte c then c ∷ number_bytes cs else []

number_text : Bytes → Option Bytes
number_text [] = none
number_text (c ∷ cs) = some (c ∷ cs)

number_after_colon : Option Bytes → Option Bytes
unfolding skip_blanks number_bytes number_text
number_after_colon none = none
number_after_colon (some []) = none
number_after_colon (some (c ∷ cs)) = number_text (number_bytes (skip_blanks cs))

number_after_key : Option Bytes → Option Bytes
number_after_key none = none
number_after_key (some s) = number_after_colon (find_byte b':' s)

unfoldable pub number_field : Bytes → Bytes → Option Bytes
unfolding find_bytes find_byte number_after_key number_after_colon
number_field j key = number_after_key (find_bytes (b'"' ∷ (key ++ b'"' ∷ [])) j)
