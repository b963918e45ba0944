-- ===== src/Ipc/Protocol/WellFormed.antt =====
-- The payloads of the events are JSON objects in UTF-8, where their texts are UTF-8.
use uma_serve.Base.{
  ℕ, ◌≡◌, refl, ap, Bool, true, ◌&&◌, [], ◌∷◌, ◌++◌, append_assoc, arith, Bytes, codes,
}
use uma_serve.Ipc.Protocol.{
  json_escape, to_string, write_frame, append_token_event, append_eos_event, append_error_event,
}
use uma_serve.Util.Utf8.Encoding.{IsUtf8}
use uma_serve.Ipc.Protocol.Encoded.{
  all_ascii, append-IsUtf8, all_ascii-IsUtf8, json_escape-IsUtf8, to_string-IsUtf8,
}
use uma_serve.Ipc.Protocol.Grammar.{
  is_plain, IsBody, ended, plain, IsValue, string_value, number_value, IsMembers, last, more,
  IsObject, object, json_escape-IsBody, to_string-IsNumber,
}

all_plain : Bytes → Bool
unfolding is_plain
all_plain [] = true
all_plain (b ∷ s) = is_plain b && all_plain s

all_plain-IsBody : (s : Bytes) → all_plain s ≡ true → IsBody s
unfolding all_plain
all_plain-IsBody [] h = ended
all_plain-IsBody (b ∷ s) h = plain b (ground (arith, h)) (all_plain-IsBody s (ground (arith, h)))

-- A member whose value is an escaped text, and one whose value is such a text as it is.
abbrev quoted : Bytes → Bytes
quoted s = b'"' ∷ (s ++ b'"' ∷ [])

quoted-IsValue : (s : Bytes) → IsValue (quoted (json_escape s))
quoted-IsValue s = string_value (json_escape-IsBody s)

token_members : Bytes → Bytes → ℕ → Bytes
token_members id text n =
    codes "\"id\":"
    ++ (quoted (json_escape id)
        ++ (codes ",\"event\":\"token\",\"text\":"
            ++ (quoted (json_escape text) ++ (codes ",\"token_id\":" ++ to_string n))))

token_members-IsMembers : (id text : Bytes) (n : ℕ) → IsMembers (token_members id text n)
unfolding token_members all_plain is_plain
token_members-IsMembers id text n =
    let number =
      last (codes "token_id") (to_string n) (all_plain-IsBody _ refl)
        (number_value (to_string-IsNumber n)) in
    let texts =
      more (codes "text") (quoted (json_escape text)) _ (all_plain-IsBody _ refl)
        (quoted-IsValue text) number in
    let event =
      more (codes "event") (quoted (codes "token")) _ (all_plain-IsBody _ refl)
        (string_value (all_plain-IsBody (codes "token") refl)) texts in
    more (codes "id") (quoted (json_escape id)) _ (all_plain-IsBody _ refl) (quoted-IsValue id)
      event

eos_members : Bytes → Bytes → Bytes
eos_members id reason =
    codes "\"id\":"
    ++ (quoted (json_escape id)
        ++ (codes ",\"event\":\"eos\",\"reason\":" ++ quoted (json_escape reason)))

eos_members-IsMembers : (id reason : Bytes) → IsMembers (eos_members id reason)
unfolding eos_members all_plain is_plain
eos_members-IsMembers id reason =
    let reasons =
      last (codes "reason") (quoted (json_escape reason)) (all_plain-IsBody _ refl)
        (quoted-IsValue reason) in
    let event =
      more (codes "event") (quoted (codes "eos")) _ (all_plain-IsBody _ refl)
        (string_value (all_plain-IsBody (codes "eos") refl)) reasons in
    more (codes "id") (quoted (json_escape id)) _ (all_plain-IsBody _ refl) (quoted-IsValue id)
      event

error_members : Bytes → Bytes → Bytes → Bytes
error_members id code message =
    codes "\"id\":"
    ++ (quoted (json_escape id)
        ++ (codes ",\"event\":\"error\",\"code\":"
            ++ (quoted (json_escape code)
                ++ (codes ",\"message\":" ++ quoted (json_escape message)))))

error_members-IsMembers : (id code message : Bytes) → IsMembers (error_members id code message)
unfolding error_members all_plain is_plain
error_members-IsMembers id code message =
    let messages =
      last (codes "message") (quoted (json_escape message)) (all_plain-IsBody _ refl)
        (quoted-IsValue message) in
    let codes' =
      more (codes "code") (quoted (json_escape code)) _ (all_plain-IsBody _ refl)
        (quoted-IsValue code) messages in
    let event =
      more (codes "event") (quoted (codes "error")) _ (all_plain-IsBody _ refl)
        (string_value (all_plain-IsBody (codes "error") refl)) codes' in
    more (codes "id") (quoted (json_escape id)) _ (all_plain-IsBody _ refl) (quoted-IsValue id)
      event

-- The events are framed objects, in UTF-8.
abbrev pub IsFramed : Bytes → Bytes → Type 0
IsFramed tx tx' = (js : Bytes) × (tx' ≡ write_frame tx js) × IsObject js × IsUtf8 js

abbrev braced : Bytes → Bytes
braced ms = b'{' ∷ (ms ++ b'}' ∷ [])

append_token_event-members :
    (tx id text : Bytes) (n : ℕ)
    → append_token_event tx id text n ≡ write_frame tx (braced (token_members id text n))
unfolding append_token_event token_members
append_token_event-members tx id text n = ap (write_frame tx) (simp (append_assoc))

append_eos_event-members :
    (tx id reason : Bytes)
    → append_eos_event tx id reason ≡ write_frame tx (braced (eos_members id reason))
unfolding append_eos_event eos_members
append_eos_event-members tx id reason = ap (write_frame tx) (simp (append_assoc))

append_error_event-members :
    (tx id code message : Bytes)
    → append_error_event tx id code message
      ≡ write_frame tx (braced (error_members id code message))
unfolding append_error_event error_members
append_error_event-members tx id code message = ap (write_frame tx) (simp (append_assoc))

-- Texts in UTF-8 between parts of ASCII.
abbrev between : (front s back : Bytes) → Bytes
between front s back = front ++ (s ++ back)

between-IsUtf8 :
    (front s back : Bytes)
    → all_ascii front ≡ true
    → IsUtf8 s
    → IsUtf8 back
    → IsUtf8 (between front s back)
between-IsUtf8 front s back f h b =
    append-IsUtf8 front (s ++ back) (all_ascii-IsUtf8 front f) (append-IsUtf8 s back h b)

quoted-IsUtf8 : (s : Bytes) → IsUtf8 s → IsUtf8 (quoted (json_escape s))
quoted-IsUtf8 s h =
    between-IsUtf8 (codes "\"") (json_escape s) (codes "\"") refl (json_escape-IsUtf8 s h)
      (all_ascii-IsUtf8 (codes "\"") refl)

braced-IsUtf8 : (ms : Bytes) → IsUtf8 ms → IsUtf8 (braced ms)
braced-IsUtf8 ms h =
    between-IsUtf8 (codes "{") ms (codes "}") refl h (all_ascii-IsUtf8 (codes "}") refl)

token_members-IsUtf8 :
    (id text : Bytes) (n : ℕ) → IsUtf8 id → IsUtf8 text → IsUtf8 (token_members id text n)
unfolding token_members
token_members-IsUtf8 id text n h k =
    between-IsUtf8 (codes "\"id\":") (quoted (json_escape id)) _ refl (quoted-IsUtf8 id h) (
      between-IsUtf8 (codes ",\"event\":\"token\",\"text\":") (quoted (json_escape text)) _ refl
        (quoted-IsUtf8 text k)
        (append-IsUtf8 (codes ",\"token_id\":") (to_string n) (all_ascii-IsUtf8 _ refl)
          (to_string-IsUtf8 n)))

eos_members-IsUtf8 :
    (id reason : Bytes) → IsUtf8 id → IsUtf8 reason → IsUtf8 (eos_members id reason)
unfolding eos_members
eos_members-IsUtf8 id reason h k =
    between-IsUtf8 (codes "\"id\":") (quoted (json_escape id)) _ refl (quoted-IsUtf8 id h) (
      append-IsUtf8 (codes ",\"event\":\"eos\",\"reason\":") (quoted (json_escape reason))
        (all_ascii-IsUtf8 _ refl) (quoted-IsUtf8 reason k))

error_members-IsUtf8 :
    (id code message : Bytes)
    → IsUtf8 id
    → IsUtf8 code
    → IsUtf8 message
    → IsUtf8 (error_members id code message)
unfolding error_members
error_members-IsUtf8 id code message h k l =
    between-IsUtf8 (codes "\"id\":") (quoted (json_escape id)) _ refl (quoted-IsUtf8 id h) (
      between-IsUtf8 (codes ",\"event\":\"error\",\"code\":") (quoted (json_escape code)) _ refl
        (quoted-IsUtf8 code k)
        (append-IsUtf8 (codes ",\"message\":") (quoted (json_escape message))
          (all_ascii-IsUtf8 _ refl) (quoted-IsUtf8 message l)))

-- Let the texts of the events be UTF-8. Whatever else they are, quotes, backslashes and control
-- characters included, each of the three events is a frame behind what was in the buffer, and the
-- payload of the frame is a JSON object of strings and numbers, in UTF-8.
pub events_well_formed :
    (tx id text reason code message : Bytes) (n : ℕ)
    → IsUtf8 id
    → IsUtf8 text
    → IsUtf8 reason
    → IsUtf8 code
    → IsUtf8 message
    → IsFramed tx (append_token_event tx id text n)
      × IsFramed tx (append_eos_event tx id reason)
      × IsFramed tx (append_error_event tx id code message)
events_well_formed tx id text reason code message n i t r c m = (
  (
    _,
    append_token_event-members tx id text n,
    object _ (token_members-IsMembers id text n),
    braced-IsUtf8 _ (token_members-IsUtf8 id text n i t),
  ),
  (
    _,
    append_eos_event-members tx id reason,
    object _ (eos_members-IsMembers id reason),
    braced-IsUtf8 _ (eos_members-IsUtf8 id reason i r),
  ),
  (
    _,
    append_error_event-members tx id code message,
    object _ (error_members-IsMembers id code message),
    braced-IsUtf8 _ (error_members-IsUtf8 id code message i c m),
  ),
)
