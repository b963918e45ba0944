-- ===== src/Ipc/Protocol/Escape.antt =====
-- `json_escape` without its accumulator, and what its output holds.
use uma_serve.Base.{
  ℕ, ◌≤◌, ◌<◌, ◌≡◌, ◌∙◌, [], ◌∷◌, ◌++◌, append_assoc, append-nil, arith, Bytes, All, All-append,
  IsBytes,
}
use uma_serve.Ipc.Protocol.{escape_byte, escape_onto, json_escape}

abbrev pub escaped : Bytes → Bytes
escaped [] = []
escaped (c ∷ cs) = escape_byte c ++ escaped cs

escape_onto-escaped : (s out : Bytes) → escape_onto out s ≡ out ++ escaped s
unfolding escape_onto
escape_onto-escaped [] out = rw append-nil
escape_onto-escaped (c ∷ cs) out =
    escape_onto-escaped cs (out ++ escape_byte c) ∙ append_assoc out (escape_byte c) (escaped cs)

pub json_escape-escaped : (s : Bytes) → json_escape s ≡ escaped s
unfolding json_escape
json_escape-escaped s = escape_onto-escaped s []

escape_byte-printable : (c : ℕ) → c < 256 → All (λ b. (0x20 ≤ b) × (b < 256)) (escape_byte c)
unfolding escape_byte
escape_byte-printable c h = ground arith

escaped-printable : (s : Bytes) → IsBytes s → All (λ b. (0x20 ≤ b) × (b < 256)) (escaped s)
escaped-printable [] h = tt
escaped-printable (c ∷ cs) h =
    All-append _ (escape_byte c) (escaped cs) (escape_byte-printable c h.0)
      (escaped-printable cs h.1)

-- Of a text of bytes, the escaped form has bytes only, and no control character.
pub json_escape-printable :
    (s : Bytes) → IsBytes s → All (λ b. (0x20 ≤ b) × (b < 256)) (json_escape s)
json_escape-printable s h = rw (json_escape-escaped s) (escaped-printable s h)
