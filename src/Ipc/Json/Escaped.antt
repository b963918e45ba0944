-- ===== src/Ipc/Json/Escaped.antt =====
-- What `extract_json_string` reads of a text that `json_escape` wrote.
use uma_serve.Base.{
  ℕ, zero, ◌≡◌, refl, ◌∙◌, false, [], ◌∷◌, ◌++◌, map, append_assoc, append-nil, arith, ltb, ◌||◌,
  ◌==◌, if◌then◌else◌, Bytes,
}
use uma_serve.Ipc.Protocol.{escape_byte, json_escape}
use uma_serve.Ipc.Protocol.Escape.{escaped, json_escape-escaped}
use uma_serve.Ipc.Json.{scan}

-- What the extraction makes of an escaped byte: a control character that has no short escape
-- comes back as a question mark.
abbrev pub read_back : ℕ → ℕ
read_back c = if c == b'\n' || c == b'\r' || c == b'\t' then c else if ltb c 0x20 then b'?' else c

scan-escape_byte :
    (c : ℕ) (out t : Bytes)
    → scan zero out (escape_byte c ++ t) ≡ scan zero (out ++ read_back c ∷ []) t
unfolding scan escape_byte
scan-escape_byte c out t = ground arith

scan-escaped :
    (s out t : Bytes) → scan zero out (escaped s ++ t) ≡ scan zero (out ++ map read_back s) t
scan-escaped [] out t = rw append-nil
scan-escaped (c ∷ cs) out t = rw (append_assoc (escape_byte c) (escaped cs) t) (
    scan-escape_byte c out (escaped cs ++ t)
    ∙ scan-escaped cs (out ++ read_back c ∷ []) t
    ∙ rw append_assoc)

-- Whatever bytes a text has, the extraction reads its escaped form up to the closing quote and
-- no further, accepts it, and gives each byte back, but for control characters without a short
-- escape, each of which it gives back as a question mark.
pub scan-json_escape :
    (s rest : Bytes)
    → scan zero [] (json_escape s ++ b'"' ∷ rest)
      ≡ record { out = map read_back s; invalid_escape = false }
scan-json_escape s rest =
    rw (json_escape-escaped s) (scan-escaped s [] (b'"' ∷ rest) ∙ unfold scan in refl)
