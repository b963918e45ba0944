-- ===== src/Cli/Events.antt =====
-- cli/main.cpp: the events of the daemon, as the client receives and prints them. What `read` gives
-- is a list; a position in a text is the suffix that begins there.
pub mod Texts
pub mod Stream
pub mod Response
pub mod Onto
pub mod Spoken
use uma_serve.Base.{
  bytes_eq, ℕ, zero, suc, ◌+◌, ◌-◌, ◌*◌, ◌%◌, ◌^◌, Bool, true, false, not, ◌&&◌, ◌||◌, List, [],
  ◌∷◌, ◌++◌, Option, none, some, Bytes, codes, length, ltb, leb, ◌==◌, if◌then◌else◌,
}
use uma_serve.Ipc.Json.{find_bytes, find_byte}
use uma_serve.Ipc.Protocol.{read_u32_le}
use uma_serve.Ipc.Request.{is_empty}

-- The byte that a backslash and the given one stand for.
unescape : ℕ → ℕ
unescape e =
    if e == b'n' then b'\n' else if e == b'r' then b'\r' else if e == b't' then b'\t' else e

-- The loop over the text, up to the closing quote; `true` behind a backslash.
unfoldable pub unquote : Bool → Bytes → Bytes → Bytes
unfolding unescape
unquote escaped out [] = out
unquote true out (e ∷ r) = unquote false (out ++ unescape e ∷ []) r
unquote false out (c ∷ r) =
    let behind = unquote true out r in
    let rest = unquote false (out ++ c ∷ []) r in
    if c == b'\\' then behind else if c == b'"' then out else rest

unquote_found : Option Bytes → Bytes
unquote_found (some (q ∷ r)) = unquote false [] r
unquote_found _ = []

quote_after : Option Bytes → Bytes
quote_after (some s) = unquote_found (find_byte b'"' s)
quote_after none = []

colon_after : Option Bytes → Bytes
colon_after (some s) = quote_after (find_byte b':' s)
colon_after none = []

unfoldable pub json_get_string : Bytes → Bytes → Bytes
unfolding find_bytes find_byte unquote unquote_found quote_after colon_after
json_get_string j key = colon_after (find_bytes (b'"' ∷ (key ++ b'"' ∷ [])) j)

-- Output to `std::cout` or `std::cerr`, or by `perror`, which adds what `errno` stands for.
pub data Print : Type 0 where
  out err perror : Bytes → Print

-- What is printed, and the exit code, if the client ends.
pub record Received : Type 0 where
  pub prints : List Print
  pub exit_code : Option ℕ

abbrev pub line : Bytes → Bytes
line s = s ++ b'\n' ∷ []

-- What one event makes the client do.
unfoldable pub after_event : Bool → Bytes → Received
unfolding json_get_string
after_event metrics js =
    let event = json_get_string js (codes "event") in
    let text = json_get_string js (codes "text") in
    let msg = json_get_string js (codes "message") in
    if metrics
    then record { prints = out (line js) ∷ []; exit_code = some 0 }
    else if bytes_eq event (codes "token")
    then record { prints = if is_empty text then [] else out text ∷ []; exit_code = none }
    else if bytes_eq event (codes "eos")
    then record { prints = out (line []) ∷ []; exit_code = some 0 }
    else if bytes_eq event (codes "error")
    then record { prints = err (line (if is_empty msg then js else msg)) ∷ []; exit_code = some 2 }
    else if bytes_eq event (codes "metrics")
    then record { prints = out (line js) ∷ []; exit_code = some 0 }
    else record { prints = out (line js) ∷ []; exit_code = none }

-- A call of `read`, which gives at least one byte and no more than is asked for; the end of the
-- stream leaves `errno` as it was, `true` for `EINTR`.
pub data Read : Type 0 where
  got : Bytes → Read
  eof : Bool → Read
  interrupted failed : Read

-- Before a header, or with so many bytes of a payload to come behind those that are there.
pub data Phase : Type 0 where
  at_header : Phase
  in_payload : ℕ → Bytes → Phase

-- What a call of `read` leads to: the client waits for more in some phase, has a whole payload, or
-- ends with a message and an exit code.
pub data Progress : Type 0 where
  waits : Phase → Progress
  whole : Bytes → Progress
  ends : List Print → ℕ → Progress

-- `while (off < len)`.
unfoldable pub payload_progress : ℕ → Bytes → Progress
payload_progress len js = if ltb (length js) len then waits (in_payload len js) else whole js

header_progress : Bytes → Progress
unfolding payload_progress
header_progress (b0 ∷ b1 ∷ b2 ∷ b3 ∷ []) = payload_progress (read_u32_le b0 b1 b2 b3) []
header_progress _ = ends (err (line (codes "short header read")) ∷ []) 0

unfoldable pub progress : Phase → Read → Progress
unfolding header_progress payload_progress
progress at_header (got bytes) = header_progress bytes
progress at_header (eof stale) = ends [] 0
progress at_header interrupted = waits at_header
progress at_header failed = ends (perror (codes "read") ∷ []) 3
progress (in_payload len js) (got bytes) = payload_progress len (js ++ bytes)
progress (in_payload len js) (eof true) = waits (in_payload len js)
progress (in_payload len js) (eof false) = ends (err (line (codes "short payload read")) ∷ []) 0
progress (in_payload len js) interrupted = waits (in_payload len js)
progress (in_payload len js) failed = ends (err (line (codes "short payload read")) ∷ []) 0

-- Prints come before those of what is received later.
abbrev pub before : List Print → Received → Received
before prints r = record r { prints = prints ++ r.prints }

-- The loop `while (true)`, over the calls of `read`; without an exit code it waits for more.
unfoldable pub receive : Bool → Phase → List Read → Received
unfolding progress after_event
receive metrics phase [] = record { prints = []; exit_code = none }
receive metrics phase (r ∷ reads) =
    let next = λ (p : Phase). receive metrics p reads in
    elim (progress phase r) [
      | waits p ↦ next p
      | ends prints code ↦ record { prints = prints; exit_code = some code }
      | whole js ↦
          let a = after_event metrics js in
          elim a.exit_code [ some code ↦ a | none ↦ before a.prints (next at_header) ]
    ]
