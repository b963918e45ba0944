-- ===== src/Cli/Events/Stream.antt =====
-- What the client does with the events of a response.
use uma_serve.Base.{
  ℕ, ◌≡◌, refl, ap, false, List, [], ◌∷◌, ◌++◌, some, none, append_assoc, arith, Bytes, bytes_eq,
  codes, if◌then◌else◌,
}
use uma_serve.Cli.Events.{Print, out, err, line, after_event}
use uma_serve.Cli.Events.Texts.{
  all_back, event, json_get_string-event, json_get_string-text, json_get_string-message,
}
use uma_serve.Ipc.Json.Keys.{names}
use uma_serve.Ipc.Protocol.{
  json_escape, to_string, write_frame, append_token_event, append_eos_event, append_error_event,
}
use uma_serve.Ipc.Request.{is_empty}

-- The payloads of the three events.
abbrev pub token_payload : Bytes → Bytes → ℕ → Bytes
token_payload id text token_id = event id (
    codes ",\"event\":\"token\",\"text\":\""
    ++ (json_escape text ++ (codes "\",\"token_id\":" ++ (to_string token_id ++ codes "}"))))

abbrev pub eos_payload : Bytes → Bytes → Bytes
eos_payload id reason =
    event id (codes ",\"event\":\"eos\",\"reason\":\"" ++ (json_escape reason ++ codes "\"}"))

abbrev pub error_payload : Bytes → Bytes → Bytes → Bytes
error_payload id code message = event id (
    codes ",\"event\":\"error\",\"code\":\""
    ++ (json_escape code ++ (codes "\",\"message\":\"" ++ (json_escape message ++ codes "\"}"))))

pub append_token_event-payload :
    (tx id text : Bytes) (n : ℕ)
    → append_token_event tx id text n ≡ write_frame tx (token_payload id text n)
unfolding append_token_event event
append_token_event-payload tx id text n = ap (write_frame tx) (simp (append_assoc))

pub append_eos_event-payload :
    (tx id reason : Bytes) → append_eos_event tx id reason ≡ write_frame tx (eos_payload id reason)
unfolding append_eos_event event
append_eos_event-payload tx id reason = ap (write_frame tx) (simp (append_assoc))

pub append_error_event-payload :
    (tx id code message : Bytes)
    → append_error_event tx id code message ≡ write_frame tx (error_payload id code message)
unfolding append_error_event event
append_error_event-payload tx id code message = ap (write_frame tx) (simp (append_assoc))

-- A token is printed, unless its text is empty.
abbrev pub token_print : Bytes → List Print
token_print text = if is_empty (all_back text) then [] else out (all_back text) ∷ []

pub after_event-token :
    (id text : Bytes) (n : ℕ)
    → names (codes "text") id ≡ false
    → after_event false (token_payload id text n)
      ≡ record { prints = token_print text; exit_code = none }
unfolding after_event bytes_eq
after_event-token id text n h =
    let kind =
      json_get_string-event id (codes "token")
        (codes ",\"text\":\""
          ++ (json_escape text ++ (codes "\",\"token_id\":" ++ (to_string n ++ codes "}"))))
        (ground arith) in
    let read =
      json_get_string-text id text (codes ",\"token_id\":" ++ (to_string n ++ codes "}")) h in
    rw (after_event, kind, read) refl

pub after_event-eos :
    (id reason : Bytes)
    → after_event false (eos_payload id reason)
      ≡ record { prints = out (line []) ∷ []; exit_code = some 0 }
unfolding after_event bytes_eq
after_event-eos id reason =
    let kind =
      json_get_string-event id (codes "eos")
        (codes ",\"reason\":\"" ++ (json_escape reason ++ codes "\"}")) (ground arith) in
    rw (after_event, kind) refl

pub after_event-error :
    (id code message : Bytes)
    → names (codes "message") id ≡ false
    → after_event false (error_payload id code message) ≡ record {
      prints =
          err (
            line (
              if is_empty (all_back message)
              then error_payload id code message
              else all_back message))
          ∷ [];
      exit_code = some 2;
    }
unfolding after_event bytes_eq
after_event-error id code message h =
    let kind =
      json_get_string-event id (codes "error")
        (codes ",\"code\":\""
          ++ (json_escape code
              ++ (codes "\",\"message\":\"" ++ (json_escape message ++ codes "\"}"))))
        (ground arith) in
    rw (after_event, kind, json_get_string-message id code message h) refl
