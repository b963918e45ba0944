-- ===== src/Ipc/Request/Tests.antt =====
-- The theorems on requests, at a request with a prompt of two bytes.
use uma_serve.Base.{
  bytes_eq, ℕ, ◌≤◌, ◌≡◌, refl, true, false, [], ◌∷◌, none, some, ◌==◌, Bytes, codes, length,
}
use uma_serve.Ipc.Json.{extract_json_string}
use uma_serve.Ipc.Manager.{new_session}
use uma_serve.Ipc.Request.{Numbers, Handled, nothing_to_do, is_admin, is_empty, handle_request}
use uma_serve.Ipc.Request.Accepted.{handle_request-prefill, handle_request-state}
use uma_serve.Ipc.Request.Verdict.{Verdict}
use uma_serve.Ipc.Session.{SessionState}
use uma_serve.Runtime.Config.{default_config}
use uma_serve.Runtime.Tokens.{Vocab, tokenize}

-- Each byte is a token.
abbrev vocab : Vocab
vocab = record {
  llama_tokenize = λ text _ _. some text;
  llama_token_to_piece = λ t _ _. some (t ∷ []);
  llama_vocab_is_eog = λ t. t == 0;
  llama_vocab_n_tokens = 256;
}

abbrev numbers : Numbers ℕ
numbers = record {
  strtod = λ text. none;
  to_int32 = λ d. d;
  default_temperature = 0;
  default_top_p = 1;
}

abbrev handled : Handled ℕ
handled = record { session = new_session numbers 3 1; result = nothing_to_do; next_seq_id = 1 }

abbrev request : Bytes
request = codes "{\"id\":\"r1\",\"prompt\":\"hi\"}"

abbrev answered : Handled ℕ
answered = handle_request default_config vocab numbers 5 request handled

-- No JSON, and no id.
abbrev bare_request : Bytes
bare_request = codes "xx\"prompt\":\"hi"

abbrev bare_answered : Handled ℕ
bare_answered = handle_request default_config vocab numbers 5 bare_request handled

bare_request-prefill : bare_answered.session.state ≡ SessionState.prefill
unfolding handle_request extract_json_string bytes_eq
bare_request-prefill = refl

handle_request-prefill_example :
    (is_admin bare_request ≡ false)
    × ((extract_json_string bare_request (codes "id")).invalid_escape ≡ false)
    × ((extract_json_string bare_request (codes "prompt")).invalid_escape ≡ false)
    × (is_empty (extract_json_string bare_request (codes "prompt")).out ≡ false)
    × (length (extract_json_string bare_request (codes "prompt")).out ≤ 8192)
    × (bare_answered.session.prompt_tokens
        ≡ tokenize vocab (extract_json_string bare_request (codes "prompt")).out true true)
handle_request-prefill_example =
    handle_request-prefill default_config vocab numbers 5 bare_request handled bare_request-prefill

-- The same request, while the session decodes.
handle_request-state_example :
    handle_request default_config vocab numbers 5 request
      (record handled { session = record handled.session { state = SessionState.decode } })
    ≡ answered
handle_request-state_example =
    handle_request-state default_config vocab numbers 5 request handled SessionState.decode
