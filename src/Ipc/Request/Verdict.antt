-- ===== src/Ipc/Request/Verdict.antt =====
-- What becomes of a framed request, on every branch, with the condition of the branch.
use uma_serve.Base.{
  ℕ, ◌+◌, ◌≤◌, ◌<◌, ◌≡◌, ◌≢◌, ◌⊎◌, true, false, ◌||◌, List, [], none, some, Bytes, codes, length,
}
use uma_serve.Ipc.Json.{Extracted, extract_json_string}
use uma_serve.Ipc.Request.{Numbers, Handled, is_admin, prefer}
use uma_serve.Ipc.Request.Outcome.{Refused, Admin, Ended, Started}
use uma_serve.Runtime.Config.{RuntimeConfig}
use uma_serve.Runtime.Tokens.{Vocab, tokenize}

module _ {D : Type 0} where
  -- A refusal with the given id, code and text in its error event.
  abbrev pub Refuses : Bytes → Bytes → Bytes → Handled D → Handled D → Type 0
  Refuses id code text h h' = (r : Refused h h') × (r.id ≡ id) × (r.code ≡ code) × (r.text ≡ text)

  -- The next sequence of the counter for a session without one, its own for another.
  abbrev pub IsAssigned : Handled D → Handled D → Type 0
  IsAssigned h h' =
      ((h.session.seq ≡ none)
        × (h'.session.seq ≡ some h.next_seq_id)
        × (h'.next_seq_id ≡ h.next_seq_id + 1))
      ⊎ ((h.session.seq ≢ none)
          × (h'.session.seq ≡ h.session.seq)
          × (h'.next_seq_id ≡ h.next_seq_id))

  -- A start with the given tokens, for the given id.
  abbrev pub Starts : Bytes → List ℕ → Handled D → Handled D → Type 0
  Starts id tokens h h' =
      Started h h'
      × (h'.session.prompt_tokens ≡ tokens)
      × (h'.session.request_id ≡ id)
      × IsAssigned h h'

module _ (js : Bytes) where
  abbrev id_of : Extracted
  id_of = extract_json_string js (codes "id")

  abbrev prompt_of : Extracted
  prompt_of = extract_json_string js (codes "prompt")

  -- A request for a completion whose strings have no invalid escape.
  abbrev pub IsRead : Type 0
  IsRead =
      (is_admin js ≡ false) × (id_of.invalid_escape ≡ false) × (prompt_of.invalid_escape ≡ false)

module _ {D : Type 0} (cfg : RuntimeConfig) (vocab : Vocab) (js : Bytes) where
  pub data Verdict (h h' : Handled D) : Type 0 where
    asks_metrics : is_admin js ≡ true → Admin h h' → Verdict h h'
    bad_escape :
        is_admin js ≡ false
        → ((id_of js).invalid_escape || (prompt_of js).invalid_escape) ≡ true
        → Refuses (id_of js).out (codes "E_PROTO_001") (codes "invalid utf-8") h h'
        → Verdict h h'
    no_prompt :
        IsRead js
        → (prompt_of js).out ≡ []
        → Refuses
            (id_of js).out
            (codes "E_PROTO_BAD_REQUEST")
            (codes "missing or invalid prompt")
            h
            h'
        → Verdict h h'
    large_prompt :
        IsRead js
        → cfg.max_prompt_bytes < length (prompt_of js).out
        → Refuses (id_of js).out (codes "E_LIMIT_001") (codes "prompt too large") h h'
        → Verdict h h'
    empty_response :
        IsRead js
        → (prompt_of js).out ≢ []
        → length (prompt_of js).out ≤ cfg.max_prompt_bytes
        → tokenize vocab (prompt_of js).out true true ≡ []
        → (e : Ended h h') × (e.id ≡ (id_of js).out)
        → Verdict h h'
    starts :
        IsRead js
        → (prompt_of js).out ≢ []
        → length (prompt_of js).out ≤ cfg.max_prompt_bytes
        → Starts (id_of js).out (tokenize vocab (prompt_of js).out true true) h h'
        → Verdict h h'

  module _ (numbers : Numbers D) (now_ns : ℕ) where
    -- The session with the request's id and preferences.
    abbrev preferred : Handled D → Handled D
    preferred h = record h {
      session = prefer numbers js (record h.session { request_id = (id_of js).out });
    }
