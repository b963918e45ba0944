-- ===== src/Ipc/Request/Outcome.antt =====
-- What one framed request does to its session: every way that the handling can end.
use uma_serve.Base.{
  ℕ, ◌+◌, ◌<◌, ◌≡◌, refl, ◌⊎◌, inl, inr, true, false, ◌||◌, List, [], ◌∷◌, none, some, arith, ltb,
  Bytes, codes, length, Bool-cases,
}
use uma_serve.Ipc.Json.{extract_json_string}
use uma_serve.Ipc.Protocol.{append_error_event, append_eos_event}
use uma_serve.Ipc.Request.{
  Numbers, Handled, write_and_stop, reject, admit_admin, is_admin, prefer, accept_tokens,
  accept_prompt, handle_request, is_empty,
}
use uma_serve.Ipc.Session.{SessionState}
use uma_serve.Runtime.Config.{RuntimeConfig}
use uma_serve.Runtime.Tokens.{Vocab, tokenize}

module _ {D : Type 0} where
  -- An error event went out, and the connection is to be closed once it is written.
  pub record Refused (h h' : Handled D) : Type 0 where
    pub id : Bytes
    pub code : Bytes
    pub text : Bytes
    pub tx : h'.session.tx ≡ append_error_event h.session.tx id code text
    pub state : h'.session.state ≡ SessionState.stream
    pub read_closed : h'.session.read_closed ≡ true
    pub result : h'.result ≡ write_and_stop h.result
    pub seq : h'.session.seq ≡ h.session.seq
    pub next_seq_id : h'.next_seq_id ≡ h.next_seq_id

  -- A request for the metrics: the connection is to be closed after the answer.
  pub record Admin (h h' : Handled D) : Type 0 where
    pub asked : h'.result.admin_request ≡ true
    pub result : h'.result ≡ record (write_and_stop h.result) { admin_request = true }
    pub tx : h'.session.tx ≡ h.session.tx
    pub state : h'.session.state ≡ SessionState.stream
    pub read_closed : h'.session.read_closed ≡ true
    pub seq : h'.session.seq ≡ h.session.seq
    pub next_seq_id : h'.next_seq_id ≡ h.next_seq_id

  -- The prompt had no token: an eos event, and the connection stays as open as it was.
  pub record Ended (h h' : Handled D) : Type 0 where
    pub id : Bytes
    pub wants_write : h'.result.wants_write ≡ true
    pub result : h'.result ≡ record h.result { wants_write = true }
    pub tx : h'.session.tx ≡ append_eos_event h.session.tx id (codes "stop")
    pub state : h'.session.state ≡ SessionState.stream
    pub read_closed : h'.session.read_closed ≡ h.session.read_closed
    pub seq : h'.session.seq ≡ h.session.seq
    pub next_seq_id : h'.next_seq_id ≡ h.next_seq_id

  -- The session starts at the first token of a prompt that is not empty, with a sequence: its own,
  -- or the next one of the counter.
  pub record Started (h h' : Handled D) : Type 0 where
    pub state : h'.session.state ≡ SessionState.prefill
    pub prompt : 0 < length h'.session.prompt_tokens
    pub prefill_idx : h'.session.prefill_idx ≡ 0
    pub generated_count : h'.session.generated_count ≡ 0
    pub has_pending_tok : h'.session.has_pending_tok ≡ false
    pub n_past : h'.session.n_past ≡ 0
    pub first_emit_ns : h'.session.first_emit_ns ≡ 0
    pub tx : h'.session.tx ≡ h.session.tx
    pub result : h'.result ≡ h.result
    pub seq :
        ((h.session.seq ≡ none)
          × (h'.session.seq ≡ some h.next_seq_id)
          × (h'.next_seq_id ≡ h.next_seq_id + 1))
        ⊎ ((h'.session.seq ≡ h.session.seq) × (h'.next_seq_id ≡ h.next_seq_id))

  pub data Outcome (h h' : Handled D) : Type 0 where
    refused : Refused h h' → Outcome h h'
    admin : Admin h h' → Outcome h h'
    ended : Ended h h' → Outcome h h'
    started : Started h h' → Outcome h h'

  pub reject-Refused : (id code text : Bytes) (h : Handled D) → Refused h (reject id code text h)
  unfolding reject
  reject-Refused id code text h = record {
    id = id;
    code = code;
    text = text;
    tx = refl;
    state = refl;
    read_closed = refl;
    result = refl;
    seq = refl;
    next_seq_id = refl;
  }

  pub admit_admin-Admin : (h : Handled D) → Admin h (admit_admin h)
  unfolding admit_admin
  admit_admin-Admin h = record {
    asked = refl;
    result = refl;
    tx = refl;
    state = refl;
    read_closed = refl;
    seq = refl;
    next_seq_id = refl;
  }

  -- The handling of a prompt changes nothing of the session before but its id and preferences.
  module _ (cfg : RuntimeConfig) (vocab : Vocab) (numbers : Numbers D) (now_ns : ℕ) where
    accept_tokens-Outcome :
        (tokens : List ℕ) (h : Handled D) → Outcome h (accept_tokens cfg now_ns tokens h)
    unfolding accept_tokens
    accept_tokens-Outcome [] h = ended (record {
      id = h.session.request_id;
      wants_write = refl;
      result = refl;
      tx = refl;
      state = refl;
      read_closed = refl;
      seq = refl;
      next_seq_id = refl;
    })
    accept_tokens-Outcome (t ∷ tokens) h = started (record {
      state = refl;
      prompt = omega arith;
      prefill_idx = refl;
      generated_count = refl;
      has_pending_tok = refl;
      n_past = refl;
      first_emit_ns = refl;
      tx = refl;
      result = refl;
      seq = ground arith;
    })

    -- The request's id and preferences are written before; no outcome is about them.
    Outcome-prefer :
        (js req_id : Bytes) (h h' : Handled D)
        → Outcome
            (record h { session = prefer numbers js (record h.session { request_id = req_id }) })
            h'
        → Outcome h h'
    unfolding prefer
    Outcome-prefer js req_id h h' (refused r) = refused (record {
      id = r.id;
      code = r.code;
      text = r.text;
      tx = r.tx;
      state = r.state;
      read_closed = r.read_closed;
      result = r.result;
      seq = r.seq;
      next_seq_id = r.next_seq_id;
    })
    Outcome-prefer js req_id h h' (admin a) = admin (record {
      asked = a.asked;
      result = a.result;
      tx = a.tx;
      state = a.state;
      read_closed = a.read_closed;
      seq = a.seq;
      next_seq_id = a.next_seq_id;
    })
    Outcome-prefer js req_id h h' (ended e) = ended (record {
      id = e.id;
      wants_write = e.wants_write;
      result = e.result;
      tx = e.tx;
      state = e.state;
      read_closed = e.read_closed;
      seq = e.seq;
      next_seq_id = e.next_seq_id;
    })
    Outcome-prefer js req_id h h' (started s) = started (record {
      state = s.state;
      prompt = s.prompt;
      prefill_idx = s.prefill_idx;
      generated_count = s.generated_count;
      has_pending_tok = s.has_pending_tok;
      n_past = s.n_past;
      first_emit_ns = s.first_emit_ns;
      tx = s.tx;
      result = s.result;
      seq = s.seq;
    })

    accept_prompt-Outcome :
        (js req_id prompt : Bytes) (h : Handled D)
        → Outcome h (accept_prompt cfg vocab numbers now_ns js req_id prompt h)
    accept_prompt-Outcome js req_id prompt h =
        let h' = record h {
          session = prefer numbers js (record h.session { request_id = req_id });
        } in
        elim (Bool-cases (ltb cfg.max_prompt_bytes (length prompt))) [
          | inl large ↦
              unfold accept_prompt in
              rw large (
                Outcome-prefer js req_id h _ (
                  refused
                    (reject-Refused req_id (codes "E_LIMIT_001") (codes "prompt too large") h')))
          | inr fits ↦
              unfold accept_prompt in
              rw fits (
                Outcome-prefer js req_id h _
                  (accept_tokens-Outcome (tokenize vocab prompt true true) h'))
        ]

    -- A framed request, whatever its bytes, has one of four outcomes: it is refused with an error
    -- event, it asks for the metrics, its response ends at once, or its session starts anew with
    -- the first of its prompt's tokens.
    pub handle_request-Outcome :
        (js : Bytes) (h : Handled D) → Outcome h (handle_request cfg vocab numbers now_ns js h)
    unfolding handle_request
    handle_request-Outcome js h =
        let id = extract_json_string js (codes "id") in
        let prompt = extract_json_string js (codes "prompt") in
        elim (Bool-cases (is_admin js)) [
          | inl asks ↦ rw asks (admin (admit_admin-Admin h))
          | inr plain ↦ elim (Bool-cases (id.invalid_escape || prompt.invalid_escape)) [
            | inl bad ↦ rw (plain, bad) (refused (reject-Refused _ _ _ h))
            | inr good ↦ elim (Bool-cases (is_empty prompt.out)) [
              | inl none_given ↦ rw (plain, good, none_given) (refused (reject-Refused _ _ _ h))
              | inr given ↦ rw (plain, good, given) (accept_prompt-Outcome js id.out prompt.out h)
            ]
          ]
        ]
