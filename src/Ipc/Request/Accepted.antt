-- ===== src/Ipc/Request/Accepted.antt =====
-- When a request starts a prompt, with what tokens, and in which states of its session.
use uma_serve.Base.{
  ℕ, ◌≤◌, ◌≡◌, refl, sym, ap, ◌∙◌, ◌⊎◌, inl, inr, true, false, ◌||◌, List, [], ◌∷◌, arith, ltb,
  Bytes, codes, length, Bool-cases, not-ltb→le,
}
use uma_serve.Ipc.Json.{extract_json_string}
use uma_serve.Ipc.Request.{
  Numbers, Handled, reject, is_admin, prefer, accept_tokens, accept_prompt, handle_request,
  is_empty,
}
use uma_serve.Ipc.Session.{SessionState}
use uma_serve.Runtime.Config.{RuntimeConfig}
use uma_serve.Runtime.Tokens.{Vocab, tokenize}

module _ {D : Type 0} (cfg : RuntimeConfig) (vocab : Vocab) (numbers : Numbers D) (now_ns : ℕ) where
  abbrev state_after : Handled D → SessionState
  state_after h = h.session.state

  accept_tokens-prefill :
      (tokens : List ℕ) (h : Handled D)
      → state_after (accept_tokens cfg now_ns tokens h) ≡ SessionState.prefill
      → (accept_tokens cfg now_ns tokens h).session.prompt_tokens ≡ tokens
  unfolding accept_tokens
  accept_tokens-prefill [] h e = cc
  accept_tokens-prefill (t ∷ tokens) h e = refl

  -- The session as `accept_prompt` first leaves it.
  abbrev preferred : Bytes → Bytes → Handled D → Handled D
  preferred js req_id h = record h {
    session = prefer numbers js (record h.session { request_id = req_id });
  }

  accept_prompt_cases :
      (js req_id prompt : Bytes) (h : Handled D)
      → (accept_prompt cfg vocab numbers now_ns js req_id prompt h
          ≡ reject req_id (codes "E_LIMIT_001") (codes "prompt too large") (preferred js req_id h))
        ⊎ ((length prompt ≤ cfg.max_prompt_bytes)
            × (accept_prompt cfg vocab numbers now_ns js req_id prompt h
                ≡ accept_tokens cfg now_ns
                    (tokenize vocab prompt true true)
                    (preferred js req_id h)))
  accept_prompt_cases js req_id prompt h =
      elim (Bool-cases (ltb cfg.max_prompt_bytes (length prompt))) [
        | inl large ↦ inl (unfold accept_prompt in rw large)
        | inr fits ↦ inr (not-ltb→le _ _ fits, unfold accept_prompt in rw fits)
      ]

  reject-state :
      (id code text : Bytes) (h : Handled D)
      → state_after (reject id code text h) ≡ SessionState.stream
  unfolding reject
  reject-state id code text h = refl

  accept_prompt-prefill :
      (js req_id prompt : Bytes) (h : Handled D)
      → state_after (accept_prompt cfg vocab numbers now_ns js req_id prompt h)
        ≡ SessionState.prefill
      → (length prompt ≤ cfg.max_prompt_bytes)
        × ((accept_prompt cfg vocab numbers now_ns js req_id prompt h).session.prompt_tokens
            ≡ tokenize vocab prompt true true)
  accept_prompt-prefill js req_id prompt h e = elim (accept_prompt_cases js req_id prompt h) [
    | inl r ↦ absurd (
        cc (
          reject-state req_id (codes "E_LIMIT_001") (codes "prompt too large")
              (preferred js req_id h),
          ap state_after r,
        ))
    | inr (fits, a) ↦
        let tokens = tokenize vocab prompt true true in
        (
          fits,
          rw a (accept_tokens-prefill tokens (preferred js req_id h) (ap state_after (sym a) ∙ e)),
        )
  ]

  -- The request's way: it is turned away before its prompt is looked at, or the prompt is accepted.
  handle_request_cases :
      (js : Bytes) (h : Handled D)
      → let id = extract_json_string js (codes "id") in
        let prompt = extract_json_string js (codes "prompt") in
        (state_after (handle_request cfg vocab numbers now_ns js h) ≡ SessionState.stream)
        ⊎ ((is_admin js ≡ false)
            × (id.invalid_escape ≡ false)
            × (prompt.invalid_escape ≡ false)
            × (is_empty prompt.out ≡ false)
            × (handle_request cfg vocab numbers now_ns js h
                ≡ accept_prompt cfg vocab numbers now_ns js id.out prompt.out h))
  handle_request_cases js h =
      let id = extract_json_string js (codes "id") in
      let prompt = extract_json_string js (codes "prompt") in
      elim (Bool-cases (is_admin js)) [
        | inl asks ↦ inl (unfold handle_request in rw asks)
        | inr plain ↦ elim (Bool-cases (id.invalid_escape || prompt.invalid_escape)) [
          | inl bad ↦ inl (unfold handle_request in rw (plain, bad))
          | inr good ↦ elim (Bool-cases (is_empty prompt.out)) [
            | inl none_given ↦ inl (unfold handle_request in rw (plain, good, none_given))
            | inr given ↦ inr (
              plain,
              ground (arith, good),
              ground (arith, good),
              given,
              unfold handle_request in rw (plain, good, given),
            )
          ]
        ]
      ]

  -- A request that brings its session to PREFILL is no request for the metrics, what the searches
  -- for the keys `id` and `prompt` collect has no invalid escape, and the prompt so collected is not
  -- empty and within the configured size; the session's prompt is then what the vocabulary makes of
  -- it. That the request is JSON, or has an id, is not asked.
  pub handle_request-prefill :
      (js : Bytes) (h : Handled D)
      → (handle_request cfg vocab numbers now_ns js h).session.state ≡ SessionState.prefill
      → let id = extract_json_string js (codes "id") in
        let prompt = extract_json_string js (codes "prompt") in
        (is_admin js ≡ false)
        × (id.invalid_escape ≡ false)
        × (prompt.invalid_escape ≡ false)
        × (is_empty prompt.out ≡ false)
        × (length prompt.out ≤ cfg.max_prompt_bytes)
        × ((handle_request cfg vocab numbers now_ns js h).session.prompt_tokens
            ≡ tokenize vocab prompt.out true true)
  handle_request-prefill js h e = elim (handle_request_cases js h) [
    | inl stopped ↦ absurd (cc)
    | inr (plain, good_id, good_prompt, given, accepted) ↦
        let id = extract_json_string js (codes "id") in
        let prompt = extract_json_string js (codes "prompt") in
        let (fits, tokens) =
          accept_prompt-prefill js id.out prompt.out h (ap state_after (sym accepted) ∙ e) in
        (plain, good_id, good_prompt, given, fits, rw accepted tokens)
  ]

  abbrev in_state : SessionState → Handled D → Handled D
  in_state state h = record h { session = record h.session { state = state } }

  accept_tokens-state :
      (tokens : List ℕ) (h : Handled D) (state : SessionState)
      → accept_tokens cfg now_ns tokens (in_state state h) ≡ accept_tokens cfg now_ns tokens h
  unfolding accept_tokens
  accept_tokens-state [] h state = refl
  accept_tokens-state (t ∷ tokens) h state = refl

  accept_prompt-state :
      (js req_id prompt : Bytes) (h : Handled D) (state : SessionState)
      → accept_prompt cfg vocab numbers now_ns js req_id prompt (in_state state h)
        ≡ accept_prompt cfg vocab numbers now_ns js req_id prompt h
  accept_prompt-state js req_id prompt h state =
      elim (Bool-cases (ltb cfg.max_prompt_bytes (length prompt))) [
        | inl large ↦ unfold accept_prompt in rw large
        | inr fits ↦
            unfold accept_prompt in
            rw fits
              (accept_tokens-state (tokenize vocab prompt true true) (preferred js req_id h) state)
      ]

  -- The state of the session makes no difference to the handling of a request: one that comes
  -- while the session is still in PREFILL or DECODE is handled as one that comes when it waits.
  pub handle_request-state :
      (js : Bytes) (h : Handled D) (state : SessionState)
      → handle_request cfg vocab numbers now_ns js
          (record h { session = record h.session { state = state } })
        ≡ handle_request cfg vocab numbers now_ns js h
  handle_request-state js h state =
      let id = extract_json_string js (codes "id") in
      let prompt = extract_json_string js (codes "prompt") in
      elim (Bool-cases (is_admin js)) [
        | inl asks ↦ unfold handle_request in rw asks
        | inr plain ↦ elim (Bool-cases (id.invalid_escape || prompt.invalid_escape)) [
          | inl bad ↦ unfold handle_request in rw (plain, bad)
          | inr good ↦ elim (Bool-cases (is_empty prompt.out)) [
            | inl none_given ↦ unfold handle_request in rw (plain, good, none_given)
            | inr given ↦
                unfold handle_request in
                rw (plain, good, given) (accept_prompt-state js id.out prompt.out h state)
          ]
        ]
      ]
