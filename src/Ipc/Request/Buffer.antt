-- ===== src/Ipc/Request/Buffer.antt =====
-- The handling of a request leaves the rest of the read buffer alone, and the descriptor.
use uma_serve.Base.{
  ℕ, ◌≡◌, refl, true, inl, inr, ◌||◌, List, [], ◌∷◌, ltb, Bytes, codes, length, Bool-cases,
}
use uma_serve.Ipc.Json.{extract_json_string}
use uma_serve.Ipc.Request.{
  Numbers, Handled, reject, admit_admin, prefer, is_admin, is_empty, accept_tokens, accept_prompt,
  handle_request,
}
use uma_serve.Runtime.Config.{RuntimeConfig}
use uma_serve.Runtime.Tokens.{Vocab, tokenize}

module _ {D : Type 0} where
  pub record Kept (h h' : Handled D) : Type 0 where
    pub rx : h'.session.rx ≡ h.session.rx
    pub fd : h'.session.fd ≡ h.session.fd

module _ {D : Type 0} (cfg : RuntimeConfig) (vocab : Vocab) (numbers : Numbers D) (now_ns : ℕ) where
  accept_tokens-Kept :
      (tokens : List ℕ) (h : Handled D) → Kept h (accept_tokens cfg now_ns tokens h)
  unfolding accept_tokens
  accept_tokens-Kept [] h = record { rx = refl; fd = refl }
  accept_tokens-Kept (t ∷ tokens) h = record { rx = refl; fd = refl }

  accept_prompt-Kept :
      (js req_id prompt : Bytes) (h : Handled D)
      → Kept h (accept_prompt cfg vocab numbers now_ns js req_id prompt h)
  accept_prompt-Kept js req_id prompt h =
      let h' = record h {
        session = prefer numbers js (record h.session { request_id = req_id });
      } in
      elim (Bool-cases (ltb cfg.max_prompt_bytes (length prompt))) [
        | inl large ↦
            unfold accept_prompt reject prefer in rw large (record { rx = refl; fd = refl })
        | inr fits ↦
            let k = accept_tokens-Kept (tokenize vocab prompt true true) h' in
            unfold accept_prompt prefer in rw fits (record { rx = k.rx; fd = k.fd })
      ]

  pub handle_request-Kept :
      (js : Bytes) (h : Handled D) → Kept h (handle_request cfg vocab numbers now_ns js h)
  handle_request-Kept js h =
      let id = extract_json_string js (codes "id") in
      let prompt = extract_json_string js (codes "prompt") in
      elim (Bool-cases (is_admin js)) [
        | inl asks ↦ unfold handle_request admit_admin in rw asks (record { rx = refl; fd = refl })
        | inr plain ↦ elim (Bool-cases (id.invalid_escape || prompt.invalid_escape)) [
          | inl bad ↦
              unfold handle_request reject in rw (plain, bad) (record { rx = refl; fd = refl })
          | inr good ↦ elim (Bool-cases (is_empty prompt.out)) [
            | inl none_given ↦
                unfold handle_request reject in
                rw (plain, good, none_given) (record { rx = refl; fd = refl })
            | inr given ↦
                unfold handle_request in
                rw (plain, good, given) (accept_prompt-Kept js id.out prompt.out h)
          ]
        ]
      ]
