-- ===== src/Cli/Events/Onto.antt =====
-- The events of a response behind output that is there: token by token, and behind what was sent.
use uma_serve.Base.{
  ℕ, ◌≡◌, refl, sym, ap, ◌∙◌, List, [], ◌∷◌, ◌++◌, append_assoc, inl, inr, Bool-cases, Bytes,
  if◌then◌else◌,
}
use uma_serve.Cli.Events.Response.{Tokens, written}
use uma_serve.Cli.Events.Stream.{
  append_token_event-payload, append_eos_event-payload, token_payload, eos_payload,
}
use uma_serve.Ipc.Protocol.{write_frame, append_token_event, append_eos_event}
use uma_serve.Sched.Backend.{Backend}
use uma_serve.Sched.Results.{is_empty}
use uma_serve.Sched.Results.Spoken.{piece_of, spoken_onto}

write_frame-append :
    (front tx js : Bytes) → write_frame (front ++ tx) js ≡ front ++ write_frame tx js
unfolding write_frame
write_frame-append front tx js = simp (append_assoc)

pub append_token_event-append :
    (front tx id text : Bytes) (n : ℕ)
    → append_token_event (front ++ tx) id text n ≡ front ++ append_token_event tx id text n
append_token_event-append front tx id text n =
    append_token_event-payload (front ++ tx) id text n
    ∙ write_frame-append front tx (token_payload id text n)
    ∙ ap (λ x. front ++ x) (sym (append_token_event-payload tx id text n))

pub append_eos_event-append :
    (front tx id reason : Bytes)
    → append_eos_event (front ++ tx) id reason ≡ front ++ append_eos_event tx id reason
append_eos_event-append front tx id reason =
    append_eos_event-payload (front ++ tx) id reason
    ∙ write_frame-append front tx (eos_payload id reason)
    ∙ ap (λ x. front ++ x) (sym (append_eos_event-payload tx id reason))

module _ (backend : Backend) where
  -- The tokens with a text, each with its number.
  unfoldable pub spoken : List ℕ → Tokens
  spoken [] = []
  spoken (new_id ∷ ids) =
      if is_empty (piece_of backend new_id)
      then spoken ids
      else (piece_of backend new_id, new_id) ∷ spoken ids

  pub written-spoken :
      (tx id reason : Bytes) (new_id : ℕ) (ids : List ℕ)
      → written tx id (spoken (new_id ∷ ids)) reason
        ≡ written (spoken_onto backend tx id new_id) id (spoken ids) reason
  unfolding spoken written
  written-spoken tx id reason new_id ids = elim (Bool-cases (is_empty (piece_of backend new_id))) [
    | inl e ↦ rw (spoken, e) refl
    | inr e ↦ rw (spoken, e) refl
  ]

  pub spoken_onto-append :
      (front tx id : Bytes) (new_id : ℕ)
      → front ++ spoken_onto backend tx id new_id ≡ spoken_onto backend (front ++ tx) id new_id
  spoken_onto-append front tx id new_id = elim (Bool-cases (is_empty (piece_of backend new_id))) [
    | inl e ↦ rw e refl
    | inr e ↦ rw e (sym (append_token_event-append front tx id (piece_of backend new_id) new_id))
  ]
