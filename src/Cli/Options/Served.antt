-- ===== src/Cli/Options/Served.antt =====
-- What the daemon reads of the client's request.
use uma_serve.Base.{
  ◌≡◌, refl, ◌∙◌, Bool, true, false, ◌∷◌, ◌++◌, some, map, append_assoc, arith, Bytes, codes,
  if◌then◌else◌,
}
use uma_serve.Cli.Options.{CliNumbers, CliOptions, request, payload, numbers_fields}
use uma_serve.Ipc.Json.{extract_json_string, find_byte, find_bytes, starts_with}
use uma_serve.Ipc.Json.Escaped.{read_back}
use uma_serve.Ipc.Json.Keys.{
  value_at, names, IsPlain, value_at-json_escape, extract_json_string-json_escape,
}
use uma_serve.Ipc.Protocol.{json_escape}

module _ {D : Type 0} (numbers : CliNumbers D) (o : CliOptions D) where
  -- The request behind the prompt, and behind the id.
  abbrev pub behind_prompt : Bytes
  behind_prompt =
      codes ",\"stream\":"
      ++ ((if o.stream then codes "true" else codes "false")
          ++ (numbers_fields numbers o ++ codes "}"))

  abbrev pub behind_id : Bytes
  behind_id = codes ",\"prompt\":\"" ++ json_escape o.prompt ++ b'"' ∷ behind_prompt

  pub request-fields :
      request numbers o ≡ codes "{\"id\":\"" ++ json_escape o.id ++ b'"' ∷ behind_id
  unfolding request
  request-fields = simp (append_assoc)

  value_at-id :
      value_at (codes "id") (codes "{\"id\":\"" ++ json_escape o.id ++ b'"' ∷ behind_id)
      ≡ some (b':' ∷ b'"' ∷ (json_escape o.id ++ b'"' ∷ behind_id))
  unfolding value_at find_bytes starts_with find_byte
  value_at-id = refl

  skip_id :
      (t : Bytes)
      → value_at (codes "prompt") (codes "{\"id\":\"" ++ t) ≡ value_at (codes "prompt") (b'"' ∷ t)
  unfolding value_at find_bytes starts_with
  skip_id t = refl

  prompt-IsPlain : IsPlain (codes "prompt")
  prompt-IsPlain = ground arith

  -- The id may name the key; the colon is the same.
  value_at-prompt :
      value_at (codes "prompt") (codes "{\"id\":\"" ++ json_escape o.id ++ b'"' ∷ behind_id)
      ≡ some (b':' ∷ b'"' ∷ (json_escape o.prompt ++ b'"' ∷ behind_prompt))
  unfolding value_at find_bytes starts_with find_byte
  value_at-prompt =
      skip_id (json_escape o.id ++ b'"' ∷ behind_id)
      ∙ value_at-json_escape (codes "prompt") o.id behind_id prompt-IsPlain
      ∙ either (names (codes "prompt") o.id)
    where
      either :
          (b : Bool)
          → (if b then find_byte b':' behind_id else value_at (codes "prompt") (b'"' ∷ behind_id))
            ≡ some (b':' ∷ b'"' ∷ (json_escape o.prompt ++ b'"' ∷ behind_prompt))
      either true = refl
      either false = refl

  -- Of any request for a prompt, whatever its id, its prompt and its other options are, the daemon
  -- reads the id and the prompt as they were given, but for control characters without a short
  -- escape, each of which it reads as a question mark, and accepts both.
  pub payload_served :
      o.metrics ≡ false
      → (extract_json_string (payload numbers o) (codes "id")
          ≡ record { out = map read_back o.id; invalid_escape = false })
        × (extract_json_string (payload numbers o) (codes "prompt")
            ≡ record { out = map read_back o.prompt; invalid_escape = false })
  unfolding payload
  payload_served m =
      let j = codes "{\"id\":\"" ++ json_escape o.id ++ b'"' ∷ behind_id in
      rw (payload, m, request-fields)
        (
          extract_json_string-json_escape j (codes "id") o.id behind_id value_at-id,
          extract_json_string-json_escape j (codes "prompt") o.prompt behind_prompt value_at-prompt,
        )
