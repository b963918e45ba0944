-- ===== src/Cli/Client/Answered.antt =====
-- A whole run of the client whose request is answered.
use uma_serve.Base.{
  ℕ, ◌^◌, ◌<◌, ◌≡◌, refl, ap, ap₂, sym, append_assoc, ◌∙◌, Bool, true, false, not, ◌&&◌, List, [],
  ◌∷◌, ◌++◌, some, All, Bytes, codes, length, if◌then◌else◌, Bool-cases, inl, inr,
}
use uma_serve.Cli.Client.{
  Write, send_all, exchange, ConnectAnswers, connected, connect_uds, closes, with_connection, start,
  main, gen_default_id,
}
use uma_serve.Cli.Events.{Print, out, err, perror, Read, at_header, receive}
use uma_serve.Cli.Events.Response.{
  IsCutting, Tokens, deliver_all, payloads, printed, response_received,
}
use uma_serve.Cli.Events.Texts.{all_back, IsText, all_back-IsText}
use uma_serve.Cli.Options.{CliNumbers, CliOptions, options, parse, payload, default_options}
use uma_serve.Ipc.Json.Keys.{names}
use uma_serve.Ipc.Protocol.{write_frame}
use uma_serve.Ipc.Request.{is_empty}

and_false : (b : Bool) → (b && false) ≡ false
and_false true = refl
and_false false = refl

-- What goes to the standard output, and what to the standard error.
abbrev pub stdout : List Print → Bytes
stdout [] = []
stdout (out bytes ∷ prints) = bytes ++ stdout prints
stdout (_ ∷ prints) = stdout prints

abbrev pub stderr : List Print → Bytes
stderr [] = []
stderr (out _ ∷ prints) = stderr prints
stderr (err bytes ∷ prints) = bytes ++ stderr prints
stderr (perror what ∷ prints) = what ++ stderr prints

-- The texts of the tokens, one behind the other.
abbrev pub texts : Tokens → Bytes
texts [] = []
texts ((text, n) ∷ tokens) = text ++ texts tokens

abbrev pub IsTexts : Tokens → Type 0
IsTexts = All (λ (token : Bytes × ℕ). IsText token.0)

is_empty-nil : (s : Bytes) → is_empty s ≡ true → s ≡ []
is_empty-nil [] e = refl
is_empty-nil (c ∷ cs) e = cc

printed-IsTexts :
    (tokens : Tokens)
    → IsTexts tokens
    → (stdout (printed tokens) ≡ texts tokens ++ codes "\n") × (stderr (printed tokens) ≡ [])
unfolding printed
printed-IsTexts [] h = (refl, refl)
printed-IsTexts ((text, n) ∷ tokens) h =
    let (o, e) = printed-IsTexts tokens h.1 in
    let back = all_back-IsText text h.0 in
    elim (Bool-cases (is_empty (all_back text))) [
      | inl none_read ↦
          let empty : text ≡ [] = sym back ∙ is_empty-nil (all_back text) none_read in
          rw none_read (o ∙ ap (λ t. (t ++ texts tokens) ++ codes "\n") (sym empty), e)
      | inr read ↦
          rw read
            (ap₂ (λ s t. s ++ t) back o ∙ sym (append_assoc text (texts tokens) (codes "\n")), e)
    ]

module _ {D : Type 0} (numbers : CliNumbers D) (argv0 : Bytes) where
  -- The options with an id.
  abbrev pub identified : Bytes → CliOptions D → CliOptions D
  identified default_id o = if is_empty o.id then record o { id = default_id } else o

  exchange-answered :
      (o : CliOptions D) (writes : List Write) (reads : List Read)
      → send_all writes (write_frame [] (payload numbers o)) ≡ some true
      → exchange numbers argv0 o writes reads ≡ receive o.metrics at_header reads
  unfolding exchange
  exchange-answered o writes reads h = rw (exchange, h) refl

  main-connected :
      (pid time : ℕ) (answers : ConnectAnswers) (args : List Bytes) (o : CliOptions D) (fd : ℕ)
      (writes : List Write) (reads : List Read)
      → parse numbers args (default_options numbers) ≡ options o
      → is_empty o.prompt ≡ false
      → connect_uds answers o.socket_path ≡ connected fd
      → main numbers argv0 pid time answers args writes reads
        ≡ with_connection numbers argv0
            (identified (gen_default_id pid time) o)
            writes
            reads
            (connected fd)
  unfolding main start
  main-connected pid time answers args o fd writes reads p e c =
      rw (main, p, start, e, and_false (not o.metrics), c) refl

  pub identified-metrics :
      (default_id : Bytes) (o : CliOptions D) → (identified default_id o).metrics ≡ o.metrics
  identified-metrics default_id o = elim (Bool-cases (is_empty o.id)) [
    | inl e ↦ rw e refl
    | inr e ↦ rw e refl
  ]

  with_connection-answered :
      (o : CliOptions D) (writes : List Write) (reads : List Read) (fd : ℕ) (tokens : Tokens)
      → exchange numbers argv0 o writes reads
        ≡ record { prints = printed tokens; exit_code = some 0 }
      → with_connection numbers argv0 o writes reads (connected fd)
        ≡ record { prints = printed tokens; exit_code = some 0; opened = fd ∷ []; closed = fd ∷ [] }
  unfolding with_connection closes
  with_connection-answered o writes reads fd tokens h = rw (with_connection, h) refl

  main-printed :
      (pid time : ℕ) (answers : ConnectAnswers) (args : List Bytes) (o : CliOptions D) (fd : ℕ)
      (writes : List Write) (cut : Bytes → List Bytes) (id reason : Bytes) (tokens : Tokens)
      (later : List Read)
      → parse numbers args (default_options numbers) ≡ options o
      → is_empty o.prompt ≡ false
      → o.metrics ≡ false
      → connect_uds answers o.socket_path ≡ connected fd
      → send_all writes (write_frame [] (payload numbers (identified (gen_default_id pid time) o)))
        ≡ some true
      → IsCutting cut
      → names (codes "text") id ≡ false
      → All (λ js. length js < 2 ^ 32) (payloads id tokens reason)
      → main numbers argv0 pid time answers args writes
          (deliver_all cut (payloads id tokens reason) ++ later)
        ≡ record { prints = printed tokens; exit_code = some 0; opened = fd ∷ []; closed = fd ∷ [] }
  main-printed pid time answers args o fd writes cut id reason tokens later p e m c sent cuts n w =
      let o' = identified (gen_default_id pid time) o in
      let reads = deliver_all cut (payloads id tokens reason) ++ later in
      let no_metrics : o'.metrics ≡ false = identified-metrics (gen_default_id pid time) o ∙ m in
      main-connected pid time answers args o fd writes reads p e c
      ∙ with_connection-answered o' writes reads fd tokens (
          exchange-answered o' writes reads sent
          ∙ ap (λ b. receive b at_header reads) no_metrics
          ∙ (response_received cut cuts id reason tokens later n w).1)

  -- A run of the client. Let the flags be understood, with a prompt and without `--metrics`, let the
  -- socket be connected, and let the calls of `write` send the request, with the generated id where
  -- none is given. Let the payloads of a response, for an id that neither is `text` nor ends in a
  -- quote and `text`, have fewer than 2^32 bytes each, and come in any pieces behind their headers;
  -- and let the texts of the tokens have no control characters but newlines, carriage returns and
  -- tabs. Then the standard output of the client is the texts of the tokens, one behind the other,
  -- and a newline; it prints no error, exits with 0, and has closed its descriptor.
  pub main_answered :
      (pid time : ℕ) (answers : ConnectAnswers) (args : List Bytes) (o : CliOptions D) (fd : ℕ)
      (writes : List Write) (cut : Bytes → List Bytes) (id reason : Bytes) (tokens : Tokens)
      (later : List Read)
      → parse numbers args (default_options numbers) ≡ options o
      → is_empty o.prompt ≡ false
      → o.metrics ≡ false
      → connect_uds answers o.socket_path ≡ connected fd
      → send_all writes (write_frame [] (payload numbers (identified (gen_default_id pid time) o)))
        ≡ some true
      → IsCutting cut
      → names (codes "text") id ≡ false
      → All (λ js. length js < 2 ^ 32) (payloads id tokens reason)
      → IsTexts tokens
      → let run =
          main numbers argv0 pid time answers args writes
            (deliver_all cut (payloads id tokens reason) ++ later) in
        (stdout run.prints ≡ texts tokens ++ codes "\n")
        × (stderr run.prints ≡ [])
        × (run.exit_code ≡ some 0)
        × (run.opened ≡ fd ∷ [])
        × (run.closed ≡ fd ∷ [])
  main_answered pid time answers args o fd writes cut id reason tokens later p e m c sent cuts n w
        t =
      let printed_all = printed-IsTexts tokens t in
      rw
        (main-printed pid time answers args o fd writes cut id reason tokens later p e m c sent cuts
          n w)
        (printed_all.0, printed_all.1, refl, refl, refl)
