-- ===== src/Cli/Events/Response.antt =====
-- A whole response, from the daemon's buffer to what the client prints.
use uma_serve.Base.{
  ℕ, ◌≡◌, refl, ap, ap₂, sym, ◌∙◌, ◌^◌, ◌<◌, Bool, true, false, List, [], ◌∷◌, ◌++◌, some, none,
  append_assoc, append-nil, length-append, arith, inl, inr, Bool-cases, All, Bytes, codes, length,
  map, ltb,
}
use uma_serve.Cli.Events.{
  eof, interrupted, failed, Print, out, Received, line, after_event, Read, got, at_header,
  in_payload, progress, header_progress, payload_progress, receive, before,
}
use uma_serve.Cli.Events.Texts.{event}
use uma_serve.Cli.Events.Stream.{
  token_payload, eos_payload, token_print, after_event-token, after_event-eos,
  append_token_event-payload, append_eos_event-payload,
}
use uma_serve.Ipc.Json.Keys.{names}
use uma_serve.Ipc.Protocol.{header, write_frame, append_token_event, append_eos_event}
use uma_serve.Ipc.Protocol.Framing.{read_u32_le-header}

abbrev pub joined : List Bytes → Bytes
joined [] = []
joined (c ∷ chunks) = c ++ joined chunks

-- The calls of `read` that a payload takes: each gives something, and together they give it all.
pub record IsCut (js : Bytes) (chunks : List Bytes) : Type 0 where
  pub whole : joined chunks ≡ js
  pub proper : All (λ c. 0 < length c) chunks

-- What the client does with a payload, and then with what follows.
abbrev resumed : Bool → Received → List Read → Received
resumed metrics a reads = elim a.exit_code [
  | some code ↦ a
  | none ↦ before a.prints (receive metrics at_header reads)
]

abbrev handled : Bool → Bytes → List Read → Received
handled metrics js reads = resumed metrics (after_event metrics js) reads

joined-nil :
    (chunks : List Bytes)
    → All (λ c. 0 < length c) chunks
    → length (joined chunks) ≡ 0
    → chunks ≡ []
joined-nil [] h e = refl
joined-nil (c ∷ chunks) h e = absurd (omega (arith, h.0, e, length-append c (joined chunks)))

module _ (metrics : Bool) where
  receive-payload :
      (js acc : Bytes) (chunks : List Bytes) (reads : List Read)
      → All (λ c. 0 < length c) chunks
      → acc ++ joined chunks ≡ js
      → length acc < length js
      → receive metrics (in_payload (length js) acc) (map got chunks ++ reads)
        ≡ handled metrics js reads
  unfolding receive progress payload_progress
  receive-payload js acc [] reads h e l =
      absurd (omega (arith, l, length-append acc [], ap (length {A = ℕ}) e))
  receive-payload js acc (c ∷ chunks) reads h e l =
      let e' : (acc ++ c) ++ joined chunks ≡ js = append_assoc acc c (joined chunks) ∙ e in
      elim (Bool-cases (ltb (length (acc ++ c)) (length js))) [
        | inl more ↦
            rw (receive, more)
              (receive-payload js (acc ++ c) chunks reads h.1 e' (ground (arith, more)))
        | inr last ↦
            let none_left : length (joined chunks) ≡ 0 =
              ground
                (arith, last, length-append (acc ++ c) (joined chunks), ap (length {A = ℕ}) e') in
            let no_chunks = joined-nil chunks h.1 none_left in
            let all : acc ++ c ≡ js =
              sym (append-nil (acc ++ c)) ∙ ap (λ x. (acc ++ c) ++ joined x) (sym no_chunks) ∙ e' in
            rw (receive, last) (ap₂ (λ x y. handled metrics x (map got y ++ reads)) all no_chunks)
      ]

  receive-frame :
      (js : Bytes) (chunks : List Bytes) (reads : List Read)
      → 0 < length js
      → length js < 2 ^ 32
      → IsCut js chunks
      → receive metrics at_header (got (header (length js)) ∷ (map got chunks ++ reads))
        ≡ handled metrics js reads
  unfolding receive progress header_progress payload_progress header
  receive-frame js chunks reads p w h =
      let n = length js in
      let len = read_u32_le-header n w in
      let more : ltb 0 n ≡ true = ground arith in
      rw (receive, len, more) (receive-payload js [] chunks reads h.proper h.whole p)

-- How the payloads are cut by `read`, once the header of each is read as a whole.
abbrev pub IsCutting : (Bytes → List Bytes) → Type 0
IsCutting cut = (js : Bytes) → IsCut js (cut js)

abbrev pub deliver : (Bytes → List Bytes) → Bytes → List Read
deliver cut js = got (header (length js)) ∷ map got (cut js)

-- The tokens of a response, each with its number.
abbrev pub deliver_all : (Bytes → List Bytes) → List Bytes → List Read
deliver_all cut [] = []
deliver_all cut (js ∷ payloads) = deliver cut js ++ deliver_all cut payloads

abbrev pub Tokens : Type 0
Tokens = List (Bytes × ℕ)

-- What the daemon writes for a response, onto what is in the buffer.
unfoldable pub written : Bytes → Bytes → Tokens → Bytes → Bytes
written tx id [] reason = append_eos_event tx id reason
written tx id ((text, n) ∷ tokens) reason =
    written (append_token_event tx id text n) id tokens reason

-- The payloads of a response.
unfoldable pub payloads : Bytes → Tokens → Bytes → List Bytes
payloads id [] reason = eos_payload id reason ∷ []
payloads id ((text, n) ∷ tokens) reason = token_payload id text n ∷ payloads id tokens reason

-- What the client prints for a response.
unfoldable pub printed : Tokens → List Print
printed [] = out (line []) ∷ []
printed ((text, n) ∷ tokens) = token_print text ++ printed tokens

pub bytes_of : List Read → Bytes
bytes_of [] = []
bytes_of (got bytes ∷ reads) = bytes ++ bytes_of reads
bytes_of (_ ∷ reads) = bytes_of reads

bytes_of-append : (xs ys : List Read) → bytes_of (xs ++ ys) ≡ bytes_of xs ++ bytes_of ys
unfolding bytes_of
bytes_of-append [] ys = refl
bytes_of-append (got bytes ∷ xs) ys =
    ap (λ x. bytes ++ x) (bytes_of-append xs ys)
    ∙ sym (append_assoc bytes (bytes_of xs) (bytes_of ys))
bytes_of-append (eof stale ∷ xs) ys = bytes_of-append xs ys
bytes_of-append (interrupted ∷ xs) ys = bytes_of-append xs ys
bytes_of-append (failed ∷ xs) ys = bytes_of-append xs ys

bytes_of-got : (chunks : List Bytes) → bytes_of (map got chunks) ≡ joined chunks
unfolding bytes_of
bytes_of-got [] = refl
bytes_of-got (c ∷ chunks) = ap (λ x. c ++ x) (bytes_of-got chunks)

event-proper : (id r : Bytes) → 0 < length (event id r)
unfolding event
event-proper id r = omega arith

module _ (cut : Bytes → List Bytes) (cuts : IsCutting cut) where
  write_frame-deliver : (tx js : Bytes) → write_frame tx js ≡ tx ++ bytes_of (deliver cut js)
  unfolding write_frame bytes_of
  write_frame-deliver tx js =
      append_assoc tx (header (length js)) js
      ∙ ap (λ x. tx ++ (header (length js) ++ x)) (sym (bytes_of-got (cut js) ∙ (cuts js).whole))

  written-deliver :
      (tx id : Bytes) (tokens : Tokens) (reason : Bytes)
      → written tx id tokens reason ≡ tx ++ bytes_of (deliver_all cut (payloads id tokens reason))
  unfolding written payloads
  written-deliver tx id [] reason =
      append_eos_event-payload tx id reason
      ∙ write_frame-deliver tx (eos_payload id reason)
      ∙ ap (λ x. tx ++ bytes_of x) (sym (append-nil (deliver cut (eos_payload id reason))))
  written-deliver tx id ((text, n) ∷ tokens) reason =
      let js = token_payload id text n in
      let rest = deliver_all cut (payloads id tokens reason) in
      written-deliver (append_token_event tx id text n) id tokens reason
      ∙ ap (λ x. x ++ bytes_of rest)
          (append_token_event-payload tx id text n ∙ write_frame-deliver tx js)
      ∙ append_assoc tx (bytes_of (deliver cut js)) (bytes_of rest)
      ∙ ap (λ x. tx ++ x) (sym (bytes_of-append (deliver cut js) rest))

  receive-response :
      (id reason : Bytes) (tokens : Tokens) (later : List Read)
      → names (codes "text") id ≡ false
      → All (λ js. length js < 2 ^ 32) (payloads id tokens reason)
      → receive false at_header (deliver_all cut (payloads id tokens reason) ++ later)
        ≡ record { prints = printed tokens; exit_code = some 0 }
  unfolding payloads printed
  receive-response id reason [] later n w =
      let js = eos_payload id reason in
      ap (receive false at_header) (ap (λ x. x ++ later) (append-nil (deliver cut js)))
      ∙ receive-frame false js (cut js) later (event-proper id _) w.0 (cuts js)
      ∙ ap (λ a. resumed false a later) (after_event-eos id reason)
  receive-response id reason ((text, k) ∷ tokens) later n w =
      let js = token_payload id text k in
      let rest = deliver_all cut (payloads id tokens reason) in
      ap (receive false at_header) (append_assoc (deliver cut js) rest later)
      ∙ receive-frame false js (cut js) (rest ++ later) (event-proper id _) w.0 (cuts js)
      ∙ ap (λ a. resumed false a (rest ++ later)) (after_event-token id text k n)
      ∙ ap (before (token_print text)) (receive-response id reason tokens later n w.1)

  -- Let the id neither be `text` nor end in a quote and `text`, and let every payload be shorter
  -- than 2^32 bytes. Then the token events and the end of a response, as the daemon writes them one
  -- behind the other, are exactly what the calls of `read` give, however they cut the payloads;
  -- and over them, whatever could be read later, the client prints the text of each token in order
  -- as it reads it back, a newline, and exits with 0.
  pub response_received :
      (id reason : Bytes) (tokens : Tokens) (later : List Read)
      → names (codes "text") id ≡ false
      → All (λ js. length js < 2 ^ 32) (payloads id tokens reason)
      → let reads = deliver_all cut (payloads id tokens reason) in
        (bytes_of reads ≡ written [] id tokens reason)
        × (receive false at_header (reads ++ later)
            ≡ record { prints = printed tokens; exit_code = some 0 })
  response_received id reason tokens later n w =
      (sym (written-deliver [] id tokens reason), receive-response id reason tokens later n w)
