-- ===== src/Cli/Options/Handled.antt =====
-- What the daemon does with the client's request.
use uma_serve.Base.{
  ℕ, suc, zero, ◌≡◌, ◌≤◌, ◌<◌, ◌^◌, length, refl, subst, sym, ap, ◌∙◌, Bool, true, false, [], ◌∷◌,
  ◌++◌, Option, map, arith, Bytes, bytes_eq, codes, if◌then◌else◌,
}
use uma_serve.Base.Integers.{ℤ, pos, negsuc}
use uma_serve.Cli.Options.{
  CliNumbers, CliOptions, request, payload, numbers_fields, max_tokens_field,
}
use uma_serve.Cli.Options.Served.{behind_prompt, behind_id, request-fields, payload_served}
use uma_serve.Ipc.Json.Escaped.{read_back, scan-json_escape}
use uma_serve.Ipc.Protocol.{try_read_frame, write_frame, json_escape}
use uma_serve.Ipc.Protocol.Framing.{try_read_frame-write_frame}
use uma_serve.Ipc.Request.{
  Numbers, Handled, is_empty, is_admin, accept_prompt, handle_request, handle_frame,
}
use uma_serve.Runtime.Config.{RuntimeConfig}
use uma_serve.Runtime.Tokens.{Vocab}
use uma_serve.Ipc.Json.{
  after_colon, after_quote, scan, Extracted, find_byte, find_bytes, starts_with,
}
use uma_serve.Ipc.Json.Keys.{value_at, names, value_at-json_escape, extract_json_string-value_at}
use uma_serve.Cli.Options.Passed.{
  IsUnquoted, AdminKey, type_key, event_key, key_of, key_of-IsPlain, no_key_behind,
}

is_empty-map : (s : Bytes) → is_empty s ≡ false → is_empty (map read_back s) ≡ false
is_empty-map [] e = e
is_empty-map (c ∷ cs) e = refl

module _ {D : Type 0} (numbers : CliNumbers D)
    (prints : (d : D) → IsUnquoted (numbers.print d)) where
  stream_skipped :
      (b : Bool) (r : Bytes)
      → after_colon (
          find_byte b':'
            (codes ",\"stream\":" ++ ((if b then codes "true" else codes "false") ++ r)))
        ≡ after_quote (find_byte b'"' r)
  unfolding after_colon find_byte
  stream_skipped true r = refl
  stream_skipped false r = refl

  -- The first string behind the prompt is a key of the request, or there is none.
  first_string :
      (n : ℤ) (t p : Bool) (d e : D)
      → bytes_eq
          (after_quote (
            find_byte b'"' (
              max_tokens_field numbers n
              ++ (if t then codes ",\"temperature\":" ++ numbers.print d else [])
              ++ (if p then codes ",\"top_p\":" ++ numbers.print e else [])
              ++ codes "}"))).out
          (codes "metrics")
        ≡ false
  unfolding max_tokens_field after_quote find_byte scan bytes_eq
  first_string (pos (suc n)) t p d e = refl
  first_string (pos zero) true p d e = refl
  first_string (pos zero) false true d e = refl
  first_string (pos zero) false false d e = refl
  first_string (negsuc n) true p d e = refl
  first_string (negsuc n) false true d e = refl
  first_string (negsuc n) false false d e = refl

  behind_prompt-metrics :
      (o : CliOptions D)
      → bytes_eq (after_colon (find_byte b':' (behind_prompt numbers o))).out (codes "metrics")
        ≡ false
  unfolding numbers_fields
  behind_prompt-metrics o =
      ap (λ (x : Extracted). bytes_eq x.out (codes "metrics"))
        (stream_skipped o.stream (numbers_fields numbers o ++ codes "}"))
      ∙ first_string o.max_tokens o.has_temperature o.has_top_p o.temperature o.top_p

  abbrev says_metrics : Option Bytes → Bool
  says_metrics found = bytes_eq (after_colon found).out (codes "metrics")

  skip_id :
      (k : AdminKey) (t : Bytes)
      → value_at (key_of k) (codes "{\"id\":\"" ++ t) ≡ value_at (key_of k) (b'"' ∷ t)
  unfolding value_at find_bytes starts_with
  skip_id type_key t = refl
  skip_id event_key t = refl

  skip_prompt :
      (k : AdminKey) (t : Bytes)
      → value_at (key_of k) (codes "\",\"prompt\":\"" ++ t) ≡ value_at (key_of k) (b'"' ∷ t)
  unfolding value_at find_bytes starts_with
  skip_prompt type_key t = refl
  skip_prompt event_key t = refl

  prompt_text :
      (o : CliOptions D)
      → says_metrics (find_byte b':' (behind_id numbers o))
        ≡ bytes_eq (map read_back o.prompt) (codes "metrics")
  unfolding after_colon after_quote find_byte
  prompt_text o =
      ap (λ (x : Extracted). bytes_eq x.out (codes "metrics"))
        (scan-json_escape o.prompt (behind_prompt numbers o))

  if_found :
      (b : Bool) (x y : Option Bytes)
      → says_metrics x ≡ false
      → says_metrics y ≡ false
      → says_metrics (if b then x else y) ≡ false
  if_found true x y h k = h
  if_found false x y h k = k

  -- Neither key leads to `metrics`: if the id names the key, the prompt is read; if the prompt
  -- does, a key of the request or nothing; and nothing otherwise.
  says_metrics-request :
      (k : AdminKey) (o : CliOptions D)
      → bytes_eq (map read_back o.prompt) (codes "metrics") ≡ false
      → says_metrics (value_at (key_of k) (request numbers o)) ≡ false
  says_metrics-request k o h =
      let plain = key_of-IsPlain k in
      let bi = behind_id numbers o in
      let bp = behind_prompt numbers o in
      ap (λ j. says_metrics (value_at (key_of k) j)) (request-fields numbers o)
      ∙ ap says_metrics (
          skip_id k (json_escape o.id ++ b'"' ∷ bi) ∙ value_at-json_escape (key_of k) o.id bi plain)
      ∙ if_found (names (key_of k) o.id) (find_byte b':' bi) (value_at (key_of k) (b'"' ∷ bi))
          (prompt_text o ∙ h)
          (ap says_metrics (
              skip_prompt k (json_escape o.prompt ++ b'"' ∷ bp)
              ∙ value_at-json_escape (key_of k) o.prompt bp plain)
            ∙ if_found (names (key_of k) o.prompt) (find_byte b':' bp)
                (value_at (key_of k) (b'"' ∷ bp)) (behind_prompt-metrics o)
                (ap says_metrics (no_key_behind numbers prints k o)
                  ∙ unfold after_colon bytes_eq in refl))

  payload-request : (o : CliOptions D) → o.metrics ≡ false → payload numbers o ≡ request numbers o
  unfolding payload
  payload-request o m = rw (payload, m) refl

  payload-proper : (o : CliOptions D) → o.metrics ≡ false → 0 < length (payload numbers o)
  payload-proper o m =
      subst (λ j. 0 < length j) (sym (payload-request o m ∙ request-fields numbers o)) (omega arith)

  is_admin-payload :
      (o : CliOptions D)
      → o.metrics ≡ false
      → bytes_eq (map read_back o.prompt) (codes "metrics") ≡ false
      → is_admin (payload numbers o) ≡ false
  unfolding is_admin payload
  is_admin-payload o m h =
      let typ =
        ap (λ (x : Extracted). bytes_eq x.out (codes "metrics"))
          (extract_json_string-value_at (request numbers o) (codes "type"))
        ∙ says_metrics-request type_key o h in
      let evt =
        ap (λ (x : Extracted). bytes_eq x.out (codes "metrics"))
          (extract_json_string-value_at (request numbers o) (codes "event"))
        ∙ says_metrics-request event_key o h in
      rw (is_admin, payload, m) (ground (arith, typ, evt))

  -- Let the printed numbers have no quotes, the prompt not be empty, and not be read as `metrics`;
  -- and let the request be within the limit of a frame. Then the daemon, whatever it has read behind
  -- the frame that the client sends, takes the request for a prompt with the id and the prompt that
  -- were given, but for control characters without a short escape, each of which is read as a
  -- question mark.
  pub handle_frame-payload :
      (cfg : RuntimeConfig) (vocab : Vocab) {E : Type 0} (conversions : Numbers E) (now_ns max : ℕ)
      (o : CliOptions D) (rest : Bytes) (h : Handled E)
      → o.metrics ≡ false
      → is_empty o.prompt ≡ false
      → bytes_eq (map read_back o.prompt) (codes "metrics") ≡ false
      → length (payload numbers o) ≤ max
      → length (payload numbers o) < 2 ^ 32
      → handle_frame cfg vocab conversions now_ns
          (try_read_frame max (write_frame [] (payload numbers o) ++ rest))
          h
        ≡ accept_prompt cfg vocab conversions now_ns
            (payload numbers o)
            (map read_back o.id)
            (map read_back o.prompt)
            (record h { session = record h.session { rx = rest } })
  unfolding handle_frame handle_request
  handle_frame-payload cfg vocab conversions now_ns max o rest h m e a l w =
      let js = payload numbers o in
      let h' = record h { session = record h.session { rx = rest } } in
      let (id_read, prompt_read) = payload_served numbers o m in
      let prompt_there : is_empty (map read_back o.prompt) ≡ false = is_empty-map o.prompt e in
      ap (λ r. handle_frame cfg vocab conversions now_ns r h)
        (try_read_frame-write_frame max js rest (payload-proper o m) l w)
      ∙ rw (handle_request, is_admin-payload o m a, id_read, prompt_read, prompt_there) refl
