-- ===== src/Cli/Options/Passed.antt =====
-- The search for the keys of a metrics request, in a request for a prompt.
use uma_serve.Base.{
  suc, zero, ◌≡◌, ◌≢◌, refl, ap, ◌∙◌, Bool, true, false, [], ◌∷◌, ◌++◌, none, append_assoc, arith,
  All, Bytes, codes, if◌then◌else◌,
}
use uma_serve.Base.Integers.{ℤ, pos, negsuc}
use uma_serve.Cli.Options.{CliNumbers, CliOptions, numbers_fields, max_tokens_field}
use uma_serve.Cli.Options.Served.{behind_prompt}
use uma_serve.Ipc.Protocol.{to_string}
use uma_serve.Ipc.Json.{find_bytes, starts_with}
use uma_serve.Ipc.Json.Keys.{value_at, IsPlain}
use uma_serve.Ipc.Protocol.Digits.{IsDigits, to_string-IsDigits}

-- No quote in a text.
abbrev pub IsUnquoted : Bytes → Type 0
IsUnquoted = All (λ c. c ≢ b'"')

-- The search for a key passes over a text without quotes.
value_at-unquoted : (key xs r : Bytes) → IsUnquoted xs → value_at key (xs ++ r) ≡ value_at key r
unfolding value_at find_bytes starts_with
value_at-unquoted key [] r h = refl
value_at-unquoted key (c ∷ cs) r h = ground (arith, h.0, value_at-unquoted key cs r h.1)

digits-IsUnquoted : (xs : Bytes) → IsDigits xs → IsUnquoted xs
digits-IsUnquoted [] h = tt
digits-IsUnquoted (c ∷ cs) h = (ground (arith, h.0), digits-IsUnquoted cs h.1)

-- The two keys by which a request for the metrics is known.
pub data AdminKey : Type 0 where
  type_key event_key : AdminKey

abbrev pub key_of : AdminKey → Bytes
key_of type_key = codes "type"
key_of event_key = codes "event"

pub key_of-IsPlain : (k : AdminKey) → IsPlain (key_of k)
key_of-IsPlain type_key = ground arith
key_of-IsPlain event_key = ground arith

-- The other keys of a request are not taken for them.
max_tokens_passed :
    (k : AdminKey) (r : Bytes)
    → value_at (key_of k) (codes ",\"max_tokens\":" ++ r) ≡ value_at (key_of k) r
unfolding value_at find_bytes starts_with
max_tokens_passed type_key r = refl
max_tokens_passed event_key r = refl

temperature_passed :
    (k : AdminKey) (r : Bytes)
    → value_at (key_of k) (codes ",\"temperature\":" ++ r) ≡ value_at (key_of k) r
unfolding value_at find_bytes starts_with
temperature_passed type_key r = refl
temperature_passed event_key r = refl

top_p_passed :
    (k : AdminKey) (r : Bytes)
    → value_at (key_of k) (codes ",\"top_p\":" ++ r) ≡ value_at (key_of k) r
unfolding value_at find_bytes starts_with
top_p_passed type_key r = refl
top_p_passed event_key r = refl

stream_passed :
    (k : AdminKey) (b : Bool) (r : Bytes)
    → value_at
        (key_of k)
        (codes "\",\"stream\":" ++ ((if b then codes "true" else codes "false") ++ r))
      ≡ value_at (key_of k) r
unfolding value_at find_bytes starts_with
stream_passed type_key true r = refl
stream_passed type_key false r = refl
stream_passed event_key true r = refl
stream_passed event_key false r = refl

module _ {D : Type 0} (numbers : CliNumbers D)
    (prints : (d : D) → IsUnquoted (numbers.print d)) where
  abbrev temperature_field : CliOptions D → Bytes
  temperature_field o =
      if o.has_temperature then codes ",\"temperature\":" ++ numbers.print o.temperature else []

  abbrev top_p_field : CliOptions D → Bytes
  top_p_field o = if o.has_top_p then codes ",\"top_p\":" ++ numbers.print o.top_p else []

  max_tokens_field_passed :
      (k : AdminKey) (n : ℤ) (r : Bytes)
      → value_at (key_of k) (max_tokens_field numbers n ++ r) ≡ value_at (key_of k) r
  unfolding max_tokens_field
  max_tokens_field_passed k (pos (suc n)) r =
      max_tokens_passed k (to_string (suc n) ++ r)
      ∙ value_at-unquoted (key_of k) (to_string (suc n)) r
          (digits-IsUnquoted (to_string (suc n)) (to_string-IsDigits (suc n)))
  max_tokens_field_passed k (pos zero) r = refl
  max_tokens_field_passed k (negsuc n) r = refl

  temperature_field_passed :
      (k : AdminKey) (b : Bool) (d : D) (r : Bytes)
      → value_at (key_of k) ((if b then codes ",\"temperature\":" ++ numbers.print d else []) ++ r)
        ≡ value_at (key_of k) r
  temperature_field_passed k true d r =
      temperature_passed k (numbers.print d ++ r)
      ∙ value_at-unquoted (key_of k) (numbers.print d) r (prints d)
  temperature_field_passed k false d r = refl

  top_p_field_passed :
      (k : AdminKey) (b : Bool) (d : D) (r : Bytes)
      → value_at (key_of k) ((if b then codes ",\"top_p\":" ++ numbers.print d else []) ++ r)
        ≡ value_at (key_of k) r
  top_p_field_passed k true d r =
      top_p_passed k (numbers.print d ++ r)
      ∙ value_at-unquoted (key_of k) (numbers.print d) r (prints d)
  top_p_field_passed k false d r = refl

  -- Neither key stands behind the prompt.
  pub no_key_behind :
      (k : AdminKey) (o : CliOptions D)
      → value_at (key_of k) (b'"' ∷ behind_prompt numbers o) ≡ none
  unfolding numbers_fields
  no_key_behind k o =
      let t = temperature_field o in
      let p = top_p_field o in
      let m = max_tokens_field numbers o.max_tokens in
      stream_passed k o.stream (numbers_fields numbers o ++ codes "}")
      ∙ ap (value_at (key_of k))
          (append_assoc (m ++ t) p (codes "}") ∙ append_assoc m t (p ++ codes "}"))
      ∙ max_tokens_field_passed k o.max_tokens (t ++ (p ++ codes "}"))
      ∙ temperature_field_passed k o.has_temperature o.temperature (p ++ codes "}")
      ∙ top_p_field_passed k o.has_top_p o.top_p (codes "}")
      ∙ last k
    where
      last : (k : AdminKey) → value_at (key_of k) (codes "}") ≡ none
      last type_key = unfold value_at find_bytes starts_with in refl
      last event_key = unfold value_at find_bytes starts_with in refl
