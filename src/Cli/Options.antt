-- ===== src/Cli/Options.antt =====
-- cli/main.cpp: the flags of the client, and the request that it makes of them. `atoi`, `atof` and
-- the printing of a double are parameters.
pub mod Served
pub mod Passed
pub mod Handled
use uma_serve.Base.{
  bytes_eq, ℕ, zero, suc, Bool, true, false, not, ◌&&◌, ◌||◌, List, [], ◌∷◌, ◌++◌, Bytes, codes,
  if◌then◌else◌,
}
use uma_serve.Base.Integers.{ℤ, pos, negsuc}
use uma_serve.Ipc.Protocol.{json_escape, to_string}
use uma_serve.Ipc.Request.{is_empty}

pub record CliNumbers (D : Type 0) : Type 0 where
  pub atoi : Bytes → ℤ
  pub atof : Bytes → D
  pub print : D → Bytes
  pub zero_point : D
  pub one_point : D

pub record CliOptions (D : Type 0) : Type 0 where
  pub socket_path : Bytes
  pub id : Bytes
  pub prompt : Bytes
  pub max_tokens : ℤ
  pub temperature : D
  pub top_p : D
  pub has_temperature : Bool
  pub has_top_p : Bool
  pub stream : Bool
  pub metrics : Bool

-- What becomes of the arguments: the usage is printed, a flag is refused, or there are options.
pub data Parsed (D : Type 0) : Type 0 where
  help : Parsed D
  refused : Bytes → Parsed D
  options : CliOptions D → Parsed D

module _ {D : Type 0} (numbers : CliNumbers D) where
  abbrev pub default_options : CliOptions D
  default_options = record {
    socket_path = codes "/tmp/uma.sock";
    id = [];
    prompt = [];
    max_tokens = negsuc 0;
    temperature = numbers.zero_point;
    top_p = numbers.one_point;
    has_temperature = false;
    has_top_p = false;
    stream = true;
    metrics = false;
  }

  -- A flag that has its value behind it.
  with_value : Bytes → Bytes → CliOptions D → Parsed D
  with_value a v o =
      if bytes_eq a (codes "--socket")
      then options (record o { socket_path = v })
      else if bytes_eq a (codes "--prompt")
      then options (record o { prompt = v })
      else if bytes_eq a (codes "--id")
      then options (record o { id = v })
      else if bytes_eq a (codes "--max-tokens")
      then options (record o { max_tokens = numbers.atoi v })
      else if bytes_eq a (codes "--temp")
      then options (record o { temperature = numbers.atof v; has_temperature = true })
      else if bytes_eq a (codes "--top-p")
      then options (record o { top_p = numbers.atof v; has_top_p = true })
      else refused a

  -- A flag without a value.
  switch : Bytes → CliOptions D → Parsed D
  switch a o =
      if bytes_eq a (codes "--no-stream")
      then options (record o { stream = false })
      else if bytes_eq a (codes "--metrics")
      then options (record o { metrics = true })
      else refused a

  is_help : Bytes → Bool
  is_help a = bytes_eq a (codes "--help") || bytes_eq a (codes "-h")

  is_switch : Bytes → Bool
  is_switch a = bytes_eq a (codes "--no-stream") || bytes_eq a (codes "--metrics")

  -- The loop over `argv`.
  unfoldable pub parse : List Bytes → CliOptions D → Parsed D
  unfolding with_value switch is_help is_switch
  parse [] o = options o
  parse (a ∷ []) o = if is_help a then help else switch a o
  parse (a ∷ v ∷ args) o =
      let rest_switch = λ (o' : CliOptions D). parse (v ∷ args) o' in
      let rest_value = λ (o' : CliOptions D). parse args o' in
      if is_help a
      then help
      else if is_switch a
      then elim (switch a o) [ help ↦ help | refused b ↦ refused b | options o' ↦ rest_switch o' ]
      else elim (with_value a v o) [
        | help ↦ help
        | refused b ↦ refused b
        | options o' ↦ rest_value o'
      ]

  max_tokens_field : ℤ → Bytes
  max_tokens_field (pos (suc n)) = codes ",\"max_tokens\":" ++ to_string (suc n)
  max_tokens_field _ = []

  unfoldable pub numbers_fields : CliOptions D → Bytes
  unfolding max_tokens_field
  numbers_fields o =
      max_tokens_field o.max_tokens
      ++ (if o.has_temperature
          then codes ",\"temperature\":" ++ numbers.print o.temperature
          else [])
      ++ (if o.has_top_p then codes ",\"top_p\":" ++ numbers.print o.top_p else [])

  -- The request for a prompt, as JSON.
  unfoldable pub request : CliOptions D → Bytes
  unfolding numbers_fields
  request o =
      codes "{\"id\":\""
      ++ json_escape o.id
      ++ codes "\","
      ++ codes "\"prompt\":\""
      ++ json_escape o.prompt
      ++ codes "\","
      ++ codes "\"stream\":"
      ++ (if o.stream then codes "true" else codes "false")
      ++ numbers_fields o
      ++ codes "}"

  unfoldable pub payload : CliOptions D → Bytes
  unfolding request
  payload o = if o.metrics then codes "{\"type\":\"metrics\"}" else request o
