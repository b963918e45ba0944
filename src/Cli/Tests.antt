-- ===== src/Cli/Tests.antt =====
-- Requests and responses of small sessions of the client.
use uma_serve.Base.{
  bytes_eq, drop, ◌≤◌, length, map, none, arith, false, true, refl, ◌++◌, ℕ, ◌^◌, ◌<◌, ◌≡◌, ap,
  List, [], ◌∷◌, some, append-nil, All, Bytes, codes,
}
use uma_serve.Base.Integers.{pos}
use uma_serve.Cli.Events.{eof, at_header, receive, json_get_string}
use uma_serve.Cli.Client.{
  Write, send_all, ConnectAnswers, connected, connect_uds, gen_default_id, main,
}
use uma_serve.Cli.Client.Answered.{identified, stdout, stderr, IsTexts, main_answered}
use uma_serve.Cli.Events.Onto.{spoken}
use uma_serve.Cli.Events.Spoken.{
  Moment, sample_at, writable, samples, reason_of, replied, response_spoken, Reply, reply,
  after_moment,
}
use uma_serve.Cli.Events.Texts.{event}
use uma_serve.Cli.Events.Response.{
  IsCutting, deliver_all, bytes_of, Tokens, written, payloads, printed, response_received,
}
use uma_serve.Cli.Options.{request, CliNumbers, CliOptions, default_options, payload, Parsed, parse}
use uma_serve.Cli.Options.Handled.{handle_frame-payload}
use uma_serve.Cli.Options.Passed.{IsUnquoted}
use uma_serve.Ipc.Request.{Numbers, Handled, nothing_to_do, accept_prompt, handle_frame}
use uma_serve.Ipc.Session.{ClientSession, SessionState}
use uma_serve.Umad.Session.{WriteCall, flush}
use uma_serve.Sched.Results.Spoken.{first_sample}
use uma_serve.Runtime.Config.{default_config}
use uma_serve.Runtime.Tokens.{Vocab, token_to_piece_str}
use uma_serve.Sched.Tests.{backend, session}
use uma_serve.Ipc.Json.Escaped.{read_back}
use uma_serve.Ipc.Json.Keys.{names}
use uma_serve.Ipc.Protocol.{
  default_max_frame_bytes, try_read_frame, write_frame, json_escape, to_string,
}

abbrev numbers : CliNumbers ℕ
numbers = record {
  atoi = λ text. pos (length text);
  atof = λ text. length text;
  print = λ d. codes "0.500000";
  zero_point = 0;
  one_point = 1;
}

-- The id is the key under which the prompt is searched.
abbrev options : CliOptions ℕ
options = record (default_options numbers) {
  id = codes "prompt";
  prompt = codes "say \"hi\"";
  max_tokens = pos 5;
  has_top_p = true;
}

-- A payload is read in two calls, the first of which gives one byte.
abbrev cut : Bytes → List Bytes
cut [] = []
cut (c ∷ []) = (c ∷ []) ∷ []
cut (c ∷ d ∷ cs) = (c ∷ []) ∷ (d ∷ cs) ∷ []

cut-IsCutting : IsCutting cut
cut-IsCutting [] = record { whole = refl; proper = tt }
cut-IsCutting (c ∷ []) = record { whole = refl; proper = (omega arith, tt) }
cut-IsCutting (c ∷ d ∷ cs) = record {
  whole = ap (λ x. c ∷ d ∷ x) (append-nil cs);
  proper = (omega arith, (omega arith, tt));
}

abbrev tokens : Tokens
tokens = (codes "Hi", 7) ∷ (codes "!\n", 9) ∷ []

short : All (λ js. length js < 2 ^ 32) (payloads (codes "r1") tokens (codes "stop"))
unfolding payloads event json_escape to_string
short = (omega arith, (omega arith, (omega arith, tt)))

id_fits : names (codes "text") (codes "r1") ≡ false
unfolding names bytes_eq
id_fits = refl

response_received_example :
    let reads = deliver_all cut (payloads (codes "r1") tokens (codes "stop")) in
    (bytes_of reads ≡ written [] (codes "r1") tokens (codes "stop"))
    × (receive false at_header (reads ++ eof false ∷ [])
        ≡ record { prints = printed tokens; exit_code = some 0 })
response_received_example =
    response_received cut cut-IsCutting (codes "r1") (codes "stop") tokens (eof false ∷ []) id_fits
      short

-- The text of every token event of a request with the id `text` is taken to be `token`.
text_id_test :
    json_get_string
      (event (codes "text") (codes ",\"event\":\"token\",\"text\":\"Hi\"}"))
      (codes "text")
    ≡ codes "token"
unfolding json_get_string event json_escape
text_id_test = refl

options-short : length (payload numbers options) ≤ 1000
unfolding payload request json_escape to_string
options-short = omega arith

print-IsUnquoted : (d : ℕ) → IsUnquoted (numbers.print d)
print-IsUnquoted d = ground arith

no_metrics : bytes_eq (map read_back options.prompt) (codes "metrics") ≡ false
unfolding bytes_eq
no_metrics = refl

abbrev waiting : Handled ℕ
waiting = record {
  session = session 7 SessionState.recv_req [];
  result = nothing_to_do;
  next_seq_id = 1;
}

abbrev vocab : Vocab
vocab = (backend true).vocab

abbrev conversions : Numbers ℕ
conversions = record {
  strtod = λ text. none;
  to_int32 = λ d. d;
  default_temperature = 0;
  default_top_p = 1;
}

handle_frame-payload_example :
    handle_frame default_config vocab conversions 5
      (try_read_frame default_max_frame_bytes (write_frame [] (payload numbers options) ++ 9 ∷ []))
      waiting
    ≡ accept_prompt default_config vocab conversions 5
        (payload numbers options)
        (map read_back (codes "prompt"))
        (map read_back (codes "say \"hi\""))
        (record waiting { session = record waiting.session { rx = 9 ∷ [] } })
handle_frame-payload_example =
    handle_frame-payload numbers print-IsUnquoted default_config vocab conversions 5
      default_max_frame_bytes options (9 ∷ []) waiting refl refl no_metrics
      (omega (arith, options-short)) (omega (arith, options-short))

-- "Hi" from two samples, with a write between them that the socket takes in part, and an end.
abbrev moments : List Moment
moments = sample_at b'i' 6 ∷ writable (WriteCall.wrote 3 7 ∷ WriteCall.again ∷ []) ∷ []

abbrev asked : ClientSession ℕ
asked = session 7 SessionState.prefill (1 ∷ 2 ∷ [])

abbrev limit : ℕ
limit = 5

ends_at : (backend true).vocab.llama_vocab_is_eog 0 ≡ true
ends_at = refl

-- Behind the last sample the socket takes all that is left.
abbrev ended : Reply ℕ
ended = after_moment (backend true) 0 none limit (sample_at 0 8) (
    reply (backend true) 0 none limit moments
      (record { sent = []; session = first_sample (backend true) 0 none limit b'H' 5 asked }))

abbrev last_writes : List WriteCall
last_writes = WriteCall.wrote (length ended.session.tx) 9 ∷ []

drop_all : (tx : Bytes) → drop (length tx) tx ≡ []
drop_all [] = refl
drop_all (b ∷ tx) = drop_all tx

flush_all : (s : ClientSession ℕ) → (flush (WriteCall.wrote (length s.tx) 9 ∷ []) s).0.tx ≡ []
unfolding flush
flush_all s = ground (arith, drop_all s.tx)

flushed : (replied (backend true) 0 none limit b'H' 5 moments 0 8 last_writes asked).session.tx ≡ []
unfolding replied after_moment
flushed = flush_all ended.session

short_spoken :
    All
      (λ js. length js < 2 ^ 32)
      (payloads asked.request_id
        (spoken (backend true) (b'H' ∷ samples moments))
        (reason_of limit 1))
unfolding payloads spoken event json_escape to_string token_to_piece_str
short_spoken = (omega arith, (omega arith, (omega arith, tt)))

response_spoken_example :
    let tokens = spoken (backend true) (b'H' ∷ samples moments) in
    let reads = deliver_all cut (payloads asked.request_id tokens (reason_of limit 1)) in
    ((replied (backend true) 0 none limit b'H' 5 moments 0 8 last_writes asked).sent
      ≡ bytes_of reads)
    × (receive false at_header (reads ++ eof false ∷ [])
        ≡ record { prints = printed tokens; exit_code = some 0 })
response_spoken_example =
    response_spoken (backend true) 0 none limit cut b'H' 5 moments 0 8 last_writes asked
      (eof false ∷ []) cut-IsCutting (omega arith) refl refl (refl, tt) (omega arith) refl flushed
      id_fits short_spoken

abbrev args : List Bytes
args = codes "--prompt" ∷ codes "hi" ∷ codes "--id" ∷ codes "r1" ∷ []

abbrev parsed_options : CliOptions ℕ
parsed_options = record (default_options numbers) { id = codes "r1"; prompt = codes "hi" }

abbrev connection : ConnectAnswers
connection = record { socket = some 5; sun_path_size = 108; connects = true }

args-parsed : parse numbers args (default_options numbers) ≡ Parsed.options parsed_options
unfolding parse bytes_eq
args-parsed = refl

is_connected : connect_uds connection parsed_options.socket_path ≡ connected 5
unfolding connect_uds
is_connected = refl

is_sent :
    send_all (Write.wrote 7 ∷ Write.interrupted ∷ Write.wrote 1000 ∷ []) (
      write_frame [] (
        payload numbers (identified numbers (codes "uma-cli") (gen_default_id 1 2) parsed_options)))
    ≡ some true
unfolding send_all write_frame payload request json_escape to_string
is_sent = refl

tokens-IsTexts : IsTexts tokens
tokens-IsTexts = ground arith

main_answered_example :
    let run =
      main numbers
        (codes "uma-cli")
        1
        2
        connection
        args
        (Write.wrote 7 ∷ Write.interrupted ∷ Write.wrote 1000 ∷ [])
        (deliver_all cut (payloads (codes "r1") tokens (codes "stop")) ++ eof false ∷ []) in
    (stdout run.prints ≡ codes "Hi!\n\n")
    × (stderr run.prints ≡ [])
    × (run.exit_code ≡ some 0)
    × (run.opened ≡ 5 ∷ [])
    × (run.closed ≡ 5 ∷ [])
main_answered_example =
    main_answered numbers (codes "uma-cli") 1 2 connection args parsed_options 5
      (Write.wrote 7 ∷ Write.interrupted ∷ Write.wrote 1000 ∷ []) cut (codes "r1") (codes "stop")
      tokens (eof false ∷ []) args-parsed refl refl is_connected is_sent cut-IsCutting id_fits short
      tokens-IsTexts
