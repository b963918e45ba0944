-- ===== src/Ipc/Manager/Tests.antt =====
-- A manager that two clients come to, with a request of the first.
use uma_serve.Base.{
  bytes_eq, ◌++◌, append-nil, arith, ℕ, ◌≡◌, refl, List, [], ◌∷◌, none, some, ◌==◌, Bytes, codes,
}
use uma_serve.Ipc.Json.{extract_json_string}
use uma_serve.Ipc.Session.Lookup.{IsKeyed}
use uma_serve.Ipc.Manager.Pipelined.{received, read_session-frame}
use uma_serve.Ipc.Manager.{
  Drained, read_session, drain, ReadCall, assign, add_client, new_session, close, on_readable,
}
use uma_serve.Ipc.Manager.Sequences.{
  Event, initial, IsAllocated, initial-IsAllocated, after_event, after_events,
  after_events-IsAllocated,
}
use uma_serve.Ipc.Protocol.{try_read_frame, write_frame}
use uma_serve.Ipc.Request.{handle_request, nothing_to_do, Numbers}
use uma_serve.Ipc.Session.{ClientSession, find, store}
use uma_serve.Runtime.Config.{default_config}
use uma_serve.Runtime.Tokens.{Vocab}

-- Each byte is a token.
abbrev vocab : Vocab
vocab = record {
  llama_tokenize = λ text _ _. some text;
  llama_token_to_piece = λ t _ _. some (t ∷ []);
  llama_vocab_is_eog = λ t. t == 0;
  llama_vocab_n_tokens = 256;
}

abbrev numbers : Numbers ℕ
numbers = record {
  strtod = λ text. none;
  to_int32 = λ d. d;
  default_temperature = 0;
  default_top_p = 1;
}

abbrev request : Bytes
request = write_frame [] (codes "{\"id\":\"r1\",\"prompt\":\"hi\"}")

abbrev events : List Event
events =
    Event.accepted 7 1
    ∷ Event.accepted 8 2
    ∷ Event.readable 7 3 (ReadCall.got request ∷ [])
    ∷ Event.readable 8 4 (ReadCall.got request ∷ ReadCall.eof ∷ [])
    ∷ Event.shut 7
    ∷ []

-- The two requests take the sequences 1 and 2.
next_seq_id_test : (after_events default_config vocab numbers events initial).next_seq_id ≡ 3
unfolding after_events on_readable extract_json_string after_event close find add_client assign
    store try_read_frame new_session write_frame bytes_eq
next_seq_id_test = refl

after_events-IsAllocated_example :
    IsAllocated (after_events default_config vocab numbers events initial)
after_events-IsAllocated_example =
    after_events-IsAllocated default_config vocab numbers events initial (initial-IsAllocated ℕ)

-- Two requests in one read: the first is handled, the second stays.
abbrev first_json : Bytes
first_json = codes "{\"id\":\"r1\",\"prompt\":\"hi\"}"

abbrev both : List ReadCall
both = ReadCall.got (request ++ request) ∷ []

abbrev drained : ClientSession ℕ
drained = (drain 3 both (new_session numbers 7 1)).0

drain-both : (drain 3 both (new_session numbers 7 1)).1 ≡ Drained.blocked
unfolding drain
drain-both = refl

received-both : (new_session numbers 7 1).rx ++ received both ≡ request ++ request
unfolding new_session
received-both = rw append-nil

read_session-frame_example :
    (read_session default_config vocab numbers 3 both 1 (new_session numbers 7 1)
      ≡ handle_request default_config vocab numbers 3 first_json (record {
        session = record drained { rx = request };
        result = nothing_to_do;
        next_seq_id = 1;
      }))
    × ((read_session default_config vocab numbers 3 both 1 (new_session numbers 7 1)).session.rx
        ≡ request)
read_session-frame_example =
    read_session-frame default_config vocab numbers 3 both 1 (new_session numbers 7 1) first_json
      request drain-both received-both (omega arith) (omega arith)

-- The empty map.
initial-IsKeyed : IsKeyed (initial {D = ℕ}).sessions
initial-IsKeyed = record { own = tt; distinct = tt }
