-- ===== src/Ipc/Request.antt =====
-- ipc/session_manager.cpp, the part of `on_readable` behind the read loop: one framed request.
-- The scheduler's vocabulary and the number conversions are parameters.
pub mod Outcome
pub mod Verdict
pub mod Accepted
pub mod Buffer
mod Tests
use uma_serve.Base.{
  ℕ, suc, ◌+◌, ◌%◌, ◌^◌, Bool, true, false, not, ◌&&◌, ◌||◌, List, [], ◌∷◌, ◌++◌, Option, none,
  some, ltb, ◌==◌, if◌then◌else◌, Bytes, bytes_eq, codes, length,
}
use uma_serve.Ipc.Json.{extract_json_string, number_field}
use uma_serve.Ipc.Protocol.{
  FrameError, zero_length, too_large, message, FrameRead, incomplete, invalid, frame,
  default_max_frame_bytes, try_read_frame, append_error_event, append_eos_event,
}
use uma_serve.Ipc.Session.{ClientSession, SessionPool, SessionState, UmaSlo, find, store}
use uma_serve.Runtime.Config.{RuntimeConfig}
use uma_serve.Runtime.Tokens.{Vocab, tokenize}

-- `ReadResult`; its `admin_line` is never set.
pub record ReadResult : Type 0 where
  pub wants_write : Bool
  pub removed_read : Bool
  pub admin_request : Bool

abbrev pub nothing_to_do : ReadResult
nothing_to_do = record { wants_write = false; removed_read = false; admin_request = false }

-- `strtod`, which is `none` where nothing is parsed, the conversion to `int32_t`, and the two
-- default values of a session.
pub record Numbers (D : Type 0) : Type 0 where
  pub strtod : Bytes → Option D
  pub to_int32 : D → ℕ
  pub default_temperature : D
  pub default_top_p : D

-- A session, what its caller is told, and the sequence counter, after `on_readable` went so far.
pub record Handled (D : Type 0) : Type 0 where
  pub session : ClientSession D
  pub result : ReadResult
  pub next_seq_id : ℕ

abbrev pub is_empty : Bytes → Bool
is_empty [] = true
is_empty (c ∷ cs) = false

abbrev pub error_code : FrameError → Bytes
error_code zero_length = codes "E_PROTO_INVALID_LEN"
error_code too_large = codes "E_PROTO_FRAME_TOO_LARGE"

-- The caller is to write, and to stop reading.
abbrev pub write_and_stop : ReadResult → ReadResult
write_and_stop rr = record rr { wants_write = true; removed_read = true }

unfoldable pub is_admin : Bytes → Bool
is_admin js =
    let typ = extract_json_string js (codes "type") in
    let evt = extract_json_string js (codes "event") in
    (not typ.invalid_escape && bytes_eq typ.out (codes "metrics"))
    || (not evt.invalid_escape && bytes_eq evt.out (codes "metrics"))

-- The sequence of a session that has none yet, and the counter.
seq_of : Option ℕ → ℕ → ℕ
seq_of none next = next
seq_of (some seq) next = seq

next_of : Option ℕ → ℕ → ℕ
next_of none next = next + 1
next_of (some seq) next = next

module _ {D : Type 0} where
  -- The five lines that end each refusal: an error event, STREAM, and no more reading.
  unfoldable pub reject : Bytes → Bytes → Bytes → Handled D → Handled D
  reject id code text h = record h {
    session = record h.session {
      tx = append_error_event h.session.tx id code text;
      state = SessionState.stream;
      read_closed = true;
    };
    result = write_and_stop h.result;
  }

  -- A request for the metrics; the caller writes the answer.
  unfoldable pub admit_admin : Handled D → Handled D
  admit_admin h = record h {
    session = record h.session { state = SessionState.stream; read_closed = true };
    result = record (write_and_stop h.result) { admin_request = true };
  }

  or_keep : D → Option D → D
  or_keep d none = d
  or_keep d (some v) = v

  number_of : Numbers D → Bytes → Bytes → Option D
  number_of numbers js key = elim (number_field js key) [
    | none ↦ none
    | some text ↦ numbers.strtod text
  ]

  top_k_of : Numbers D → ℕ → Option D → ℕ
  top_k_of numbers k none = k
  top_k_of numbers k (some v) = numbers.to_int32 v

  -- The sampling preferences that the request gives.
  unfoldable pub prefer : Numbers D → Bytes → ClientSession D → ClientSession D
  unfolding or_keep number_of top_k_of
  prefer numbers js s = record s {
    temperature = or_keep s.temperature (number_of numbers js (codes "temperature"));
    top_p = or_keep s.top_p (number_of numbers js (codes "top_p"));
    top_k = top_k_of numbers s.top_k (number_of numbers js (codes "top_k"));
  }

  -- The prompt is cut into tokens, and the session starts anew.
  unfoldable pub start_prefill : RuntimeConfig → ℕ → List ℕ → Handled D → Handled D
  unfolding seq_of next_of
  start_prefill cfg now_ns tokens h = record h {
    session = record h.session {
      prompt_tokens = tokens;
      prefill_idx = 0;
      generated_count = 0;
      has_pending_tok = false;
      n_past = 0;
      req_start_ns = now_ns;
      first_emit_ns = 0;
      last_emit_ns = 0;
      slo = record h.session.slo {
        target_ttft_ms = cfg.slo_ttft_ms;
        target_tbt_ms = cfg.slo_tbt_ms;
      };
      seq = some (seq_of h.session.seq h.next_seq_id);
      state = SessionState.prefill;
    };
    next_seq_id = next_of h.session.seq h.next_seq_id;
  }

  -- No token: the response is over at once, and the connection stays open.
  unfoldable pub no_tokens : Handled D → Handled D
  no_tokens h = record h {
    session = record h.session {
      prompt_tokens = [];
      state = SessionState.stream;
      tx = append_eos_event h.session.tx h.session.request_id (codes "stop");
    };
    result = record h.result { wants_write = true };
  }

  pub accept_tokens : RuntimeConfig → ℕ → List ℕ → Handled D → Handled D
  unfolding start_prefill no_tokens
  accept_tokens cfg now_ns [] h = no_tokens h
  accept_tokens cfg now_ns (t ∷ tokens) h = start_prefill cfg now_ns (t ∷ tokens) h

  -- A prompt that is not empty, of a request with the given id.
  pub accept_prompt :
      RuntimeConfig → Vocab → Numbers D → ℕ → Bytes → Bytes → Bytes → Handled D → Handled D
  unfolding prefer reject accept_tokens tokenize
  accept_prompt cfg vocab numbers now_ns js req_id prompt h =
      let h' = record h {
        session = prefer numbers js (record h.session { request_id = req_id });
      } in
      if ltb cfg.max_prompt_bytes (length prompt)
      then reject req_id (codes "E_LIMIT_001") (codes "prompt too large") h'
      else accept_tokens cfg now_ns (tokenize vocab prompt true true) h'

  -- One framed request.
  unfoldable pub handle_request :
      RuntimeConfig → Vocab → Numbers D → ℕ → Bytes → Handled D → Handled D
  unfolding is_admin admit_admin reject accept_prompt
  handle_request cfg vocab numbers now_ns js h =
      let id = extract_json_string js (codes "id") in
      let prompt = extract_json_string js (codes "prompt") in
      if is_admin js
      then admit_admin h
      else if id.invalid_escape || prompt.invalid_escape
      then reject id.out (codes "E_PROTO_001") (codes "invalid utf-8") h
      else if is_empty prompt.out
      then reject id.out (codes "E_PROTO_BAD_REQUEST") (codes "missing or invalid prompt") h
      else accept_prompt cfg vocab numbers now_ns js id.out prompt.out h

  -- What `try_read_frame` found in `rx`.
  unfoldable pub handle_frame :
      RuntimeConfig → Vocab → Numbers D → ℕ → FrameRead → Handled D → Handled D
  unfolding handle_request reject
  handle_frame cfg vocab numbers now_ns incomplete h = h
  handle_frame cfg vocab numbers now_ns (invalid e) h =
      reject h.session.request_id (error_code e) (message e) h
  handle_frame cfg vocab numbers now_ns (frame js rest) h =
      handle_request cfg vocab numbers now_ns js
        (record h { session = record h.session { rx = rest } })
