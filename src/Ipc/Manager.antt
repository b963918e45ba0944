-- ===== src/Ipc/Manager.antt =====
-- ipc/session_manager.cpp: sessions are added, closed, and fed with what a descriptor has to read.
pub mod Sequences
pub mod Pipelined
pub mod Keyed
pub mod Output
mod Tests
use uma_serve.Base.{
  ℕ, true, false, List, [], ◌∷◌, ◌++◌, Option, none, some, ◌==◌, if◌then◌else◌, Bytes,
}
use uma_serve.Ipc.Protocol.{default_max_frame_bytes, try_read_frame}
use uma_serve.Ipc.Request.{ReadResult, nothing_to_do, Numbers, Handled, handle_frame}
use uma_serve.Ipc.Session.{ClientSession, SessionPool, SessionState, find, store}
use uma_serve.Runtime.Config.{RuntimeConfig}
use uma_serve.Runtime.Tokens.{Vocab}

-- What `::read` gives: bytes, the end of the stream, `EAGAIN`, or another error.
pub data ReadCall : Type 0 where
  got : Bytes → ReadCall
  eof again failed : ReadCall

-- How the draining of a descriptor ends.
pub data Drained : Type 0 where
  blocked closed broken : Drained

pub record SessionManager (D : Type 0) : Type 0 where
  pub sessions : SessionPool D
  pub next_seq_id : ℕ

-- `sessions_[fd] = s`: the entry is replaced, or put in.
unfoldable pub assign {ℓ} : {A : Type ℓ} → ℕ → A → List (ℕ × A) → List (ℕ × A)
assign fd v [] = (fd, v) ∷ []
assign fd v ((k, s) ∷ pool) = if k == fd then (k, v) ∷ pool else (k, s) ∷ assign fd v pool

-- `sessions_.erase`.
unfoldable pub erase {ℓ} : {A : Type ℓ} → ℕ → List (ℕ × A) → List (ℕ × A)
erase fd [] = []
erase fd ((k, s) ∷ pool) = if k == fd then pool else (k, s) ∷ erase fd pool

-- What `close` does beside the map, in order.
pub data Effect : Type 0 where
  poll_remove_both : ℕ → Effect
  memory_seq_rm : ℕ → Effect
  close_fd : ℕ → Effect

unfoldable pub seq_effect : Option ℕ → List Effect
seq_effect none = []
seq_effect (some seq) = memory_seq_rm seq ∷ []

module _ {D : Type 0} where
  unfoldable pub new_session : Numbers D → ℕ → ℕ → ClientSession D
  new_session numbers fd now_ns = record {
    fd = fd;
    rx = [];
    tx = [];
    seq = none;
    state = SessionState.recv_req;
    prompt_tokens = [];
    prefill_idx = 0;
    has_pending_tok = false;
    pending_tok = 0;
    n_past = 0;
    generated_count = 0;
    last_activity_ns = now_ns;
    wants_stream = true;
    read_closed = false;
    last_error = [];
    slo = record { target_ttft_ms = 150; target_tbt_ms = 80; priority = 5 };
    req_start_ns = 0;
    first_emit_ns = 0;
    last_emit_ns = 0;
    temperature = numbers.default_temperature;
    top_p = numbers.default_top_p;
    top_k = 0;
    request_id = [];
  }

  unfoldable pub add_client : Numbers D → ℕ → ℕ → SessionManager D → SessionManager D
  add_client numbers fd now_ns m = record m {
    sessions = assign fd (new_session numbers fd now_ns) m.sessions;
  }

  -- With the scheduler's context, which is never null.
  unfoldable pub close : ℕ → SessionManager D → SessionManager D × List Effect
  unfolding seq_effect
  close fd m = elim (find fd m.sessions) [
    | none ↦ (m, poll_remove_both fd ∷ close_fd fd ∷ [])
    | some s ↦ (
      record m { sessions = erase fd m.sessions },
      poll_remove_both fd ∷ (seq_effect s.seq ++ close_fd fd ∷ []),
    )
  ]

  -- The loop that reads until the descriptor blocks, ends or fails. Behind the given calls it
  -- blocks.
  pub drain : ℕ → List ReadCall → ClientSession D → ClientSession D × Drained
  drain now_ns [] s = (s, blocked)
  drain now_ns (got bytes ∷ calls) s =
      drain now_ns calls (record s { rx = s.rx ++ bytes; last_activity_ns = now_ns })
  drain now_ns (eof ∷ calls) s = (s, closed)
  drain now_ns (again ∷ calls) s = (s, blocked)
  drain now_ns (failed ∷ calls) s = (s, broken)

module _ {D : Type 0} where
  -- The part behind the read loop.
  pub handle_drained : RuntimeConfig → Vocab → Numbers D → ℕ → Drained → Handled D → Handled D
  unfolding handle_frame
  handle_drained cfg vocab numbers now_ns broken h = record h {
    result = record h.result { removed_read = true };
  }
  handle_drained cfg vocab numbers now_ns blocked h =
      handle_frame cfg vocab numbers now_ns (try_read_frame default_max_frame_bytes h.session.rx) h
  handle_drained cfg vocab numbers now_ns closed h =
      handle_frame cfg vocab numbers now_ns (try_read_frame default_max_frame_bytes h.session.rx)
        (record h {
          session = record h.session { read_closed = true; last_activity_ns = now_ns };
          result = record h.result { removed_read = true };
        })

  -- `on_readable` for a session of the map.
  unfoldable pub read_session :
      RuntimeConfig → Vocab → Numbers D → ℕ → List ReadCall → ℕ → ClientSession D → Handled D
  unfolding drain handle_drained
  read_session cfg vocab numbers now_ns calls next_seq_id s =
      let (s', d) = drain now_ns calls s in
      handle_drained cfg vocab numbers now_ns d
        (record { session = s'; result = nothing_to_do; next_seq_id = next_seq_id })

  -- `on_readable`.
  unfoldable pub on_readable :
      RuntimeConfig
      → Vocab
      → Numbers D
      → ℕ
      → ℕ
      → List ReadCall
      → SessionManager D
      → SessionManager D × ReadResult
  unfolding read_session
  on_readable cfg vocab numbers now_ns fd calls m = elim (find fd m.sessions) [
    | none ↦ (m, nothing_to_do)
    | some s ↦
        let h = read_session cfg vocab numbers now_ns calls m.next_seq_id s in
        (record { sessions = store fd h.session m.sessions; next_seq_id = h.next_seq_id }, h.result)
  ]
