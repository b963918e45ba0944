-- ===== src/Umad/Session.antt =====
-- umad/main.cpp: what the loop does to one session and reads of the sessions: the writing of its
-- output, the end of a response, the idle timeout and how long to wait for events.
pub mod Sent
use uma_serve.Base.{
  ℕ, ◌+◌, ◌-◌, ◌*◌, ◌^◌, Bool, true, false, ◌&&◌, ◌||◌, List, [], ◌∷◌, ltb, if◌then◌else◌, drop,
}
use uma_serve.Ipc.Session.{ClientSession, SessionPool, SessionState, errored, stream}
use uma_serve.Sched.Bmt.{u64}
use uma_serve.Sched.Policy.{is_decode_ready, is_prefill_ready}
use uma_serve.Sched.Results.{is_empty}

-- A call of `write`: so many bytes, with the time behind it, `EAGAIN`, or another error.
pub data WriteCall : Type 0 where
  wrote : ℕ → ℕ → WriteCall
  again failed : WriteCall

-- What the end of a response means for its session.
pub data Ending : Type 0 where
  stays closes starts_over : Ending

unfoldable pub ending : SessionState → Bool → Ending
ending errored read_closed = closes
ending stream true = closes
ending stream false = starts_over
ending _ read_closed = stays

module _ {D : Type 0} where
  -- The fields that are set when a session waits for its next request.
  unfoldable pub start_over : ClientSession D → ClientSession D
  start_over s = record s {
    state = SessionState.recv_req;
    prompt_tokens = [];
    prefill_idx = 0;
    generated_count = 0;
    has_pending_tok = false;
    n_past = 0;
    req_start_ns = 0;
    first_emit_ns = 0;
    last_emit_ns = 0;
  }

  -- `has_ready_work`.
  unfoldable pub has_ready_work : SessionPool D → Bool
  has_ready_work [] = false
  has_ready_work ((k, s) ∷ pool) = is_prefill_ready s || is_decode_ready s || has_ready_work pool

  unfoldable pub wait_ms : SessionPool D → ℕ
  unfolding has_ready_work
  wait_ms sessions = if has_ready_work sessions then 0 else 200 * 1000 * 1000

  -- `to_close`: the sessions that were idle for too long. The difference of the times wraps.
  unfoldable pub idle_fds : ℕ → ℕ → SessionPool D → List ℕ
  idle_fds idle_ns now [] = []
  idle_fds idle_ns now ((k, s) ∷ pool) =
      if ltb 0 idle_ns && ltb idle_ns (u64 (now + 2 ^ 64 - s.last_activity_ns))
      then s.fd ∷ idle_fds idle_ns now pool
      else idle_fds idle_ns now pool

  -- The loop `while (!s.tx.empty())` of a writable descriptor; `false` for an error that is not
  -- `EAGAIN`.
  unfoldable pub flush : List WriteCall → ClientSession D → ClientSession D × Bool
  flush [] s = (s, true)
  flush (wrote n now ∷ calls) s =
      if is_empty s.tx
      then (s, true)
      else flush calls (record s { tx = drop n s.tx; last_activity_ns = now })
  flush (again ∷ calls) s = (s, true)
  flush (failed ∷ calls) s = (s, is_empty s.tx)

  -- The one `write` right behind a request.
  unfoldable pub write_now : List WriteCall → ClientSession D → ClientSession D
  write_now (wrote n now ∷ calls) s = record s { tx = drop n s.tx }
  write_now _ s = s
