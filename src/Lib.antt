-- ===== src/Lib.antt =====
-- uma-serve: a daemon that serves several local clients from one llama.cpp context. Clients send
-- framed JSON requests over a Unix socket; the session manager reads them and cuts prompts into
-- tokens; once per turn of the event loop the scheduler plans a batch over all sessions, has it
-- decoded, samples, and queues the events that go back to the clients.
--
-- The parts, and the files that model them:
--   Ipc/Protocol: src/ipc/protocol.cpp. Frames, JSON escaping and the event builders. What
--     `try_read_frame` leaves in its output arguments is a `FrameRead`.
--   Ipc/Json, Ipc/Request: src/ipc/session_manager.cpp, `on_readable` behind its read loop: the
--     extraction of fields (Json), and what one request does to its session (Request).
--   Ipc/Session, Ipc/Manager: src/ipc/session.h and the rest of session_manager.cpp: the session,
--     the map of sessions, `add_client`, `close`, and the read loop of `on_readable`, which is fed
--     with the explicit sequence of what `read` returns.
--   Util/Utf8: src/util/utf8.h, `is_valid_utf8`; Util/Utf8/Encoding says what UTF-8 is.
--   Ipc/Server: src/ipc/uds_server.cpp, the listening socket: its operations over what the system
--     calls answer, with the log of the calls that change something.
--   Ipc/Poller: src/ipc/poller.h and src/ipc/poller_kqueue.cpp: the changes that are asked of the
--     kernel's queue, and its events put together by descriptor, in the order in which they come
--     (the code iterates a hash map, so each order of the kernel's events is one that may occur);
--     in Calls, what the poller returns for what the kernel answers, and the timeout.
--   Util/Logging: src/util/logging.h, the level and a line of the log.
--   Runtime: src/runtime/config.h, config.cpp (Args), tokens.cpp and model.cpp.
--   Metrics: src/metrics/metrics.h, the counters, and src/metrics/metrics.cpp (Snapshot), their
--     printing as JSON.
--   Sched/Policy: src/sched/policy.cpp, `BaselinePolicy::schedule_tick`, which makes the plan.
--   Sched/Bmt: src/sched/bmt.cpp, the cost estimate of a plan.
--   Sched/Guard, Sched/Batch, Sched/Results, Sched/Scheduler: src/sched/scheduler.cpp. `tick` trims
--     the plan (Guard), turns it into a batch (Batch), has it decoded and updates metrics and
--     target (Scheduler), and deals with failure or the sampled tokens (Results).
--   Sched/Sampling: src/sched/sampling.cpp, the sampler.
--   Umad: src/umad/main.cpp. Process is `main`, with what it makes, logs and releases, around the
--     loop, which is one effect there, with the descriptors of the clients that are there when it
--     is left. Loop is one turn of the loop over a `Daemon`: the session
--     manager, the scheduler and the log of the changes that the poller was asked for; Session is
--     what the loop does to one session. What `kevent`, `accept`, `read`, `write` and the clock
--     give is in the `Wakeup` of a turn, so a run of the loop is a list of them. `client_read`
--     calls the session manager's `on_readable`, `close_session` its `close`, and `tick_and_arm`
--     the scheduler's `tick`.
--   Cli: src/cli/main.cpp, the client: its flags and its request (Options), the events that it
--     receives over the explicit sequence of what `read` gives (Events), and its `main` (Client).
--   Sched/Backend: what `tick` uses of llama.cpp, of `double` and of the sampler: parameters.
-- The files below each of these hold its theorems, and those called Tests the test data and runs.
--
-- Bytes, tokens, positions, counters and times are natural numbers. Arithmetic of unsigned types
-- that can pass their width in the code is written with its wrap-around; `size_t` has 64 bits. A
-- `double` is an abstract type with operations as parameters. The map of sessions is a list of
-- pairs in its order of iteration. The loops are recursions on the lists and counts they run
-- over; only the printing of numbers has fuel: in decimal one more than the number, which is more
-- than its digits, and in octal the 11 digits that an `unsigned` of 32 bits has at most.
--
-- Not modelled: the delivery of signals, which is the end of a list of turns; that a call which
-- changes the poller fails while the loop runs; debug output within the loop; the bound of the 32-bit
-- sequence counter, whose overflow is undefined in the code; the test programs. Of
-- the operating system, llama.cpp, the C library, floating-point arithmetic, `std::partial_sort` and
-- the random numbers, what the code uses is a parameter or an argument.
mod Base
pub mod Ipc
pub mod Util
pub mod Runtime
pub mod Metrics
pub mod Sched
pub mod Umad
pub mod Cli
