-- ===== src/Umad/Process.antt =====
-- umad/main.cpp: `main`, from its arguments to its exit code, with what it acquires and releases, in
-- order. The loop is one effect, until the flag is set, with the descriptors of the clients whose
-- sessions are left then; it is the subject of Umad/Loop.

pub mod Holds
pub mod Released
mod Tests
use uma_serve.Base.{
  ℕ, suc, Bool, true, false, List, [], ◌∷◌, ◌++◌, map, Option, none, some, Bytes, bytes_eq, codes,
  if◌then◌else◌,
}
use uma_serve.Base.Integers.{ℤ, pos, negsuc}
use uma_serve.Ipc.Poller.{Change, add, read_flag}
use uma_serve.Ipc.Poller.Calls.{make_poller, close_poller}
use uma_serve.Ipc.Protocol.{to_string}
use uma_serve.Ipc.Server.{Call, Platform, OpenAnswers, UdsServer, init, open_listen, destroy}
use uma_serve.Runtime.Config.{RuntimeConfig}
use uma_serve.Runtime.Config.Args.{FromArgs, CLib, from_args, parsed}
use uma_serve.Runtime.Model.{LlamaLib, ModelHandle, Outcome, threw, returned, new_context}
use uma_serve.Runtime.Model as Model
use uma_serve.Util.Logging.{LogLevel, error, info, debug}

pub data Effect : Type 0 where
  -- A statement of the log, with the values that it puts.
  logs : LogLevel → List Bytes → Effect
  out err : Bytes → Effect
  handlers_installed backend_init backend_free : Effect
  model_loaded model_freed context_made context_freed : Effect
  socket : Call → Effect
  queue_made queue_closed : ℕ → Effect
  changes : ℕ → List Change → Effect
  -- The loop, and the clients' descriptors that are open when it is left.
  served : List ℕ → Effect

-- How a scope is left.
pub data Exit : Type 0 where
  exits : ℕ → Exit
  throws : Bytes → Exit

pub record Run : Type 0 where
  pub effects : List Effect
  pub exit : Exit

-- `LlamaBackendGuard`, its constructor and its destructor, the destructor of `ModelHandle`, and the
-- deleter of a context.
abbrev init_backend : List Effect
init_backend = backend_init ∷ []

abbrev free_backend : List Effect
free_backend = backend_free ∷ []

abbrev free_model : List Effect
free_model = model_freed ∷ []

abbrev free_context : List Effect
free_context = context_freed ∷ []

-- What comes before a scope, and its destructors behind it, also where it is left by an exception.
pub around : List Effect → Run → List Effect → Run
around front r back = record r { effects = front ++ (r.effects ++ back) }

-- What the operating system and llama.cpp answer, and the descriptors of the sessions that are there
-- when the loop is left.
pub record World (llama : LlamaLib) : Type 0 where
  pub exists : Bytes → Bool
  pub platform : Platform
  pub opens : OpenAnswers
  pub fl_flags : Option ℕ
  pub kqueue : Option ℕ
  pub clients : List ℕ
  pub llama_print_system_info : Bytes
  pub llama_n_ctx : llama.Context → ℕ
  pub llama_n_batch : llama.Context → ℕ
  pub llama_n_ubatch : llama.Context → ℕ
  pub llama_n_seq_max : llama.Context → ℕ
  pub llama_model_has_encoder : llama.Model → Bool

shown : ℤ → Bytes
shown (pos n) = to_string n
shown (negsuc n) = b'-' ∷ to_string (suc n)

on_off : Bool → Bytes
on_off b = if b then codes "on" else codes "off"

-- `print_usage`.
usage : Effect
usage = out (
    codes "umad - UMA Serve runtime daemon (M1 foundations)\n"
    ++ (codes "Usage: umad --model /path/model.gguf [--n-ctx 4096] [--threads N] [--mlock] "
        ++ (codes "[--{no-}mmap] [--socket /tmp/uma.sock] [--max-sessions N] [--max-tokens N]\n\n"
            ++ codes
                "Env: UMA_MODEL, UMA_N_CTX, UMA_THREADS, UMA_USE_MMAP, UMA_USE_MLOCK, UMA_SOCK\n")))

-- The three bytes of an ellipsis.
ellipsis : Bytes
ellipsis = 226 ∷ 128 ∷ 166 ∷ []

module _ (lib : CLib) (llama : LlamaLib) (world : World llama) where
  -- With everything made: the loop, and the way out, which closes no client's descriptor.
  run_loop : RuntimeConfig → Run
  unfolding ellipsis
  run_loop cfg = record {
    effects =
        logs info (
          codes "Ready. Use framed JSON over UDS at "
          ∷ cfg.socket_path
          ∷ codes " (see README client snippet or uma-cli)."
          ∷ [])
        ∷ served world.clients
        ∷ logs info ((codes "Shutdown requested. Draining & cleaning up" ++ ellipsis) ∷ [])
        ∷ logs info (codes "Goodbye." ∷ [])
        ∷ [];
    exit = exits 0;
  }

  -- The listening socket is watched; without one there is nothing to watch.
  watch : ℕ → Option ℕ → List Effect
  watch handle none = []
  watch handle (some fd) = changes handle (add fd read_flag) ∷ []

  with_poller : RuntimeConfig → Option ℕ → Outcome ℕ → Run
  unfolding run_loop watch
  with_poller cfg fd (threw what) = record { effects = []; exit = throws what }
  with_poller cfg fd (returned handle) =
      around (queue_made handle ∷ watch handle fd) (run_loop cfg)
        (map queue_closed (close_poller handle))

  with_server : RuntimeConfig → UdsServer × Bool → Run
  unfolding with_poller
  with_server cfg (server, listens) =
      around (map socket server.calls)
        (if listens then with_poller cfg server.listen_fd (make_poller world.kqueue) else record {
          effects = logs error (codes "Failed to open UDS listen socket" ∷ []) ∷ [];
          exit = exits 2;
        })
        (map socket (destroy (record server { calls = [] })).calls)

  context_logs : RuntimeConfig → llama.Model → llama.Context → List Effect
  context_logs cfg m ctx =
      logs info (
        codes "Context ready: n_ctx_resolved="
        ∷ to_string (world.llama_n_ctx ctx)
        ∷ codes " n_batch_resolved="
        ∷ to_string (world.llama_n_batch ctx)
        ∷ codes " n_ubatch_resolved="
        ∷ to_string (world.llama_n_ubatch ctx)
        ∷ codes " n_threads="
        ∷ shown cfg.n_threads
        ∷ [])
      ∷ logs debug (
          codes "model_has_encoder="
          ∷ (if world.llama_model_has_encoder m then codes "true" else codes "false")
          ∷ codes " n_seq_max="
          ∷ to_string (world.llama_n_seq_max ctx)
          ∷ [])
      ∷ []

  -- With the context of the model.
  with_context : RuntimeConfig → llama.Model → Outcome llama.Context → Run
  unfolding with_server context_logs
  with_context cfg m (threw what) = record { effects = []; exit = throws what }
  with_context cfg m (returned ctx) =
      around (context_made ∷ context_logs cfg m ctx)
        (with_server cfg (
          open_listen world.platform world.opens world.fl_flags
            (init cfg.socket_path cfg.socket_mode)))
        free_context

  model_logs : RuntimeConfig → List Effect
  unfolding shown on_off
  model_logs cfg =
      logs info (codes "Model loaded: " ∷ cfg.model_path ∷ [])
      ∷ logs info (
          codes "n_ctx="
          ∷ to_string cfg.n_ctx
          ∷ codes " threads="
          ∷ shown cfg.n_threads
          ∷ codes " mmap="
          ∷ on_off cfg.use_mmap
          ∷ codes " mlock="
          ∷ on_off cfg.use_mlock
          ∷ codes " kv_unified="
          ∷ on_off cfg.kv_unified
          ∷ [])
      ∷ []

  with_model : RuntimeConfig → Outcome (ModelHandle llama) → Run
  unfolding with_context model_logs
  with_model cfg (threw what) = record { effects = []; exit = throws what }
  with_model cfg (returned h) =
      around (model_loaded ∷ model_logs cfg) (with_context cfg h.model (new_context llama h))
        free_model

  -- The configuration has a path that exists.
  with_backend : RuntimeConfig → Run
  unfolding with_model ellipsis
  with_backend cfg =
      around
        (logs info ((codes "UMA Serve daemon starting" ++ ellipsis) ∷ [])
          ∷ logs debug (codes "llama.cpp system info:\n" ∷ world.llama_print_system_info ∷ [])
          ∷ handlers_installed
          ∷ init_backend)
        (with_model cfg (Model.init llama cfg cfg.model_path)) free_backend

  with_config : RuntimeConfig → Bytes → Run
  unfolding with_backend usage
  with_config cfg [] = record {
    effects = err (codes "Error: --model or UMA_MODEL is required.\n") ∷ usage ∷ [];
    exit = exits 2;
  }
  with_config cfg (c ∷ path) = if world.exists (c ∷ path) then with_backend cfg else record {
    effects = err (codes "Error: model file not found: " ++ (cfg.model_path ++ codes "\n")) ∷ [];
    exit = exits 2;
  }

  configured : FromArgs → Run
  unfolding with_config usage
  configured (parsed cfg) = with_config cfg cfg.model_path
  configured (FromArgs.threw what) =
      if bytes_eq what (codes "help")
      then record { effects = usage ∷ []; exit = exits 0 }
      else record {
        effects = err (codes "Argument error: " ++ (what ++ codes "\n")) ∷ usage ∷ [];
        exit = exits 2;
      }

  -- The exception that leaves the scopes.
  caught : Run → List Effect × ℕ
  caught r = elim r.exit [
    | exits code ↦ (r.effects, code)
    | throws what ↦ (r.effects ++ logs error (codes "Fatal error: " ∷ what ∷ []) ∷ [], 1)
  ]

  pub main : List Bytes → List Effect × ℕ
  unfolding configured caught
  main args = caught (configured (from_args lib args))
