-- ===== src/Umad/Process/Released.antt =====
-- What the daemon acquires it releases, in the reverse order, however `main` is left; the descriptors
-- of the clients it leaves open.
use uma_serve.Base.{
  sym, ◌++◌, ℕ, ◌≡◌, ◌≢◌, append-nil, refl, ap, ◌∙◌, inl, inr, Bool, true, false, List, [], ◌∷◌,
  map, Option, none, some, arith, Bytes, bytes_eq, codes, Bool-cases, if◌then◌else◌,
}
use uma_serve.Ipc.Poller.Calls.{make_poller, close_poller}
use uma_serve.Ipc.Server.{UdsServer, open_listen, destroy, init}
use uma_serve.Ipc.Server.Descriptors.{descriptors}
use uma_serve.Ipc.Server.Tidy.{held, IsTidy}
use uma_serve.Ipc.Server.Lifetime.{Reached, made, opened, server_descriptors, destroy-closes}
use uma_serve.Runtime.Config.{RuntimeConfig}
use uma_serve.Runtime.Config.Args.{FromArgs, CLib, from_args, parsed}
use uma_serve.Runtime.Model.{LlamaLib, ModelHandle, Outcome, threw, returned, new_context}
use uma_serve.Runtime.Model as Model
use uma_serve.Util.Logging.{error}
use uma_serve.Umad.Process.Holds.{
  Resource, backend, model, context, with_descriptors, holds_after, holds-append, Leads, Ends,
  left_by, Holds, serves, serves-append, serves-socket, around-Ends, holds-socket,
}
use uma_serve.Umad.Process.{
  logs, backend_free, model_loaded, model_freed, context_made, context_freed, socket, queue_made,
  queue_closed, Exit, exits, throws, Run, World, run_loop, watch, with_poller, with_server,
  context_logs, with_context, model_logs, with_model, with_backend, with_config, configured, caught,
  main,
}

module _ (lib : CLib) (llama : LlamaLib) (world : World llama) (real : world.kqueue ≢ some 0) where
  abbrev all_made : List Resource
  all_made = context ∷ model ∷ backend ∷ []

  run_loop-Ends :
      (cfg : RuntimeConfig) (ds : List ℕ)
      → Ends world.clients (ds, all_made) (run_loop lib llama world cfg).effects
  unfolding run_loop holds_after
  run_loop-Ends cfg ds = rw append-nil refl

  watch-Leads :
      (handle : ℕ) (fd : Option ℕ)
      → Leads
          (held fd, [], all_made)
          (queue_made handle ∷ watch lib llama world handle fd)
          (handle ∷ held fd, [], all_made)
  unfolding watch holds_after
  watch-Leads handle none = refl
  watch-Leads handle (some fd) = ground arith

  close_poller-Leads :
      (handle : ℕ) (ds cs : List ℕ)
      → handle ≢ 0
      → Leads
          (handle ∷ ds, cs, all_made)
          (map queue_closed (close_poller handle))
          (ds, cs, all_made)
  unfolding close_poller holds_after
  close_poller-Leads handle ds cs n = ground arith

  watch-serves :
      (handle : ℕ) (fd : Option ℕ)
      → serves (queue_made handle ∷ watch lib llama world handle fd) ≡ false
  unfolding watch
  watch-serves handle none = refl
  watch-serves handle (some fd) = refl

  close_poller-serves : (handle : ℕ) → serves (map queue_closed (close_poller handle)) ≡ false
  unfolding close_poller
  close_poller-serves handle = ground arith

  poller-Ends :
      (cfg : RuntimeConfig) (fd kqueue : Option ℕ)
      → kqueue ≢ some 0
      → Ends world.clients
          (held fd, all_made)
          (with_poller lib llama world cfg fd (make_poller kqueue)).effects
  unfolding with_poller make_poller holds_after
  poller-Ends cfg fd none n = refl
  poller-Ends cfg fd (some handle) n =
      around-Ends world.clients (held fd, all_made) (handle ∷ held fd, all_made)
        (queue_made handle ∷ watch lib llama world handle fd)
        (map queue_closed (close_poller handle)) (run_loop lib llama world cfg)
        (watch-serves handle fd, close_poller-serves handle) (watch-Leads handle fd)
        (run_loop-Ends cfg (handle ∷ held fd))
        (λ cs. close_poller-Leads handle (held fd) cs (λ e. n (ap some e)))

  with_server-Ends :
      (cfg : RuntimeConfig) (s : UdsServer) (listens : Bool)
      → IsTidy s
      → Ends world.clients ([], all_made) (with_server lib llama world cfg (s, listens)).effects
  unfolding with_server descriptors
  with_server-Ends cfg s listens t =
      around-Ends world.clients ([], all_made) (held s.listen_fd, all_made) (map socket s.calls)
        (map socket (destroy (record s { calls = [] })).calls)
        (if listens
          then with_poller lib llama world cfg s.listen_fd (make_poller world.kqueue)
          else record {
            effects = logs error (codes "Failed to open UDS listen socket" ∷ []) ∷ [];
            exit = exits 2;
          })
        (serves-socket s.calls, serves-socket (destroy (record s { calls = [] })).calls)
        (holds-socket [] all_made s.calls (some []) ∙ ap (with_descriptors [] all_made) t)
        (body listens)
        (λ cs.
          holds-socket cs all_made (destroy (record s { calls = [] })).calls
            (some (held s.listen_fd))
          ∙ ap (with_descriptors cs all_made) (destroy-closes s))
    where
      body :
          (listens : Bool)
          → Ends world.clients
              (held s.listen_fd, all_made)
              (if◌then◌else◌ {A = Run} listens
                (with_poller lib llama world cfg s.listen_fd (make_poller world.kqueue))
                (record {
                  effects = logs error (codes "Failed to open UDS listen socket" ∷ []) ∷ [];
                  exit = exits 2;
                })).effects
      body true = poller-Ends cfg s.listen_fd world.kqueue real
      body false = unfold holds_after in refl

  with_context-Ends :
      (cfg : RuntimeConfig) (m : llama.Model) (c : Outcome llama.Context)
      → Ends world.clients ([], model ∷ backend ∷ []) (with_context lib llama world cfg m c).effects
  unfolding with_context context_logs holds_after
  with_context-Ends cfg m (threw what) = refl
  with_context-Ends cfg m (returned ctx) =
      let s = init cfg.socket_path cfg.socket_mode in
      let r = open_listen world.platform world.opens world.fl_flags s in
      let reached : Reached world.platform cfg.socket_path cfg.socket_mode r.0 =
        opened made (unfold init in refl) world.opens world.fl_flags in
      around-Ends world.clients ([], model ∷ backend ∷ []) ([], all_made)
        (context_made ∷ context_logs lib llama world cfg m ctx) (context_freed ∷ [])
        (with_server lib llama world cfg r) (refl, refl) refl
        (with_server-Ends cfg r.0 r.1 (server_descriptors reached).0) (λ cs. refl)

  with_model-Ends :
      (cfg : RuntimeConfig) (o : Outcome (ModelHandle llama))
      → Ends world.clients ([], backend ∷ []) (with_model lib llama world cfg o).effects
  unfolding with_model model_logs holds_after
  with_model-Ends cfg (threw what) = refl
  with_model-Ends cfg (returned h) =
      around-Ends world.clients ([], backend ∷ []) ([], model ∷ backend ∷ [])
        (model_loaded ∷ model_logs lib llama world cfg) (model_freed ∷ [])
        (with_context lib llama world cfg h.model (new_context llama h)) (refl, refl) refl
        (with_context-Ends cfg h.model (new_context llama h)) (λ cs. refl)

  with_config-Ends :
      (cfg : RuntimeConfig) (path : Bytes)
      → Ends world.clients ([], []) (with_config lib llama world cfg path).effects
  unfolding with_config with_backend holds_after
  with_config-Ends cfg [] = refl
  with_config-Ends cfg (c ∷ path) = elim (Bool-cases (world.exists (c ∷ path))) [
    | inl e ↦
        rw (with_config, e)
          (around-Ends world.clients ([], []) ([], backend ∷ []) _ (backend_free ∷ [])
            (with_model lib llama world cfg (Model.init llama cfg cfg.model_path)) (refl, refl) refl
            (with_model-Ends cfg (Model.init llama cfg cfg.model_path)) (λ cs. refl))
    | inr e ↦ rw (with_config, e) refl
  ]

  configured-Ends :
      (r : FromArgs) → Ends world.clients ([], []) (configured lib llama world r).effects
  unfolding configured holds_after
  configured-Ends (parsed cfg) = with_config-Ends cfg cfg.model_path
  configured-Ends (FromArgs.threw what) = elim (Bool-cases (bytes_eq what (codes "help"))) [
    | inl e ↦ rw (configured, e) refl
    | inr e ↦ rw (configured, e) refl
  ]

  logged :
      (what : List Bytes) (cs : List ℕ)
      → holds_after (some ([], cs, [])) (logs error what ∷ []) ≡ some ([], cs, [])
  unfolding holds_after
  logged what cs = refl

  abbrev at_end : Bool → Option Holds
  at_end serving = some ([], (if serving then world.clients else []), [])

  caught-Ends :
      (r : Run) (exit : Exit)
      → Ends world.clients ([], []) r.effects
      → Ends world.clients ([], []) (caught lib llama world (record r { exit = exit })).0
  unfolding caught
  caught-Ends r (exits code) h = h
  caught-Ends r (throws what) h =
      let last = logs error (codes "Fatal error: " ∷ what ∷ []) in
      let same : serves (r.effects ++ last ∷ []) ≡ serves r.effects =
        ground (arith, serves-append r.effects (last ∷ [])) in
      holds-append (some ([], [], [])) r.effects (last ∷ [])
      ∙ ap (λ x. holds_after x (last ∷ [])) h
      ∙ logged _ (left_by world.clients r.effects)
      ∙ ap at_end (sym same)

  -- Let `kqueue` not give the descriptor 0. Whatever the arguments and the answers of the operating
  -- system and of llama.cpp, and whether `main` returns or catches an exception: it uses what it
  -- holds, releases the context, the model and the backend in the reverse order of their making and
  -- only once the listening socket and the queue are closed; and if the loop is not run, it holds
  -- nothing in the end, and else exactly the descriptors of the clients whose sessions were there
  -- when the loop was left: nothing closes those.
  pub main_releases :
      (args : List Bytes)
      → let effects = (main lib llama world args).0 in
        holds_after (some ([], [], [])) effects
        ≡ some ([], (if serves effects then world.clients else []), [])
  unfolding main
  main_releases args =
      let r = configured lib llama world (from_args lib args) in
      caught-Ends r r.exit (configured-Ends (from_args lib args))
