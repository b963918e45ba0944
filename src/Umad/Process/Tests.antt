-- ===== src/Umad/Process/Tests.antt =====
-- A daemon that starts and is shut down, over a small llama.cpp.
use uma_serve.Base.{ℕ, ◌≡◌, ◌≢◌, if◌then◌else◌, true, false, [], ◌∷◌, some, none, codes}
use uma_serve.Base.Integers.{pos}
use uma_serve.Runtime.Model.{LlamaLib}
use uma_serve.Umad.Process.{World, main}
use uma_serve.Umad.Process.Holds.{holds_after, serves}
use uma_serve.Umad.Process.Released.{main_releases}
use uma_serve.Runtime.Config.Args.{CLib}
use uma_serve.Base.{length, bytes_eq}

abbrev lib : CLib
lib = record {
  getenv = λ key. none;
  strtoul = λ text. length text;
  strtol_int32 = λ text. pos (length text);
  strtoull = λ text. length text;
  tolower = λ c. c;
  strcaseeq = bytes_eq;
}

abbrev llama : LlamaLib
llama = record {
  Model = ℕ;
  Context = ℕ;
  llama_model_default_params = record { use_mlock = false; use_mmap = true };
  llama_context_default_params = record {
    n_ctx = 512;
    n_batch = 2048;
    n_ubatch = 512;
    n_threads = pos 4;
    n_threads_batch = pos 4;
    n_seq_max = 1;
    flash_attn_auto = true;
    offload_kqv = true;
    kv_unified = false;
    swa_full = true;
    no_perf = true;
    op_offload = true;
  };
  llama_model_load_from_file = λ path params. some (length path);
  llama_init_from_model = λ model params. some model;
}

abbrev world : World llama
world = record {
  exists = λ path. true;
  platform = record { sun_path_size = 108; has_nosigpipe = true };
  opens = record {
    socket = some 3;
    fd_flags = some 1;
    binds = true;
    chmods = true;
    listens = true;
  };
  fl_flags = some 2;
  kqueue = some 4;
  clients = 5 ∷ 6 ∷ [];
  llama_print_system_info = codes "NEON";
  llama_n_ctx = λ ctx. 4096;
  llama_n_batch = λ ctx. 512;
  llama_n_ubatch = λ ctx. 512;
  llama_n_seq_max = λ ctx. 16;
  llama_model_has_encoder = λ model. false;
}

queue_real : world.kqueue ≢ some 0
queue_real e = cc

main_releases_example :
    let effects = (main lib llama world (codes "--model" ∷ codes "m.gguf" ∷ [])).0 in
    holds_after (some ([], [], [])) effects
    ≡ some ([], (if serves effects then 5 ∷ 6 ∷ [] else []), [])
main_releases_example =
    main_releases lib llama world queue_real (codes "--model" ∷ codes "m.gguf" ∷ [])
