-- ===== src/Ipc/Server/Lifetime.antt =====
-- The socket server from its construction to its destruction.
use uma_serve.Base.{
  ℕ, ◌≡◌, refl, ap, sym, ◌∙◌, inl, inr, Bool, true, false, ◌&&◌, List, [], Option, none, some,
  arith, Bytes, Bool-cases, length, ltb, if◌then◌else◌,
}
use uma_serve.Ipc.Request.{is_empty}
use uma_serve.Ipc.Server.{
  unlink, Platform, OpenAnswers, UdsServer, call, init, c_str, open_socket_, close_socket_, Accept,
  serve_rounds, serve, open_listen, close_listen, destroy, set_up, bind_socket, start_listening,
  set_up_fd, set_fd_flags, set_up_listen, set_status_flags,
}
use uma_serve.Ipc.Server.Descriptors.{descriptors, calls_onto}
use uma_serve.Ipc.Server.Tidy.{
  held, IsTidy, Opens, Opened, call-Opens, Held-IsTidy, open_socket-Opened, close_socket-Closed,
  serve_rounds-IsTidy, set_up_fd-Held,
}

-- A server behind any calls of its operations; the two that open the socket are called while it is
-- not open.
pub data Reached (p : Platform) (path : Bytes) (mode : ℕ) : UdsServer → Type 0 where
  made : Reached p path mode (init path mode)
  opened :
      {s : UdsServer}
      → Reached p path mode s
      → s.listen_fd ≡ none
      → (a : OpenAnswers) (flags : Option ℕ) → Reached p path mode (open_listen p a flags s).0
  served :
      {s : UdsServer}
      → Reached p path mode s
      → s.listen_fd ≡ none
      → (a : OpenAnswers) (rounds : List Accept) → Reached p path mode (serve p a rounds s).0
  closed_listen : {s : UdsServer} → Reached p path mode s → Reached p path mode (close_listen s)

not_listening : (s : UdsServer) → s.listen_fd ≡ none → IsTidy s → Opens [] s
not_listening s e h = h ∙ ap (λ x. some (held x)) e

gone-IsTidy : (s : UdsServer) → s.listen_fd ≡ none → Opens [] s → IsTidy s
gone-IsTidy s e h = h ∙ ap (λ x. some (held x)) (sym e)

open_listen-IsTidy :
    (p : Platform) (a : OpenAnswers) (flags : Option ℕ) (s : UdsServer)
    → Opens [] s
    → IsTidy (open_listen p a flags s).0
unfolding open_listen
open_listen-IsTidy p a flags s h = listen (open_socket_ p a s) (open_socket-Opened p a s h)
  where
    listen :
        (r : UdsServer × Bool)
        → Opened r
        → IsTidy
            (if◌then◌else◌ {A = UdsServer × Bool} r.1 (set_up_fd p flags r.0, true) (r.0, false)).0
    listen (o, true) (fd, h') =
        Held-IsTidy fd (set_up_fd p flags o) (set_up_fd-Held p flags fd o h')
    listen (o, false) (e, h') = gone-IsTidy o e h'

serve-IsTidy :
    (p : Platform) (a : OpenAnswers) (rounds : List Accept) (s : UdsServer)
    → Opens [] s
    → IsTidy (serve p a rounds s).0
unfolding serve
serve-IsTidy p a rounds s h = loop (open_socket_ p a s) (open_socket-Opened p a s h)
  where
    loop :
        (r : UdsServer × Bool)
        → Opened r
        → let c = call (unlink (c_str s.path)) (close_socket_ (serve_rounds rounds r.0)) in
          IsTidy (if◌then◌else◌ {A = UdsServer × Bool} r.1 (c, true) (r.0, false)).0
    loop (o, true) (fd, h') =
        let (e, c) =
          close_socket-Closed (serve_rounds rounds o) (serve_rounds-IsTidy rounds fd o h') in
        gone-IsTidy (call (unlink (c_str s.path)) (close_socket_ (serve_rounds rounds o))) e
          (call-Opens (unlink (c_str s.path)) [] [] (close_socket_ (serve_rounds rounds o)) refl c)
    loop (o, false) (e, h') = gone-IsTidy o e h'

close_listen-IsTidy : (s : UdsServer) → IsTidy s → IsTidy (close_listen s)
unfolding close_listen
close_listen-IsTidy s h = let (e, c) = close_socket-Closed s h in gone-IsTidy (close_socket_ s) e c

Reached-IsTidy :
    {p : Platform} {path : Bytes} {mode : ℕ} {s : UdsServer} → Reached p path mode s → IsTidy s
Reached-IsTidy made = unfold init descriptors calls_onto in refl
Reached-IsTidy {p} (opened {s} r e a flags) =
    open_listen-IsTidy p a flags s (not_listening s e (Reached-IsTidy r))
Reached-IsTidy {p} (served {s} r e a rounds) =
    serve-IsTidy p a rounds s (not_listening s e (Reached-IsTidy r))
Reached-IsTidy (closed_listen {s} r) = close_listen-IsTidy s (Reached-IsTidy r)

destroy-descriptors : (s : UdsServer) → IsTidy s → descriptors (destroy s).calls ≡ some []
unfolding destroy
destroy-descriptors s h =
    let (e, c) = close_socket-Closed s h in
    elim (Bool-cases (is_empty s.path)) [
      | inl b ↦ rw (destroy, b) c
      | inr b ↦ rw (destroy, b) (call-Opens (unlink (c_str s.path)) [] [] (close_socket_ s) refl c)
    ]

-- Whatever the operating system answers, and in whatever order the operations are called, the two
-- that open the socket only while it is not open: every call on a descriptor is on one that is open
-- at that time, and each descriptor that `socket` or `accept` gave has been closed, except the one
-- that is held for the socket; behind the destructor all are closed.
pub server_descriptors :
    {p : Platform} {path : Bytes} {mode : ℕ} {s : UdsServer}
    → Reached p path mode s
    → (descriptors s.calls ≡ some (held s.listen_fd)) × (descriptors (destroy s).calls ≡ some [])
server_descriptors {p} {path} {mode} {s} r =
    (Reached-IsTidy r, destroy-descriptors s (Reached-IsTidy r))

abbrev pub is_some : Option ℕ → Bool
is_some none = false
is_some (some fd) = true

-- `open_listen` succeeds exactly if there is a socket, the path is shorter than the field for it,
-- and `bind` and `listen` succeed, whatever `chmod` and `fcntl` answer; then the socket is held, and
-- otherwise none is, also where one was held before.
pub open_listen_exact :
    (p : Platform) (a : OpenAnswers) (flags : Option ℕ) (s : UdsServer)
    → let (s', ok) = open_listen p a flags s in
      (ok ≡ (is_some a.socket && (ltb (length s.path) p.sun_path_size && (a.binds && a.listens))))
      × (s'.listen_fd ≡ (if ok then a.socket else none))
unfolding open_listen open_socket_ set_up set_fd_flags bind_socket start_listening set_up_fd
    set_up_listen set_status_flags
open_listen_exact p a flags s = ground arith

-- The calls of the destructor alone, where the descriptor of the socket is open.
pub destroy-closes :
    (s : UdsServer)
    → calls_onto (some (held s.listen_fd)) (destroy (record s { calls = [] })).calls ≡ some []
unfolding destroy close_socket_ calls_onto
destroy-closes s = closes s.listen_fd
  where
    closes :
        (fd : Option ℕ)
        → calls_onto (some (held fd)) (destroy (record s { listen_fd = fd; calls = [] })).calls
          ≡ some []
    closes none = ground arith
    closes (some fd) = ground arith
