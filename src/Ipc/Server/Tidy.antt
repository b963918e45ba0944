-- ===== src/Ipc/Server/Tidy.antt =====
-- The descriptors of the socket server: each is used while it is open, and closed once.
use uma_serve.Base.{
  ℕ, ◌≡◌, refl, ap, sym, ◌∙◌, inl, inr, Bool, true, false, List, [], ◌∷◌, ◌++◌, Option, none, some,
  arith, if◌then◌else◌, Bool-cases, Option-cases, length, take, leb, codes, ◌-◌,
}
use uma_serve.Ipc.Server.{
  Call, unlink, socket_made, set_cloexec, set_nonblock, bound, chmod, listening, set_nosigpipe,
  accepted_from, handled, closed, out, err, perror, Platform, OpenAnswers, UdsServer, call, c_str,
  set_fd_flags, start_listening, bind_socket, set_up, open_socket_, close_socket_, abandon, Accept,
  accepted, interrupted, failed, serve_loop, serve_rounds, set_up_listen, set_status_flags,
  set_up_fd,
}
use uma_serve.Ipc.Server.Descriptors.{after_call, descriptors, descriptors-append}

-- The descriptor of the socket, if there is one.
abbrev pub held : Option ℕ → List ℕ
held none = []
held (some fd) = fd ∷ []

-- Exactly the descriptor of the socket is open.
abbrev pub IsTidy : UdsServer → Type 0
IsTidy s = descriptors s.calls ≡ some (held s.listen_fd)

-- So many descriptors are open.
abbrev pub Opens : List ℕ → UdsServer → Type 0
Opens xs s = descriptors s.calls ≡ some xs

pub call-Opens :
    (c : Call) (xs ys : List ℕ) (s : UdsServer)
    → after_call c xs ≡ some ys
    → Opens xs s
    → Opens ys (call c s)
call-Opens c xs ys s e h = descriptors-append s.calls c xs h ∙ e

-- A call on the one open descriptor.
abbrev pub Held : ℕ → UdsServer → Type 0
Held fd s = (s.listen_fd ≡ some fd) × Opens (fd ∷ []) s

pub Held-IsTidy : (fd : ℕ) (s : UdsServer) → Held fd s → IsTidy s
Held-IsTidy fd s h = h.1 ∙ ap (λ x. some (held x)) (sym h.0)

own_call :
    (c : Call) (fd : ℕ) (s : UdsServer)
    → after_call c (fd ∷ []) ≡ some (fd ∷ [])
    → Held fd s
    → Held fd (call c s)
own_call c fd s e h = (h.0, call-Opens c (fd ∷ []) (fd ∷ []) s e h.1)

abandon-Opens : (fd : ℕ) (s : UdsServer) → Opens (fd ∷ []) s → IsTidy (abandon fd s)
abandon-Opens fd s h = call-Opens (closed fd) (fd ∷ []) [] s (ground arith) h

-- A socket that was opened is held, and one that was not is gone.
abbrev pub Opened : UdsServer × Bool → Type 0
Opened (s, true) = (fd : ℕ) × Held fd s
Opened (s, false) = (s.listen_fd ≡ none) × Opens [] s

start_listening-Opened :
    (a : OpenAnswers) (fd : ℕ) (s : UdsServer) → Held fd s → Opened (start_listening a fd s)
unfolding start_listening
start_listening-Opened a fd s h = elim (Bool-cases a.listens) [
  | inl e ↦
      let l = own_call (listening fd 16) fd s (ground arith) h in
      rw (start_listening, e) (fd, own_call (out _) fd (call (listening fd 16) s) refl l)
  | inr e ↦
      let c = call (perror (codes "listen")) s in
      rw (start_listening, e)
        (
          refl,
          abandon-Opens fd c (call-Opens (perror (codes "listen")) (fd ∷ []) (fd ∷ []) s refl h.1),
        )
]

bind_socket-Opened :
    (p : Platform) (a : OpenAnswers) (fd : ℕ) (s : UdsServer)
    → Held fd s
    → Opened (bind_socket p a fd s)
unfolding bind_socket
bind_socket-Opened p a fd s h = elim (Bool-cases a.binds) [
  | inl e ↦
      let bind_call = bound fd (c_str (take (p.sun_path_size - 1) s.path)) in
      let b = own_call bind_call fd s (ground arith) h in
      let s' = call bind_call s in
      elim (Bool-cases a.chmods) [
        | inl k ↦
            rw (bind_socket, e, k)
              (start_listening-Opened a fd _ (own_call (chmod (c_str s.path) s.mode) fd s' refl b))
        | inr k ↦
            rw (bind_socket, e, k)
              (start_listening-Opened a fd _ (own_call (perror (codes "chmod")) fd s' refl b))
      ]
  | inr e ↦
      let c = call (perror (codes "bind")) s in
      rw (bind_socket, e)
        (
          refl,
          abandon-Opens fd c (call-Opens (perror (codes "bind")) (fd ∷ []) (fd ∷ []) s refl h.1),
        )
]

set_fd_flags-Held :
    (flags : Option ℕ) (fd : ℕ) (s : UdsServer) → Held fd s → Held fd (set_fd_flags flags fd s)
unfolding set_fd_flags
set_fd_flags-Held none fd s h = h
set_fd_flags-Held (some flags) fd s h = own_call (set_cloexec fd flags) fd s (ground arith) h

set_up-Opened :
    (p : Platform) (a : OpenAnswers) (fd : ℕ) (s : UdsServer) → Held fd s → Opened (set_up p a fd s)
unfolding set_up
set_up-Opened p a fd s h =
    let f = set_fd_flags a.fd_flags fd s in
    let h' = set_fd_flags-Held a.fd_flags fd s h in
    let message = err (codes "UDS path too long: " ++ (s.path ++ codes "\n")) in
    elim (Bool-cases (leb p.sun_path_size (length s.path))) [
      | inl e ↦
          rw (set_up, e)
            (
              refl,
              abandon-Opens fd (call message f)
                  (call-Opens message (fd ∷ []) (fd ∷ []) f refl h'.1),
            )
      | inr e ↦ rw (set_up, e) (bind_socket-Opened p a fd f h')
    ]

pub open_socket-Opened :
    (p : Platform) (a : OpenAnswers) (s : UdsServer) → Opens [] s → Opened (open_socket_ p a s)
unfolding open_socket_
open_socket-Opened p a s h =
    let s' = call (unlink (c_str s.path)) s in
    let u = call-Opens (unlink (c_str s.path)) [] [] s refl h in
    elim (Option-cases a.socket) [
      | inl e ↦ rw (open_socket_, e) (refl, call-Opens (perror (codes "socket")) [] [] s' refl u)
      | inr (fd, e) ↦
          rw (open_socket_, e)
            (set_up-Opened p a fd _ (refl, call-Opens (socket_made fd) [] (fd ∷ []) s' refl u))
    ]

pub close_socket-Closed :
    (s : UdsServer) → IsTidy s → ((close_socket_ s).listen_fd ≡ none) × Opens [] (close_socket_ s)
unfolding close_socket_
close_socket-Closed s h = elim (Option-cases s.listen_fd) [
  | inl e ↦ rw (close_socket_, e) (e, h ∙ rw e refl)
  | inr (fd, e) ↦ rw (close_socket_, e) (refl, abandon-Opens fd s (h ∙ rw e refl))
]

serve_loop-Held :
    (rounds : List Accept) (fd : ℕ) (s : UdsServer) → Held fd s → Held fd (serve_loop fd rounds s)
unfolding serve_loop
serve_loop-Held [] fd s h = h
serve_loop-Held (accepted cfd ∷ rounds) fd s h =
    let a = call (accepted_from fd cfd) s in
    let b = call (handled cfd) a in
    let opens = call-Opens (accepted_from fd cfd) (fd ∷ []) (cfd ∷ fd ∷ []) s (ground arith) h.1 in
    let runs = call-Opens (handled cfd) (cfd ∷ fd ∷ []) (cfd ∷ fd ∷ []) a (ground arith) opens in
    let closes = call-Opens (closed cfd) (cfd ∷ fd ∷ []) (fd ∷ []) b (ground arith) runs in
    serve_loop-Held rounds fd (call (closed cfd) b) (h.0, closes)
serve_loop-Held (interrupted ∷ rounds) fd s h = serve_loop-Held rounds fd s h
serve_loop-Held (failed ∷ rounds) fd s h = own_call (perror (codes "accept")) fd s refl h

pub serve_rounds-IsTidy :
    (rounds : List Accept) (fd : ℕ) (s : UdsServer) → Held fd s → IsTidy (serve_rounds rounds s)
unfolding serve_rounds
serve_rounds-IsTidy rounds fd s h =
    rw (serve_rounds, h.0) (Held-IsTidy fd (serve_loop fd rounds s) (serve_loop-Held rounds fd s h))

pub set_up_fd-Held :
    (p : Platform) (flags : Option ℕ) (fd : ℕ) (s : UdsServer)
    → Held fd s
    → Held fd (set_up_fd p flags s)
unfolding set_up_fd set_up_listen set_status_flags
set_up_fd-Held p flags fd s h = rw (set_up_fd, h.0) (options flags)
  where
    option :
        (s' : UdsServer)
        → Held fd s'
        → Held fd (if p.has_nosigpipe then call (set_nosigpipe fd) s' else s')
    option s' h' = elim (Bool-cases p.has_nosigpipe) [
      | inl e ↦ rw e (own_call (set_nosigpipe fd) fd s' (ground arith) h')
      | inr e ↦ rw e h'
    ]

    options : (flags : Option ℕ) → Held fd (set_up_listen p flags fd s)
    options none = option s h
    options (some f) =
        option (call (set_nonblock fd f) s) (own_call (set_nonblock fd f) fd s (ground arith) h)
