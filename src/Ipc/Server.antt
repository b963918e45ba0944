-- ===== src/Ipc/Server.antt =====
-- ipc/uds_server.h and ipc/uds_server.cpp: the listening socket. What the operating system answers
-- is given; the calls that change something, and the messages, are kept in order. A descriptor of
-- -1 is `none`.
pub mod Descriptors
pub mod Tidy
pub mod Lifetime
mod Tests
use uma_serve.Base.{
  ℕ, zero, suc, ◌+◌, ◌-◌, ◌/◌, ◌%◌, Bool, true, false, List, [], ◌∷◌, ◌++◌, Option, none, some,
  Bytes, codes, length, take, leb, ◌==◌, if◌then◌else◌,
}
use uma_serve.Ipc.Request.{is_empty}

pub data Call : Type 0 where
  unlink : Bytes → Call
  socket_made : ℕ → Call
  -- `F_SETFD` with `flags | FD_CLOEXEC`, `F_SETFL` with `flags | O_NONBLOCK`.
  set_cloexec set_nonblock : ℕ → ℕ → Call
  bound : ℕ → Bytes → Call
  chmod : Bytes → ℕ → Call
  listening : ℕ → ℕ → Call
  set_nosigpipe : ℕ → Call
  -- The descriptor of the socket and the one that `accept` gave.
  accepted_from : ℕ → ℕ → Call
  handled : ℕ → Call
  closed : ℕ → Call
  out err perror : Bytes → Call

-- `sizeof(addr.sun_path)`, and whether `SO_NOSIGPIPE` is defined.
pub record Platform : Type 0 where
  pub sun_path_size : ℕ
  pub has_nosigpipe : Bool

-- What the calls of `open_socket_` give: the descriptor of `socket`, the flags of `F_GETFD`, and
-- whether `bind`, `chmod` and `listen` succeed.
pub record OpenAnswers : Type 0 where
  pub socket : Option ℕ
  pub fd_flags : Option ℕ
  pub binds : Bool
  pub chmods : Bool
  pub listens : Bool

pub record UdsServer : Type 0 where
  pub path : Bytes
  pub mode : ℕ
  pub listen_fd : Option ℕ
  pub calls : List Call

abbrev pub call : Call → UdsServer → UdsServer
call c s = record s { calls = s.calls ++ c ∷ [] }

-- The constructor.
unfoldable pub init : Bytes → ℕ → UdsServer
init path mode = record { path = path; mode = mode; listen_fd = none; calls = [] }

-- `s.c_str()`, as it is read up to its first zero.
c_str : Bytes → Bytes
c_str [] = []
c_str (b ∷ s) = let rest = c_str s in if b == 0 then [] else b ∷ rest

-- `std::oct`, for up to so many digits.
octal : ℕ → ℕ → Bytes
octal zero n = []
octal (suc fuel) n =
    let front = octal fuel (n / 8) in
    let last = (b'0' + n % 8) ∷ [] in if n / 8 == 0 then last else front ++ last

-- `::close(listen_fd_); listen_fd_ = -1`.
abbrev abandon : ℕ → UdsServer → UdsServer
abandon fd s = record (call (closed fd) s) { listen_fd = none }

set_fd_flags : Option ℕ → ℕ → UdsServer → UdsServer
set_fd_flags none fd s = s
set_fd_flags (some flags) fd s = call (set_cloexec fd flags) s

-- `listen`, and what follows.
start_listening : OpenAnswers → ℕ → UdsServer → UdsServer × Bool
unfolding octal
start_listening a fd s =
    if a.listens
    then (
      call
          (out (
            codes "UDS listening at "
            ++ (s.path ++ (codes " (mode " ++ (octal 11 s.mode ++ codes ")\n")))))
          (call (listening fd 16) s),
      true,
    )
    else (abandon fd (call (perror (codes "listen")) s), false)

-- `bind`, and what follows.
bind_socket : Platform → OpenAnswers → ℕ → UdsServer → UdsServer × Bool
unfolding c_str start_listening
bind_socket p a fd s =
    if a.binds
    then (let b = call (bound fd (c_str (take (p.sun_path_size - 1) s.path))) s in
        start_listening a fd (
          if a.chmods
          then call (chmod (c_str s.path) s.mode) b
          else call (perror (codes "chmod")) b))
    else (abandon fd (call (perror (codes "bind")) s), false)

-- What follows `socket`.
set_up : Platform → OpenAnswers → ℕ → UdsServer → UdsServer × Bool
unfolding set_fd_flags bind_socket
set_up p a fd s =
    let f = set_fd_flags a.fd_flags fd s in
    if leb p.sun_path_size (length s.path)
    then (abandon fd (call (err (codes "UDS path too long: " ++ (s.path ++ codes "\n"))) f), false)
    else bind_socket p a fd f

pub open_socket_ : Platform → OpenAnswers → UdsServer → UdsServer × Bool
unfolding c_str set_up
open_socket_ p a s =
    let u = call (unlink (c_str s.path)) s in
    elim a.socket [
      | none ↦ (record (call (perror (codes "socket")) u) { listen_fd = none }, false)
      | some fd ↦ set_up p a fd (record (call (socket_made fd) u) { listen_fd = some fd })
    ]

unfoldable pub close_socket_ : UdsServer → UdsServer
close_socket_ s = elim s.listen_fd [ none ↦ s | some fd ↦ abandon fd s ]

-- What `accept` gives in one round: a descriptor, `EINTR`, or another error. The rounds end where
-- the flag is found set.
pub data Accept : Type 0 where
  accepted : ℕ → Accept
  interrupted failed : Accept

pub serve_loop : ℕ → List Accept → UdsServer → UdsServer
serve_loop fd [] s = s
serve_loop fd (accepted cfd ∷ rounds) s =
    serve_loop fd rounds (call (closed cfd) (call (handled cfd) (call (accepted_from fd cfd) s)))
serve_loop fd (interrupted ∷ rounds) s = serve_loop fd rounds s
serve_loop fd (failed ∷ rounds) s = call (perror (codes "accept")) s

-- `accept` is called with the descriptor that `open_socket_` left.
pub serve_rounds : List Accept → UdsServer → UdsServer
unfolding serve_loop
serve_rounds rounds s = elim s.listen_fd [ none ↦ s | some fd ↦ serve_loop fd rounds s ]

pub serve : Platform → OpenAnswers → List Accept → UdsServer → UdsServer × Bool
unfolding c_str open_socket_ close_socket_ serve_rounds
serve p a rounds s =
    let (o, ok) = open_socket_ p a s in
    let c = close_socket_ (serve_rounds rounds o) in
    if ok then (call (unlink (c_str s.path)) c, true) else (o, false)

set_status_flags : Option ℕ → ℕ → UdsServer → UdsServer
set_status_flags none fd s = s
set_status_flags (some flags) fd s = call (set_nonblock fd flags) s

-- The flags of `F_GETFL`, and the option where there is one.
set_up_listen : Platform → Option ℕ → ℕ → UdsServer → UdsServer
unfolding set_status_flags
set_up_listen p fl_flags fd s =
    let f = set_status_flags fl_flags fd s in
    if p.has_nosigpipe then call (set_nosigpipe fd) f else f

-- The flags are set on the descriptor that `open_socket_` left.
pub set_up_fd : Platform → Option ℕ → UdsServer → UdsServer
unfolding set_up_listen
set_up_fd p fl_flags s = elim s.listen_fd [ none ↦ s | some fd ↦ set_up_listen p fl_flags fd s ]

pub open_listen : Platform → OpenAnswers → Option ℕ → UdsServer → UdsServer × Bool
unfolding open_socket_ set_up_fd
open_listen p a fl_flags s =
    let (o, ok) = open_socket_ p a s in if ok then (set_up_fd p fl_flags o, true) else (o, false)

pub close_listen : UdsServer → UdsServer
unfolding close_socket_
close_listen s = close_socket_ s

-- The destructor.
pub destroy : UdsServer → UdsServer
unfolding c_str close_socket_
destroy s = let c = close_socket_ s in if is_empty s.path then c else call (unlink (c_str s.path)) c
