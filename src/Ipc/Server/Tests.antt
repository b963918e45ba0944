-- ===== src/Ipc/Server/Tests.antt =====
-- A server whose socket is opened, closed and opened again, where the second `bind` fails.
use uma_serve.Base.{
  ◌≡◌, refl, Bool, true, false, ◌&&◌, [], none, some, ltb, length, codes, if◌then◌else◌, arith,
}
use uma_serve.Ipc.Server.{
  Platform, OpenAnswers, UdsServer, init, open_listen, close_listen, close_socket_, destroy,
}
use uma_serve.Ipc.Server.Lifetime.{
  Reached, made, opened, closed_listen, server_descriptors, open_listen_exact,
}
use uma_serve.Ipc.Server.Descriptors.{descriptors}
use uma_serve.Ipc.Server.Tidy.{held}

abbrev pub platform : Platform
platform = record { sun_path_size = 108; has_nosigpipe = true }

abbrev pub answers : Bool → OpenAnswers
answers binds = record {
  socket = some 3;
  fd_flags = some 1;
  binds = binds;
  chmods = false;
  listens = true;
}

abbrev server : UdsServer
server = (open_listen platform (answers true) (some 2) (init (codes "/tmp/s") 384)).0

server-Reached : Reached platform (codes "/tmp/s") 384 server
server-Reached = opened made (unfold init in refl) (answers true) (some 2)

not_held : (close_listen server).listen_fd ≡ none
unfolding close_listen close_socket_
not_held = ground arith

abbrev reopened : UdsServer
reopened = (open_listen platform (answers false) (some 2) (close_listen server)).0

server_descriptors_example :
    (descriptors reopened.calls ≡ some (held reopened.listen_fd))
    × (descriptors (destroy reopened).calls ≡ some [])
server_descriptors_example =
    server_descriptors (opened (closed_listen server-Reached) not_held (answers false) (some 2))

open_listen_exact_example :
    let (s, ok) = open_listen platform (answers false) (some 2) server in
    (ok ≡ (true && (ltb (length server.path) 108 && (false && true))))
    × (s.listen_fd ≡ (if ok then some 3 else none))
open_listen_exact_example = open_listen_exact platform (answers false) (some 2) server
