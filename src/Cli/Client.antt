-- ===== src/Cli/Client.antt =====
-- cli/main.cpp: `main` of the client. What the system calls give comes from outside.
pub mod Answered
use uma_serve.Base.{
  ℕ, Bool, true, false, not, ◌&&◌, List, [], ◌∷◌, ◌++◌, Option, none, some, Bytes, codes, drop,
  length, leb, if◌then◌else◌,
}
use uma_serve.Cli.Events.{Print, err, perror, Received, Read, at_header, receive, line}
use uma_serve.Cli.Options.{
  CliNumbers, CliOptions, help, refused, options, default_options, parse, payload,
}
use uma_serve.Ipc.Protocol.{write_frame, to_string}
use uma_serve.Ipc.Request.{is_empty}

-- A call of `write`.
pub data Write : Type 0 where
  wrote : ℕ → Write
  interrupted again failed : Write

-- `send_all`: whether everything was written; `none` while it waits.
unfoldable pub send_all : List Write → Bytes → Option Bool
send_all calls [] = some true
send_all [] (c ∷ cs) = none
send_all (wrote n ∷ calls) (c ∷ cs) = send_all calls (drop n (c ∷ cs))
send_all (interrupted ∷ calls) (c ∷ cs) = send_all calls (c ∷ cs)
send_all (again ∷ calls) (c ∷ cs) = send_all calls (c ∷ cs)
send_all (failed ∷ calls) (c ∷ cs) = some false

-- `print_usage`, with the name of the program.
pub usage : Bytes → List Print
usage argv0 =
    err (
      codes "uma-cli - UMA Serve client (UDS, framed JSON)\n"
      ++ codes "Usage: "
      ++ argv0
      ++ codes " --prompt 'text' [--socket /tmp/uma.sock] [--id req-1] [--max-tokens N]"
      ++ codes " [--temp T] [--top-p P] [--no-stream] [--metrics]\n")
    ∷ []

-- `gen_default_id`, with what `getpid` and `time` give.
pub gen_default_id : ℕ → ℕ → Bytes
gen_default_id pid time = codes "req-" ++ (to_string pid ++ (codes "-" ++ to_string time))

-- What the calls of `connect_uds` give, and `sizeof(su.sun_path)`.
pub record ConnectAnswers : Type 0 where
  pub socket : Option ℕ
  pub sun_path_size : ℕ
  pub connects : Bool

-- What is printed, the exit code if the client ends, and the descriptors that it opened and closed.
pub record Ran : Type 0 where
  pub prints : List Print
  pub exit_code : Option ℕ
  pub opened : List ℕ
  pub closed : List ℕ

-- `connect_uds`: the descriptor is given, or it is closed with a message, or there is none.
pub data Connection : Type 0 where
  connected : ℕ → Connection
  given_up : List Print → List ℕ → Connection

connect_socket : ConnectAnswers → ℕ → Bytes → Connection
connect_socket a fd path =
    if leb a.sun_path_size (length path)
    then given_up (err (line (codes "socket path too long")) ∷ []) (fd ∷ [])
    else if a.connects
    then connected fd
    else given_up (perror (codes "connect") ∷ []) (fd ∷ [])

unfoldable pub connect_uds : ConnectAnswers → Bytes → Connection
unfolding connect_socket
connect_uds a path = elim a.socket [
  | none ↦ given_up (perror (codes "socket") ∷ []) []
  | some fd ↦ connect_socket a fd path
]

-- An end before a descriptor is opened.
ends_early : List Print → ℕ → Ran
ends_early prints code = record { prints = prints; exit_code = some code; opened = []; closed = [] }

-- Each end of the exchange closes the descriptor.
closes : ℕ → Option ℕ → List ℕ
closes fd none = []
closes fd (some code) = fd ∷ []

module _ {D : Type 0} (numbers : CliNumbers D) (argv0 : Bytes) where
  -- With options, once the socket is connected.
  pub exchange : CliOptions D → List Write → List Read → Received
  unfolding send_all
  exchange o writes reads = elim (send_all writes (write_frame [] (payload numbers o))) [
    | none ↦ record { prints = []; exit_code = none }
    | some false ↦ record { prints = perror (codes "send") ∷ []; exit_code = some 3 }
    | some true ↦ receive o.metrics at_header reads
  ]

  with_connection : CliOptions D → List Write → List Read → Connection → Ran
  unfolding exchange closes
  with_connection o writes reads (given_up prints fds) = record {
    prints = prints;
    exit_code = some 3;
    opened = fds;
    closed = fds;
  }
  with_connection o writes reads (connected fd) =
      let r = exchange o writes reads in
      record {
        prints = r.prints;
        exit_code = r.exit_code;
        opened = fd ∷ [];
        closed = closes fd r.exit_code;
      }

  -- The options, checked, and with an id.
  pub start : Bytes → ConnectAnswers → CliOptions D → List Write → List Read → Ran
  unfolding with_connection connect_uds usage ends_early
  start default_id answers o writes reads =
      if not o.metrics && is_empty o.prompt
      then ends_early (err (line (codes "--prompt is required (or use --metrics)")) ∷ usage argv0) 1
      else with_connection (if is_empty o.id then record o { id = default_id } else o) writes reads
          (connect_uds answers o.socket_path)

  unfoldable pub main : ℕ → ℕ → ConnectAnswers → List Bytes → List Write → List Read → Ran
  unfolding start usage gen_default_id ends_early
  main pid time answers args writes reads = elim (parse numbers args (default_options numbers)) [
    | help ↦ ends_early (usage argv0) 0
    | refused a ↦
        ends_early (err (line (codes "Unknown or incomplete flag: " ++ a)) ∷ usage argv0) 1
    | options o ↦ start (gen_default_id pid time) answers o writes reads
  ]
