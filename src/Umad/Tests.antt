-- ===== src/Umad/Tests.antt =====
-- A daemon that a client comes to, with a request that is answered.
use uma_serve.Base.{
  ℕ, ◌/◌, ◌≡◌, refl, true, false, List, [], ◌∷◌, none, some, arith, Bytes, codes, Distinct,
}
use uma_serve.Ipc.Manager.{ReadCall}
use uma_serve.Ipc.Manager.Sequences.{initial, initial-IsAllocated}
use uma_serve.Ipc.Poller.{Kevent, evfilt_read, evfilt_write, coalesce}
use uma_serve.Ipc.Poller.Coalesced.{fds, flags_for, union_of, coalesce_exact}
use uma_serve.Ipc.Protocol.{write_frame}
use uma_serve.Ipc.Request.{Numbers}
use uma_serve.Ipc.Session.{find}
use uma_serve.Metrics.Snapshot.{MeanOps}
use uma_serve.Runtime.Config.{default_config}
use uma_serve.Sched.Tests.{backend, scheduler}
use uma_serve.Umad.Session.{WriteCall}
use uma_serve.Umad.Loop.{Answers, Daemon, Wakeup, interrupted, woken, turns}
use uma_serve.Umad.Loop.Armed.{IsSound}
use uma_serve.Umad.Loop.Armed.Turns.{turns-IsSound}
use uma_serve.Umad.Loop.Capacity.{IsWithin}
use uma_serve.Umad.Loop.Capacity.Turns.{turns-IsWithin}

abbrev numbers : Numbers ℕ
numbers = record {
  strtod = λ text. none;
  to_int32 = λ d. d;
  default_temperature = 0;
  default_top_p = 1;
}

abbrev means : MeanOps ℕ
means = record {
  LongDouble = ℕ;
  of_u64 = λ n. n;
  divide = λ a b. a / b;
  million = 1000000;
  to_double = λ d. d;
  print_fixed = λ d. codes "0.000";
}

abbrev daemon : Daemon (backend true) numbers means
daemon = record { manager = initial; scheduler = scheduler true; changes = [] }

abbrev request : Bytes
request = write_frame [] (codes "{\"id\":\"r1\",\"prompt\":\"hi\"}")

abbrev readable : ℕ → Kevent
readable fd = record { ident = fd; filter = evfilt_read; ev_error = false; ev_eof = false }

abbrev writable : ℕ → Kevent
writable fd = record { ident = fd; filter = evfilt_write; ev_error = false; ev_eof = true }

-- A client is accepted, sends a request, and takes the first bytes of the answer.
abbrev answers : ℕ → Answers
answers fd = record {
  accepted = some 7;
  now_ns = 5;
  reads = ReadCall.got request ∷ [];
  writes = WriteCall.wrote 10 6 ∷ WriteCall.again ∷ [];
}

abbrev wakeups : List (Wakeup (backend true) numbers means)
wakeups =
    woken (readable 3 ∷ []) answers 6 7 1
    ∷ woken (readable 7 ∷ []) answers 8 9 1
    ∷ interrupted
    ∷ woken (writable 7 ∷ []) answers 10 11 1
    ∷ []

daemon-IsSound : IsSound (backend true) numbers means daemon
unfolding find
daemon-IsSound = record { keyed = record { own = tt; distinct = tt }; armed = λ j p. ground arith }

turns-IsSound_example :
    IsSound
      (backend true)
      numbers
      means
      (turns (backend true) numbers means default_config false 3 wakeups daemon)
turns-IsSound_example =
    turns-IsSound (backend true) numbers means default_config (λ ctx tokens. refl) false 3 wakeups
      daemon daemon-IsSound

turns-IsWithin_example :
    IsWithin default_config
      (turns (backend true) numbers means default_config false 3 wakeups daemon).manager
turns-IsWithin_example =
    turns-IsWithin (backend true) numbers means default_config false 3 wakeups daemon
      (record { capacity = omega arith; allocated = initial-IsAllocated ℕ })

abbrev kevs : List Kevent
kevs = readable 7 ∷ writable 4 ∷ writable 7 ∷ readable 7 ∷ []

coalesce_exact_example :
    Distinct (fds (coalesce kevs)) × ((fd : ℕ) → flags_for fd (coalesce kevs) ≡ union_of fd kevs)
coalesce_exact_example = coalesce_exact kevs
