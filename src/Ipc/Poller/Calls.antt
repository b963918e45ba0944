-- ===== src/Ipc/Poller/Calls.antt =====
-- ipc/poller_kqueue.cpp: the calls of the kernel, with what it answers and what the poller returns.
use uma_serve.Base.{
  ℕ, ◌*◌, ◌/◌, ◌%◌, Bool, true, false, List, [], ◌∷◌, Option, none, some, length, ltb, codes,
  if◌then◌else◌,
}
use uma_serve.Base.Integers.{ℤ, pos, negsuc}
use uma_serve.Ipc.Poller.{PollFlags, PollEvent, Kevent, add, remove, coalesce}
use uma_serve.Runtime.Model.{Outcome, threw, returned}

-- The constructor, with the descriptor that `kqueue` gives.
unfoldable pub make_poller : Option ℕ → Outcome ℕ
make_poller none = threw (codes "failed to create kqueue")
make_poller (some handle) = returned handle

-- The destructor: the descriptors that it closes.
unfoldable pub close_poller : ℕ → List ℕ
close_poller handle = if ltb 0 handle then handle ∷ [] else []

-- What `kevent` answers to a change list.
pub data Answer : Type 0 where
  changed enoent ebadf refused : Answer

-- An empty change list is not given to the kernel.
unfoldable pub add_result : Answer → ℕ → PollFlags → Bool
add_result answer fd interest = elim (add fd interest) [
  | [] ↦ true
  | c ∷ changes ↦ elim answer [ changed ↦ true | _ ↦ false ]
]

unfoldable pub remove_result : Answer → ℕ → PollFlags → Bool
remove_result answer fd interest = elim (remove fd interest) [
  | [] ↦ true
  | c ∷ changes ↦ elim answer [ refused ↦ false | _ ↦ true ]
]

-- `timespec`.
pub record Timespec : Type 0 where
  pub tv_sec : ℕ
  pub tv_nsec : ℕ

-- A negative timeout is a null pointer.
unfoldable pub timeout : ℤ → Option Timespec
timeout (pos timeout_ms) =
    some (record { tv_sec = timeout_ms / 1000; tv_nsec = (timeout_ms % 1000) * 1000000 })
timeout (negsuc n) = none

-- What `wait` returns and the events, where `kevent` gives some events, at most 64, or -1.
unfoldable pub wait : Option (List Kevent) → ℤ × List PollEvent
wait none = (negsuc 0, [])
wait (some []) = (pos 0, [])
wait (some (k ∷ kevs)) = let events = coalesce (k ∷ kevs) in (pos (length events), events)
