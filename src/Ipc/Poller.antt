-- ===== src/Ipc/Poller.antt =====
-- ipc/poller.h and ipc/poller_kqueue.cpp: the changes that are asked of the kernel's queue, and the
-- events that it gives, put together by descriptor. A set of flags is its four bits.
pub mod Coalesced
pub mod Calls
use uma_serve.Base.{ℕ, Bool, true, false, ◌||◌, List, [], ◌∷◌, ◌++◌, ◌==◌, if◌then◌else◌}

pub record PollFlags : Type 0 where
  pub read : Bool
  pub write : Bool
  pub hup : Bool
  pub err : Bool

abbrev pub no_flags : PollFlags
no_flags = record { read = false; write = false; hup = false; err = false }

abbrev pub read_flag : PollFlags
read_flag = record no_flags { read = true }

abbrev pub write_flag : PollFlags
write_flag = record no_flags { write = true }

-- `operator|`.
infix 60 ◌∪◌
unfoldable pub ◌∪◌ : PollFlags → PollFlags → PollFlags
a ∪ b = record {
  read = a.read || b.read;
  write = a.write || b.write;
  hup = a.hup || b.hup;
  err = a.err || b.err;
}

pub record PollEvent : Type 0 where
  pub fd : ℕ
  pub f : PollFlags

-- `EVFILT_READ`, `EVFILT_WRITE`, and any other filter.
pub data Filter : Type 0 where
  evfilt_read evfilt_write evfilt_other : Filter

-- An entry of a change list: `EV_ADD` or `EV_DELETE`.
pub data Change : Type 0 where
  ev_add ev_delete : ℕ → Filter → Change

-- The change list of `Poller::add`; the call of the kernel is left out where it is empty.
unfoldable pub add : ℕ → PollFlags → List Change
add fd interest =
    (if interest.read then ev_add fd evfilt_read ∷ [] else [])
    ++ (if interest.write then ev_add fd evfilt_write ∷ [] else [])

-- The change list of `Poller::remove`.
unfoldable pub remove : ℕ → PollFlags → List Change
remove fd interest =
    (if interest.read then ev_delete fd evfilt_read ∷ [] else [])
    ++ (if interest.write then ev_delete fd evfilt_write ∷ [] else [])

-- An event of the kernel, with its flags `EV_ERROR` and `EV_EOF`.
pub record Kevent : Type 0 where
  pub ident : ℕ
  pub filter : Filter
  pub ev_error : Bool
  pub ev_eof : Bool

abbrev pub is_read_filter : Filter → Bool
is_read_filter evfilt_read = true
is_read_filter _ = false

abbrev pub is_write_filter : Filter → Bool
is_write_filter evfilt_write = true
is_write_filter _ = false

unfoldable pub flags_of : Kevent → PollFlags
flags_of k = record {
  read = is_read_filter k.filter;
  write = is_write_filter k.filter;
  hup = k.ev_eof;
  err = k.ev_error;
}

-- `acc[fd] = acc.count(fd) ? (acc[fd] | f) : f`.
pub merge : ℕ → PollFlags → List PollEvent → List PollEvent
merge fd f [] = record { fd = fd; f = f } ∷ []
merge fd f (e ∷ acc) =
    if e.fd == fd then record { fd = fd; f = e.f ∪ f } ∷ acc else e ∷ merge fd f acc

pub coalesce_onto : List PollEvent → List Kevent → List PollEvent
unfolding merge
coalesce_onto acc [] = acc
coalesce_onto acc (k ∷ kevs) = coalesce_onto (merge k.ident (flags_of k) acc) kevs

-- What `Poller::wait` makes of the events that `kevent` gave.
unfoldable pub coalesce : List Kevent → List PollEvent
unfolding coalesce_onto
coalesce kevs = coalesce_onto [] kevs
