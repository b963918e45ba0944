-- ===== src/Ipc/Manager/Sequences.antt =====
-- Each sequence of the context belongs to one session at most.
use uma_serve.Base.{
  ℕ, ◌+◌, ◌≤◌, ◌≡◌, refl, ◌⊎◌, inl, inr, List, [], ◌∷◌, Option, none, some, arith, ltb, ◌==◌,
  if◌then◌else◌, Option-cases, subst,
}
use uma_serve.Ipc.Manager.{
  ReadCall, got, eof, again, failed, Drained, blocked, closed, broken, SessionManager, assign,
  erase, new_session, add_client, close, drain, handle_drained, read_session, on_readable,
}
use uma_serve.Ipc.Protocol.{FrameRead, incomplete, invalid, frame, message}
use uma_serve.Ipc.Request.{Numbers, Handled, nothing_to_do, handle_frame, error_code}
use uma_serve.Ipc.Request.Outcome.{
  Outcome, refused, admin, ended, started, handle_request-Outcome, reject-Refused,
}
use uma_serve.Ipc.Session.{ClientSession, SessionPool, find, store}
use uma_serve.Runtime.Config.{RuntimeConfig}
use uma_serve.Runtime.Tokens.{Vocab}

-- A session keeps its sequence and the counter stays, or it has none and is given the counter's.
abbrev SeqStep : Option ℕ → ℕ → Option ℕ → ℕ → Type 0
SeqStep seq next seq' next' =
    ((seq ≡ none) × (seq' ≡ some next) × (next' ≡ next + 1)) ⊎ ((seq' ≡ seq) × (next' ≡ next))

abbrev holds : ℕ → Option ℕ → ℕ
holds a none = 0
holds a (some seq) = if seq == a then 1 else 0

module _ {D : Type 0} where
  -- The number of sessions that a sequence belongs to.
  unfoldable pub holders : ℕ → SessionPool D → ℕ
  holders a [] = 0
  holders a ((k, s) ∷ pool) = holds a s.seq + holders a pool

  -- A sequence below the counter belongs to one session at most, any other to none.
  abbrev pub IsAllocated : SessionManager D → Type 0
  IsAllocated m = (a : ℕ) → holders a m.sessions ≤ (if ltb a m.next_seq_id then 1 else 0)

  -- The manager that the daemon starts with.
  abbrev pub initial : SessionManager D
  initial = record { sessions = []; next_seq_id = 1 }

  holders-assign :
      (a fd : ℕ) (v : ClientSession D) (pool : SessionPool D)
      → v.seq ≡ none
      → holders a (assign fd v pool) ≤ holders a pool
  unfolding holders assign
  holders-assign a fd v [] e = rw e (omega arith)
  holders-assign a fd v ((k, s) ∷ pool) e = ground (arith, holders-assign a fd v pool e)

  holders-erase : (a fd : ℕ) (pool : SessionPool D) → holders a (erase fd pool) ≤ holders a pool
  unfolding holders erase
  holders-erase a fd [] = omega arith
  holders-erase a fd ((k, s) ∷ pool) = ground (arith, holders-erase a fd pool)

  holders-store :
      (a fd : ℕ) (s v : ClientSession D) (pool : SessionPool D)
      → find fd pool ≡ some s
      → holders a (store fd v pool) + holds a s.seq ≡ holders a pool + holds a v.seq
  unfolding holders store find
  holders-store a fd s v [] e = cc
  holders-store a fd s v ((k, t) ∷ pool) e = ground (arith, holders-store a fd s v pool)

  drain-seq :
      (now_ns : ℕ) (calls : List ReadCall) (s : ClientSession D)
      → (drain now_ns calls s).0.seq ≡ s.seq
  unfolding drain
  drain-seq now_ns [] s = refl
  drain-seq now_ns (got bytes ∷ calls) s = drain-seq now_ns calls _
  drain-seq now_ns (eof ∷ calls) s = refl
  drain-seq now_ns (again ∷ calls) s = refl
  drain-seq now_ns (failed ∷ calls) s = refl

  abbrev HandledStep : Handled D → Handled D → Type 0
  HandledStep h h' = SeqStep h.session.seq h.next_seq_id h'.session.seq h'.next_seq_id

  Outcome-HandledStep : (h h' : Handled D) → Outcome h h' → HandledStep h h'
  Outcome-HandledStep h h' (refused o) = inr (o.seq, o.next_seq_id)
  Outcome-HandledStep h h' (admin o) = inr (o.seq, o.next_seq_id)
  Outcome-HandledStep h h' (ended o) = inr (o.seq, o.next_seq_id)
  Outcome-HandledStep h h' (started o) = o.seq

pub initial-IsAllocated : (D : Type 0) → IsAllocated {D = D} initial
unfolding holders
initial-IsAllocated D a = omega arith

module _ {D : Type 0} (cfg : RuntimeConfig) (vocab : Vocab) (numbers : Numbers D) (now_ns : ℕ) where
  handle_frame-HandledStep :
      (r : FrameRead) (h : Handled D) → HandledStep h (handle_frame cfg vocab numbers now_ns r h)
  unfolding handle_frame
  handle_frame-HandledStep incomplete h = inr (refl, refl)
  handle_frame-HandledStep (invalid e) h =
      Outcome-HandledStep h _
        (refused (reject-Refused h.session.request_id (error_code e) (message e) h))
  handle_frame-HandledStep (frame js rest) h =
      let h' = record h { session = record h.session { rx = rest } } in
      Outcome-HandledStep h' _ (handle_request-Outcome cfg vocab numbers now_ns js h')

  handle_drained-HandledStep :
      (d : Drained) (h : Handled D) → HandledStep h (handle_drained cfg vocab numbers now_ns d h)
  unfolding handle_drained
  handle_drained-HandledStep broken h = inr (refl, refl)
  handle_drained-HandledStep blocked h = handle_frame-HandledStep _ h
  handle_drained-HandledStep closed h = handle_frame-HandledStep _ _

  read_session-SeqStep :
      (calls : List ReadCall) (next : ℕ) (s : ClientSession D)
      → let h = read_session cfg vocab numbers now_ns calls next s in
        SeqStep s.seq next h.session.seq h.next_seq_id
  unfolding read_session
  read_session-SeqStep calls next s =
      let (s', d) = drain now_ns calls s in
      let h : Handled D = record { session = s'; result = nothing_to_do; next_seq_id = next } in
      let h' = handle_drained cfg vocab numbers now_ns d h in
      subst (λ seq. SeqStep seq next h'.session.seq h'.next_seq_id) (drain-seq now_ns calls s)
        (handle_drained-HandledStep d h)

  pub add_client-IsAllocated :
      (fd : ℕ) (m : SessionManager D) → IsAllocated m → IsAllocated (add_client numbers fd now_ns m)
  unfolding add_client new_session
  add_client-IsAllocated fd m h a =
      omega (arith, h a, holders-assign a fd (new_session numbers fd now_ns) m.sessions refl)

  -- What a session that changes means for the holders of the sequences.
  store-IsAllocated :
      (fd : ℕ) (s v : ClientSession D) (m : SessionManager D) (next' : ℕ)
      → IsAllocated m
      → find fd m.sessions ≡ some s
      → SeqStep s.seq m.next_seq_id v.seq next'
      → IsAllocated (record { sessions = store fd v m.sessions; next_seq_id = next' })
  store-IsAllocated fd s v m next' h e (inl (n, q, c)) a =
      let moved = holders-store a fd s v m.sessions e in
      let was : holds a s.seq ≡ 0 = rw n refl in
      let now : holds a v.seq ≡ (if m.next_seq_id == a then 1 else 0) = rw q refl in
      rw c (ground (arith, h a, moved, was, now))
  store-IsAllocated fd s v m next' h e (inr (q, c)) a =
      let moved = holders-store a fd s v m.sessions e in
      let same : holds a v.seq ≡ holds a s.seq = rw q refl in rw c (omega (arith, h a, moved, same))

  pub on_readable-IsAllocated :
      (fd : ℕ) (calls : List ReadCall) (m : SessionManager D)
      → IsAllocated m
      → IsAllocated (on_readable cfg vocab numbers now_ns fd calls m).0
  unfolding on_readable
  on_readable-IsAllocated fd calls m h = elim (Option-cases (find fd m.sessions)) [
    | inl e ↦ rw (e, on_readable) h
    | inr (s, e) ↦
        rw (e, on_readable)
          (store-IsAllocated fd s _ m _ h e (read_session-SeqStep calls m.next_seq_id s))
  ]

module _ {D : Type 0} where
  pub close-IsAllocated :
      (fd : ℕ) (m : SessionManager D) → IsAllocated m → IsAllocated (close fd m).0
  unfolding close
  close-IsAllocated fd m h a = elim (Option-cases (find fd m.sessions)) [
    | inl e ↦ rw (e, close) (h a)
    | inr (s, e) ↦ rw (e, close) (omega (arith, h a, holders-erase a fd m.sessions))
  ]

-- What the event loop calls: a client is accepted or closed, or its descriptor has something to
-- read; with the time, and with what `read` returns.
pub data Event : Type 0 where
  accepted : ℕ → ℕ → Event
  shut : ℕ → Event
  readable : ℕ → ℕ → List ReadCall → Event

module _ {D : Type 0} (cfg : RuntimeConfig) (vocab : Vocab) (numbers : Numbers D) where
  unfoldable pub after_event : Event → SessionManager D → SessionManager D
  after_event (accepted fd now_ns) m = add_client numbers fd now_ns m
  after_event (shut fd) m = (close fd m).0
  after_event (readable fd now_ns calls) m = (on_readable cfg vocab numbers now_ns fd calls m).0

  unfoldable pub after_events : List Event → SessionManager D → SessionManager D
  after_events [] m = m
  after_events (e ∷ events) m = after_events events (after_event e m)

  after_event-IsAllocated :
      (e : Event) (m : SessionManager D) → IsAllocated m → IsAllocated (after_event e m)
  unfolding after_event
  after_event-IsAllocated (accepted fd now_ns) m h =
      add_client-IsAllocated cfg vocab numbers now_ns fd m h
  after_event-IsAllocated (shut fd) m h = close-IsAllocated fd m h
  after_event-IsAllocated (readable fd now_ns calls) m h =
      on_readable-IsAllocated cfg vocab numbers now_ns fd calls m h

  -- Whatever clients are accepted, closed and read from, in whatever order, and whatever they
  -- send: if every sequence below the counter belongs to one session at most and any other to
  -- none, as is so of a manager without sessions, then that stays so.
  pub after_events-IsAllocated :
      (events : List Event) (m : SessionManager D)
      → IsAllocated m
      → IsAllocated (after_events events m)
  unfolding after_events
  after_events-IsAllocated [] m h = h
  after_events-IsAllocated (e ∷ events) m h =
      after_events-IsAllocated events (after_event e m) (after_event-IsAllocated e m h)
