-- ===== src/Ipc/Manager/Keyed.antt =====
-- Every session of the manager stands under its own descriptor, and under no other.
use uma_serve.Base.{
  ℕ, ◌≡◌, ◌≢◌, refl, ◌∙◌, inl, inr, List, [], ◌∷◌, arith, Absent, Distinct, Option-cases,
}
use uma_serve.Ipc.Manager.{
  ReadCall, got, eof, again, failed, Drained, blocked, closed, broken, SessionManager, assign,
  erase, new_session, add_client, close, drain, handle_drained, read_session, on_readable,
}
use uma_serve.Ipc.Manager.Sequences.{Event, accepted, shut, readable, after_event, after_events}
use uma_serve.Ipc.Protocol.{FrameRead, incomplete, invalid, frame}
use uma_serve.Ipc.Request.{Numbers, Handled, nothing_to_do, handle_frame, reject}
use uma_serve.Ipc.Request.Buffer.{handle_request-Kept}
use uma_serve.Ipc.Session.{ClientSession, SessionPool, find}
use uma_serve.Ipc.Session.Lookup.{IsKeyed, Own, keys, find-fd, store-IsKeyed}
use uma_serve.Runtime.Config.{RuntimeConfig}
use uma_serve.Runtime.Tokens.{Vocab}

module _ {D : Type 0} where
  Absent-assign :
      (a fd : ℕ) (v : ClientSession D) (pool : SessionPool D)
      → fd ≢ a
      → Absent a (keys pool)
      → Absent a (keys (assign fd v pool))
  unfolding assign
  Absent-assign a fd v [] n h = (n, tt)
  Absent-assign a fd v ((k, s) ∷ pool) n h =
      ground (arith, h.0, h.1, Absent-assign a fd v pool n h.1)

  assign-Distinct :
      (fd : ℕ) (v : ClientSession D) (pool : SessionPool D)
      → Distinct (keys pool)
      → Distinct (keys (assign fd v pool))
  unfolding assign
  assign-Distinct fd v [] d = (tt, tt)
  assign-Distinct fd v ((k, s) ∷ pool) d =
      ground (arith, d.0, d.1, assign-Distinct fd v pool d.1, Absent-assign k fd v pool)

  assign-Own :
      (fd : ℕ) (v : ClientSession D) (pool : SessionPool D)
      → v.fd ≡ fd
      → Own pool
      → Own (assign fd v pool)
  unfolding assign
  assign-Own fd v [] e o = (e, tt)
  assign-Own fd v ((k, s) ∷ pool) e o = ground (arith, o.0, o.1, assign-Own fd v pool e o.1)

  Absent-erase :
      (a fd : ℕ) (pool : SessionPool D) → Absent a (keys pool) → Absent a (keys (erase fd pool))
  unfolding erase
  Absent-erase a fd [] h = tt
  Absent-erase a fd ((k, s) ∷ pool) h = ground (arith, h.0, h.1, Absent-erase a fd pool h.1)

  erase-Distinct :
      (fd : ℕ) (pool : SessionPool D) → Distinct (keys pool) → Distinct (keys (erase fd pool))
  unfolding erase
  erase-Distinct fd [] d = tt
  erase-Distinct fd ((k, s) ∷ pool) d =
      ground (arith, d.0, d.1, erase-Distinct fd pool d.1, Absent-erase k fd pool d.0)

  erase-Own : (fd : ℕ) (pool : SessionPool D) → Own pool → Own (erase fd pool)
  unfolding erase
  erase-Own fd [] o = tt
  erase-Own fd ((k, s) ∷ pool) o = ground (arith, o.0, o.1, erase-Own fd pool o.1)

  drain-fd :
      (now_ns : ℕ) (calls : List ReadCall) (s : ClientSession D)
      → (drain now_ns calls s).0.fd ≡ s.fd
  unfolding drain
  drain-fd now_ns [] s = refl
  drain-fd now_ns (got bytes ∷ calls) s = drain-fd now_ns calls _
  drain-fd now_ns (eof ∷ calls) s = refl
  drain-fd now_ns (again ∷ calls) s = refl
  drain-fd now_ns (failed ∷ calls) s = refl

module _ {D : Type 0} (cfg : RuntimeConfig) (vocab : Vocab) (numbers : Numbers D) where
  handle_frame-fd :
      (now_ns : ℕ) (r : FrameRead) (h : Handled D)
      → (handle_frame cfg vocab numbers now_ns r h).session.fd ≡ h.session.fd
  unfolding handle_frame reject
  handle_frame-fd now_ns incomplete h = refl
  handle_frame-fd now_ns (invalid e) h = refl
  handle_frame-fd now_ns (frame js rest) h =
      (handle_request-Kept cfg vocab numbers now_ns js
        (record h { session = record h.session { rx = rest } })).fd

  handle_drained-fd :
      (now_ns : ℕ) (d : Drained) (h : Handled D)
      → (handle_drained cfg vocab numbers now_ns d h).session.fd ≡ h.session.fd
  unfolding handle_drained
  handle_drained-fd now_ns broken h = refl
  handle_drained-fd now_ns blocked h = handle_frame-fd now_ns _ h
  handle_drained-fd now_ns closed h = handle_frame-fd now_ns _ _

  pub read_session-fd :
      (now_ns : ℕ) (calls : List ReadCall) (next : ℕ) (s : ClientSession D)
      → (read_session cfg vocab numbers now_ns calls next s).session.fd ≡ s.fd
  unfolding read_session
  read_session-fd now_ns calls next s =
      let (s', d) = drain now_ns calls s in
      let h : Handled D = record { session = s'; result = nothing_to_do; next_seq_id = next } in
      handle_drained-fd now_ns d h ∙ drain-fd now_ns calls s

  pub close-IsKeyed :
      (fd : ℕ) (m : SessionManager D) → IsKeyed m.sessions → IsKeyed (close fd m).0.sessions
  unfolding close
  close-IsKeyed fd m h = elim (Option-cases (find fd m.sessions)) [
    | inl e ↦ rw (e, close) h
    | inr (s, e) ↦
        rw (e, close)
          (record {
            own = erase-Own fd m.sessions h.own;
            distinct = erase-Distinct fd m.sessions h.distinct;
          })
  ]

  pub on_readable-IsKeyed :
      (fd now_ns : ℕ) (calls : List ReadCall) (m : SessionManager D)
      → IsKeyed m.sessions
      → IsKeyed (on_readable cfg vocab numbers now_ns fd calls m).0.sessions
  unfolding on_readable
  on_readable-IsKeyed fd now_ns calls m h = elim (Option-cases (find fd m.sessions)) [
    | inl e ↦ rw (e, on_readable) h
    | inr (s, e) ↦
        let r = read_session cfg vocab numbers now_ns calls m.next_seq_id s in
        let same = read_session-fd now_ns calls m.next_seq_id s ∙ find-fd fd m.sessions s h e in
        rw (e, on_readable) (store-IsKeyed fd r.session m.sessions same h)
  ]

  pub add_client-IsKeyed :
      (fd now_ns : ℕ) (m : SessionManager D)
      → IsKeyed m.sessions
      → IsKeyed (add_client numbers fd now_ns m).sessions
  unfolding add_client new_session
  add_client-IsKeyed fd now_ns m h = record {
    own = assign-Own fd (new_session numbers fd now_ns) m.sessions refl h.own;
    distinct = assign-Distinct fd (new_session numbers fd now_ns) m.sessions h.distinct;
  }

  after_event-IsKeyed :
      (e : Event) (m : SessionManager D)
      → IsKeyed m.sessions
      → IsKeyed (after_event cfg vocab numbers e m).sessions
  unfolding after_event
  after_event-IsKeyed (accepted fd now_ns) m h = add_client-IsKeyed fd now_ns m h
  after_event-IsKeyed (shut fd) m h = close-IsKeyed fd m h
  after_event-IsKeyed (readable fd now_ns calls) m h = on_readable-IsKeyed fd now_ns calls m h

  -- Whatever clients are accepted, closed and read from, in whatever order, and whatever they
  -- send: if the map holds each session under its own descriptor and under no other, as the empty
  -- map does, then it still does.
  pub after_events-IsKeyed :
      (events : List Event) (m : SessionManager D)
      → IsKeyed m.sessions
      → IsKeyed (after_events cfg vocab numbers events m).sessions
  unfolding after_events
  after_events-IsKeyed [] m h = h
  after_events-IsKeyed (e ∷ events) m h =
      after_events-IsKeyed events (after_event cfg vocab numbers e m) (after_event-IsKeyed e m h)
