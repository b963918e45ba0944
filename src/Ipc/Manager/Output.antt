-- ===== src/Ipc/Manager/Output.antt =====
-- Whether a session of the map has output that waits to be written.
use uma_serve.Base.{
  ℕ, ◌≡◌, refl, ap, ◌∙◌, ◌⊎◌, inl, inr, Bool, true, false, List, [], ◌∷◌, Option, none, some, arith,
  ◌==◌, if◌then◌else◌, Bytes, Absent, Distinct, Option-cases,
}
use uma_serve.Ipc.Manager.{
  ReadCall, got, eof, again, failed, Drained, blocked, closed, broken, SessionManager, assign,
  erase, close, drain, handle_drained, read_session, on_readable,
}
use uma_serve.Ipc.Protocol.{FrameRead, incomplete, invalid, frame, message}
use uma_serve.Ipc.Request.{ReadResult, Numbers, Handled, nothing_to_do, handle_frame, error_code}
use uma_serve.Ipc.Request.Outcome.{
  Outcome, refused, admin, ended, started, handle_request-Outcome, reject-Refused,
}
use uma_serve.Ipc.Session.{ClientSession, SessionPool, find, store}
use uma_serve.Ipc.Session.Lookup.{keys, find-store}
use uma_serve.Runtime.Config.{RuntimeConfig}
use uma_serve.Runtime.Tokens.{Vocab}

abbrev pub has_bytes : Bytes → Bool
has_bytes [] = false
has_bytes (b ∷ bytes) = true

module _ {D : Type 0} where
  abbrev pub has_output : Option (ClientSession D) → Bool
  has_output none = false
  has_output (some s) = has_bytes s.tx

  -- The session under a descriptor has output.
  abbrev pub pending : ℕ → SessionPool D → Bool
  pending fd pool = has_output (find fd pool)

  pub pending-store :
      (fd j : ℕ) (v : ClientSession D) (pool : SessionPool D)
      → pending j (store fd v pool) ≡ true
      → (if fd == j then has_bytes v.tx else pending j pool) ≡ true
  pending-store fd j v pool h = ground (arith, find-store fd j v pool)

  pub pending-store_same :
      (fd j : ℕ) (s v : ClientSession D) (pool : SessionPool D)
      → find fd pool ≡ some s
      → v.tx ≡ s.tx
      → pending j (store fd v pool) ≡ pending j pool
  pending-store_same fd j s v pool e h = ground (arith, find-store fd j v pool)

  pub find-store_self :
      (fd : ℕ) (s v : ClientSession D) (pool : SessionPool D)
      → find fd pool ≡ some s
      → find fd (store fd v pool) ≡ some v
  find-store_self fd s v pool e = ground (arith, find-store fd fd v pool)

  pub find-assign :
      (fd j : ℕ) (v : ClientSession D) (pool : SessionPool D)
      → find j (assign fd v pool) ≡ (if fd == j then some v else find j pool)
  unfolding find assign
  find-assign fd j v [] = refl
  find-assign fd j v ((k, s) ∷ pool) = ground (arith, find-assign fd j v pool)

  find-Absent : (a : ℕ) (pool : SessionPool D) → Absent a (keys pool) → find a pool ≡ none
  unfolding find
  find-Absent a [] h = refl
  find-Absent a ((k, s) ∷ pool) h = ground (arith, h.0, find-Absent a pool h.1)

  pub find-erase :
      (fd j : ℕ) (pool : SessionPool D)
      → Distinct (keys pool)
      → find j (erase fd pool) ≡ (if fd == j then none else find j pool)
  unfolding find erase
  find-erase fd j [] d = ground arith
  find-erase fd j ((k, s) ∷ pool) d =
      ground (arith, find-erase fd j pool d.1, find-Absent k pool d.0)

module _ {D : Type 0} where
  pub close-pending :
      (fd j : ℕ) (m : SessionManager D)
      → Distinct (keys m.sessions)
      → pending j (close fd m).0.sessions ≡ (if fd == j then false else pending j m.sessions)
  unfolding close
  close-pending fd j m d = elim (Option-cases (find fd m.sessions)) [
    | inl e ↦ rw (e, close) (ground arith)
    | inr (s, e) ↦ rw (e, close) (ground (arith, find-erase fd j m.sessions d))
  ]

module _ {D : Type 0} where
  -- Output that was there stays as it is, or the caller is told to write.
  abbrev pub Told : Handled D → Handled D → Type 0
  Told h h' = (h'.session.tx ≡ h.session.tx) ⊎ (h'.result.wants_write ≡ true)

  Outcome-Told : (h h' : Handled D) → Outcome h h' → Told h h'
  Outcome-Told h h' (refused o) = inr (ap (λ (r : ReadResult). r.wants_write) o.result)
  Outcome-Told h h' (admin o) = inl o.tx
  Outcome-Told h h' (ended o) = inr o.wants_write
  Outcome-Told h h' (started o) = inl o.tx

  drain-tx :
      (now_ns : ℕ) (calls : List ReadCall) (s : ClientSession D)
      → (drain now_ns calls s).0.tx ≡ s.tx
  unfolding drain
  drain-tx now_ns [] s = refl
  drain-tx now_ns (got bytes ∷ calls) s = drain-tx now_ns calls _
  drain-tx now_ns (eof ∷ calls) s = refl
  drain-tx now_ns (again ∷ calls) s = refl
  drain-tx now_ns (failed ∷ calls) s = refl

module _ {D : Type 0} (cfg : RuntimeConfig) (vocab : Vocab) (numbers : Numbers D) (now_ns : ℕ) where
  handle_frame-Told :
      (r : FrameRead) (h : Handled D) → Told h (handle_frame cfg vocab numbers now_ns r h)
  unfolding handle_frame
  handle_frame-Told incomplete h = inl refl
  handle_frame-Told (invalid e) h =
      Outcome-Told h _ (refused (reject-Refused h.session.request_id (error_code e) (message e) h))
  handle_frame-Told (frame js rest) h =
      let h' = record h { session = record h.session { rx = rest } } in
      Outcome-Told h' _ (handle_request-Outcome cfg vocab numbers now_ns js h')

  handle_drained-Told :
      (d : Drained) (h : Handled D) → Told h (handle_drained cfg vocab numbers now_ns d h)
  unfolding handle_drained
  handle_drained-Told broken h = inl refl
  handle_drained-Told blocked h = handle_frame-Told _ h
  handle_drained-Told closed h = handle_frame-Told _ _

  pub read_session-Told :
      (calls : List ReadCall) (next : ℕ) (s : ClientSession D)
      → let h = read_session cfg vocab numbers now_ns calls next s in
        (h.session.tx ≡ s.tx) ⊎ (h.result.wants_write ≡ true)
  unfolding read_session
  read_session-Told calls next s =
      let (s', d) = drain now_ns calls s in
      let h : Handled D = record { session = s'; result = nothing_to_do; next_seq_id = next } in
      elim (handle_drained-Told d h) [ inl e ↦ inl (e ∙ drain-tx now_ns calls s) | inr w ↦ inr w ]

  pub on_readable-none :
      (fd : ℕ) (calls : List ReadCall) (m : SessionManager D)
      → find fd m.sessions ≡ none
      → on_readable cfg vocab numbers now_ns fd calls m ≡ (m, nothing_to_do)
  unfolding on_readable
  on_readable-none fd calls m e = rw (on_readable, e)

  pub on_readable-some :
      (fd : ℕ) (calls : List ReadCall) (m : SessionManager D) (s : ClientSession D)
      → find fd m.sessions ≡ some s
      → let h = read_session cfg vocab numbers now_ns calls m.next_seq_id s in
        on_readable cfg vocab numbers now_ns fd calls m ≡ (
          record { sessions = store fd h.session m.sessions; next_seq_id = h.next_seq_id },
          h.result,
        )
  unfolding on_readable
  on_readable-some fd calls m s e = rw (on_readable, e)
