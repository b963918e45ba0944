-- ===== src/Ipc/Manager/Pipelined.antt =====
-- Several requests that arrive together: one event reads one of them.
use uma_serve.Base.{
  ℕ, ◌≤◌, ◌<◌, ◌≡◌, ◌∙◌, List, [], ◌∷◌, ◌++◌, append_assoc, append-nil, arith, Bytes, length,
}
use uma_serve.Ipc.Manager.{
  ReadCall, got, eof, again, failed, blocked, drain, handle_drained, read_session,
}
use uma_serve.Ipc.Protocol.{frame, default_max_frame_bytes, try_read_frame, write_frame}
use uma_serve.Ipc.Protocol.Framing.{try_read_frame-write_frame}
use uma_serve.Ipc.Request.{Numbers, Handled, nothing_to_do, handle_request, handle_frame}
use uma_serve.Ipc.Request.Buffer.{handle_request-Kept}
use uma_serve.Ipc.Session.{ClientSession}
use uma_serve.Runtime.Config.{RuntimeConfig}
use uma_serve.Runtime.Tokens.{Vocab}

-- The bytes that a read loop takes in.
abbrev pub received : List ReadCall → Bytes
received [] = []
received (got bytes ∷ calls) = bytes ++ received calls
received (eof ∷ calls) = []
received (again ∷ calls) = []
received (failed ∷ calls) = []

module _ {D : Type 0} (cfg : RuntimeConfig) (vocab : Vocab) (numbers : Numbers D) (now_ns : ℕ) where
  drain-rx :
      (calls : List ReadCall) (s : ClientSession D)
      → (drain now_ns calls s).0.rx ≡ s.rx ++ received calls
  unfolding drain
  drain-rx [] s = rw append-nil
  drain-rx (got bytes ∷ calls) s =
      drain-rx calls (record s { rx = s.rx ++ bytes; last_activity_ns = now_ns })
      ∙ append_assoc s.rx bytes (received calls)
  drain-rx (eof ∷ calls) s = rw append-nil
  drain-rx (again ∷ calls) s = rw append-nil
  drain-rx (failed ∷ calls) s = rw append-nil

  handle_drained-frame :
      (json rest : Bytes) (h : Handled D)
      → try_read_frame default_max_frame_bytes h.session.rx ≡ frame json rest
      → handle_drained cfg vocab numbers now_ns blocked h
        ≡ handle_request cfg vocab numbers now_ns json
            (record h { session = record h.session { rx = rest } })
  unfolding handle_drained handle_frame
  handle_drained-frame json rest h e = rw e

  -- Let a read loop end because the descriptor blocks, and let the buffer then hold the frame of a
  -- payload, not empty and within the limit, and further bytes behind it. Then the event is the
  -- handling of that one payload, and all the further bytes stay in the buffer, whole frames
  -- among them included: they wait for another event.
  pub read_session-frame :
      (calls : List ReadCall) (next : ℕ) (s : ClientSession D) (json rest : Bytes)
      → (drain now_ns calls s).1 ≡ blocked
      → s.rx ++ received calls ≡ write_frame [] json ++ rest
      → 0 < length json
      → length json ≤ default_max_frame_bytes
      → (read_session cfg vocab numbers now_ns calls next s
          ≡ handle_request cfg vocab numbers now_ns json (record {
            session = record (drain now_ns calls s).0 { rx = rest };
            result = nothing_to_do;
            next_seq_id = next;
          }))
        × ((read_session cfg vocab numbers now_ns calls next s).session.rx ≡ rest)
  read_session-frame calls next s json rest ended holds p q =
      let (s', d) = drain now_ns calls s in
      let h : Handled D = record { session = s'; result = nothing_to_do; next_seq_id = next } in
      let read : try_read_frame default_max_frame_bytes s'.rx ≡ frame json rest =
        rw (drain-rx calls s, holds)
          (try_read_frame-write_frame default_max_frame_bytes json rest p q (omega arith)) in
      let handled : read_session cfg vocab numbers now_ns calls next s
          ≡ handle_request cfg vocab numbers now_ns json
              (record h { session = record h.session { rx = rest } }) =
        unfold read_session in rw ended (handle_drained-frame json rest h read) in
      (handled, rw handled (handle_request-Kept cfg vocab numbers now_ns json _).rx)
