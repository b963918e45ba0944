-- ===== src/Ipc/Protocol/Tests.antt =====
-- The theorems on frames and escapes, at small texts.
use uma_serve.Base.{inl, Bytes, ◌≤◌, ◌<◌, ◌≡◌, refl, [], ◌∷◌, ◌++◌, arith, codes, length, take}
use uma_serve.Ipc.Protocol.{frame, incomplete, header, try_read_frame, write_frame}
use uma_serve.Ipc.Protocol.Framing.{
  try_read_frame-write_frame, try_read_frame-take, try_read_frame-frame,
}
use uma_serve.Ipc.Protocol.{append_token_event, append_eos_event, append_error_event}
use uma_serve.Util.Utf8.Encoding.{IsUtf8, encode}
use uma_serve.Ipc.Protocol.Encoded.{all_ascii-IsUtf8}
use uma_serve.Ipc.Protocol.WellFormed.{IsFramed, events_well_formed}

-- An empty object, as a frame.
write_frame_test : write_frame [] (codes "{}") ≡ 2 ∷ 0 ∷ 0 ∷ 0 ∷ b'{' ∷ b'}' ∷ []
unfolding write_frame header
write_frame_test = refl

frame_test : try_read_frame 16 (2 ∷ 0 ∷ 0 ∷ 0 ∷ b'{' ∷ b'}' ∷ 9 ∷ []) ≡ frame (codes "{}") (9 ∷ [])
unfolding try_read_frame
frame_test = refl

try_read_frame-write_frame_example :
    try_read_frame 16 (write_frame [] (codes "{}") ++ 9 ∷ []) ≡ frame (codes "{}") (9 ∷ [])
try_read_frame-write_frame_example =
    try_read_frame-write_frame 16 (codes "{}") (9 ∷ []) (omega arith) (omega arith) (omega arith)

length-write_frame : 5 < length (write_frame [] (codes "{}"))
unfolding write_frame header
length-write_frame = omega arith

try_read_frame-take_example : try_read_frame 16 (take 5 (write_frame [] (codes "{}"))) ≡ incomplete
try_read_frame-take_example =
    try_read_frame-take 16 5 (codes "{}") (omega arith) (omega arith) (omega arith)
      length-write_frame

try_read_frame-frame_example :
    (2 ∷ 0 ∷ 0 ∷ 0 ∷ b'{' ∷ b'}' ∷ 9 ∷ [] ≡ write_frame [] (codes "{}") ++ 9 ∷ [])
    × (0 < 2)
    × (2 ≤ 16)
try_read_frame-frame_example =
    try_read_frame-frame 16 (2 ∷ 0 ∷ 0 ∷ 0 ∷ b'{' ∷ b'}' ∷ 9 ∷ [])
      (
        omega arith,
        (
          omega arith,
          (omega arith, (omega arith, (omega arith, (omega arith, (omega arith, tt))))),
        ),
      )
      frame_test

-- A newline and a character of two bytes.
abbrev piece : Bytes
piece = 10 ∷ 195 ∷ 169 ∷ []

piece-IsUtf8 : IsUtf8 piece
unfolding encode
piece-IsUtf8 = (10 ∷ 233 ∷ [], (inl (omega arith), (inl (omega arith), tt)), refl)

events_well_formed_example :
    IsFramed (9 ∷ []) (append_token_event (9 ∷ []) (codes "r\"1") piece 42)
    × IsFramed (9 ∷ []) (append_eos_event (9 ∷ []) (codes "r\"1") (codes "stop"))
    × IsFramed (9 ∷ []) (append_error_event (9 ∷ []) (codes "r\"1") (codes "E_X") (codes "a\\b"))
events_well_formed_example =
    events_well_formed (9 ∷ []) (codes "r\"1") piece (codes "stop") (codes "E_X") (codes "a\\b") 42
      (all_ascii-IsUtf8 _ refl) piece-IsUtf8 (all_ascii-IsUtf8 _ refl) (all_ascii-IsUtf8 _ refl)
      (all_ascii-IsUtf8 _ refl)
