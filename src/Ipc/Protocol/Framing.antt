-- ===== src/Ipc/Protocol/Framing.antt =====
-- What a frame on the wire reads back as: `write_frame` and `try_read_frame` together.
use uma_serve.Base.{
  ℕ, zero, suc, refl, IsBytes, take, take-append-drop, length-take, ◌/◌, ◌%◌, ◌^◌, ◌≤◌, ◌<◌, ◌≡◌,
  ap, ◌∙◌, [], ◌∷◌, ◌++◌, arith, Bytes, length, length-append, take-length-append,
  drop-length-append, append_assoc,
}
use uma_serve.Ipc.Protocol.{
  incomplete, frame, read_u32_le, read_body, try_read_frame, header, write_frame,
}

pub read_u32_le-header :
    (n : ℕ)
    → n < 2 ^ 32
    → read_u32_le
        (n % 2 ^ 32 % 256)
        (n % 2 ^ 32 / 2 ^ 8 % 256)
        (n % 2 ^ 32 / 2 ^ 16 % 256)
        (n % 2 ^ 32 / 2 ^ 24 % 256)
      ≡ n
unfolding read_u32_le
read_u32_le-header n h = omega arith

-- The header's bytes lead to the part behind the length.
try_read_frame-header :
    (max n : ℕ) (body : Bytes)
    → n < 2 ^ 32
    → try_read_frame max (header n ++ body) ≡ read_body max n body
unfolding try_read_frame header
try_read_frame-header max n body h = ap (λ k. read_body max k body) (read_u32_le-header n h)

module _ (max : ℕ) (json : Bytes) where
  read_body-append :
      (rest : Bytes)
      → 0 < length json
      → length json ≤ max
      → read_body max (length json) (json ++ rest) ≡ frame json rest
  unfolding read_body
  read_body-append rest p q =
      ground
        (arith, length-append json rest, take-length-append json rest, drop-length-append json rest)

  read_body-short :
      (body : Bytes)
      → 0 < length json
      → length json ≤ max
      → length body < length json
      → read_body max (length json) body ≡ incomplete
  unfolding read_body
  read_body-short body p q h = ground arith

write_frame-append :
    (json rest : Bytes) → write_frame [] json ++ rest ≡ header (length json) ++ (json ++ rest)
unfolding write_frame
write_frame-append json rest = append_assoc (header (length json)) json rest

-- A payload that is not empty, within the limit and shorter than 2^32 bytes is read back from the
-- buffer that it was written to, and the bytes behind it are left in the buffer.
pub try_read_frame-write_frame :
    (max : ℕ) (json rest : Bytes)
    → 0 < length json
    → length json ≤ max
    → length json < 2 ^ 32
    → try_read_frame max (write_frame [] json ++ rest) ≡ frame json rest
unfolding write_frame
try_read_frame-write_frame max json rest p q w =
    rw (append_assoc (header (length json)) json rest) (
      try_read_frame-header max (length json) (json ++ rest) w ∙ read_body-append max json rest p q)

-- Of the frame of a payload that is not empty, within the limit and shorter than 2^32 bytes, no
-- proper prefix is taken for a frame or refused: each asks for more bytes.
pub try_read_frame-take :
    (max n : ℕ) (json : Bytes)
    → 0 < length json
    → length json ≤ max
    → length json < 2 ^ 32
    → n < length (write_frame [] json)
    → try_read_frame max (take n (write_frame [] json)) ≡ incomplete
unfolding write_frame try_read_frame
try_read_frame-take max zero json p q w h = refl
try_read_frame-take max (suc zero) json p q w h = refl
try_read_frame-take max (suc (suc zero)) json p q w h = refl
try_read_frame-take max (suc (suc (suc zero))) json p q w h = refl
try_read_frame-take max (suc (suc (suc (suc k)))) json p q w h =
    try_read_frame-header max (length json) (take k json) w
    ∙ read_body-short max json (take k json) p q (omega (arith, length-take k json))

header-read_u32_le :
    (b0 b1 b2 b3 : ℕ)
    → b0 < 256
    → b1 < 256
    → b2 < 256
    → b3 < 256
    → header (read_u32_le b0 b1 b2 b3) ≡ b0 ∷ b1 ∷ b2 ∷ b3 ∷ []
unfolding header read_u32_le
header-read_u32_le b0 b1 b2 b3 h0 h1 h2 h3 = ground arith

read_body-frame :
    (max len : ℕ) (body : Bytes) {json rest : Bytes}
    → read_body max len body ≡ frame json rest
    → (0 < len) × (len ≤ max) × (length json ≡ len) × (json ++ rest ≡ body)
unfolding read_body
read_body-frame max len body e = ground (arith, length-take len body, take-append-drop len body)

-- From a buffer of bytes, a frame is read only if the buffer begins with
-- what `write_frame` makes of its payload, which is not empty and within the limit, and the rest
-- of the buffer is what is left.
pub try_read_frame-frame :
    (max : ℕ) (rx : Bytes) {json rest : Bytes}
    → IsBytes rx
    → try_read_frame max rx ≡ frame json rest
    → (rx ≡ write_frame [] json ++ rest) × (0 < length json) × (length json ≤ max)
unfolding try_read_frame
try_read_frame-frame max (b0 ∷ b1 ∷ b2 ∷ b3 ∷ body) {json} {rest} h e =
    let (p, q, l, a) = read_body-frame max (read_u32_le b0 b1 b2 b3) body e in
    let hd = header-read_u32_le b0 b1 b2 b3 h.0 h.1.0 h.1.1.0 h.1.1.1.0 in
    (rw (write_frame-append json rest, l, a, hd) refl, rw l p, rw l q)
try_read_frame-frame max _ h e = cc
