-- ===== src/Ipc/Protocol.antt =====
-- ipc/protocol.cpp and ipc/protocol.h: frames, JSON escaping, and the three event builders.
-- A `std::vector<uint8_t>` and a `std::string` are both lists of bytes.
pub mod Framing
pub mod Escape
pub mod Digits
pub mod Encoded
pub mod Grammar
pub mod WellFormed
mod Tests
use uma_serve.Base.{
  ℕ, zero, suc, ◌+◌, ◌-◌, ◌*◌, ◌/◌, ◌%◌, ◌^◌, List, [], ◌∷◌, ◌++◌, Bytes, codes, length, take, drop,
  ltb, ◌==◌, if◌then◌else◌, ◌||◌, Bool,
}

-- `kDefaultMaxFrameBytes`.
abbrev pub default_max_frame_bytes : ℕ
default_max_frame_bytes = 1 * 1024 * 1024

-- The two values of `err_msg`.
pub data FrameError : Type 0 where
  zero_length too_large : FrameError

abbrev pub message : FrameError → Bytes
message zero_length = codes "invalid frame length 0"
message too_large = codes "frame too large"

-- What `try_read_frame` leaves: more bytes are needed (`rx` unchanged), `err_msg` is set (`rx`
-- unchanged), or a payload and what is left of `rx`.
pub data FrameRead : Type 0 where
  incomplete : FrameRead
  invalid : FrameError → FrameRead
  frame : Bytes → Bytes → FrameRead

-- The shifted bytes do not overlap, so the source's `|` is a sum.
unfoldable pub read_u32_le : ℕ → ℕ → ℕ → ℕ → ℕ
read_u32_le b0 b1 b2 b3 = b0 + b1 * 2 ^ 8 + b2 * 2 ^ 16 + b3 * 2 ^ 24

-- The part behind the length, `body` being the bytes behind the four of the header.
read_body : ℕ → ℕ → Bytes → FrameRead
read_body max_frame_bytes len body =
    if len == 0
    then invalid zero_length
    else if ltb max_frame_bytes len
    then invalid too_large
    else if ltb (4 + length body) (4 + len)
    then incomplete
    else frame (take len body) (drop len body)

unfoldable pub try_read_frame : ℕ → Bytes → FrameRead
unfolding read_body read_u32_le
try_read_frame max_frame_bytes (b0 ∷ b1 ∷ b2 ∷ b3 ∷ body) =
    read_body max_frame_bytes (read_u32_le b0 b1 b2 b3) body
try_read_frame max_frame_bytes _ = incomplete

-- The four bytes of a length, after its conversion to `uint32_t`.
unfoldable pub header : ℕ → Bytes
header size =
    let len = size % 2 ^ 32 in
    len % 256 ∷ (len / 2 ^ 8) % 256 ∷ (len / 2 ^ 16) % 256 ∷ (len / 2 ^ 24) % 256 ∷ []

unfoldable pub write_frame : Bytes → Bytes → Bytes
unfolding header
write_frame tx json = tx ++ header (length json) ++ json

-- A digit of `%04x`.
unfoldable pub hex_digit : ℕ → ℕ
hex_digit d = if ltb d 10 then b'0' + d else b'a' + d - 10

abbrev pub backslashed : ℕ → Bytes
backslashed c = b'\\' ∷ c ∷ []

-- What the switch of `json_escape` appends for one byte.
unfoldable pub escape_byte : ℕ → Bytes
unfolding hex_digit
escape_byte c =
    if c == b'"'
    then backslashed b'"'
    else if c == b'\\'
    then backslashed b'\\'
    else if c == b'\n'
    then backslashed b'n'
    else if c == b'\r'
    then backslashed b'r'
    else if c == b'\t'
    then backslashed b't'
    else if ltb c 0x20
    then b'\\' ∷ b'u' ∷ b'0' ∷ b'0' ∷ hex_digit (c / 16) ∷ hex_digit (c % 16) ∷ []
    else c ∷ []

escape_onto : Bytes → Bytes → Bytes
escape_onto out [] = out
escape_onto out (c ∷ cs) = escape_onto (out ++ escape_byte c) cs

unfoldable pub json_escape : Bytes → Bytes
unfolding escape_onto escape_byte
json_escape s = escape_onto [] s

decimal : ℕ → ℕ → Bytes → Bytes
decimal zero n out = out
decimal (suc f) n out =
    let digit : ℕ = b'0' + n % 10 in
    let rest = decimal f (n / 10) (digit ∷ out) in if ltb n 10 then digit ∷ out else rest

-- `std::to_string` of an int that is not negative: `n + 1` rounds are more than its digits.
unfoldable pub to_string : ℕ → Bytes
unfolding decimal
to_string n = decimal (suc n) n []

-- The builders differ in the text between the escaped fields; each ends in `write_frame`.
unfoldable pub append_token_event : Bytes → Bytes → Bytes → ℕ → Bytes
append_token_event tx id text token_id = write_frame tx (
    codes "{\"id\":\""
    ++ json_escape id
    ++ codes "\","
    ++ codes "\"event\":\"token\","
    ++ codes "\"text\":\""
    ++ json_escape text
    ++ codes "\","
    ++ codes "\"token_id\":"
    ++ to_string token_id
    ++ codes "}")

unfoldable pub append_eos_event : Bytes → Bytes → Bytes → Bytes
append_eos_event tx id reason = write_frame tx (
    codes "{\"id\":\""
    ++ json_escape id
    ++ codes "\",\"event\":\"eos\",\"reason\":\""
    ++ json_escape reason
    ++ codes "\"}")

unfoldable pub append_error_event : Bytes → Bytes → Bytes → Bytes → Bytes
append_error_event tx id code message = write_frame tx (
    codes "{\"id\":\""
    ++ json_escape id
    ++ codes "\",\"event\":\"error\","
    ++ codes "\"code\":\""
    ++ json_escape code
    ++ codes "\",\"message\":\""
    ++ json_escape message
    ++ codes "\"}")
