-- ===== src/Util/Utf8.antt =====
-- util/utf8.h: `is_valid_utf8`. The loop's three variables are a record; a `return false` inside
-- the loop is `none`.
pub mod Encoding
pub mod Exact
mod Tests
use uma_serve.Base.{
  ℕ, suc, ◌+◌, ◌-◌, Bool, true, false, not, ◌&&◌, ◌||◌, List, [], ◌∷◌, Option, none, some, ltb, leb,
  ◌==◌, if◌then◌else◌, bit_and, Bytes,
}

pub record Utf8State : Type 0 where
  pub remaining : ℕ
  pub lead : ℕ
  pub pos : ℕ

abbrev pub start : Utf8State
start = record { remaining = 0; lead = 0; pos = 0 }

-- `(c & 0xC0) == 0x80`.
unfoldable pub is_continuation : ℕ → Bool
is_continuation c = bit_and c 0xC0 == 0x80

-- `remaining == 0`: a byte that stands alone or leads a sequence.
lead_byte : Utf8State → ℕ → Option Utf8State
lead_byte s c =
    if leb c 0x7F
    then some s
    else if leb 0xC2 c && leb c 0xDF
    then some (record { remaining = 1; lead = c; pos = 0 })
    else if leb 0xE0 c && leb c 0xEF
    then some (record { remaining = 2; lead = c; pos = 0 })
    else if leb 0xF0 c && leb c 0xF4
    then some (record { remaining = 3; lead = c; pos = 0 })
    else none

-- The constraints on the first continuation byte.
refused_first : ℕ → ℕ → Bool
refused_first lead c =
    (lead == 0xE0 && ltb c 0xA0)
    || (lead == 0xED && ltb 0x9F c)
    || (lead == 0xF0 && ltb c 0x90)
    || (lead == 0xF4 && ltb 0x8F c)

continuation_byte : Utf8State → ℕ → Option Utf8State
unfolding refused_first is_continuation
continuation_byte s c =
    if not (is_continuation c)
    then none
    else if s.pos + 1 == 1 && refused_first s.lead c
    then none
    else if s.remaining - 1 == 0
    then some start
    else some (record s { remaining = s.remaining - 1; pos = s.pos + 1 })

unfoldable pub step : Utf8State → ℕ → Option Utf8State
unfolding lead_byte continuation_byte
step s c = if s.remaining == 0 then lead_byte s c else continuation_byte s c

unfoldable pub run : Utf8State → Bytes → Bool
run s [] = s.remaining == 0
run s (c ∷ cs) = elim (step s c) [ none ↦ false | some s' ↦ run s' cs ]

unfoldable pub is_valid_utf8 : Bytes → Bool
unfolding run step
is_valid_utf8 s = run start s
