-- ===== src/Ipc/Protocol/Digits.antt =====
-- What `to_string` prints: digits.
use uma_serve.Base.{ℕ, zero, suc, ◌+◌, ◌≤◌, ◌/◌, ◌%◌, [], ◌∷◌, arith, All, Bytes}
use uma_serve.Ipc.Protocol.{decimal, to_string}

abbrev pub IsDigits : Bytes → Type 0
IsDigits = All (λ c. (b'0' ≤ c) × (c ≤ b'9'))

decimal-IsDigits : (f n : ℕ) (out : Bytes) → IsDigits out → IsDigits (decimal f n out)
unfolding decimal
decimal-IsDigits zero n out h = h
decimal-IsDigits (suc f) n out h =
    let first : (b'0' ≤ b'0' + n % 10) × (b'0' + n % 10 ≤ b'9') = ground arith in
    ground (arith, first, h, decimal-IsDigits f (n / 10) ((b'0' + n % 10) ∷ out) (first, h))

pub to_string-IsDigits : (n : ℕ) → IsDigits (to_string n)
unfolding to_string
to_string-IsDigits n = decimal-IsDigits (suc n) n [] tt
