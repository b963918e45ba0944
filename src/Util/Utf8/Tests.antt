-- ===== src/Util/Utf8/Tests.antt =====
-- The validator at single encodings, as tests/test_utf8.cpp has them.
use uma_serve.Base.{◌≡◌, ◌↔◌, refl, true, false, [], ◌∷◌, arith}
use uma_serve.Util.Utf8.{is_valid_utf8, is_continuation}
use uma_serve.Util.Utf8.Encoding.{IsUtf8}
use uma_serve.Util.Utf8.Exact.{is_valid_utf8_exact}

euro_test : is_valid_utf8 (0xE2 ∷ 0x82 ∷ 0xAC ∷ []) ≡ true
unfolding is_valid_utf8 is_continuation
euro_test = refl

overlong_test : is_valid_utf8 (0xC0 ∷ 0xAF ∷ []) ≡ false
unfolding is_valid_utf8 is_continuation
overlong_test = refl

surrogate_test : is_valid_utf8 (0xED ∷ 0xA0 ∷ 0x80 ∷ []) ≡ false
unfolding is_valid_utf8 is_continuation
surrogate_test = refl

truncated_test : is_valid_utf8 (0xE2 ∷ 0x82 ∷ []) ≡ false
unfolding is_valid_utf8 is_continuation
truncated_test = refl

is_valid_utf8_exact_example :
    (is_valid_utf8 (0xE2 ∷ 0x82 ∷ 0xAC ∷ []) ≡ true) ↔ IsUtf8 (0xE2 ∷ 0x82 ∷ 0xAC ∷ [])
is_valid_utf8_exact_example =
    is_valid_utf8_exact (0xE2 ∷ 0x82 ∷ 0xAC ∷ []) (omega arith, (omega arith, (omega arith, tt)))
