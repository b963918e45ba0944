-- ===== src/Ipc/Json/Tests.antt =====
-- The field extraction at small texts.
use uma_serve.Base.{◌≡◌, refl, true, false, [], ◌∷◌, codes}
use uma_serve.Ipc.Json.{extract_json_string}

extract_json_string_test :
    extract_json_string (codes "{\"id\": \"a\\n\\u0041\", \"p\":1}") (codes "id")
    ≡ record { out = b'a' ∷ b'\n' ∷ b'?' ∷ []; invalid_escape = false }
unfolding extract_json_string
extract_json_string_test = refl

invalid_escape_test :
    (extract_json_string (codes "{\"id\":\"\\x\"}") (codes "id")).invalid_escape ≡ true
unfolding extract_json_string
invalid_escape_test = refl
