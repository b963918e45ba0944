-- ===== src/Runtime/Tokens.antt =====
-- runtime/tokens.cpp over llama.cpp's vocabulary, which is a parameter. The vocabulary is never
-- null where these helpers are called.
use uma_serve.Base.{ℕ, Bool, List, [], Option, none, some, Bytes}

-- What llama.cpp computes of a text and of a token.
pub record Vocab : Type 0 where
  -- `llama_tokenize` with a buffer that holds the result: the tokens, or `none` for a code below 0.
  pub llama_tokenize : Bytes → Bool → Bool → Option (List ℕ)
  -- `llama_token_to_piece` with a buffer of so many bytes: the bytes, or `none` for a code below 0.
  pub llama_token_to_piece : ℕ → ℕ → Bool → Option Bytes
  pub llama_vocab_is_eog : ℕ → Bool
  pub llama_vocab_n_tokens : ℕ

-- The first pass only asks for the length; both passes see the same text.
unfoldable pub tokenize : Vocab → Bytes → Bool → Bool → List ℕ
tokenize vocab text add_bos special = elim (vocab.llama_tokenize text add_bos special) [
  | none ↦ []
  | some tokens ↦ tokens
]

unfoldable pub token_to_piece_str : Vocab → ℕ → Bool → Bytes
token_to_piece_str vocab token_id special = elim (vocab.llama_token_to_piece token_id 256 special) [
  | none ↦ []
  | some piece ↦ piece
]
