-- ===== src/Sched/Results/Spoken.antt =====
-- What one sample adds to the output of its session.
use uma_serve.Base.{
  ℕ, ◌+◌, ◌^◌, ◌<◌, ◌≡◌, true, false, ◌||◌, Option, arith, Bytes, codes, leb, if◌then◌else◌,
}
use uma_serve.Ipc.Protocol.{append_token_event, append_eos_event}
use uma_serve.Ipc.Session.{ClientSession, decode, prefill, stream}
use uma_serve.Metrics.{Metrics}
use uma_serve.Runtime.Tokens.{token_to_piece_str}
use uma_serve.Sched.Backend.{Backend}
use uma_serve.Sched.Results.{is_empty, sampled}

module _ (backend : Backend) where
  open backend use {vocab}

  abbrev pub piece_of : ℕ → Bytes
  piece_of new_id = token_to_piece_str vocab new_id true

  -- The output behind one more token.
  abbrev pub spoken_onto : Bytes → Bytes → ℕ → Bytes
  spoken_onto tx id new_id =
      if is_empty (piece_of new_id) then tx else append_token_event tx id (piece_of new_id) new_id

module _ (backend : Backend) (ctx : backend.Context) (m : Option Metrics) (max_tokens : ℕ) where
  open backend use {Double, vocab}

  abbrev pub sample : ℕ → ℕ → ClientSession Double → ClientSession Double
  sample new_id now s = (sampled backend decode max_tokens now new_id s ctx m).0

  abbrev pub first_sample : ℕ → ℕ → ClientSession Double → ClientSession Double
  first_sample new_id now s = (sampled backend prefill max_tokens now new_id s ctx m).0

  pub first_sample_lem :
      (new_id now : ℕ) (s : ClientSession Double)
      → ((first_sample new_id now s).state ≡ decode)
        × ((first_sample new_id now s).request_id ≡ s.request_id)
        × ((first_sample new_id now s).generated_count ≡ s.generated_count)
        × ((first_sample new_id now s).tx ≡ spoken_onto backend s.tx s.request_id new_id)
  unfolding sampled
  first_sample_lem new_id now s = ground arith

  pub sample_continues :
      (new_id now : ℕ) (s : ClientSession Double)
      → vocab.llama_vocab_is_eog new_id ≡ false
      → s.generated_count < max_tokens
      → max_tokens < 2 ^ 32
      → ((sample new_id now s).state ≡ decode)
        × ((sample new_id now s).request_id ≡ s.request_id)
        × ((sample new_id now s).generated_count ≡ s.generated_count + 1)
        × ((sample new_id now s).tx ≡ spoken_onto backend s.tx s.request_id new_id)
  unfolding sampled
  sample_continues new_id now s h lt w = ground arith

  pub sample_ends :
      (new_id now : ℕ) (s : ClientSession Double)
      → (vocab.llama_vocab_is_eog new_id || leb max_tokens s.generated_count) ≡ true
      → ((sample new_id now s).state ≡ stream)
        × ((sample new_id now s).tx
            ≡ append_eos_event s.tx s.request_id
                (if leb max_tokens s.generated_count then codes "length" else codes "stop"))
  unfolding sampled
  sample_ends new_id now s h = ground arith
