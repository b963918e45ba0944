-- ===== src/Ipc/Session.antt =====
-- ipc/session.h: the state of one client, and the map of all clients.
-- A `double` is an abstract type `D`. `seq` is `none` where the source has -1, its only negative
-- value, and a negative `top_k`, which disables it as 0 does, is 0. The field `ctx` is left out: nothing but `nullptr` is ever assigned to it.
pub mod Lookup
use uma_serve.Base.{
  ℕ, Bool, true, false, List, [], ◌∷◌, Option, none, some, ◌==◌, if◌then◌else◌, Bytes,
}

pub data SessionState : Type 0 where
  recv_req prefill decode stream done errored : SessionState

abbrev pub is_prefill : SessionState → Bool
is_prefill prefill = true
is_prefill _ = false

abbrev pub is_decode : SessionState → Bool
is_decode decode = true
is_decode _ = false

pub record UmaSlo : Type 0 where
  pub target_ttft_ms : ℕ
  pub target_tbt_ms : ℕ
  pub priority : ℕ

pub record ClientSession (D : Type 0) : Type 0 where
  pub fd : ℕ
  pub rx : Bytes
  pub tx : Bytes
  pub seq : Option ℕ
  pub state : SessionState
  pub prompt_tokens : List ℕ
  pub prefill_idx : ℕ
  pub has_pending_tok : Bool
  pub pending_tok : ℕ
  pub n_past : ℕ
  pub generated_count : ℕ
  pub last_activity_ns : ℕ
  pub wants_stream : Bool
  pub read_closed : Bool
  pub last_error : Bytes
  pub slo : UmaSlo
  pub req_start_ns : ℕ
  pub first_emit_ns : ℕ
  pub last_emit_ns : ℕ
  pub temperature : D
  pub top_p : D
  pub top_k : ℕ
  pub request_id : Bytes

-- `std::unordered_map<int, std::unique_ptr<ClientSession>>`, in its order of iteration.
abbrev pub SessionPool : Type 0 → Type 0
SessionPool D = List (ℕ × ClientSession D)

module _ {D : Type 0} where
  unfoldable pub find : ℕ → SessionPool D → Option (ClientSession D)
  find fd [] = none
  find fd ((k, s) ∷ pool) = if k == fd then some s else find fd pool

  -- A write through the pointer that `find` gave; nothing happens without an entry.
  unfoldable pub store : ℕ → ClientSession D → SessionPool D → SessionPool D
  store fd v [] = []
  store fd v ((k, s) ∷ pool) = if k == fd then (k, v) ∷ pool else (k, s) ∷ store fd v pool
