-- ===== src/Sched/Policy/Serves.antt =====
-- What a plan's items mean: the tokens that they take, and the session that each one serves.
use uma_serve.Base.{
  ℕ, ◌+◌, ◌≤◌, ◌<◌, ◌≡◌, ◌⊎◌, Bool, true, List, [], ◌∷◌, ◌++◌, some, arith, length,
}
use uma_serve.Ipc.Session.{ClientSession, SessionPool, find}
use uma_serve.Sched.Policy.{
  Phase, prefill, decode, BatchItem, burst, is_decode_ready, is_prefill_ready,
}

-- The tokens of the items of one phase.
abbrev pub decode_tokens : List BatchItem → ℕ
decode_tokens [] = 0
decode_tokens (item ∷ items) =
    elim item.phase [ decode ↦ item.n_tokens | prefill ↦ 0 ] + decode_tokens items

abbrev pub prefill_tokens : List BatchItem → ℕ
prefill_tokens [] = 0
prefill_tokens (item ∷ items) =
    elim item.phase [ decode ↦ 0 | prefill ↦ item.n_tokens ] + prefill_tokens items

pub decode_tokens-append :
    (xs ys : List BatchItem) → decode_tokens (xs ++ ys) ≡ decode_tokens xs + decode_tokens ys
decode_tokens-append [] ys = omega arith
decode_tokens-append (x ∷ xs) ys = omega (arith, decode_tokens-append xs ys)

pub prefill_tokens-append :
    (xs ys : List BatchItem) → prefill_tokens (xs ++ ys) ≡ prefill_tokens xs + prefill_tokens ys
prefill_tokens-append [] ys = omega arith
prefill_tokens-append (x ∷ xs) ys = omega (arith, prefill_tokens-append xs ys)

-- The entries that an item puts into the batch: a decode item puts one, whatever its count says.
abbrev pub entries : Phase → ℕ → ℕ
entries decode n = 1
entries prefill n = n

abbrev pub entries_of : List BatchItem → ℕ
entries_of [] = 0
entries_of (item ∷ items) = entries item.phase item.n_tokens + entries_of items

module _ {D : Type 0} where
  -- What an item asks of the session that it names.
  abbrev pub Suits : Phase → ℕ → ClientSession D → Type 0
  Suits decode n s = (is_decode_ready s ≡ true) × (n ≡ 1)
  Suits prefill n s =
      (is_prefill_ready s ≡ true)
      × (0 < n)
      × (s.prefill_idx + n ≤ length s.prompt_tokens)
      × ((0 < s.first_emit_ns) ⊎ (n ≤ burst))

  abbrev pub Serves : SessionPool D → BatchItem → Type 0
  Serves sessions item =
      (s : ClientSession D) × (find item.fd sessions ≡ some s) × Suits item.phase item.n_tokens s

  abbrev pub IsReady : SessionPool D → (ClientSession D → Bool) → ℕ → Type 0
  IsReady sessions ready fd = (s : ClientSession D) × (find fd sessions ≡ some s) × (ready s ≡ true)
