-- ===== src/Umad/Loop/Capacity.antt =====
-- The loop never holds more sessions than are configured, nor two with the same sequence.
pub mod Handlers
pub mod Events
pub mod Turns
use uma_serve.Base.{
  ℕ, suc, false, ◌+◌, ◌≤◌, ◌≡◌, refl, sym, ap, ◌∙◌, inl, inr, List, [], ◌∷◌, Option, none, some,
  arith, ltb, leb, ◌==◌, if◌then◌else◌, Option-cases, subst, length,
}
use uma_serve.Ipc.Manager.{
  ReadCall, SessionManager, assign, erase, new_session, add_client, close, on_readable,
}
use uma_serve.Ipc.Manager.Sequences.{
  holders, IsAllocated, add_client-IsAllocated, close-IsAllocated, on_readable-IsAllocated,
}
use uma_serve.Ipc.Request.{Numbers}
use uma_serve.Ipc.Session.{ClientSession, SessionPool, find, store}
use uma_serve.Ipc.Session.Lookup.{identities, identities-store}
use uma_serve.Runtime.Config.{RuntimeConfig}
use uma_serve.Runtime.Tokens.{Vocab}

module _ {D : Type 0} where
  pub record IsWithin (cfg : RuntimeConfig) (m : SessionManager D) : Type 0 where
    pub capacity : length m.sessions ≤ cfg.max_sessions
    pub allocated : IsAllocated m

  length-assign :
      (fd : ℕ) (v : ClientSession D) (pool : SessionPool D)
      → length (assign fd v pool) ≤ length pool + 1
  unfolding assign
  length-assign fd v [] = omega arith
  length-assign fd v ((k, s) ∷ pool) = ground (arith, length-assign fd v pool)

  length-erase : (fd : ℕ) (pool : SessionPool D) → length (erase fd pool) ≤ length pool
  unfolding erase
  length-erase fd [] = omega arith
  length-erase fd ((k, s) ∷ pool) = ground (arith, length-erase fd pool)

  length-store :
      (fd : ℕ) (v : ClientSession D) (pool : SessionPool D) → length (store fd v pool) ≡ length pool
  unfolding store
  length-store fd v [] = refl
  length-store fd v ((k, s) ∷ pool) = ground (arith, length-store fd v pool)

  length-identities : (pool : SessionPool D) → length (identities pool) ≡ length pool
  length-identities [] = refl
  length-identities ((k, s) ∷ pool) = ap suc (length-identities pool)

  -- Sessions that differ neither in their number nor in their sequences have the same holders.
  holders-identities :
      (a : ℕ) (pool pool' : SessionPool D)
      → identities pool ≡ identities pool'
      → holders a pool ≡ holders a pool'
  unfolding holders
  holders-identities a [] [] e = refl
  holders-identities a [] ((k, s) ∷ pool') e = absurd (cc)
  holders-identities a ((k, s) ∷ pool) [] e = absurd (cc)
  holders-identities a ((k, s) ∷ pool) ((k', s') ∷ pool') e =
      ground (arith, holders-identities a pool pool', e)

  pub identities-IsWithin :
      (cfg : RuntimeConfig) (m m' : SessionManager D)
      → identities m'.sessions ≡ identities m.sessions
      → m'.next_seq_id ≡ m.next_seq_id
      → IsWithin cfg m
      → IsWithin cfg m'
  identities-IsWithin cfg m m' e n h = record {
    capacity = omega (
      arith,
      length-identities m.sessions,
      length-identities m'.sessions,
      ap (length {A = ℕ × Option ℕ}) e,
      h.capacity,
    );
    allocated =
        λ a. rw n (omega (arith, h.allocated a, holders-identities a m'.sessions m.sessions e));
  }

  pub store-IsWithin :
      (cfg : RuntimeConfig) (fd : ℕ) (s v : ClientSession D) (m : SessionManager D)
      → find fd m.sessions ≡ some s
      → v.seq ≡ s.seq
      → IsWithin cfg m
      → IsWithin cfg (record m { sessions = store fd v m.sessions })
  store-IsWithin cfg fd s v m e same =
      identities-IsWithin cfg m _ (identities-store fd s v m.sessions e same) refl

  close-length :
      (fd : ℕ) (m : SessionManager D) → length (close fd m).0.sessions ≤ length m.sessions
  unfolding close
  close-length fd m = elim (Option-cases (find fd m.sessions)) [
    | inl e ↦ rw (e, close) (omega arith)
    | inr (s, e) ↦ rw (e, close) (length-erase fd m.sessions)
  ]

  pub close-IsWithin :
      (cfg : RuntimeConfig) (fd : ℕ) (m : SessionManager D)
      → IsWithin cfg m
      → IsWithin cfg (close fd m).0
  close-IsWithin cfg fd m h = record {
    capacity = omega (arith, h.capacity, close-length fd m);
    allocated = close-IsAllocated fd m h.allocated;
  }

module _ {D : Type 0} (cfg : RuntimeConfig) (vocab : Vocab) (numbers : Numbers D) (now_ns : ℕ) where
  -- A client is accepted only where there is room.
  pub add_client-IsWithin :
      (fd : ℕ) (m : SessionManager D)
      → leb cfg.max_sessions (length m.sessions) ≡ false
      → IsWithin cfg m
      → IsWithin cfg (add_client numbers fd now_ns m)
  add_client-IsWithin fd m room h = record {
    capacity =
        unfold add_client in
        ground (arith, room, length-assign fd (new_session numbers fd now_ns) m.sessions);
    allocated = add_client-IsAllocated cfg vocab numbers now_ns fd m h.allocated;
  }

  on_readable-length :
      (fd : ℕ) (calls : List ReadCall) (m : SessionManager D)
      → length (on_readable cfg vocab numbers now_ns fd calls m).0.sessions ≡ length m.sessions
  unfolding on_readable
  on_readable-length fd calls m = elim (Option-cases (find fd m.sessions)) [
    | inl e ↦ rw (e, on_readable) refl
    | inr (s, e) ↦ rw (e, on_readable) (length-store fd _ m.sessions)
  ]

  pub on_readable-IsWithin :
      (fd : ℕ) (calls : List ReadCall) (m : SessionManager D)
      → IsWithin cfg m
      → IsWithin cfg (on_readable cfg vocab numbers now_ns fd calls m).0
  on_readable-IsWithin fd calls m h = record {
    capacity = rw (on_readable-length fd calls m) h.capacity;
    allocated = on_readable-IsAllocated cfg vocab numbers now_ns fd calls m h.allocated;
  }
