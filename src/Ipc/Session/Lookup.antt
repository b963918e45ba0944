-- ===== src/Ipc/Session/Lookup.antt =====
-- Laws of the session map.
use uma_serve.Base.{
  ℕ, ◌≡◌, refl, List, [], ◌∷◌, Option, some, map, arith, ◌==◌, if◌then◌else◌, All, Absent, Distinct,
}
use mathlib.Core.Option
use uma_serve.Ipc.Session.{ClientSession, SessionPool, find, store}

module _ {D : Type 0} where
  abbrev pub keys : SessionPool D → List ℕ
  keys = map (λ kv. kv.0)

  abbrev pub Own : SessionPool D → Type 0
  Own = All (λ (kv : ℕ × ClientSession D). kv.1.fd ≡ kv.0)

  -- Every session stands under its own descriptor, and under no other.
  pub record IsKeyed (pool : SessionPool D) : Type 0 where
    pub own : Own pool
    pub distinct : Distinct (keys pool)

  pub find-store :
      (fd j : ℕ) (v : ClientSession D) (pool : SessionPool D)
      → find j (store fd v pool)
        ≡ (if fd == j then Option.map (λ _. v) (find j pool) else find j pool)
  unfolding find store
  find-store fd j v [] = ground arith
  find-store fd j v ((k, s) ∷ pool) = ground (arith, find-store fd j v pool)

  pub keys-store :
      (fd : ℕ) (v : ClientSession D) (pool : SessionPool D) → keys (store fd v pool) ≡ keys pool
  unfolding store
  keys-store fd v [] = refl
  keys-store fd v ((k, s) ∷ pool) = ground (arith, keys-store fd v pool)

  -- Each entry of the map is what `find` gives under its key.
  abbrev pub Holds : SessionPool D → SessionPool D → Type 0
  Holds sessions = All (λ (kv : ℕ × ClientSession D). find kv.0 sessions ≡ some kv.1)

  Holds-cons :
      (k : ℕ) (s : ClientSession D) (sessions pool : SessionPool D)
      → Absent k (keys pool)
      → Holds sessions pool
      → Holds ((k, s) ∷ sessions) pool
  unfolding find
  Holds-cons k s sessions [] a h = tt
  Holds-cons k s sessions ((j, v) ∷ pool) a h =
      (ground (arith, a.0), Holds-cons k s sessions pool a.1 h.1)

  pub Holds-self : (pool : SessionPool D) → Distinct (keys pool) → Holds pool pool
  Holds-self [] d = tt
  Holds-self ((k, s) ∷ pool) d =
      (unfold find in ground arith, Holds-cons k s pool pool d.0 (Holds-self pool d.1))

  store-Own :
      (fd : ℕ) (v : ClientSession D) (pool : SessionPool D)
      → v.fd ≡ fd
      → Own pool
      → Own (store fd v pool)
  unfolding store
  store-Own fd v [] e o = tt
  store-Own fd v ((k, s) ∷ pool) e o = ground (arith, o.0, o.1, store-Own fd v pool e o.1)

  find-Own :
      (fd : ℕ) (pool : SessionPool D) (s : ClientSession D)
      → Own pool
      → find fd pool ≡ some s
      → s.fd ≡ fd
  unfolding find
  find-Own fd [] s o e = cc
  find-Own fd ((k, t) ∷ pool) s o e = ground (arith, o.0, o.1, find-Own fd pool s o.1)

  pub find-fd :
      (fd : ℕ) (pool : SessionPool D) (s : ClientSession D)
      → IsKeyed pool
      → find fd pool ≡ some s
      → s.fd ≡ fd
  find-fd fd pool s h e = find-Own fd pool s h.own e

  pub store-IsKeyed :
      (fd : ℕ) (v : ClientSession D) (pool : SessionPool D)
      → v.fd ≡ fd
      → IsKeyed pool
      → IsKeyed (store fd v pool)
  store-IsKeyed fd v pool e h = record {
    own = store-Own fd v pool e h.own;
    distinct = rw (keys-store fd v pool) h.distinct;
  }

  -- The descriptors of the map, each with its session's sequence.
  abbrev pub identities : SessionPool D → List (ℕ × Option ℕ)
  identities [] = []
  identities ((k, s) ∷ pool) = (k, s.seq) ∷ identities pool

  pub identities-store :
      (fd : ℕ) (s v : ClientSession D) (pool : SessionPool D)
      → find fd pool ≡ some s
      → v.seq ≡ s.seq
      → identities (store fd v pool) ≡ identities pool
  unfolding find store
  identities-store fd s v [] e h = refl
  identities-store fd s v ((k, t) ∷ pool) e h = ground (arith, identities-store fd s v pool)
