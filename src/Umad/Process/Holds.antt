-- ===== src/Umad/Process/Holds.antt =====
-- What the daemon holds while `main` runs: descriptors, and what llama.cpp made.
use uma_serve.Base.{
  ℕ, ◌≡◌, refl, sym, ap, ◌∙◌, Bool, true, false, ◌||◌, if◌then◌else◌, arith, List, [], ◌∷◌, ◌++◌,
  map, Option, none, some,
}
use uma_serve.Ipc.Server.{Call}
use uma_serve.Ipc.Server.Descriptors.{after_call, on_open, without, calls_onto}
use uma_serve.Umad.Process.{
  Effect, backend_init, backend_free, model_loaded, model_freed, context_made, context_freed,
  socket, queue_made, queue_closed, changes, served, Run, around,
}

-- What is held of llama.cpp, the latest first.
pub data Resource : Type 0 where
  backend model context : Resource

-- The open descriptors of the daemon itself, those of its clients, and what is held of llama.cpp.
abbrev pub Holds : Type 0
Holds = List ℕ × List ℕ × List Resource

abbrev pub with_descriptors : List ℕ → List Resource → Option (List ℕ) → Option Holds
with_descriptors cs rs none = none
with_descriptors cs rs (some ds) = some (ds, cs, rs)

-- What is held behind one more effect; `none` for a release of what is not the latest, or of
-- something of llama.cpp while a descriptor of the daemon itself is open, and for a use of what is
-- not held.
abbrev pub after_effect : Effect → Holds → Option Holds
after_effect backend_init (ds, cs, rs) = some (ds, cs, backend ∷ rs)
after_effect model_loaded (ds, cs, backend ∷ rs) = some (ds, cs, model ∷ backend ∷ rs)
after_effect model_loaded (ds, cs, _) = none
after_effect context_made (ds, cs, model ∷ rs) = some (ds, cs, context ∷ model ∷ rs)
after_effect context_made (ds, cs, _) = none
after_effect context_freed ([], cs, context ∷ rs) = some ([], cs, rs)
after_effect context_freed (ds, cs, rs) = none
after_effect model_freed ([], cs, model ∷ rs) = some ([], cs, rs)
after_effect model_freed (ds, cs, rs) = none
after_effect backend_free ([], cs, backend ∷ rs) = some ([], cs, rs)
after_effect backend_free (ds, cs, rs) = none
after_effect (served clients) (ds, cs, context ∷ rs) = some (ds, clients ++ cs, context ∷ rs)
after_effect (served clients) (ds, cs, _) = none
after_effect (socket c) (ds, cs, rs) = with_descriptors cs rs (after_call c ds)
after_effect (queue_made handle) (ds, cs, rs) = some (handle ∷ ds, cs, rs)
after_effect (queue_closed handle) (ds, cs, rs) =
    with_descriptors cs rs (on_open handle ds (some (without handle ds)))
after_effect (changes handle _) (ds, cs, rs) = with_descriptors cs rs (on_open handle ds (some ds))
after_effect _ (ds, cs, rs) = some (ds, cs, rs)

abbrev pub and_effect : Effect → Option Holds → Option Holds
and_effect e none = none
and_effect e (some h) = after_effect e h

-- What is held behind all effects, in order.
unfoldable pub holds_after : Option Holds → List Effect → Option Holds
holds_after h [] = h
holds_after h (e ∷ effects) = holds_after (and_effect e h) effects

pub holds-append :
    (h : Option Holds) (xs ys : List Effect)
    → holds_after h (xs ++ ys) ≡ holds_after (holds_after h xs) ys
unfolding holds_after
holds-append h [] ys = refl
holds-append h (e ∷ xs) ys = holds-append (and_effect e h) xs ys

-- A list of effects that leads from what is held to something else.
abbrev pub Leads : Holds → List Effect → Holds → Type 0
Leads h effects h' = holds_after (some h) effects ≡ some h'

abbrev is_served : Effect → Bool
is_served (served _) = true
is_served _ = false

-- Whether the loop is run.
abbrev pub serves : List Effect → Bool
serves [] = false
serves (e ∷ effects) = is_served e || serves effects

pub serves-append : (xs ys : List Effect) → serves (xs ++ ys) ≡ (serves xs || serves ys)
serves-append [] ys = refl
serves-append (e ∷ xs) ys = ground (arith, serves-append xs ys)

pub serves-socket : (calls : List Call) → serves (map socket calls) ≡ false
serves-socket [] = refl
serves-socket (c ∷ calls) = serves-socket calls

-- The clients' descriptors that a run leaves open: the given ones, if the loop is run.
abbrev pub left_by : List ℕ → List Effect → List ℕ
left_by clients effects = if serves effects then clients else []

-- A run that leaves the daemon's own holdings as they were.
abbrev pub Ends : List ℕ → List ℕ × List Resource → List Effect → Type 0
Ends clients (ds, rs) effects = Leads (ds, [], rs) effects (ds, left_by clients effects, rs)

pub around-Ends :
    (clients : List ℕ) (h h' : List ℕ × List Resource) (front back : List Effect) (r : Run)
    → (serves front ≡ false) × (serves back ≡ false)
    → Leads (h.0, [], h.1) front (h'.0, [], h'.1)
    → Ends clients h' r.effects
    → ((cs : List ℕ) → Leads (h'.0, cs, h'.1) back (h.0, cs, h.1))
    → Ends clients h (around front r back).effects
unfolding around
around-Ends clients h h' front back r quiet f m b =
    let same : serves (front ++ (r.effects ++ back)) ≡ serves r.effects = ground (
      arith,
      quiet.0,
      quiet.1,
      serves-append front (r.effects ++ back),
      serves-append r.effects back,
    ) in
    holds-append (some (h.0, [], h.1)) front (r.effects ++ back)
    ∙ ap (λ x. holds_after x (r.effects ++ back)) f
    ∙ holds-append (some (h'.0, [], h'.1)) r.effects back
    ∙ ap (λ x. holds_after x back) m
    ∙ b (left_by clients r.effects)
    ∙ ap (λ (x : Bool). some (h.0, (if x then clients else []), h.1)) (sym same)

pub holds-socket :
    (cs : List ℕ) (rs : List Resource) (calls : List Call) (ds : Option (List ℕ))
    → holds_after (with_descriptors cs rs ds) (map socket calls)
      ≡ with_descriptors cs rs (calls_onto ds calls)
unfolding holds_after calls_onto
holds-socket cs rs [] ds = refl
holds-socket cs rs (c ∷ calls) none = holds-socket cs rs calls none
holds-socket cs rs (c ∷ calls) (some ds) = holds-socket cs rs calls (after_call c ds)
