-- ===== src/Ipc/Server/Descriptors.antt =====
-- What the calls of the socket server do to the open descriptors.
use uma_serve.Base.{
  ℕ, ◌≡◌, refl, ap, ◌∙◌, List, [], ◌∷◌, ◌++◌, Option, none, some, ◌==◌, if◌then◌else◌,
}
use uma_serve.Ipc.Server.{
  Call, socket_made, set_cloexec, set_nonblock, bound, listening, set_nosigpipe, accepted_from,
  handled, closed,
}

-- The open descriptors behind one more call; `none` for a call on a descriptor that is not open.
abbrev pub on_open : ℕ → List ℕ → Option (List ℕ) → Option (List ℕ)
on_open fd [] behind = none
on_open fd (x ∷ xs) behind = if x == fd then behind else on_open fd xs behind

abbrev pub without : ℕ → List ℕ → List ℕ
without fd [] = []
without fd (x ∷ xs) = if x == fd then xs else x ∷ without fd xs

abbrev pub after_call : Call → List ℕ → Option (List ℕ)
after_call (socket_made fd) xs = some (fd ∷ xs)
after_call (set_cloexec fd flags) xs = on_open fd xs (some xs)
after_call (set_nonblock fd flags) xs = on_open fd xs (some xs)
after_call (bound fd path) xs = on_open fd xs (some xs)
after_call (listening fd backlog) xs = on_open fd xs (some xs)
after_call (set_nosigpipe fd) xs = on_open fd xs (some xs)
after_call (accepted_from fd cfd) xs = on_open fd xs (some (cfd ∷ xs))
after_call (handled fd) xs = on_open fd xs (some xs)
after_call (closed fd) xs = on_open fd xs (some (without fd xs))
after_call _ xs = some xs

abbrev pub and_call : Call → Option (List ℕ) → Option (List ℕ)
and_call c none = none
and_call c (some xs) = after_call c xs

unfoldable pub calls_onto : Option (List ℕ) → List Call → Option (List ℕ)
calls_onto xs [] = xs
calls_onto xs (c ∷ calls) = calls_onto (and_call c xs) calls

-- The open descriptors behind all calls, in order; `none` if one was on a descriptor that was not
-- open.
unfoldable pub descriptors : List Call → Option (List ℕ)
unfolding calls_onto
descriptors calls = calls_onto (some []) calls

calls_onto-append :
    (calls : List Call) (c : Call) (xs : Option (List ℕ))
    → calls_onto xs (calls ++ c ∷ []) ≡ and_call c (calls_onto xs calls)
unfolding calls_onto
calls_onto-append [] c xs = refl
calls_onto-append (d ∷ calls) c xs = calls_onto-append calls c (and_call d xs)

pub descriptors-append :
    (calls : List Call) (c : Call) (xs : List ℕ)
    → descriptors calls ≡ some xs
    → descriptors (calls ++ c ∷ []) ≡ after_call c xs
unfolding descriptors
descriptors-append calls c xs h = calls_onto-append calls c (some []) ∙ ap (and_call c) h
