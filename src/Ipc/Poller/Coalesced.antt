-- ===== src/Ipc/Poller/Coalesced.antt =====
-- The events of the kernel, put together by descriptor.
use uma_serve.Base.{
  ℕ, ◌≡◌, refl, sym, subst, ◌∙◌, ◌≢◌, inl, inr, Bool, true, false, ◌||◌, List, [], ◌∷◌, map, arith,
  ◌==◌, if◌then◌else◌, Absent, Distinct, Bool-cases,
}
use uma_serve.Ipc.Poller.{
  PollFlags, no_flags, ◌∪◌, PollEvent, Kevent, flags_of, merge, coalesce_onto, coalesce,
}

-- The flags of all events of the kernel for a descriptor, in one set.
pub union_of : ℕ → List Kevent → PollFlags
union_of fd [] = no_flags
union_of fd (k ∷ kevs) = if k.ident == fd then flags_of k ∪ union_of fd kevs else union_of fd kevs

-- The flags that a list of events has for a descriptor.
pub flags_for : ℕ → List PollEvent → PollFlags
flags_for fd [] = no_flags
flags_for fd (e ∷ events) = if e.fd == fd then e.f else flags_for fd events

abbrev pub fds : List PollEvent → List ℕ
fds = map (λ e. e.fd)

flags-merge :
    (fd k : ℕ) (f : PollFlags) (acc : List PollEvent)
    → flags_for fd (merge k f acc) ≡ (if k == fd then flags_for fd acc ∪ f else flags_for fd acc)
unfolding flags_for merge ◌∪◌
flags-merge fd k f [] = ground arith
flags-merge fd k f (e ∷ acc) = ground (arith, flags-merge fd k f acc)

or_assoc : (a b c : Bool) → (a || (b || c)) ≡ ((a || b) || c)
or_assoc true b c = refl
or_assoc false b c = refl

or_false : (a : Bool) → (a || false) ≡ a
or_false true = refl
or_false false = refl

union_assoc : (a b c : PollFlags) → a ∪ (b ∪ c) ≡ (a ∪ b) ∪ c
unfolding ◌∪◌
union_assoc a b c i = record {
  read = or_assoc a.read b.read c.read i;
  write = or_assoc a.write b.write c.write i;
  hup = or_assoc a.hup b.hup c.hup i;
  err = or_assoc a.err b.err c.err i;
}

union_none : (a : PollFlags) → a ∪ no_flags ≡ a
unfolding ◌∪◌
union_none a i = record {
  read = or_false a.read i;
  write = or_false a.write i;
  hup = or_false a.hup i;
  err = or_false a.err i;
}

flags-coalesce_onto :
    (fd : ℕ) (acc : List PollEvent) (kevs : List Kevent)
    → flags_for fd (coalesce_onto acc kevs) ≡ flags_for fd acc ∪ union_of fd kevs
unfolding coalesce_onto union_of
flags-coalesce_onto fd acc [] = sym (union_none (flags_for fd acc))
flags-coalesce_onto fd acc (k ∷ kevs) =
    let merged = flags-merge fd k.ident (flags_of k) acc in
    let rest = flags-coalesce_onto fd (merge k.ident (flags_of k) acc) kevs in
    elim (Bool-cases (k.ident == fd)) [
      | inl e ↦
          rest
          ∙ rw (merged, e) (sym (union_assoc (flags_for fd acc) (flags_of k) (union_of fd kevs)))
      | inr e ↦ rest ∙ rw (merged, e)
    ]

Absent-merge :
    (a k : ℕ) (f : PollFlags) (acc : List PollEvent)
    → k ≢ a
    → Absent a (fds acc)
    → Absent a (fds (merge k f acc))
unfolding merge
Absent-merge a k f [] n h = (n, tt)
Absent-merge a k f (e ∷ acc) n h = ground (arith, n, h.0, h.1, Absent-merge a k f acc n h.1)

Distinct-merge :
    (k : ℕ) (f : PollFlags) (acc : List PollEvent)
    → Distinct (fds acc)
    → Distinct (fds (merge k f acc))
unfolding merge
Distinct-merge k f [] d = (tt, tt)
Distinct-merge k f (e ∷ acc) d = elim (Bool-cases (e.fd == k)) [
  | inl same ↦
      let own : e.fd ≡ k = ground arith in
      rw (merge, same) (subst (λ x. Absent x (fds acc)) own d.0, d.1)
  | inr other ↦
      rw (merge, other) (Absent-merge e.fd k f acc (ground arith) d.0, Distinct-merge k f acc d.1)
]

Distinct-coalesce_onto :
    (acc : List PollEvent) (kevs : List Kevent)
    → Distinct (fds acc)
    → Distinct (fds (coalesce_onto acc kevs))
unfolding coalesce_onto
Distinct-coalesce_onto acc [] d = d
Distinct-coalesce_onto acc (k ∷ kevs) d =
    Distinct-coalesce_onto (merge k.ident (flags_of k) acc) kevs
      (Distinct-merge k.ident (flags_of k) acc d)

-- The events that `wait` gives name no descriptor twice, and for every descriptor the flags are
-- those of all events of the kernel for it, in one set.
pub coalesce_exact :
    (kevs : List Kevent)
    → Distinct (fds (coalesce kevs)) × ((fd : ℕ) → flags_for fd (coalesce kevs) ≡ union_of fd kevs)
unfolding coalesce union_of ◌∪◌
coalesce_exact kevs =
    (Distinct-coalesce_onto [] kevs tt, λ fd. unfold flags_for in flags-coalesce_onto fd [] kevs)
