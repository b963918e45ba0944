-- ===== src/Umad/Session/Sent.antt =====
-- umad/main.cpp: what the writes of a writable descriptor send of the output of its session.
use uma_serve.Base.{
  ◌≡◌, refl, ap, ◌∙◌, List, [], ◌∷◌, ◌++◌, append_assoc, inl, inr, Bool-cases, Bytes, take, drop,
  take-append-drop, if◌then◌else◌,
}
use uma_serve.Ipc.Session.{ClientSession}
use uma_serve.Sched.Results.{is_empty}
use uma_serve.Umad.Session.{WriteCall, wrote, again, failed, flush}

-- The bytes that the calls of `write` take from the output.
pub sent_by : List WriteCall → Bytes → Bytes
sent_by [] tx = []
sent_by (wrote n now ∷ calls) tx =
    if is_empty tx then [] else take n tx ++ sent_by calls (drop n tx)
sent_by (again ∷ calls) tx = []
sent_by (failed ∷ calls) tx = []

module _ {D : Type 0} where
  -- What the calls of `write` take and what is left are the output as it was.
  pub flush-sent_by :
      (calls : List WriteCall) (s : ClientSession D)
      → sent_by calls s.tx ++ (flush calls s).0.tx ≡ s.tx
  unfolding sent_by flush
  flush-sent_by [] s = refl
  flush-sent_by (wrote n now ∷ calls) s = elim (Bool-cases (is_empty s.tx)) [
    | inl e ↦ rw (sent_by, flush, e) refl
    | inr e ↦
        let s' = record s { tx = drop n s.tx; last_activity_ns = now } in
        rw (sent_by, flush, e)
          (append_assoc (take n s.tx) (sent_by calls s'.tx) (flush calls s').0.tx
            ∙ ap (λ x. take n s.tx ++ x) (flush-sent_by calls s')
            ∙ take-append-drop n s.tx)
  ]
  flush-sent_by (again ∷ calls) s = refl
  flush-sent_by (failed ∷ calls) s = refl

  pub flush-keeps :
      (calls : List WriteCall) (s : ClientSession D)
      → ((flush calls s).0.state ≡ s.state)
        × ((flush calls s).0.request_id ≡ s.request_id)
        × ((flush calls s).0.generated_count ≡ s.generated_count)
  unfolding flush
  flush-keeps [] s = (refl, refl, refl)
  flush-keeps (wrote n now ∷ calls) s = elim (Bool-cases (is_empty s.tx)) [
    | inl e ↦ rw (flush, e) (refl, refl, refl)
    | inr e ↦
        rw (flush, e) (flush-keeps calls (record s { tx = drop n s.tx; last_activity_ns = now }))
  ]
  flush-keeps (again ∷ calls) s = (refl, refl, refl)
  flush-keeps (failed ∷ calls) s = (refl, refl, refl)
