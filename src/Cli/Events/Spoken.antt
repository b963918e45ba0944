-- ===== src/Cli/Events/Spoken.antt =====
-- A whole response, from the samples of the scheduler over the writes of the event loop to what the
-- client prints.
use uma_serve.Base.{
  ℕ, ◌+◌, ◌^◌, ◌≤◌, ◌<◌, ◌≡◌, refl, sym, ap, subst, ◌∙◌, true, false, ◌||◌, List, [], ◌∷◌, ◌++◌,
  Option, some, append_assoc, append-nil, arith, All, Bytes, codes, length, leb, if◌then◌else◌,
}
use uma_serve.Cli.Events.{at_header, receive, Read}
use uma_serve.Cli.Events.Response.{
  IsCutting, deliver_all, bytes_of, written, payloads, printed, response_received,
}
use uma_serve.Ipc.Json.Keys.{names}
use uma_serve.Ipc.Protocol.{append_eos_event}
use uma_serve.Ipc.Session.{ClientSession, decode}
use uma_serve.Metrics.{Metrics}
use uma_serve.Sched.Backend.{Backend}
use uma_serve.Sched.Results.Spoken.{
  spoken_onto, sample, first_sample, first_sample_lem, sample_continues, sample_ends,
}
use uma_serve.Umad.Session.{WriteCall, flush}
use uma_serve.Umad.Session.Sent.{sent_by, flush-sent_by, flush-keeps}
use uma_serve.Cli.Events.Onto.{append_eos_event-append, spoken, written-spoken, spoken_onto-append}

-- The reason that the limit gives, for so many tokens behind the first.
abbrev pub reason_of : ℕ → ℕ → Bytes
reason_of max_tokens n = if leb max_tokens n then codes "length" else codes "stop"

-- What happens to a session in DECODE, one thing behind the other: a sample, at a time, or calls of
-- `write`.
pub data Moment : Type 0 where
  sample_at : ℕ → ℕ → Moment
  writable : List WriteCall → Moment

abbrev pub samples : List Moment → List ℕ
samples [] = []
samples (sample_at new_id now ∷ moments) = new_id ∷ samples moments
samples (writable calls ∷ moments) = samples moments

-- What has been sent, and the session.
pub record Reply (D : Type 0) : Type 0 where
  pub sent : Bytes
  pub session : ClientSession D

-- All that was written for the client, sent or not.
abbrev pub output : {D : Type 0} → Reply D → Bytes
output r = r.sent ++ r.session.tx

module _ (backend : Backend) (ctx : backend.Context) (m : Option Metrics) (max_tokens : ℕ) where
  open backend use {Double, vocab}

  unfoldable pub after_moment : Moment → Reply Double → Reply Double
  after_moment (sample_at new_id now) r = record r {
    session = sample backend ctx m max_tokens new_id now r.session;
  }
  after_moment (writable calls) r = record {
    sent = r.sent ++ sent_by calls r.session.tx;
    session = (flush calls r.session).0;
  }

  unfoldable pub reply : List Moment → Reply Double → Reply Double
  unfolding after_moment
  reply [] r = r
  reply (moment ∷ moments) r = reply moments (after_moment moment r)

  after_moment-writable :
      (calls : List WriteCall) (r : Reply Double)
      → output (after_moment (writable calls) r) ≡ output r
  unfolding after_moment
  after_moment-writable calls r =
      append_assoc r.sent (sent_by calls r.session.tx) (flush calls r.session).0.tx
      ∙ ap (λ x. r.sent ++ x) (flush-sent_by calls r.session)

  reply-spoken :
      (moments : List Moment) (r : Reply Double)
      → max_tokens < 2 ^ 32
      → r.session.state ≡ decode
      → All (λ new_id. vocab.llama_vocab_is_eog new_id ≡ false) (samples moments)
      → r.session.generated_count + length (samples moments) ≤ max_tokens
      → let r' = reply moments r in
        (r'.session.state ≡ decode)
        × (r'.session.request_id ≡ r.session.request_id)
        × (r'.session.generated_count ≡ r.session.generated_count + length (samples moments))
        × ((reason : Bytes)
            → written (output r') r.session.request_id [] reason
              ≡ written (output r) r.session.request_id (spoken backend (samples moments)) reason)
  unfolding reply after_moment spoken
  reply-spoken [] r w d n l = (d, refl, omega arith, λ reason. refl)
  reply-spoken (sample_at new_id now ∷ moments) r w d n l =
      let s = r.session in
      let (d', id, c, tx) =
        sample_continues backend ctx m max_tokens new_id now s n.0 (omega arith) w in
      let r' = after_moment (sample_at new_id now) r in
      let (d'', id', c', all) = reply-spoken moments r' w d' n.1 (omega arith) in
      let onto : output r' ≡ spoken_onto backend (output r) s.request_id new_id =
        ap (λ x. r.sent ++ x) tx ∙ spoken_onto-append backend r.sent s.tx s.request_id new_id in
      (
        d'',
        id' ∙ id,
        omega arith,
        λ reason.
            subst
              (λ i.
                written (output (reply moments r')) i [] reason
                ≡ written (output r') i (spoken backend (samples moments)) reason)
              id (all reason)
            ∙ ap (λ x. written x s.request_id (spoken backend (samples moments)) reason) onto
            ∙ sym (written-spoken backend (output r) s.request_id reason new_id (samples moments)),
      )
  reply-spoken (writable calls ∷ moments) r w d n l =
      let r' = after_moment (writable calls) r in
      let (d1, id1, c1) = flush-keeps calls r.session in
      let (d', id, c, all) = reply-spoken moments r' w (d1 ∙ d) n (omega arith) in
      (
        d',
        id ∙ id1,
        omega arith,
        λ reason.
            subst
              (λ i.
                written (output (reply moments r')) i [] reason
                ≡ written (output r') i (spoken backend (samples moments)) reason)
              id1 (all reason)
            ∙ ap (λ x. written x r.session.request_id (spoken backend (samples moments)) reason)
                (after_moment-writable calls r),
      )

  -- The reply to a request: the first sample, what happens then, the last sample, and the writes
  -- that follow it.
  unfoldable pub replied :
      ℕ → ℕ → List Moment → ℕ → ℕ → List WriteCall → ClientSession Double → Reply Double
  unfolding reply after_moment
  replied first now moments last now' writes s = after_moment (writable writes) (
      after_moment (sample_at last now') (
        reply moments
          (record { sent = []; session = first_sample backend ctx m max_tokens first now s })))

  replied-written :
      (first now : ℕ) (moments : List Moment) (last now' : ℕ) (writes : List WriteCall)
      (s : ClientSession Double)
      → max_tokens < 2 ^ 32
      → s.tx ≡ []
      → s.generated_count ≡ 0
      → All (λ new_id. vocab.llama_vocab_is_eog new_id ≡ false) (samples moments)
      → length (samples moments) ≤ max_tokens
      → (vocab.llama_vocab_is_eog last || leb max_tokens (length (samples moments))) ≡ true
      → output (replied first now moments last now' writes s)
        ≡ written [] s.request_id
            (spoken backend (first ∷ samples moments))
            (reason_of max_tokens (length (samples moments)))
  unfolding replied after_moment written
  replied-written first now moments last now' writes s w t g n l e =
      let ids = samples moments in
      let s1 = first_sample backend ctx m max_tokens first now s in
      let (d1, id1, c1, tx1) = first_sample_lem backend ctx m max_tokens first now s in
      let r1 : Reply Double = record { sent = []; session = s1 } in
      let (d2, id2, c2, all) = reply-spoken moments r1 w d1 n (omega arith) in
      let r2 = reply moments r1 in
      let count : r2.session.generated_count ≡ length ids = omega arith in
      let (d3, tx3) =
        sample_ends backend ctx m max_tokens last now' r2.session
          (subst (λ k. (vocab.llama_vocab_is_eog last || leb max_tokens k) ≡ true) (sym count) e) in
      let r3 = after_moment (sample_at last now') r2 in
      after_moment-writable writes r3
      ∙ ap (λ x. r2.sent ++ x) tx3
      ∙ sym (
          append_eos_event-append r2.sent r2.session.tx r2.session.request_id
            (reason_of max_tokens r2.session.generated_count))
      ∙ ap (λ k. append_eos_event (output r2) r2.session.request_id (reason_of max_tokens k)) count
      ∙ ap (λ i. append_eos_event (output r2) i (reason_of max_tokens (length ids))) id2
      ∙ all (reason_of max_tokens (length ids))
      ∙ ap (λ i. written s1.tx i (spoken backend ids) (reason_of max_tokens (length ids))) id1
      ∙ ap (λ x. written x s.request_id (spoken backend ids) (reason_of max_tokens (length ids)))
          (tx1 ∙ ap (λ x. spoken_onto backend x s.request_id first) t)
      ∙ sym (written-spoken backend [] s.request_id (reason_of max_tokens (length ids)) first ids)

  -- A whole response. Let the limit be below 2^32, the output of a session empty and its count 0, and
  -- let the first sample be followed, with writes of any sizes between them, by at
  -- most as many samples as the limit says, none of which ends the generation, and by one that ends
  -- it or comes at the limit. Once the writes behind it have sent all of the output, what was sent
  -- is the token events of the samples with a text, the first one included whatever it is, and an
  -- end with the reason "length" exactly at the limit. If the id of the request neither is `text`
  -- nor ends in a quote and `text`, and no payload has 2^32 bytes, then over these bytes, however
  -- the calls of `read` cut the payloads, the client prints the texts in order as it reads them
  -- back, a newline, and exits with 0.
  pub response_spoken :
      (cut : Bytes → List Bytes) (first now : ℕ) (moments : List Moment) (last now' : ℕ)
      (writes : List WriteCall) (s : ClientSession Double) (later : List Read)
      → IsCutting cut
      → max_tokens < 2 ^ 32
      → s.tx ≡ []
      → s.generated_count ≡ 0
      → All (λ new_id. vocab.llama_vocab_is_eog new_id ≡ false) (samples moments)
      → length (samples moments) ≤ max_tokens
      → (vocab.llama_vocab_is_eog last || leb max_tokens (length (samples moments))) ≡ true
      → (replied first now moments last now' writes s).session.tx ≡ []
      → names (codes "text") s.request_id ≡ false
      → All
          (λ js. length js < 2 ^ 32)
          (payloads s.request_id
            (spoken backend (first ∷ samples moments))
            (reason_of max_tokens (length (samples moments))))
      → let tokens = spoken backend (first ∷ samples moments) in
        let reads =
          deliver_all cut
            (payloads s.request_id tokens (reason_of max_tokens (length (samples moments)))) in
        ((replied first now moments last now' writes s).sent ≡ bytes_of reads)
        × (receive false at_header (reads ++ later)
            ≡ record { prints = printed tokens; exit_code = some 0 })
  response_spoken cut first now moments last now' writes s later cuts w t g n l e flushed named
        short =
      let r = replied first now moments last now' writes s in
      let tokens = spoken backend (first ∷ samples moments) in
      let reason = reason_of max_tokens (length (samples moments)) in
      let (bytes, prints) =
        response_received cut cuts s.request_id reason tokens later named short in
      (
        sym (append-nil r.sent)
            ∙ ap (λ x. r.sent ++ x) (sym flushed)
            ∙ replied-written first now moments last now' writes s w t g n l e
            ∙ sym bytes,
        prints,
      )
