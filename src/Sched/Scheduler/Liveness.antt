-- ===== src/Sched/Scheduler/Liveness.antt =====
-- Ticks, one after the other: every response of a small pool ends.
use uma_serve.Base.{
  ℕ, ◌+◌, ◌^◌, ◌≤◌, ◌<◌, ◌≡◌, refl, sym, ap, ◌∙◌, inl, inr, true, List, [], ◌∷◌, some, arith,
  length, Option,
}
use uma_serve.Ipc.Session.{ClientSession, SessionPool, decode, stream, find}
use uma_serve.Ipc.Session.Lookup.{identities}
use uma_serve.Runtime.Config.{RuntimeConfig}
use uma_serve.Sched.Backend.{Backend}
use uma_serve.Sched.Batch.{empty_batch, enact}
use uma_serve.Sched.Policy.Cursors.{schedule_tick-cursors}
use uma_serve.Sched.Policy.Listed.{decode_pool-length, prefill_pool-length}
use uma_serve.Sched.Scheduler.{Scheduler, Ticked, planned, tick}
use uma_serve.Sched.Scheduler.Keyed.{tick-IsKeyed}
use uma_serve.Sched.Scheduler.Planned.{HasRoom, planned-fields}
use uma_serve.Sched.Scheduler.Progress.{Decodes, tick-served, tick-idle, finish_tick-fields}
use uma_serve.Sched.Scheduler.Reports.{tick-identities}

length-identities :
    {D : Type 0} (sessions : SessionPool D) → length (identities sessions) ≡ length sessions
length-identities [] = refl
length-identities ((k, s) ∷ sessions) = omega (arith, length-identities sessions)

module _ (backend : Backend) where
  open backend use {Double}

  -- The ticks at the given times, each with the time that its batch takes.
  pub ticks : List (ℕ × ℕ) → Ticked backend → Ticked backend
  ticks [] t = t
  ticks ((now_ns, dur_ns) ∷ times) t =
      ticks times (tick backend t.scheduler t.sessions now_ns dur_ns)

  module _ (now_ns dur_ns : ℕ) (sched : Scheduler backend) (sessions : SessionPool Double) where
    tick-length : length (tick backend sched sessions now_ns dur_ns).sessions ≡ length sessions
    tick-length =
        sym (length-identities (tick backend sched sessions now_ns dur_ns).sessions)
        ∙ ap (length {A = ℕ × Option ℕ}) (tick-identities backend now_ns dur_ns sched sessions)
        ∙ length-identities sessions

    tick-max_tokens :
        (tick backend sched sessions now_ns dur_ns).scheduler.config.max_tokens
        ≡ sched.config.max_tokens
    unfolding tick
    tick-max_tokens =
        let (plan, sched') = planned backend sched sessions in
        let (sessions', b) = enact plan.items (sessions, empty_batch) in
        ap (λ (c : RuntimeConfig). c.max_tokens)
          ((finish_tick-fields backend now_ns dur_ns plan b sched' sessions').0
            ∙ (planned-fields backend sched sessions).0)

    tick-HasRoom :
        HasRoom backend sched sessions
        → let t = tick backend sched sessions now_ns dur_ns in
          HasRoom backend t.scheduler t.sessions
    unfolding tick
    tick-HasRoom h =
        let (plan, sched') = planned backend sched sessions in
        let (sessions', b) = enact plan.items (sessions, empty_batch) in
        let (config, cap, target, d, p) =
          finish_tick-fields backend now_ns dur_ns plan b sched' sessions' in
        let (config', cap', target', d', p') = planned-fields backend sched sessions in
        let cursors =
          schedule_tick-cursors sessions sched.batch_cap sched.target_batch sched.rr_decode_idx
            sched.rr_prefill_idx in
        let n = tick-length in
        record {
          keyed = tick-IsKeyed backend now_ns dur_ns sched sessions h.keyed;
          few = omega (arith, n, h.few);
          cap = omega (arith, n, h.cap, cap, cap');
          target = omega (
            arith,
            n,
            target (length sessions) h.few (omega (arith, h.cap, cap'))
                (omega (arith, h.target, target')),
          );
          rr_decode = omega (arith, d, d', cursors.0, decode_pool-length sessions, h.few);
          rr_prefill = omega (arith, p, p', cursors.1, prefill_pool-length sessions, h.few);
        }

  module _ (laws : Decodes backend) (a : ℕ) where
    ticks-stream :
        (times : List (ℕ × ℕ)) (t : Ticked backend) (s : ClientSession Double)
        → HasRoom backend t.scheduler t.sessions
        → find a t.sessions ≡ some s
        → s.state ≡ stream
        → find a (ticks times t).sessions ≡ some s
    unfolding ticks
    ticks-stream [] t s h e d = e
    ticks-stream ((now_ns, dur_ns) ∷ times) t s h e d =
        ticks-stream times (tick backend t.scheduler t.sessions now_ns dur_ns) s
          (tick-HasRoom now_ns dur_ns t.scheduler t.sessions h)
          (tick-idle backend laws now_ns dur_ns a s t.scheduler t.sessions h e (rw d refl)
            (rw d refl))
          d

    ticks-ends :
        (max_tokens : ℕ) (times : List (ℕ × ℕ)) (t : Ticked backend) (s : ClientSession Double)
        → HasRoom backend t.scheduler t.sessions
        → t.scheduler.config.max_tokens ≡ max_tokens
        → max_tokens < 2 ^ 32
        → find a t.sessions ≡ some s
        → s.state ≡ decode
        → s.has_pending_tok ≡ true
        → s.generated_count ≤ max_tokens
        → max_tokens < s.generated_count + length times
        → (s' : ClientSession Double) × (find a (ticks times t).sessions ≡ some s')
          × (s'.state ≡ stream)
    unfolding ticks
    ticks-ends max_tokens [] t s h c w e d p g l = absurd (omega arith)
    ticks-ends max_tokens ((now_ns, dur_ns) ∷ times) t s h c w e d p g l =
        let t' = tick backend t.scheduler t.sessions now_ns dur_ns in
        let room = tick-HasRoom now_ns dur_ns t.scheduler t.sessions h in
        let (s', e', done) =
          tick-served backend laws now_ns dur_ns a s t.scheduler t.sessions h e (rw (d, p) refl) in
        elim done [
          | inl over ↦ (s', ticks-stream times t' s' room e' over, over)
          | inr (d', p', lt, g') ↦
              ticks-ends max_tokens times t' s' room
                (tick-max_tokens now_ns dur_ns t.scheduler t.sessions ∙ c) w e' d' p' (omega arith)
                (omega arith)
        ]

    -- Every response ends. Let each batch be decoded, each row of logits that is asked for be there,
    -- and dropping a sequence leave the rows; and let the pool hold at most 8 sessions, each under
    -- its own descriptor, and no more than the batch capacity and the target are, with both cursors
    -- at most 8. Let a session be in DECODE with a pending token, its count within the limit, which
    -- is below 2^32. Then whatever is sampled and however long the batches take, the session is in
    -- the pool and in STREAM after one tick more than the tokens that the limit still allows.
    pub responses_end :
        (times : List (ℕ × ℕ)) (t : Ticked backend) (s : ClientSession Double)
        → HasRoom backend t.scheduler t.sessions
        → t.scheduler.config.max_tokens < 2 ^ 32
        → find a t.sessions ≡ some s
        → s.state ≡ decode
        → s.has_pending_tok ≡ true
        → s.generated_count ≤ t.scheduler.config.max_tokens
        → t.scheduler.config.max_tokens < s.generated_count + length times
        → (s' : ClientSession Double) × (find a (ticks times t).sessions ≡ some s')
          × (s'.state ≡ stream)
    responses_end times t s h w e d p g l =
        ticks-ends t.scheduler.config.max_tokens times t s h refl w e d p g l
