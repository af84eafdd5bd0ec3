-- ===== src/Pipeline/Verdict.antt =====
-- The outcome of `_process` of src/mailflow/core/pipeline.py, told through what the dedupe store says
-- of the keys.
use mailflow.Base.{
  ℕ, ◌+◌, ◌<◌, ℤ, Text, text, [], text_eq_iff, false, Option, none, some, ◌≡◌, refl, arith,
  Bool-cases, inl, inr,
}
use mailflow.Exec.{Result, ok, err, continue}
use mailflow.Core.Models.{RawMessage, Disposition, emitted, dropped, duplicate, dead_lettered}
use mailflow.Core.Report.{record_trace}
use mailflow.Ports.{DedupeStore, CursorStore}
use mailflow.Pipeline.Components.{Components, PipelineConfig}
use mailflow.Pipeline.World.{World}
use mailflow.Pipeline.Work.{outside, notify, record_decision, new_trace}
use mailflow.Pipeline.Effects.{emitted_keys, Counted, Settled}
use mailflow.Pipeline.Outcome.{Keys}
use mailflow.Pipeline.Process.{guard_size, claimed_work, process, message_key, trace_id, size_or}
use mailflow.Pipeline.Handlers.{Left, Tried, Tried-Idle, guard_size-Tried}
use mailflow.Pipeline.Claims.{
  Finished, SameDone, OneAttempt, started-done, settled-done, settled-attempts, left-done,
  left-attempts, left-claimed, started,
}

module _ (C : Components) (D : DedupeStore) (K : CursorStore) (cfg : PipelineConfig) where
  abbrev pub W : Type 0
  W = World C D K

  abbrev pub Outcome : Text → W → Result (Option Disposition) × W → Type 0
  Outcome key w (ok (some duplicate), w') =
      SameDone C D K cfg w w'
      × ((j : Text) → D.attempts w'.dedupe j ≡ D.attempts w.dedupe j)
      × (w'.cursors ≡ w.cursors)
      × (emitted_keys w'.emitted ≡ emitted_keys w.emitted)
      × Counted (some duplicate) w.report w'.report
  Outcome key w (ok (some d), w') =
      (D.done w.dedupe key ≡ false)
      × Finished C D K cfg key w w'
      × OneAttempt C D K cfg key w w'
      × (w'.cursors ≡ w.cursors)
      × Keys C D K cfg key d w w'
      × Counted (some d) w.report w'.report
  Outcome key w (ok none, w') =
      (D.done w.dedupe key ≡ false)
      × SameDone C D K cfg w w'
      × OneAttempt C D K cfg key w w'
      × (D.claimed w'.dedupe key ≡ false)
      × (D.attempts w'.dedupe key < cfg.max_attempts)
      × (w'.cursors ≡ w.cursors)
      × (emitted_keys w'.emitted ≡ emitted_keys w.emitted)
      × Counted none w.report w'.report
  Outcome key w (err e, w') =
      (w'.dedupe ≡ started C D K cfg key w)
      × SameDone C D K cfg w w'
      × (w'.cursors ≡ w.cursors)
      × (emitted_keys w'.emitted ≡ emitted_keys w.emitted)
      × Counted none w.report w'.report

  abbrev Started : Text → W → W → Type 0
  Started key w w1 = w1 ≡ record w { outside = w1.outside; dedupe = started C D K cfg key w }

  Settled-Outcome :
      (key : Text) (d : Disposition) (w w1 w' : W)
      → Started key w w1
      → Settled C D K cfg key d w1 w'
      → Finished C D K cfg key w w'
        × OneAttempt C D K cfg key w w'
        × (w'.cursors ≡ w.cursors)
        × Counted (some d) w.report w'.report
  Settled-Outcome key d w w1 w' e h = (
    λ j. ground (arith, settled-done C D K cfg key w j),
    λ j. ground (arith, settled-attempts C D K cfg key w j),
    ground arith,
    ground arith,
  )

  Left-Outcome :
      (key : Text) (n : ℕ) (w w1 w' : W)
      → D.done w.dedupe key ≡ false
      → n ≡ D.attempts w.dedupe key + 1
      → Started key w w1
      → Left C D K cfg key n w1 w'
      → Outcome key w (ok none, w')
  Left-Outcome key n w w1 w' open_ count e h = (
    open_,
    λ j. ground (arith, left-done C D K cfg key w j),
    λ j. ground (arith, left-attempts C D K cfg key w j),
    ground (arith, left-claimed C D K cfg key w open_),
    ground (arith, left-attempts C D K cfg key w key, text_eq_iff key key),
    ground arith,
    ground arith,
    ground arith,
  )

  Tried-Outcome :
      (key : Text) (n : ℕ) (w w1 : W) (p : Result (Option Disposition) × W)
      → D.done w.dedupe key ≡ false
      → n ≡ D.attempts w.dedupe key + 1
      → Started key w w1
      → Tried C D K cfg key n w1 p
      → Outcome key w p
  Tried-Outcome key n w w1 (ok (some emitted), w') open_ count e h =
      let s = Settled-Outcome key emitted w w1 w' e h.0 in (open_, s.0, s.1, s.2, ground arith, s.3)
  Tried-Outcome key n w w1 (ok (some dropped), w') open_ count e h =
      let s = Settled-Outcome key dropped w w1 w' e h.0 in (open_, s.0, s.1, s.2, ground arith, s.3)
  Tried-Outcome key n w w1 (ok (some duplicate), w') open_ count e h = absurd h.1
  Tried-Outcome key n w w1 (ok (some dead_lettered), w') open_ count e h =
      let s = Settled-Outcome key dead_lettered w w1 w' e h.0 in
      (open_, s.0, s.1, s.2, ground arith, s.3)
  Tried-Outcome key n w w1 (ok none, w') open_ count e h =
      Left-Outcome key n w w1 w' open_ count e h
  Tried-Outcome key n w w1 (err x, w') open_ count e h = (
    ground arith,
    λ j. ground (arith, started-done C D K cfg key w j),
    ground arith,
    ground arith,
    ground arith,
  )

  claimed_work-Outcome :
      (id : Text) (msg : RawMessage) (key : Text) (w : W)
      → D.done w.dedupe key ≡ false
      → Outcome key w (
          claimed_work C D K cfg id msg key
            (record w { dedupe = (D.try_claim key cfg.claim_lease_seconds w.dedupe).1 }))
  unfolding claimed_work
  claimed_work-Outcome id msg key w open_ =
      let taken = (D.try_claim key cfg.claim_lease_seconds w.dedupe).1 in
      let n = (D.record_attempt key taken).0 in
      let w0 : W = record w { dedupe = started C D K cfg key w } in
      Tried-Outcome key n w w0 _ open_ (count taken) refl
        (sized n w0 (outside C D K cfg (C.message_size msg) w0) refl)
    where
      count :
          (taken : D.State)
          → (D.record_attempt key (D.try_claim key cfg.claim_lease_seconds w.dedupe).1).0
            ≡ D.attempts w.dedupe key + 1
      count taken =
          rw (← D.attempts-try_claim key cfg.claim_lease_seconds w.dedupe key)
            (D.record_attempt-value key (D.try_claim key cfg.claim_lease_seconds w.dedupe).1)

      sized :
          (n : ℕ) (w0 : W) (p : Result (Option ℤ) × W)
          → p.1 ≡ record w0 { outside = p.1.outside }
          → Tried C D K cfg key n w0 (
              continue p
                λ reported. guard_size C D K cfg id msg key n (size_or reported msg.size_bytes))
      sized n w0 (ok reported, w1) e =
          Tried-Idle C D K cfg key n w0 w1 _ (ground arith)
            (guard_size-Tried C D K cfg id msg key n (size_or reported msg.size_bytes) w1)
      sized n w0 (err x, w1) e = ground arith

  refused-Outcome :
      (key id : Text) (msg : RawMessage) (w : W)
      → Outcome key w (
        ok (some duplicate),
        record_decision C D K cfg
            (new_trace C D K cfg id msg duplicate (text "dedupe") [] [] none)
            (record w { dedupe = (D.try_claim key cfg.claim_lease_seconds w.dedupe).1 }),
      )
  unfolding record_decision notify new_trace record_trace
  refused-Outcome key id msg w = (
    λ j. ground (arith, D.done-try_claim key cfg.claim_lease_seconds w.dedupe j),
    λ j. ground (arith, D.attempts-try_claim key cfg.claim_lease_seconds w.dedupe j),
    ground arith,
    ground arith,
    ground arith,
  )

  -- Whatever the components do, a message that `_process` returns from is a duplicate, which makes no
  -- key done, counts no attempt and emits nothing; or is settled, and then its key, and no other, has
  -- become done, and one event was emitted under its key if it counts as emitted, none else; or is
  -- left for a later run, with its claim given back and fewer than `max_attempts` attempts made. Where
  -- `_process` raises, the claim stays as it was taken, no key has become done and nothing was emitted.
  -- On every branch exactly the counter of the disposition has grown, by one, and no cursor has moved;
  -- unless the message was a duplicate or raised, one attempt was counted, for its key alone.
  pub process-Outcome :
      (msg : RawMessage) (w : W) → Outcome (message_key C D K cfg msg) w (process C D K cfg msg w)
  unfolding process
  process-Outcome msg w =
      elim (Bool-cases
        (D.try_claim (message_key C D K cfg msg) cfg.claim_lease_seconds w.dedupe).0) [
          | inl won ↦ rw won (
              claimed_work-Outcome (trace_id C D K cfg msg) msg (message_key C D K cfg msg) w
                (D.won-done (message_key C D K cfg msg) cfg.claim_lease_seconds w.dedupe won))
          | inr lost ↦
              rw lost (refused-Outcome (message_key C D K cfg msg) (trace_id C D K cfg msg) msg w)
        ]
