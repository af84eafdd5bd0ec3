-- ===== src/Pipeline/Handlers.antt =====
-- The error handlers of `_process` in src/mailflow/core/pipeline.py.
use mailflow.Base.{
  ℕ, ◌<◌, leb, leb_ℤ, ℤ, pos, Text, Option, none, some, ◌≡◌, arith, Bool-cases, inl, inr,
}
use mailflow.Exec.{
  Exc, ErrorKind, permanent, auth, transient, unknown, Result, ok, err, pure, continue,
}
use mailflow.Core.Models.{RawMessage, Disposition, emitted, dropped, duplicate, dead_lettered}
use mailflow.Ports.{DedupeStore, CursorStore}
use mailflow.Pipeline.Components.{Components, PipelineConfig}
use mailflow.Pipeline.World.{World}
use mailflow.Pipeline.Work.{do_work}
use mailflow.Pipeline.Effects.{emitted_keys, Counted, Settled}
use mailflow.Pipeline.Outcome.{
  Idle, Keys, Ended, do_work-Ended, dead_letter-Ended, handle_auth_error-Ended,
}
use mailflow.Pipeline.Process.{release, retry_or_dead_letter, rescue, attempt, guard_size}

module _ (C : Components) (D : DedupeStore) (K : CursorStore) (cfg : PipelineConfig) where
  abbrev pub W : Type 0
  W = World C D K

  -- The message is left for a later run, with its claim given back.
  pub record Left (key : Text) (attempts : ℕ) (w w' : W) : Type 0 where
    pub dedupe : w'.dedupe ≡ D.release key w.dedupe
    pub cursors : w'.cursors ≡ w.cursors
    pub emitted : emitted_keys w'.emitted ≡ emitted_keys w.emitted
    pub counted : Counted none w.report w'.report
    pub bounded : attempts < cfg.max_attempts

  abbrev pub Tried : Text → ℕ → W → Result (Option Disposition) × W → Type 0
  Tried key n w (ok (some d), w') = Settled C D K cfg key d w w' × Keys C D K cfg key d w w'
  Tried key n w (ok none, w') = Left key n w w'
  Tried key n w (err e, w') = Idle C D K cfg w w'

  some-Tried :
      (key : Text) (n : ℕ) (w : W) (p : Result Disposition × W)
      → Ended C D K cfg key w p
      → Tried key n w (continue p (λ d. pure (some d)))
  some-Tried key n w (ok d, w') h = h
  some-Tried key n w (err e, w') h = h

  pub Tried-Idle :
      (key : Text) (n : ℕ) (w w1 : W) (p : Result (Option Disposition) × W)
      → Idle C D K cfg w w1
      → Tried key n w1 p
      → Tried key n w p
  Tried-Idle key n w w1 (ok (some emitted), w') e h = ground arith
  Tried-Idle key n w w1 (ok (some dropped), w') e h = ground arith
  Tried-Idle key n w w1 (ok (some duplicate), w') e h = absurd h.1
  Tried-Idle key n w w1 (ok (some dead_lettered), w') e h = ground arith
  Tried-Idle key n w w1 (ok none, w') e h = ground arith
  Tried-Idle key n w w1 (err x, w') e h = ground arith

  retry_or_dead_letter-Tried :
      (id : Text) (msg : RawMessage) (key : Text) (n : ℕ) (e : Exc) (w : W)
      → Tried key n w (retry_or_dead_letter C D K cfg id msg key n e w)
  unfolding retry_or_dead_letter release
  retry_or_dead_letter-Tried id msg key n e w = elim (Bool-cases (leb cfg.max_attempts n)) [
    | inl full ↦
        rw full (some-Tried key n w _ (dead_letter-Ended C D K cfg id msg key _ n e.class_name w))
    | inr room ↦ rw room (ground arith)
  ]

  rescue-Tried :
      (id : Text) (msg : RawMessage) (key : Text) (n : ℕ) (e : Exc) (kind : ErrorKind) (w : W)
      → Tried key n w (rescue C D K cfg id msg key n e kind w)
  unfolding rescue
  rescue-Tried id msg key n e permanent w =
      some-Tried key n w _ (dead_letter-Ended C D K cfg id msg key _ n e.class_name w)
  rescue-Tried id msg key n e auth w =
      some-Tried key n w _ (handle_auth_error-Ended C D K cfg id msg key e w)
  rescue-Tried id msg key n e transient w = retry_or_dead_letter-Tried id msg key n e w
  rescue-Tried id msg key n e unknown w = retry_or_dead_letter-Tried id msg key n e w

  attempt-Tried :
      (id : Text) (msg : RawMessage) (key : Text) (n : ℕ) (w : W)
      → Tried key n w (attempt C D K cfg id msg key n w)
  unfolding attempt
  attempt-Tried id msg key n w =
      go (do_work C D K cfg msg key w) (do_work-Ended C D K cfg msg key w)
    where
      go :
          (p : Result Disposition × W)
          → Ended C D K cfg key w p
          → Tried key n w (elim p.0 as (λ _. Result (Option Disposition) × W) [
            | ok d ↦ (ok (some d), p.1)
            | err e ↦ rescue C D K cfg id msg key n e e.kind p.1
          ])
      go (ok d, w1) h = h
      go (err e, w1) h = Tried-Idle key n w w1 _ h (rescue-Tried id msg key n e e.kind w1)

  pub guard_size-Tried :
      (id : Text) (msg : RawMessage) (key : Text) (n : ℕ) (size : ℤ) (w : W)
      → Tried key n w (guard_size C D K cfg id msg key n size w)
  unfolding guard_size
  guard_size-Tried id msg key n size w = elim (Bool-cases (leb_ℤ size (pos 0))) [
    | inl small ↦ rw small (some-Tried key n w _ (dead_letter-Ended C D K cfg id msg key _ n _ w))
    | inr large ↦ rw large (elim (Bool-cases (leb_ℤ size cfg.max_message_bytes)) [
      | inl within ↦ rw within (attempt-Tried id msg key n w)
      | inr over ↦ rw over (some-Tried key n w _ (dead_letter-Ended C D K cfg id msg key _ n _ w))
    ])
  ]
