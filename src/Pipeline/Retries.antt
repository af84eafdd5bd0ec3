-- ===== src/Pipeline/Retries.antt =====
-- How often a message is left for a later run in src/mailflow/core/pipeline.py, and what becomes of a message whose claim is never
-- given back.
use mailflow.Base.{
  ℕ, zero, suc, ◌+◌, ◌<◌, Text, text_eq_iff, true, false, Option, none, some, ◌≡◌, refl, arith, ◌∙◌,
  subst, subst,
}
use mailflow.Exec.{Exc, Result, ok, err}
use mailflow.Core.Models.{RawMessage, Disposition, duplicate, Time}
use mailflow.Ports.{DedupeStore, CursorStore}
use mailflow.Stores.MemoryDedupe
use mailflow.Stores.MemoryDedupe.Laws.{
  memory_dedupe, won-done, done-try_claim, won-claimed, claimed-record_attempt, claimed-lost,
}
use mailflow.Pipeline.Components.{Components, PipelineConfig}
use mailflow.Pipeline.World.{World}
use mailflow.Pipeline.Work.{record_decision, notify}
use mailflow.Pipeline.Process.{process, message_key}
use mailflow.Pipeline.Verdict.{Outcome, process-Outcome}
use mailflow.Pipeline.Claims.{started}

module _ (C : Components) (D : DedupeStore) (K : CursorStore) (cfg : PipelineConfig) where
  abbrev pub W : Type 0
  W = World C D K

  -- n tries of a message in a row, if every one leaves it for a later run.
  unfoldable pub left_times : ℕ → RawMessage → W → Option W
  left_times zero msg w = some w
  left_times (suc n) msg w =
      let (r, w') = process C D K cfg msg w in
      elim r [ err e ↦ none | ok o ↦ elim o [ some d ↦ none | none ↦ left_times n msg w' ] ]

  -- A message that was left can be claimed again at once.
  pub left_reclaims :
      (msg : RawMessage) (w w' : W)
      → process C D K cfg msg w ≡ (ok none, w')
      → (lease : ℕ) → (D.try_claim (message_key C D K cfg msg) lease w'.dedupe).0 ≡ true
  left_reclaims msg w w' q lease = go (process C D K cfg msg w) (process-Outcome C D K cfg msg w) q
    where
      key : Text
      key = message_key C D K cfg msg

      go :
          (p : Result (Option Disposition) × W)
          → Outcome C D K cfg key w p
          → p ≡ (ok none, w')
          → (D.try_claim key lease w'.dedupe).0 ≡ true
      go (ok none, w1) h e =
          D.free-won key lease w'.dedupe (ground (arith, h.3)) (ground (arith, h.0, h.1 key))
      go (ok (some d), w1) h e = cc
      go (err x, w1) h e = cc

  left-Outcome :
      (msg : RawMessage) (w w' : W)
      → process C D K cfg msg w ≡ (ok none, w')
      → Outcome C D K cfg (message_key C D K cfg msg) w (ok none, w')
  left-Outcome msg w w' q =
      subst (Outcome C D K cfg (message_key C D K cfg msg) w) q (process-Outcome C D K cfg msg w)

  -- A message is left for a later run fewer than `max_attempts` times, counting the attempts that its
  -- key had before: a message that keeps failing, in however many runs, comes to an end.
  pub retries_bounded :
      (n : ℕ) (msg : RawMessage) (w w' : W)
      → left_times (suc n) msg w ≡ some w'
      → D.attempts w.dedupe (message_key C D K cfg msg) + suc n < cfg.max_attempts
  unfolding left_times
  retries_bounded zero msg w w' e = last (process C D K cfg msg w) refl
    where
      key : Text
      key = message_key C D K cfg msg

      last :
          (p : Result (Option Disposition) × W)
          → process C D K cfg msg w ≡ p
          → D.attempts w.dedupe key + 1 < cfg.max_attempts
      last (ok none, w1) q =
          let h = left-Outcome msg w w1 q in ground (arith, h.2 key, h.4, text_eq_iff key key)
      last (ok (some d), w1) q = ground arith
      last (err x, w1) q = ground arith
  retries_bounded (suc n) msg w w' e =
      step (process C D K cfg msg w) refl (λ w1. retries_bounded n msg w1 w')
    where
      key : Text
      key = message_key C D K cfg msg

      step :
          (p : Result (Option Disposition) × W)
          → process C D K cfg msg w ≡ p
          → ((w1 : W)
              → left_times (suc n) msg w1 ≡ some w'
              → D.attempts w1.dedupe key + suc n < cfg.max_attempts)
          → D.attempts w.dedupe key + suc (suc n) < cfg.max_attempts
      step (ok none, w1) q ih =
          let h = left-Outcome msg w w1 q in ground (arith, ih w1, h.2 key, text_eq_iff key key)
      step (ok (some d), w1) q ih = ground arith
      step (err x, w1) q ih = ground arith

module _ (C : Components) (clock : ℕ → Time) (K : CursorStore) (cfg : PipelineConfig)
    (msg : RawMessage) (w w' : World C (memory_dedupe clock) K) (x : Exc)
    (raised : process C (memory_dedupe clock) K cfg msg w ≡ (err x, w')) where
  abbrev key : Text
  key = message_key C (memory_dedupe clock) K cfg msg

  raised_won : (MemoryDedupe.try_claim key cfg.claim_lease_seconds w.dedupe).0 ≡ true
  unfolding process
  raised_won = ground arith

  raised_dedupe : w'.dedupe ≡ started C (memory_dedupe clock) K cfg key w
  raised_dedupe =
      (subst (Outcome C (memory_dedupe clock) K cfg key w) raised
        (process-Outcome C (memory_dedupe clock) K cfg msg w)).0

  raised_held : (l : ℕ) → (MemoryDedupe.try_claim key l w'.dedupe).0 ≡ false
  raised_held l =
      let taken = (MemoryDedupe.try_claim key cfg.claim_lease_seconds w.dedupe).1 in
      claimed-lost key w'.dedupe l (
        rw raised_dedupe (
          claimed-record_attempt key taken
            (won-claimed key w.dedupe cfg.claim_lease_seconds raised_won)))

  raised_open : MemoryDedupe.done w'.dedupe key ≡ false
  raised_open =
      (subst (Outcome C (memory_dedupe clock) K cfg key w) raised
          (process-Outcome C (memory_dedupe clock) K cfg msg w)).1
        key
      ∙ won-done key w.dedupe cfg.claim_lease_seconds raised_won

  -- With the in-memory dedupe store: after `_process` has raised on a message, every later try of it,
  -- in any later run on the store as it was left, reports it as a duplicate, emits nothing and puts
  -- nothing in quarantine, though the message was never settled.
  pub raise_strands :
      (w2 : World C (memory_dedupe clock) K)
      → w2.dedupe ≡ w'.dedupe
      → let (r, w3) = process C (memory_dedupe clock) K cfg msg w2 in
        (r ≡ ok (some duplicate))
        × (w3.emitted ≡ w2.emitted)
        × (w3.quarantined ≡ w2.quarantined)
        × (MemoryDedupe.done w3.dedupe key ≡ false)
  unfolding process record_decision notify
  raise_strands w2 same =
      let refused = rw (← same) at (raised_held cfg.claim_lease_seconds) in
      rw refused (
        refl,
        ground arith,
        ground arith,
        ground (arith, raised_open, same, done-try_claim key w2.dedupe key cfg.claim_lease_seconds),
      )
