-- ===== src/Pipeline/Claims.antt =====
-- What the dedupe store says after a claim that was won and an attempt (src/mailflow/core/pipeline.py,
-- `_process`), and after the message is settled or given back.
use mailflow.Base.{◌+◌, Text, text_eq, true, false, ◌≡◌, ◌∙◌, if◌then◌else◌}
use mailflow.Ports.{DedupeStore, CursorStore}
use mailflow.Pipeline.Components.{Components, PipelineConfig}
use mailflow.Pipeline.World.{World}

module _ (C : Components) (D : DedupeStore) (K : CursorStore) (cfg : PipelineConfig) where
  abbrev pub W : Type 0
  W = World C D K

  -- What the store says of every key after a message with key `key` is settled, or is not.
  abbrev pub Finished : Text → W → W → Type 0
  Finished key w w' =
      (j : Text) → D.done w'.dedupe j ≡ (if text_eq key j then true else D.done w.dedupe j)

  abbrev pub SameDone : W → W → Type 0
  SameDone w w' = (j : Text) → D.done w'.dedupe j ≡ D.done w.dedupe j

  -- One more attempt at `key`, and at no other key.
  abbrev pub OneAttempt : Text → W → W → Type 0
  OneAttempt key w w' =
      (j : Text)
      → D.attempts w'.dedupe j
        ≡ (if text_eq key j then D.attempts w.dedupe j + 1 else D.attempts w.dedupe j)

  -- The dedupe store after a claim that was won and the attempt that is counted for it.
  abbrev pub started : Text → W → D.State
  started key w = (D.record_attempt key (D.try_claim key cfg.claim_lease_seconds w.dedupe).1).1

  pub started-done : (key : Text) (w : W) (j : Text) → D.done (started key w) j ≡ D.done w.dedupe j
  started-done key w j =
      D.done-record_attempt key (D.try_claim key cfg.claim_lease_seconds w.dedupe).1 j
      ∙ D.done-try_claim key cfg.claim_lease_seconds w.dedupe j

  pub started-attempts :
      (key : Text) (w : W) (j : Text)
      → D.attempts (started key w) j
        ≡ (if text_eq key j then D.attempts w.dedupe j + 1 else D.attempts w.dedupe j)
  started-attempts key w j =
      rw (← D.attempts-try_claim key cfg.claim_lease_seconds w.dedupe j)
        (D.attempts-record_attempt key (D.try_claim key cfg.claim_lease_seconds w.dedupe).1 j)

  pub settled-done :
      (key : Text) (w : W) (j : Text)
      → D.done (D.mark_done key cfg.done_ttl_seconds (started key w)) j
        ≡ (if text_eq key j then true else D.done w.dedupe j)
  settled-done key w j =
      rw (← started-done key w j) (D.done-mark_done key cfg.done_ttl_seconds (started key w) j)

  pub settled-attempts :
      (key : Text) (w : W) (j : Text)
      → D.attempts (D.mark_done key cfg.done_ttl_seconds (started key w)) j
        ≡ (if text_eq key j then D.attempts w.dedupe j + 1 else D.attempts w.dedupe j)
  settled-attempts key w j =
      D.attempts-mark_done key cfg.done_ttl_seconds (started key w) j ∙ started-attempts key w j

  pub left-done :
      (key : Text) (w : W) (j : Text) → D.done (D.release key (started key w)) j ≡ D.done w.dedupe j
  left-done key w j = D.done-release key (started key w) j ∙ started-done key w j

  pub left-attempts :
      (key : Text) (w : W) (j : Text)
      → D.attempts (D.release key (started key w)) j
        ≡ (if text_eq key j then D.attempts w.dedupe j + 1 else D.attempts w.dedupe j)
  left-attempts key w j = D.attempts-release key (started key w) j ∙ started-attempts key w j

  pub left-claimed :
      (key : Text) (w : W)
      → D.done w.dedupe key ≡ false
      → D.claimed (D.release key (started key w)) key ≡ false
  left-claimed key w open_ = D.claimed-release key (started key w) (started-done key w key ∙ open_)
