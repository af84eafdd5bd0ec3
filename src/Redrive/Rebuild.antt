-- ===== src/Redrive/Rebuild.antt =====
-- `rebuild_raw_message` of src/mailflow/core/redrive.py against `_dead_letter_record` of
-- src/mailflow/core/pipeline.py.
use mailflow.Base.{ℕ, Text, some, [], ◌∷◌, ◌≡◌, refl, arith}
use mailflow.Core.Models.{RawMessage, Bytes}
use mailflow.Base64.{b64encode, b64decode}
use mailflow.Base64.Laws.{AreBytes, b64decode-b64encode}
use mailflow.Ports.{DedupeStore, CursorStore}
use mailflow.Pipeline.Components.{Components, PipelineConfig}
use mailflow.Pipeline.Process.{dead_letter_record}
use mailflow.Redrive.{raw_of, rebuild_raw_message}

raw_of-b64encode :
    (b : ℕ) (bs : Bytes) → raw_of (b64encode (b ∷ bs)) ≡ b64decode (b64encode (b ∷ bs))
unfolding b64encode
raw_of-b64encode b [] = refl
raw_of-b64encode b (c ∷ []) = refl
raw_of-b64encode b (c ∷ d ∷ bs) = refl

raw_kept :
    (bytes : Bytes)
    → AreBytes bytes
    → raw_of (elim bytes [ [] ↦ [] | b ∷ bs ↦ b64encode (b ∷ bs) ]) ≡ some bytes
raw_kept [] h = refl
raw_kept (b ∷ bs) h = rw (raw_of-b64encode b bs) (b64decode-b64encode (b ∷ bs) h)

-- The message that a redrive rebuilds from a dead letter is the message that was dead-lettered: its
-- stream, size, cursor, thread and bytes included, whatever the reason, the attempts and the error.
pub rebuild_raw_message-dead_letter_record :
    (C : Components) (D : DedupeStore) (K : CursorStore) (cfg : PipelineConfig) (id : Text)
    (msg : RawMessage) (key reason : Text) (attempts : ℕ) (error_class : Text) (x : C.Outside)
    → AreBytes msg.raw_bytes
    → rebuild_raw_message (dead_letter_record C D K cfg id msg key reason attempts error_class x)
      ≡ some msg
unfolding rebuild_raw_message dead_letter_record
rebuild_raw_message-dead_letter_record C D K cfg id msg key reason attempts error_class x h =
    ground (arith, raw_kept msg.raw_bytes h)
