-- ===== src/Servicebus/Emitter.antt =====
-- src/mailflow/adapters/servicebus/emitter.py. SHA-256 and the JSON of an event are parameters.
use mailflow.Base.{
  ℕ, ◌≤◌, leb, Text, text, Option, none, some, [], ◌∷◌, length, ◌≡◌, ◌⊎◌, arith, if◌then◌else◌,
}
use mailflow.Exec.{Exec, pure, ◌>>◌}
use mailflow.Core.Models.{EmailEvent, Bytes}
use mailflow.Graph.Notifications.{or_text}

abbrev pub sb_message_id_max : ℕ
sb_message_id_max = 128

-- What `SbSender.send` is called with.
pub record Send : Type 0 where
  pub body : Bytes
  pub message_id : Text
  pub content_type : Text
  pub session_id : Option Text

abbrev or_nothing : Text → Option Text
or_nothing [] = none
or_nothing (c ∷ s) = some (c ∷ s)

module _ (sha256_hex : Text → Text) where
  unfoldable pub sb_message_id : Text → Text
  sb_message_id key = if leb (length key) sb_message_id_max then key else sha256_hex key

  module _ {X : Type 0} (sender : Send → Exec X (Unit {0})) (dump : EmailEvent → Bytes) where
    unfoldable pub send_of : EmailEvent → Send
    unfolding sb_message_id
    send_of event = record {
      body = dump event;
      message_id = sb_message_id (or_text event.idempotency_key event.email.canonical_id);
      content_type = text "application/json";
      session_id = or_nothing event.ordering_key;
    }

    -- The receipt is the canonical id.
    unfoldable pub emit : EmailEvent → Exec X Text
    unfolding send_of
    emit event = sender (send_of event) >> pure event.email.canonical_id

  -- A message id fits Service Bus, if a digest does; and two keys share one only if they are equal, or one
  -- of them is longer than Service Bus allows and the digests collide with a key or with each other.
  pub sb_message_id-fits :
      (a b : Text)
      → ((k : Text) → length (sha256_hex k) ≡ 64)
      → (length (sb_message_id a) ≤ 128)
        × (sb_message_id a ≡ sb_message_id b
            → (a ≡ b) ⊎ (sha256_hex a ≡ b) ⊎ (a ≡ sha256_hex b) ⊎ (sha256_hex a ≡ sha256_hex b))
  unfolding sb_message_id
  sb_message_id-fits a b digest = ground (arith, digest a, digest b)
