-- ===== src/Samples.antt =====
-- Data for the tests: a mailbox with two messages, and pipelines over it that work, that fail for the
-- moment, and that cannot tell a size. The world outside counts the calls of the emitter.
use mailflow.Base.{ℕ, ◌+◌, Text, text, pos, false, none, some, [], ◌∷◌}
use mailflow.Exec.{Exc, transient, ok, pure, raise}
use mailflow.Core.Models.{RawMessage, StreamRef, Envelope, new_email, Time}
use mailflow.Core.Filtering.{FilterDecision, drop}
use mailflow.Core.Report.{DeadLetterRecord, new_report}
use mailflow.Ports.{DedupeStore, CursorStore}
use mailflow.Stores.MemoryCursor.{memory_cursors}
use mailflow.Stores.MemoryDedupe.Laws.{memory_dedupe}
use mailflow.Pipeline.Components.{Components, PipelineConfig, OnFiltered, generic}
use mailflow.Pipeline.World.{World}

abbrev pub clock : ℕ → Time
clock n = n

abbrev pub dedupe : DedupeStore
dedupe = memory_dedupe clock

abbrev pub cursors : CursorStore
cursors = memory_cursors

abbrev pub config : PipelineConfig
config = record {
  tenant = text "acme";
  max_message_bytes = pos 1000;
  max_attempts = 3;
  claim_lease_seconds = 300;
  done_ttl_seconds = 60;
  on_filtered = OnFiltered.tag;
}

abbrev pub inbox : StreamRef
inbox = record { mailbox = text "ops@acme.com"; folder = some (text "Inbox") }

abbrev pub message : Text → ℕ → RawMessage
message id order = record {
  provider = text "memory";
  provider_message_id = id;
  stream = inbox;
  size_bytes = pos 5;
  received_at = 0;
  cursor = record { value = id; order = pos order };
  raw_bytes = b'h' ∷ b'e' ∷ b'l' ∷ b'l' ∷ b'o' ∷ [];
  thread_key = [];
}

abbrev pub first : RawMessage
first = message (text "m1") 1

abbrev pub second : RawMessage
second = message (text "m2") 2

abbrev pub envelope : Envelope
envelope = record {
  canonical_id = text "c1";
  message_id = none;
  message_id_present = false;
  message_id_trusted = false;
  provider = text "memory";
  provider_message_id = text "m1";
  stream = inbox;
  from_ = record { name = []; address = text "a@Spam.com" };
  sender = none;
  reply_to = none;
  to = [];
  cc = [];
  subject = text "hi";
  date_utc = none;
  received_at = none;
  snippet = [];
  list_id = none;
  list_unsubscribe = none;
  auto_submitted = none;
  is_auto_submitted = false;
  is_bounce = false;
  headers = [];
}

abbrev pub matched : FilterDecision
matched = drop (text "blacklist") (text "domain spam.com")

-- Every message is matched by its one filter, and everything works.
abbrev pub working : Components
working = record {
  Outside = ℕ;
  connect = pure tt;
  sync_streams = pure (inbox ∷ []);
  fetch = λ s c x. ((first ∷ second ∷ [], none), x);
  message_size = λ m. pure (some m.size_bytes);
  parse_envelope = λ m t. pure envelope;
  filters = (λ env ctx. pure matched) ∷ [];
  classifier = none;
  extractor = generic (λ m env.
      pure (new_email (text "c1") m.provider m.provider_message_id (text "ops@acme.com:Inbox")));
  cleaner = none;
  emitter = λ e x. (ok tt, x + 1);
  dlq_emitter = λ e x. (ok tt, x);
  dlq_store = none;
  auth_refresher = none;
  on_trace = none;
  on_report = none;
  now = λ x. x;
  sha256_hex = λ t. t;
}

abbrev pub busy : Exc
busy = record { kind = transient; class_name = text "TransientError"; message = text "429" }

-- The extractor is busy.
abbrev pub failing : Components
failing = record working { extractor = generic (λ m env. raise busy) }

-- The provider cannot tell a size.
abbrev pub sizeless : Components
sizeless = record working { message_size = λ m. raise busy }

abbrev pub start : (C : Components) → C.Outside → World C dedupe cursors
start C x = record {
  outside = x;
  dedupe = record { claims = []; ticks = 0 };
  cursors = [];
  emitted = [];
  quarantined = [];
  records = [];
  report = new_report;
}

abbrev pub letter : DeadLetterRecord
letter = record {
  record_id = text "acme|ops@acme.com|m1";
  tenant = text "acme";
  provider = text "memory";
  provider_message_id = text "m1";
  mailbox = text "ops@acme.com";
  folder = some (text "Inbox");
  canonical_id = text "c1";
  reason = text "oversized";
  error_class = text "OversizedMessageError";
  attempts = 1;
  size_bytes = pos 5;
  thread_key = [];
  cursor_value = text "m1";
  cursor_order = pos 1;
  received_at = 0;
  dead_lettered_at = 0;
  raw_b64 = text "aGVsbG8=";
  schema_version = text "1.3";
}
