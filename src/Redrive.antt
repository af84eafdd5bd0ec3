-- ===== src/Redrive.antt =====
-- src/mailflow/core/redrive.py, over the in-memory dead-letter store. A redrive runs each record through a
-- pipeline of its own: with a provider that yields the rebuilt message, an empty dedupe store and an
-- empty cursor store, and the operator's emitters.
pub mod Rebuild
pub mod Runs
pub mod Transient
use mailflow.Base.{
  ℤ, ℕ, ◌+◌, leb, ltb, ◌==◌, Text, text, text_eq, text_eq_iff, Eq, Bool, true, false, ◌&&◌, Option,
  none, some, List, [], ◌∷◌, ◌++◌, ◌≡◌, ◌↔◌, refl, arith, if◌then◌else◌,
}
use mailflow.Exec.{Exec, Exc, unknown, Result, ok, err, pure}
use mailflow.Dict
use mailflow.Dict.{Dict}
use mailflow.Core.Models.{RawMessage, StreamRef, Cursor, Bytes, Time, EmailEvent}
use mailflow.Core.Report.{DeadLetterRecord, RunReport, new_report}
use mailflow.Core.Streams.{stream_Eq}
use mailflow.Base64.{b64decode}
use mailflow.Stores.MemoryCursor.{memory_cursors}
use mailflow.Stores.MemoryDedupe.Laws.{memory_dedupe}
use mailflow.Stores.DeadLetters
use mailflow.Pipeline.Components.{Components, PipelineConfig}
use mailflow.Pipeline.World.{World}
use mailflow.Pipeline.Run.{run_once}

-- base64.b64decode(record.raw_b64) if record.raw_b64 else b""; none where it raises.
abbrev pub raw_of : Text → Option Bytes
raw_of [] = some []
raw_of (c ∷ s) = b64decode (c ∷ s)

unfoldable pub rebuild_raw_message : DeadLetterRecord → Option RawMessage
rebuild_raw_message entry = elim (raw_of entry.raw_b64) [
  | none ↦ none
  | some raw ↦ some (record {
    provider = entry.provider;
    provider_message_id = entry.provider_message_id;
    stream = record { mailbox = entry.mailbox; folder = entry.folder };
    size_bytes = entry.size_bytes;
    received_at = entry.received_at;
    cursor = record { value = entry.cursor_value; order = entry.cursor_order };
    raw_bytes = raw;
    thread_key = entry.thread_key;
  })
]

-- `_RedriveProvider`: its messages by stream, in their order.
unfoldable pub group_from :
    Dict StreamRef (List RawMessage) → List RawMessage → Dict StreamRef (List RawMessage)
group_from groups [] = groups
group_from groups (m ∷ ms) =
    group_from (Dict.adjust (Dict.put_new groups m.stream []) m.stream (λ l. l ++ (m ∷ []))) ms

unfoldable pub streams_of : Dict StreamRef (List RawMessage) → List StreamRef
streams_of [] = []
streams_of ((s, l) ∷ rest) = s ∷ streams_of rest

abbrev pub messages_of : Option (List RawMessage) → List RawMessage
messages_of none = []
messages_of (some l) = l

-- The components of the pipeline of one record; what is not the provider is the operator's.
unfoldable pub redrive_components : Components → List RawMessage → Components
unfolding group_from streams_of
redrive_components C messages = record {
  Outside = C.Outside;
  connect = pure tt;
  sync_streams = pure (streams_of (group_from [] messages));
  fetch = λ s cursor x. ((messages_of (Dict.get (group_from [] messages) s), none), x);
  message_size = λ m. pure (some m.size_bytes);
  parse_envelope = C.parse_envelope;
  filters = C.filters;
  classifier = C.classifier;
  extractor = C.extractor;
  cleaner = C.cleaner;
  emitter = C.emitter;
  dlq_emitter = C.dlq_emitter;
  dlq_store = none;
  auth_refresher = none;
  on_trace = none;
  on_report = none;
  now = C.now;
  sha256_hex = C.sha256_hex;
}

-- `_accumulate`
unfoldable pub accumulate : RunReport → RunReport → RunReport
accumulate into part = record into {
  fetched = into.fetched + part.fetched;
  emitted = into.emitted + part.emitted;
  dropped = into.dropped + part.dropped;
  duplicates = into.duplicates + part.duplicates;
  dead_lettered = into.dead_lettered + part.dead_lettered;
  traces = into.traces ++ part.traces;
  dlq = into.dlq ++ part.dlq;
}

pub record RedriveReport : Type 0 where
  pub examined : ℕ
  pub resubmitted : ℕ
  pub still_dead_lettered : ℕ
  pub run : RunReport

abbrev pub new_redrive_report : RedriveReport
new_redrive_report = record {
  examined = 0;
  resubmitted = 0;
  still_dead_lettered = 0;
  run = new_report;
}

-- run.fetched >= 1 and run.dead_lettered == 0
abbrev pub is_resubmitted : RunReport → Bool
is_resubmitted run = leb 1 run.fetched && run.dead_lettered == 0

-- `binascii.Error` of a record whose text is no base64.
abbrev pub bad_base64 : Exc
bad_base64 = record { kind = unknown; class_name = text "Error"; message = [] }

module _ (C : Components) (clock : ℕ → Time) (cfg : PipelineConfig) where
  -- The store, the report, and what the emitters have accepted.
  pub record Redrive : Type 0 where
    pub outside : C.Outside
    pub store : DeadLetters.State
    pub emitted : List EmailEvent
    pub quarantined : List EmailEvent
    pub report : RedriveReport

  -- A new pipeline, with stores of its own.
  unfoldable pub fresh_world :
      (m : RawMessage)
      → Redrive
      → World (redrive_components C (m ∷ [])) (memory_dedupe clock) memory_cursors
  unfolding redrive_components
  fresh_world m s = record {
    outside = s.outside;
    dedupe = record { claims = []; ticks = 0 };
    cursors = [];
    emitted = s.emitted;
    quarantined = s.quarantined;
    records = [];
    report = new_report;
  }

  -- What the run has done outside of its own stores.
  unfoldable pub after_run :
      (m : RawMessage)
      → World (redrive_components C (m ∷ [])) (memory_dedupe clock) memory_cursors
      → Redrive
      → Redrive
  unfolding redrive_components
  after_run m w s = record s {
    outside = w.outside;
    emitted = w.emitted;
    quarantined = w.quarantined;
  }

  -- The report and the store after the run of a record.
  unfoldable pub settle_record : Text → RunReport → Redrive → Redrive
  settle_record record_id run s =
      if is_resubmitted run
      then record s {
        store = DeadLetters.delete record_id s.store;
        report = record s.report {
          run = accumulate s.report.run run;
          resubmitted = s.report.resubmitted + 1;
        };
      }
      else record s {
        report = record s.report {
          run = accumulate s.report.run run;
          still_dead_lettered = s.report.still_dead_lettered + 1;
        };
      }

  abbrev pub examine : Redrive → Redrive
  examine s = record s { report = record s.report { examined = s.report.examined + 1 } }

  unfoldable pub redrive_message : Text → RawMessage → Exec Redrive (Unit {0})
  redrive_message record_id m s =
      let (r, w) =
        run_once (redrive_components C (m ∷ [])) (memory_dedupe clock) memory_cursors cfg
          (fresh_world m s) in
      elim r [
        | ok run ↦ (ok tt, settle_record record_id run (after_run m w s))
        | err e ↦ (err e, after_run m w s)
      ]

  -- The body of the loop over the pending records.
  unfoldable pub redrive_record : DeadLetterRecord → Exec Redrive (Unit {0})
  redrive_record entry s = elim (rebuild_raw_message entry) [
    | none ↦ (err bad_base64, examine s)
    | some m ↦ redrive_message entry.record_id m (examine s)
  ]

  unfoldable pub redrive_records : List DeadLetterRecord → Exec Redrive (Unit {0})
  redrive_records [] s = (ok tt, s)
  redrive_records (entry ∷ rest) s =
      let (r, s') = redrive_record entry s in
      elim r [ ok _ ↦ redrive_records rest s' | err e ↦ (err e, s') ]

  unfoldable pub redrive : Option ℤ → Exec Redrive (Unit {0})
  redrive limit s =
      redrive_records (DeadLetters.list_pending limit s.store)
        (record s { report = new_redrive_report })
