-- ===== src/Pipeline/Components.antt =====
-- The components that `Pipeline.__init__` of src/mailflow/core/pipeline.py takes, other than its cursor
-- and dedupe stores. Each may raise, and each may change the world outside (a mailbox, a blob store, a
-- queue), whose state is `Outside`.
use mailflow.Base.{ℕ, Text, ℤ, Option, List}
use mailflow.Exec.{Exec, Exc}
use mailflow.Core.Models.{
  RawMessage, StreamRef, Cursor, Envelope, CleanEmail, Relevance, EmailEvent, Bytes, Time,
}
use mailflow.Core.Filtering.{FilterContext}
use mailflow.Core.Report.{DecisionTrace, DeadLetterRecord, RunReport}
use mailflow.Filters.Chain.{Filter}

-- `on_filtered: Literal["tag", "drop"]`
pub data OnFiltered : Type 0 where
  tag drop : OnFiltered

pub record PipelineConfig : Type 0 where
  pub tenant : Text
  pub max_message_bytes : ℤ
  pub max_attempts : ℕ
  pub claim_lease_seconds : ℕ
  pub done_ttl_seconds : ℕ
  pub on_filtered : OnFiltered

-- `MimeExtractor.extract_bytes`, with its arguments in the order of the call, or the `extract` of
-- the port. The blob store that the first is handed belongs to the world outside.
pub data Extractor (X : Type 0) : Type 0 where
  mime : (Bytes → Text → Text → Text → Text → Text → Exec X CleanEmail) → Extractor X
  generic : (RawMessage → Envelope → Exec X CleanEmail) → Extractor X

pub record Components : Type 1 where
  pub Outside : Type 0
  pub connect : Exec Outside (Unit {0})
  pub sync_streams : Exec Outside (List StreamRef)
  -- The messages that the generator yields, and the exception that ends it, if one does.
  pub fetch : StreamRef → Option Cursor → Outside → (List RawMessage × Option Exc) × Outside
  pub message_size : RawMessage → Exec Outside (Option ℤ)
  pub parse_envelope : RawMessage → Text → Exec Outside Envelope
  pub filters : List (Filter Outside)
  pub classifier : Option (Envelope → FilterContext → Exec Outside Relevance)
  pub extractor : Extractor Outside
  pub cleaner : Option (CleanEmail → Exec Outside CleanEmail)
  pub emitter : EmailEvent → Exec Outside (Unit {0})
  pub dlq_emitter : EmailEvent → Exec Outside (Unit {0})
  pub dlq_store : Option (DeadLetterRecord → Exec Outside (Unit {0}))
  pub auth_refresher : Option (Exec Outside (Unit {0}))
  pub on_trace : Option (DecisionTrace → Exec Outside (Unit {0}))
  pub on_report : Option (RunReport → Exec Outside (Unit {0}))
  -- `datetime.now(timezone.utc)`
  pub now : Outside → Time
  -- `hashlib.sha256(..).hexdigest()`
  pub sha256_hex : Text → Text
