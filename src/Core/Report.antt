-- ===== src/Core/Report.antt =====
-- src/mailflow/core/observability.py: traces, dead letters and the run report.
use mailflow.Base.{ℕ, ◌+◌, Text, ℤ, Bool, Option, List, [], ◌∷◌, ◌++◌, leb}
use mailflow.Core.Models.{Disposition, emitted, dropped, duplicate, dead_lettered, Time}

pub record DecisionTrace : Type 0 where
  pub canonical_id : Text
  pub tenant : Text
  pub stream : Text
  pub disposition : Disposition
  pub stage : Text
  pub matched_filter : Text
  pub reason : Text
  pub relevance_score : Option ℤ
  pub is_inline : Bool

pub record DeadLetter : Type 0 where
  pub canonical_id : Text
  pub reason : Text
  pub provider_message_id : Text

pub record DeadLetterRecord : Type 0 where
  pub record_id : Text
  pub tenant : Text
  pub provider : Text
  pub provider_message_id : Text
  pub mailbox : Text
  pub folder : Option Text
  pub canonical_id : Text
  pub reason : Text
  pub error_class : Text
  pub attempts : ℕ
  pub size_bytes : ℤ
  pub thread_key : Text
  pub cursor_value : Text
  pub cursor_order : ℤ
  pub received_at : Time
  pub dead_lettered_at : Time
  pub raw_b64 : Text
  pub schema_version : Text

pub record RunReport : Type 0 where
  pub fetched : ℕ
  pub emitted : ℕ
  pub dropped : ℕ
  pub duplicates : ℕ
  pub dead_lettered : ℕ
  pub attachments_stripped : ℕ
  pub traces : List DecisionTrace
  pub stripped : List DecisionTrace
  pub dlq : List DeadLetter

abbrev pub new_report : RunReport
new_report = record {
  fetched = 0;
  emitted = 0;
  dropped = 0;
  duplicates = 0;
  dead_lettered = 0;
  attachments_stripped = 0;
  traces = [];
  stripped = [];
  dlq = [];
}

-- The ladder of `RunReport.record` after the trace is appended.
abbrev count_disposition : Disposition → RunReport → RunReport
count_disposition emitted r = record r { emitted = r.emitted + 1 }
count_disposition dropped r = record r { dropped = r.dropped + 1 }
count_disposition duplicate r = record r { duplicates = r.duplicates + 1 }
count_disposition dead_lettered r = r

unfoldable pub record_trace : DecisionTrace → RunReport → RunReport
record_trace t r = count_disposition t.disposition (record r { traces = r.traces ++ (t ∷ []) })

unfoldable pub record_stripped : DecisionTrace → RunReport → RunReport
record_stripped t r = record r {
  stripped = r.stripped ++ (t ∷ []);
  attachments_stripped = r.attachments_stripped + 1;
}

unfoldable pub add_dead_letter : DeadLetter → RunReport → RunReport
add_dead_letter d r = record r { dlq = r.dlq ++ (d ∷ []); dead_lettered = r.dead_lettered + 1 }

abbrev pub terminal : RunReport → ℕ
terminal r = r.emitted + r.dropped + r.duplicates + r.dead_lettered

unfoldable pub all_terminal : RunReport → Bool
all_terminal r = leb r.fetched (terminal r)
