-- ===== src/Pipeline/Work.antt =====
-- The work on one message in src/mailflow/core/pipeline.py: `_do_work` with the methods that it calls.

use mailflow.Base.{
  ℤ, Text, text, Bool, true, false, ◌&&◌, Option, none, some, List, [], ◌∷◌, ◌++◌, if◌then◌else◌,
}
use mailflow.Exec.{Exec, ok, err, pure, modify, ◌>>=◌, ◌>>◌}
use mailflow.Core.Models.{
  RawMessage, stream_key, Envelope, CleanEmail, Delivery, Disposition, Decision, Relevance,
  EmailEvent, StrippedAttachment, strip_value, schema_version,
}
use mailflow.Core.Filtering.{FilterContext, FilterDecision}
use mailflow.Core.Report.{DecisionTrace, RunReport, record_trace, record_stripped}
use mailflow.Ports.{DedupeStore, CursorStore}
use mailflow.Filters.Chain.{run_chain}
use mailflow.Pipeline.Components.{Components, PipelineConfig, OnFiltered, Extractor, mime, generic}
use mailflow.Pipeline.World.{World}

-- decision.decision is Decision.drop
abbrev pub is_drop : Decision → Bool
is_drop Decision.drop = true
is_drop _ = false

abbrev pub is_uncertain : Decision → Bool
is_uncertain Decision.uncertain = true
is_uncertain _ = false

-- config.on_filtered == "drop"
abbrev pub drops : OnFiltered → Bool
drops OnFiltered.drop = true
drops OnFiltered.tag = false

-- The fields that the pipeline sets on an extracted email.
unfoldable pub stamp : Option Relevance → FilterDecision → CleanEmail → CleanEmail
stamp relevance decision email =
    let scored : CleanEmail = elim relevance [
      | none ↦ email
      | some r ↦ record email { relevance = r }
    ] in
    if is_drop decision.decision
    then record scored {
      disposition = Delivery.filtered;
      matched_filter = decision.filter_name;
      filter_reason = decision.reason;
    }
    else record scored { matched_filter = decision.filter_name }

abbrev pub score_of : Option Relevance → Option ℤ
score_of none = none
score_of (some r) = r.score

module _ (C : Components) (D : DedupeStore) (K : CursorStore) (cfg : PipelineConfig) where
  abbrev pub W : Type 0
  W = World C D K

  abbrev pub outside : {A : Type 0} → Exec C.Outside A → Exec W A
  outside m w = let (r, x) = m w.outside in (r, record w { outside = x })

  abbrev pub context : FilterContext
  context = record { tenant = cfg.tenant }

  -- `notify_observers`: what a callback raises is swallowed.
  unfoldable pub notify : {T : Type 0} → Option (T → Exec C.Outside (Unit {0})) → T → W → W
  notify none t w = w
  notify (some callback) t w = record w { outside = (callback t w.outside).1 }

  unfoldable pub record_decision : DecisionTrace → W → W
  record_decision t w = notify C.on_trace t (record w { report = record_trace t w.report })

  unfoldable pub new_trace :
      Text → RawMessage → Disposition → Text → Text → Text → Option ℤ → DecisionTrace
  new_trace canonical_id msg disposition stage matched_filter reason score = record {
    canonical_id = canonical_id;
    tenant = cfg.tenant;
    stream = stream_key msg.stream;
    disposition = disposition;
    stage = stage;
    matched_filter = matched_filter;
    reason = reason;
    relevance_score = score;
    is_inline = false;
  }

  unfoldable pub mark_done : Text → W → W
  mark_done key w = record w { dedupe = D.mark_done key cfg.done_ttl_seconds w.dedupe }

  unfoldable pub classify : Envelope → FilterDecision → Exec W (Option Relevance)
  classify env decision w = elim C.classifier [
    | none ↦ (ok none, w)
    | some f ↦
        if is_uncertain decision.decision
        then (outside (f env context) >>= λ r. pure (some r)) w
        else (ok none, w)
  ]

  unfoldable pub run_extractor :
      Extractor C.Outside → RawMessage → Envelope → Exec C.Outside CleanEmail
  run_extractor (mime extract_bytes) msg env =
      extract_bytes msg.raw_bytes msg.provider msg.provider_message_id (stream_key msg.stream)
        msg.stream.mailbox msg.thread_key
  run_extractor (generic extract) msg env = extract msg env

  unfoldable pub clean : CleanEmail → Exec W CleanEmail
  clean email w = elim C.cleaner [ none ↦ (ok email, w) | some f ↦ outside (f email) w ]

  unfoldable pub extract : RawMessage → Envelope → Exec W CleanEmail
  unfolding run_extractor clean
  extract msg env = do email ← outside (run_extractor C.extractor msg env); clean email

  -- The trace of one stripped attachment.
  unfoldable pub strip_trace : Text → RawMessage → StrippedAttachment → DecisionTrace
  strip_trace canonical_id msg sa = record {
    canonical_id = canonical_id;
    tenant = cfg.tenant;
    stream = stream_key msg.stream;
    disposition = Disposition.dropped;
    stage = text "attachment_strip";
    matched_filter = [];
    reason = strip_value sa.reason;
    relevance_score = none;
    is_inline = sa.is_inline;
  }

  unfoldable pub report_strips : Text → RawMessage → List StrippedAttachment → RunReport → RunReport
  report_strips canonical_id msg [] r = r
  report_strips canonical_id msg (sa ∷ rest) r =
      report_strips canonical_id msg rest (record_stripped (strip_trace canonical_id msg sa) r)

  unfoldable pub record_strips : Text → RawMessage → List StrippedAttachment → W → W
  record_strips canonical_id msg stripped w = record w {
    report = report_strips canonical_id msg stripped w.report;
  }

  unfoldable pub new_event : RawMessage → Text → CleanEmail → EmailEvent
  new_event msg key email = record {
    schema_version = schema_version;
    tenant = cfg.tenant;
    ordering_key = msg.stream.mailbox;
    idempotency_key = key;
    email = email;
  }

  -- self.emitter.emit(event)
  unfoldable pub emit : EmailEvent → Exec W (Unit {0})
  emit event w =
      let (r, x) = C.emitter event w.outside in
      elim r [
        | ok _ ↦ (ok tt, record w { outside = x; emitted = w.emitted ++ (event ∷ []) })
        | err e ↦ (err e, record w { outside = x })
      ]

  -- A match under on_filtered == "drop".
  unfoldable pub drop_filtered : RawMessage → Text → Envelope → FilterDecision → Exec W Disposition
  unfolding mark_done record_decision
  drop_filtered msg key env decision = do
    modify (mark_done key)
    modify (
        record_decision (
          new_trace env.canonical_id msg Disposition.dropped (text "filter") decision.filter_name
            decision.reason none))
    pure Disposition.dropped

  -- From the traces of the stripped attachments to the trace of the emission.
  unfoldable pub publish : RawMessage → Text → Option Relevance → CleanEmail → Exec W Disposition
  unfolding mark_done record_decision
  publish msg key relevance email = do
    modify (record_strips email.canonical_id msg email.stripped_attachments)
    emit (new_event msg key email)
    modify (mark_done key)
    modify (
        record_decision (
          new_trace email.canonical_id msg Disposition.emitted (text "emit") [] []
            (score_of relevance)))
    pure Disposition.emitted

  unfoldable pub deliver : RawMessage → Text → Envelope → FilterDecision → Exec W Disposition
  deliver msg key env decision = do
    relevance ← classify env decision
    email ← extract msg env
    publish msg key relevance (stamp relevance decision email)

  unfoldable pub do_work : RawMessage → Text → Exec W Disposition
  do_work msg key = do
    env ← outside (C.parse_envelope msg cfg.tenant)
    decision ← outside (run_chain C.filters env context)
    if is_drop decision.decision && drops cfg.on_filtered
        then drop_filtered msg key env decision
        else deliver msg key env decision
