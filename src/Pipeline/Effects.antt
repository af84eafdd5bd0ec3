-- ===== src/Pipeline/Effects.antt =====
-- What the work on one message of src/mailflow/core/pipeline.py does to the stores, the logs and the
-- counters, on every branch.
use mailflow.Base.{
  ℕ, ◌+◌, Text, Bool, true, false, Option, none, some, List, [], ◌∷◌, ◌++◌, ◌≡◌, refl, ap, arith,
  ◌&&◌, if◌then◌else◌,
}
use mailflow.Exec.{Exec, Result, ok, err, continue}
use mailflow.Core.Models.{
  RawMessage, Envelope, CleanEmail, Disposition, emitted, dropped, duplicate, dead_lettered,
  EmailEvent, StrippedAttachment, Relevance,
}
use mailflow.Core.Filtering.{FilterDecision}
use mailflow.Core.Report.{RunReport, DecisionTrace, record_trace, record_stripped}
use mailflow.Filters.Chain.{run_chain}
use mailflow.Ports.{DedupeStore, CursorStore}
use mailflow.Pipeline.Components.{Components, PipelineConfig}
use mailflow.Pipeline.World.{World}
use mailflow.Pipeline.Work.{
  stamp, notify, record_decision, new_trace, classify, extract, report_strips, record_strips,
  new_event, emit, drop_filtered, publish, deliver, do_work, strip_trace, is_drop, drops, outside,
  context,
}

-- The idempotency keys of the events that the emitter has accepted, oldest first.
abbrev pub emitted_keys : List EmailEvent → List Text
emitted_keys [] = []
emitted_keys (e ∷ es) = e.idempotency_key ∷ emitted_keys es

emitted_keys-append :
    (es : List EmailEvent) (e : EmailEvent)
    → emitted_keys (es ++ (e ∷ [])) ≡ emitted_keys es ++ (e.idempotency_key ∷ [])
emitted_keys-append [] e = refl
emitted_keys-append (d ∷ es) e = ap (◌∷◌ d.idempotency_key) (emitted_keys-append es e)

-- 1 if a message with this outcome adds to the counter of that disposition.
abbrev pub hit : Disposition → Option Disposition → ℕ
hit emitted (some emitted) = 1
hit dropped (some dropped) = 1
hit duplicate (some duplicate) = 1
hit dead_lettered (some dead_lettered) = 1
hit _ _ = 0

-- The counters of a report after one more outcome.
pub record Counted (o : Option Disposition) (r r' : RunReport) : Type 0 where
  pub fetched : r'.fetched ≡ r.fetched
  pub emitted : r'.emitted ≡ r.emitted + hit Disposition.emitted o
  pub dropped : r'.dropped ≡ r.dropped + hit Disposition.dropped o
  pub duplicates : r'.duplicates ≡ r.duplicates + hit Disposition.duplicate o
  pub dead_lettered : r'.dead_lettered ≡ r.dead_lettered + hit Disposition.dead_lettered o

module _ (C : Components) (D : DedupeStore) (K : CursorStore) (cfg : PipelineConfig) where
  abbrev pub W : Type 0
  W = World C D K

  report_strips-Counted :
      (id : Text) (msg : RawMessage) (l : List StrippedAttachment) (r : RunReport)
      → Counted none r (report_strips C D K cfg id msg l r)
  unfolding report_strips record_stripped
  report_strips-Counted id msg [] r = omega arith
  report_strips-Counted id msg (sa ∷ l) r =
      omega (
        arith,
        report_strips-Counted id msg l (record_stripped (strip_trace C D K cfg id msg sa) r),
      )

  -- What is left alone until a message is settled.
  pub record Kept (w w' : W) : Type 0 where
    pub dedupe : w'.dedupe ≡ w.dedupe
    pub cursors : w'.cursors ≡ w.cursors
    pub emitted : w'.emitted ≡ w.emitted
    pub quarantined : w'.quarantined ≡ w.quarantined
    pub records : w'.records ≡ w.records
    pub counted : Counted none w.report w'.report

  classify_outside :
      (env : Envelope) (d : FilterDecision) (w : W)
      → let w' = (classify C D K cfg env d w).1 in w' ≡ record w { outside = w'.outside }
  unfolding classify
  classify_outside env d w = ground arith

  extract_outside :
      (msg : RawMessage) (env : Envelope) (w : W)
      → let w' = (extract C D K cfg msg env w).1 in w' ≡ record w { outside = w'.outside }
  unfolding extract
  extract_outside msg env w = ground arith

  record_decision_outside :
      (t : DecisionTrace) (w : W)
      → let w' = record_decision C D K cfg t w in
        w' ≡ record w { outside = w'.outside; report = record_trace t w.report }
  unfolding record_decision notify
  record_decision_outside t w = ground arith

  -- What an outcome that settles a message has done.
  pub record Settled (key : Text) (d : Disposition) (w w' : W) : Type 0 where
    pub dedupe : w'.dedupe ≡ D.mark_done key cfg.done_ttl_seconds w.dedupe
    pub cursors : w'.cursors ≡ w.cursors
    pub counted : Counted (some d) w.report w'.report

  -- What the emitters and the dead-letter store hold after each outcome.
  abbrev pub Logged : Text → Disposition → W → W → Type 0
  Logged key emitted w w' =
      (emitted_keys w'.emitted ≡ emitted_keys w.emitted ++ (key ∷ []))
      × (w'.quarantined ≡ w.quarantined)
      × (w'.records ≡ w.records)
  Logged key duplicate w w' = ⊥
  Logged key dead_lettered w w' = ⊥
  Logged key dropped w w' =
      (w'.emitted ≡ w.emitted) × (w'.quarantined ≡ w.quarantined) × (w'.records ≡ w.records)

  abbrev pub Worked : Text → W → Result Disposition × W → Type 0
  Worked key w (ok d, w') = Settled key d w w' × Logged key d w w'
  Worked key w (err e, w') = Kept w w'

  drop_filtered-Worked :
      (msg : RawMessage) (key : Text) (env : Envelope) (d : FilterDecision) (w : W)
      → Worked key w (drop_filtered C D K cfg msg key env d w)
  unfolding drop_filtered record_trace notify new_trace
  drop_filtered-Worked msg key env d w = ground arith

  publish-Worked :
      (msg : RawMessage) (key : Text) (relevance : Option Relevance) (email : CleanEmail) (w : W)
      → Worked key w (publish C D K cfg msg key relevance email w)
  unfolding publish emit record_strips record_trace notify new_trace new_event
  publish-Worked msg key relevance email w = ground (
    arith,
    report_strips-Counted email.canonical_id msg email.stripped_attachments w.report,
    emitted_keys-append w.emitted (new_event C D K cfg msg key email),
  )

  abbrev pub Outward : W → W → Type 0
  Outward w w' = w' ≡ record w { outside = w'.outside }

  Worked-Outward :
      (key : Text) (w w1 : W) (p : Result Disposition × W)
      → Outward w w1
      → Worked key w1 p
      → Worked key w p
  Worked-Outward key w w1 (ok emitted, w') e h = ground arith
  Worked-Outward key w w1 (ok dropped, w') e h = ground arith
  Worked-Outward key w w1 (ok duplicate, w') e h = ground arith
  Worked-Outward key w w1 (ok dead_lettered, w') e h = ground arith
  Worked-Outward key w w1 (err x, w') e h = ground arith

  Kept-Outward : (w w' : W) → Outward w w' → Kept w w'
  Kept-Outward w w' e = ground arith

  -- A step that changes only the world outside may come first.
  continue-Worked :
      {A : Type 0} (key : Text) (w : W) (p : Result A × W) (f : A → Exec W Disposition)
      → Outward w p.1
      → ((a : A) (w1 : W) → Worked key w1 (f a w1))
      → Worked key w (continue p f)
  continue-Worked key w (ok a, w1) f e hf = Worked-Outward key w w1 (f a w1) e (hf a w1)
  continue-Worked key w (err x, w1) f e hf = Kept-Outward w w1 e

  deliver-Worked :
      (msg : RawMessage) (key : Text) (env : Envelope) (d : FilterDecision) (w : W)
      → Worked key w (deliver C D K cfg msg key env d w)
  unfolding deliver
  deliver-Worked msg key env d w =
      continue-Worked key w (classify C D K cfg env d w) _ (classify_outside env d w) λ r w1.
        continue-Worked key w1 (extract C D K cfg msg env w1) _ (extract_outside msg env w1)
          λ email w2. publish-Worked msg key r (stamp r d email) w2

  if-Worked :
      (b : Bool) (key : Text) (w : W) (m n : Exec W Disposition)
      → Worked key w (m w)
      → Worked key w (n w)
      → Worked key w ((if b then m else n) w)
  if-Worked true key w m n hm hn = hm
  if-Worked false key w m n hm hn = hn

  -- The work on a message either raises and has settled nothing, or it marks the key done and emits
  -- the message once, under that key, or drops it.
  pub do_work-Worked :
      (msg : RawMessage) (key : Text) (w : W) → Worked key w (do_work C D K cfg msg key w)
  unfolding do_work
  do_work-Worked msg key w =
      continue-Worked key w (outside C D K cfg (C.parse_envelope msg cfg.tenant) w) _ refl λ env w1.
        continue-Worked key w1 (outside C D K cfg (run_chain C.filters env (context C D K cfg)) w1)
          _ refl
          λ d w2.
            if-Worked (is_drop d.decision && drops cfg.on_filtered) key w2
              (drop_filtered C D K cfg msg key env d) (deliver C D K cfg msg key env d)
              (drop_filtered-Worked msg key env d w2) (deliver-Worked msg key env d w2)
