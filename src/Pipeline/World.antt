-- ===== src/Pipeline/World.antt =====
-- What a run of the pipeline (src/mailflow/core/pipeline.py) reads and writes: the world outside, its
-- two stores, the report, and a log of what the emitters and the dead-letter store have accepted.
use mailflow.Base.{List}
use mailflow.Core.Models.{EmailEvent}
use mailflow.Core.Report.{RunReport, DeadLetterRecord}
use mailflow.Ports.{DedupeStore, CursorStore}
use mailflow.Pipeline.Components.{Components}

module _ (C : Components) (D : DedupeStore) (K : CursorStore) where
  pub record World : Type 0 where
    pub outside : C.Outside
    pub dedupe : D.State
    pub cursors : K.State
    pub emitted : List EmailEvent
    pub quarantined : List EmailEvent
    pub records : List DeadLetterRecord
    pub report : RunReport
