-- ===== src/Redrive/Runs.antt =====
-- The run of one record in src/mailflow/core/redrive.py, and the counters of a redrive.
use mailflow.Base.{ℤ, ℕ, ◌+◌, Option, List, [], ◌∷◌, ◌≡◌, arith, length}
use mailflow.Exec.{ok}
use mailflow.Core.Models.{Time}
use mailflow.Core.Report.{DeadLetterRecord}
use mailflow.Stores.DeadLetters
use mailflow.Pipeline.Components.{Components, PipelineConfig}
use mailflow.Core.Streams.{stream_Eq}
use mailflow.Redrive.{
  Redrive, redrive_record, redrive_records, redrive_message, redrive, settle_record, after_run,
  new_redrive_report,
}

module _ (C : Components) (clock : ℕ → Time) (cfg : PipelineConfig) where
  -- The counters grow by one record, by one in exactly one of the two outcomes.
  record Examined (s s' : Redrive C clock cfg) : Type 0 where
    examined : s'.report.examined ≡ s.report.examined + 1
    split :
        s'.report.resubmitted + s'.report.still_dead_lettered
        ≡ s.report.resubmitted + s.report.still_dead_lettered + 1

  redrive_record-Examined :
      (entry : DeadLetterRecord) (s : Redrive C clock cfg)
      → (redrive_record C clock cfg entry s).0 ≡ ok tt
      → Examined s (redrive_record C clock cfg entry s).1
  unfolding redrive_record redrive_message settle_record after_run
  redrive_record-Examined entry s e = ground arith

  redrive_records_counts :
      (l : List DeadLetterRecord) (s s' : Redrive C clock cfg)
      → redrive_records C clock cfg l s ≡ (ok tt, s')
      → (s'.report.examined ≡ s.report.examined + length l)
        × (s'.report.resubmitted + s'.report.still_dead_lettered
            ≡ s.report.resubmitted + s.report.still_dead_lettered + length l)
  unfolding redrive_records
  redrive_records_counts [] s s' e = ground arith
  redrive_records_counts (entry ∷ l) s s' e = ground (
    arith,
    redrive_record-Examined entry s,
    redrive_records_counts l (redrive_record C clock cfg entry s).1 s',
  )

  -- A redrive that returns has examined every pending record up to the limit, and counts each of
  -- them either as resubmitted or as still dead-lettered.
  pub redrive_counts :
      (limit : Option ℤ) (s s' : Redrive C clock cfg)
      → redrive C clock cfg limit s ≡ (ok tt, s')
      → (s'.report.examined ≡ length (DeadLetters.list_pending limit s.store))
        × (s'.report.resubmitted + s'.report.still_dead_lettered ≡ s'.report.examined)
  unfolding redrive
  redrive_counts limit s s' e = ground (
    arith,
    redrive_records_counts (DeadLetters.list_pending limit s.store)
        (record s { report = new_redrive_report }) s' e,
  )
