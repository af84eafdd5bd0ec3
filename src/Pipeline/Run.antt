-- ===== src/Pipeline/Run.antt =====
-- `_run_stream` and `run_once` of src/mailflow/core/pipeline.py. `blocked` is the low-water mark: once a
-- message is left for a later run, the cursor stays behind it.
use mailflow.Base.{◌+◌, Bool, true, false, Option, none, some, List, [], ◌∷◌, if◌then◌else◌}
use mailflow.Exec.{Exec, Exc, ok, err, ◌>>=◌, ◌>>◌}
use mailflow.Core.Models.{RawMessage, StreamRef, Cursor}
use mailflow.Core.Report.{RunReport, new_report}
use mailflow.Ports.{DedupeStore, CursorStore}
use mailflow.Pipeline.Components.{Components, PipelineConfig}
use mailflow.Pipeline.World.{World}
use mailflow.Pipeline.Work.{outside, notify}
use mailflow.Pipeline.Process.{process}

module _ (C : Components) (D : DedupeStore) (K : CursorStore) (cfg : PipelineConfig) where
  abbrev pub W : Type 0
  W = World C D K

  -- report.fetched += 1
  unfoldable pub count_fetched : W → W
  count_fetched w = record w { report = record w.report { fetched = w.report.fetched + 1 } }

  unfoldable pub commit : StreamRef → Cursor → W → W
  commit stream cursor w = record w {
    cursors = (K.commit_if_ahead cfg.tenant stream cursor w.cursors).1;
  }

  -- The body of the loop over the messages of a stream, from the outcome of `_process`.
  unfoldable pub run_messages : StreamRef → Bool → List RawMessage → Exec W (Unit {0})
  run_messages stream blocked [] w = (ok tt, w)
  run_messages stream blocked (msg ∷ rest) w =
      let (r, w') = process C D K cfg msg (count_fetched w) in
      elim r [
        | err e ↦ (err e, w')
        | ok o ↦ elim o [
          | none ↦ run_messages stream true rest w'
          | some d ↦
              run_messages stream blocked rest (if blocked then w' else commit stream msg.cursor w')
        ]
      ]

  -- The generator ends, or raises what ends it.
  abbrev pub end_fetch : Option Exc → Exec W (Unit {0})
  end_fetch none w = (ok tt, w)
  end_fetch (some e) w = (err e, w)

  unfoldable pub run_stream : StreamRef → Exec W (Unit {0})
  run_stream stream w =
      let cursor = K.get cfg.tenant stream w.cursors in
      let (fetched, x) = C.fetch stream cursor w.outside in
      (run_messages stream false fetched.0 >> end_fetch fetched.1) (record w { outside = x })

  unfoldable pub run_streams : List StreamRef → Exec W (Unit {0})
  run_streams [] w = (ok tt, w)
  run_streams (s ∷ rest) w = (run_stream s >> run_streams rest) w

  unfoldable pub report_done : Exec W RunReport
  report_done w = (ok w.report, notify C D K cfg C.on_report w.report w)

  -- A run starts with a report of its own.
  unfoldable pub run_once : Exec W RunReport
  run_once w =
      (outside C D K cfg C.connect
          >> (outside C D K cfg C.sync_streams >>= λ streams. run_streams streams >> report_done))
        (record w { report = new_report })
