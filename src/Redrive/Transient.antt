-- ===== src/Redrive/Transient.antt =====
-- A record whose message fails for the moment, in a redrive (src/mailflow/core/redrive.py).
use mailflow.Base.{
  ℕ, ◌+◌, Text, text_Eq, text_eq_iff, true, false, none, some, [], ◌∷◌, ◌≡◌, refl, arith, subst,
}
use mailflow.Exec.{ok}
use mailflow.Core.Models.{RawMessage, Time}
use mailflow.Core.Report.{DeadLetterRecord}
use mailflow.Dict
use mailflow.Dict.{Dict}
use mailflow.Stores.MemoryCursor.{memory_cursors}
use mailflow.Stores.MemoryDedupe.Laws.{memory_dedupe}
use mailflow.Stores.DeadLetters
use mailflow.Stores.DeadLetters.{IsKeyed}
use mailflow.Pipeline.Components.{Components, PipelineConfig}
use mailflow.Pipeline.World.{World}
use mailflow.Pipeline.Work.{notify}
use mailflow.Pipeline.Effects.{emitted_keys}
use mailflow.Pipeline.Process.{process, message_key}
use mailflow.Pipeline.Run.{
  count_fetched, run_messages, run_stream, run_streams, run_once, report_done,
}
use mailflow.Pipeline.Verdict.{Outcome, process-Outcome}
use mailflow.Core.Streams.{stream_Eq, stream_eq_iff}
use mailflow.Redrive.{
  Redrive, redrive_record, redrive_message, settle_record, after_run, rebuild_raw_message,
  is_resubmitted, group_from, streams_of, fresh_world, redrive_components, messages_of, examine,
}

group_one : (m : RawMessage) → group_from [] (m ∷ []) ≡ (m.stream, m ∷ []) ∷ []
unfolding group_from Dict.put_new Dict.adjust
group_one m = ground (arith, stream_eq_iff m.stream m.stream)

get_one : (m : RawMessage) → messages_of (Dict.get (group_from [] (m ∷ [])) m.stream) ≡ m ∷ []
unfolding Dict.get
get_one m = rw (group_one m) (ground (arith, stream_eq_iff m.stream m.stream))

streams_one : (m : RawMessage) → streams_of (group_from [] (m ∷ [])) ≡ m.stream ∷ []
unfolding streams_of
streams_one m = rw (group_one m)

get-remove_self :
    (k : Text) (records : DeadLetters.State)
    → IsKeyed records
    → Dict.get (Dict.remove records k) k ≡ none
unfolding Dict.get Dict.remove
get-remove_self k [] h = refl
get-remove_self k ((j, r) ∷ rest) h =
    ground (arith, get-remove_self k rest h.2, text_eq_iff j k, h.1)

module _ (C : Components) (clock : ℕ → Time) (cfg : PipelineConfig) (m : RawMessage) where
  abbrev X : Components
  X = redrive_components C (m ∷ [])

  abbrev V : Type 0
  V = World X (memory_dedupe clock) memory_cursors

  -- The run of a provider with one message is the loop over that message.
  run_one :
      (w w1 : V)
      → run_messages X (memory_dedupe clock) memory_cursors cfg m.stream false (m ∷ []) w
        ≡ (ok tt, w1)
      → run_streams X (memory_dedupe clock) memory_cursors cfg (m.stream ∷ []) w ≡ (ok tt, w1)
  unfolding run_streams run_stream redrive_components
  run_one w w1 e = rw (get_one m) (ground arith)

  loop_one :
      (w w1 : V)
      → process X
          (memory_dedupe clock)
          memory_cursors
          cfg
          m
          (count_fetched X (memory_dedupe clock) memory_cursors cfg w)
        ≡ (ok none, w1)
      → run_messages X (memory_dedupe clock) memory_cursors cfg m.stream false (m ∷ []) w
        ≡ (ok tt, w1)
  unfolding run_messages
  loop_one w w1 q = ground arith

  run_once_one :
      (s : Redrive C clock cfg) (w1 : V)
      → process X
          (memory_dedupe clock)
          memory_cursors
          cfg
          m
          (count_fetched X (memory_dedupe clock) memory_cursors cfg (fresh_world C clock cfg m s))
        ≡ (ok none, w1)
      → run_once X (memory_dedupe clock) memory_cursors cfg (fresh_world C clock cfg m s)
        ≡ (ok w1.report, w1)
  unfolding run_once report_done notify redrive_components fresh_world
  run_once_one s w1 q = rw (streams_one m) (
      ground (
        arith,
        run_one (fresh_world C clock cfg m s) w1 (loop_one (fresh_world C clock cfg m s) w1 q),
      ))

  left_report :
      (s : Redrive C clock cfg) (w1 : V)
      → process X
          (memory_dedupe clock)
          memory_cursors
          cfg
          m
          (count_fetched X (memory_dedupe clock) memory_cursors cfg (fresh_world C clock cfg m s))
        ≡ (ok none, w1)
      → (is_resubmitted w1.report ≡ true) × (emitted_keys w1.emitted ≡ emitted_keys s.emitted)
  unfolding count_fetched fresh_world
  left_report s w1 q =
      let w =
        count_fetched X (memory_dedupe clock) memory_cursors cfg (fresh_world C clock cfg m s) in
      let h =
        subst
          (Outcome X (memory_dedupe clock) memory_cursors cfg
            (message_key X (memory_dedupe clock) memory_cursors cfg m) w)
          q (process-Outcome X (memory_dedupe clock) memory_cursors cfg m w) in
      (ground (arith, h.7), ground (arith, h.6))

  -- A record whose message, in its redrive, is left for a later run (its work has failed for the
  -- moment, and an empty dedupe store counts one attempt) is counted as resubmitted and deleted from
  -- the dead-letter store, though nothing was emitted for it: no later run will see the message.
  pub redrive_loses :
      (entry : DeadLetterRecord) (s : Redrive C clock cfg) (w1 : V)
      → rebuild_raw_message entry ≡ some m
      → IsKeyed s.store
      → process X (memory_dedupe clock) memory_cursors cfg m (
          count_fetched X
            (memory_dedupe clock)
            memory_cursors
            cfg
            (fresh_world C clock cfg m (examine C clock cfg s)))
        ≡ (ok none, w1)
      → let (r, s') = redrive_record C clock cfg entry s in
        (r ≡ ok tt)
        × (Dict.get s'.store entry.record_id ≡ none)
        × (emitted_keys s'.emitted ≡ emitted_keys s.emitted)
        × (s'.report.resubmitted ≡ s.report.resubmitted + 1)
  unfolding redrive_record redrive_message settle_record after_run DeadLetters.delete
  redrive_loses entry s w1 built keyed q =
      let run = run_once_one (examine C clock cfg s) w1 q in
      let left = left_report (examine C clock cfg s) w1 q in
      let gone = get-remove_self entry.record_id s.store keyed in
      (
        ground (arith, run, left.0, built),
        ground (arith, run, left.0, built, gone),
        ground (arith, run, left.0, left.1, built),
        ground (arith, run, left.0, built),
      )
