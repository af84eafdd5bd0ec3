-- ===== src/Tests/Runs.antt =====
-- Runs of the pipeline over a stream.
use mailflow.Base.{◌≤◌, text, text_eq, false, [], ◌∷◌, ◌≡◌, refl, arith, length, if◌then◌else◌}
use mailflow.Exec.{ok}
use mailflow.Dict
use mailflow.Core.Models.{stream_key}
use mailflow.Core.Identity.{idempotency_key, derive_canonical_id}
use mailflow.Core.Report.{terminal, all_terminal}
use mailflow.Filters.Chain.{run_chain}
use mailflow.Pipeline.Work
use mailflow.Pipeline.Work.{
  notify, record_decision, new_trace, classify, extract, record_strips, report_strips, new_event,
  emit, publish, deliver, do_work, stamp, outside,
}
use mailflow.Pipeline.Process.{
  dead_letter, retry_or_dead_letter, rescue, release, attempt, guard_size, claimed_work, process,
  message_key, trace_id,
}
use mailflow.Pipeline.Effects.{emitted_keys}
use mailflow.Pipeline.Run.{
  count_fetched, commit, run_messages, run_once, run_streams, run_stream, report_done,
}
use mailflow.Pipeline.Verdict.{Outcome, process-Outcome}
use mailflow.Pipeline.Once.{IsOnce, occurs, run_times, run_times_emit_once}
use mailflow.Pipeline.Loop.{outcomes}
use mailflow.Pipeline.Accounting.{
  Tallied, all_settled, run_messages-Tallied, all_terminal-run_messages,
}
use mailflow.Pipeline.LowWater.{
  Above, PendingAhead, settled_prefix, commit_all, cursors-run_messages, pending_refetched,
}
use mailflow.Stores.MemoryDedupe
use mailflow.Stores.MemoryCursor
use mailflow.Samples.{dedupe, cursors, config, inbox, first, second, working, failing, start}

process-Outcome_example :
    Outcome working dedupe cursors config
      (message_key working dedupe cursors config first)
      (start working 0)
      (process working dedupe cursors config first (start working 0))
process-Outcome_example = process-Outcome working dedupe cursors config first (start working 0)

-- Both messages are tagged and emitted, under their keys.
run_emits :
    emitted_keys (run_once working dedupe cursors config (start working 0)).1.emitted
    ≡ text "acme|ops@acme.com|m1" ∷ text "acme|ops@acme.com|m2" ∷ []
unfolding run_once run_streams run_stream run_messages count_fetched commit process claimed_work
    guard_size attempt rescue retry_or_dead_letter release dead_letter do_work deliver publish emit
    classify extract record_strips report_strips new_event stamp run_chain notify record_decision
    new_trace message_key trace_id idempotency_key MemoryDedupe.try_claim
    MemoryDedupe.record_attempt MemoryDedupe.mark_done MemoryDedupe.release Dict.get Dict.put
    Dict.put_new Dict.adjust MemoryCursor.get MemoryCursor.commit_if_ahead stream_key text_eq
    derive_canonical_id report_done Work.mark_done
run_emits = refl

-- Nothing was emitted before the first run.
start-IsOnce : IsOnce working dedupe cursors config (start working 0)
unfolding occurs
start-IsOnce = record { once = λ k. omega arith }

run_times_emit_once_example :
    occurs
      (text "acme|ops@acme.com|m1")
      (emitted_keys (run_times working dedupe cursors config 2 (start working 0)).emitted)
    ≤ 1
run_times_emit_once_example =
    run_times_emit_once working dedupe cursors config 2 (start working 0)
      (text "acme|ops@acme.com|m1") start-IsOnce

start-Above :
    Above (cursors.get config.tenant inbox (start failing 0).cursors) (first ∷ second ∷ [])
unfolding MemoryCursor.get Dict.get
start-Above = (tt, (ground arith, tt))

pending_refetched_example :
    PendingAhead
      (cursors.get config.tenant inbox
        (run_messages failing dedupe cursors config inbox false
          (first ∷ second ∷ [])
          (start failing 0)).1.cursors)
      (outcomes failing dedupe cursors config inbox false (first ∷ second ∷ []) (start failing 0))
      (first ∷ second ∷ [])
pending_refetched_example =
    pending_refetched failing dedupe cursors config inbox (first ∷ second ∷ []) (start failing 0)
      start-Above

cursors-run_messages_example :
    (run_messages working dedupe cursors config inbox false
      (first ∷ second ∷ [])
      (start working 0)).1.cursors
    ≡ (if false
        then (start working 0).cursors
        else commit_all working dedupe cursors config inbox
            (settled_prefix
              (outcomes working dedupe cursors config inbox false
                (first ∷ second ∷ [])
                (start working 0))
              (first ∷ second ∷ []))
            (start working 0).cursors)
cursors-run_messages_example =
    cursors-run_messages working dedupe cursors config inbox false (first ∷ second ∷ [])
      (start working 0)

loop_returns :
    run_messages failing dedupe cursors config inbox false (first ∷ second ∷ []) (start failing 0)
    ≡ (
      ok tt,
      (run_messages failing dedupe cursors config inbox false
          (first ∷ second ∷ [])
          (start failing 0)).1,
    )
unfolding run_once run_streams run_stream run_messages count_fetched commit process claimed_work
    guard_size attempt rescue retry_or_dead_letter release dead_letter do_work deliver publish emit
    classify extract record_strips report_strips new_event stamp run_chain notify record_decision
    new_trace message_key trace_id idempotency_key MemoryDedupe.try_claim
    MemoryDedupe.record_attempt MemoryDedupe.mark_done MemoryDedupe.release Dict.get Dict.put
    Dict.put_new Dict.adjust MemoryCursor.get MemoryCursor.commit_if_ahead stream_key text_eq
    derive_canonical_id report_done Work.mark_done
loop_returns = refl

run_messages-Tallied_example :
    Tallied
      (length (first ∷ second ∷ []))
      (outcomes failing dedupe cursors config inbox false (first ∷ second ∷ []) (start failing 0))
      (start failing 0).report
      (run_messages failing dedupe cursors config inbox false
        (first ∷ second ∷ [])
        (start failing 0)).1.report
run_messages-Tallied_example =
    run_messages-Tallied failing dedupe cursors config inbox false (first ∷ second ∷ [])
      (start failing 0)
      (run_messages failing dedupe cursors config inbox false (first ∷ second ∷ [])
        (start failing 0)).1
      loop_returns

start_balanced : (start failing 0).report.fetched ≡ terminal (start failing 0).report
start_balanced = refl

all_terminal-run_messages_example :
    all_terminal
      (run_messages failing dedupe cursors config inbox false
        (first ∷ second ∷ [])
        (start failing 0)).1.report
    ≡ all_settled
        (outcomes failing dedupe cursors config inbox false (first ∷ second ∷ []) (start failing 0))
all_terminal-run_messages_example =
    all_terminal-run_messages failing dedupe cursors config inbox (first ∷ second ∷ [])
      (start failing 0)
      (run_messages failing dedupe cursors config inbox false (first ∷ second ∷ [])
        (start failing 0)).1
      loop_returns start_balanced
