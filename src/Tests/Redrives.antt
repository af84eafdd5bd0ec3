-- ===== src/Tests/Redrives.antt =====
-- Redrives of a dead letter.
use mailflow.Base.{◌+◌, text, text_eq, text_Eq, none, some, [], ◌∷◌, ◌≡◌, refl, arith, length}
use mailflow.Exec.{ok}
use mailflow.Dict
use mailflow.Core.Models.{stream_key}
use mailflow.Core.Identity.{idempotency_key, derive_canonical_id}
use mailflow.Filters.Chain.{run_chain}
use mailflow.Pipeline.World.{World}
use mailflow.Pipeline.Work
use mailflow.Pipeline.Work.{
  notify, record_decision, new_trace, classify, extract, record_strips, report_strips, new_event,
  emit, publish, deliver, do_work, stamp, outside,
}
use mailflow.Pipeline.Process.{
  dead_letter, retry_or_dead_letter, rescue, release, attempt, guard_size, claimed_work, process,
  message_key, trace_id, dead_letter_record,
}
use mailflow.Pipeline.Effects.{emitted_keys}
use mailflow.Pipeline.Run.{
  count_fetched, commit, run_messages, run_once, run_streams, run_stream, report_done,
}
use mailflow.Stores.MemoryDedupe
use mailflow.Stores.MemoryCursor
use mailflow.Samples.{letter, dedupe, cursors, config, first, working, failing, clock}
use mailflow.Stores.MemoryDedupe.Laws.{memory_dedupe}
use mailflow.Stores.MemoryCursor.{memory_cursors}
use mailflow.Stores.DeadLetters
use mailflow.Stores.DeadLetters.{IsKeyed}
use mailflow.Base64.Laws.{AreBytes}
use mailflow.Base64.{b64decode, b64decode_from, digit_value}
use mailflow.Redrive.{
  Redrive, rebuild_raw_message, redrive, redrive_record, redrive_records, redrive_message,
  settle_record, after_run, fresh_world, redrive_components, examine, new_redrive_report,
  group_from, streams_of,
}
use mailflow.Redrive.Rebuild.{rebuild_raw_message-dead_letter_record}
use mailflow.Redrive.Runs.{redrive_counts}
use mailflow.Redrive.Transient.{redrive_loses}

first-AreBytes : AreBytes first.raw_bytes
first-AreBytes = ground arith

rebuild_raw_message-dead_letter_record_example :
    rebuild_raw_message (
      dead_letter_record working dedupe cursors config
        (text "c1")
        first
        (text "k")
        (text "oversized")
        1
        (text "OversizedMessageError")
        7)
    ≡ some first
rebuild_raw_message-dead_letter_record_example =
    rebuild_raw_message-dead_letter_record working dedupe cursors config (text "c1") first
      (text "k") (text "oversized") 1 (text "OversizedMessageError") 7 first-AreBytes

abbrev queue : Redrive failing clock config
queue = record {
  outside = 0;
  store = (letter.record_id, letter) ∷ [];
  emitted = [];
  quarantined = [];
  report = new_redrive_report;
}

letter_built : rebuild_raw_message letter ≡ some first
unfolding rebuild_raw_message b64decode b64decode_from digit_value
letter_built = refl

-- The world in which the redrive's run leaves the message.
abbrev redriven :
    World (redrive_components failing (first ∷ [])) (memory_dedupe clock) memory_cursors
redriven =
    (process (redrive_components failing (first ∷ [])) (memory_dedupe clock) memory_cursors config
      first
      (count_fetched (redrive_components failing (first ∷ [])) (memory_dedupe clock) memory_cursors
        config (fresh_world failing clock config first (examine failing clock config queue)))).1

redriven_left :
    process
      (redrive_components failing (first ∷ []))
      (memory_dedupe clock)
      memory_cursors
      config
      first
      (count_fetched
        (redrive_components failing (first ∷ []))
        (memory_dedupe clock)
        memory_cursors
        config
        (fresh_world failing clock config first (examine failing clock config queue)))
    ≡ (ok none, redriven)
unfolding run_once run_streams run_stream run_messages count_fetched commit process claimed_work
    guard_size attempt rescue retry_or_dead_letter release dead_letter do_work deliver publish emit
    classify extract record_strips report_strips new_event stamp run_chain notify record_decision
    new_trace message_key trace_id idempotency_key MemoryDedupe.try_claim
    MemoryDedupe.record_attempt MemoryDedupe.mark_done MemoryDedupe.release Dict.get Dict.put
    Dict.put_new Dict.adjust MemoryCursor.get MemoryCursor.commit_if_ahead stream_key text_eq
    derive_canonical_id report_done Work.mark_done redrive_components fresh_world
redriven_left = refl

queue-IsKeyed : IsKeyed queue.store
unfolding Dict.get
queue-IsKeyed = (refl, refl, tt)

redrive_loses_example :
    let (r, s') = redrive_record failing clock config letter queue in
    (r ≡ ok tt)
    × (Dict.get s'.store letter.record_id ≡ none)
    × (emitted_keys s'.emitted ≡ emitted_keys queue.emitted)
    × (s'.report.resubmitted ≡ queue.report.resubmitted + 1)
redrive_loses_example =
    redrive_loses failing clock config first letter queue redriven letter_built queue-IsKeyed
      redriven_left

queue_returns :
    redrive failing clock config none queue ≡ (ok tt, (redrive failing clock config none queue).1)
unfolding run_once run_streams run_stream run_messages count_fetched commit process claimed_work
    guard_size attempt rescue retry_or_dead_letter release dead_letter do_work deliver publish emit
    classify extract record_strips report_strips new_event stamp run_chain notify record_decision
    new_trace message_key trace_id idempotency_key MemoryDedupe.try_claim
    MemoryDedupe.record_attempt MemoryDedupe.mark_done MemoryDedupe.release Dict.get Dict.put
    Dict.put_new Dict.adjust MemoryCursor.get MemoryCursor.commit_if_ahead stream_key text_eq
    derive_canonical_id report_done Work.mark_done redrive redrive_records redrive_record
    redrive_message redrive_components fresh_world settle_record after_run rebuild_raw_message
    DeadLetters.list_pending DeadLetters.all_records b64decode b64decode_from digit_value group_from
    streams_of
queue_returns = refl

redrive_counts_instance :
    let s' = (redrive failing clock config none queue).1 in
    (s'.report.examined ≡ length (DeadLetters.list_pending none queue.store))
    × (s'.report.resubmitted + s'.report.still_dead_lettered ≡ s'.report.examined)
redrive_counts_instance =
    redrive_counts failing clock config none queue (redrive failing clock config none queue).1
      queue_returns
