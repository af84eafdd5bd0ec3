-- ===== src/Tests/Tries.antt =====
-- Tries of one message.
use mailflow.Base.{if◌then◌else◌, ◌∷◌, ◌+◌, ◌<◌, text, text_eq, false, none, some, [], ◌≡◌, refl}
use mailflow.Exec.{ok, err, pure, raise}
use mailflow.Dict
use mailflow.Core.Models.{RawMessage, duplicate, emitted, new_email, stream_key}
use mailflow.Core.Identity.{idempotency_key, derive_canonical_id}
use mailflow.Filters.Chain.{run_chain}
use mailflow.Pipeline.Components.{Components, OnFiltered, generic}
use mailflow.Pipeline.SharedCursor.{one_cursor_passes}
use mailflow.Pipeline.World.{World}
use mailflow.Pipeline.Work
use mailflow.Pipeline.Work.{
  notify, record_decision, new_trace, classify, extract, record_strips, report_strips, new_event,
  emit, publish, deliver, do_work, stamp, outside,
}
use mailflow.Pipeline.Process.{
  dead_letter, retry_or_dead_letter, rescue, release, attempt, guard_size, claimed_work, process,
  message_key, trace_id, dead_letter_record, quarantine, put_record,
}
use mailflow.Pipeline.Run.{
  count_fetched, commit, run_messages, run_once, run_streams, run_stream, report_done,
}
use mailflow.Pipeline.Retries.{left_times, retries_bounded, raise_strands}
use mailflow.Pipeline.Tagging.{Matched, do_work-Matched}
use mailflow.Stores.MemoryDedupe
use mailflow.Stores.MemoryCursor
use mailflow.Samples.{
  dedupe, cursors, config, inbox, first, second, envelope, matched, working, failing, sizeless,
  start, clock, busy,
}

-- The world after the first message has met a busy extractor.
abbrev left : World failing dedupe cursors
left = (process failing dedupe cursors config first (start failing 0)).1

first_left : process failing dedupe cursors config first (start failing 0) ≡ (ok none, left)
unfolding run_once run_streams run_stream run_messages count_fetched commit process claimed_work
    guard_size attempt rescue retry_or_dead_letter release dead_letter do_work deliver publish emit
    classify extract record_strips report_strips new_event stamp run_chain notify record_decision
    new_trace message_key trace_id idempotency_key MemoryDedupe.try_claim
    MemoryDedupe.record_attempt MemoryDedupe.mark_done MemoryDedupe.release Dict.get Dict.put
    Dict.put_new Dict.adjust MemoryCursor.get MemoryCursor.commit_if_ahead stream_key text_eq
    derive_canonical_id report_done Work.mark_done
first_left = refl

left_once : left_times failing dedupe cursors config 1 first (start failing 0) ≡ some left
unfolding left_times
left_once = rw (first_left, left_times) refl

retries_bounded_example :
    dedupe.attempts (start failing 0).dedupe (message_key failing dedupe cursors config first) + 1
    < config.max_attempts
retries_bounded_example =
    retries_bounded failing dedupe cursors config 0 first (start failing 0) left left_once

-- The third try ends in a dead letter, so it is not left.
third_try : left_times failing dedupe cursors config 3 first (start failing 0) ≡ none
unfolding run_once run_streams run_stream run_messages count_fetched commit process claimed_work
    guard_size attempt rescue retry_or_dead_letter release dead_letter do_work deliver publish emit
    classify extract record_strips report_strips new_event stamp run_chain notify record_decision
    new_trace message_key trace_id idempotency_key MemoryDedupe.try_claim
    MemoryDedupe.record_attempt MemoryDedupe.mark_done MemoryDedupe.release Dict.get Dict.put
    Dict.put_new Dict.adjust MemoryCursor.get MemoryCursor.commit_if_ahead stream_key text_eq
    derive_canonical_id report_done Work.mark_done left_times dead_letter_record quarantine
    put_record
third_try = refl

abbrev stranded : World sizeless dedupe cursors
stranded = (process sizeless dedupe cursors config first (start sizeless 0)).1

first_raised :
    process sizeless dedupe cursors config first (start sizeless 0) ≡ (err busy, stranded)
unfolding run_once run_streams run_stream run_messages count_fetched commit process claimed_work
    guard_size attempt rescue retry_or_dead_letter release dead_letter do_work deliver publish emit
    classify extract record_strips report_strips new_event stamp run_chain notify record_decision
    new_trace message_key trace_id idempotency_key MemoryDedupe.try_claim
    MemoryDedupe.record_attempt MemoryDedupe.mark_done MemoryDedupe.release Dict.get Dict.put
    Dict.put_new Dict.adjust MemoryCursor.get MemoryCursor.commit_if_ahead stream_key text_eq
    derive_canonical_id report_done Work.mark_done
first_raised = refl

raise_strands_example :
    let (r, w3) = process sizeless dedupe cursors config first stranded in
    (r ≡ ok (some duplicate))
    × (w3.emitted ≡ stranded.emitted)
    × (w3.quarantined ≡ stranded.quarantined)
    × (MemoryDedupe.done w3.dedupe (message_key sizeless dedupe cursors config first) ≡ false)
raise_strands_example =
    raise_strands sizeless clock cursors config first (start sizeless 0) stranded busy first_raised
      stranded refl

work_decided :
    run_chain working.filters envelope (Work.context working dedupe cursors config) 0
    ≡ (ok matched, 0)
unfolding run_chain
work_decided = refl

do_work-Matched_example :
    Matched working dedupe cursors config OnFiltered.tag matched []
      (do_work working dedupe cursors config first (text "acme|ops@acme.com|m1") (start working 0))
do_work-Matched_example =
    do_work-Matched working dedupe cursors config first (text "acme|ops@acme.com|m1")
      (start working 0) envelope 0 matched 0 refl work_decided refl

-- The extractor is busy for the second message, which carries the cursor of the first.
abbrev half : Components
half = record working {
  extractor = generic λ m env.
      if text_eq m.provider_message_id (text "m1")
      then pure (new_email (text "c1") m.provider m.provider_message_id (text "ops@acme.com:Inbox"))
      else raise busy;
}

abbrev alike : RawMessage
alike = record second { cursor = first.cursor }

abbrev emitted_first : World half dedupe cursors
emitted_first =
    (process half dedupe cursors config first
      (count_fetched half dedupe cursors config (start half 0))).1

half_settled :
    process half dedupe cursors config first
      (count_fetched half dedupe cursors config (start half 0))
    ≡ (ok (some emitted), emitted_first)
unfolding run_once run_streams run_stream run_messages count_fetched commit process claimed_work
    guard_size attempt rescue retry_or_dead_letter release dead_letter do_work deliver publish emit
    classify extract record_strips report_strips new_event stamp run_chain notify record_decision
    new_trace message_key trace_id idempotency_key MemoryDedupe.try_claim
    MemoryDedupe.record_attempt MemoryDedupe.mark_done MemoryDedupe.release Dict.get Dict.put
    Dict.put_new Dict.adjust MemoryCursor.get MemoryCursor.commit_if_ahead stream_key text_eq
    derive_canonical_id report_done Work.mark_done
half_settled = refl

one_cursor_passes_example :
    cursors.get config.tenant inbox
      (run_messages half dedupe cursors config inbox false
        (first ∷ alike ∷ [])
        (start half 0)).1.cursors
    ≡ some first.cursor
unfolding MemoryCursor.get Dict.get
one_cursor_passes_example =
    one_cursor_passes half dedupe cursors config inbox first.cursor first (alike ∷ [])
      (start half 0) emitted_first emitted (refl, (refl, tt)) tt half_settled
