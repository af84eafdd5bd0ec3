-- ===== src/Tests/Edges.antt =====
-- The in-memory provider, the emitters, the other stores and the health probe.
use mailflow.Base.{pos, ℕ, ◌+◌, Text, text, true, false, none, some, List, [], ◌∷◌, ◌++◌, ◌≡◌, refl}
use mailflow.Exec.{Exec, ok, pure, raise}
use mailflow.Core.Models.{EmailEvent, new_email}
use mailflow.Core.Report.{DeadLetterRecord}
use mailflow.Core.Health.{Probed}
use mailflow.Providers.Memory.{Seed, fetch}
use mailflow.Providers.Memory.Refetch.{PendingIn, fetch-PendingIn}
use mailflow.Emit.Queue.{
  emitted, closed, taken, use_queue, drained, emitted_emails, use_queue-in_order,
}
use mailflow.Emit.Stages.{Answer, Stage}
use mailflow.Stores.SqliteDeadLetters.{
  Operation, put_op, list_op, delete_op, use_sqlite, use_memory, loaded, use_sqlite-use_memory,
}
use mailflow.Pipeline.Run.{run_messages}
use mailflow.Pipeline.Loop.{outcomes}
use mailflow.Samples.{dedupe, cursors, config, inbox, failing, busy, start, letter}

abbrev seed : Seed
seed =
    (
      inbox,
      record { provider_message_id = text "m1"; raw = b'h' ∷ b'i' ∷ []; received_at = none } ∷ [],
    )
    ∷ []

fetch-PendingIn_example :
    let msgs = fetch seed inbox (cursors.get config.tenant inbox (start failing 0).cursors) in
    PendingIn
      (fetch seed inbox (
        cursors.get config.tenant inbox
          (run_messages failing dedupe cursors config inbox false msgs
            (start failing 0)).1.cursors))
      (outcomes failing dedupe cursors config inbox false msgs (start failing 0))
      msgs
fetch-PendingIn_example = fetch-PendingIn failing dedupe cursors config seed inbox (start failing 0)

abbrev event_of : Text → EmailEvent
event_of id = record {
  schema_version = text "1.3";
  tenant = text "acme";
  ordering_key = text "ops@acme.com";
  idempotency_key = id;
  email = new_email id (text "memory") id (text "ops@acme.com");
}

use_queue-in_order_instance :
    let uses =
      emitted (event_of (text "a")) ∷ taken ∷ closed ∷ emitted (event_of (text "b")) ∷ [] in
    (use_queue uses []).0 ++ drained (use_queue uses []).1 ≡ drained [] ++ emitted_emails uses
use_queue-in_order_instance =
    use_queue-in_order
      (emitted (event_of (text "a")) ∷ taken ∷ closed ∷ emitted (event_of (text "b")) ∷ []) []

-- An emitter that counts its calls, a stage that keeps every email, and one that stops every email.
abbrev counting : EmailEvent → Exec ℕ (Unit {0})
counting e n = (ok tt, n + 1)

abbrev keeping : Stage ℕ
keeping email = pure Answer.pass

abbrev stopping : Stage ℕ
stopping email = pure Answer.stop

-- Payloads that are the records themselves.
abbrev same : DeadLetterRecord → DeadLetterRecord
same r = r

abbrev operations : List Operation
operations =
    put_op letter
    ∷ put_op letter
    ∷ list_op (some (pos 2))
    ∷ delete_op letter.record_id
    ∷ list_op none
    ∷ []

use_sqlite-use_memory_example :
    (
      (use_sqlite same same operations []).0,
      loaded same same (use_sqlite same same operations []).1,
    )
    ≡ use_memory operations (loaded same same [])
use_sqlite-use_memory_example =
    use_sqlite-use_memory same same (λ r. refl) operations [] (tt, (tt, tt))

-- A server that cannot be reached.
abbrev down : Exec ℕ ℕ
down = raise busy

abbrev stores : Probed ℕ
stores = record {
  get = λ t s. pure none;
  try_claim = λ k l. raise busy;
  release = λ k. pure tt;
  is_blob_store = true;
}
