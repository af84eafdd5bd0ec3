-- ===== src/Lib.antt =====
-- Models of mailflow, a library that pulls mail from mailboxes, filters and extracts it, and hands each
-- message on once.
--
-- The program. A pipeline (src/mailflow/core/pipeline.py) connects a provider, and for each of its streams
-- fetches the messages after the stream's bookmark. Each message is claimed in a dedupe store, its size is
-- checked, its envelope parsed and filtered, it is classified and extracted, an event is emitted and the
-- claim marked done. A failure puts the message in quarantine, is retried once after a refresh of the
-- credentials, or leaves the message for a later run. The bookmark follows the settled messages. A redrive
-- (src/mailflow/core/redrive.py) runs quarantined messages through a pipeline again.
--
-- Which file models what:
--   Core/Models, Core/Filtering, Core/Report: the records of core/models.py, core/events.py,
--     core/filtering.py and core/observability.py, and the counters of a report.
--   Core/Identity, Core/Classification: the functions of core/identity.py and core/classification.py.
--   Exec: exceptions (core/errors.py) and code that changes a state and returns or raises.
--   Ports: DedupeStore and CursorStore of core/ports.py, as operations with laws; Ports/Bookmarks: what
--     follows from the laws alone.
--   Stores: the implementations in stores/memory.py and stores/sqlite.py, each with its laws.
--   Filters: filters/deterministic.py (BuiltInFilter, evaluate) and filters/chain.py (Filters/Chain).
--   Pipeline/Components: the collaborators of a pipeline, all of them parameters; Pipeline/World: the state
--     that a run changes; Pipeline/Work: `_do_work`; Pipeline/Process: `_process`, its handlers and the dead
--     letters; Pipeline/Run: `_run_stream` and `run_once`.
--   Pipeline/Effects, Outcome, Handlers, Claims, Verdict: what `_process` does, branch by branch; Pipeline/Loop: the
--     induction over the messages of a stream; Once, LowWater, Accounting, Retries, Tagging: the properties.
--   Redrive: core/redrive.py; Base64: the encoding of the quarantined bytes, as Python's base64 has it.
--   Core/Health: the probe `health` of core/observability.py. Core/Streams: streams as keys.
--   Providers/Memory: providers/memory.py. Emit: emit/stages.py, emit/callback.py and emit/memory.py.
--   Stores/Retry: stores/_retry.py.
--   Stores/Postgres: the cursor and the dedupe store of stores/postgres.py.
--   Pipeline/SharedCursor: messages that share one cursor, as those of a Gmail history do.
--   Exec/Results: code that raises and keeps no state. Base/Distinct: lists that name each thing once.
--   Json: what json.loads returns, and how Python takes it apart.
--   Graph/Subscriptions, Graph/Reconciler, Graph/Lifecycle: the files of those names in adapters/graph, with what
--     a reconciliation leaves in Graph/Reconciler/Covered, and a recreated subscription in Graph/Lifecycle/Stale;
--     Graph/Resources, Graph/Notifications: notifications.py; Graph/Client: client.py and transport.py, with the
--     pages of a delta query in Graph/Client/Pages; Graph/Provider: provider.py, with `fetch` in
--     Graph/Provider/Fetch; Graph/Messages, Graph/Messages/Content: parser.py and extractor.py,
--     the latter with its own helpers in Graph/Messages/Helpers;
--     Graph/Runtime: `process_batch` of runtime.py.
--   Gmail/Client: client.py and transport.py of adapters/gmail, with the history in Gmail/Client/History;
--     Gmail/Provider: provider.py; Gmail/Watches: watch.py and bootstrap.py; Gmail/Notifications, Gmail/Webhook:
--     notifications.py and webhook.py; Gmail/Runtime: runtime.py.
--   Servicebus/EventGrid, Servicebus/Runtime, Servicebus/Emitter: the files of those names in adapters/servicebus;
--     Servicebus/Poison: its runtime over the parsers of Graph/Notifications.
--   Extract/Safety, Extract/Streaming: the allowlist of extract/safety.py and the digest of extract/streaming.py.
--   Extract/Clean: extract/clean.py. Extract/Attachments: the two ways of extract/mime.py to treat an
--     attachment, and the rules of extract/policy.py; Extract/Bodies: its walk over the parts of a message;
--     Extract/Mime: the email it makes; Extract/Envelopes: extract/envelope.py.
--   Config/State: config/state.py.
--   Persistence/Emails: save, count and mark_read of persistence/sqlite_store.py.
--   Dict: Python's dict, in insertion order. Base: numbers, texts and lists.
--   Samples, Tests: data, runs, and each theorem with hypotheses at an input.
-- (The paths start at src/mailflow.)
--
-- How. A function that may raise is a function from a state to a result and a state; a loop is recursion on
-- the list it walks, so no fuel is needed. Two loops ask a server for page after page, as many as it likes:
-- those of a Graph delta query and of a Gmail history take fuel, one for each page, and return with as much
-- as there are pages. The loops of retries recur on the retries that are left. The markers in front of a
-- subject are dropped on fuel, which is the length of the subject, and every marker takes a character.
-- Python's integers are ℤ or ℕ, unbounded as there. A time is a natural number and a score is in
-- thousandths; `clock n` is the n-th reading of a clock. Upper and lower case are ASCII's. SHA-256 is the
-- parameter `sha256_hex`. The provider, parser, custom filters, classifier, extractor, cleaner, emitters,
-- dead-letter store, credential refresher and observers of a pipeline are code of the caller: functions on
-- a state `Outside` that may raise. The cursor and the dedupe store are interfaces whose operations return:
-- a store that raises is not modelled, so neither is a `mark_done` that raises after an emission, where the
-- pipeline gives the claim back and a later run emits the message again (delivery is at least once). An
-- emitter that raises is taken to have emitted nothing. What the emitters and the dead-letter store have
-- accepted is logged in the world. A provider's `fetch` gives the list of the messages that it yields and
-- the exception that ends it, if any. The lock of a SQLite store makes each of its methods one step.
--
-- A PostgreSQL statement locks the row that it changes. HTTP transports, tokens, sleeping, jitter, json.loads,
-- json.dumps, the verifier of a push's token, the receiver and sender of a Service Bus, and what the email package
-- and html.unescape make of a text are parameters that may raise where the code lets them.
--
-- Not modelled: log lines, the check of the ports in the pipeline's constructor, the dead letters in PostgreSQL, the
-- loading of the configuration, the facade, the registry and the command line, the live wiring of the adapters, the
-- costs of Graph, and blobs on disk: input and output, calls of client libraries, and wiring.
pub mod Base
pub mod Dict
pub mod Exec
pub mod Core
pub mod Ports
pub mod Stores
pub mod Filters
pub mod Base64
pub mod Pipeline
pub mod Redrive
pub mod Emit
pub mod Persistence
pub mod Config
pub mod Extract
pub mod Graph
pub mod Gmail
pub mod Servicebus
pub mod Json
pub mod Providers
pub mod Samples
pub mod Tests
