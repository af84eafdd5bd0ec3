-- ===== src/Tests/Hubs.antt =====
-- The Postgres stores, and the subscriptions and the runtime of the Graph adapter.
use mailflow.Base.{
  ℕ, ◌+◌, text, text_eq, text_Eq, true, false, none, some, List, [], ◌∷◌, ◌≡◌, refl,
}
use mailflow.Exec.{Exc, unknown, ok, pure, raise}
use mailflow.Dict
use mailflow.Core.Models.{StreamRef, stream_key}
use mailflow.Core.Report.{RunReport, new_report, all_terminal}
use mailflow.Stores.Postgres.Agrees.{
  Operation, claiming, attempting, finishing, releasing, purging, use_store, postgres_step,
  sqlite_step, use_store_agrees,
}
use mailflow.Graph.Subscriptions.{
  Client, Manager, Subscription, folder_resource, Unused, Watches, renew_watch, renew_watch-Watches,
}
use mailflow.Graph.Reconciler.{reconcile, desired_streams}
use mailflow.Graph.Reconciler.Covered.{Covered, Quiet, reconcile-Covered, reconcile-Quiet}
use mailflow.Graph.Lifecycle.{LifecycleEvent}
use mailflow.Graph.Runtime.{
  Hub, Batch, Run, for_all, process_batch, resume_at, process_batch-resume_at,
}
use mailflow.Samples.{clock, inbox}

abbrev uses : List Operation
uses =
    claiming (text "k") 300
    ∷ claiming (text "k") 300
    ∷ attempting (text "k")
    ∷ releasing (text "k")
    ∷ finishing (text "k") 60
    ∷ purging 100
    ∷ []

use_store_agrees_example :
    use_store clock (postgres_step clock) uses (record { claims = []; ticks = 0 })
    ≡ use_store clock (sqlite_step clock) uses (record { claims = []; ticks = 0 })
use_store_agrees_example = use_store_agrees clock uses (record { claims = []; ticks = 0 })

abbrev gone : Exc
gone = record {
  kind = unknown;
  class_name = text "GraphError";
  message = text "graph error 404: gone";
}

-- Graph numbers its new subscriptions, and has lost all of them.
abbrev graph : Client ℕ
graph = record {
  create_subscription = λ resource url state expiration n. (ok (n ∷ []), n + 1);
  renew_subscription = λ id expiration. raise gone;
  list_subscriptions = pure [];
  expiration_iso = pure (text "2026-06-15T00:00:00Z");
  status_of = λ e. some 404;
  notification_url = text "EventHub:acme";
  client_state = text "mailflow";
}

abbrev watching : Manager ℕ
watching = record { outside = 7; stream_by_handle = (text "old", inbox) ∷ [] }

old-Unused : Unused graph (text "old")
old-Unused resource url state expiration x h = cc

old_known : Dict.get watching.stream_by_handle (text "old") ≡ some inbox
unfolding Dict.get text_eq
old_known = refl

renew_watch-Watches_instance : Watches graph inbox (renew_watch graph (text "old") watching)
renew_watch-Watches_instance =
    renew_watch-Watches graph (text "old") inbox watching old-Unused old_known

abbrev reauthorize : LifecycleEvent
reauthorize = record {
  subscription_id = text "old";
  lifecycle_event = text "reauthorizationRequired";
  stream = none;
}

abbrev desired : List StreamRef
desired = desired_streams (text "ops@acme.com" ∷ []) (text "inbox" ∷ text "sentitems" ∷ [])

reconcile-Covered_example : Covered graph desired (reconcile graph desired watching)
reconcile-Covered_example = reconcile-Covered graph desired watching

-- Graph lists a subscription for each desired stream, and one of another app.
abbrev listed : List Subscription
listed =
    record { id = text "a"; resource = folder_resource other; notification_url = text "other" }
    ∷ listed_for desired
  where
    other : StreamRef
    other = record { mailbox = text "x"; folder = none }

    listed_for : List StreamRef → List Subscription
    listed_for [] = []
    listed_for (stream ∷ streams) =
        record {
          id = stream_key stream;
          resource = folder_resource stream;
          notification_url = text "EventHub:acme";
        }
        ∷ listed_for streams

abbrev listing : Client ℕ
listing = record graph { list_subscriptions = pure listed }

reconcile-Quiet_example : Quiet listing 7 (reconcile listing desired watching)
unfolding text_eq desired_streams folder_resource
reconcile-Quiet_example = reconcile-Quiet listing desired watching listed 7 refl (refl, (refl, tt))

-- An event is the number of messages that its run leaves.
abbrev hub : Hub ℕ ℕ ℕ ℕ
hub = record {
  notifications = λ e. ok (e ∷ []);
  lifecycles = λ e. ok [];
  submit = λ n x. (ok tt, n);
  run_once = λ x. (ok (record new_report { fetched = x }), x);
  lifecycle_handler = none;
}

abbrev fresh : Batch hub
fresh = record { outside = 0; checkpoints = [] }

-- The run for an event leaves as many messages as its number.
abbrev report_of : ℕ → RunReport
report_of n = record new_report { fetched = n }

event-Run : (event w : ℕ) → Run hub event w (report_of event) event
unfolding for_all
event-Run event w = record {
  note = event;
  notes = [];
  parsed = refl;
  between = event;
  submitted = refl;
  returned = refl;
}

one_left : all_terminal (report_of 1) ≡ false
unfolding all_terminal
one_left = refl

none_left : all_terminal (report_of 0) ≡ true
unfolding all_terminal
none_left = refl

nothing_before : process_batch hub [] fresh ≡ (ok tt, fresh)
unfolding process_batch
nothing_before = refl

process_batch-resume_at_example :
    (process_batch hub (1 ∷ 0 ∷ []) fresh ≡ (ok tt, record { outside = 0; checkpoints = 0 ∷ [] }))
    × (resume_at hub (process_batch hub (1 ∷ 0 ∷ []) fresh).1.checkpoints ≡ some 0)
process_batch-resume_at_example =
    process_batch-resume_at hub [] 1 0 fresh fresh (report_of 1) (report_of 0) 1 0 nothing_before
      (event-Run 1 0) one_left (event-Run 0 1) none_left
