-- ===== src/Servicebus/Poison.antt =====
-- The parsers of src/mailflow/adapters/servicebus/eventgrid.py and runtime.py together, on an event whose `data` is
-- no dict.
use mailflow.Base.{
  ℕ, true, false, Text, text, text_Eq, text_eq, is_ascii, Option, some, List, [], ◌∷◌, ◌++◌, ◌≡◌,
  refl, ap,
}
use mailflow.Exec.{Exec, ok, err}
use mailflow.Exec.Results.{◌>>=◌}
use mailflow.Dict
use mailflow.Dict.{or_default}
use mailflow.Json.{
  Json, Fields, null, str, object, end, entries, or_else, fields_of, get_or, iterate, str_of,
  attribute_error,
}
use mailflow.Core.Report.{RunReport}
use mailflow.Graph.Lifecycle.{LifecycleEvent}
use mailflow.Graph.Notifications.{
  Notification, parse_notification_payload, parse_lifecycle_payload, collect_value,
}
use mailflow.Servicebus.EventGrid.{
  collection, split_cloudevents, to_item, parse_eventgrid_message, lifecycle_item,
  lifecycle_collection,
}
use mailflow.Servicebus.Runtime.{
  Queue, State, process_messages, abandoned, process_messages-unparsed,
}

-- What the runtime is built on, but for the parsers of its messages.
pub record Setting (X : Type 0) : Type 0 where
  pub repr : Json → Text
  pub loads : Text → Option Json
  pub dumps : Json → Text
  pub client_state : Text
  pub submit : Notification → Exec X (Unit {0})
  pub run_once : Exec X RunReport
  pub lifecycle_handler : Option (LifecycleEvent → Exec X (Unit {0}))
  pub complete : Text → Exec X (Unit {0})
  pub abandon : Text → Exec X (Unit {0})

module _ {X : Type 0} (P : Setting X) where
  -- A message is its body.
  unfoldable pub queue_of : Queue X Text Notification LifecycleEvent
  unfolding parse_eventgrid_message lifecycle_collection parse_lifecycle_payload
  queue_of = record {
    notes = λ body. parse_eventgrid_message P.repr P.loads P.dumps body P.client_state;
    lifecycles = λ body. lifecycle_collection P.repr P.loads P.dumps body >>= λ shaped.
        parse_lifecycle_payload P.repr P.loads shaped P.client_state;
    submit = P.submit;
    run_once = P.run_once;
    lifecycle_handler = P.lifecycle_handler;
    complete = P.complete;
    abandon = P.abandon;
  }

  -- event.get(key)
  abbrev member : Fields → Text → Json
  member fields key = or_default null (Dict.get (entries fields) key)

  -- What `parse_eventgrid_message` makes of an event whose `data` is no dict.
  abbrev pub emptied : Fields → Json
  emptied event = collection (
      object (
        fields_of (
          (text "subscriptionId", str [])
          ∷ (text "changeType", str [])
          ∷ (text "clientState", str [])
          ∷ (
            text "resource",
            str (str_of P.repr (or_else (member event (text "subject")) (str []))),
          )
          ∷ (text "resourceData", object end)
          ∷ []))
      ∷ [])

  poison_notes :
      (body t : Text) (event : Fields)
      → P.loads body ≡ some (object event)
      → Dict.get (entries event) (text "data") ≡ some (str t)
      → P.loads (P.dumps (emptied event)) ≡ some (emptied event)
      → is_ascii P.client_state ≡ true
      → text_eq [] P.client_state ≡ false
      → parse_eventgrid_message P.repr P.loads P.dumps body P.client_state ≡ ok []
  unfolding parse_eventgrid_message split_cloudevents to_item get_or Dict.get text_eq str_of
      parse_notification_payload collect_value iterate
  poison_notes body t event h d back ascii nonempty = rw (h, d, back, ascii, nonempty) refl

  poison_lifecycles :
      (body : Text) (c : ℕ) (t : Text) (event : Fields)
      → P.loads body ≡ some (object event)
      → Dict.get (entries event) (text "data") ≡ some (str (c ∷ t))
      → lifecycle_collection P.repr P.loads P.dumps body
        ≡ err (attribute_error (str (c ∷ t)) (text "get"))
  unfolding lifecycle_collection split_cloudevents lifecycle_item get_or
  poison_lifecycles body c t event h d = rw (h, d) refl

  -- An event, whatever else is in it, whose `data` is a text, not "", is no notification, and where lifecycle
  -- events are handled the runtime raises for it: the message is abandoned, so it is delivered again, and raises
  -- again. The client state is in ASCII and not "", and `json.loads` reads back what `json.dumps` wrote.
  pub process_messages-poison :
      (body : Text) (c : ℕ) (t : Text) (event : Fields) (messages : List Text) (s : State queue_of)
      (y : X) (handler : LifecycleEvent → Exec X (Unit {0}))
      → P.loads body ≡ some (object event)
      → Dict.get (entries event) (text "data") ≡ some (str (c ∷ t))
      → P.loads (P.dumps (emptied event)) ≡ some (emptied event)
      → is_ascii P.client_state ≡ true
      → text_eq [] P.client_state ≡ false
      → P.lifecycle_handler ≡ some handler
      → P.abandon body s.outside ≡ (ok tt, y)
      → process_messages queue_of (body ∷ messages) s ≡ (
        err (attribute_error (str (c ∷ t)) (text "get")),
        record { outside = y; told = s.told ++ ((abandoned, body) ∷ []) },
      )
  unfolding queue_of
  process_messages-poison body c t event messages s y handler h d back ascii nonempty handled gone =
      process_messages-unparsed queue_of body messages s y
        (attribute_error (str (c ∷ t)) (text "get")) handler
        (poison_notes body (c ∷ t) event h d back ascii nonempty) handled
        (ap (λ r. r >>= λ shaped. parse_lifecycle_payload P.repr P.loads shaped P.client_state)
          (poison_lifecycles body c t event h d))
        gone
