-- ===== src/Servicebus/EventGrid.antt =====
-- src/mailflow/adapters/servicebus/eventgrid.py, and `_lifecycle_collection` of runtime.py: CloudEvents in the
-- shape that the parsers of Graph's notifications read. `loads` and `dumps` are Python's, `loads` being
-- none where it raises the `ValueError` that is caught.
use mailflow.Base.{Text, text, text_Eq, Option, none, some, List, [], ◌∷◌}
use mailflow.Exec.{Result, ok}
use mailflow.Exec.Results.{◌>>=◌, map_results}
use mailflow.Json.{
  Json, null, str, array, object, end, elements, fields_of, items_of, get_or, or_else, str_of,
}
use mailflow.Graph.Client.{only_dicts}
use mailflow.Graph.Notifications.{Notification, parse_notification_payload}

abbrev of_body : Option Json → List Json
of_body (some (array l)) = only_dicts (elements l)
of_body (some (object fs)) = object fs ∷ []
of_body (some _) = []
of_body none = []

-- A JSON that is no dict counts as {}.
abbrev dict_or_empty : Json → Json
dict_or_empty (object fs) = object fs
dict_or_empty _ = object end

-- {"value": items}
abbrev pub collection : List Json → Json
collection items = object (fields_of ((text "value", array (items_of items)) ∷ []))

module _ (repr : Json → Text) (loads : Text → Option Json) (dumps : Json → Text) where
  unfoldable pub split_cloudevents : Text → List Json
  split_cloudevents body = of_body (loads body)

  -- `_to_item`
  unfoldable pub to_item : Json → Result Json
  unfolding get_or str_of
  to_item event = do
    given ← get_or event (text "data") null
    let fields = dict_or_empty given
    resource ← get_or fields (text "resource") null
    subject ← get_or event (text "subject") null
    subscription ← get_or fields (text "subscriptionId") (str [])
    change ← get_or fields (text "changeType") (str [])
    client_state ← get_or fields (text "clientState") (str [])
    resource_data ← get_or fields (text "resourceData") null
    ok (
        object (
          fields_of (
            (text "subscriptionId", subscription)
            ∷ (text "changeType", change)
            ∷ (text "clientState", client_state)
            ∷ (text "resource", str (str_of repr (or_else resource (or_else subject (str [])))))
            ∷ (text "resourceData", or_else resource_data (object end))
            ∷ [])))

  abbrev on_items : Text → List Json → Result (List Notification)
  on_items expected [] = ok []
  on_items expected (i ∷ items) =
      parse_notification_payload repr loads (dumps (collection (i ∷ items))) expected

  unfoldable pub parse_eventgrid_message : Text → Text → Result (List Notification)
  unfolding split_cloudevents to_item parse_notification_payload
  parse_eventgrid_message body expected_client_state =
      map_results to_item (split_cloudevents body) >>= on_items expected_client_state

  -- The body of the loop of `_lifecycle_collection`: here `data` must have a `get` if it is not false.
  unfoldable pub lifecycle_item : Json → Result Json
  unfolding get_or
  lifecycle_item event = do
    given ← get_or event (text "data") null
    let fields = or_else given (object end)
    subscription ← get_or fields (text "subscriptionId") (str [])
    client_state ← get_or fields (text "clientState") (str [])
    kind ← get_or fields (text "lifecycleEvent") (str [])
    resource ← get_or fields (text "resource") null
    subject ← get_or event (text "subject") null
    ok (
        object (
          fields_of (
            (text "subscriptionId", subscription)
            ∷ (text "clientState", client_state)
            ∷ (text "lifecycleEvent", kind)
            ∷ (text "resource", or_else resource (or_else subject (str [])))
            ∷ [])))

  unfoldable pub lifecycle_collection : Text → Result Text
  unfolding split_cloudevents lifecycle_item
  lifecycle_collection body =
      map_results lifecycle_item (split_cloudevents body) >>= λ items. ok (dumps (collection items))
