-- ===== src/Graph/Notifications.antt =====
-- src/mailflow/adapters/graph/notifications.py: the parsers of what an event of the hub says. `loads` is
-- `json.loads`, none where it raises the `ValueError` that the parsers catch.
pub mod Forged
use mailflow.Base.{
  Bool, true, false, ◌&&◌, ◌||◌, Text, text, text_eq, is_empty, is_ascii, Option, none, some, List,
  [], ◌∷◌, ◌++◌, if◌then◌else◌,
}
use mailflow.Exec.{Exc, unknown, Result, ok, err}
use mailflow.Exec.Results.{◌>>=◌}
use mailflow.Json.{Json, str, array, nil, object, end, get_or, iterate, or_else, str_of}
use mailflow.Core.Models.{StreamRef}
use mailflow.Graph.Resources.{search_resource, stream_from_folder_resource}
use mailflow.Graph.Lifecycle.{LifecycleEvent}

pub record Notification : Type 0 where
  pub subscription_id : Text
  pub change_type : Text
  pub user_id : Text
  pub message_id : Text

abbrev pub not_ascii : Exc
not_ascii = record {
  kind = unknown;
  class_name = text "TypeError";
  message = text "comparing strings with non-ASCII characters is not supported";
}

-- `hmac.compare_digest` of two str.
unfoldable pub compare_digest : Text → Text → Result Bool
unfolding is_ascii text_eq
compare_digest a b = if is_ascii a && is_ascii b then ok (text_eq a b) else err not_ascii

abbrev pub or_text : Text → Text → Text
or_text [] t = t
or_text (c ∷ s) t = c ∷ s

abbrev second : Option (Text × Text) → Text
second none = []
second (some (user, message)) = message

-- What `_user_and_message` returns for a match of the resource and the id of the resource's data.
abbrev pub user_and_message : Option (Text × Text) → Text → Option (Text × Text)
user_and_message none id = none
user_and_message (some (user, message)) id =
    if is_empty user || is_empty (or_text id message) then none else some (user, or_text id message)

abbrev pub is_lifecycle_event : Text → Bool
is_lifecycle_event e =
    text_eq e (text "reauthorizationRequired")
    || text_eq e (text "subscriptionRemoved")
    || text_eq e (text "missed")

abbrev pub keep : {A : Type 0} → Option A → List A → List A
keep none l = l
keep (some a) l = a ∷ l

unfoldable pub collect : {A : Type 0} → (Json → Result (Option A)) → List Json → Result (List A)
collect f [] = ok []
collect f (item ∷ items) = f item >>= λ o. collect f items >>= λ l. ok (keep o l)

-- data.get("value", []) of the parsed body, item by item.
unfoldable pub collect_value : {A : Type 0} → (Json → Result (Option A)) → Json → Result (List A)
unfolding get_or iterate collect
collect_value f body = do
  value ← get_or body (text "value") (array nil)
  items ← iterate value
  collect f items

abbrev on_body : {A : Type 0} → (Json → Result (Option A)) → Option Json → Result (List A)
on_body f none = ok []
on_body f (some body) = collect_value f body

module _ (repr : Json → Text) where
  -- str(item.get(key, ""))
  unfoldable pub text_field : Json → Text → Result Text
  unfolding get_or str_of
  text_field item key = get_or item key (str []) >>= λ j. ok (str_of repr j)

  -- `_user_and_message`
  unfoldable pub ids_of : Json → Result (Option (Text × Text))
  unfolding text_field search_resource
  ids_of item = do
    resource ← text_field item (text "resource")
    resource_data ← get_or item (text "resourceData") (object end)
    id ← text_field (or_else resource_data (object end)) (text "id")
    ok (user_and_message (search_resource resource) id)

  unfoldable pub notification_of : Json → Text × Text → Result Notification
  unfolding text_field
  notification_of item (user, message) = do
    subscription_id ← text_field item (text "subscriptionId")
    change_type ← text_field item (text "changeType")
    ok (record {
      subscription_id = subscription_id;
      change_type = change_type;
      user_id = user;
      message_id = message;
    })

  abbrev with_ids : Json → Option (Text × Text) → Result (Option Notification)
  with_ids item none = ok none
  with_ids item (some ids) = notification_of item ids >>= λ note. ok (some note)

  abbrev if_genuine : Json → Bool → Result (Option Notification)
  if_genuine item true = ids_of item >>= with_ids item
  if_genuine item false = ok none

  -- The validation event is passed over.
  abbrev if_message : Text → Json → Bool → Result (Option Notification)
  if_message expected_client_state item true = ok none
  if_message expected_client_state item false = do
    client_state ← text_field item (text "clientState")
    genuine ← compare_digest client_state expected_client_state
    if_genuine item genuine

  -- The body of the loop: the notification that an item becomes, none for `continue`.
  unfoldable pub parse_item : Text → Json → Result (Option Notification)
  unfolding compare_digest text_field ids_of notification_of get_or str_of
  parse_item expected_client_state item = do
    subscription ← get_or item (text "subscriptionId") Json.null
    if_message expected_client_state item (text_eq (str_of repr subscription) (text "NA"))

  abbrev stream_event : Text → Text → Text → LifecycleEvent
  stream_event subscription event resource = record {
    subscription_id = subscription;
    lifecycle_event = event;
    stream = stream_from_folder_resource resource;
  }

  abbrev if_genuine_event : Json → Text → Bool → Result (Option LifecycleEvent)
  if_genuine_event item event true = do
    subscription ← text_field item (text "subscriptionId")
    resource ← text_field item (text "resource")
    ok (some (stream_event subscription event resource))
  if_genuine_event item event false = ok none

  abbrev if_lifecycle : Text → Json → Text → Bool → Result (Option LifecycleEvent)
  if_lifecycle expected_client_state item event true = do
    client_state ← text_field item (text "clientState")
    genuine ← compare_digest client_state expected_client_state
    if_genuine_event item event genuine
  if_lifecycle expected_client_state item event false = ok none

  -- The body of the loop of `parse_lifecycle_payload`.
  unfoldable pub parse_lifecycle_item : Text → Json → Result (Option LifecycleEvent)
  unfolding compare_digest text_field stream_from_folder_resource
  parse_lifecycle_item expected_client_state item = do
    event ← text_field item (text "lifecycleEvent")
    if_lifecycle expected_client_state item event (is_lifecycle_event event)

  module _ (loads : Text → Option Json) where
    unfoldable pub parse_notification_payload : Text → Text → Result (List Notification)
    unfolding parse_item collect_value
    parse_notification_payload body expected_client_state =
        on_body (parse_item expected_client_state) (loads body)

    unfoldable pub parse_lifecycle_payload : Text → Text → Result (List LifecycleEvent)
    unfolding parse_lifecycle_item collect_value
    parse_lifecycle_payload body expected_client_state =
        on_body (parse_lifecycle_item expected_client_state) (loads body)
