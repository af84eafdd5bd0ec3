-- ===== src/Tests/Graphs.antt =====
-- The theorems on the Graph adapter (src/mailflow/adapters/graph) at concrete inputs.
use mailflow.Base.{Text, text, text_eq, is_ascii, has_char, Option, some, [], ◌∷◌, ◌≡◌, refl, arith}
use mailflow.Exec.{ok, err}
use mailflow.Dict
use mailflow.Json.{Json, Fields, str, object, fields_of, get_or, str_of}
use mailflow.Core.Models.{StreamRef}
use mailflow.Graph.Subscriptions.{folder_resource}
use mailflow.Graph.Resources.{stream_from_folder_resource}
use mailflow.Graph.Resources.RoundTrip.{stream_from_folder_resource-folder_resource}
use mailflow.Graph.Notifications.{
  parse_notification_payload, not_ascii, text_field, parse_item, collect,
}
use mailflow.Graph.Notifications.Forged.{
  payload, parse_notification_payload-Forged, parse_notification_payload-not_ascii,
}

abbrev plain : Json → Text
plain _ = []

abbrev secret : Text
secret = text "s3cret"

abbrev resource : Text
resource = text "users/ann/messages/m1"

-- An item of a notification with this client state.
abbrev item_fields : Text → Fields
item_fields client_state = fields_of (
    (text "subscriptionId", str (text "sub"))
    ∷ (text "clientState", str client_state)
    ∷ (text "changeType", str (text "created"))
    ∷ (text "resource", str resource)
    ∷ [])

genuine_parsed :
    parse_item plain secret (object (item_fields secret))
    ≡ ok (
        some (record {
          subscription_id = text "sub";
          change_type = text "created";
          user_id = text "ann";
          message_id = text "m1";
        }))
unfolding parse_item
genuine_parsed = refl

-- Two bodies: "" has the genuine item alone, any other a forged one before it.
abbrev two_bodies : Text → Option Json
two_bodies [] = some (payload (object (item_fields secret) ∷ []))
two_bodies (c ∷ s) =
    some (payload (object (item_fields (text "guess")) ∷ object (item_fields secret) ∷ []))

parse_notification_payload-Forged_example :
    parse_notification_payload plain two_bodies (text "x") secret
    ≡ parse_notification_payload plain two_bodies [] secret
unfolding text_field get_or Dict.get text_eq str_of is_ascii
parse_notification_payload-Forged_example =
    parse_notification_payload-Forged plain two_bodies secret (text "x") [] []
      (object (item_fields secret) ∷ []) (item_fields (text "guess")) refl refl
      (record {
        claimed = text "guess";
        client_state = refl;
        claimed_ascii = refl;
        expected_ascii = refl;
        different = λ e. ground (arith, e);
      })

abbrev accented : Text → Option Json
accented s = some (payload (object (item_fields secret) ∷ object (item_fields (233 ∷ [])) ∷ []))

parse_notification_payload-not_ascii_example :
    parse_notification_payload plain accented (text "x") secret ≡ err not_ascii
unfolding text_field get_or Dict.get text_eq str_of is_ascii parse_item collect
parse_notification_payload-not_ascii_example =
    parse_notification_payload-not_ascii plain accented secret (text "x")
      (object (item_fields secret) ∷ []) [] (item_fields (233 ∷ [])) (text "sub") (233 ∷ [])
      (record {
        subscription_id = text "sub";
        change_type = text "created";
        user_id = text "ann";
        message_id = text "m1";
      }
        ∷ [])
      refl refl refl refl refl (λ e. ground (arith, e))

abbrev archive : StreamRef
archive = record { mailbox = text "ann"; folder = some (text "archive") }

stream_from_folder_resource-folder_resource_example :
    stream_from_folder_resource (folder_resource archive) ≡ some archive
unfolding has_char
stream_from_folder_resource-folder_resource_example =
    stream_from_folder_resource-folder_resource archive refl refl refl
