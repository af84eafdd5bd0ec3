-- ===== src/Tests/Queues.antt =====
-- The theorems on the Service Bus adapter and on push payloads at concrete inputs.
use mailflow.Base.{
  ℕ, suc, ◌≤◌, ◌==◌, false, ℤ, pos, Text, text, text_eq, text_Eq, is_ascii, Option, none, some, [],
  ◌∷◌, length, ◌≡◌, ◌⊎◌, refl, arith, if◌then◌else◌,
}
use mailflow.Exec.{Exc, unknown, ok, err, pure}
use mailflow.Dict
use mailflow.Base64.{b64encode}
use mailflow.Servicebus.EventGrid.{collection}
use mailflow.Json.{
  str_of, Fields, Json, int, str, object, end, fields_of, get_or, str_of, attribute_error,
}
use mailflow.Core.Report.{new_report, all_terminal}
use mailflow.Core.Models.{Bytes}
use mailflow.Gmail.Notifications.{try_parse, parse_pubsub_message}
use mailflow.Gmail.Notifications.Encoded.{parse_pubsub_message-b64encode}
use mailflow.Servicebus.Emitter.{sb_message_id, sb_message_id-fits}
use mailflow.Servicebus.Runtime.{
  Queue, Told, process_messages, process_messages-Told, completed, abandoned,
}
use mailflow.Servicebus.Poison.{Setting, queue_of, process_messages-poison}

abbrev plain : Json → Text
plain (str s) = s
plain _ = []

abbrev push : Json
push =
    object
      (fields_of ((text "emailAddress", str (text "ann")) ∷ (text "historyId", int (pos 7)) ∷ []))

-- The one payload that is JSON is the letter "j".
abbrev loads : Bytes → Option Json
loads s = if text_eq s (text "j") then some push else none

abbrev int_of : Json → Option ℤ
int_of (int n) = some n
int_of _ = none

abbrev never : Exc → Text
never e = []

parse_pubsub_message-b64encode_instance :
    let parse = parse_pubsub_message plain loads int_of (λ e. false) {A = Text} none [] in
    (parse (text "j") ≡ ok (some (text "ann", pos 7)))
    × (parse (b64encode (text "j")) ≡ ok (some (text "ann", pos 7)))
unfolding try_parse get_or Dict.get text_eq str_of b64encode
parse_pubsub_message-b64encode_instance =
    parse_pubsub_message-b64encode plain loads int_of (λ e. false) Text [] (text "j")
      (text "ann", pos 7) (omega arith, tt) refl refl

abbrev zeros : ℕ → Text
zeros Prim.Native.Nat.zero = []
zeros (suc n) = b'0' ∷ zeros n

sb_message_id-fits_instance :
    let hash = λ (k : Text). zeros 64 in
    (length (sb_message_id hash (text "a")) ≤ 128)
    × (sb_message_id hash (text "a") ≡ sb_message_id hash (text "b")
        → (text "a" ≡ text "b")
          ⊎ (zeros 64 ≡ text "b")
          ⊎ (text "a" ≡ zeros 64)
          ⊎ (zeros 64 ≡ zeros 64))
sb_message_id-fits_instance = sb_message_id-fits (λ k. zeros 64) (text "a") (text "b") (λ k. refl)

abbrev down : Exc
down = record { kind = unknown; class_name = text "ServiceBusError"; message = [] }

-- Messages are numbers: 0 is no notification, and the pipeline fails for 9.
abbrev queue : Queue ℕ ℕ ℕ ℕ
queue = record {
  notes = λ m. ok (if m == 0 then [] else m ∷ []);
  lifecycles = λ m. ok [];
  submit = λ n x. (ok tt, n);
  run_once = λ x. if x == 9 then (err down, x) else (ok new_report, x);
  lifecycle_handler = none;
  complete = λ m. pure tt;
  abandon = λ m. pure tt;
}

process_messages-Told_example :
    Told queue
      (0 ∷ 4 ∷ 9 ∷ 5 ∷ [])
      0
      []
      (process_messages queue (0 ∷ 4 ∷ 9 ∷ 5 ∷ []) (record { outside = 0; told = [] }))
process_messages-Told_example =
    process_messages-Told queue (0 ∷ 4 ∷ 9 ∷ 5 ∷ []) (record { outside = 0; told = [] })

told_three :
    (process_messages queue (0 ∷ 4 ∷ 9 ∷ 5 ∷ []) (record { outside = 0; told = [] })).1.told
    ≡ (completed, 0) ∷ (completed, 4) ∷ (abandoned, 9) ∷ []
unfolding process_messages all_terminal
told_three = refl

-- A CloudEvent whose data is a text.
abbrev bad_event : Fields
bad_event = fields_of (
    (text "type", str (text "Microsoft.Graph.MessageCreated"))
    ∷ (text "subject", str (text "users/ann"))
    ∷ (text "data", str (text "oops"))
    ∷ [])

-- Bodies are told by their first letter: "p" is the event whose data is a text, "e" what is made of it.
abbrev setting : Setting ℕ
setting = record {
  repr = plain;
  loads = λ s. if text_eq s (text "p") then some (object bad_event) else some emptied_event;
  dumps = λ j. text "e";
  client_state = text "mailflow";
  submit = λ n. pure tt;
  run_once = λ x. (ok new_report, x);
  lifecycle_handler = some λ e. pure tt;
  complete = λ m. pure tt;
  abandon = λ m x. (ok tt, suc x);
}
  where
    emptied_event : Json
    emptied_event = collection (
        object (
          fields_of (
            (text "subscriptionId", str [])
            ∷ (text "changeType", str [])
            ∷ (text "clientState", str [])
            ∷ (text "resource", str (text "users/ann"))
            ∷ (text "resourceData", object end)
            ∷ []))
        ∷ [])

process_messages-poison_example :
    process_messages (queue_of setting) (text "p" ∷ []) (record { outside = 0; told = [] }) ≡ (
      err (attribute_error (str (text "oops")) (text "get")),
      record { outside = 1; told = (abandoned, text "p") ∷ [] },
    )
unfolding text_eq is_ascii queue_of Dict.get str_of
process_messages-poison_example =
    process_messages-poison setting (text "p") b'o' (text "ops") bad_event []
      (record { outside = 0; told = [] }) 1 (λ e. pure tt) refl refl refl refl refl refl refl
