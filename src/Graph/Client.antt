-- ===== src/Graph/Client.antt =====
-- src/mailflow/adapters/graph/client.py and transport.py: the Graph client over a transport. The transport,
-- the tokens, `time.sleep(float(..))` and `urllib.parse.quote` are parameters.
pub mod Attempts
pub mod Pages
use mailflow.Base.{
  ℕ, zero, suc, ◌==◌, leb, Bool, true, false, Text, text, show_nat, Option, none, some, List, [],
  ◌∷◌, ◌++◌, if◌then◌else◌, is_empty,
}
use mailflow.Exec.{Exec, Exc, unknown, Result, ok, err, pure, raise, ◌>>=◌, ◌>>◌}
use mailflow.Exec.Results
use mailflow.Dict.{Dict, or_default}
use mailflow.Json.{
  Json, null, str, object, array, nil, end, fields_of, get_or, iterate, first_of, is_dict, or_else,
  str_of, truthy,
}

-- `HttpResponse`, with the two header lookups that the clients make.
pub record Response : Type 0 where
  pub status_code : ℕ
  pub retry_after : Option Text
  pub json : Result Json

-- `HttpTransport.request` with the token of its header, `TokenProvider.get_token`, and
-- `time.sleep(float(t))`, which raises where the text is no number.
pub record Transport (X : Type 0) : Type 0 where
  pub request : Text → Text → Text → Option Json → Exec X Response
  pub get_token : Exec X Text
  pub sleep_for : Text → Exec X (Unit {0})
  pub quote : Text → Text

-- `GraphError`
unfoldable pub graph_error : ℕ → Text → Exc
unfolding show_nat
graph_error status_code message = record {
  kind = unknown;
  class_name = text "GraphError";
  message = text "graph error " ++ (show_nat status_code ++ (text ": " ++ message));
}

abbrev no_dict : Exc
no_dict = record { kind = unknown; class_name = text "AssertionError"; message = [] }

abbrev pub message_select : Text
message_select =
    text
      "id,internetMessageId,subject,from,sender,toRecipients,ccRecipients,bccRecipients,replyTo,body,uniqueBody,bodyPreview,isDraft,hasAttachments,receivedDateTime,sentDateTime,conversationId,parentFolderId,internetMessageHeaders,categories"

-- [m for m in l if isinstance(m, dict)]
abbrev pub only_dicts : List Json → List Json
only_dicts [] = []
only_dicts (j ∷ l) = if is_dict j then j ∷ only_dicts l else only_dicts l

abbrev or_blank : Result Text → Text
or_blank (ok t) = t
or_blank (err e) = []

module _ (repr : Json → Text) where
  abbrev if_dict : Json → Result Text
  if_dict (object fs) = Results.◌>>=◌ (get_or (object fs) (text "error") (object end)) λ error.
      Results.◌>>=◌ (get_or error (text "message") (str [])) λ message. ok (str_of repr message)
  if_dict _ = ok []

  -- The message of an error body, "" where the body has none.
  unfoldable pub error_message : Result Json → Text
  unfolding get_or str_of
  error_message body = or_blank (Results.◌>>=◌ body if_dict)

module _ {X : Type 0} (repr : Json → Text) (transport : Transport X) where
  -- What the loop does with a response that it does not retry.
  unfoldable pub settle : Response → Exec X Response
  unfolding graph_error error_message
  settle resp =
      if leb 400 resp.status_code
      then raise (graph_error resp.status_code (error_message repr resp.json))
      else pure resp

  unfoldable pub send : Text → Text → Option Json → Exec X Response
  send method url json = transport.get_token >>= λ token. transport.request token method url json

  -- The loop of `_request`, where `left` is max_retries - attempt.
  unfoldable pub request_from : ℕ → Text → Text → Option Json → Exec X Response
  unfolding settle send
  request_from zero method url json = send method url json >>= settle
  request_from (suc left) method url json = send method url json >>= λ resp.
      if resp.status_code == 429
      then (transport.sleep_for (or_default (text "1") resp.retry_after)
          >> request_from left method url json)
      else settle resp

-- `GraphClient`, with what `__init__` keeps.
pub record GraphClient (X : Type 0) : Type 0 where
  pub base_url : Text
  pub transport : Transport X
  pub max_retries : ℕ
  pub repr : Json → Text

module _ {X : Type 0} (client : GraphClient X) where
  -- self._request(method, url, json=json).json()
  unfoldable pub request_json : Text → Text → Option Json → Exec X Json
  unfolding request_from
  request_json method url json =
      request_from client.repr client.transport client.max_retries method url json >>= λ resp x.
      (resp.json, x)

  abbrev pub lift_result : {A : Type 0} → Result A → Exec X A
  lift_result r x = (r, x)

  abbrev assert_dict : Json → Exec X Json
  assert_dict j = if is_dict j then pure j else raise no_dict

  unfoldable pub user_url : Text → Text → Text
  user_url user_id rest = client.base_url ++ (text "/users/" ++ (user_id ++ rest))

  unfoldable pub get_message : Text → Text → Exec X Json
  unfolding request_json user_url
  get_message user_id message_id =
      request_json (text "GET")
        (user_url user_id
          (text "/messages/" ++ (message_id ++ (text "?$select=" ++ message_select))))
        none
      >>= assert_dict

  -- (data or {}).get("value", []) if isinstance(data, dict) else []
  abbrev pub value_of : Json → Result Json
  value_of body =
      if is_dict body
      then get_or (or_else body (object end)) (text "value") (array nil)
      else ok (array nil)

  -- items[0] if items else None
  abbrev first_of_value : Json → Exec X (Option Json)
  first_of_value items =
      if truthy items then (lift_result (first_of items) >>= λ j. pure (some j)) else pure none

  unfoldable pub get_message_by_internet_id : Text → Text → Exec X (Option Json)
  unfolding request_json user_url get_or first_of
  get_message_by_internet_id user_id internet_id = do
    let flt = client.transport.quote (text "internetMessageId eq '" ++ (internet_id ++ text "'"))
    body ←
        request_json (text "GET")
          (user_url user_id
            (text "/messages?$filter=" ++ (flt ++ (text "&$select=" ++ message_select))))
          none
    items ← lift_result (value_of body)
    first_of_value items

  -- The dicts of what a listing answers.
  unfoldable pub list_dicts : Text → Exec X (List Json)
  unfolding request_json get_or iterate
  list_dicts url = do
    body ← request_json (text "GET") url none
    items ← lift_result (value_of body)
    l ← lift_result (iterate items)
    pure (only_dicts l)

  unfoldable pub list_attachments : Text → Text → Exec X (List Json)
  unfolding list_dicts user_url
  list_attachments user_id message_id = list_dicts (
      user_url user_id (
        text "/messages/"
        ++ (message_id ++ text "/attachments?$select=id,name,contentType,size,isInline")))

  unfoldable pub list_subscriptions : Exec X (List Json)
  unfolding list_dicts
  list_subscriptions = list_dicts (client.base_url ++ text "/subscriptions")

  unfoldable pub create_subscription : Text → Text → Text → Text → Exec X Json
  unfolding request_json
  create_subscription resource notification_url client_state expiration_iso =
      request_json (text "POST") (client.base_url ++ text "/subscriptions") (
        some (
          object (
            fields_of (
              (text "changeType", str (text "created,updated"))
              ∷ (text "resource", str resource)
              ∷ (text "notificationUrl", str notification_url)
              ∷ (text "lifecycleNotificationUrl", str notification_url)
              ∷ (text "clientState", str client_state)
              ∷ (text "expirationDateTime", str expiration_iso)
              ∷ []))))
      >>= assert_dict

  unfoldable pub renew_subscription : Text → Text → Exec X Json
  unfolding request_json
  renew_subscription subscription_id expiration_iso =
      request_json (text "PATCH") (client.base_url ++ (text "/subscriptions/" ++ subscription_id))
        (some (object (fields_of ((text "expirationDateTime", str expiration_iso) ∷ []))))
      >>= assert_dict

  unfoldable pub delete_subscription : Text → Exec X (Unit {0})
  unfolding request_from
  delete_subscription subscription_id =
      request_from client.repr client.transport client.max_retries (text "DELETE")
        (client.base_url ++ (text "/subscriptions/" ++ subscription_id)) none
      >> pure tt
