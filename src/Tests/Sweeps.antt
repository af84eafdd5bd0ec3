-- ===== src/Tests/Sweeps.antt =====
-- The theorems on the Graph client and provider (src/mailflow/adapters/graph) over a small server, whose state
-- is the number of requests that it has got.
use mailflow.Base.{
  ℕ, suc, pos, Text, text, text_eq, has_text, starts_with, none, some, [], ◌∷◌, length, count, ◌≡◌,
  ◌≢◌, refl, arith, if◌then◌else◌,
}
use mailflow.Exec.{Exc, unknown, ok, err, pure}
use mailflow.Dict
use mailflow.Json.{Json, null, str, array, object, fields_of, items_of}
use mailflow.Core.Models.{StreamRef, Cursor, stream_key}
use mailflow.Core.Streams.{stream_eq}
use mailflow.Stores.MemoryCursor.{memory_cursors}
use mailflow.Stores.MemoryCursor
use mailflow.Ports.Bookmarks.{apply_commits}
use mailflow.Graph.Notifications.{Notification}
use mailflow.Graph.Client.{Transport, GraphClient, request_from}
use mailflow.Graph.Client.Attempts.{Answered, request_from-Answered}
use mailflow.Graph.Client.Pages.{last_page, further_page, fetch_page, pages_from, pages_from-Pages}
use mailflow.Graph.Provider.{State, Setting, stream_for, sync_streams}
use mailflow.Graph.Provider.Fetch.{returned, raised, walk, sweep, fetch, remove_stream}
use mailflow.Graph.Provider.Feed.{Numbered, fetch-Numbered}
use mailflow.Graph.Provider.Inbox.{others, fetch-pending, fetch-sweep_lost}
use mailflow.Graph.Provider.Restart.{commits_of, fetch-restarted}
use mailflow.Graph.Provider.Streams.{sync_streams-once}

abbrev plain : Json → Text
plain (str s) = s
plain _ = []

abbrev message_json : Text → Json
message_json id = object (fields_of ((text "id", str id) ∷ []))

abbrev first_page : Json
first_page = object (
    fields_of (
      (text "value", array (items_of (message_json (text "m1") ∷ [])))
      ∷ (text "@odata.nextLink", str (text "p2"))
      ∷ []))

abbrev second_page : Json
second_page = object (
    fields_of (
      (text "value", array (items_of (message_json (text "m2") ∷ [])))
      ∷ (text "@odata.deltaLink", str (text "http://d"))
      ∷ []))

-- A delta query has two pages; any other url is a message.
abbrev answer : Text → Json
answer url =
    if text_eq url (text "p2")
    then second_page
    else if has_text (text "/delta") url
    then first_page
    else message_json (text "m1")

abbrev server : Transport ℕ
server = record {
  request = λ token method url json n.
      (ok (record { status_code = 200; retry_after = none; json = ok (answer url) }), suc n);
  get_token = pure (text "t");
  sleep_for = λ t. pure tt;
  quote = λ t. t;
}

abbrev client : GraphClient ℕ
client = record { base_url = text "b"; transport = server; max_retries = 2; repr = plain }

-- A server that is always busy.
abbrev busy_server : Transport ℕ
busy_server = record server {
  request = λ token method url json n.
      (ok (record { status_code = 429; retry_after = none; json = ok null }), suc n);
}

request_from-Answered_instance :
    Answered (λ n. n) 3 (request_from plain busy_server 2 (text "GET") (text "u") none 0)
request_from-Answered_instance =
    request_from-Answered plain busy_server (λ n. n)
      (record {
        request_one = λ token method url json x. refl;
        token_none = λ x. refl;
        sleep_none = λ t x. refl;
      })
      2 (text "GET") (text "u") none 0

pages_from-Pages_instance :
    pages_from client 2 (text "/delta") [] 0
    ≡ (ok (some (message_json (text "m1") ∷ message_json (text "m2") ∷ [], text "http://d")), 2)
unfolding fetch_page has_text starts_with text_eq
pages_from-Pages_instance =
    pages_from-Pages client 2 [] (further_page {next = text "p2"} refl (last_page refl))
      (omega arith)

abbrev inbox : StreamRef
inbox = record { mailbox = text "ann"; folder = some (text "inbox") }

abbrev sent_items : StreamRef
sent_items = record { mailbox = text "ann"; folder = some (text "sent") }

abbrev note_of : Text → Notification
note_of sub = record {
  subscription_id = sub;
  change_type = text "created";
  user_id = text "ann";
  message_id = text "m1";
}

-- One notification for the inbox, one for another folder, and a sweep of the inbox.
abbrev waiting : State
waiting = record {
  pending = note_of (text "s2") ∷ note_of (text "s1") ∷ [];
  sweep_streams = inbox ∷ [];
  internet_ids = [];
  order = 0;
}

abbrev setting_of : Transport ℕ → Setting ℕ
setting_of transport = record {
  client = record client { transport = transport };
  stream_resolver = some λ sub. if text_eq sub (text "s2") then some sent_items else none;
  status_of = λ e. none;
  dumps = λ j. 0 ∷ [];
  now = λ n. n;
}

abbrev setting : Setting ℕ
setting = setting_of server

fetched_orders :
    let ms = (fetch setting inbox 5 none waiting 0).0.0 in
    (length ms ≡ 3) × Numbered 0 ms × ((fetch setting inbox 5 none waiting 0).0.1 ≡ returned)
unfolding fetch Dict.get stream_key text_eq has_text starts_with
fetched_orders = (refl, (refl, (refl, (refl, tt))), refl)

fetch-Numbered_instance : Numbered 0 (fetch setting inbox 5 none waiting 0).0.0
fetch-Numbered_instance = fetch-Numbered setting inbox 5 none waiting 0

fetch-pending_instance :
    ((walk setting inbox [] waiting.pending 0 0).ending ≡ returned
      → (fetch setting inbox 5 none waiting 0).1.pending ≡ others setting inbox waiting.pending)
    × ((walk setting inbox [] waiting.pending 0 0).ending ≢ returned
        → ((fetch setting inbox 5 none waiting 0).1.pending ≡ waiting.pending)
          × ((fetch setting inbox 5 none waiting 0).1.sweep_streams ≡ inbox ∷ []))
fetch-pending_instance = fetch-pending setting inbox 5 none waiting 0

abbrev down : Exc
down = record { kind = unknown; class_name = text "ConnectError"; message = [] }

-- The server answers for messages, and not for delta queries.
abbrev half_server : Transport ℕ
half_server = record server {
  request = λ token method url json n.
      if has_text (text "/delta") url
      then (err down, suc n)
      else (ok (record { status_code = 200; retry_after = none; json = ok (answer url) }), suc n);
}

fetch-sweep_lost_instance :
    let s = setting_of half_server in
    ((fetch s inbox 5 none waiting 0).0.1 ≡ raised down)
    × ((fetch s inbox 5 none waiting 0).1.sweep_streams ≡ [])
unfolding walk sweep remove_stream has_text starts_with text_eq Dict.get stream_key
fetch-sweep_lost_instance =
    fetch-sweep_lost (setting_of half_server) inbox 5 none waiting 0 down refl refl refl

abbrev bookmark_9 : Cursor
bookmark_9 = record { value = text "http://old"; order = pos 9 }

fetch-restarted_example :
    let K = memory_cursors in
    let k = (K.commit_if_ahead (text "acme") inbox bookmark_9 []).1 in
    K.get (text "acme") inbox (
      apply_commits K
        (commits_of (text "acme") inbox (fetch setting inbox 5 (some bookmark_9) waiting 0).0.0)
        k)
    ≡ some bookmark_9
unfolding fetch Dict.get Dict.put text_eq stream_key MemoryCursor.commit_if_ahead MemoryCursor.get
    starts_with has_text
fetch-restarted_example =
    fetch-restarted memory_cursors (text "acme") inbox setting 5 waiting 0 bookmark_9
      (memory_cursors.commit_if_ahead (text "acme") inbox bookmark_9 []).1 refl refl (omega arith)

sync_streams-once_instance :
    count (stream_eq inbox) (sync_streams setting.stream_resolver waiting) ≡ 1
unfolding stream_for text_eq
sync_streams-once_instance = sync_streams-once setting.stream_resolver waiting inbox
