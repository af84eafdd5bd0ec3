-- ===== src/Tests/Mailboxes.antt =====
-- The theorems on the Gmail adapter (src/mailflow/adapters/gmail) over a small server, whose state is the number
-- of requests that it has got.
use mailflow.Base.{
  ℕ, suc, ◌==◌, true, ℤ, pos, Text, text, text_eq, text_Eq, has_text, starts_with, Option, none,
  some, List, [], ◌∷◌, ◌++◌, count, has, add_all, ◌≡◌, refl, arith, if◌then◌else◌,
}
use mailflow.Exec.{Exec, Exc, unknown, Result, ok, err, pure}
use mailflow.Dict
use mailflow.Dict.{Dict}
use mailflow.Json.{Json, null, str, array, object, fields_of, items_of}
use mailflow.Core.Models.{StreamRef, Cursor, stream_key}
use mailflow.Stores.MemoryCursor
use mailflow.Stores.MemoryCursor.{memory_cursors}
use mailflow.Pipeline.SharedCursor.{Shared}
use mailflow.Gmail.Client.{Transport, GmailClient, Slots, request_inner}
use mailflow.Gmail.Client.Attempts.{Answered, request_inner-Answered}
use mailflow.Gmail.Client.History.{
  last_page, further_page, fetch_page, history_message_ids, history_message_ids-Pages,
}
use mailflow.Gmail.Provider.{Setting, State, fetch, yield_ids}
use mailflow.Gmail.Provider.Laws.{Kept, Subsequence, fetch-Kept, yield_ids-Good}
use mailflow.Gmail.Watches.{WatchManager, bootstrap_watches, bootstrap_watches-Holds, whole_mailbox}
use mailflow.Gmail.Runtime.{PubSub, process_messages, Acked, process_messages-Acked}
use mailflow.Gmail.Webhook.{Verifier, Genuine, verify, verify-Genuine}

abbrev plain : Json → Text
plain (str s) = s
plain _ = []

abbrev ids_json : List Text → List Json
ids_json [] = []
ids_json (i ∷ l) =
    object (fields_of ((text "message", object (fields_of ((text "id", str i) ∷ []))) ∷ []))
    ∷ ids_json l

-- A page of the history, with these message ids.
abbrev history : List Text → Dict Text Json → Json
history ids rest = object (
    fields_of (
      (
        text "history",
        array (
            items_of (
              object (fields_of ((text "messagesAdded", array (items_of (ids_json ids))) ∷ []))
              ∷ [])),
      )
      ∷ rest))

abbrev page_1 : Json
page_1 =
    history (text "m1" ∷ text "m2" ∷ [])
      ((text "historyId", str (text "8")) ∷ (text "nextPageToken", str (text "p2")) ∷ [])

abbrev page_2 : Json
page_2 = history (text "m2" ∷ text "m3" ∷ []) ((text "historyId", str (text "9")) ∷ [])

-- Messages hold the byte "A", in base64.
abbrev answer : Text → Json
answer url =
    if has_text (text "pageToken=p2") url
    then page_2
    else if has_text (text "/history") url
    then page_1
    else object (
        fields_of (
          (text "raw", str (text "QQ=="))
          ∷ (text "threadId", str (text "t"))
          ∷ (text "historyId", str (text "9"))
          ∷ []))

abbrev server : Transport ℕ
server = record {
  get_token = pure (text "t");
  force_refresh = some (pure tt);
  request = λ token method url json n.
      (ok (record { status_code = 200; retry_after = none; json = ok (answer url) }), suc n);
  uniform = λ n. pure n;
  parse_float = λ t. none;
  sleep = λ n. pure tt;
}

abbrev client : GmailClient ℕ
client = record {
  base_url = text "b";
  transport = server;
  max_retries = 3;
  backoff_base = 1;
  repr = plain;
}

-- A server that refuses every token.
abbrev locked : GmailClient ℕ
locked = record client {
  transport = record server {
    request = λ token method url json n.
        (ok (record { status_code = 401; retry_after = none; json = ok null }), suc n);
  };
}

two_requests : (request_inner locked (text "GET") (text "u") none 0).1 ≡ 2
unfolding request_inner
two_requests = refl

request_inner-Answered_example :
    Answered (λ n. n) (λ n. 0) 5 1 (request_inner locked (text "GET") (text "u") none 0)
request_inner-Answered_example =
    request_inner-Answered locked (λ n. n) (λ n. 0)
      (record {
        request_one = λ token method url json x. (refl, refl);
        token_none = λ x. (refl, refl);
        uniform_none = λ n x. (refl, refl);
        sleep_none = λ n x. (refl, refl);
        refresh_one = λ r x h. (kept r x h, omega arith);
      })
      (text "GET") (text "u") none 0
  where
    kept : (r : Exec ℕ (Unit {0})) (x : ℕ) → locked.transport.force_refresh ≡ some r → (r x).1 ≡ x
    kept r x h = ground (arith, h)

abbrev slots : Slots ℕ
slots = record { outside = 0; free = 8 }

abbrev no_status : Exc → Option ℕ
no_status e = none

abbrev first_ids : List Text
first_ids = text "m1" ∷ text "m2" ∷ []

abbrev last_ids : List Text
last_ids = text "m2" ∷ text "m3" ∷ []

history_message_ids-Pages_example :
    (history_message_ids client no_status 2 (text "ann") (text "5") none slots ≡ (
      ok (some (add_all [] (first_ids ++ last_ids), text "9")),
      record { outside = 2; free = 8 },
    ))
    × ((id : Text)
        → count (text_eq id) (add_all [] (first_ids ++ last_ids))
          ≡ (if has id (first_ids ++ last_ids) then 1 else 0))
unfolding fetch_page has_text starts_with text_eq Dict.get
history_message_ids-Pages_example =
    history_message_ids-Pages client no_status (text "ann") (text "5") none 2
      (further_page {next = text "p2"}
        {page = record { history_id = some (text "8"); ids = first_ids; next = some (text "p2") }}
        refl refl
        (last_page {page = record { history_id = some (text "9"); ids = last_ids; next = none }}
          refl refl))
      (omega arith)

abbrev setting : Setting ℕ
setting = record {
  client = client;
  label_id = none;
  has_cursor_store = true;
  tenant = text "acme";
  status_of = no_status;
  parse_int = λ t. ok (pos 9);
  int_of = λ j. ok (pos 1);
  now = λ s. 0;
}

abbrev inbox : StreamRef
inbox = record { mailbox = text "ann"; folder = none }

abbrev waiting : State memory_cursors setting
waiting = record {
  outside = slots;
  cursors = [];
  pending = (text "ann", text "5") ∷ (text "bob", text "6") ∷ [];
}

fetch-Kept_instance :
    Kept memory_cursors setting inbox waiting (fetch memory_cursors setting 2 inbox none waiting)
fetch-Kept_instance = fetch-Kept memory_cursors setting inbox 2 none waiting

abbrev cursor_9 : Cursor
cursor_9 = record { value = text "9"; order = pos 9 }

yield_ids-Good_instance :
    let ms = (yield_ids memory_cursors setting inbox cursor_9 first_ids slots).0.0 in
    Shared cursor_9 ms × Subsequence ms first_ids
yield_ids-Good_instance = yield_ids-Good memory_cursors setting inbox cursor_9 first_ids slots

abbrev manager : WatchManager ℕ
manager = record { client = client; label_ids = text "INBOX" ∷ []; topic_path = text "topic" }

abbrev parse_int : Text → Result ℤ
parse_int t = ok (pos 9)

bootstrap_watches-Holds_example :
    let s =
      (memory_cursors.commit_if_ahead
        (text "acme")
        (whole_mailbox (text "ann"))
        (record { value = text "5"; order = pos 5 })
        []).1 in
    memory_cursors.get
      (text "acme")
      (whole_mailbox (text "ann"))
      (bootstrap_watches memory_cursors manager parse_int
        (text "acme")
        (text "ann" ∷ [])
        (record { outside = slots; cursors = s })).1.cursors
    ≡ some (record { value = text "5"; order = pos 5 })
unfolding MemoryCursor.get MemoryCursor.commit_if_ahead Dict.get Dict.put text_eq stream_key
bootstrap_watches-Holds_example =
    bootstrap_watches-Holds memory_cursors manager parse_int (text "acme")
      (whole_mailbox (text "ann")) (record { value = text "5"; order = pos 5 }) (text "ann" ∷ [])
      (record {
        outside = slots;
        cursors =
            (memory_cursors.commit_if_ahead (text "acme") (whole_mailbox (text "ann"))
              (record { value = text "5"; order = pos 5 }) []).1;
      })
      refl

abbrev down : Exc
down = record { kind = unknown; class_name = text "OperationalError"; message = [] }

-- Messages are numbers, and the pipeline fails from its second run on.
abbrev hub : PubSub ℕ ℕ
hub = record {
  parse = λ m. ok (if m == 0 then none else some (text "ann", pos m));
  submit = λ a h. pure tt;
  run_once = λ n. if n == 0 then (ok tt, 1) else (err down, n);
}

process_messages-Acked_instance :
    Acked hub
      (0 ∷ 7 ∷ 8 ∷ 9 ∷ [])
      (record { outside = 0; acked = [] })
      (process_messages hub (0 ∷ 7 ∷ 8 ∷ 9 ∷ []) (record { outside = 0; acked = [] }))
process_messages-Acked_instance =
    process_messages-Acked hub (0 ∷ 7 ∷ 8 ∷ 9 ∷ []) (record { outside = 0; acked = [] })

two_acked :
    (process_messages hub (0 ∷ 7 ∷ 8 ∷ 9 ∷ []) (record { outside = 0; acked = [] })).1.acked
    ≡ 0 ∷ 7 ∷ []
unfolding process_messages
two_acked = refl

abbrev claims : Dict Text Json
claims =
    (text "iss", str (text "accounts.google.com"))
    ∷ (text "aud", str (text "us"))
    ∷ (text "email", str (text "push@google"))
    ∷ []

abbrev verifier : Verifier
verifier = record {
  audience = text "us";
  issuer = text "https://accounts.google.com";
  allowed_emails = some (text "push@google" ∷ []);
  subscription_id = none;
  decoder = λ token audience. ok claims;
  repr = plain;
}

abbrev headers : Dict Text Text
headers = (text "AUTHORIZATION", text "Bearer  jwt") ∷ []

verify-Genuine_example : Genuine verifier headers (record {
  provider = text "gmail";
  mailbox = some (text "push@google");
  subscription_id = none;
})
unfolding verify
verify-Genuine_example = verify-Genuine verifier headers [] _ refl
