-- ===== src/Gmail/Client.antt =====
-- src/mailflow/adapters/gmail/client.py and transport.py: the Gmail client over a transport. The transport, the
-- tokens, the clock, `random.uniform` and `float` are parameters; times are whole units.
pub mod Attempts
pub mod History
use mailflow.Base.{
  ℕ, zero, suc, ◌+◌, ◌*◌, ◌==◌, leb, Bool, true, false, ◌&&◌, ◌||◌, not, Text, text, show_nat,
  Option, none, some, List, [], ◌∷◌, ◌++◌, if◌then◌else◌,
}
use Prim.Native.Nat.{◌^◌}
use mailflow.Exec.{
  Exec, Exc, permanent, auth, transient, unknown, ErrorKind, Result, ok, err, pure, raise, ◌>>=◌,
  ◌>>◌,
}
use mailflow.Exec.Results
use mailflow.Json.{Json, str, array, object, end, fields_of, items_of, get_or, is_dict, str_of}

pub record Response : Type 0 where
  pub status_code : ℕ
  pub retry_after : Option Text
  pub json : Result Json

abbrev pub one_of : ℕ → List ℕ → Bool
one_of n [] = false
one_of n (m ∷ l) = n == m || one_of n l

-- The kind and the class of `gmail_error_for`.
abbrev pub gmail_kind : ℕ → ErrorKind × Text
gmail_kind status_code =
    if status_code == 401
    then (auth, text "GmailAuthError")
    else if one_of status_code (403 ∷ 404 ∷ 410 ∷ [])
    then (permanent, text "GmailPermanentError")
    else if status_code == 429 || leb 500 status_code
    then (transient, text "GmailTransientError")
    else (unknown, text "GmailError")

unfoldable pub gmail_error_for : ℕ → Text → Exc
unfolding show_nat
gmail_error_for status_code message = record {
  kind = (gmail_kind status_code).0;
  class_name = (gmail_kind status_code).1;
  message = text "gmail error " ++ (show_nat status_code ++ (text ": " ++ message));
}

-- `TokenProvider` and `RefreshableTokenProvider`, `HttpTransport`, and what the client waits with.
pub record Transport (X : Type 0) : Type 0 where
  pub get_token : Exec X Text
  pub force_refresh : Option (Exec X (Unit {0}))
  pub request : Text → Text → Text → Option Json → Exec X Response
  pub uniform : ℕ → Exec X ℕ
  pub parse_float : Text → Option ℕ
  pub sleep : ℕ → Exec X (Unit {0})

pub record GmailClient (X : Type 0) : Type 0 where
  pub base_url : Text
  pub transport : Transport X
  pub max_retries : ℕ
  pub backoff_base : ℕ
  pub repr : Json → Text

abbrev pub max : ℕ → ℕ → ℕ
max a b = if leb a b then b else a

abbrev at_least : ℕ → Option ℕ → ℕ
at_least delay none = delay
at_least delay (some t) = max delay t

abbrev pub or_blank : Result Text → Text
or_blank (ok t) = t
or_blank (err e) = []

-- The world outside, and the free places of the semaphore.
pub record Slots (X : Type 0) : Type 0 where
  pub outside : X
  pub free : ℕ

abbrev pub cap_reached : Exc
cap_reached = record {
  kind = transient;
  class_name = text "TransientError";
  message = text "gmail in-flight concurrency cap reached";
}

module _ {X : Type 0} (client : GmailClient X) where
  abbrev asked : Option Text → Option ℕ
  asked none = none
  asked (some []) = none
  asked (some (c ∷ s)) = client.transport.parse_float (c ∷ s)

  -- The delay of `_backoff_sleep`, from the jitter.
  unfoldable pub backoff_delay : ℕ → Option Text → ℕ → ℕ
  backoff_delay attempt retry_after jitter =
      at_least (client.backoff_base * 2 ^ attempt + jitter) (asked retry_after)

  unfoldable pub backoff_sleep : ℕ → Option Text → Exec X (Unit {0})
  unfolding backoff_delay
  backoff_sleep attempt retry_after = client.transport.uniform client.backoff_base >>= λ jitter.
      client.transport.sleep (backoff_delay attempt retry_after jitter)

  abbrev if_dict : Json → Result Text
  if_dict (object fs) = Results.◌>>=◌ (get_or (object fs) (text "error") (object end)) λ error.
      Results.◌>>=◌ (get_or error (text "message") (str []))
        λ message. ok (str_of client.repr message)
  if_dict _ = ok []

  -- What the loop does with a response that it does not try again.
  unfoldable pub settle : Response → Exec X Response
  unfolding gmail_error_for get_or str_of
  settle resp =
      if leb 400 resp.status_code
      then raise (gmail_error_for resp.status_code (or_blank (Results.◌>>=◌ resp.json if_dict)))
      else pure resp

  unfoldable pub send : Text → Text → Option Json → Exec X Response
  send method url json =
      client.transport.get_token >>= λ token. client.transport.request token method url json

  unfoldable pub network_error : Exc → Exc
  network_error exc = record {
    kind = transient;
    class_name = text "TransientError";
    message = text "gmail network error: " ++ exc.message;
  }

  abbrev pub is_busy : ℕ → Bool
  is_busy status_code = status_code == 429 || leb 500 status_code

  -- The request of one turn: an exception of the transport, and not of the tokens, is the transport's.
  abbrev pub try_send : Text → Text → Option Json → Exec X (Result Response)
  try_send method url json = client.transport.get_token >>= λ token x.
      let (r, y) = client.transport.request token method url json x in (ok r, y)

  abbrev pub retry : ℕ → Option Text → Option (Exec X Response) → Exec X Response → Exec X Response
  retry attempt retry_after none otherwise = otherwise
  retry attempt retry_after (some again) otherwise = backoff_sleep attempt retry_after >> again

  abbrev pub refresh_or : Option (Exec X Response) → Exec X Response → Exec X Response
  refresh_or none otherwise = otherwise
  refresh_or (some refreshed) otherwise = refreshed

  abbrev pub on_sent :
      ℕ → Option (Exec X Response) → Option (Exec X Response) → Result Response → Exec X Response
  on_sent attempt again refreshed (err exc) = retry attempt none again (raise (network_error exc))
  on_sent attempt again refreshed (ok resp) =
      let last =
        if resp.status_code == 401 then refresh_or refreshed (settle resp) else settle resp in
      if is_busy resp.status_code then retry attempt resp.retry_after again last else last

  -- One turn of the loop of `_request_inner`: `again` is the rest of the loop while attempts are left, and
  -- `refreshed` is the refresh of the token and the rest of the loop while it may be refreshed.
  unfoldable pub turn :
      ℕ
      → Option (Exec X Response)
      → Option (Exec X Response)
      → Text
      → Text
      → Option Json
      → Exec X Response
  unfolding settle backoff_sleep network_error
  turn attempt again refreshed method url json =
      try_send method url json >>= on_sent attempt again refreshed

  -- The loop once the token was refreshed, where `left` is max_retries - attempt.
  unfoldable pub refreshed_from : ℕ → ℕ → Text → Text → Option Json → Exec X Response
  unfolding turn
  refreshed_from zero attempt method url json = turn attempt none none method url json
  refreshed_from (suc left) attempt method url json =
      turn attempt (some (refreshed_from left (suc attempt) method url json)) none method url json

  abbrev pub refresh_then : Option (Exec X (Unit {0})) → Exec X Response → Option (Exec X Response)
  refresh_then none rest = none
  refresh_then (some refresh) rest = some (refresh >> rest)

  -- The loop before.
  unfoldable pub attempts_from : ℕ → ℕ → Text → Text → Option Json → Exec X Response
  unfolding refreshed_from
  attempts_from zero attempt method url json =
      turn attempt none
        (refresh_then client.transport.force_refresh (refreshed_from zero attempt method url json))
        method url json
  attempts_from (suc left) attempt method url json =
      turn attempt (some (attempts_from left (suc attempt) method url json))
        (refresh_then client.transport.force_refresh
          (refreshed_from (suc left) attempt method url json))
        method url json

  unfoldable pub request_inner : Text → Text → Option Json → Exec X Response
  unfolding attempts_from
  request_inner method url json = attempts_from client.max_retries 0 method url json

  abbrev acquired : ℕ → Exec X Response → Exec (Slots X) Response
  acquired zero m s = (err cap_reached, s)
  acquired (suc n) m s = let (r, x) = m s.outside in (r, record { outside = x; free = suc n })

  -- `_request`: the place is given back whatever the loop does.
  unfoldable pub request : Text → Text → Option Json → Exec (Slots X) Response
  unfolding request_inner
  request method url json s = acquired s.free (request_inner method url json) s

  abbrev pub lift_result : {A : Type 0} → Result A → Exec (Slots X) A
  lift_result r s = (r, s)

  abbrev no_dict : Exc
  no_dict = record { kind = unknown; class_name = text "AssertionError"; message = [] }

  abbrev pub request_json : Text → Text → Option Json → Exec (Slots X) Json
  request_json method url json = request method url json >>= λ resp. lift_result resp.json

  abbrev assert_dict : Json → Exec (Slots X) Json
  assert_dict j = if is_dict j then pure j else raise no_dict

  abbrev pub user_url : Text → Text → Text
  user_url user_id rest = client.base_url ++ (text "/users/" ++ (user_id ++ rest))

  unfoldable pub get_profile : Text → Exec (Slots X) Json
  unfolding request
  get_profile user_id =
      request_json (text "GET") (user_url user_id (text "/profile")) none >>= assert_dict

  unfoldable pub get_message_raw : Text → Text → Exec (Slots X) Json
  unfolding request
  get_message_raw user_id message_id =
      request_json (text "GET")
        (user_url user_id (text "/messages/" ++ (message_id ++ text "?format=raw"))) none
      >>= assert_dict

  unfoldable pub get_attachment : Text → Text → Text → Exec (Slots X) Json
  unfolding request
  get_attachment user_id message_id attachment_id =
      request_json (text "GET")
        (user_url user_id
          (text "/messages/" ++ (message_id ++ (text "/attachments/" ++ attachment_id))))
        none
      >>= assert_dict

  abbrev strings : List Text → List Json
  strings [] = []
  strings (t ∷ l) = str t ∷ strings l

  unfoldable pub watch : Text → Text → List Text → Exec (Slots X) Json
  unfolding request
  watch user_id topic_path label_ids =
      request_json (text "POST") (user_url user_id (text "/watch")) (
        some (
          object (
            fields_of (
              (text "topicName", str topic_path)
              ∷ (text "labelIds", array (items_of (strings label_ids)))
              ∷ []))))
      >>= assert_dict

  unfoldable pub stop : Text → Exec (Slots X) (Unit {0})
  unfolding request
  stop user_id = request (text "POST") (user_url user_id (text "/stop")) none >> pure tt
