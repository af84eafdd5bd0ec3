-- ===== src/Graph/Messages.antt =====
-- src/mailflow/adapters/graph/parser.py. `json.loads`, the `repr` of a
-- container, `datetime.fromisoformat` (none where it raises ValueError) and the text of pydantic's
-- ValidationError are parameters.
pub mod Content
pub mod Helpers
pub mod Agree
use mailflow.Base.{
  Bool, true, false, ◌==◌, ◌≡◌, refl, Text, text, text_Eq, lower, is_empty, starts_with, drop,
  Option, none, some, List, [], ◌∷◌, ◌++◌, if◌then◌else◌,
}
use mailflow.Exec.{Exc, unknown, Result, ok, err}
use mailflow.Exec.Results.{◌>>=◌, map_results}
use mailflow.Dict
use mailflow.Dict.{Dict}
use mailflow.Json.{
  Json, null, str, array, nil, object, end, get_or, iterate, or_else, str_of, truthy, first_of,
  attribute_error,
}
use mailflow.Core.Models.{RawMessage, Envelope, Recipient, Bytes, Time}
use mailflow.Core.Identity.{derive_canonical_id}
use mailflow.Core.Classification.{derive_auto_submitted, derive_is_bounce}
use mailflow.Graph.Notifications.{text_field}

-- s.replace("Z", "+00:00")
abbrev utc_offset : Text → Text
utc_offset [] = []
utc_offset (c ∷ s) = if c == b'Z' then text "+00:00" ++ utc_offset s else c ∷ utc_offset s

-- headers.setdefault(name, []).append(value)
abbrev pub append_header : Text → Text → Dict Text (List Text) → Dict Text (List Text)
append_header name value headers =
    Dict.adjust (Dict.put_new headers name []) name (λ values. values ++ (value ∷ []))

abbrev pub head_of : Option (List Text) → Option Text
head_of none = none
head_of (some []) = none
head_of (some (v ∷ values)) = some v

-- `_first` of the parser, and `_first_or_none` of a header in the extractor.
abbrev pub first : Dict Text (List Text) → Text → Option Text
first headers name = head_of (Dict.get headers name)

-- data.get(key) or []
unfoldable pub list_field : Json → Text → Result Json
unfolding get_or
list_field json key = get_or json key null >>= λ j. ok (or_else j (array nil))

-- What Python makes of the bytes, b"{}" where there are none.
abbrev pub or_braces : Bytes → Bytes
or_braces [] = text "{}"
or_braces (b ∷ bytes) = b ∷ bytes

-- The message id that the functions of identity take: they call strip on what is not empty.
unfoldable pub message_id_of : Json → Result (Option Text)
unfolding attribute_error
message_id_of (str s) = ok (some s)
message_id_of null = ok none
message_id_of j = if truthy j then err (attribute_error j (text "strip")) else ok none

abbrev pub validation_error : Text → Exc
validation_error message = record {
  kind = unknown;
  class_name = text "ValidationError";
  message = message;
}

-- The envelope takes a text or None for its message id.
unfoldable pub validated : {A : Type 0} → Text → Json → A → Result A
validated invalid (str s) a = ok a
validated invalid null a = ok a
validated invalid j a = err (validation_error invalid)

module _ (repr : Json → Text) where
  abbrev recipient_of : Json → Result Recipient
  recipient_of ea = do
    name ← text_field repr ea (text "name")
    address ← text_field repr ea (text "address")
    ok (record { name = name; address = address })

  -- node.get("emailAddress", {}) if node else {}
  unfoldable pub address_of : Json → Result Json
  unfolding get_or
  address_of node =
      if truthy node then get_or node (text "emailAddress") (object end) else ok (object end)

  -- `_recipient`
  unfoldable pub recipient : Json → Result Recipient
  unfolding address_of text_field
  recipient node = address_of node >>= recipient_of

  -- A node has its place in the list where its address is not empty.
  abbrev recipient_if : Json → Bool → Result (List Recipient)
  recipient_if node false = ok []
  recipient_if node true = recipient node >>= λ r. ok (r ∷ [])

  unfoldable pub addressed : Json → Result (List Recipient)
  unfolding get_or recipient
  addressed node = do
    ea ← get_or (or_else node (object end)) (text "emailAddress") (object end)
    address ← get_or ea (text "address") null
    recipient_if node (truthy address)

  abbrev pub all_addressed : List Json → Result (List Recipient)
  all_addressed [] = ok []
  all_addressed (node ∷ nodes) =
      addressed node >>= λ rs. all_addressed nodes >>= λ rest. ok (rs ++ rest)

  -- `_recipients(data.get(key))`
  unfoldable pub recipients : Json → Text → Result (List Recipient)
  unfolding list_field iterate addressed
  recipients json key = list_field json key >>= λ nodes. iterate nodes >>= all_addressed

  abbrev some_recipient : Json → Result (Option Recipient)
  some_recipient node = recipient node >>= λ r. ok (some r)

  abbrev recipient_or_none : Json → Result (Option Recipient)
  recipient_or_none node = if truthy node then some_recipient node else ok none

  -- _recipient(data.get("sender")) if data.get("sender") else None
  unfoldable pub sender_of : Json → Result (Option Recipient)
  unfolding get_or recipient
  sender_of json = get_or json (text "sender") null >>= recipient_or_none

  -- _recipient(reply_to_list[0]) if reply_to_list else None
  unfoldable pub reply_to_of : Json → Result (Option Recipient)
  unfolding first_of recipient
  reply_to_of nodes = if truthy nodes then first_of nodes >>= some_recipient else ok none

  abbrev with_header : Dict Text (List Text) → Text → Text → Dict Text (List Text)
  with_header headers [] value = headers
  with_header headers (c ∷ name) value = append_header (c ∷ name) value headers

  -- The value is read only where the name is not empty.
  abbrev value_if : Json → Text → Result Text
  value_if h [] = ok []
  value_if h (c ∷ name) = text_field repr h (text "value")

  unfoldable pub headers_from : Dict Text (List Text) → List Json → Result (Dict Text (List Text))
  unfolding text_field lower Dict.adjust Dict.put_new
  headers_from out [] = ok out
  headers_from out (h ∷ hs) = do
    name ← text_field repr h (text "name")
    value ← value_if h (lower name)
    headers_from (with_header out (lower name) value) hs

  -- `_headers`
  unfoldable pub headers_of : Json → Result (Dict Text (List Text))
  unfolding get_or iterate headers_from
  headers_of json = do
    nodes ← get_or json (text "internetMessageHeaders") (array nil)
    list ← iterate (or_else nodes (array nil))
    headers_from [] list

  module _ (fromisoformat : Text → Option Time) where
    -- `_dt`
    unfoldable pub dt : Json → Option Time
    unfolding str_of
    dt value = if truthy value then fromisoformat (utc_offset (str_of repr value)) else none

    -- _dt(data.get(key))
    unfoldable pub time_field : Json → Text → Result (Option Time)
    unfolding get_or dt
    time_field json key = get_or json key null >>= λ value. ok (dt value)

    module _ (loads : Bytes → Result Json) (invalid : Text) (sha256_hex : Text → Text) where
      abbrev envelope :
          RawMessage
          → Option Text
          → Text × Bool × Bool
          → Dict Text (List Text)
          → Recipient
          → Envelope
      envelope msg message_id (canonical_id, present, trusted) headers from_ = record {
        canonical_id = canonical_id;
        message_id = message_id;
        message_id_present = present;
        message_id_trusted = trusted;
        provider = msg.provider;
        provider_message_id = msg.provider_message_id;
        stream = msg.stream;
        from_ = from_;
        sender = none;
        reply_to = none;
        to = [];
        cc = [];
        subject = [];
        date_utc = none;
        received_at = none;
        snippet = [];
        list_id = first headers (text "list-id");
        list_unsubscribe = first headers (text "list-unsubscribe");
        auto_submitted = first headers (text "auto-submitted");
        is_auto_submitted = derive_auto_submitted (first headers (text "auto-submitted"));
        is_bounce =
            derive_is_bounce from_.address (first headers (text "return-path"))
              (first headers (text "content-type"));
        headers = headers;
      }

      -- `GraphEnvelopeParser.parse_envelope`, which reads nothing of the tenant.
      unfoldable pub parse_envelope : RawMessage → Text → Result Envelope
      unfolding message_id_of derive_canonical_id headers_of list_field recipient sender_of
          reply_to_of recipients text_field time_field validated derive_auto_submitted
          derive_is_bounce
      parse_envelope msg tenant = do
        json ← loads (or_braces msg.raw_bytes)
        id ← get_or json (text "internetMessageId") null
        message_id ← message_id_of id
        headers ← headers_of json
        reply_to_list ← list_field json (text "replyTo")
        from_json ← get_or json (text "from") null
        from_ ← recipient from_json
        sender ← sender_of json
        reply_to ← reply_to_of reply_to_list
        to ← recipients json (text "toRecipients")
        cc ← recipients json (text "ccRecipients")
        subject ← text_field repr json (text "subject")
        date_utc ← time_field json (text "sentDateTime")
        received_at ← time_field json (text "receivedDateTime")
        snippet ← text_field repr json (text "bodyPreview")
        validated invalid id
            (record (envelope msg message_id
              (derive_canonical_id sha256_hex msg.provider msg.provider_message_id
                msg.stream.mailbox message_id)
              headers from_) {
                sender = sender;
                reply_to = reply_to;
                to = to;
                cc = cc;
                subject = subject;
                date_utc = date_utc;
                received_at = received_at;
                snippet = snippet;
              })
