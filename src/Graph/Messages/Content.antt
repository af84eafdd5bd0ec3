-- ===== src/Graph/Messages/Content.antt =====
-- `GraphExtractor` of src/mailflow/adapters/graph/extractor.py. `int` is a parameter.
use mailflow.Base.{
  Bool, true, false, ◌||◌, ℤ, pos, ℕ, Text, text, text_eq, text_Eq, lower, is_space, Option, none,
  some, List, [], ◌∷◌, ◌++◌, if◌then◌else◌,
}
use mailflow.Exec.{Result, ok}
use mailflow.Exec.Results.{◌>>=◌, map_results}
use mailflow.Dict
use mailflow.Json.{
  Json, null, bool, int, str, object, end, get_or, iterate, or_else, str_of, truthy,
}
use mailflow.Core.Models.{
  RawMessage, Envelope, CleanEmail, Attachment, Bytes, Time, Direction, new_email, schema_version,
  stream_key,
}
use mailflow.Extract.Clean.{html_to_text}
use mailflow.Graph.Notifications.{text_field}
use mailflow.Graph.Messages.{list_field, or_braces}
use mailflow.Graph.Messages.Helpers.{recipient, recipients, sender_of, reply_to_of, time_field}

abbrev word : Text → List Text → List Text
word [] ws = ws
word (c ∷ w) ws = (c ∷ w) ∷ ws

-- s.split(), behind the part of a word.
unfoldable pub split_from : Text → Text → List Text
unfolding is_space
split_from w [] = word w []
split_from w (c ∷ s) = elim (is_space c) [
  | true ↦ word w (split_from [] s)
  | false ↦ split_from (w ++ (c ∷ [])) s
]

-- `_first_or_none`
abbrev first_or_none : Option (List Text) → Option Text
first_or_none none = none
first_or_none (some []) = none
first_or_none (some (v ∷ values)) = some v

-- references_hdr[0].split() if references_hdr else []
abbrev references_of : Option (List Text) → List Text
references_of none = []
references_of (some []) = []
references_of (some (v ∷ values)) = split_from [] v

abbrev pub direction_of : Bool → Direction
direction_of true = Direction.outbound
direction_of false = Direction.inbound

abbrev folder_of : Option Text → Text
folder_of none = []
folder_of (some folder) = folder

module _ (repr : Json → Text) where
  module _ (is_word : ℕ → Bool) (unescape : Text → Text) where
    -- `_body`
    unfoldable pub body_of : Json → Result (Text × Text)
    unfolding get_or text_field str_of lower text_eq html_to_text
    body_of json = do
      body ← get_or json (text "body") null
      content ← text_field repr (or_else body (object end)) (text "content")
      kind ← text_field repr (or_else body (object end)) (text "contentType")
      ok (
          if text_eq (lower kind) (text "html")
          then (html_to_text is_word unescape content, content)
          else (content, []))

  module _ (int_of : Json → Result ℤ) where
    -- The body of the loop of `_attachments`.
    unfoldable pub attachment_of : Json → Result Attachment
    unfolding get_or text_field str_of
    attachment_of a = do
      is_inline ← get_or a (text "isInline") null
      content_id ← get_or a (text "contentId") null
      filename ← text_field repr a (text "name")
      content_type ← get_or a (text "contentType") (str (text "application/octet-stream"))
      size ← get_or a (text "size") (int (pos 0))
      size_bytes ← int_of (or_else size (int (pos 0)))
      id ← text_field repr a (text "id")
      ok (record {
        filename = filename;
        content_type = str_of repr content_type;
        size_bytes = size_bytes;
        content_hash = [];
        content_id = str_of repr (or_else content_id (str []));
        is_inline = truthy is_inline || truthy content_id;
        provider_attachment_id = id;
        storage_ref = [];
      })

    -- `_attachments`
    unfoldable pub attachments_of : Json → Result (List Attachment)
    unfolding list_field iterate attachment_of
    attachments_of json = do
      nodes ← list_field json (text "_attachments")
      list ← iterate nodes
      map_results attachment_of list

  -- [str(c) for c in data.get("categories", []) or []]
  unfoldable pub categories_of : Json → Result (List Text)
  unfolding list_field iterate str_of
  categories_of json = do
    nodes ← list_field json (text "categories")
    list ← iterate nodes
    map_results (λ c. ok (str_of repr c)) list

  module _ (loads : Bytes → Result Json) (fromisoformat : Text → Option Time)
      (int_of : Json → Result ℤ) (is_word : ℕ → Bool) (unescape : Text → Text) where
    -- What the email takes from the envelope and the message alone.
    unfoldable pub of_envelope : RawMessage → Envelope → CleanEmail
    unfolding new_email Dict.get stream_key split_from
    of_envelope msg env =
        record (new_email env.canonical_id msg.provider msg.provider_message_id
          (stream_key msg.stream)) {
            message_id = env.message_id;
            message_id_present = env.message_id_present;
            message_id_trusted = env.message_id_trusted;
            in_reply_to = first_or_none (Dict.get env.headers (text "in-reply-to"));
            references = references_of (Dict.get env.headers (text "references"));
            folder = folder_of msg.stream.folder;
            list_id = env.list_id;
            list_unsubscribe = env.list_unsubscribe;
            auto_submitted = env.auto_submitted;
            is_auto_submitted = env.is_auto_submitted;
            is_bounce = env.is_bounce;
            message_size_bytes = msg.size_bytes;
            raw_headers = env.headers;
            schema_version = schema_version;
          }

    -- `GraphExtractor.extract`; what the envelope gives has been validated there.
    unfoldable pub extract : RawMessage → Envelope → Result CleanEmail
    unfolding body_of recipient list_field sender_of reply_to_of recipients text_field time_field
        attachments_of categories_of get_or str_of lower text_eq of_envelope
    extract msg env = do
      json ← loads (or_braces msg.raw_bytes)
      (body_text, body_html) ← body_of is_word unescape json
      from_json ← get_or json (text "from") null
      from_ ← recipient repr from_json
      reply_to_list ← list_field json (text "replyTo")
      is_draft ← get_or json (text "isDraft") (bool false)
      sender ← sender_of repr json
      reply_to ← reply_to_of repr reply_to_list
      to ← recipients repr json (text "toRecipients")
      cc ← recipients repr json (text "ccRecipients")
      bcc ← recipients repr json (text "bccRecipients")
      subject ← text_field repr json (text "subject")
      date_utc ← time_field repr fromisoformat json (text "sentDateTime")
      received_at ← time_field repr fromisoformat json (text "receivedDateTime")
      attachments ← attachments_of int_of json
      categories ← categories_of json
      conversation ← get_or json (text "conversationId") (str [])
      ok (record (of_envelope msg env) {
        direction = direction_of (text_eq (lower from_.address) (lower msg.stream.mailbox));
        is_draft = truthy is_draft;
        from_ = from_;
        sender = sender;
        reply_to = reply_to;
        to = to;
        cc = cc;
        bcc = bcc;
        subject = subject;
        date_utc = date_utc;
        received_at = received_at;
        body_text = body_text;
        body_html = body_html;
        attachments = attachments;
        categories = categories;
        thread_key = str_of repr (or_else conversation (str []));
      })
