-- ===== src/Extract/Mime.antt =====
-- `MimeExtractor` of src/mailflow/extract/mime.py. The parsed message is what the email package tells of it;
-- `message_from_bytes`, `getaddresses` and `parsedate_to_datetime` (none where it raises the errors that are caught)
-- are parameters. Lower case is ASCII's.
use mailflow.Base.{
  ℕ, Bool, not, ◌&&◌, pos, Text, text, text_eq, text_Eq, is_empty, lower, length, Option, none,
  some, List, [], ◌∷◌, ◌++◌, if◌then◌else◌,
}
use mailflow.Exec.{Exec, Exc, pure, ◌>>=◌}
use mailflow.Dict.{Dict}
use mailflow.Core.Models.{
  CleanEmail, Recipient, no_recipient, Bytes, Time, new_email, schema_version,
}
use mailflow.Core.Identity.{derive_canonical_id}
use mailflow.Core.Classification.{derive_auto_submitted, derive_is_bounce}
use mailflow.Extract.Clean.{html_to_text, normalize_subject}
use mailflow.Extract.Attachments.{Part, PutStream}
use mailflow.Extract.Bodies.{Walk, Mode, no_walk, add_parts}
use mailflow.Graph.Messages.{append_header}
use mailflow.Graph.Messages.Content.{split_from, direction_of}

-- What the email package makes of a message: msg[name], msg.get_all(name, []), msg.items() and msg.walk().
pub record Message : Type 0 where
  pub header : Text → Option Text
  pub get_all : Text → List Text
  pub items : List (Text × Text)
  pub parts : List Part

-- getaddresses, where the address is not empty.
abbrev pub with_address : List (Text × Text) → List Recipient
with_address [] = []
with_address ((name, addr) ∷ l) =
    let rest = with_address l in
    if is_empty addr then rest else record { name = name; address = addr } ∷ rest

abbrev pub first_recipient : List Recipient → Option Recipient
first_recipient [] = none
first_recipient (r ∷ rs) = some r

abbrev pub add_headers : List (Text × Text) → Dict Text (List Text) → Dict Text (List Text)
add_headers [] out = out
add_headers ((key, value) ∷ items) out = add_headers items (append_header (lower key) value out)

-- `_raw_headers`
unfoldable pub raw_headers : Message → Dict Text (List Text)
unfolding lower
raw_headers msg = add_headers msg.items []

-- str(h) if h else None
abbrev pub nonempty : Option Text → Option Text
nonempty none = none
nonempty (some []) = none
nonempty (some (c ∷ t)) = some (c ∷ t)

abbrev pub or_blank : Option Text → Text
or_blank none = []
or_blank (some t) = t

abbrev pub or_recipient : Option Recipient → Recipient
or_recipient none = no_recipient
or_recipient (some r) = r

-- " ".join(refs)
abbrev joined : List Text → Text
joined [] = []
joined (r ∷ []) = r
joined (r ∷ s ∷ rs) = r ++ (text " " ++ joined (s ∷ rs))

abbrev pub or_subject : Text → Text → Text
or_subject [] subject = lower (normalize_subject subject)
or_subject (c ∷ t) subject = c ∷ t

abbrev date_of : (Text → Option Time) → Option Text → Option Time
date_of parsedate none = none
date_of parsedate (some d) = parsedate d

-- Which message is asked for.
pub record Origin : Type 0 where
  pub provider : Text
  pub provider_message_id : Text
  pub stream_id : Text
  pub watched_mailbox : Text
  pub thread_key : Text

module _ (getaddresses : List Text → List (Text × Text)) where
  -- `_recipients`
  unfoldable pub header_recipients : Message → Text → List Recipient
  header_recipients msg header = with_address (getaddresses (msg.get_all header))

  -- `_one`
  unfoldable pub one_recipient : Message → Text → Option Recipient
  unfolding header_recipients
  one_recipient msg header = first_recipient (header_recipients msg header)

module _ (is_word : ℕ → Bool) (unescape : Text → Text) (is_decode_error : Exc → Bool)
    (decode_replace : Bytes → Text) (sha256_hex : Bytes → Text) where
  -- The text of a message that has none, from its HTML.
  abbrev pub with_text : Walk → Walk
  with_text w =
      if is_empty w.body_text && not (is_empty w.body_html)
      then record w { body_text = html_to_text is_word unescape w.body_html }
      else w

  module _ {X : Type 0} (blob_store : Option (PutStream X)) (mode : Mode X) where
    -- `_walk_body`
    unfoldable pub walk_body : Message → Exec X Walk
    unfolding add_parts html_to_text
    walk_body msg =
        add_parts is_decode_error decode_replace sha256_hex blob_store mode msg.parts no_walk
        >>= λ w. pure (with_text w)

    module _ (sha256_text : Text → Text) (getaddresses : List Text → List (Text × Text))
        (parsedate : Text → Option Time) (message_from_bytes : Bytes → Message) where
      abbrev identified : Text × Bool × Bool → Origin → CleanEmail
      identified (canonical_id, present, trusted) o =
          record (new_email canonical_id o.provider o.provider_message_id o.stream_id) {
            message_id_present = present;
            message_id_trusted = trusted;
          }

      abbrev from_of : Message → Recipient
      from_of msg = or_recipient (one_recipient getaddresses msg (text "from"))

      abbrev email_of : Message → Bytes → Origin → Walk → CleanEmail
      email_of msg raw o w =
          let from_ = from_of msg in
          let subject = or_blank (msg.header (text "subject")) in
          let auto_sub = nonempty (msg.header (text "auto-submitted")) in
          record (identified
            (derive_canonical_id sha256_text o.provider o.provider_message_id o.watched_mailbox
              (msg.header (text "message-id")))
            o) {
              message_id = msg.header (text "message-id");
              in_reply_to = nonempty (msg.header (text "in-reply-to"));
              references = split_from [] (joined (msg.get_all (text "references")));
              thread_key = or_subject o.thread_key subject;
              direction = direction_of (text_eq (lower from_.address) (lower o.watched_mailbox));
              from_ = from_;
              sender = one_recipient getaddresses msg (text "sender");
              reply_to = one_recipient getaddresses msg (text "reply-to");
              to = header_recipients getaddresses msg (text "to");
              cc = header_recipients getaddresses msg (text "cc");
              bcc = header_recipients getaddresses msg (text "bcc");
              subject = subject;
              date_utc = date_of parsedate (msg.header (text "date"));
              body_text = w.body_text;
              body_html = w.body_html;
              attachments = w.attachments;
              stripped_attachments = w.stripped;
              auto_submitted = auto_sub;
              is_auto_submitted = derive_auto_submitted auto_sub;
              is_bounce =
                  derive_is_bounce from_.address (msg.header (text "return-path"))
                    (msg.header (text "content-type"));
              list_id = nonempty (msg.header (text "list-id"));
              list_unsubscribe = nonempty (msg.header (text "list-unsubscribe"));
              message_size_bytes = pos (length raw);
              raw_headers = raw_headers msg;
              schema_version = schema_version;
            }

      -- `extract_bytes`
      unfoldable pub extract_bytes : Bytes → Origin → Exec X CleanEmail
      unfolding walk_body derive_canonical_id derive_auto_submitted derive_is_bounce
          header_recipients one_recipient raw_headers normalize_subject split_from lower text_eq
          new_email
      extract_bytes raw o =
          let msg = message_from_bytes raw in walk_body msg >>= λ w. pure (email_of msg raw o w)
