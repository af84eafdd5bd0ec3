-- ===== src/Core/Models.antt =====
-- src/mailflow/core/models.py and events.py: the value models. A `datetime` is its reading on the
-- clock, bytes are numbers, and a classifier's `score` counts thousandths.
use mailflow.Base.{
  ℕ, Text, text, ℤ, pos, Bool, false, Option, none, some, List, [], ◌++◌, ◌∷◌, leb_ℤ, not,
}
use mailflow.Dict.{Dict}

abbrev pub Bytes : Type 0
Bytes = List ℕ

abbrev pub Time : Type 0
Time = ℕ

pub data Direction : Type 0 where
  inbound outbound unknown : Direction

pub data Disposition : Type 0 where
  emitted dropped duplicate dead_lettered : Disposition

pub data Decision : Type 0 where
  keep drop uncertain : Decision

pub data Verdict : Type 0 where
  relevant not_relevant unknown : Verdict

pub data ScanVerdict : Type 0 where
  allow block : ScanVerdict

pub data StripReason : Type 0 where
  not_allowlisted oversize unreadable scanner : StripReason

-- `StripReason.value`
pub strip_value : StripReason → Text
strip_value not_allowlisted = text "not_allowlisted"
strip_value oversize = text "oversize"
strip_value unreadable = text "unreadable"
strip_value scanner = text "scanner"

pub record StrippedAttachment : Type 0 where
  pub filename : Text
  pub content_type : Text
  pub size_bytes : ℤ
  pub is_inline : Bool
  pub reason : StripReason

pub record Recipient : Type 0 where
  pub name : Text
  pub address : Text

abbrev pub no_recipient : Recipient
no_recipient = record { name = []; address = [] }

pub record StreamRef : Type 0 where
  pub mailbox : Text
  pub folder : Option Text

-- A folder that is None or "" is left out.
abbrev folder_key : Text → Option Text → Text
folder_key mailbox none = mailbox
folder_key mailbox (some folder) = elim folder [
  | [] ↦ mailbox
  | c ∷ r ↦ mailbox ++ (text ":" ++ (c ∷ r))
]

unfoldable pub stream_key : StreamRef → Text
stream_key s = folder_key s.mailbox s.folder

pub record Cursor : Type 0 where
  pub value : Text
  pub order : ℤ

-- `Cursor.__lt__`
unfoldable pub cursor_lt : Cursor → Cursor → Bool
cursor_lt a b = not (leb_ℤ b.order a.order)

pub record RawMessage : Type 0 where
  pub provider : Text
  pub provider_message_id : Text
  pub stream : StreamRef
  pub size_bytes : ℤ
  pub received_at : Time
  pub cursor : Cursor
  pub raw_bytes : Bytes
  pub thread_key : Text

pub record Attachment : Type 0 where
  pub filename : Text
  pub content_type : Text
  pub size_bytes : ℤ
  pub content_hash : Text
  pub content_id : Text
  pub is_inline : Bool
  pub provider_attachment_id : Text
  pub storage_ref : Text

pub record Relevance : Type 0 where
  pub verdict : Verdict
  pub score : Option ℤ
  pub reason : Text

abbrev pub no_relevance : Relevance
no_relevance = record { verdict = Verdict.unknown; score = none; reason = [] }

pub record Envelope : Type 0 where
  pub canonical_id : Text
  pub message_id : Option Text
  pub message_id_present : Bool
  pub message_id_trusted : Bool
  pub provider : Text
  pub provider_message_id : Text
  pub stream : StreamRef
  pub from_ : Recipient
  pub sender : Option Recipient
  pub reply_to : Option Recipient
  pub to : List Recipient
  pub cc : List Recipient
  pub subject : Text
  pub date_utc : Option Time
  pub received_at : Option Time
  pub snippet : Text
  pub list_id : Option Text
  pub list_unsubscribe : Option Text
  pub auto_submitted : Option Text
  pub is_auto_submitted : Bool
  pub is_bounce : Bool
  pub headers : Dict Text (List Text)

-- The literal type of `CleanEmail.disposition`.
pub data Delivery : Type 0 where
  emitted filtered : Delivery

pub record CleanEmail : Type 0 where
  pub canonical_id : Text
  pub message_id : Option Text
  pub message_id_present : Bool
  pub message_id_trusted : Bool
  pub in_reply_to : Option Text
  pub references : List Text
  pub provider : Text
  pub provider_message_id : Text
  pub provider_stream_id : Text
  pub direction : Direction
  pub is_draft : Bool
  pub from_ : Recipient
  pub sender : Option Recipient
  pub reply_to : Option Recipient
  pub to : List Recipient
  pub cc : List Recipient
  pub bcc : List Recipient
  pub subject : Text
  pub date_utc : Option Time
  pub received_at : Option Time
  pub body_text : Text
  pub body_html : Text
  pub body_truncated : Bool
  pub attachments : List Attachment
  pub stripped_attachments : List StrippedAttachment
  pub labels : List Text
  pub categories : List Text
  pub folder : Text
  pub thread_key : Text
  pub auto_submitted : Option Text
  pub is_auto_submitted : Bool
  pub is_bounce : Bool
  pub list_id : Option Text
  pub list_unsubscribe : Option Text
  pub message_size_bytes : ℤ
  pub raw_headers : Dict Text (List Text)
  pub relevance : Relevance
  pub matched_filter : Text
  pub disposition : Delivery
  pub filter_reason : Text
  pub schema_version : Text

-- The fields' defaults, with the fields that have none.
unfoldable pub new_email : Text → Text → Text → Text → CleanEmail
new_email canonical_id provider provider_message_id provider_stream_id = record {
  canonical_id = canonical_id;
  message_id = none;
  message_id_present = false;
  message_id_trusted = false;
  in_reply_to = none;
  references = [];
  provider = provider;
  provider_message_id = provider_message_id;
  provider_stream_id = provider_stream_id;
  direction = Direction.unknown;
  is_draft = false;
  from_ = no_recipient;
  sender = none;
  reply_to = none;
  to = [];
  cc = [];
  bcc = [];
  subject = [];
  date_utc = none;
  received_at = none;
  body_text = [];
  body_html = [];
  body_truncated = false;
  attachments = [];
  stripped_attachments = [];
  labels = [];
  categories = [];
  folder = [];
  thread_key = [];
  auto_submitted = none;
  is_auto_submitted = false;
  is_bounce = false;
  list_id = none;
  list_unsubscribe = none;
  message_size_bytes = pos 0;
  raw_headers = [];
  relevance = no_relevance;
  matched_filter = [];
  disposition = Delivery.emitted;
  filter_reason = [];
  schema_version = [];
}

abbrev pub schema_version : Text
schema_version = text "1.3"

pub record EmailEvent : Type 0 where
  pub schema_version : Text
  pub tenant : Text
  pub ordering_key : Text
  pub idempotency_key : Text
  pub email : CleanEmail
