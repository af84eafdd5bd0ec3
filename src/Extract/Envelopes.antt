-- ===== src/Extract/Envelopes.antt =====
-- `MimeEnvelopeParser` of src/mailflow/extract/envelope.py. `get_body` is a parameter, and so is what the email package
-- makes of a message; the number of characters of a snippet is natural.
pub mod Shared
use mailflow.Base.{
  is_empty, text_Eq, ◌++◌, lower, ℕ, zero, suc, ◌==◌, ◌≤◌, ◌&&◌, Bool, true, false, Text, text,
  lower, strip, has_char, take, length, Option, none, some, List, [], ◌∷◌, ◌≡◌, refl, if◌then◌else◌,
  arith,
}
use mailflow.Exec.{Exec, Exc, Result, ok, err}
use mailflow.Exec.Results.{◌>>=◌}
use mailflow.Dict
use mailflow.Dict.{Dict}
use mailflow.Core.Models.{no_recipient, RawMessage, Envelope, CleanEmail, Recipient, Bytes, Time}
use mailflow.Core.Identity.{derive_canonical_id}
use mailflow.Core.Classification.{derive_auto_submitted, derive_is_bounce}
use mailflow.Extract.Attachments.{Part}
use mailflow.Extract.Bodies.{decode_text}
use mailflow.Extract.Mime.{Message, or_blank, nonempty}

-- s.replace("\r\n", " ")
abbrev pub crlf_to_space : Text → Text
crlf_to_space [] = []
crlf_to_space (c ∷ []) = c ∷ []
crlf_to_space (c ∷ d ∷ s) = elim (c == 13 && d == 10) [
  | true ↦ b' ' ∷ crlf_to_space s
  | false ↦ c ∷ crlf_to_space (d ∷ s)
]

-- s.replace("\n", " ")
abbrev pub lf_to_space : Text → Text
lf_to_space [] = []
lf_to_space (c ∷ s) = (if c == 10 then b' ' else c) ∷ lf_to_space s

unfoldable pub one_line : ℕ → Text → Text
unfolding strip
one_line snippet_chars s = take snippet_chars (lf_to_space (crlf_to_space (strip s)))

-- The list that `recips` builds: whom `getaddresses` finds an address for.
abbrev pub addressed : List (Text × Text) → List Recipient
addressed [] = []
addressed ((n, a) ∷ l) =
    let rest = addressed l in if is_empty a then rest else record { name = n; address = a } ∷ rest

-- senders[0] if senders else None
abbrev pub head_or_none : List Recipient → Option Recipient
head_or_none [] = none
head_or_none (r ∷ rs) = some r

-- from_[0] if from_ else Recipient()
abbrev pub head_or_blank : List Recipient → Recipient
head_or_blank [] = no_recipient
head_or_blank (r ∷ rs) = r

-- from_[0].address if from_ else ""
abbrev pub address_or_blank : List Recipient → Text
address_or_blank [] = []
address_or_blank (r ∷ rs) = r.address

-- The loop over the headers.
abbrev pub collect_headers : List (Text × Text) → Dict Text (List Text) → Dict Text (List Text)
collect_headers [] headers = headers
collect_headers ((k, v) ∷ items) headers =
    collect_headers items
      (Dict.adjust (Dict.put_new headers (lower k) []) (lower k) (λ values. values ++ (v ∷ [])))

module _ (getaddresses : List Text → List (Text × Text)) where
  -- `recips` of `parse_envelope`.
  unfoldable pub recips : Message → Text → List Recipient
  recips parsed header = addressed (getaddresses (parsed.get_all header))

module _ (is_decode_error : Exc → Bool) (decode_replace : Bytes → Text) (snippet_chars : ℕ) where
  abbrev body_text : Option Part → Result Text
  body_text none = ok []
  body_text (some body) =
      decode_text is_decode_error decode_replace body >>= λ t. ok (one_line snippet_chars t)

  -- `_snippet`
  unfoldable pub snippet : Option Part → Result Text
  unfolding decode_text one_line
  snippet body = body_text body

  module _ (get_body : Message → Option Part) (sha256_hex : Text → Text)
      (getaddresses : List Text → List (Text × Text)) (message_from_bytes : Bytes → Message) where
    abbrev envelope_of : RawMessage → Message → Text × Bool × Bool → Text → Envelope
    envelope_of msg parsed (canonical_id, present, trusted) snippet = record {
      canonical_id = canonical_id;
      message_id = parsed.header (text "message-id");
      message_id_present = present;
      message_id_trusted = trusted;
      provider = msg.provider;
      provider_message_id = msg.provider_message_id;
      stream = msg.stream;
      from_ = head_or_blank (recips getaddresses parsed (text "from"));
      sender = head_or_none (recips getaddresses parsed (text "sender"));
      reply_to = head_or_none (recips getaddresses parsed (text "reply-to"));
      to = recips getaddresses parsed (text "to");
      cc = recips getaddresses parsed (text "cc");
      subject = or_blank (parsed.header (text "subject"));
      date_utc = none;
      received_at = some msg.received_at;
      snippet = snippet;
      list_id = nonempty (parsed.header (text "list-id"));
      list_unsubscribe = nonempty (parsed.header (text "list-unsubscribe"));
      auto_submitted = nonempty (parsed.header (text "auto-submitted"));
      is_auto_submitted = derive_auto_submitted (nonempty (parsed.header (text "auto-submitted")));
      is_bounce =
          derive_is_bounce (address_or_blank (recips getaddresses parsed (text "from")))
            (parsed.header (text "return-path")) (parsed.header (text "content-type"));
      headers = collect_headers parsed.items [];
    }

    -- `parse_envelope`, which reads nothing of the tenant.
    unfoldable pub parse_envelope : RawMessage → Text → Result Envelope
    unfolding snippet derive_canonical_id recips derive_auto_submitted derive_is_bounce lower
        Dict.adjust Dict.put_new
    parse_envelope msg tenant =
        let parsed = message_from_bytes msg.raw_bytes in
        snippet (get_body parsed) >>= λ s. ok (
          envelope_of msg parsed
            (derive_canonical_id sha256_hex msg.provider msg.provider_message_id msg.stream.mailbox
              (parsed.header (text "message-id")))
            s)
