-- ===== src/Tests/Attachments.antt =====
-- The theorems on attachments, file names and envelopes (src/mailflow/extract/mime.py and envelope.py) at concrete
-- inputs.
use mailflow.Base.{
  ℕ, suc, Bool, true, false, Text, text, text_eq, Option, none, some, List, [], ◌∷◌, ◌≡◌, refl,
  if◌then◌else◌,
}
use mailflow.Exec.{Result, err, Exec, Exc, ok}
use mailflow.Core.Models.{Attachment, ScanVerdict, Bytes, Time, Envelope, CleanEmail, new_email}
use mailflow.Extract.Attachments.{
  Part, AttachmentRule, AttachmentPolicy, PutStream, process_legacy, process_policy,
}
use mailflow.Extract.Attachments.Modes.{Alike, process_policy-process_legacy}
use mailflow.Extract.Bodies.{
  no_walk, meta_of, add_parts, safe_filename, policy, decode_text, is_attachment, is_inline_media,
  is_plain_body,
}
use mailflow.Extract.Bodies.Parts.{ScannerReturns}
use mailflow.Extract.Bodies.Counts.{Counted, media, add_parts-Counted}
use mailflow.Extract.Bodies.Filenames.{Leaf, safe_filename-Leaf}
use mailflow.Extract.Mime.{Message, extract_bytes}
use mailflow.Extract.Envelopes.{parse_envelope}
use mailflow.Extract.Envelopes.Shared.{OneLine, SameMail, extracting, parse_envelope-extract_bytes}
use mailflow.Samples.{first, envelope}

abbrev as_is : Bytes → Text
as_is b = b

abbrev same_text : Text → Text
same_text t = t

abbrev any_char : ℕ → Bool
any_char _ = true

abbrev never : Exc → Bool
never _ = false

-- A scanner that counts its calls and blocks what is named "virus.exe".
abbrev scan : Attachment → Exec ℕ ScanVerdict
scan a n = (
  ok (if text_eq a.filename (text "virus.exe") then ScanVerdict.block else ScanVerdict.allow),
  suc n,
)

abbrev put_stream : PutStream ℕ
put_stream ref chunks ending ctype n = (ok (text "blob"), n)

abbrev rule : AttachmentRule ℕ
rule = record { max_bytes = 10; allowlist = []; scanner = some scan }

abbrev two_rules : AttachmentPolicy ℕ
two_rules = record { real = rule; inline = rule }

abbrev attachment_part : Text → Part
attachment_part name = record {
  is_multipart = false;
  content_type = text "application/pdf";
  content_disposition = some (text "attachment");
  content_id = none;
  filename = some name;
  content = ok [];
  payload = none;
  shown_payload = [];
  chunks = (1 ∷ 2 ∷ []) ∷ (3 ∷ []) ∷ [];
  ending = none;
}

abbrev body_part : Part
body_part = record (attachment_part []) {
  content_type = text "text/plain";
  content_disposition = none;
  filename = none;
  content = ok (text "Hello");
}

abbrev three_parts : List Part
three_parts = body_part ∷ attachment_part (text "a.pdf") ∷ attachment_part (text "virus.exe") ∷ []

process_policy-process_legacy_example :
    let part = attachment_part (text "virus.exe") in
    Alike
      (process_legacy as_is part (meta_of part) part.content_type (some put_stream) scan [] 10 0)
      (process_policy as_is part
        (meta_of part)
        part.content_type
        (some put_stream)
        false
        two_rules
        0)
process_policy-process_legacy_example =
    process_policy-process_legacy as_is (attachment_part (text "virus.exe"))
      (meta_of (attachment_part (text "virus.exe"))) (text "application/pdf") (some put_stream)
      false scan two_rules rule 0 refl refl

three_parts_instance : media three_parts ≡ 2
unfolding is_attachment is_inline_media is_plain_body
three_parts_instance = refl

scan-ScannerReturns : ScannerReturns (some scan)
scan-ScannerReturns a n = tt

add_parts-Counted_example :
    Counted never as_is as_is
      (some put_stream)
      two_rules
      no_walk
      (media three_parts)
      (add_parts never as_is as_is (some put_stream) (policy two_rules) three_parts no_walk 0)
unfolding decode_text
add_parts-Counted_example =
    add_parts-Counted never as_is as_is (some put_stream) two_rules (λ r c e t x. tt)
      scan-ScannerReturns scan-ScannerReturns three_parts no_walk 0
      (tt, (text "Hello", refl), (tt, ([], refl), (tt, ([], refl), tt)))

safe_filename-Leaf_example : Leaf (safe_filename (some (text "../../etc/passwd")))
safe_filename-Leaf_example = safe_filename-Leaf (some (text "../../etc/passwd"))

passwd_instance : safe_filename (some (text "../../etc/passwd")) ≡ text "passwd"
unfolding safe_filename
passwd_instance = refl

abbrev parsed : Message
parsed = record {
  header = λ name. if text_eq name (text "subject") then some (text "Plan") else none;
  get_all = λ name. if text_eq name (text "from") then text "bob@b.org" ∷ [] else [];
  items = (text "Subject", text "Plan") ∷ [];
  parts = three_parts;
}

abbrev addresses : List Text → List (Text × Text)
addresses [] = []
addresses (v ∷ vs) = ([], v) ∷ addresses vs

abbrev no_time : Text → Option Time
no_time _ = none

abbrev parse_bytes : Bytes → Message
parse_bytes _ = parsed

abbrev find_body : Message → Option Part
find_body _ = some body_part

abbrev or_this : {A : Type 0} → A → Result A → A
or_this a (ok b) = b
or_this a (err e) = a

abbrev found : Envelope
found =
    or_this envelope
      (parse_envelope never as_is 256 find_body same_text addresses parse_bytes first [])

abbrev taken : Result CleanEmail × ℕ
taken =
    extracting any_char same_text never as_is as_is (some put_stream) (policy two_rules) same_text
      addresses no_time parse_bytes 256 find_body first (text "ann") 0

abbrev taken_email : CleanEmail
taken_email = or_this (new_email [] [] [] []) taken.0

found_parsed :
    parse_envelope never as_is 256 find_body same_text addresses parse_bytes first [] ≡ ok found
unfolding parse_envelope
found_parsed = refl

taken_extracted : taken ≡ (ok taken_email, taken.1)
unfolding extract_bytes
taken_extracted = refl

parse_envelope-extract_bytes_example : SameMail found taken_email × OneLine 256 found.snippet
parse_envelope-extract_bytes_example =
    parse_envelope-extract_bytes any_char same_text never as_is as_is (some put_stream)
      (policy two_rules) same_text addresses no_time parse_bytes 256 find_body first [] (text "ann")
      0 taken.1 found taken_email found_parsed taken_extracted
