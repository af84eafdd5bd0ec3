-- ===== src/Tests/Mails.antt =====
-- The theorems on the content of a mail (src/mailflow/extract/clean.py, adapters/graph/parser.py and
-- extractor.py) at concrete inputs.
use mailflow.Base.{
  ℕ, Bool, not, ◌==◌, if◌then◌else◌, ℤ, pos, Text, text, text_eq, Option, none, some, [], ◌∷◌, ◌≡◌,
  refl,
}
use mailflow.Exec.{Result, ok, err}
use mailflow.Json.{Json, null, str, array, object, items_of, fields_of, get_or}
use mailflow.Core.Models.{Envelope, CleanEmail, Bytes, Time, new_email}
use mailflow.Extract.Clean.{clean, html_to_text, normalize_subject}
use mailflow.Extract.Clean.Spaces.{Squeezed, clean-Squeezed}
use mailflow.Graph.Messages.{parse_envelope}
use mailflow.Graph.Messages.Content.{extract}
use mailflow.Graph.Messages.Agree.{Agrees, extract-Agrees, extract-null_subject}
use mailflow.Samples.{envelope, first}

abbrev is_letter : ℕ → Bool
is_letter c = not (c == b'>')

abbrev as_is : Text → Text
as_is s = s

abbrev web_mail : CleanEmail
web_mail = record (new_email (text "c") (text "graph") (text "m1") (text "ann")) {
  body_html = text "<p>Hello </p><script>x</script> you ";
}

html_to_text_instance : html_to_text is_letter as_is web_mail.body_html ≡ text "Hello you"
unfolding html_to_text
html_to_text_instance = refl

normalize_subject_instance : normalize_subject (text " Re: FW : the  plan") ≡ text "the plan"
unfolding normalize_subject
normalize_subject_instance = refl

clean-Squeezed_example :
    let cleaned = clean is_letter as_is web_mail in
    Squeezed cleaned.body_text
    × (cleaned ≡ (record web_mail { body_text = cleaned.body_text }))
    × (clean is_letter as_is cleaned ≡ cleaned)
unfolding new_email
clean-Squeezed_example = clean-Squeezed is_letter as_is web_mail refl (λ h. cc)

abbrev plain : Json → Text
plain _ = []

abbrev person : Text → Json
person address = object (
    fields_of (
      (
        text "emailAddress",
        object (fields_of ((text "name", str (text "Ann")) ∷ (text "address", str address) ∷ [])),
      )
      ∷ []))

abbrev mail : Json
mail = object (
    fields_of (
      (text "subject", null)
      ∷ (text "from", person (text "bob@b.org"))
      ∷ (text "toRecipients", array (items_of (person (text "ann@a.org") ∷ [])))
      ∷ (text "sentDateTime", str (text "noon"))
      ∷ []))

abbrev loads : Bytes → Result Json
loads bytes = ok mail

abbrev reads_noon : Text → Option Time
reads_noon s = if text_eq s (text "noon") then some 12 else none

abbrev to_int : Json → Result ℤ
to_int j = ok (pos 0)

abbrev or_this : {A : Type 0} → A → Result A → A
or_this a (ok b) = b
or_this a (err e) = a

abbrev parsed : Envelope
parsed = or_this envelope (parse_envelope plain reads_noon loads (text "invalid") as_is first [])

abbrev extracted : CleanEmail
extracted = or_this web_mail (extract plain loads reads_noon to_int is_letter as_is first parsed)

mail_parsed : parse_envelope plain reads_noon loads (text "invalid") as_is first [] ≡ ok parsed
unfolding parse_envelope
mail_parsed = refl

mail_extracted : extract plain loads reads_noon to_int is_letter as_is first parsed ≡ ok extracted
unfolding extract
mail_extracted = refl

extract-Agrees_example : Agrees parsed extracted
extract-Agrees_example =
    extract-Agrees plain loads reads_noon (text "invalid") as_is to_int is_letter as_is first parsed
      [] extracted mail_parsed mail_extracted

extract-null_subject_example : (parsed.subject ≡ text "None") × (extracted.subject ≡ text "None")
unfolding get_or text_eq
extract-null_subject_example =
    extract-null_subject plain loads reads_noon (text "invalid") as_is to_int is_letter as_is first
      parsed [] mail extracted refl refl mail_parsed mail_extracted
