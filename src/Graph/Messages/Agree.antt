-- ===== src/Graph/Messages/Agree.antt =====
-- The parser and the extractor of src/mailflow/adapters/graph read one message alike.
use mailflow.Base.{Bool, false, ◌≡◌, refl, inl, inr, sym, ◌∙◌, ℤ, ℕ, Text, text, Option, []}
use mailflow.Exec.{Exc, Result, ok, err}
use mailflow.Exec.Results.{Result-cases}
use mailflow.Json.{Json, null, bool, str, get_or, str_of}
use mailflow.Core.Models.{RawMessage, Envelope, CleanEmail, Bytes, Time}
use mailflow.Graph.Notifications.{text_field}
use mailflow.Graph.Messages.{
  recipient, recipients, sender_of, reply_to_of, list_field, time_field, validated, or_braces,
  parse_envelope, headers_of, message_id_of,
}
use mailflow.Graph.Messages.Helpers
use mailflow.Graph.Messages.Content.{extract, body_of, attachments_of, categories_of}

-- What an email says as the envelope of its message does.
abbrev pub Agrees : Envelope → CleanEmail → Type 0
Agrees env email =
    (email.from_ ≡ env.from_)
    × (email.sender ≡ env.sender)
    × (email.reply_to ≡ env.reply_to)
    × (email.to ≡ env.to)
    × (email.cc ≡ env.cc)
    × (email.subject ≡ env.subject)
    × (email.date_utc ≡ env.date_utc)
    × (email.received_at ≡ env.received_at)

ok_injective : {A : Type 0} (a b : A) → ok a ≡ ok b → a ≡ b
ok_injective a b h = cc

failed : {A G : Type 0} {e : Exc} {a : A} → err e ≡ ok a → G
failed {e = e} {a = a} h = absurd (apart e a h)
  where
    apart : {A : Type 0} (e : Exc) (a : A) → err e ≡ ok a → ⊥
    apart e a h = cc

validated-ok :
    {A : Type 0} (invalid : Text) (j : Json) (a b : A) → validated invalid j a ≡ ok b → a ≡ b
unfolding validated
validated-ok invalid null a b h = ok_injective a b h
validated-ok invalid (str s) a b h = ok_injective a b h
validated-ok invalid j a b h = cc

finish :
    (e env : Envelope) (m email : CleanEmail) → e ≡ env → m ≡ email → Agrees e m → Agrees env email
finish e env m email h k a = rw (← h, ← k) a

-- Both ways that a reading can go.
on_result :
    {A G : Type 0} (m : Result A) → ((e : Exc) → m ≡ err e → G) → ((a : A) → m ≡ ok a → G) → G
on_result m f g = elim (Result-cases m) [ inl (a, q) ↦ g a q | inr (e, q) ↦ f e q ]

module _ (repr : Json → Text) (loads : Bytes → Result Json) (fromisoformat : Text → Option Time)
    (invalid : Text) (sha256_hex : Text → Text) (int_of : Json → Result ℤ) (is_word : ℕ → Bool)
    (unescape : Text → Text) where
  -- The readings behind an envelope.
  record Read (msg : RawMessage) (env : Envelope) : Type 0 where
    json : Json
    from_json : Json
    replies : Json
    loaded : loads (or_braces msg.raw_bytes) ≡ ok json
    from_read : get_or json (text "from") null ≡ ok from_json
    from_is : recipient repr from_json ≡ ok env.from_
    sender_is : sender_of repr json ≡ ok env.sender
    replies_read : list_field json (text "replyTo") ≡ ok replies
    reply_to_is : reply_to_of repr replies ≡ ok env.reply_to
    to_is : recipients repr json (text "toRecipients") ≡ ok env.to
    cc_is : recipients repr json (text "ccRecipients") ≡ ok env.cc
    subject_is : text_field repr json (text "subject") ≡ ok env.subject
    date_is : time_field repr fromisoformat json (text "sentDateTime") ≡ ok env.date_utc
    received_is : time_field repr fromisoformat json (text "receivedDateTime") ≡ ok env.received_at

  module _ (msg : RawMessage) (env : Envelope) where
    Read-Agrees :
        (r : Read msg env) (email : CleanEmail)
        → extract repr loads fromisoformat int_of is_word unescape msg env ≡ ok email
        → Agrees env email
    unfolding extract
    Read-Agrees r email =
        let json = r.json in
        rw
          (
            r.loaded,
            r.from_read,
            Helpers.recipient-same repr r.from_json ∙ r.from_is,
            Helpers.sender_of-same repr json ∙ r.sender_is,
            r.replies_read,
            Helpers.reply_to_of-same repr r.replies ∙ r.reply_to_is,
            Helpers.recipients-same repr json (text "toRecipients") ∙ r.to_is,
            Helpers.recipients-same repr json (text "ccRecipients") ∙ r.cc_is,
            r.subject_is,
            Helpers.time_field-same repr fromisoformat json (text "sentDateTime") ∙ r.date_is,
            Helpers.time_field-same repr fromisoformat json (text "receivedDateTime")
                ∙ r.received_is,
          )
          (on_result (body_of repr is_word unescape json) (λ e q. rw (q) failed)
            (λ body q0. rw (q0) (
              on_result (get_or json (text "isDraft") (bool false)) (λ e q. rw (q) failed)
                (λ is_draft q1. rw (q1) (
                  on_result (Helpers.recipients repr json (text "bccRecipients"))
                    (λ e q. rw (q) failed)
                    (λ bcc q2. rw (q2) (
                      on_result (attachments_of repr int_of json) (λ e q. rw (q) failed)
                        (λ attachments q3. rw (q3) (
                          on_result (categories_of repr json) (λ e q. rw (q) failed)
                            (λ categories q4. rw (q4) (
                              on_result (get_or json (text "conversationId") (str []))
                                (λ e q. rw (q) failed)
                                (λ conversation q5. rw (q5) (
                                  (λ k.
                                    rw (← ok_injective _ email k)
                                      (refl, refl, refl, refl, refl, refl, refl, refl)))))))))))))))

    parse_envelope-Read :
        (tenant : Text)
        → parse_envelope repr fromisoformat loads invalid sha256_hex msg tenant ≡ ok env
        → Read msg env
    unfolding parse_envelope
    parse_envelope-Read tenant =
        on_result (loads (or_braces msg.raw_bytes)) (λ e q. rw (q) failed)
          (λ json q0. rw (q0) (
            on_result (get_or json (text "internetMessageId") null) (λ e q. rw (q) failed)
              (λ id q1. rw (q1) (
                on_result (message_id_of id) (λ e q. rw (q) failed)
                  (λ message_id q2. rw (q2) (
                    on_result (headers_of repr json) (λ e q. rw (q) failed)
                      (λ headers q3. rw (q3) (
                        on_result (list_field json (text "replyTo")) (λ e q. rw (q) failed)
                          (λ replies q4. rw (q4) (
                            on_result (get_or json (text "from") null) (λ e q. rw (q) failed)
                              (λ from_json q5. rw (q5) (
                                on_result (recipient repr from_json) (λ e q. rw (q) failed)
                                  (λ from_ q6. rw (q6) (
                                    on_result (sender_of repr json) (λ e q. rw (q) failed)
                                      (λ sender q7. rw (q7) (
                                        on_result (reply_to_of repr replies) (λ e q. rw (q) failed)
                                          (λ reply_to q8. rw (q8) (
                                            on_result (recipients repr json (text "toRecipients"))
                                              (λ e q. rw (q) failed)
                                              (λ to q9. rw (q9) (
                                                on_result
                                                  (recipients repr json (text "ccRecipients"))
                                                  (λ e q. rw (q) failed)
                                                  (λ copies q10. rw (q10) (
                                                    on_result
                                                      (text_field repr json (text "subject"))
                                                      (λ e q. rw (q) failed)
                                                      (λ subject q11. rw (q11) (
                                                        on_result
                                                          (time_field repr fromisoformat json
                                                            (text "sentDateTime"))
                                                          (λ e q. rw (q) failed)
                                                          (λ date_utc q12. rw (q12) (
                                                            on_result
                                                            (time_field repr fromisoformat json
                                                            (text "receivedDateTime"))
                                                            (λ e q. rw (q) failed)
                                                            (λ received_at q13. rw (q13) (
                                                            on_result
                                                            (text_field repr json
                                                            (text "bodyPreview"))
                                                            (λ e q. rw (q) failed)
                                                            (λ snippet q14. rw (q14) (
                                                            (λ h.
                                                            rw (← validated-ok invalid id _ env h)
                                                            (record {
                                                            json = json;
                                                            from_json = from_json;
                                                            replies = replies;
                                                            loaded = q0;
                                                            from_read = q5;
                                                            from_is = q6;
                                                            replies_read = q4;
                                                            sender_is = q7;
                                                            reply_to_is = q8;
                                                            to_is = q9;
                                                            cc_is = q10;
                                                            subject_is = q11;
                                                            date_is = q12;
                                                            received_is = q13;
                                                            }))))))))))))))))))))))))))))))))

    -- Where the parser and the extractor both return for a message, the extractor with the parser's envelope, they
    -- agree on its sender, on whom it is from, to and copied to, on where replies go, on its subject and on both its times.
    pub extract-Agrees :
        (tenant : Text) (email : CleanEmail)
        → parse_envelope repr fromisoformat loads invalid sha256_hex msg tenant ≡ ok env
        → extract repr loads fromisoformat int_of is_word unescape msg env ≡ ok email
        → Agrees env email
    extract-Agrees tenant email h = Read-Agrees (parse_envelope-Read tenant h) email

    text_field-null :
        (json : Json) (key : Text)
        → get_or json key (str []) ≡ ok null
        → text_field repr json key ≡ ok (text "None")
    unfolding text_field str_of
    text_field-null json key n = rw (n) refl

    -- A subject that is null becomes the text "None", in the envelope and in the email, where both are returned.
    pub extract-null_subject :
        (tenant : Text) (json : Json) (email : CleanEmail)
        → loads (or_braces msg.raw_bytes) ≡ ok json
        → get_or json (text "subject") (str []) ≡ ok null
        → parse_envelope repr fromisoformat loads invalid sha256_hex msg tenant ≡ ok env
        → extract repr loads fromisoformat int_of is_word unescape msg env ≡ ok email
        → (env.subject ≡ text "None") × (email.subject ≡ text "None")
    extract-null_subject tenant json email l n h k = (none_text, agrees ∙ none_text)
      where
        r : Read msg env
        r = parse_envelope-Read tenant h

        same : json ≡ r.json
        same = ok_injective json r.json (sym l ∙ r.loaded)

        none_text : env.subject ≡ text "None"
        none_text =
            ok_injective env.subject (text "None")
              (sym r.subject_is ∙ text_field-null r.json (text "subject") (rw (← same) n))

        agrees : email.subject ≡ env.subject
        agrees = (extract-Agrees tenant email h k).5
