-- ===== src/Extract/Envelopes/Shared.antt =====
-- What src/mailflow/extract/envelope.py and extract/mime.py make of one message.
use mailflow.Base.{
  text, ℕ, zero, suc, ◌≤◌, Bool, false, Text, strip, has_char, take, length, Option, none, some,
  List, [], ◌∷◌, ◌≡◌, refl, ap, subst, ◌⊎◌, inl, inr, arith,
}
use mailflow.Exec.{Exc, Result, ok, err}
use mailflow.Exec.Results.{◌>>=◌, Result-cases}
use mailflow.Core.Models.{Recipient, RawMessage, Envelope, CleanEmail, Bytes, Time}
use mailflow.Core.Classification.{derive_is_bounce}
use mailflow.Extract.Attachments.{Part, PutStream}
use mailflow.Extract.Bodies.{Mode, decode_text}
use mailflow.Dict.{Dict}
use mailflow.Extract.Mime.{
  with_address, add_headers, first_recipient, or_recipient, header_recipients, one_recipient,
  Message, Origin, extract_bytes, walk_body,
}
use mailflow.Extract.Envelopes.{
  addressed, collect_headers, head_or_none, head_or_blank, address_or_blank, recips, parse_envelope,
  snippet, one_line, lf_to_space, crlf_to_space,
}

length-take : (n : ℕ) (s : Text) → length (take n s) ≤ n
length-take zero s = omega arith
length-take (suc n) [] = omega arith
length-take (suc n) (c ∷ s) = ground (arith, length-take n s)

no_lf : (n : ℕ) (s : Text) → has_char 10 (take n (lf_to_space s)) ≡ false
unfolding has_char
no_lf zero s = refl
no_lf (suc n) [] = refl
no_lf (suc n) (c ∷ s) = ground (arith, no_lf n s)

-- At most so many characters, and no line feed among them.
abbrev pub OneLine : ℕ → Text → Type 0
OneLine n s = (length s ≤ n) × (has_char 10 s ≡ false)

one_line-OneLine : (n : ℕ) (s : Text) → OneLine n (one_line n s)
unfolding one_line
one_line-OneLine n s =
    (length-take n (lf_to_space (crlf_to_space (strip s))), no_lf n (crlf_to_space (strip s)))

-- What an email says as the envelope of its message does.
abbrev pub SameMail : Envelope → CleanEmail → Type 0
SameMail env email =
    (email.canonical_id ≡ env.canonical_id)
    × (email.message_id ≡ env.message_id)
    × (email.message_id_trusted ≡ env.message_id_trusted)
    × (email.from_ ≡ env.from_)
    × (email.sender ≡ env.sender)
    × (email.reply_to ≡ env.reply_to)
    × (email.to ≡ env.to)
    × (email.cc ≡ env.cc)
    × (email.subject ≡ env.subject)
    × (email.list_id ≡ env.list_id)
    × (email.is_auto_submitted ≡ env.is_auto_submitted)
    × (email.is_bounce ≡ env.is_bounce)
    × (email.raw_headers ≡ env.headers)

-- What the pipeline asks the extractor for.
abbrev pub origin_of : RawMessage → Text → Origin
origin_of msg stream_id = record {
  provider = msg.provider;
  provider_message_id = msg.provider_message_id;
  stream_id = stream_id;
  watched_mailbox = msg.stream.mailbox;
  thread_key = msg.thread_key;
}

-- What an action returns, where it does.
abbrev WhereOk : {X A : Type 0} → (A → Type 0) → Result A × X → Type 0
WhereOk P (ok a, y) = P a
WhereOk P (err e, y) = Unit

abbrev WhereReturned : {A : Type 0} → (A → Type 0) → Result A → Type 0
WhereReturned P (ok a) = P a
WhereReturned P (err e) = Unit

addressed-same : (l : List (Text × Text)) → with_address l ≡ addressed l
addressed-same [] = refl
addressed-same ((n, a) ∷ l) = rw (addressed-same l) refl

collect_headers-same :
    (items : List (Text × Text)) (headers : Dict Text (List Text))
    → add_headers items headers ≡ collect_headers items headers
collect_headers-same [] headers = refl
collect_headers-same ((k, v) ∷ items) headers = collect_headers-same items _

head_or_none-same : (l : List Recipient) → first_recipient l ≡ head_or_none l
head_or_none-same [] = refl
head_or_none-same (r ∷ rs) = refl

head_or_blank-same :
    (l : List Recipient)
    → (or_recipient (first_recipient l) ≡ head_or_blank l)
      × ((or_recipient (first_recipient l)).address ≡ address_or_blank l)
head_or_blank-same [] = (refl, refl)
head_or_blank-same (r ∷ rs) = (refl, refl)

module _ (getaddresses : List Text → List (Text × Text)) (m : Message) where
  recips-same :
      (header : Text) → header_recipients getaddresses m header ≡ recips getaddresses m header
  unfolding header_recipients recips
  recips-same header = addressed-same (getaddresses (m.get_all header))

  one-same :
      (header : Text)
      → one_recipient getaddresses m header ≡ head_or_none (recips getaddresses m header)
  unfolding one_recipient
  one-same header = rw (recips-same header) (head_or_none-same (recips getaddresses m header))

  from-same :
      (or_recipient (one_recipient getaddresses m (text "from"))
        ≡ head_or_blank (recips getaddresses m (text "from")))
      × ((or_recipient (one_recipient getaddresses m (text "from"))).address
          ≡ address_or_blank (recips getaddresses m (text "from")))
  unfolding one_recipient
  from-same =
      rw (recips-same (text "from")) (head_or_blank-same (recips getaddresses m (text "from")))

run-cases :
    {X A : Type 0} (p : Result A × X)
    → ((a : A) × (y : X) × (p ≡ (ok a, y))) ⊎ ((e : Exc) × (y : X) × (p ≡ (err e, y)))
run-cases (ok a, y) = inl (a, y, refl)
run-cases (err e, y) = inr (e, y, refl)

module _ {X : Type 0} (is_word : ℕ → Bool) (unescape : Text → Text) (is_decode_error : Exc → Bool)
    (decode_replace : Bytes → Text) (sha256_hex : Bytes → Text) (blob_store : Option (PutStream X))
    (mode : Mode X) (sha256_text : Text → Text) (getaddresses : List Text → List (Text × Text))
    (parsedate : Text → Option Time) (message_from_bytes : Bytes → Message) (snippet_chars : ℕ)
    (get_body : Message → Option Part) where
  abbrev pub extracting : RawMessage → Text → X → Result CleanEmail × X
  extracting msg stream_id x =
      extract_bytes is_word unescape is_decode_error decode_replace sha256_hex blob_store mode
        sha256_text getaddresses parsedate message_from_bytes msg.raw_bytes
        (origin_of msg stream_id) x

  snippet-OneLine :
      (b : Option Part)
      → WhereReturned
          (OneLine snippet_chars)
          (snippet is_decode_error decode_replace snippet_chars b)
  unfolding snippet
  snippet-OneLine none = (omega arith, no_lf 0 [])
  snippet-OneLine (some body) = decoded (decode_text is_decode_error decode_replace body)
    where
      decoded :
          (r : Result Text)
          → WhereReturned (OneLine snippet_chars) (r >>= λ t. ok (one_line snippet_chars t))
      decoded (ok t) = one_line-OneLine snippet_chars t
      decoded (err e) = tt

  envelope-by_result :
      (msg : RawMessage) (tenant stream_id : Text) (x : X)
      → WhereReturned
          (λ env.
            OneLine snippet_chars env.snippet × WhereOk (SameMail env) (extracting msg stream_id x))
          (parse_envelope is_decode_error decode_replace snippet_chars get_body sha256_text
            getaddresses message_from_bytes msg tenant)
  unfolding parse_envelope extract_bytes
  envelope-by_result msg tenant stream_id x =
      let parsed = message_from_bytes msg.raw_bytes in
      elim (Result-cases (snippet is_decode_error decode_replace snippet_chars (get_body parsed))) [
        | inr (e, q) ↦ rw (q) tt
        | inl (s, q) ↦ rw (q) (
          returned s q (snippet-OneLine (get_body parsed)),
          elim (run-cases (
              walk_body is_word unescape is_decode_error decode_replace sha256_hex blob_store mode
                parsed x)) [
                  | inr (e, y, h) ↦ rw (h) tt
                  | inl (w, y, h) ↦ rw (h) (
                    refl,
                    refl,
                    refl,
                    (from-same getaddresses parsed).0,
                    one-same getaddresses parsed (text "sender"),
                    one-same getaddresses parsed (text "reply-to"),
                    recips-same getaddresses parsed (text "to"),
                    recips-same getaddresses parsed (text "cc"),
                    refl,
                    refl,
                    refl,
                    ap
                        (λ from_addr.
                          derive_is_bounce from_addr (parsed.header (text "return-path"))
                            (parsed.header (text "content-type")))
                        (from-same getaddresses parsed).1,
                    collect_headers-same parsed.items [],
                  )
                ],
        )
      ]
    where
      returned :
          (s : Text)
          → snippet is_decode_error decode_replace snippet_chars
              (get_body (message_from_bytes msg.raw_bytes))
            ≡ ok s
          → WhereReturned (OneLine snippet_chars) (
              snippet is_decode_error decode_replace snippet_chars
                (get_body (message_from_bytes msg.raw_bytes)))
          → OneLine snippet_chars s
      returned s q h = subst (WhereReturned (OneLine snippet_chars)) q h

  -- Where the envelope parser and the extractor both return for a message, they agree on its identity, on all whom it
  -- names, and on its subject, list, headers, and on whether it is sent automatically or bounced; the snippet of the
  -- envelope has no line feed and at most as many characters as were asked for.
  pub parse_envelope-extract_bytes :
      (msg : RawMessage) (tenant stream_id : Text) (x y : X) (env : Envelope) (email : CleanEmail)
      → parse_envelope is_decode_error decode_replace snippet_chars get_body sha256_text
          getaddresses message_from_bytes msg tenant
        ≡ ok env
      → extracting msg stream_id x ≡ (ok email, y)
      → SameMail env email × OneLine snippet_chars env.snippet
  parse_envelope-extract_bytes msg tenant stream_id x y env email h k =
      let both =
        subst
          (WhereReturned (λ env.
            OneLine snippet_chars env.snippet
            × WhereOk (SameMail env) (extracting msg stream_id x)))
          h (envelope-by_result msg tenant stream_id x) in
      (subst (WhereOk (SameMail env)) k both.1, both.0)
