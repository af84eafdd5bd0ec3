-- ===== src/Gmail/Webhook.antt =====
-- `GmailWebhookVerifier` of src/mailflow/adapters/gmail/webhook.py. The decoder of the token is a parameter, an
-- exception of the class `AuthError` being of the kind `auth`; claims are JSON.
use mailflow.Base.{
  Bool, true, false, ◌&&◌, not, Text, text, text_eq, text_Eq, lower, is_space, is_empty, has,
  Option, none, some, List, [], ◌∷◌, ◌++◌, ◌≡◌, refl, arith, if◌then◌else◌,
}
use mailflow.Exec.{Exc, ErrorKind, auth, unknown, Result, ok, err}
use mailflow.Exec.Results.{◌>>=◌}
use mailflow.Dict
use mailflow.Dict.{Dict}
use mailflow.Json.{Json, null, str, array, object, str_of, type_name}
use mailflow.Core.Models.{Bytes}

-- `WebhookIdentity`
pub record WebhookIdentity : Type 0 where
  pub provider : Text
  pub mailbox : Option Text
  pub subscription_id : Option Text

unfoldable pub auth_error : Text → Exc
auth_error message = record { kind = auth; class_name = text "AuthError"; message = message }

-- The first word of a text, and the text behind the white space that follows it.
unfoldable pub split_word : Text → Text × Text
unfolding is_space
split_word [] = ([], [])
split_word (c ∷ s) =
    let (word, rest) = split_word s in if is_space c then ([], c ∷ s) else (c ∷ word, rest)

unfoldable pub skip_space : Text → Text
unfolding is_space
skip_space [] = []
skip_space (c ∷ s) = if is_space c then skip_space s else c ∷ s

abbrev missing_bearer : Exc
missing_bearer = record {
  kind = auth;
  class_name = text "AuthError";
  message = text "missing or malformed Authorization: Bearer header on push";
}

-- value.split(None, 1), where there are two parts and the first is "bearer": the second.
unfoldable pub bearer_of : Text → Result Text
unfolding split_word skip_space lower text_eq
bearer_of value =
    let (word, rest) = split_word (skip_space value) in
    let token = skip_space rest in
    if text_eq (lower word) (text "bearer") && not (is_empty token)
    then ok token
    else err missing_bearer

-- `_bearer`: the first header of the name decides.
unfoldable pub bearer : Dict Text Text → Result Text
unfolding bearer_of
bearer [] = err missing_bearer
bearer ((key, value) ∷ headers) =
    let rest = bearer headers in
    if text_eq (lower key) (text "authorization") then bearer_of value else rest

abbrev pub google_issuers : List Text
google_issuers = text "accounts.google.com" ∷ text "https://accounts.google.com" ∷ []

pub record Verifier : Type 0 where
  pub audience : Text
  pub issuer : Text
  pub allowed_emails : Option (List Text)
  pub subscription_id : Option Text
  -- decoder(token, audience)
  pub decoder : Text → Text → Result (Dict Text Json)
  pub repr : Json → Text

abbrev unhashable : Json → Exc
unhashable j = record {
  kind = unknown;
  class_name = text "TypeError";
  message = text "unhashable type: '" ++ (type_name j ++ text "'");
}

-- `claim in texts` for a set: a list or a dict has no hash.
abbrev pub in_set : Json → List Text → Result Bool
in_set (str t) l = ok (has t l)
in_set (array a) l = err (unhashable (array a))
in_set (object fs) l = err (unhashable (object fs))
in_set j l = ok false

-- claim == text
abbrev pub is_text : Json → Text → Bool
is_text (str t) u = text_eq t u
is_text j u = false

module _ (v : Verifier) where
  -- Any failure of the decoder is an `AuthError`.
  abbrev pub on_decoded : Result (Dict Text Json) → Result (Dict Text Json)
  on_decoded (ok claims) = ok claims
  on_decoded (err exc) = err (as_auth exc exc.kind)
    where
      as_auth : Exc → ErrorKind → Exc
      as_auth e auth = e
      as_auth e _ = auth_error (text "push token verification failed: " ++ e.message)

  abbrev pub or_null : Option Json → Json
  or_null none = null
  or_null (some j) = j

  abbrev pub is_allowed : Option (List Text) → Json → Result Bool
  is_allowed none email = ok true
  is_allowed (some allowed) email = in_set email allowed

  abbrev pub mailbox_of : Json → Option Text
  mailbox_of null = none
  mailbox_of j = some (str_of v.repr j)

  abbrev pub identity_of : Json → WebhookIdentity
  identity_of email = record {
    provider = text "gmail";
    mailbox = mailbox_of email;
    subscription_id = v.subscription_id;
  }

  abbrev pub if_allowed : Json → Bool → Result WebhookIdentity
  if_allowed email true = ok (identity_of email)
  if_allowed email false =
      err (auth_error (text "push from unauthorized service account: " ++ v.repr email))

  abbrev pub if_issued : Dict Text Json → Bool → Result WebhookIdentity
  if_issued claims false = err (
      auth_error (
        text "push token from untrusted issuer: "
        ++ v.repr (or_null (Dict.get claims (text "iss")))))
  if_issued claims true =
      let email = or_null (Dict.get claims (text "email")) in
      if is_text (or_null (Dict.get claims (text "aud"))) v.audience
      then (is_allowed v.allowed_emails email >>= if_allowed email)
      else err (auth_error (text "push token audience mismatch"))

  abbrev pub check_claims : Dict Text Json → Result WebhookIdentity
  check_claims claims =
      in_set (or_null (Dict.get claims (text "iss"))) (v.issuer ∷ google_issuers)
      >>= if_issued claims

  unfoldable pub verify : Dict Text Text → Bytes → Result WebhookIdentity
  unfolding bearer auth_error Dict.get str_of text_eq
  verify headers body =
      bearer headers >>= λ token. on_decoded (v.decoder token v.audience) >>= check_claims

  -- What the token of a verified push says: who issued it, for whom, and for which account.
  pub record Genuine (headers : Dict Text Text) (i : WebhookIdentity) : Type 0 where
    pub token : Text
    pub claims : Dict Text Json
    pub carried : bearer headers ≡ ok token
    pub decoded : v.decoder token v.audience ≡ ok claims
    pub issued :
        in_set (or_null (Dict.get claims (text "iss"))) (v.issuer ∷ google_issuers) ≡ ok true
    pub addressed : is_text (or_null (Dict.get claims (text "aud"))) v.audience ≡ true
    pub allowed : is_allowed v.allowed_emails (or_null (Dict.get claims (text "email"))) ≡ ok true
    pub named : i ≡ identity_of (or_null (Dict.get claims (text "email")))

  -- A push is verified only where it carries a bearer token that the decoder accepts for the audience,
  -- and the claims of that token name a known issuer, the audience, and an account that is allowed; the
  -- identity is the one that the claims name.
  pub verify-Genuine :
      (headers : Dict Text Text) (body : Bytes) (i : WebhookIdentity)
      → verify headers body ≡ ok i
      → Genuine headers i
  unfolding verify
  verify-Genuine headers body i h = by_bearer (bearer headers) refl h
    where
      by_email :
          (token : Text) (claims : Dict Text Json)
          → bearer headers ≡ ok token
          → v.decoder token v.audience ≡ ok claims
          → in_set (or_null (Dict.get claims (text "iss"))) (v.issuer ∷ google_issuers) ≡ ok true
          → is_text (or_null (Dict.get claims (text "aud"))) v.audience ≡ true
          → (r : Result Bool)
          → is_allowed v.allowed_emails (or_null (Dict.get claims (text "email"))) ≡ r
          → (r >>= if_allowed (or_null (Dict.get claims (text "email")))) ≡ ok i
          → Genuine headers i
      by_email token claims b d s a (ok true) r q = record {
        token = token;
        claims = claims;
        carried = b;
        decoded = d;
        issued = s;
        addressed = a;
        allowed = r;
        named = ground (arith, q);
      }
      by_email token claims b d s a (ok false) r q = cc
      by_email token claims b d s a (err e) r q = cc

      by_audience :
          (token : Text) (claims : Dict Text Json)
          → bearer headers ≡ ok token
          → v.decoder token v.audience ≡ ok claims
          → in_set (or_null (Dict.get claims (text "iss"))) (v.issuer ∷ google_issuers) ≡ ok true
          → (a : Bool) → is_text (or_null (Dict.get claims (text "aud"))) v.audience ≡ a
          → (if a
              then (is_allowed v.allowed_emails (or_null (Dict.get claims (text "email")))
                  >>= if_allowed (or_null (Dict.get claims (text "email"))))
              else err (auth_error (text "push token audience mismatch")))
            ≡ ok i
          → Genuine headers i
      by_audience token claims b d s true a q = by_email token claims b d s a _ refl q
      by_audience token claims b d s false a q = cc

      by_issuer :
          (token : Text) (claims : Dict Text Json)
          → bearer headers ≡ ok token
          → v.decoder token v.audience ≡ ok claims
          → (r : Result Bool)
          → in_set (or_null (Dict.get claims (text "iss"))) (v.issuer ∷ google_issuers) ≡ r
          → (r >>= if_issued claims) ≡ ok i
          → Genuine headers i
      by_issuer token claims b d (ok true) s q = by_audience token claims b d s _ refl q
      by_issuer token claims b d (ok false) s q = cc
      by_issuer token claims b d (err e) s q = cc

      by_decoder :
          (token : Text)
          → bearer headers ≡ ok token
          → (r : Result (Dict Text Json)) → v.decoder token v.audience ≡ r
          → (on_decoded r >>= check_claims) ≡ ok i
          → Genuine headers i
      by_decoder token b (ok claims) d q = by_issuer token claims b d _ refl q
      by_decoder token b (err e) d q = cc

      by_bearer :
          (r : Result Text)
          → bearer headers ≡ r
          → (r >>= λ token. on_decoded (v.decoder token v.audience) >>= check_claims) ≡ ok i
          → Genuine headers i
      by_bearer (ok token) b q = by_decoder token b _ refl q
      by_bearer (err e) b q = cc
