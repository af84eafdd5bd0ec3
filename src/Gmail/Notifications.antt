-- ===== src/Gmail/Notifications.antt =====
-- src/mailflow/adapters/gmail/notifications.py. `json.loads` and `int` are parameters, none where they raise the
-- exceptions that the parser catches; the verifier is the webhook's, or another.
pub mod Encoded
use mailflow.Base.{
  ℕ, zero, suc, ◌%◌, ◌==◌, Bool, true, false, ◌&&◌, ℤ, Text, text, Option, none, some, List, [],
  ◌∷◌, ◌++◌, is_empty, length, is_some, if◌then◌else◌,
}
use mailflow.Exec.{Exc, Result, ok, err}
use mailflow.Exec.Results.{◌>>=◌}
use mailflow.Dict.{Dict}
use mailflow.Base64.{digit_value, b64decode}
use mailflow.Json.{Json, null, str, object, get_or, str_of}
use mailflow.Core.Models.{Bytes}

-- The padding that may end a text: at most this many.
unfoldable pub ends_padded : ℕ → Text → Bool
ends_padded n [] = true
ends_padded zero (c ∷ s) = false
ends_padded (suc n) (c ∷ s) = c == b'=' && ends_padded n s

-- Digits of the alphabet and then at most two pads.
unfoldable pub is_digits : Text → Bool
unfolding digit_value ends_padded
is_digits [] = true
is_digits (c ∷ s) = if is_some (digit_value c) then is_digits s else ends_padded 2 (c ∷ s)

-- base64.b64decode(raw, validate=True)
unfoldable pub b64decode_strict : Bytes → Option Bytes
unfolding is_digits b64decode
b64decode_strict raw = if is_digits raw && length raw % 4 == 0 then b64decode raw else none

-- `is_mailflow_error` tells what `except MailflowError` catches.
module _ (repr : Json → Text) (loads : Bytes → Option Json) (int_of : Json → Option ℤ)
    (is_mailflow_error : Exc → Bool) where
  abbrev with_id : Text → Option ℤ → Option (Text × ℤ)
  with_id addr none = none
  with_id addr (some n) = some (addr, n)

  abbrev with_history : Text → Json → Option (Text × ℤ)
  with_history addr null = none
  with_history addr hid = if is_empty addr then none else with_id addr (int_of hid)

  abbrev of_object : Json → Result (Option (Text × ℤ))
  of_object (object fs) = get_or (object fs) (text "emailAddress") (str []) >>= λ addr.
      get_or (object fs) (text "historyId") null >>= λ hid. ok (with_history (str_of repr addr) hid)
  of_object _ = ok none

  abbrev or_none : Result (Option (Text × ℤ)) → Option (Text × ℤ)
  or_none (ok o) = o
  or_none (err e) = none

  abbrev of_json : Option Json → Option (Text × ℤ)
  of_json none = none
  of_json (some j) = or_none (of_object j)

  -- `_try`; the lookups of a dict do not raise.
  unfoldable pub try_parse : Bytes → Option (Text × ℤ)
  unfolding get_or str_of
  try_parse raw = of_json (loads raw)

  abbrev on_decoded : Option Bytes → Option (Text × ℤ)
  on_decoded none = none
  on_decoded (some decoded) = try_parse decoded

  abbrev direct_or : Option (Text × ℤ) → Option (Text × ℤ) → Option (Text × ℤ)
  direct_or none o = o
  direct_or (some p) o = some p

  -- What the payload says, plain or in base64.
  abbrev pub parse_raw : Bytes → Option (Text × ℤ)
  parse_raw raw = direct_or (try_parse raw) (on_decoded (b64decode_strict raw))

  abbrev on_verified : {A : Type 0} → Bytes → Result A → Result (Option (Text × ℤ))
  on_verified raw (ok identity) = ok (parse_raw raw)
  on_verified raw (err e) = if is_mailflow_error e then ok none else err e

  -- A verifier that refuses drops the notification; what is no `MailflowError` goes through.
  unfoldable pub parse_pubsub_message :
      {A : Type 0}
      → Option (Dict Text Text → Bytes → Result A)
      → Dict Text Text
      → Bytes
      → Result (Option (Text × ℤ))
  unfolding try_parse b64decode_strict
  parse_pubsub_message none headers raw = ok (parse_raw raw)
  parse_pubsub_message (some verify) headers raw = on_verified raw (verify headers raw)
